-- ===== src/Device/Id/Hex.antt =====
-- The characters and parts of device/id.go: slashes and hexadecimal digits.
use Prim.Native.Char.{Char, code}
use webpa_common.Base.{
  ◌≡◌, ◌≢◌, refl, Bool, true, false, if◌then◌else◌, ◌==◌, Option, none, some, String, arith,
  Option-cases, Bool-cases, inl, inr, subst,
}
use webpa_common.Device.Id.{until_slash, is_lower_hex, upper_hex, lower_hex, map_mac}

-- A string without a slash.
abbrev pub NoSlash : String → Type 0
NoSlash String.[] = Unit
NoSlash (String.◌∷◌ c s) = (code c ≢ b'/') × NoSlash s

pub until_slash-NoSlash : (s : String) → NoSlash (until_slash s)
unfolding until_slash
until_slash-NoSlash String.[] = tt
until_slash-NoSlash (String.◌∷◌ c s) = elim (Bool-cases (code c == b'/')) [
  | inl e ↦ rw (e, until_slash) tt
  | inr e ↦ rw (e, until_slash) (ground arith, until_slash-NoSlash s)
]

pub until_slash_all : (s : String) → NoSlash s → until_slash s ≡ s
unfolding until_slash
until_slash_all String.[] n = refl
until_slash_all (String.◌∷◌ c s) n = ground (arith, until_slash_all s n.1)

-- A string of lower-case hexadecimal digits.
abbrev pub IsHex : String → Type 0
IsHex String.[] = Unit
IsHex (String.◌∷◌ c s) = (lower_hex c ≡ some c) × IsHex s

pub if_lower :
    (b : Bool) (x d : Char) (o : Option Char)
    → is_lower_hex x ≡ true
    → (o ≡ some d → is_lower_hex d ≡ true)
    → (if b then some x else o) ≡ some d
    → is_lower_hex d ≡ true
if_lower true x d o h k e = let p : x ≡ d = cc in subst (λ y. is_lower_hex y ≡ true) p h
if_lower false x d o h k e = k e

pub lower_hex_idem : (c d : Char) → lower_hex c ≡ some d → lower_hex d ≡ some d
unfolding lower_hex
lower_hex_idem c d e = rw (low (is_lower_hex c) refl e)
  where
    up : upper_hex c ≡ some d → is_lower_hex d ≡ true
    up = if_lower (code c == b'A') "a" d _ refl (
        if_lower (code c == b'B') "b" d _ refl (
          if_lower (code c == b'C') "c" d _ refl (
            if_lower (code c == b'D') "d" d _ refl (
              if_lower (code c == b'E') "e" d _ refl
                (if_lower (code c == b'F') "f" d none refl (λ p. cc))))))

    low :
        (b : Bool)
        → is_lower_hex c ≡ b
        → (if b then some c else upper_hex c) ≡ some d
        → is_lower_hex d ≡ true
    low true p q = let r : c ≡ d = cc in subst (λ y. is_lower_hex y ≡ true) r p
    low false p q = up q

pub map_mac-IsHex : (s : String) → IsHex (map_mac s).0
unfolding map_mac
map_mac-IsHex String.[] = tt
map_mac-IsHex (String.◌∷◌ c s) = elim (Option-cases (lower_hex c)) [
  | inl e ↦ ground (arith, map_mac-IsHex s)
  | inr (d, e) ↦ ground (arith, map_mac-IsHex s, lower_hex_idem c d e)
]

pub map_mac_fixed : (s : String) → IsHex s → map_mac s ≡ (s, false)
unfolding map_mac
map_mac_fixed String.[] h = refl
map_mac_fixed (String.◌∷◌ c s) h = ground (arith, map_mac_fixed s h.1)

pub IsHex-NoSlash : (s : String) → IsHex s → NoSlash s
unfolding lower_hex
IsHex-NoSlash String.[] h = tt
IsHex-NoSlash (String.◌∷◌ c s) h = ground (arith, IsHex-NoSlash s h.1)
