-- ===== src/Device/Id/Spelling.antt =====
-- Which prefixes the expression of device/id.go captures: its four words, in lower case.
use Prim.Native.Char.{Char, code}
use webpa_common.Base.{
  ltb, Bool, ◌≡◌, ◌⊎◌, inl, inr, refl, true, ◌==◌, ◌&&◌, some, String, arith, Option-cases,
  Bool-cases, subst,
}
use webpa_common.Device.Id.{folds, lower, match_word, match_prefix, id_part, or_else, find_submatch}

-- A word, with U+017F, the long s, for an `s` at will.
abbrev pub IsSpelling : String → String → Type 0
IsSpelling String.[] String.[] = Unit
IsSpelling String.[] (String.◌∷◌ c m) = ⊥
IsSpelling (String.◌∷◌ p w) String.[] = ⊥
IsSpelling (String.◌∷◌ p w) (String.◌∷◌ c m) =
    ((c ≡ p) ⊎ ((code p ≡ b's') × (code c ≡ 0x17F))) × IsSpelling w m

-- A prefix of an identifier.
abbrev pub IsPrefix : String → Type 0
IsPrefix m =
    IsSpelling "mac" m ⊎ (IsSpelling "uuid" m ⊎ (IsSpelling "dns" m ⊎ IsSpelling "serial" m))

-- A word of ASCII letters.
abbrev is_plain : String → Bool
is_plain String.[] = true
is_plain (String.◌∷◌ p w) = ltb (code p) 128 && is_plain w

lower-cases :
    (p c : Char)
    → ltb (code p) 128 ≡ true
    → folds p c ≡ true
    → (lower p c ≡ p) ⊎ ((code p ≡ b's') × (code (lower p c) ≡ 0x17F))
unfolding folds lower
lower-cases p c a h = elim (Bool-cases (code c == 0x17F)) [
  | inl e ↦ inr (rw (e, lower) (ground (arith, e), ground (arith, e)))
  | inr e ↦ inl (rw (e, lower) refl)
]

match_word-IsSpelling :
    (w s m r : String) → is_plain w ≡ true → match_word w s ≡ some (m, r) → IsSpelling w m
unfolding match_word
match_word-IsSpelling String.[] s m r a e =
    let q : String.[] ≡ m = ground arith in subst (IsSpelling String.[]) q tt
match_word-IsSpelling (String.◌∷◌ p w) String.[] m r a e = cc
match_word-IsSpelling (String.◌∷◌ p w) (String.◌∷◌ c s) m r a e =
    elim (Option-cases (match_word w s)) [
      | inl e' ↦ absurd (ground arith)
      | inr ((m', r'), e') ↦ elim (Bool-cases (folds p c)) [
        | inr no_match ↦ absurd (ground arith)
        | inl match ↦
            let q : String.◌∷◌ (lower p c) m' ≡ m = ground arith in
            subst (IsSpelling (String.◌∷◌ p w)) q (
              lower-cases p c (ground (arith, a)) match,
              match_word-IsSpelling w s m' r' (ground (arith, a)) e',
            )
      ]
    ]

match_prefix-IsSpelling :
    (w s m i : String) → is_plain w ≡ true → match_prefix w s ≡ some (m, i) → IsSpelling w m
unfolding match_prefix
match_prefix-IsSpelling w s m i a e = elim (Option-cases (match_word w s)) [
  | inl e' ↦ absurd (ground arith)
  | inr ((m', r), e') ↦ elim (Option-cases (id_part r)) [
    | inl e'' ↦ absurd (ground arith)
    | inr (i', e'') ↦
        let q : m' ≡ m = ground arith in
        subst (IsSpelling w) q (match_word-IsSpelling w s m' r a e')
  ]
]

-- What the expression captures first is one of the prefixes.
pub find_submatch-IsPrefix : (s m i : String) → find_submatch s ≡ some (m, i) → IsPrefix m
unfolding or_else find_submatch
find_submatch-IsPrefix s m i e = elim (Option-cases (match_prefix "mac" s)) [
  | inr (r, e1) ↦ inl (match_prefix-IsSpelling "mac" s m i refl (ground arith))
  | inl n1 ↦ elim (Option-cases (match_prefix "uuid" s)) [
    | inr (r, e2) ↦ inr (inl (match_prefix-IsSpelling "uuid" s m i refl (ground arith)))
    | inl n2 ↦ elim (Option-cases (match_prefix "dns" s)) [
      | inr (r, e3) ↦ inr (inr (inl (match_prefix-IsSpelling "dns" s m i refl (ground arith))))
      | inl n3 ↦ inr (inr (inr (match_prefix-IsSpelling "serial" s m i refl (ground arith))))
    ]
  ]
]
