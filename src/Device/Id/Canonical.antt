-- ===== src/Device/Id/Canonical.antt =====
-- The identifiers that device/id.go produces are in canonical form.
use Prim.Native.Char.{Char}
use mathlib.Core.Logic.{if_neg}
use webpa_common.Base.{
  none, ◌≡◌, Bool, true, false, ◌||◌, if◌then◌else◌, ◌==◌, String, String_discrete, ok, err, arith,
  Option-cases, Bool-cases, inl, inr, ap, subst, sym, ◌∙◌,
}
use webpa_common.Device.Id.{
  length, find_submatch, map_mac, folds, match_word, match_prefix, render, canonical, parse_id,
  mac_length, invalid_device_name,
}
use webpa_common.Device.Id.Hex.{IsHex, map_mac-IsHex, map_mac_fixed, IsHex-NoSlash}
use webpa_common.Device.Id.Spelling.{IsPrefix, find_submatch-IsPrefix}
use webpa_common.Device.Id.Match.{IsPart, Again, find_submatch-cases}

hex-IsPart : (s : String) → length (map_mac s).0 ≡ mac_length → IsPart (map_mac s).0
hex-IsPart s e = record {
  no_slash = IsHex-NoSlash (map_mac s).0 (map_mac-IsHex s);
  not_empty = λ p. absurd (omega (arith, e, ap length p));
}

-- The test on a MAC part.
abbrev is_bad : String → Bool
is_bad i = (map_mac i).1 || (if length (map_mac i).0 == mac_length then false else true)

mac_bad : (i : String) → is_bad i ≡ true → canonical "mac" i ≡ err invalid_device_name
unfolding canonical String_discrete
mac_bad i h = rw h

mac_good : (i : String) → is_bad i ≡ false → canonical "mac" i ≡ ok (render "mac" (map_mac i).0)
unfolding canonical String_discrete
mac_good i h = rw h

mac_good-length : (i : String) → is_bad i ≡ false → length (map_mac i).0 ≡ mac_length
mac_good-length i h = ground arith

mac_part-Again :
    (i : String)
    → Again "mac"
    → is_bad i ≡ false
    → parse_id (render "mac" (map_mac i).0) ≡ ok (render "mac" (map_mac i).0)
unfolding parse_id
mac_part-Again i again h =
    let part = (map_mac i).0 in
    let fixed = map_mac_fixed part (map_mac-IsHex i) in
    let len : length part ≡ mac_length = mac_good-length i h in
    let fine : is_bad part ≡ false = rw fixed (rw len) in
    rw (again part (hex-IsPart i len), parse_id)
      (mac_good part fine ∙ ap (λ x. ok (render "mac" x)) (ap (λ x. x.0) fixed))

canonical-Again :
    (prefix i id : String)
    → IsPart i
    → Again prefix
    → canonical prefix i ≡ ok id
    → parse_id id ≡ ok id
unfolding canonical parse_id
canonical-Again prefix i id part again e = elim (String_discrete prefix "mac") [
  | yes p ↦ elim (Bool-cases (is_bad i)) [
    | inl bad ↦ cc (mac_bad i bad, subst (λ x. canonical x i ≡ ok id) p e)
    | inr good ↦
        let q : render "mac" (map_mac i).0 ≡ id =
          cc (mac_good i good, subst (λ x. canonical x i ≡ ok id) p e) in
        subst (λ x. parse_id x ≡ ok x) q (mac_part-Again i (subst Again p again) good)
  ]
  | no p ↦
      let q : render prefix i ≡ id = ground arith in
      subst (λ x. parse_id x ≡ ok x) q (rw (again i part, parse_id) (rw (if_neg _ p)))
]

-- An identifier is a fixed point of the parser that made it.
pub parse_id-parse_id : (name id : String) → parse_id name ≡ ok id → parse_id id ≡ ok id
unfolding parse_id
parse_id-parse_id name id e = elim (Option-cases (find_submatch name)) [
  | inl n ↦ ground arith
  | inr ((prefix, i), f) ↦
      let (part, again) = find_submatch-cases name prefix i f in
      canonical-Again prefix i id part again (ground arith)
]

-- An identifier is a prefix, which is mac, uuid, dns or serial, but for a long s that may stand for an
-- s, then a colon and a part that is not empty and has no slash. The part of a MAC is twelve
-- lower-case hexadecimal digits.
pub record IsCanonical (id : String) : Type 0 where
  pub prefix : String
  pub part : String
  pub is_prefix : IsPrefix prefix
  pub rendered : id ≡ render prefix part
  pub is_part : IsPart part
  pub mac : prefix ≡ "mac" → IsHex part × (length part ≡ mac_length)

-- Every identifier that the parser returns is canonical.
pub parse_id-IsCanonical : (name id : String) → parse_id name ≡ ok id → IsCanonical id
unfolding parse_id canonical
parse_id-IsCanonical name id e = elim (Option-cases (find_submatch name)) [
  | inl n ↦ ground arith
  | inr ((prefix, i), f) ↦
      let e' : canonical prefix i ≡ ok id = ground arith in
      elim (String_discrete prefix "mac") [
        | yes p ↦ elim (Bool-cases (is_bad i)) [
          | inl bad ↦ cc (mac_bad i bad, subst (λ x. canonical x i ≡ ok id) p e')
          | inr good ↦
              let q : render "mac" (map_mac i).0 ≡ id =
                cc (mac_good i good, subst (λ x. canonical x i ≡ ok id) p e') in
              record {
                prefix = "mac";
                part = (map_mac i).0;
                is_prefix = subst IsPrefix p (find_submatch-IsPrefix name prefix i f);
                rendered = sym q;
                is_part = hex-IsPart i (mac_good-length i good);
                mac = λ _. (map_mac-IsHex i, mac_good-length i good);
              }
        ]
        | no p ↦ record {
          prefix = prefix;
          part = i;
          is_prefix = find_submatch-IsPrefix name prefix i f;
          rendered = ground arith;
          is_part = (find_submatch-cases name prefix i f).0;
          mac = λ m. absurd (p m);
        }
      ]
]

no_head :
    (p : Char) (w : String) (c : Char) (s : String)
    → folds p c ≡ false
    → match_prefix (String.◌∷◌ p w) (String.◌∷◌ c s) ≡ none
unfolding match_prefix match_word
no_head p w c s e = ground arith

-- A name that begins with no letter of a prefix is refused.
pub parse_id_no_head :
    (c : Char) (s : String)
    → folds "m" c ≡ false
    → folds "u" c ≡ false
    → folds "d" c ≡ false
    → folds "s" c ≡ false
    → parse_id (String.◌∷◌ c s) ≡ err invalid_device_name
unfolding parse_id find_submatch
parse_id_no_head c s m u d e =
    rw (no_head "m" "ac" c s m, parse_id)
      (rw (no_head "u" "uid" c s u) (rw (no_head "d" "ns" c s d) (rw (no_head "s" "erial" c s e))))
