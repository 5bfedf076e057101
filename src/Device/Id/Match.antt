-- ===== src/Device/Id/Match.antt =====
-- What the expression of device/id.go captures, it captures again from a rendered identifier.
use Prim.Native.Char.{Char, code}
use webpa_common.Base.{
  ◌≡◌, ◌≢◌, refl, Bool, true, false, if◌then◌else◌, ◌==◌, none, some, String, arith, Option-cases,
  Bool-cases, inl, inr, subst,
}
use webpa_common.Device.Id.{
  append, folds, lower, match_word, until_slash, id_part, match_prefix, or_else, find_submatch,
  render,
}
use webpa_common.Device.Id.Hex.{NoSlash, until_slash-NoSlash, until_slash_all}

pub lower-folds : (p c : Char) → folds p c ≡ true → folds p (lower p c) ≡ true
unfolding folds lower
lower-folds p c h = elim (Bool-cases (code c == 0x17F)) [
  | inl e ↦ rw (e, lower) h
  | inr e ↦ rw (e, lower) (ground arith)
]

pub if_same {ℓ} : {A : Type ℓ} (b : Bool) (x : A) → (if b then x else x) ≡ x
if_same true x = refl
if_same false x = refl

pub lower-lower : (p c : Char) → lower p (lower p c) ≡ lower p c
unfolding lower
lower-lower p c = elim (Bool-cases (code c == 0x17F)) [
  | inl e ↦ rw (e, lower) (rw e)
  | inr e ↦ rw (e, lower) (if_same (code p == 0x17F) p)
]

-- What a word has matched, it matches again, whatever follows.
pub match_word_again :
    (w s m r t : String) → match_word w s ≡ some (m, r) → match_word w (append m t) ≡ some (m, t)
unfolding match_word
match_word_again String.[] s m r t e =
    let p : String.[] ≡ m = ground arith in
    subst (λ x. match_word String.[] (append x t) ≡ some (x, t)) p refl
match_word_again (String.◌∷◌ p w) String.[] m r t e = cc
match_word_again (String.◌∷◌ p w) (String.◌∷◌ c s) m r t e = elim (Option-cases (match_word w s)) [
  | inl e' ↦ ground arith
  | inr ((m', r'), e') ↦ elim (Bool-cases (folds p c)) [
    | inr no_match ↦ ground arith
    | inl match ↦
        let q : String.◌∷◌ (lower p c) m' ≡ m = ground arith in
        subst (λ x. match_word (String.◌∷◌ p w) (append x t) ≡ some (x, t)) q
          (rw (lower-folds p c match, match_word_again w s m' r' t e', lower-lower p c))
  ]
]

-- A string that begins as a word does.
abbrev pub Heads : Char → String → Type 0
Heads p String.[] = ⊥
Heads p (String.◌∷◌ c m) = folds p c ≡ true

pub match_word-Heads :
    (p : Char) (w s m r : String) → match_word (String.◌∷◌ p w) s ≡ some (m, r) → Heads p m
unfolding match_word
match_word-Heads p w String.[] m r e = cc
match_word-Heads p w (String.◌∷◌ c s) m r e = elim (Option-cases (match_word w s)) [
  | inl e' ↦ ground arith
  | inr ((m', r'), e') ↦ elim (Bool-cases (folds p c)) [
    | inr no_match ↦ ground arith
    | inl match ↦
        let q : String.◌∷◌ (lower p c) m' ≡ m = ground arith in
        subst (Heads p) q (lower-folds p c match)
  ]
]

-- Two words that no letter can begin both.
abbrev pub Apart : Char → Char → Type 0
Apart p q = (c : Char) → folds p c ≡ true → folds q c ≡ false

pub no_match :
    (p q : Char) (w m t : String)
    → Heads p m
    → Apart p q
    → match_prefix (String.◌∷◌ q w) (append m t) ≡ none
unfolding match_prefix match_word
no_match p q w String.[] t h a = absurd h
no_match p q w (String.◌∷◌ c m) t h a = ground (arith, a c h)

-- A part that the expression can capture.
pub record IsPart (i : String) : Type 0 where
  pub no_slash : NoSlash i
  pub not_empty : i ≢ ""

pub id_part_lem : (s i : String) → id_part s ≡ some i → IsPart i
unfolding id_part
id_part_lem String.[] i e = cc
id_part_lem (String.◌∷◌ c s) i e =
    let q : until_slash s ≡ i = ground arith in
    subst IsPart q (record { no_slash = until_slash-NoSlash s; not_empty = λ p. ground arith })

pub id_part_again : (i : String) → IsPart i → id_part (String.◌∷◌ ":" i) ≡ some i
unfolding id_part
id_part_again i p = rw (until_slash_all i p.no_slash) (ground (arith, p.not_empty))

pub match_prefix-cases :
    (p : Char) (w s m i : String)
    → match_prefix (String.◌∷◌ p w) s ≡ some (m, i)
    → IsPart i
      × Heads p m
      × ((i' : String) → IsPart i' → match_prefix (String.◌∷◌ p w) (render m i') ≡ some (m, i'))
unfolding match_prefix
match_prefix-cases p w s m i e = elim (Option-cases (match_word (String.◌∷◌ p w) s)) [
  | inl e' ↦ ground arith
  | inr ((m', r), e') ↦ elim (Option-cases (id_part r)) [
    | inl e'' ↦ ground arith
    | inr (i', e'') ↦
        let qm : m' ≡ m = ground arith in
        let qi : i' ≡ i = ground arith in
        (
          subst IsPart qi (id_part_lem r i' e''),
          subst (Heads p) qm (match_word-Heads p w s m' r e'),
          (λ j h.
              subst (λ x. match_prefix (String.◌∷◌ p w) (render x j) ≡ some (x, j)) qm
                (rw (match_word_again (String.◌∷◌ p w) s m' r (String.◌∷◌ ":" j) e', match_prefix)
                  (rw (id_part_again j h)))),
        )
  ]
]

abbrev pub Again : String → Type 0
Again m = (i : String) → IsPart i → find_submatch (render m i) ≡ some (m, i)

pub mac-Again : (s m i : String) → match_prefix "mac" s ≡ some (m, i) → IsPart i × Again m
unfolding find_submatch
mac-Again s m i e =
    let (part, heads, again) = match_prefix-cases "m" "ac" s m i e in
    (part, (λ j h. rw (again j h)))

pub uuid-Again : (s m i : String) → match_prefix "uuid" s ≡ some (m, i) → IsPart i × Again m
unfolding find_submatch folds
uuid-Again s m i e =
    let (part, heads, again) = match_prefix-cases "u" "uid" s m i e in
    (
      part,
      (λ j h.
          rw (no_match "u" "m" "ac" m (String.◌∷◌ ":" j) heads (λ c k. ground arith))
            (rw (again j h))),
    )

pub dns-Again : (s m i : String) → match_prefix "dns" s ≡ some (m, i) → IsPart i × Again m
unfolding find_submatch folds
dns-Again s m i e =
    let (part, heads, again) = match_prefix-cases "d" "ns" s m i e in
    (
      part,
      (λ j h. rw (no_match "d" "m" "ac" m (String.◌∷◌ ":" j) heads (λ c k. ground arith)) (
          rw (no_match "d" "u" "uid" m (String.◌∷◌ ":" j) heads (λ c k. ground arith))
            (rw (again j h)))),
    )

pub serial-Again : (s m i : String) → match_prefix "serial" s ≡ some (m, i) → IsPart i × Again m
unfolding find_submatch folds
serial-Again s m i e =
    let (part, heads, again) = match_prefix-cases "s" "erial" s m i e in
    (
      part,
      (λ j h. rw (no_match "s" "m" "ac" m (String.◌∷◌ ":" j) heads (λ c k. ground arith)) (
          rw (no_match "s" "u" "uid" m (String.◌∷◌ ":" j) heads (λ c k. ground arith)) (
            rw (no_match "s" "d" "ns" m (String.◌∷◌ ":" j) heads (λ c k. ground arith))
              (rw (again j h))))),
    )

-- What the expression has captured, it captures again from the rendered identifier.
pub find_submatch-cases : (s m i : String) → find_submatch s ≡ some (m, i) → IsPart i × Again m
unfolding or_else find_submatch
find_submatch-cases s m i e = elim (Option-cases (match_prefix "mac" s)) [
  | inr (r, e1) ↦ mac-Again s m i (ground arith)
  | inl n1 ↦ elim (Option-cases (match_prefix "uuid" s)) [
    | inr (r, e2) ↦ uuid-Again s m i (ground arith)
    | inl n2 ↦ elim (Option-cases (match_prefix "dns" s)) [
      | inr (r, e3) ↦ dns-Again s m i (ground arith)
      | inl n3 ↦ serial-Again s m i (ground arith)
    ]
  ]
]
