-- ===== src/Device/DeviceGate/Admission.antt =====
-- Which devices device/devicegate/filter.go lets in.
use webpa_common.Base.{
  ◌≡◌, refl, Bool, true, false, if◌then◌else◌, Option, none, some, List, [], ◌∷◌, ◌++◌, String,
  GoMap, Key, lookup, string_key, ok, is_none, All, ◌⊎◌, inl, inr, Bool-cases, Option-cases, ap,
}
use webpa_common.Device.DeviceGate.{
  Item, hashable, unhashable, Value, Location, MatchResult, Metadata, FilterSet, FilterGate, has,
  filter_match, params_of, located, metadata_match, match_any, allow_connection,
}

module _ {K : Type 0} ⦃k : Key K⦄ where
  -- Go can hash the value.
  abbrev pub IsHashable : Item K → Type 0
  IsHashable (hashable x) = Unit
  IsHashable unhashable = ⊥

  abbrev pub is_member : FilterSet K → Item K → Bool
  is_member set unhashable = false
  is_member set (hashable x) = elim (lookup x set) [ none ↦ false | some b ↦ b ]

  abbrev pub any_member : FilterSet K → List (Item K) → Bool
  any_member set [] = false
  any_member set (x ∷ xs) = if is_member set x then true else any_member set xs

  filter_match_lem :
      (set : FilterSet K) (xs : List (Item K))
      → All IsHashable xs
      → filter_match set xs ≡ ok (any_member set xs)
  unfolding filter_match has
  filter_match_lem set [] a = refl
  filter_match_lem set (hashable x ∷ xs) a = elim (Bool-cases (is_member set (hashable x))) [
    | inl e ↦ rw (e) refl
    | inr e ↦ rw (e) (filter_match_lem set xs a.1)
  ]
  filter_match_lem set (unhashable ∷ xs) a = elim a.0 [ ]

  -- What the device has under a key can be hashed.
  unfoldable pub Clean : Metadata K → String → Type 0
  Clean m key =
      (v : Value K) (l : Location) → located key m ≡ some (v, l) → All IsHashable (params_of v)

  -- Whether a filter holds against the device.
  abbrev pub holds : Metadata K → String × FilterSet K → Bool
  holds m (key, set) = elim (located key m) [
    | none ↦ false
    | some (v, _) ↦ any_member set (params_of v)
  ]

  metadata_match_lem :
      (key : String) (set : FilterSet K) (m : Metadata K)
      → Clean m key
      → ((metadata_match key set m ≡ ok none) × (holds m (key, set) ≡ false))
        ⊎ ((v : Value K) × (l : Location) × (located key m ≡ some (v, l))
            × (any_member set (params_of v) ≡ true)
            × (metadata_match key set m ≡ ok (some (record { location = l; key = key }))))
  unfolding metadata_match Clean
  metadata_match_lem key set m c = elim (Option-cases (located key m)) [
    | inl e ↦ inl (rw (e, metadata_match) refl, rw (e, holds) refl)
    | inr ((v, l), e) ↦
        let f = filter_match_lem set (params_of v) (c v l e) in
        elim (Bool-cases (any_member set (params_of v))) [
          | inl y ↦ inr (v, l, e, y, rw (e, metadata_match) (rw (f) (rw (y) refl)))
          | inr y ↦ inl (rw (e, metadata_match) (rw (f) (rw (y) refl)), rw (e, holds) y)
        ]
  ]

  -- How the gate can answer for a list of filters.
  pub Answers : Metadata K → GoMap String (FilterSet K) → Option MatchResult → Type 0
  Answers m filters r =
      ((r ≡ none) × All (λ e. holds m e ≡ false) filters)
      ⊎ ((res : MatchResult) × (set : FilterSet K) × (v : Value K) × (before : GoMap String
            (FilterSet K))
          × (after : GoMap String (FilterSet K)) × (r ≡ some res)
          × (filters ≡ before ++ (res.key, set) ∷ after)
          × (located res.key m ≡ some (v, res.location))
          × (any_member set (params_of v) ≡ true))

  later :
      (m : Metadata K) (key : String) (set : FilterSet K) (filters : GoMap String (FilterSet K))
      (r : Option MatchResult)
      → holds m (key, set) ≡ false
      → Answers m filters r
      → Answers m ((key, set) ∷ filters) r
  unfolding Answers
  later m key set filters r n (inl (p, a)) = inl (p, (n, a))
  later m key set filters r n (inr (res, s, v, before, after, p, q, e, y)) =
      inr (res, s, v, (key, set) ∷ before, after, p, ap (λ x. (key, set) ∷ x) q, e, y)

  match_any_lem :
      (m : Metadata K) (filters : GoMap String (FilterSet K))
      → All (λ e. Clean m e.0) filters
      → (r : Option MatchResult) × (match_any filters m ≡ ok r) × Answers m filters r
  unfolding match_any Answers
  match_any_lem m [] c = (none, refl, inl (refl, tt))
  match_any_lem m ((key, set) ∷ filters) c =
      let (r, done, answer) = match_any_lem m filters c.1 in
      elim (metadata_match_lem key set m c.0) [
        | inr (v, l, e, y, p) ↦ (
          some (record { location = l; key = key }),
          rw (p, match_any) refl,
          inr (record { location = l; key = key }, set, v, [], filters, refl, refl, e, y),
        )
        | inl (p, n) ↦ (r, rw (p, match_any) done, later m key set filters r n answer)
      ]

  -- A device is let in exactly when no filter holds against it: no value that the device has under
  -- a filter's key is in the filter's set. When it is not let in, the result names a filter that
  -- does hold and the place, metadata or claims, where the value was found. This needs that Go can
  -- hash what the device has under the keys of the filters.
  pub allow_connection_lem :
      (m : Metadata K) (f : FilterGate K)
      → All (λ e. Clean m e.0) f.filter_store
      → (r : Option MatchResult) × (allow_connection m f ≡ ok (is_none r, r))
        × Answers m f.filter_store r
  unfolding allow_connection
  allow_connection_lem m f c =
      let (r, done, answer) = match_any_lem m f.filter_store c in (r, rw (done) refl, answer)
