-- ===== src/Secure/KeyCache/Updates.antt =====
-- What the calls of a cache of many keys do to the keys in it.
use webpa_common.Base.{
  ℕ, suc, ◌+◌, ◌≤◌, ◌<◌, ◌≡◌, ◌≢◌, refl, sym, ◌⊎◌, inl, inr, ltb, Option, none, some, [], ◌∷◌,
  String, GoMap, lookup, insert, string_key, length, length-append, ok, err, UniqueKeys,
  lookup-insert, ap, String_discrete, ite, Outcome-cases, Option-cases, either, arith, subst, ◌∙◌,
}
use webpa_common.Secure.KeyCache.{
  Resolver, MultiCache, Refreshed, fetch_pair, copy_pairs, multi_ask, multi_locked, multi_resolve,
  refresh_with, refresh_each, update_locked,
}

-- The position of a key in a map, in the order of the loop.
abbrev pub index : {P : Type 0} → String → GoMap String P → ℕ
index key_id [] = 0
index key_id ((j, w) ∷ m) = let rest = index key_id m in ite (String_discrete j key_id) 0 (suc rest)

module _ {E P : Type 0} (delegate : Resolver E P) where
  -- What a key has after a call of the delegate for it, by its number: the answer, or the old pair.
  abbrev pub IsRenewed : ℕ → String → P → Option P → Type 0
  IsRenewed i key_id old found =
      ((p : P) × (delegate i key_id ≡ ok p) × (found ≡ some p))
      ⊎ ((e : E) × (delegate i key_id ≡ err e) × (found ≡ some old))

  abbrev pub IsRenewedIn : ℕ → String → Option P → Option P → Type 0
  IsRenewedIn i key_id none found = found ≡ none
  IsRenewedIn i key_id (some old) found = IsRenewed i key_id old found

  -- The books after a key.
  abbrev refreshed : String → P → Refreshed E P → Refreshed E P
  refreshed j w r = refresh_with (delegate r.calls j) j w (record r { calls = suc r.calls })

  refreshed-calls : (j : String) (w : P) (r : Refreshed E P) → (refreshed j w r).calls ≡ suc r.calls
  unfolding refresh_with
  refreshed-calls j w r = ground (arith, Outcome-cases (delegate r.calls j))

  refreshed_counts :
      (j : String) (w : P) (r : Refreshed E P)
      → (refreshed j w r).new_count + length (refreshed j w r).errors
        ≡ suc (r.new_count + length r.errors)
  unfolding refresh_with
  refreshed_counts j w r = elim (Outcome-cases (delegate r.calls j)) [
    | inl (e, q) ↦ ground (arith, q, length-append r.errors (e ∷ []))
    | inr (p, q) ↦ ground (arith, q)
  ]

  refreshed_other :
      (k j : String) (w : P) (r : Refreshed E P)
      → j ≢ k
      → lookup k (refreshed j w r).new_pairs ≡ lookup k r.new_pairs
  unfolding refresh_with
  refreshed_other k j w r ne = elim (Outcome-cases (delegate r.calls j)) [
    | inl (e, q) ↦ ground (arith, q, ne, lookup-insert j k w r.new_pairs)
    | inr (p, q) ↦ ground (arith, q, ne, lookup-insert j k p r.new_pairs)
  ]

  refreshed-IsRenewed :
      (k : String) (w : P) (r : Refreshed E P)
      → IsRenewed r.calls k w (lookup k (refreshed k w r).new_pairs)
  unfolding refresh_with
  refreshed-IsRenewed k w r = elim (Outcome-cases (delegate r.calls k)) [
    | inl (e, q) ↦ inr (e, q, ground (arith, q, lookup-insert k k w r.new_pairs))
    | inr (p, q) ↦ inl (p, q, ground (arith, q, lookup-insert k k p r.new_pairs))
  ]

  refresh_each_counts :
      (m : GoMap String P) (r : Refreshed E P)
      → ((refresh_each delegate m r).new_count + length (refresh_each delegate m r).errors
          ≡ r.new_count + length r.errors + length m)
        × ((refresh_each delegate m r).calls ≡ r.calls + length m)
  unfolding refresh_each
  refresh_each_counts [] r = (omega arith, omega arith)
  refresh_each_counts ((j, w) ∷ m) r =
      let (n, c) = refresh_each_counts m (refreshed j w r) in
      (omega (arith, n, refreshed_counts j w r), omega (arith, c, refreshed-calls j w r))

  -- A key that the loop does not meet.
  refresh_each_other :
      (k : String) (m : GoMap String P) (r : Refreshed E P)
      → lookup k m ≡ none
      → lookup k (refresh_each delegate m r).new_pairs ≡ lookup k r.new_pairs
  unfolding refresh_each lookup
  refresh_each_other k [] r n = refl
  refresh_each_other k ((j, w) ∷ m) r n = elim (String_discrete j k) [
    | yes e ↦ absurd (ground (arith, n, e))
    | no e ↦
        refresh_each_other k m (refreshed j w r) (ground (arith, n, e)) ∙ refreshed_other k j w r e
  ]

  refresh_each-IsRenewed :
      (k : String) (old : P) (m : GoMap String P) (r : Refreshed E P)
      → UniqueKeys m
      → lookup k m ≡ some old
      → IsRenewed (r.calls + index k m) k old (lookup k (refresh_each delegate m r).new_pairs)
  unfolding refresh_each lookup
  refresh_each-IsRenewed k old [] r u n = cc
  refresh_each-IsRenewed k old ((j, w) ∷ m) r u n = elim (String_discrete j k) [
    | no e ↦
        subst
          (λ i. IsRenewed i k old (lookup k (refresh_each delegate m (refreshed j w r)).new_pairs))
          (ground (arith, e, refreshed-calls j w r))
          (refresh_each-IsRenewed k old m (refreshed j w r) u.1 (ground (arith, n, e)))
    | yes e ↦
        let absent : lookup k m ≡ none = subst (λ x. lookup x m ≡ none) e u.0 in
        let same : w ≡ old = grind (arith, n, e) in
        let later : lookup k (refreshed k w r).new_pairs
            ≡ lookup k (refresh_each delegate m (refreshed j w r)).new_pairs =
          ap (λ x. lookup k (refreshed x w r).new_pairs) (sym e)
          ∙ sym (refresh_each_other k m (refreshed j w r) absent) in
        subst
          (λ i. IsRenewed i k old (lookup k (refresh_each delegate m (refreshed j w r)).new_pairs))
          (ground (arith, e))
          (subst (IsRenewed r.calls k old) later (
            subst (λ x. IsRenewed r.calls k x (lookup k (refreshed k w r).new_pairs)) same
              (refreshed-IsRenewed k w r)))
  ]

  renewed :
      (k : String) (m : GoMap String P) (r : Refreshed E P)
      → UniqueKeys m
      → lookup k r.new_pairs ≡ none
      → IsRenewedIn
          (r.calls + index k m)
          k
          (lookup k m)
          (lookup k (refresh_each delegate m r).new_pairs)
  renewed k m r u n = elim (Option-cases (lookup k m)) [
    | inl e ↦
        subst
          (λ x.
            IsRenewedIn (r.calls + index k m) k x (lookup k (refresh_each delegate m r).new_pairs))
          (sym e) (refresh_each_other k m r e ∙ n)
    | inr (old, e) ↦
        subst
          (λ x.
            IsRenewedIn (r.calls + index k m) k x (lookup k (refresh_each delegate m r).new_pairs))
          (sym e) (refresh_each-IsRenewed k old m r u e)
  ]

  -- After the locked part of `UpdateKeys` in a cache of many keys, for keys that are distinct, as
  -- those of a map are: the delegate was called once for each key, in the order of the loop; if all
  -- calls failed the cached keys are as they were; and otherwise each key that was read before the
  -- lock has the pair that its own call returned, or its old one if that call failed, and every other
  -- key is gone, also one that was cached in between.
  pub update_locked_lem :
      (key_id : String) (existing : GoMap String P) (c : MultiCache P)
      → UniqueKeys existing
      → ((update_locked delegate existing c).0.calls ≡ c.calls + length existing)
        × ((update_locked delegate existing c).1 ≡ length existing)
        × (((length (update_locked delegate existing c).2 ≡ length existing)
              × ((update_locked delegate existing c).0.value ≡ c.value))
            ⊎ ((length (update_locked delegate existing c).2 < length existing)
                × IsRenewedIn
                    (c.calls + index key_id existing)
                    key_id
                    (lookup key_id existing)
                    (fetch_pair key_id (update_locked delegate existing c).0)))
  unfolding update_locked fetch_pair lookup
  update_locked_lem key_id existing c u =
      let r0 : Refreshed E P = record {
        calls = c.calls;
        new_count = 0;
        new_pairs = [];
        errors = [];
      } in
      let r = refresh_each delegate existing r0 in
      let (n, calls) = refresh_each_counts existing r0 in
      let new = renewed key_id existing r0 u refl in
      either
        (λ (c' : MultiCache P).
          (c'.calls ≡ c.calls + length existing)
          × (length existing ≡ length existing)
          × (((length r.errors ≡ length existing) × (c'.value ≡ c.value))
              ⊎ ((length r.errors < length existing)
                  × IsRenewedIn (c.calls + index key_id existing) key_id (lookup key_id existing)
                      (fetch_pair key_id c'))))
        (ltb 0 r.new_count) _ _ (λ e. (calls, refl, inr (ground (arith, e, n), new)))
        (λ e. (calls, refl, inl (ground (arith, e, n), refl)))

  fetch_stored :
      (k j : String) (p : P) (c : MultiCache P)
      → fetch_pair j (record c { value = some (insert k p (copy_pairs c)) })
        ≡ ite (String_discrete k j) (some p) (fetch_pair j c)
  unfolding fetch_pair copy_pairs lookup
  fetch_stored k j p c = elim (Option-cases c.value) [
    | inl e ↦ ground (arith, e, lookup-insert k j p [])
    | inr (m, e) ↦ ground (arith, e, lookup-insert k j p m)
  ]

  -- When a key is asked for that is not cached, and other goroutines come before the call gets the
  -- lock, the call returns a pair only if the key is cached with that pair afterwards; every other
  -- key has what it had under the lock; an error leaves the cached keys as they were; and the
  -- delegate was asked at most once.
  pub multi_resolve_lem :
      (key_id j : String) (others : MultiCache P → MultiCache P) (c : MultiCache P)
      → fetch_pair key_id c ≡ none
      → key_id ≢ j
      → (fetch_pair j (multi_resolve delegate key_id others c).0 ≡ fetch_pair j (others c))
        × ((multi_resolve delegate key_id others c).0.calls ≤ (others c).calls + 1)
        × (((p : P) × ((multi_resolve delegate key_id others c).1 ≡ ok p)
              × (fetch_pair key_id (multi_resolve delegate key_id others c).0 ≡ some p))
            ⊎ ((e : E) × ((multi_resolve delegate key_id others c).1 ≡ err e)
                × ((multi_resolve delegate key_id others c).0.value ≡ (others c).value)))
  unfolding multi_resolve multi_locked
  multi_resolve_lem key_id j others c n ne =
      let x = others c in
      rw (n, multi_resolve)
        (elim (Option-cases (fetch_pair key_id x)) [
          | inr (p, e) ↦ rw (e, multi_locked) (refl, omega arith, inl (p, refl, e))
          | inl e ↦
              rw (e, multi_locked)
                (elim (Outcome-cases (delegate x.calls key_id)) [
                  | inl (f, q) ↦ rw (q, multi_ask) (refl, omega arith, inr (f, refl, refl))
                  | inr (p, q) ↦
                      let c' = record x { calls = suc x.calls } in
                      rw (q, multi_ask)
                        (
                          ground (arith, ne, fetch_stored key_id j p c'),
                          omega arith,
                          inl (p, refl, ground (arith, fetch_stored key_id key_id p c')),
                        )
                ])
        ])
