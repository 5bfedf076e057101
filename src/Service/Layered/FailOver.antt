-- ===== src/Service/Layered/FailOver.antt =====
-- Which failover `getFailOverInstance` of service/accessor.go settles on.
use webpa_common.Base.{
  ℕ, ◌≡◌, refl, ap, true, false, Option, none, some, List, [], ◌∷◌, ◌++◌, String, GoMap, All, ok,
  arith, Bool-cases, Option-cases, inl, inr, ◌⊎◌,
}
use webpa_common.Service.Accessor.{Accessor, AccessorValue, GoError, Router, fail_overs_failed}
use webpa_common.Service.Layered.{value_at, is_accepted, try_each, call}

module _ (router : Option Router) (f : GoMap String AccessorValue) (key : List ℕ) where
  -- A failover without an error has an accessor.
  unfoldable pub Callable : String → Type 0
  Callable dc = (value_at dc f).error ≡ none → (a : Accessor) × ((value_at dc f).accessor ≡ some a)

  -- The failover has no error, and the router takes what its accessor answers.
  pub Accepts : String × Option GoError → String → Type 0
  Accepts r dc =
      ((value_at dc f).error ≡ none)
      × (a : Accessor) × ((value_at dc f).accessor ≡ some a)
      × (a key ≡ r)
      × (is_accepted router r ≡ true)

  -- The failover has an error, or the router does not take the answer.
  pub Refuses : String → Type 0
  Refuses dc =
      (value_at dc f).error ≡ none
      → (a : Accessor) → (value_at dc f).accessor ≡ some a
      → is_accepted router (a key) ≡ false

  -- How a search through the names can end.
  pub Ends : List String → String × Option GoError → Type 0
  Ends order r =
      ((before : List String) × (dc : String) × (after : List String) × (order
          ≡ before ++ dc ∷ after)
        × All Refuses before
        × Accepts r dc)
      ⊎ (All Refuses order × (r ≡ ("", some fail_overs_failed)))

  skip :
      (dc : String) (order : List String) (r : String × Option GoError)
      → Refuses dc
      → Ends order r
      → Ends (dc ∷ order) r
  unfolding Ends
  skip dc order r n (inl (before, x, after, p, all, a)) =
      inl (dc ∷ before, x, after, ap (λ l. dc ∷ l) p, (n, all), a)
  skip dc order r n (inr (all, p)) = inr ((n, all), p)

  -- Where every failover without an error has an accessor, the search ends: with the answer of the
  -- first failover in the order that has no error and whose answer is taken, or, when each is
  -- refused, with the error for that.
  pub try_each_lem :
      (order : List String)
      → All Callable order
      → (r : String × Option GoError) × (try_each router f key order ≡ ok r) × Ends order r
  unfolding try_each call Ends Accepts Refuses Callable
  try_each_lem [] c = (("", some fail_overs_failed), refl, inr (tt, refl))
  try_each_lem (dc ∷ order) c =
      let (r, done, ends) = try_each_lem order c.1 in
      elim (Option-cases (value_at dc f).error) [
        | inl e ↦
            let (a, p) = c.0 e in
            elim (Bool-cases (is_accepted router (a key))) [
              | inl y ↦ (
                a key,
                rw (e, try_each) (rw (p) (rw y refl)),
                inl ([], dc, order, refl, tt, (e, a, p, refl, y)),
              )
              | inr y ↦ (
                r,
                rw (e, try_each) (rw (p) (rw y done)),
                skip dc order r (λ _ b q. grind (arith, p, q, y)) ends,
              )
            ]
        | inr (x, e) ↦
            (r, rw (e, try_each) done, skip dc order r (λ q a p. grind (arith, e, q)) ends)
      ]
