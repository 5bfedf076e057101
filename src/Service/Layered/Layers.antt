-- ===== src/Service/Layered/Layers.antt =====
-- When `Get` of service/accessor.go answers without an error, and that its errors can be printed.
use webpa_common.Base.{
  ◌∙◌, Outcome-cases, Holds, of_ok, sym, subst, ltb, length, ℕ, ◌≡◌, ◌≢◌, refl, ap, true, false,
  Option, none, some, List, String, ok, err, arith, Bool-cases, Option-cases, inl, inr, ◌⊎◌, append,
}
use webpa_common.Service.Accessor.{
  Accessor, GoError, Router, ErrorChain, no_errors, single, chained, add_error, is_empty,
  chain_text, route_error_text, RouteError, no_instances,
}
use webpa_common.Service.Layered.{
  LayeredAccessor, get, choose, get_fail_over_instance, after_primary, after_route, route_to,
  fail_over_map,
}

-- A chain that `addError` builds: only the first error has no chain beneath it.
abbrev pub IsChain : ErrorChain → Type 0
IsChain no_errors = Unit
IsChain (single e) = Unit
IsChain (chained e c) = (is_empty c ≡ false) × IsChain c

chain_text_lem :
    (c : ErrorChain) → IsChain c → is_empty c ≡ false → (t : String) × (chain_text c ≡ ok t)
unfolding chain_text is_empty
chain_text_lem no_errors w n = cc
chain_text_lem (single e) w n = (e, refl)
chain_text_lem (chained e c) w n =
    let (t, p) = chain_text_lem c w.1 w.0 in
    (append e (append "(" (append t ")")), rw (p, chain_text) refl)

abbrev HasText : RouteError → Type 0
HasText e = (t : String) × (route_error_text e ≡ ok t)

route_error_text_lem : (e : RouteError) → IsChain e.chain → is_empty e.chain ≡ false → HasText e
unfolding route_error_text
route_error_text_lem e w n =
    let (t, p) = chain_text_lem e.chain w n in
    (
      append "failed to route `" (append e.instance_name (append "`. reason: " t)),
      rw (p, route_error_text) refl,
    )

add_error-IsChain : (e : Option GoError) (c : ErrorChain) → IsChain c → IsChain (add_error e c)
unfolding add_error is_empty
add_error-IsChain none c w = w
add_error-IsChain (some e) no_errors w = tt
add_error-IsChain (some e) (single x) w = (refl, tt)
add_error-IsChain (some e) (chained x c) w = (refl, w)

is_empty-add_error : (e : GoError) (c : ErrorChain) → is_empty (add_error (some e) c) ≡ false
unfolding add_error is_empty
is_empty-add_error e no_errors = refl
is_empty-add_error e (single x) = refl
is_empty-add_error e (chained x c) = refl

still_empty :
    (e : Option GoError) (c : ErrorChain)
    → is_empty (add_error e c) ≡ true
    → (e ≡ none) × (is_empty c ≡ true)
unfolding add_error
still_empty none c p = (refl, p)
still_empty (some e) c p = grind (arith, is_empty-add_error e c, p)

no_trace : (e : GoError) (c : ErrorChain) → is_empty (add_error (some e) c) ≢ true
no_trace e c p = grind (arith, is_empty-add_error e c, p)

module _ (key : List ℕ) (la : LayeredAccessor) where
  -- The layer that is asked first gave the instance: the primary, for an instance that the router
  -- takes, or the failovers of an accessor that has no primary.
  pub FirstLayer : String → Type 0
  FirstLayer i =
      (la.error ≡ none)
      × (((a : Accessor) × (la.primary ≡ some a)
            × (a key ≡ (i, none))
            × (route : Router) × (la.router ≡ some route)
            × (route i ≡ none))
          ⊎ ((la.primary ≡ none) × (get_fail_over_instance key la ≡ ok (i, none))))

  -- What holds of a result of the switch.
  Sound : String × ErrorChain → Type 0
  Sound (i, c) = IsChain c × (is_empty c ≡ true → FirstLayer i)

  FromPrimary : (String × Option GoError) → String × ErrorChain → Type 0
  FromPrimary r (i, c) = IsChain c × (is_empty c ≡ true → r ≡ (i, none))

  after_primary-FromPrimary :
      (r : String × Option GoError) → Holds (FromPrimary r) (after_primary key la r)
  unfolding after_primary FromPrimary
  after_primary-FromPrimary (j, none) = (tt, λ p. refl)
  after_primary-FromPrimary (j, some e) = elim (Outcome-cases (get_fail_over_instance key la)) [
    | inl (x, q) ↦ rw (q, after_primary) tt
    | inr ((k, e'), q) ↦
        rw (q, after_primary)
          (
            add_error-IsChain e' (add_error (some e) no_errors)
                (add_error-IsChain (some e) no_errors tt),
            λ p. absurd (no_trace e no_errors (still_empty e' (add_error (some e) no_errors) p).1),
          )
  ]

  after_route-Sound :
      (a : Accessor) (route : Router) (found : String × ErrorChain)
      → la.error ≡ none
      → la.primary ≡ some a
      → la.router ≡ some route
      → FromPrimary (a key) found
      → Holds Sound (after_route key la found (route found.0))
  unfolding after_route FromPrimary Sound FirstLayer
  after_route-Sound a route (j, c) n pr ro s = elim (Option-cases (route j)) [
    | inl t ↦ rw (t) (s.0, λ p. (n, inl (a, pr, s.1 p, route, ro, t)))
    | inr (x, t) ↦
        let w = add_error-IsChain (some x) c s.0 in
        elim (Outcome-cases (get_fail_over_instance key la)) [
          | inl (y, q) ↦ rw (t) (rw (q) tt)
          | inr ((k, none), q) ↦ rw (t) (rw (q) (w, λ p. absurd (no_trace x c p)))
          | inr ((k, some e), q) ↦ rw (t) (
              rw (q) (
                add_error-IsChain (some e) (add_error (some x) c) w,
                λ p. absurd (no_trace e (add_error (some x) c) p),
              ))
        ]
  ]

  primary-Sound :
      (a : Accessor) → la.error ≡ none → la.primary ≡ some a → Holds Sound (choose key la)
  unfolding choose route_to
  primary-Sound a n pr = elim (Outcome-cases (after_primary key la (a key))) [
    | inl (x, q) ↦ rw (n, choose) (rw (pr) (rw (q) tt))
    | inr (found, q) ↦ elim (Option-cases la.router) [
      | inl ro ↦ rw (n, choose) (rw (pr) (rw (q) (rw (ro, route_to) tt)))
      | inr (route, ro) ↦
          let s =
            of_ok (FromPrimary (a key)) (after_primary key la (a key)) found
              (after_primary-FromPrimary (a key)) q in
          let e : choose key la ≡ after_route key la found (route found.0) =
            rw (n, choose) (rw (pr) (rw (q) (rw (ro, route_to) refl))) in
          subst (Holds Sound) (sym e) (after_route-Sound a route found n pr ro s)
    ]
  ]

  failover-Sound : la.error ≡ none → la.primary ≡ none → Holds Sound (choose key la)
  unfolding choose Sound FirstLayer fail_over_map
  failover-Sound n pr = elim (Bool-cases (ltb 0 (length (fail_over_map la)))) [
    | inr l ↦
        let e : choose key la ≡ ok ("", add_error (some no_instances) no_errors) =
          rw (n, choose) (rw (pr) (rw (l) refl)) in
        subst (Holds Sound) (sym e) (
          add_error-IsChain (some no_instances) no_errors tt,
          λ p. absurd (no_trace no_instances no_errors p),
        )
    | inl l ↦ elim (Outcome-cases (get_fail_over_instance key la)) [
      | inl (y, q) ↦
          let e : choose key la ≡ err y = rw (n, choose) (rw (pr) (rw (q) (rw (l) refl))) in
          subst (Holds Sound) (sym e) tt
      | inr ((k, e'), q) ↦
          let e : choose key la ≡ ok (k, add_error e' no_errors) =
            rw (n, choose) (rw (pr) (rw (q) (rw (l) refl))) in
          subst (Holds Sound) (sym e) (
            add_error-IsChain e' no_errors tt,
            λ p. (
              n,
              inr (
                pr,
                subst (λ x. get_fail_over_instance key la ≡ ok (k, x))
                    (still_empty e' no_errors p).0 q,
              ),
            ),
          )
    ]
  ]

  choose-Sound : Holds Sound (choose key la)
  unfolding choose Sound FirstLayer
  choose-Sound = elim (Option-cases la.error) [
    | inr (x, n) ↦ elim (Outcome-cases (get_fail_over_instance key la)) [
      | inl (y, q) ↦ rw (n, choose) (rw (q) tt)
      | inr ((k, e'), q) ↦
          rw (n, choose)
            (rw (q) (
              add_error-IsChain e' (add_error (some x) no_errors)
                  (add_error-IsChain (some x) no_errors tt),
              λ p.
                  absurd (no_trace x no_errors (still_empty e' (add_error (some x) no_errors) p).1),
            ))
    ]
    | inl n ↦ elim (Option-cases la.primary) [
      | inr (a, pr) ↦ primary-Sound a n pr
      | inl pr ↦ failover-Sound n pr
    ]
  ]

  -- When `Get` answers without an error, the layer that is asked first gave the instance: whoever
  -- falls back on a failover because the primary failed, has an error set or is refused by the
  -- router gets an error beside the instance.
  pub get_without_error : (i : String) → get key la ≡ ok (i, none) → FirstLayer i
  unfolding get Sound
  get_without_error i p = elim (Outcome-cases (choose key la)) [
    | inl (e, q) ↦ grind (arith, p, q)
    | inr ((j, c), q) ↦
        let (w, f) = of_ok Sound (choose key la) (j, c) choose-Sound q in
        elim (Bool-cases (is_empty c)) [
          | inl t ↦ let z : j ≡ i = grind (arith, p, q, t) in subst FirstLayer z (f t)
          | inr t ↦ absurd (grind (arith, p, q, t))
        ]
  ]

  -- An error that `Get` returns names the instance that it returns, and it can be printed:
  -- `Error()` never meets a nil error.
  pub get_error_text :
      (i : String) (e : RouteError)
      → get key la ≡ ok (i, some e)
      → (e.instance_name ≡ i) × (t : String) × (route_error_text e ≡ ok t)
  unfolding get route_error_text Sound
  get_error_text i e p = elim (Outcome-cases (choose key la)) [
    | inl (x, q) ↦ absurd (grind (arith, p, q))
    | inr ((j, c), q) ↦
        let (w, f) = of_ok Sound (choose key la) (j, c) choose-Sound q in
        elim (Bool-cases (is_empty c)) [
          | inl t ↦ absurd (grind (arith, p, q, t))
          | inr t ↦
              let z : e ≡ record { chain = c; instance_name = j } = grind (arith, p, q, t) in
              let same : j ≡ i = grind (arith, p, q, t) in
              let (text, done) =
                subst HasText (sym z)
                  (route_error_text_lem (record { chain = c; instance_name = j }) w t) in
              (ap (λ x. x.instance_name) z ∙ same, text, done)
        ]
  ]
