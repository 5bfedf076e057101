-- ===== src/Service/Layered.antt =====
-- `layeredAccessor` of service/accessor.go: a primary accessor and its failovers. The order of the
-- entries of the failover map stands for the order in which `range` visits them.
pub mod FailOver
pub mod Layers
use webpa_common.Base.{
  append, ℕ, Bool, true, false, if◌then◌else◌, Option, none, some, List, [], ◌∷◌, map, String,
  GoMap, lookup, insert, string_key, ok, err, Go, panic, ◌>>=◌, length, ltb, ◌&&◌, is_none,
}
use webpa_common.Service.Accessor.{
  Accessor, AccessorValue, ErrorChain, no_errors, add_error, is_empty, RouteError, Router, Queue,
  GoError, no_instances, no_fail_overs, fail_overs_failed,
}

-- A nil map is none.
pub record LayeredAccessor : Type 0 where
  pub router : Option Router
  pub accessor_queue : Option Queue
  pub error : Option GoError
  pub primary : Option Accessor
  pub failover : Option (GoMap String AccessorValue)

unfoldable pub new_layered_accessor : Option Router → Option Queue → LayeredAccessor
new_layered_accessor router chooser = record {
  router = router;
  accessor_queue = chooser;
  error = none;
  primary = none;
  failover = some [];
}

unfoldable pub set_error : Option GoError → LayeredAccessor → LayeredAccessor
set_error e la = record la { error = e; primary = none }

unfoldable pub set_primary : Option Accessor → LayeredAccessor → LayeredAccessor
set_primary a la = record la { error = none; primary = a }

unfoldable pub set_fail_over :
    Option (GoMap String AccessorValue) → LayeredAccessor → LayeredAccessor
set_fail_over f la = record la { failover = f }

unfoldable pub update_primary : Option Accessor → Option GoError → LayeredAccessor → LayeredAccessor
update_primary a e la = record la { error = e; primary = a }

fail_over_map : LayeredAccessor → GoMap String AccessorValue
fail_over_map la = elim la.failover [ some f ↦ f | none ↦ [] ]

unfoldable pub update_fail_over :
    String → Option Accessor → Option GoError → LayeredAccessor → LayeredAccessor
unfolding fail_over_map
update_fail_over key a e la = record la {
  failover = some (insert key (record { accessor = a; error = e }) (fail_over_map la));
}

-- A missing key gives the zero value, and calling a nil accessor panics.
unfoldable pub value_at : String → GoMap String AccessorValue → AccessorValue
value_at dc f = elim (lookup dc f) [ some v ↦ v | none ↦ record { accessor = none; error = none } ]

unfoldable pub call : Option Accessor → List ℕ → Go (String × Option GoError)
call none key = err panic
call (some a) key = ok (a key)

-- Whether the loop returns this answer.
unfoldable pub is_accepted : Option Router → String × Option GoError → Bool
is_accepted none (i, e) = is_none e
is_accepted (some route) (i, e) = is_none (route i)

-- The loop over the ordered names.
unfoldable pub try_each :
    Option Router → GoMap String AccessorValue → List ℕ → List String → Go (String × Option GoError)
unfolding value_at call is_accepted
try_each router f key [] = ok ("", some fail_overs_failed)
try_each router f key (dc ∷ order) =
    let rest = try_each router f key order in
    if is_none (value_at dc f).error
    then (do
      answer ← call (value_at dc f).accessor key
      if is_accepted router answer then ok answer else rest)
    else rest

unfoldable pub ordered : LayeredAccessor → List String → List String
ordered la dcs = elim la.accessor_queue [ some order ↦ order dcs | none ↦ dcs ]

unfoldable pub get_fail_over_instance : List ℕ → LayeredAccessor → Go (String × Option GoError)
unfolding try_each ordered fail_over_map
get_fail_over_instance key la =
    if ltb 0 (length (fail_over_map la))
    then try_each la.router (fail_over_map la) key (ordered la (map (λ e. e.0) (fail_over_map la)))
    else ok ("", some no_fail_overs)

unfoldable pub route_to : Option Router → String → Go (Option GoError)
route_to none i = err panic
route_to (some route) i = ok (route i)

-- What is asked of the failovers when the primary has failed.
unfoldable pub after_primary :
    List ℕ → LayeredAccessor → String × Option GoError → Go (String × ErrorChain)
unfolding get_fail_over_instance add_error
after_primary key la (i, none) = ok (i, no_errors)
after_primary key la (i, some e) = do
  (j, e') ← get_fail_over_instance key la
  ok (j, add_error e' (add_error (some e) no_errors))

-- What is done when the router refuses the instance.
unfoldable pub after_route :
    List ℕ → LayeredAccessor → String × ErrorChain → Option GoError → Go (String × ErrorChain)
unfolding get_fail_over_instance add_error
after_route key la (i, c) none = ok (i, c)
after_route key la (i, c) (some e) = do
  (j, e') ← get_fail_over_instance key la
  ok (elim e' [
    | none ↦ (j, add_error (some e) c)
    | some x ↦ (i, add_error (some x) (add_error (some e) c))
  ])

-- The switch of `Get`: the instance and the chain of errors.
unfoldable pub choose : List ℕ → LayeredAccessor → Go (String × ErrorChain)
unfolding get_fail_over_instance add_error after_primary after_route route_to fail_over_map
choose key la = elim la.error [
  | some e ↦ do
    (i, e') ← get_fail_over_instance key la
    ok (i, add_error e' (add_error (some e) no_errors))
  | none ↦ elim la.primary [
    | some a ↦ do
      found ← after_primary key la (a key)
      refusal ← route_to la.router found.0
      after_route key la found refusal
    | none ↦
        if ltb 0 (length (fail_over_map la))
        then (do (i, e') ← get_fail_over_instance key la; ok (i, add_error e' no_errors))
        else ok ("", add_error (some no_instances) no_errors)
  ]
]

unfoldable pub get : List ℕ → LayeredAccessor → Go (String × Option RouteError)
unfolding choose is_empty
get key la = do
  (i, c) ← choose key la
  ok (i, if is_empty c then none else some (record { chain = c; instance_name = i }))
