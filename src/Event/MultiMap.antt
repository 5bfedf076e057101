-- ===== src/Event/MultiMap.antt =====
-- event/multimap.go. A map that is changed in place is the result of the change.
pub mod Values
use webpa_common.Base.{
  Bool, true, false, ite, Option, none, some, List, [], ◌∷◌, ◌++◌, String, String_discrete, GoMap,
  lookup, insert, delete, string_key, append, Outcome, ok, err, ◌>>=◌,
}

abbrev pub MultiMap : Type 0
MultiMap = GoMap String (List String)

abbrev pub values_at : String → MultiMap → List String
values_at event_type m = elim (lookup event_type m) [ some vs ↦ vs | none ↦ [] ]

unfoldable pub add : String → List String → MultiMap → MultiMap
add event_type [] m = m
add event_type (v ∷ vs) m = insert event_type (values_at event_type m ++ v ∷ vs) m

unfoldable pub set : String → List String → MultiMap → MultiMap
set event_type [] m = delete event_type m
set event_type (v ∷ vs) m = insert event_type (v ∷ vs) m

-- The loop over the fallbacks.
unfoldable pub first_of : List String → MultiMap → Option (List String)
first_of [] m = none
first_of (f ∷ fallback) m = elim (lookup f m) [ some vs ↦ some vs | none ↦ first_of fallback m ]

unfoldable pub get : String → List String → MultiMap → Option (List String)
unfolding first_of
get event_type fallback m = elim (lookup event_type m) [
  | some vs ↦ some vs
  | none ↦ first_of fallback m
]

-- A raw value: what the type switch tells apart, where an element that is no string is none.
mutual
  pub data Raw : Type 0 where
    text : String → Raw
    texts : List String → Raw
    elements : List (Option String) → Raw
    nested : RawMap → Raw
    lists : GoMap String (List String) → Raw
    other : Raw

  pub data RawMap : Type 0 where
    end : RawMap
    entry : String → Raw → RawMap → RawMap

pub data Error : Type 0 where
  empty_separator invalid_element invalid_value : Error

unfoldable pub add_elements : String → List (Option String) → MultiMap → Outcome Error MultiMap
unfolding add
add_elements event_type [] output = ok output
add_elements event_type (some v ∷ vs) output =
    add_elements event_type vs (add event_type (v ∷ []) output)
add_elements event_type (none ∷ vs) output = err invalid_element

unfoldable pub set_lists : String → GoMap String (List String) → MultiMap → MultiMap
unfolding set
set_lists prefix [] output = output
set_lists prefix ((key, vs) ∷ m) output = set_lists prefix m (set (append prefix key) vs output)

unfoldable pub full_key : String → String → String → String
full_key base separator k = ite (String_discrete base "") k (append base (append separator k))

unfoldable mutual
  pub flatten_value : String → String → Raw → MultiMap → Outcome Error MultiMap
  flatten_value event_type separator (text v) output = ok (set event_type (v ∷ []) output)
  flatten_value event_type separator (texts vs) output = ok (set event_type vs output)
  flatten_value event_type separator (elements vs) output = add_elements event_type vs output
  flatten_value event_type separator (nested raw) output = flatten event_type separator raw output
  flatten_value event_type separator (lists m) output =
      ok (set_lists (append event_type separator) m output)
  flatten_value event_type separator other output = err invalid_value

  pub flatten : String → String → RawMap → MultiMap → Outcome Error MultiMap
  flatten base separator end output = ok output
  flatten base separator (entry k v raw) output =
      elim (flatten_value (full_key base separator k) separator v output) [
        | err e ↦ err e
        | ok output' ↦ flatten base separator raw output'
      ]

unfoldable pub nested_to_multi_map : String → RawMap → Outcome Error MultiMap
unfolding flatten
nested_to_multi_map separator raw =
    ite (String_discrete separator "") (err empty_separator) (flatten "" separator raw [])
