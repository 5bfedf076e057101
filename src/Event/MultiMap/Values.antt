-- ===== src/Event/MultiMap/Values.antt =====
-- What the maps of event/multimap.go hold.
use webpa_common.Base.{
  ◌≡◌, ◌≢◌, Option, none, some, List, [], ◌∷◌, ◌++◌, String, String_discrete, GoMap, lookup, insert,
  delete, string_key, append, Outcome, ok, err, ite, arith, All, Holds, lookup-insert, of_ok,
}
use webpa_common.Event.MultiMap.{
  MultiMap, add, set, get, values_at, Raw, RawMap, text, texts, elements, nested, lists, other, end,
  entry, add_elements, set_lists, full_key, flatten_value, flatten, nested_to_multi_map, Error,
}

-- Each event type has a value.
abbrev pub IsFilled : MultiMap → Type 0
IsFilled = All (λ e. e.1 ≢ [])

insert-IsFilled :
    (k : String) (vs : List String) (m : MultiMap) → vs ≢ [] → IsFilled m → IsFilled (insert k vs m)
unfolding insert
insert-IsFilled k vs [] n f = (n, tt)
insert-IsFilled k vs ((j, ws) ∷ m) n f = ground (arith, insert-IsFilled k vs m n f.1)

delete-IsFilled : (k : String) (m : MultiMap) → IsFilled m → IsFilled (delete k m)
unfolding delete
delete-IsFilled k [] f = tt
delete-IsFilled k ((j, ws) ∷ m) f = ground (arith, delete-IsFilled k m f.1)

not_nil : (xs : List String) (v : String) (vs : List String) → xs ++ v ∷ vs ≢ []
not_nil [] v vs p = cc
not_nil (x ∷ xs) v vs p = cc

add-IsFilled : (k : String) (vs : List String) (m : MultiMap) → IsFilled m → IsFilled (add k vs m)
unfolding add
add-IsFilled k [] m f = f
add-IsFilled k (v ∷ vs) m f =
    insert-IsFilled k (values_at k m ++ v ∷ vs) m (not_nil (values_at k m) v vs) f

set-IsFilled : (k : String) (vs : List String) (m : MultiMap) → IsFilled m → IsFilled (set k vs m)
unfolding set
set-IsFilled k [] m f = delete-IsFilled k m f
set-IsFilled k (v ∷ vs) m f = insert-IsFilled k (v ∷ vs) m (not_nil [] v vs) f

add_elements-IsFilled :
    (k : String) (vs : List (Option String)) (m : MultiMap)
    → IsFilled m
    → Holds IsFilled (add_elements k vs m)
unfolding add_elements
add_elements-IsFilled k [] m f = f
add_elements-IsFilled k (some v ∷ vs) m f =
    add_elements-IsFilled k vs (add k (v ∷ []) m) (add-IsFilled k (v ∷ []) m f)
add_elements-IsFilled k (none ∷ vs) m f = tt

set_lists-IsFilled :
    (prefix : String) (l : GoMap String (List String)) (m : MultiMap)
    → IsFilled m
    → IsFilled (set_lists prefix l m)
unfolding set_lists
set_lists-IsFilled prefix [] m f = f
set_lists-IsFilled prefix ((k, vs) ∷ l) m f =
    set_lists-IsFilled prefix l (set (append prefix k) vs m) (set-IsFilled (append prefix k) vs m f)

next-IsFilled :
    (r : Outcome Error MultiMap) (next : MultiMap → Outcome Error MultiMap)
    → Holds IsFilled r
    → ((m : MultiMap) → IsFilled m → Holds IsFilled (next m))
    → Holds IsFilled (elim r [ err e ↦ err e | ok m ↦ next m ])
next-IsFilled (err e) next f g = tt
next-IsFilled (ok m) next f g = g m f

mutual
  unfolding flatten

  value-IsFilled :
      (k separator : String) (v : Raw) (m : MultiMap)
      → IsFilled m
      → Holds IsFilled (flatten_value k separator v m)
  value-IsFilled k separator (text v) m f = set-IsFilled k (v ∷ []) m f
  value-IsFilled k separator (texts vs) m f = set-IsFilled k vs m f
  value-IsFilled k separator (elements vs) m f = add_elements-IsFilled k vs m f
  value-IsFilled k separator (nested raw) m f = flatten-IsFilled k separator raw m f
  value-IsFilled k separator (lists l) m f = set_lists-IsFilled (append k separator) l m f
  value-IsFilled k separator other m f = tt

  flatten-IsFilled :
      (base separator : String) (raw : RawMap) (m : MultiMap)
      → IsFilled m
      → Holds IsFilled (flatten base separator raw m)
  flatten-IsFilled base separator end m f = f
  flatten-IsFilled base separator (entry k v raw) m f =
      next-IsFilled (flatten_value (full_key base separator k) separator v m)
        (λ output. flatten base separator raw output)
        (value-IsFilled (full_key base separator k) separator v m f)
        (λ output g. flatten-IsFilled base separator raw output g)

-- A map that is flattened has no event type without a value: an event type that is there says where
-- its events go.
pub nested_to_multi_map-IsFilled :
    (separator : String) (raw : RawMap) (m : MultiMap)
    → nested_to_multi_map separator raw ≡ ok m
    → IsFilled m
unfolding nested_to_multi_map
nested_to_multi_map-IsFilled separator raw m p = elim (String_discrete separator "") [
  | yes e ↦ absurd (grind (arith, p, e))
  | no n ↦
      let q : flatten "" separator raw [] ≡ ok m = ground arith in
      of_ok IsFilled (flatten "" separator raw []) m (flatten-IsFilled "" separator raw [] tt) q
]

-- After `Set` with at least one value an event type has those values, and after `Add` the old ones
-- followed by the new ones; every other event type has what it had.
pub get_after :
    (k j v : String) (vs fallback : List String) (m : MultiMap)
    → (get k fallback (set k (v ∷ vs) m) ≡ some (v ∷ vs))
      × (get k fallback (add k (v ∷ vs) m) ≡ some (values_at k m ++ v ∷ vs))
      × (lookup j (set k (v ∷ vs) m) ≡ ite (String_discrete k j) (some (v ∷ vs)) (lookup j m))
      × (lookup j (add k (v ∷ vs) m)
          ≡ ite (String_discrete k j) (some (values_at k m ++ v ∷ vs)) (lookup j m))
unfolding get set add
get_after k j v vs fallback m = (
  ground (arith, lookup-insert k k (v ∷ vs) m),
  ground (arith, lookup-insert k k (values_at k m ++ v ∷ vs) m),
  lookup-insert k j (v ∷ vs) m,
  lookup-insert k j (values_at k m ++ v ∷ vs) m,
)
