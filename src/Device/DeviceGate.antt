-- ===== src/Device/DeviceGate.antt =====
-- device/devicegate/filter.go: filters that keep devices from connecting. `K` is the type of the
-- values that Go can hash: a value of an interface type that it cannot hash, such as an array or a
-- map of a JSON text, panics as a key. The locks make each method one step.
pub mod Admission
use webpa_common.Base.{
  ℕ, zero, suc, Bool, true, false, if◌then◌else◌, Option, none, some, List, [], ◌∷◌, String, GoMap,
  Key, lookup, insert, delete, string_key, Outcome, ok, err, Go, panic, ◌>>=◌, is_none,
}

pub data Item (K : Type 0) : Type 0 where
  hashable : K → Item K
  unhashable : Item K

-- What a device's metadata or claims hold under a key: a slice, or anything else but nil.
pub data Value (K : Type 0) : Type 0 where
  slice : List (Item K) → Value K
  single : Item K → Value K

pub data Location : Type 0 where
  metadata_map_location claims_location : Location

pub record MatchResult : Type 0 where
  pub location : Location
  pub key : String

-- The parts of a device's metadata that a gate reads. A missing value and a nil one are none.
pub record Metadata (K : Type 0) : Type 0 where
  pub stored : String → Option (Value K)
  pub claims : String → Option (Value K)

-- A `FilterSet` of the store.
abbrev pub FilterSet : Type 0 → Type 0
FilterSet K = GoMap K Bool

-- Nil allowed filters are none.
pub record FilterGate (K : Type 0) : Type 0 where
  pub filter_store : GoMap String (FilterSet K)
  pub allowed_filters : Option (FilterSet K)

module _ {K : Type 0} ⦃k : Key K⦄ where
  -- The loop that fills the new set.
  unfoldable pub fill : List (Item K) → FilterSet K → Go (FilterSet K)
  fill [] set = ok set
  fill (hashable x ∷ values) set = fill values (insert x true set)
  fill (unhashable ∷ values) set = err panic

  -- `VisitAll`: the keys and sets that the visitor meets, until it returns false, counted.
  unfoldable pub visit_from : (String → FilterSet K → Bool) → ℕ → GoMap String (FilterSet K) → ℕ
  visit_from visit n [] = n
  visit_from visit n ((key, set) ∷ m) =
      let rest = visit_from visit (suc n) m in if visit key set then rest else suc n

  unfoldable pub visit_all : (String → FilterSet K → Bool) → FilterGate K → ℕ
  unfolding visit_from
  visit_all visit f = visit_from visit 0 f.filter_store

  unfoldable pub get_filter : String → FilterGate K → Option (FilterSet K)
  get_filter key f = lookup key f.filter_store

  -- The old values, and whether the key is new.
  unfoldable pub set_filter :
      String → List (Item K) → FilterGate K → Go (FilterGate K × Option (FilterSet K) × Bool)
  unfolding fill
  set_filter key values f = do
    set ← fill values []
    let old = lookup key f.filter_store
    ok (record f { filter_store = insert key set f.filter_store }, old, is_none old)

  unfoldable pub delete_filter : String → FilterGate K → FilterGate K × Bool
  delete_filter key f = elim (lookup key f.filter_store) [
    | none ↦ (f, false)
    | some _ ↦ (record f { filter_store = delete key f.filter_store }, true)
  ]

  unfoldable pub get_allowed_filters : FilterGate K → Option (FilterSet K) × Bool
  get_allowed_filters f = (f.allowed_filters, if is_none f.allowed_filters then false else true)

  -- `Has`
  unfoldable pub has : Item K → FilterSet K → Go Bool
  has unhashable set = err panic
  has (hashable x) set = ok (elim (lookup x set) [ none ↦ false | some b ↦ b ])

  unfoldable pub filter_match : FilterSet K → List (Item K) → Go Bool
  unfolding has
  filter_match set [] = ok false
  filter_match set (x ∷ params) = do
    let rest = filter_match set params
    found ← has x set
    if found then ok true else rest

  unfoldable pub params_of : Value K → List (Item K)
  params_of (slice items) = items
  params_of (single x) = x ∷ []

  -- The value under a key, and where it is: the metadata go first.
  unfoldable pub located : String → Metadata K → Option (Value K × Location)
  located key m = elim (m.stored key) [
    | some v ↦ some (v, metadata_map_location)
    | none ↦ elim (m.claims key) [ some v ↦ some (v, claims_location) | none ↦ none ]
  ]

  unfoldable pub metadata_match : String → FilterSet K → Metadata K → Go (Option MatchResult)
  unfolding located filter_match params_of
  metadata_match key set m = elim (located key m) [
    | none ↦ ok none
    | some (v, location) ↦ do
      found ← filter_match set (params_of v)
      ok (if found then some (record { location = location; key = key }) else none)
  ]

  -- The loop of `AllowConnection`. No match result is the one that allows the connection.
  unfoldable pub match_any : GoMap String (FilterSet K) → Metadata K → Go (Option MatchResult)
  unfolding metadata_match
  match_any [] m = ok none
  match_any ((key, set) ∷ filters) m = do
    let rest = match_any filters m
    found ← metadata_match key set m
    elim found [ some r ↦ ok (some r) | none ↦ rest ]

  unfoldable pub allow_connection : Metadata K → FilterGate K → Go (Bool × Option MatchResult)
  unfolding match_any
  allow_connection m f = do found ← match_any f.filter_store m; ok (is_none found, found)
