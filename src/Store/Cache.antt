-- ===== src/Store/Cache.antt =====
-- store/cache.go, with `NewValue` of store/value.go. A time counts nanoseconds, without the bounds
-- of Go's clock. The source is the sequence of its answers, and the cache counts the calls of it.
-- The lock makes what follows the first look one step, before which other goroutines may run.
pub mod Calls
use webpa_common.Base.{
  ℕ, zero, suc, ◌+◌, Bool, true, false, if◌then◌else◌, ltb, Option, none, some, List, [], ◌∷◌,
  String, Outcome, ok, err,
}

abbrev pub GoError : Type 0
GoError = String

pub data ℤ : Type 0 where
  pos negsuc : ℕ → ℤ

abbrev pub negative_cache_period : GoError
negative_cache_period = "The cache period must be positive"

pub record CacheEntry (V : Type 0) : Type 0 where
  pub value : V
  pub expiry : ℕ

pub record Cache (V : Type 0) : Type 0 where
  pub cache : Option (CacheEntry V)
  pub source : ℕ → Outcome GoError V
  pub calls : ℕ
  pub period : ℕ

module _ {V : Type 0} where
  unfoldable pub new_cache : (ℕ → Outcome GoError V) → ℤ → Outcome GoError (Cache V)
  new_cache source (pos zero) = err negative_cache_period
  new_cache source (pos (suc n)) =
      ok (record { cache = none; source = source; calls = 0; period = suc n })
  new_cache source (negsuc n) = err negative_cache_period

  -- `c.source.Load()`
  unfoldable pub consult : Cache V → Outcome GoError V × Cache V
  consult c = (c.source c.calls, record c { calls = suc c.calls })

  -- `c.cache.Store(entry)` with the next expiry, and the value that is returned.
  unfoldable pub store : ℕ → V → Cache V → Outcome GoError V × Cache V
  store now v c = (ok v, record c { cache = some (record { value = v; expiry = now + c.period }) })

  unfoldable pub refresh : ℕ → Cache V → Outcome GoError V × Cache V
  unfolding consult store
  refresh now c = let (r, c') = consult c in elim r [ err e ↦ (err e, c') | ok v ↦ store now v c' ]

  -- The entry, if there is one that has not expired.
  unfoldable pub current : ℕ → Cache V → Option (CacheEntry V)
  current now c = elim c.cache [
    | none ↦ none
    | some entry ↦ if ltb entry.expiry now then none else some entry
  ]

  -- What becomes of an error of the source: the old value is kept for another period.
  unfoldable pub keep_old :
      ℕ → GoError → Option (CacheEntry V) → Cache V → Outcome GoError V × Cache V
  unfolding store
  keep_old now e none c = (err e, c)
  keep_old now e (some entry) c = store now entry.value c

  -- The part of `Load` under the lock, which looks again.
  unfoldable pub load_locked : ℕ → Cache V → Outcome GoError V × Cache V
  unfolding current consult store keep_old
  load_locked now c = elim (current now c) [
    | some entry ↦ (ok entry.value, c)
    | none ↦
        let (r, c') = consult c in
        elim r [ err e ↦ keep_old now e c'.cache c' | ok v ↦ store now v c' ]
  ]

  unfoldable pub load : ℕ → Cache V → Outcome GoError V × Cache V
  unfolding current load_locked
  load now c = elim (current now c) [ some entry ↦ (ok entry.value, c) | none ↦ load_locked now c ]

-- `NewValue`: a value that never changes, the source itself, or a cache.
pub data Value (V : Type 0) : Type 0 where
  singleton : V → Value V
  uncached : (ℕ → Outcome GoError V) → Value V
  cached : Cache V → Value V

module _ {V : Type 0} where
  unfoldable pub new_value : (ℕ → Outcome GoError V) → ℤ → Outcome GoError (Value V)
  new_value source (pos zero) = elim (source 0) [ err e ↦ err e | ok v ↦ ok (singleton v) ]
  new_value source (pos (suc n)) =
      ok (cached (record { cache = none; source = source; calls = 0; period = suc n }))
  new_value source (negsuc n) = ok (uncached source)
