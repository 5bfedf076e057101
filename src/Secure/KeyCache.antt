-- ===== src/Secure/KeyCache.antt =====
-- secure/key/cache.go: caches of keys in front of a resolver that may fail. The lock makes the
-- section inside `update` one step; what stands before it is a step of its own, after which other
-- goroutines may come first. What the resolver says at each call is an argument.
pub mod Updates
use webpa_common.Base.{
  ℕ, suc, ◌+◌, Bool, true, false, if◌then◌else◌, ltb, Option, none, some, List, [], ◌∷◌, ◌++◌,
  String, GoMap, lookup, insert, string_key, length, Outcome, ok, err,
}

-- The delegate: its answer to a key at a call with a given number.
abbrev pub Resolver : Type 0 → Type 0 → Type 0
Resolver E P = ℕ → String → Outcome E P

-- `dummyKeyId`
abbrev pub dummy_key_id : String
dummy_key_id = ""

-- A cache of one key. `calls` counts those of the delegate.
pub record SingleCache (P : Type 0) : Type 0 where
  pub value : Option P
  pub calls : ℕ

pub record MultiCache (P : Type 0) : Type 0 where
  pub value : Option (GoMap String P)
  pub calls : ℕ

-- What the loop of `UpdateKeys` has so far. `calls` counts those of the delegate.
pub record Refreshed (E P : Type 0) : Type 0 where
  pub calls : ℕ
  pub new_count : ℕ
  pub new_pairs : GoMap String P
  pub errors : List E

module _ {P : Type 0} where
  unfoldable pub fetch_pair : String → MultiCache P → Option P
  fetch_pair key_id c = elim c.value [ none ↦ none | some m ↦ lookup key_id m ]

  unfoldable pub copy_pairs : MultiCache P → GoMap String P
  copy_pairs c = elim c.value [ none ↦ [] | some m ↦ m ]

module _ {E P : Type 0} where
  unfoldable pub single_ask : Outcome E P → SingleCache P → SingleCache P × Outcome E P
  single_ask (ok p) c = (record c { value = some p }, ok p)
  single_ask (err e) c = (c, err e)

  unfoldable pub single_update_with : Outcome E P → SingleCache P → SingleCache P × ℕ × List E
  single_update_with (ok p) c = (record c { value = some p }, 1, [])
  single_update_with (err e) c = (c, 1, e ∷ [])

  unfoldable pub multi_ask : Outcome E P → String → MultiCache P → MultiCache P × Outcome E P
  unfolding copy_pairs
  multi_ask (ok p) key_id c = (record c { value = some (insert key_id p (copy_pairs c)) }, ok p)
  multi_ask (err e) key_id c = (c, err e)

  unfoldable pub refresh_with : Outcome E P → String → P → Refreshed E P → Refreshed E P
  refresh_with (ok p) key_id old r = record r {
    new_count = suc r.new_count;
    new_pairs = insert key_id p r.new_pairs;
  }
  refresh_with (err e) key_id old r = record r {
    new_pairs = insert key_id old r.new_pairs;
    errors = r.errors ++ e ∷ [];
  }

module _ {E P : Type 0} (delegate : Resolver E P) where
  -- The section under the lock of `ResolveKey`.
  unfoldable pub single_locked : String → SingleCache P → SingleCache P × Outcome E P
  unfolding single_ask
  single_locked key_id c = elim c.value [
    | some p ↦ (c, ok p)
    | none ↦ single_ask (delegate c.calls key_id) (record c { calls = suc c.calls })
  ]

  -- `ResolveKey`; `others` is what other goroutines do before it gets the lock.
  unfoldable pub single_resolve :
      String → (SingleCache P → SingleCache P) → SingleCache P → SingleCache P × Outcome E P
  unfolding single_locked
  single_resolve key_id others c = elim c.value [
    | some p ↦ (c, ok p)
    | none ↦ single_locked key_id (others c)
  ]

  unfoldable pub single_update : SingleCache P → SingleCache P × ℕ × List E
  unfolding single_update_with
  single_update c =
      single_update_with (delegate c.calls dummy_key_id) (record c { calls = suc c.calls })

  unfoldable pub multi_locked : String → MultiCache P → MultiCache P × Outcome E P
  unfolding fetch_pair multi_ask
  multi_locked key_id c = elim (fetch_pair key_id c) [
    | some p ↦ (c, ok p)
    | none ↦ multi_ask (delegate c.calls key_id) key_id (record c { calls = suc c.calls })
  ]

  unfoldable pub multi_resolve :
      String → (MultiCache P → MultiCache P) → MultiCache P → MultiCache P × Outcome E P
  unfolding fetch_pair multi_locked
  multi_resolve key_id others c = elim (fetch_pair key_id c) [
    | some p ↦ (c, ok p)
    | none ↦ multi_locked key_id (others c)
  ]

  -- A call of the delegate, after a number of them: its answer, and how many there are now.
  unfoldable pub ask : String → ℕ → Outcome E P × ℕ
  ask key_id calls = (delegate calls key_id, suc calls)

  -- The loop over the keys that were there.
  unfoldable pub refresh_each : GoMap String P → Refreshed E P → Refreshed E P
  unfolding refresh_with ask
  refresh_each [] r = r
  refresh_each ((key_id, old) ∷ m) r =
      let (answer, calls) = ask key_id r.calls in
      refresh_each m (refresh_with answer key_id old (record r { calls = calls }))

  -- The section under the lock of `UpdateKeys`, for the keys that were read before it.
  unfoldable pub update_locked : GoMap String P → MultiCache P → MultiCache P × ℕ × List E
  unfolding refresh_each
  update_locked existing c =
      let r =
        refresh_each existing
          (record { calls = c.calls; new_count = 0; new_pairs = []; errors = [] }) in
      let c' = record c { calls = r.calls } in
      (
        if ltb 0 r.new_count then record c' { value = some r.new_pairs } else c',
        length existing,
        r.errors,
      )

  unfoldable pub multi_update :
      (MultiCache P → MultiCache P) → MultiCache P → MultiCache P × ℕ × List E
  unfolding update_locked
  multi_update others c = elim c.value [
    | none ↦ (c, 0, [])
    | some existing ↦ update_locked existing (others c)
  ]
