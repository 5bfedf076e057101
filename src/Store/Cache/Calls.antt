-- ===== src/Store/Cache/Calls.antt =====
-- How often the cache of store/cache.go consults its source, and what it returns.
use webpa_common.Base.{
  ℕ, suc, ◌+◌, ◌≤◌, ◌≡◌, refl, ltb, none, some, List, [], ◌∷◌, Outcome, ok, All, arith, inl, inr,
  Bool-cases, Outcome-cases, subst, sym, ap, ◌∙◌,
}
use webpa_common.Store.Cache.{
  GoError, Cache, CacheEntry, load, load_locked, refresh, current, consult, store, keep_old,
}

-- The calls that goroutines make, each with the time that it reads first: a whole `Load`, the part
-- of one that has waited for the lock, and `Refresh`.
pub data Call : Type 0 where
  loading locked refreshing : ℕ → Call

-- A call of `Load`, or the rest of one, by this time.
abbrev pub IsBy : ℕ → Call → Type 0
IsBy end (loading t) = t ≤ end
IsBy end (locked t) = t ≤ end
IsBy end (refreshing t) = ⊥

module _ {V : Type 0} where
  unfoldable pub call : Call → Cache V → Outcome GoError V × Cache V
  call (loading t) c = load t c
  call (locked t) c = load_locked t c
  call (refreshing t) c = refresh t c

  unfoldable pub run : List Call → Cache V → Cache V
  unfolding call
  run [] c = c
  run (x ∷ xs) c = run xs (call x c).1

  Filled : Cache V → Type 0
  Filled c = (entry : CacheEntry V) × (c.cache ≡ some entry)

  locked-Filled :
      (t : ℕ) (c : Cache V)
      → Filled c
      → Filled (load_locked t c).1 × (v : V) × ((load_locked t c).0 ≡ ok v)
  unfolding load_locked current consult store keep_old Filled
  locked-Filled t c (entry, e) = elim (Bool-cases (ltb entry.expiry t)) [
    | inl p ↦ elim (Outcome-cases (c.source c.calls)) [
      | inl (x, q) ↦ (
        (record { value = entry.value; expiry = t + c.period }, ground arith),
        entry.value,
        ground arith,
      )
      | inr (v, q) ↦ ((record { value = v; expiry = t + c.period }, ground arith), v, ground arith)
    ]
    | inr p ↦ ((entry, ground arith), entry.value, ground arith)
  ]

  load-Filled :
      (t : ℕ) (c : Cache V) → Filled c → Filled (load t c).1 × (v : V) × ((load t c).0 ≡ ok v)
  unfolding load current Filled
  load-Filled t c (entry, e) = elim (Bool-cases (ltb entry.expiry t)) [
    | inl p ↦
        let q : load t c ≡ load_locked t c = ground arith in
        subst (λ r. Filled r.1 × (v : V) × (r.0 ≡ ok v)) (sym q) (locked-Filled t c (entry, e))
    | inr p ↦ ((entry, ground arith), entry.value, ground arith)
  ]

  call-Filled : (x : Call) (c : Cache V) → Filled c → Filled (call x c).1
  unfolding call refresh consult store Filled
  call-Filled (loading t) c f = (load-Filled t c f).0
  call-Filled (locked t) c f = (locked-Filled t c f).0
  call-Filled (refreshing t) c (entry, e) = elim (Outcome-cases (c.source c.calls)) [
    | inl (x, q) ↦ (entry, ground arith)
    | inr (v, q) ↦ (record { value = v; expiry = t + c.period }, ground arith)
  ]

  run-Filled : (xs : List Call) (c : Cache V) → Filled c → Filled (run xs c)
  unfolding run
  run-Filled [] c f = f
  run-Filled (x ∷ xs) c f = run-Filled xs (call x c).1 (call-Filled x c f)

  -- Once the cache holds a value, `Load` never returns an error, whatever the source answers, the
  -- clock says and other goroutines do in between.
  pub load_never_fails :
      (xs : List Call) (t : ℕ) (c : Cache V) (entry : CacheEntry V)
      → c.cache ≡ some entry
      → (v : V) × ((load t (run xs c)).0 ≡ ok v)
  unfolding Filled
  load_never_fails xs t c entry e =
      let (_, v, p) = load-Filled t (run xs c) (run-Filled xs c (entry, e)) in (v, p)

  by_lem :
      (end : ℕ) (entry : CacheEntry V) (x : Call) (c : Cache V)
      → c.cache ≡ some entry
      → end ≤ entry.expiry
      → IsBy end x
      → call x c ≡ (ok entry.value, c)
  unfolding call load load_locked current
  by_lem end entry (loading t) c e l b = ground arith
  by_lem end entry (locked t) c e l b = ground arith
  by_lem end entry (refreshing t) c e l b = elim b [ ]

  run_by :
      (end : ℕ) (entry : CacheEntry V) (xs : List Call) (c : Cache V)
      → c.cache ≡ some entry
      → end ≤ entry.expiry
      → All (IsBy end) xs
      → run xs c ≡ c
  unfolding run
  run_by end entry [] c e l b = refl
  run_by end entry (x ∷ xs) c e l b =
      let q = ap (λ r. r.1) (by_lem end entry x c e l b.0) in
      subst (λ d. run xs d ≡ c) (sym q) (run_by end entry xs c e l b.1)

  -- The cache is empty and the source answers. However many goroutines load it by the end of the
  -- period that follows, those included that have found it empty and have waited for the lock, the
  -- source is consulted once in the period that follows its answer, and each of them gets that
  -- answer.
  pub one_call_per_period :
      (t : ℕ) (v : V) (xs : List Call) (last : Call) (c : Cache V)
      → c.cache ≡ none
      → c.source c.calls ≡ ok v
      → All (IsBy (t + c.period)) xs
      → IsBy (t + c.period) last
      → ((load t c).0 ≡ ok v)
        × ((run xs (load t c).1).calls ≡ suc c.calls)
        × ((call last (run xs (load t c).1)).0 ≡ ok v)
  unfolding load load_locked current consult store
  one_call_per_period t v xs last c e q b bl =
      let d : Cache V = record c {
        cache = some (record { value = v; expiry = t + c.period });
        calls = suc c.calls;
      } in
      let p : load t c ≡ (ok v, d) = ground arith in
      let r =
        run_by (t + c.period) (record { value = v; expiry = t + c.period }) xs d refl (omega arith)
          b in
      let z =
        by_lem (t + c.period) (record { value = v; expiry = t + c.period }) last d refl
          (omega arith) bl in
      (
        ap (λ x. x.0) p,
        ap (λ x. (run xs x.1).calls) p ∙ ap (λ x. x.calls) r,
        ap (λ x. (call last (run xs x.1)).0) p ∙ ap (λ x. (call last x).0) r ∙ ap (λ x. x.0) z,
      )
