-- ===== src/Store/Pool/Bound.antt =====
-- How many objects the pool of store/circularPool.go holds.
use webpa_common.Base.{
  ℕ, zero, suc, ◌+◌, ◌≤◌, ◌<◌, ◌⊎◌, List-cases, ◌≡◌, refl, Bool, none, some, List, [], ◌∷◌, ◌++◌,
  ok, arith, inl, inr, length, length-append,
}
use webpa_common.Store.Pool.{
  CircularPool, preallocate, new_circular_pool, receive_object, get, try_get, get_unless, put,
  get_or_new,
}

-- The calls of clients. One that waits leaves the pool as it is.
pub data Call (A : Type 0) : Type 0 where
  getting trying new_if_empty : Call A
  waiting : Bool → Bool → Call A
  putting : A → Call A

module _ {A : Type 0} where
  unfoldable pub call : Call A → CircularPool A → CircularPool A
  call getting p = elim (get p) [ none ↦ p | some (a, p') ↦ p' ]
  call trying p = (try_get p).1
  call new_if_empty p = (get_or_new p).1
  call (waiting is_ready prefer) p = elim (get_unless is_ready prefer p) [
    | none ↦ p
    | some (a, p') ↦ p'
  ]
  call (putting a) p = put a p

  unfoldable pub run : List (Call A) → CircularPool A → CircularPool A
  unfolding call
  run [] p = p
  run (x ∷ xs) p = run xs (call x p)

  Fits : ℕ → CircularPool A → Type 0
  Fits max p = (p.max_size ≡ max) × (length p.objects ≤ max)

  received-Fits :
      (max : ℕ) (p : CircularPool A)
      → Fits max p
      → (receive_object p ≡ none)
        ⊎ ((a : A) × (p' : CircularPool A) × (receive_object p ≡ some (a, p')) × Fits max p')
  unfolding receive_object Fits
  received-Fits max p f = elim (List-cases p.objects) [
    | inl e ↦ inl (ground arith)
    | inr (a, rest, e) ↦ inr (a, record p { objects = rest }, ground arith, (f.0, ground arith))
  ]

  call-Fits : (max : ℕ) (x : Call A) (p : CircularPool A) → Fits max p → Fits max (call x p)
  unfolding call Fits get try_get get_or_new get_unless put receive_object
  call-Fits max getting p f = ground (arith, received-Fits max p f)
  call-Fits max trying p f = ground (arith, received-Fits max p f)
  call-Fits max new_if_empty p f = ground (arith, received-Fits max p f)
  call-Fits max (waiting is_ready prefer) p f = ground (arith, received-Fits max p f)
  call-Fits max (putting a) p f = ground (arith, length-append p.objects (a ∷ []))

  run-Fits : (max : ℕ) (xs : List (Call A)) (p : CircularPool A) → Fits max p → Fits max (run xs p)
  unfolding run
  run-Fits max [] p f = f
  run-Fits max (x ∷ xs) p f = run-Fits max xs (call x p) (call-Fits max x p f)

  length-preallocate :
      (n : ℕ) (p : CircularPool A)
      → (length (preallocate n p).objects ≡ length p.objects + n)
        × ((preallocate n p).made ≡ p.made + n)
        × ((preallocate n p).max_size ≡ p.max_size)
  unfolding preallocate
  length-preallocate zero p = (omega arith, omega arith, refl)
  length-preallocate (suc n) p =
      let q =
        length-preallocate n
          (record p { objects = p.objects ++ p.new p.made ∷ []; made = suc p.made }) in
      (omega (arith, q.0, length-append p.objects (p.new p.made ∷ [])), omega (arith, q.1), q.2)

  -- A pool is made for a positive size that is not below the initial one. It holds the initial
  -- number of objects, and whatever clients get from it and put into it, it never holds more than
  -- its size.
  pub pool_bound :
      (initial max : ℕ) (new : ℕ → A) (xs : List (Call A))
      → 0 < max
      → initial ≤ max
      → (p : CircularPool A) × (new_circular_pool initial max (some new) ≡ ok p)
        × (length p.objects ≡ initial)
        × (p.made ≡ initial)
        × (length (run xs p).objects ≤ max)
  unfolding new_circular_pool Fits
  pool_bound initial max new xs l i =
      let p : CircularPool A = record { max_size = max; objects = []; new = new; made = 0 } in
      let q = length-preallocate initial p in
      let f = run-Fits max xs (preallocate initial p) (q.2, omega (arith, q.0, i)) in
      (preallocate initial p, ground arith, omega (arith, q.0), omega (arith, q.1), f.1)
