-- ===== src/Store/Pool.antt =====
-- store/circularPool.go. The channel holds its objects in order. The new function is the sequence
-- of the objects that it makes.
pub mod Bound
use webpa_common.Base.{
  ℕ, zero, suc, ◌+◌, Bool, true, false, if◌then◌else◌, ltb, Option, none, some, List, [], ◌∷◌, ◌++◌,
  Outcome, ok, err, length, is_none,
}

pub data Error : Type 0 where
  invalid_max_size invalid_initial_size new_required : Error

pub record CircularPool (A : Type 0) : Type 0 where
  pub max_size : ℕ
  pub objects : List A
  pub new : ℕ → A
  pub made : ℕ

module _ {A : Type 0} where
  -- The loop that fills the channel.
  unfoldable pub preallocate : ℕ → CircularPool A → CircularPool A
  preallocate zero pool = pool
  preallocate (suc n) pool =
      preallocate n
        (record pool { objects = pool.objects ++ pool.new pool.made ∷ []; made = suc pool.made })

  -- `NewCircularPool`, for sizes that are not negative. No function stands for a nil one.
  unfoldable pub new_circular_pool : ℕ → ℕ → Option (ℕ → A) → Outcome Error (CircularPool A)
  unfolding preallocate
  new_circular_pool initial max f =
      if ltb max 1
      then err invalid_max_size
      else if ltb max initial
      then err invalid_initial_size
      else elim f [
        | none ↦ err new_required
        | some new ↦
            ok (preallocate initial (record { max_size = max; objects = []; new = new; made = 0 }))
      ]

  -- `value := <-pool.objects`, which waits on an empty channel.
  unfoldable pub receive_object : CircularPool A → Option (A × CircularPool A)
  receive_object pool = elim pool.objects [
    | [] ↦ none
    | a ∷ rest ↦ some (a, record pool { objects = rest })
  ]

  -- None: the call waits.
  unfoldable pub get : CircularPool A → Option (A × CircularPool A)
  unfolding receive_object
  get pool = receive_object pool

  unfoldable pub try_get : CircularPool A → Option A × CircularPool A
  unfolding receive_object
  try_get pool = elim (receive_object pool) [ some (a, p) ↦ (some a, p) | none ↦ (none, pool) ]

  -- `GetCancel`, and `GetTimeout` with a positive timeout: whether the channel of the caller or the
  -- timer is ready, and whether the `select` prefers it. None: the call waits.
  unfoldable pub get_unless : Bool → Bool → CircularPool A → Option (Option A × CircularPool A)
  unfolding receive_object
  get_unless is_ready prefer pool = elim (receive_object pool) [
    | none ↦ if is_ready then some (none, pool) else none
    | some (a, p) ↦
        if is_ready
        then (if prefer then some (none, pool) else some (some a, p))
        else some (some a, p)
  ]

  unfoldable pub put : A → CircularPool A → CircularPool A
  put a pool =
      if ltb (length pool.objects) pool.max_size
      then record pool { objects = pool.objects ++ a ∷ [] }
      else pool

  unfoldable pub get_or_new : CircularPool A → A × CircularPool A
  unfolding receive_object
  get_or_new pool = elim (receive_object pool) [
    | some (a, p) ↦ (a, p)
    | none ↦ (pool.new pool.made, record pool { made = suc pool.made })
  ]
