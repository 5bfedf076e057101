-- ===== src/Base/Channels.antt =====
-- Go channels of capacity one, as the code uses them to hand over one result, and the store in
-- which `make` allocates them.
use Prim.Native.Nat.{ℕ}
use mathlib.Core.Bool.{Bool, true, false}
use mathlib.Core.Option.{Option, none, some}
use webpa_common.Base.Tests.{◌==◌, if◌then◌else◌, is_none}
use webpa_common.Base.Outcomes.{Go, ok, err, panic, deadlock}

pub record Chan {ℓ} (A : Type ℓ) : Type ℓ where
  pub buffer : Option A
  pub is_closed : Bool

-- What a receive finds: an element, the zero value of a closed channel, or nothing yet.
pub data Received {ℓ} (A : Type ℓ) : Type ℓ where
  element : A → Received A
  zero_value : Received A
  waits : Received A

module _ {ℓ} {A : Type ℓ} where
  -- `make(chan A, 1)`
  abbrev pub fresh_chan : Chan A
  fresh_chan = record { buffer = none; is_closed = false }

  -- `c <- a`: it panics on a closed channel, and blocks on a full one.
  unfoldable pub send : A → Chan A → Go (Chan A)
  send a c =
      if c.is_closed
      then err panic
      else if is_none c.buffer
      then ok (record c { buffer = some a })
      else err deadlock

  -- `close(c)` panics on a closed channel.
  unfoldable pub close_chan : Chan A → Go (Chan A)
  close_chan c = if c.is_closed then err panic else ok (record c { is_closed = true })

  -- `<-c`
  unfoldable pub receive : Chan A → Received A
  receive c = elim c.buffer [
    | some a ↦ element a
    | none ↦ if c.is_closed then zero_value else waits
  ]

-- A store of objects, by address.
abbrev pub update {ℓ} : {A : Type ℓ} → (ℕ → A) → ℕ → A → ℕ → A
update f p a q = if p == q then a else f q
