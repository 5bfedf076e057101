-- ===== src/Semaphore.antt =====
-- semaphore/semaphore.go and semaphore/closeable.go. The channel of empty structs is a count with a
-- bound. A call is a list of atomic steps, between which other goroutines run, and the choice among
-- the cases of a `select` that are ready is an argument of the step.
pub mod Bound
pub mod Closing
use webpa_common.Base.{
  ℕ, zero, suc, ◌-◌, Bool, true, false, if◌then◌else◌, ltb, Option, none, some, List, [], ◌∷◌, set,
}

pub data Error : Type 0 where
  timeout_error closed_error context_error : Error

-- `c`, and for a closeable semaphore `state` and whether `closed` is closed.
pub record Semaphore : Type 0 where
  pub capacity : ℕ
  pub held : ℕ
  pub state_closed : Bool
  pub channel_closed : Bool

-- `New` and `NewCloseable`, which panic without a positive count.
unfoldable pub new : ℕ → Option Semaphore
new count =
    if ltb count 1
    then none
    else some (record { capacity = count; held = 0; state_closed = false; channel_closed = false })

-- How an acquiring call waits: for ever, not at all, for a timer, or for a context. The flag tells
-- whether the timer has fired, or the context is done.
pub data Wait : Type 0 where
  blocking try_once : Wait
  timed in_context : Bool → Wait

-- What a call has returned: a nil error of an acquiring call, of `Release` and of `Close`, `false`
-- of `TryAcquire`, or an error.
pub data Result : Type 0 where
  granted released closed_now unavailable : Result
  refused : Error → Result

-- The cases of a `select`.
pub data Choice : Type 0 where
  send signal see_closed default : Choice

-- How far a call has come.
pub data Call : Type 0 where
  plain_acquire : Wait → Call
  plain_release : Call
  acquire : Wait → Call
  selecting : Wait → Call
  rechecking : Wait → Call
  release : Call
  receiving : Call
  close : Call
  closing_channel : Call
  done : Result → Call

-- `TryAcquire` tells a closed semaphore by `false` too.
unfoldable pub closed_result : Wait → Result
closed_result blocking = refused closed_error
closed_result try_once = unavailable
closed_result (timed _) = refused closed_error
closed_result (in_context _) = refused closed_error

-- A case with the timer or the context.
unfoldable pub signalled : Wait → Semaphore → Option (Semaphore × Call)
signalled blocking s = none
signalled try_once s = none
signalled (timed fired) s = if fired then some (s, done (refused timeout_error)) else none
signalled (in_context over) s = if over then some (s, done (refused context_error)) else none

-- The default case, which is taken if no other is ready.
unfoldable pub defaulted : Wait → Semaphore → Option (Semaphore × Call)
defaulted blocking s = none
defaulted try_once s = if ltb s.held s.capacity then none else some (s, done unavailable)
defaulted (timed _) s = none
defaulted (in_context _) s = none

-- `case c <- struct{}{}:`, with what follows it.
unfoldable pub sent : Call → Semaphore → Option (Semaphore × Call)
sent next s = if ltb s.held s.capacity then some (record s { held = suc s.held }, next) else none

-- `<-c`
unfoldable pub received : Semaphore → Option (Semaphore × Call)
received s = if ltb 0 s.held then some (record s { held = s.held - 1 }, done released) else none

-- `case <-cs.closed:`, which `TryAcquire` does not have.
unfoldable pub woken : Wait → Semaphore → Option (Semaphore × Call)
woken blocking s = if s.channel_closed then some (s, done (refused closed_error)) else none
woken try_once s = none
woken (timed _) s = if s.channel_closed then some (s, done (refused closed_error)) else none
woken (in_context _) s = if s.channel_closed then some (s, done (refused closed_error)) else none

-- One step of a call. None: the case is not ready, or the call has returned.
unfoldable pub advance : Choice → Call → Semaphore → Option (Semaphore × Call)
unfolding signalled defaulted sent received woken closed_result
advance send (plain_acquire w) s = sent (done granted) s
advance signal (plain_acquire w) s = signalled w s
advance see_closed (plain_acquire w) s = none
advance default (plain_acquire w) s = defaulted w s
advance c plain_release s = received s
advance c (acquire w) s = some (s, if s.state_closed then done (closed_result w) else selecting w)
advance send (selecting w) s = sent (rechecking w) s
advance signal (selecting w) s = signalled w s
advance see_closed (selecting w) s = woken w s
advance default (selecting w) s = defaulted w s
advance c (rechecking w) s = some (s, done (if s.state_closed then closed_result w else granted))
advance c release s = some (s, if s.state_closed then done (refused closed_error) else receiving)
advance c receiving s = received s
advance c close s =
    if s.state_closed
    then some (s, done (refused closed_error))
    else some (record s { state_closed = true }, closing_channel)
advance c closing_channel s = some (record s { channel_closed = true }, done closed_now)
advance c (done r) s = none

-- A semaphore and the calls that are made on it.
pub record World : Type 0 where
  pub semaphore : Semaphore
  pub calls : List Call

unfoldable pub call_at : List Call → ℕ → Option Call
call_at [] i = none
call_at (c ∷ cs) zero = some c
call_at (c ∷ cs) (suc i) = call_at cs i

-- A step that a call cannot take changes nothing.
unfoldable pub step : ℕ → Choice → World → World
unfolding advance call_at
step i choice w = elim (call_at w.calls i) [
  | none ↦ w
  | some c ↦ elim (advance choice c w.semaphore) [
    | none ↦ w
    | some (s, c') ↦ record { semaphore = s; calls = set w.calls i c' }
  ]
]

-- Any interleaving of the calls.
unfoldable pub run : List (ℕ × Choice) → World → World
unfolding step
run [] w = w
run ((i, choice) ∷ is) w = run is (step i choice w)
