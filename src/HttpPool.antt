-- ===== src/HttpPool.antt =====
-- httppool/client.go: a queue of tasks, and the goroutines that take them from it. A task of type T
-- is told by what it returns when called, a request by `R`, an error by `E`. A sender takes a step to
-- put its task and one to tell the listeners, a worker one to take a task, one to call it and one for
-- the rest, and goroutines interleave as sequences of steps. Workers differ only in what they log, so
-- they are counted; a rate-limited worker waits for its ticker between `takes` and `begins`.

pub mod Books
pub mod Sound
pub mod Workers
pub mod Accounts
pub mod Shutdown
use webpa_common.Base.{
  ℕ, zero, suc, ◌+◌, ◌-◌, Bool, true, false, if◌then◌else◌, ltb, Option, none, some, List, [], ◌∷◌,
  ◌++◌, length,
}

abbrev pub default_workers : ℕ
default_workers = 10

abbrev pub default_queue_size : ℕ
default_queue_size = 100

-- `Client.queueSize` and `Client.workers`
unfoldable pub queue_size : ℕ → ℕ
queue_size n = if ltb 0 n then n else default_queue_size

unfoldable pub workers : ℕ → ℕ
workers n = if ltb 0 n then n else default_workers

-- What a task does when it is called: it panics, or returns a request, a consumer and an error. A
-- consumer is told by what it panics with, if it does.
pub data Asked (R E : Type 0) : Type 0 where
  panics : (e : E) → Asked R E
  asked : (request : Option R) (consumer : Option (Option E)) (err : Option E) → Asked R E

-- What `Do` does; of a response it counts whether it has a body.
pub data Reply (E : Type 0) : Type 0 where
  broke : (e : E) → Reply E
  replied : (response : Option Bool) (err : Option E) → Reply E

-- A task that was handled: the request that was sent, whether a body came with the response and was
-- closed, whether the consumer was called, and the error of the last event.
pub record Handled (R E : Type 0) : Type 0 where
  pub sent : Option R
  pub got_body : Bool
  pub closed_body : Bool
  pub consumed : Bool
  pub err : Option E

abbrev has_body : Option Bool → Bool
has_body none = false
has_body (some b) = b

module _ {R E : Type 0} where
  unfoldable pub unsent : Option E → Handled R E
  unsent e = record {
    sent = none;
    got_body = false;
    closed_body = false;
    consumed = false;
    err = e;
  }

  -- The call of the consumer, when there was no error.
  unfoldable pub consume : R → Bool → Option (Option E) → Handled R E
  consume q b none = record {
    sent = some q;
    got_body = b;
    closed_body = b;
    consumed = false;
    err = none;
  }
  consume q b (some failure) = record {
    sent = some q;
    got_body = b;
    closed_body = b;
    consumed = true;
    err = failure;
  }

  -- From `response, err := pooled.handler.Do(request)` on. The deferred function closes the body.
  unfoldable pub respond : R → Option (Option E) → Reply E → Handled R E
  respond q c (broke e) = record {
    sent = some q;
    got_body = false;
    closed_body = false;
    consumed = false;
    err = some e;
  }
  respond q c (replied response (some e)) = record {
    sent = some q;
    got_body = has_body response;
    closed_body = has_body response;
    consumed = false;
    err = some e;
  }
  respond q c (replied none none) = record {
    sent = some q;
    got_body = false;
    closed_body = false;
    consumed = false;
    err = none;
  }
  respond q c (replied (some b) none) = consume q b c

  -- `handleTask`
  unfoldable pub handle_task : (R → Reply E) → Asked R E → Handled R E
  handle_task transact (panics e) = unsent (some e)
  handle_task transact (asked request c (some e)) = unsent (some e)
  handle_task transact (asked none c none) = unsent none
  handle_task transact (asked (some q) c none) = respond q c (transact q)

pub data EventType : Type 0 where
  queue reject start finish : EventType

pub record Event (E : Type 0) : Type 0 where
  pub event_type : EventType
  pub event_error : Option E

-- The dispatcher and its workers: the channel `tasks`, the workers that wait on it, the tasks that
-- workers have taken and those that they have called, and the workers that have returned.
-- `unannounced` counts the senders that have put a task and not yet told the listeners. `ran`,
-- `handled` and `events` are what was called, what came of it, and what listeners heard.
pub record Pool (T R E : Type 0) : Type 0 where
  pub tasks : List T
  pub capacity : ℕ
  pub is_closed : Bool
  pub unannounced : ℕ
  pub waiting : ℕ
  pub holding : List T
  pub handling : List T
  pub gone : ℕ
  pub ran : List T
  pub handled : List (Handled R E)
  pub events : List (Event E)

-- The element at a position, and the others.
unfoldable pub pick : {A : Type 0} → ℕ → List A → Option (A × List A)
pick i [] = none
pick zero (x ∷ xs) = some (x, xs)
pick (suc i) (x ∷ xs) = elim (pick i xs) [ none ↦ none | some (y, ys) ↦ some (y, x ∷ ys) ]

module _ {T R E : Type 0} where
  -- `Start`
  unfoldable pub start_pool : ℕ → ℕ → Pool T R E
  start_pool size n = record {
    tasks = [];
    capacity = queue_size size;
    is_closed = false;
    unannounced = 0;
    waiting = workers n;
    holding = [];
    handling = [];
    gone = 0;
    ran = [];
    handled = [];
    events = [];
  }

  unfoldable pub dispatch : EventType → Option E → Pool T R E → Pool T R E
  dispatch t e p = record p { events = p.events ++ record { event_type = t; event_error = e } ∷ [] }

  unfoldable pub put : T → Pool T R E → Pool T R E
  put t p = record p { tasks = p.tasks ++ t ∷ []; unannounced = suc p.unannounced }

  -- The deferred function of `Send` and `Offer`, after the task was put.
  unfoldable pub announce_with : ℕ → Pool T R E → Pool T R E
  announce_with zero p = p
  announce_with (suc n) p = dispatch queue none (record p { unannounced = n })

  unfoldable pub announce : Pool T R E → Pool T R E
  announce p = announce_with p.unannounced p

  -- A worker that waits takes the next task, or returns when the channel is closed and empty.
  unfoldable pub take_with : ℕ → List T → Pool T R E → Pool T R E
  take_with zero ts p = p
  take_with (suc n) [] p = if p.is_closed then record p { waiting = n; gone = suc p.gone } else p
  take_with (suc n) (t ∷ ts) p = record p { waiting = n; tasks = ts; holding = p.holding ++ t ∷ [] }

  unfoldable pub take : Pool T R E → Pool T R E
  take p = take_with p.waiting p.tasks p

  -- A worker tells the listeners that it starts on the task that it holds, and calls it.
  unfoldable pub begin_on : Option (T × List T) → Pool T R E → Pool T R E
  begin_on none p = p
  begin_on (some (t, others)) p =
      dispatch start none
        (record p { holding = others; handling = p.handling ++ t ∷ []; ran = p.ran ++ t ∷ [] })

  unfoldable pub begin : ℕ → Pool T R E → Pool T R E
  begin i p = begin_on (pick i p.holding) p

module _ {T R E : Type 0} (error_closed : E) where
  -- `Send`, with its error; none if the channel is full, when it blocks and tries again.
  unfoldable pub send : T → Pool T R E → Option (Option E × Pool T R E)
  send t p =
      if p.is_closed
      then some (some error_closed, dispatch reject (some error_closed) p)
      else if ltb (length p.tasks) p.capacity
      then some (none, put t p)
      else none

  -- `Offer`, with whether the task was taken and its error.
  unfoldable pub offer : T → Pool T R E → (Bool × Option E) × Pool T R E
  offer t p =
      if p.is_closed
      then ((false, some error_closed), dispatch reject (some error_closed) p)
      else if ltb (length p.tasks) p.capacity
      then ((true, none), put t p)
      else ((false, none), dispatch reject none p)

  unfoldable pub close : Pool T R E → Option E × Pool T R E
  close p = if p.is_closed then (some error_closed, p) else (none, record p { is_closed = true })

module _ {T R E : Type 0} (call : T → Asked R E) (transact : R → Reply E) where
  -- A worker ends with the task that it called, and waits again.
  unfoldable pub work : T → List T → Pool T R E → Pool T R E
  work t others p =
      let h = handle_task transact (call t) in
      dispatch finish h.err
        (record p { waiting = suc p.waiting; handling = others; handled = p.handled ++ h ∷ [] })

  unfoldable pub work_on : Option (T × List T) → Pool T R E → Pool T R E
  work_on none p = p
  work_on (some (t, others)) p = work t others p

  unfoldable pub handle : ℕ → Pool T R E → Pool T R E
  handle i p = work_on (pick i p.handling) p

pub data Action (T : Type 0) : Type 0 where
  sends offers : (task : T) → Action T
  closes announces takes : Action T
  begins handles : (i : ℕ) → Action T

module _ {T R E : Type 0} (error_closed : E) (call : T → Asked R E) (transact : R → Reply E) where
  unfoldable pub step : Action T → Pool T R E → Pool T R E
  step (sends t) p = elim (send error_closed t p) [ none ↦ p | some (e, p') ↦ p' ]
  step (offers t) p = (offer error_closed t p).1
  step closes p = (close error_closed p).1
  step announces p = announce p
  step takes p = take p
  step (begins i) p = begin i p
  step (handles i) p = handle call transact i p

  unfoldable pub run : List (Action T) → Pool T R E → Pool T R E
  run [] p = p
  run (a ∷ rest) p = run rest (step a p)
