-- ===== src/Service/Monitor.antt =====
-- service/monitor: the goroutines that pass the events of service discovery on to listeners
-- (monitor.go, filter.go), and the listeners that keep accessors and a registration (listener.go).
-- A monitor has a number of instancers, which are counted from 0, and a goroutine for each; all share
-- the listeners. The cases that the goroutines' selects take, and what others do to the monitor, are
-- a sequence of steps, in which a call of a listener is not interrupted. An error is of type E, and
-- `S` is the state of the listeners.
pub mod Sequence
pub mod Registering
use webpa_common.Base.{
  ℕ, suc, not, ◌||◌, ltb, update, Bool, true, false, if◌then◌else◌, Option, none, some, List, [],
  ◌∷◌, ◌++◌, String, Outcome, ok, err, is_none,
}

pub record Event (E : Type 0) : Type 0 where
  pub key : String
  pub service : String
  pub instancer : ℕ
  pub event_count : ℕ
  pub instances : List String
  pub err : Option E
  pub stopped : Bool

abbrev pub Listener : Type 0 → Type 0 → Type 0
Listener E S = Event E → S → S

-- The loop of `NewNormalizeFilter`; `service.NormalizeInstance` and the sorting are arguments.
unfoldable pub normalized : {E : Type 0} → (String → Outcome E String) → List String → List String
normalized normalize [] = []
normalized normalize (o ∷ os) = elim (normalize o) [
  | ok n ↦ n ∷ normalized normalize os
  | err e ↦ normalized normalize os
]

unfoldable pub normalize_filter :
    {E : Type 0}
    → (String → Outcome E String)
    → (List String → List String)
    → List String
    → List String
unfolding normalized
normalize_filter normalize sort [] = []
normalize_filter normalize sort (o ∷ os) = sort (normalized normalize (o ∷ os))

-- The goroutine of an instancer, and whether it has returned.
pub record Goroutine : Type 0 where
  pub event_count : ℕ
  pub is_done : Bool

-- A monitor; `is_stopped` and `is_closed` tell of the channels `stopped` and `closed`.
pub record Monitor (S : Type 0) : Type 0 where
  pub listeners : S
  pub goroutines : ℕ → Goroutine
  pub is_stopped : Bool
  pub is_closed : Bool

-- The three cases of the `select` of a goroutine, a call of `Stop`, and the closing of the
-- environment.
pub data Action (E : Type 0) : Type 0 where
  receives : (g : ℕ) (failure : Option E) (instances : List String) → Action E
  sees_stopped sees_closed : (g : ℕ) → Action E
  stops closes : Action E

-- `Listeners.MonitorEvent`
unfoldable pub monitor_event : {E S : Type 0} → List (Listener E S) → Event E → S → S
monitor_event [] e s = s
monitor_event (l ∷ ls) e s = monitor_event ls e (l e s)

-- The instances of an event, which are filtered if there are some and no error.
unfoldable pub instances_of :
    {E : Type 0} → (List String → List String) → Option E → List String → List String
instances_of filter (some e) instances = []
instances_of filter none [] = []
instances_of filter none (i ∷ is) = filter (i ∷ is)

module _ {E : Type 0} (key service : ℕ → String) where
  unfoldable pub stopped_event : ℕ → ℕ → Event E
  stopped_event g n = record {
    key = key g;
    service = service g;
    instancer = g;
    event_count = n;
    instances = [];
    err = none;
    stopped = true;
  }

  -- The first case of the `select`.
  unfoldable pub event_of : (List String → List String) → ℕ → ℕ → Option E → List String → Event E
  event_of filter g n failure instances = record {
    key = key g;
    service = service g;
    instancer = g;
    event_count = n;
    instances = instances_of filter failure instances;
    err = failure;
    stopped = false;
  }

module _ {E S : Type 0} (key service : ℕ → String) (ls : List (Listener E S)) where
  unfoldable pub finish : ℕ → Monitor S → Monitor S
  finish g m = record m {
    goroutines = update m.goroutines g (record (m.goroutines g) { is_done = true });
    listeners =
        monitor_event ls (stopped_event key service g (m.goroutines g).event_count) m.listeners;
  }

module _ {E S : Type 0} (key service : ℕ → String) (filter : List String → List String)
    (ls : List (Listener E S)) where
  unfoldable pub receive_event : ℕ → Option E → List String → Monitor S → Monitor S
  receive_event g failure instances m =
      let n = suc (m.goroutines g).event_count in
      record m {
        goroutines = update m.goroutines g (record (m.goroutines g) { event_count = n });
        listeners =
            monitor_event ls (event_of key service filter g n failure instances) m.listeners;
      }

module _ {S : Type 0} (size : ℕ) where
  -- A goroutine that was never started, or has returned, takes no case.
  unfoldable pub is_idle : ℕ → Monitor S → Bool
  is_idle g m = not (ltb g size) || (m.goroutines g).is_done

module _ {E S : Type 0} (size : ℕ) (key service : ℕ → String) (filter : List String → List String)
    (ls : List (Listener E S)) where
  unfoldable pub step : Action E → Monitor S → Monitor S
  step (receives g failure instances) m =
      if is_idle size g m then m else receive_event key service filter ls g failure instances m
  step (sees_stopped g) m =
      if is_idle size g m then m else if m.is_stopped then finish key service ls g m else m
  step (sees_closed g) m =
      if is_idle size g m
      then m
      else if m.is_closed
      then finish key service ls g (record m { is_stopped = true })
      else m
  step stops m = record m { is_stopped = true }
  step closes m = record m { is_closed = true }

  unfoldable pub run : List (Action E) → Monitor S → Monitor S
  run [] m = m
  run (a ∷ rest) m = run rest (step a m)

-- The state before the goroutines start.
unfoldable pub new : {S : Type 0} → S → Monitor S
new s = record {
  listeners = s;
  goroutines = λ _. record { event_count = 0; is_done = false };
  is_stopped = false;
  is_closed = false;
}

-- A registrar: whether `NewRegistrarListener` takes it for registered, and the calls that were made
-- on it, with true for `Register`.
pub record Registration : Type 0 where
  pub is_registered : Bool
  pub calls : List Bool

unfoldable pub registers : Registration → Registration
registers r =
    if r.is_registered then r else record { is_registered = true; calls = r.calls ++ true ∷ [] }

unfoldable pub deregisters : Registration → Registration
deregisters r =
    if r.is_registered then record { is_registered = false; calls = r.calls ++ false ∷ [] } else r

unfoldable pub registrar_listener : {E : Type 0} → Listener E Registration
registrar_listener e r =
    if is_none e.err then (if e.stopped then deregisters r else registers r) else deregisters r

-- What `NewAccessorListener` calls `next` with: an accessor or an error.
unfoldable pub accessor_of : {E A : Type 0} → (List String → A) → A → Event E → Option A × Option E
accessor_of factory empty e = elim e.err [
  | some x ↦ (none, some x)
  | none ↦ elim e.instances [ [] ↦ (some empty, none) | i ∷ is ↦ (some (factory (i ∷ is)), none) ]
]
