-- ===== src/Capacitor.antt =====
-- capacitor/capacitor.go: function calls that wait for a timer, of which only the last one is made.
-- A delayer is an address in a store, since the capacitor and the goroutine of the delayer share it;
-- a function, which is not nil, is a number, and `executed` the functions that were called. The lock
-- makes a call one step; the goroutine takes a step for each of its selects and one to clean up.
pub mod Soundness
pub mod Ending
use webpa_common.Base.{
  ℕ, suc, ◌+◌, Bool, true, false, if◌then◌else◌, ◌==◌, ltb, Option, none, some, List, [], ◌∷◌, ◌++◌,
  ok, err, Go, deadlock, ◌>>=◌, update,
}

-- How far the goroutine is: in its outer select, in the one after the timer, before `execute`, before
-- its deferred cleanup, or at its end.
pub data Phase : Type 0 where
  waiting fired executing cleaning gone : Phase

-- `current`, the channel `terminate` with room for one element, and whether the timer has fired.
-- `runs` counts the calls of `execute`.
pub record Delayer : Type 0 where
  pub current : ℕ
  pub terminate : Option Bool
  pub timer_ready : Bool
  pub phase : Phase
  pub runs : ℕ

pub record Capacitor : Type 0 where
  pub d : Option ℕ
  pub delayers : ℕ → Delayer
  pub allocated : ℕ
  pub executed : List ℕ

-- `New`
unfoldable pub new : (ℕ → Delayer) → Capacitor
new delayers = record { d = none; delayers = delayers; allocated = 0; executed = [] }

unfoldable pub set_delayer : ℕ → Delayer → Capacitor → Capacitor
set_delayer h x c = record c { delayers = update c.delayers h x }

unfoldable pub fresh_delayer : ℕ → Delayer
fresh_delayer v = record {
  current = v;
  terminate = none;
  timer_ready = false;
  phase = waiting;
  runs = 0;
}

unfoldable pub submit : ℕ → Capacitor → Capacitor
unfolding set_delayer fresh_delayer
submit v c = elim c.d [
  | none ↦ record (set_delayer c.allocated (fresh_delayer v) c) {
    d = some c.allocated;
    allocated = suc c.allocated;
  }
  | some h ↦ set_delayer h (record (c.delayers h) { current = v }) c
]

-- `d.terminate <- b`, which blocks on a full channel, with the lock held.
unfoldable pub send_terminate : Bool → ℕ → Capacitor → Go Capacitor
unfolding set_delayer
send_terminate b h c = elim (c.delayers h).terminate [
  | none ↦ ok (set_delayer h (record (c.delayers h) { terminate = some b }) c)
  | some _ ↦ err deadlock
]

-- `Discharge` with true, and `Cancel` with false.
unfoldable pub end_charge : Bool → Capacitor → Go Capacitor
unfolding send_terminate
end_charge b c = elim c.d [
  | none ↦ ok c
  | some h ↦ (do c' ← send_terminate b h c; ok (record c' { d = none }))
]

unfoldable pub discharge : Capacitor → Go Capacitor
unfolding end_charge
discharge c = end_charge true c

unfoldable pub cancel : Capacitor → Go Capacitor
unfolding end_charge
cancel c = end_charge false c

unfoldable pub execute : ℕ → Capacitor → Capacitor
unfolding set_delayer
execute h c = record (set_delayer h (record (c.delayers h) { runs = suc (c.delayers h).runs }) c) {
  executed = c.executed ++ (c.delayers h).current ∷ [];
}

unfoldable pub set_phase : Phase → ℕ → Capacitor → Capacitor
unfolding set_delayer
set_phase p h c = set_delayer h (record (c.delayers h) { phase = p }) c

-- `case discharge := <-d.terminate:`
unfoldable pub terminated : Bool → ℕ → Capacitor → Capacitor
unfolding set_delayer
terminated b h c =
    set_delayer h
      (record (c.delayers h) { terminate = none; phase = if b then executing else cleaning }) c

-- `d.cleanup`, but for stopping the timer
unfoldable pub clean_up : ℕ → Capacitor → Capacitor
unfolding set_phase
clean_up h c =
    let c1 = set_phase gone h c in
    elim c.d [ none ↦ c1 | some g ↦ if g == h then record c1 { d = none } else c1 ]

-- A step of the goroutine of a delayer. In the outer select it takes the timer if it prefers it and
-- the timer has fired.
unfoldable pub advance : Bool → ℕ → Capacitor → Capacitor
advance prefer_timer h c = elim (c.delayers h).phase [
  | waiting ↦
      if prefer_timer
      then (if (c.delayers h).timer_ready then set_phase fired h c else c)
      else elim (c.delayers h).terminate [ none ↦ c | some b ↦ terminated b h c ]
  | fired ↦ elim (c.delayers h).terminate [
    | none ↦ set_phase executing h c
    | some b ↦ terminated b h c
  ]
  | executing ↦ set_phase cleaning h (execute h c)
  | cleaning ↦ clean_up h c
  | gone ↦ c
]

pub data Action : Type 0 where
  submits : (v : ℕ) → Action
  ends : (discharged : Bool) → Action
  ticks : (h : ℕ) → Action
  advances : (prefer_timer : Bool) (h : ℕ) → Action

-- Only a delayer that was made has a timer and a goroutine.
unfoldable pub step : Action → Capacitor → Go Capacitor
unfolding submit end_charge set_delayer advance
step (submits v) c = ok (submit v c)
step (ends b) c = end_charge b c
step (ticks h) c = ok (
    if ltb h c.allocated then set_delayer h (record (c.delayers h) { timer_ready = true }) c else c)
step (advances p h) c = ok (if ltb h c.allocated then advance p h c else c)

unfoldable pub run : List Action → Capacitor → Go Capacitor
unfolding step
run [] c = ok c
run (a ∷ rest) c = do c' ← step a c; run rest c'
