-- ===== src/Xhttp/Gate/Turns.antt =====
-- Raising and lowering the gate of xhttp/gate/gate.go.
use webpa_common.Base.{
  ℕ, suc, ◌+◌, ◌≡◌, refl, Bool, true, false, if◌then◌else◌, List, [], ◌∷◌, arith, Bool-cases, inl,
  inr,
}
use webpa_common.Xhttp.Gate.{Gate, new, raise, lower, state, open_value, closed_value}

-- A call, with the time at which it is made.
pub data Turn : Type 0 where
  up down : ℕ → Turn

-- The gate after the calls, with how many calls of each kind have changed it.
unfoldable pub run : List Turn → Gate → Gate × ℕ × ℕ
run [] g = (g, 0, 0)
run (up now ∷ ts) g =
    let (g', hit) = raise now g in
    let (last, ups, downs) = run ts g' in (last, if hit then suc ups else ups, downs)
run (down now ∷ ts) g =
    let (g', hit) = lower now g in
    let (last, ups, downs) = run ts g' in (last, ups, if hit then suc downs else downs)

abbrev pub level : Bool → ℕ
level b = if b then open_value else closed_value

Balanced : Gate → Gate × ℕ × ℕ → Type 0
Balanced g (last, ups, downs) =
    (last.gauge ≡ level last.is_open)
    × (ups + (if g.is_open then 1 else 0) ≡ downs + (if last.is_open then 1 else 0))

run_lem : (ts : List Turn) (g : Gate) → g.gauge ≡ level g.is_open → Balanced g (run ts g)
unfolding run raise lower Balanced
run_lem [] g e = (e, refl)
run_lem (up now ∷ ts) g e =
    let g' : Gate = record { is_open = true; timestamp = now; gauge = open_value } in
    elim (Bool-cases g.is_open) [
      | inl o ↦ let q = run_lem ts g e in ground arith
      | inr o ↦ let q = run_lem ts g' refl in ground arith
    ]
run_lem (down now ∷ ts) g e =
    let g' : Gate = record { is_open = false; timestamp = now; gauge = closed_value } in
    elim (Bool-cases g.is_open) [
      | inl o ↦ let q = run_lem ts g' refl in ground arith
      | inr o ↦ let q = run_lem ts g e in ground arith
    ]

-- Whatever the calls, the gauge shows whether the gate is open, and the calls that report a change
-- alternate: those that have raised it, and one if it was open at first, are as many as those that
-- have lowered it, and one if it is open at last.
pub turns_balance :
    (ts : List Turn) (initial : Bool) (now : ℕ)
    → let (g, ups, downs) = run ts (new initial now) in
      (g.gauge ≡ (if (state g).0 then open_value else closed_value))
      × (ups + (if initial then 1 else 0) ≡ downs + (if (state g).0 then 1 else 0))
unfolding new state Balanced
turns_balance ts initial now = let q = run_lem ts (new initial now) refl in q
