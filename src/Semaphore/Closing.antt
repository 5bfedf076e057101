-- ===== src/Semaphore/Closing.antt =====
-- What closing a semaphore of semaphore/closeable.go does to the calls on it.
use webpa_common.Base.{
  ℕ, zero, suc, ◌<◌, ◌≡◌, refl, true, if◌then◌else◌, ltb, some, List, [], ◌∷◌, set, arith, inl, inr,
  All, Option-cases, Bool-cases, subst, sym, ◌∙◌,
}
use webpa_common.Semaphore.{
  Semaphore, Call, Choice, World, Wait, acquire, release, close, plain_acquire, plain_release,
  selecting, rechecking, receiving, closing_channel, done, unavailable, granted, refused,
  closed_error, send, signal, see_closed, default, blocking, try_once, timed, in_context, advance,
  call_at, step, run, sent, signalled, defaulted, received, woken, closed_result,
}
use webpa_common.Semaphore.Bound.{grant, total, total-set, Then}

-- A call of a method of `closeable`.
abbrev pub IsCloseable : Call → Type 0
IsCloseable (plain_acquire _) = ⊥
IsCloseable plain_release = ⊥
IsCloseable _ = Unit

IsCloseable-set :
    (cs : List Call) (i : ℕ) (c : Call)
    → All IsCloseable cs
    → IsCloseable c
    → All IsCloseable (set cs i c)
IsCloseable-set [] i c a k = tt
IsCloseable-set (x ∷ cs) zero c a k = (k, a.1)
IsCloseable-set (x ∷ cs) (suc i) c a k = (a.0, IsCloseable-set cs i c a.1 k)

call_at-IsCloseable :
    (cs : List Call) (i : ℕ) (c : Call) → All IsCloseable cs → call_at cs i ≡ some c → IsCloseable c
unfolding call_at
call_at-IsCloseable [] i c a e = absurd (grind (arith, e))
call_at-IsCloseable (x ∷ cs) zero c a e =
    let q : x ≡ c = grind (arith, e) in subst IsCloseable q a.0
call_at-IsCloseable (x ∷ cs) (suc i) c a e = call_at-IsCloseable cs i c a.1 e

-- A step on a closed semaphore.
abbrev Refusing : Call → Semaphore × Call → Type 0
Refusing c (s', c') = (s'.state_closed ≡ true) × IsCloseable c' × (grant c' ≡ grant c)

module _ (s : Semaphore) (cl : s.state_closed ≡ true) where
  closed-Refusing : (c : Call) (w : Wait) → grant c ≡ 0 → Refusing c (s, done (closed_result w))
  unfolding closed_result
  closed-Refusing c blocking z = (cl, tt, sym z)
  closed-Refusing c try_once z = (cl, tt, sym z)
  closed-Refusing c (timed _) z = (cl, tt, sym z)
  closed-Refusing c (in_context _) z = (cl, tt, sym z)

  select-Refusing :
      (choice : Choice) (w : Wait) → Then (Refusing (selecting w)) (advance choice (selecting w) s)
  unfolding advance sent signalled defaulted woken
  select-Refusing send w = ground arith
  select-Refusing signal blocking = tt
  select-Refusing signal try_once = tt
  select-Refusing signal (timed _) = ground arith
  select-Refusing signal (in_context _) = ground arith
  select-Refusing see_closed blocking = ground arith
  select-Refusing see_closed try_once = tt
  select-Refusing see_closed (timed _) = ground arith
  select-Refusing see_closed (in_context _) = ground arith
  select-Refusing default blocking = tt
  select-Refusing default try_once = ground arith
  select-Refusing default (timed _) = tt
  select-Refusing default (in_context _) = tt

  advance-Refusing :
      (choice : Choice) (c : Call) → IsCloseable c → Then (Refusing c) (advance choice c s)
  unfolding advance received
  advance-Refusing choice (plain_acquire w) k = elim k [ ]
  advance-Refusing choice plain_release k = elim k [ ]
  advance-Refusing choice (acquire w) k = let q = closed-Refusing (acquire w) w refl in ground arith
  advance-Refusing choice (selecting w) k = select-Refusing choice w
  advance-Refusing choice (rechecking w) k =
      let q = closed-Refusing (rechecking w) w refl in ground arith
  advance-Refusing choice release k = ground arith
  advance-Refusing choice receiving k = ground arith
  advance-Refusing choice close k = ground arith
  advance-Refusing choice closing_channel k = (cl, tt, refl)
  advance-Refusing choice (done r) k = tt

step_closed :
    (i : ℕ) (choice : Choice) (w : World)
    → w.semaphore.state_closed ≡ true
    → All IsCloseable w.calls
    → ((step i choice w).semaphore.state_closed ≡ true)
      × All IsCloseable (step i choice w).calls
      × (total grant (step i choice w).calls ≡ total grant w.calls)
unfolding step
step_closed i choice w cl k = elim (Option-cases (call_at w.calls i)) [
  | inl e ↦ rw (e, step) (cl, k, refl)
  | inr (c, e) ↦
      let f = advance-Refusing w.semaphore cl choice c (call_at-IsCloseable w.calls i c k e) in
      elim (Option-cases (advance choice c w.semaphore)) [
        | inl q ↦ rw (e, step) (rw (q) (cl, k, refl))
        | inr ((s, c'), q) ↦
            let (cl', k', g) : Refusing c (s, c') = subst (Then (Refusing c)) q f in
            let p = total-set grant w.calls i c c' e in
            rw (e, step) (rw (q) (cl', IsCloseable-set w.calls i c' k k', omega (arith, p, g)))
      ]
]

-- Once a closeable semaphore is closed, no acquiring call succeeds any more, those included that
-- were under way when it was closed.
pub no_grant_after_close :
    (is : List (ℕ × Choice)) (w : World)
    → w.semaphore.state_closed ≡ true
    → All IsCloseable w.calls
    → total grant (run is w).calls ≡ total grant w.calls
unfolding run
no_grant_after_close [] w cl k = refl
no_grant_after_close ((i, choice) ∷ is) w cl k =
    let (cl', k', g) = step_closed i choice w cl k in
    no_grant_after_close is (step i choice w) cl' k' ∙ g

-- How many steps an acquiring call has before it at most.
abbrev pub rank : Call → ℕ
rank (acquire _) = 3
rank (selecting _) = 2
rank (rechecking _) = 1
rank _ = 0

-- Nothing waits on a closed semaphore: an acquiring call that has not returned, however it waits
-- and however full the semaphore is, has a step that it can take, and such a step brings it closer
-- to its return.
pub close_wakes :
    (c : Call) (s : Semaphore)
    → s.channel_closed ≡ true
    → 0 < rank c
    → (choice : Choice) × (s' : Semaphore) × (c' : Call) × (advance choice c s ≡ some (s', c'))
      × (rank c' < rank c)
unfolding advance sent woken defaulted
close_wakes (acquire w) s cl r = elim (Bool-cases s.state_closed) [
  | inl e ↦ (default, s, done (closed_result w), rw (e) refl, omega arith)
  | inr e ↦ (default, s, selecting w, rw (e) refl, omega arith)
]
close_wakes (selecting blocking) s cl r =
    (see_closed, s, done (refused closed_error), rw (cl) refl, omega arith)
close_wakes (selecting (timed _)) s cl r =
    (see_closed, s, done (refused closed_error), rw (cl) refl, omega arith)
close_wakes (selecting (in_context _)) s cl r =
    (see_closed, s, done (refused closed_error), rw (cl) refl, omega arith)
close_wakes (selecting try_once) s cl r = elim (Bool-cases (ltb s.held s.capacity)) [
  | inl e ↦ (send, record s { held = suc s.held }, rechecking try_once, rw (e) refl, omega arith)
  | inr e ↦ (default, s, done unavailable, rw (e) refl, omega arith)
]
close_wakes (rechecking w) s cl r =
    (default, s, done (if s.state_closed then closed_result w else granted), refl, omega arith)
close_wakes (plain_acquire _) s cl r = absurd (omega (arith, r))
close_wakes plain_release s cl r = absurd (omega (arith, r))
close_wakes release s cl r = absurd (omega (arith, r))
close_wakes receiving s cl r = absurd (omega (arith, r))
close_wakes close s cl r = absurd (omega (arith, r))
close_wakes closing_channel s cl r = absurd (omega (arith, r))
close_wakes (done _) s cl r = absurd (omega (arith, r))
