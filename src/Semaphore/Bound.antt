-- ===== src/Semaphore/Bound.antt =====
-- How many calls on a semaphore hold a resource.
use webpa_common.Base.{
  ℕ, zero, suc, ◌+◌, ◌≤◌, ◌≡◌, refl, true, false, ltb, Option, none, some, List, [], ◌∷◌, set,
  arith, inl, inr, All, Option-cases, Bool-cases, subst, ap, ◌∙◌,
}
use webpa_common.Semaphore.{
  Semaphore, Call, Choice, World, Wait, acquire, release, close, plain_acquire, plain_release,
  selecting, rechecking, receiving, closing_channel, done, granted, released, closed_now,
  unavailable, refused, send, signal, see_closed, default, blocking, try_once, timed, in_context,
  advance, call_at, step, run, sent, signalled, defaulted, received, woken, closed_result, new,
}

abbrev pub grant : Call → ℕ
grant (done granted) = 1
grant _ = 0

abbrev pub give_back : Call → ℕ
give_back (done released) = 1
give_back _ = 0

-- A call that has put its element into the channel.
abbrev pub weight : Call → ℕ
weight (done granted) = 1
weight (rechecking _) = 1
weight _ = 0

abbrev pub total : (Call → ℕ) → List Call → ℕ
total f [] = 0
total f (c ∷ cs) = f c + total f cs

pub total-set :
    (f : Call → ℕ) (cs : List Call) (i : ℕ) (c c' : Call)
    → call_at cs i ≡ some c
    → total f (set cs i c') + f c ≡ total f cs + f c'
unfolding call_at
total-set f [] i c c' e = cc
total-set f (x ∷ cs) zero c c' e = ground arith
total-set f (x ∷ cs) (suc i) c c' e = omega (arith, total-set f cs i c c' e)

-- The resources in the channel cover those of the calls.
Bounded : World → Type 0
Bounded w =
    (w.semaphore.held ≤ w.semaphore.capacity)
    × (total weight w.calls ≤ w.semaphore.held + total give_back w.calls)

-- What a step of a call changes.
abbrev Fair : Call → Semaphore → Semaphore × Call → Type 0
Fair c s (s', c') =
    (s'.capacity ≡ s.capacity)
    × (s'.held ≤ s'.capacity)
    × (weight c' + s.held + give_back c ≤ weight c + s'.held + give_back c')

-- What holds of a step, if there is one.
abbrev pub Then : (Semaphore × Call → Type 0) → Option (Semaphore × Call) → Type 0
Then P none = Unit
Then P (some r) = P r

module _ (s : Semaphore) (b : s.held ≤ s.capacity) where
  closed-Fair : (c : Call) (w : Wait) → give_back c ≡ 0 → Fair c s (s, done (closed_result w))
  unfolding closed_result
  closed-Fair c blocking z = (refl, b, omega arith)
  closed-Fair c try_once z = (refl, b, omega arith)
  closed-Fair c (timed _) z = (refl, b, omega arith)
  closed-Fair c (in_context _) z = (refl, b, omega arith)

  signalled-Fair : (c : Call) (w : Wait) → give_back c ≡ 0 → Then (Fair c s) (signalled w s)
  unfolding signalled
  signalled-Fair c blocking z = tt
  signalled-Fair c try_once z = tt
  signalled-Fair c (timed true) z = (refl, b, omega arith)
  signalled-Fair c (timed false) z = tt
  signalled-Fair c (in_context true) z = (refl, b, omega arith)
  signalled-Fair c (in_context false) z = tt

  defaulted-Fair : (c : Call) (w : Wait) → give_back c ≡ 0 → Then (Fair c s) (defaulted w s)
  unfolding defaulted
  defaulted-Fair c blocking z = tt
  defaulted-Fair c try_once z = ground arith
  defaulted-Fair c (timed _) z = tt
  defaulted-Fair c (in_context _) z = tt

  woken-Fair : (c : Call) (w : Wait) → give_back c ≡ 0 → Then (Fair c s) (woken w s)
  unfolding woken
  woken-Fair c blocking z = ground arith
  woken-Fair c try_once z = tt
  woken-Fair c (timed _) z = ground arith
  woken-Fair c (in_context _) z = ground arith

  advance-Fair : (choice : Choice) (c : Call) → Then (Fair c s) (advance choice c s)
  unfolding advance sent received
  advance-Fair send (plain_acquire w) = ground arith
  advance-Fair signal (plain_acquire w) = signalled-Fair (plain_acquire w) w refl
  advance-Fair see_closed (plain_acquire w) = tt
  advance-Fair default (plain_acquire w) = defaulted-Fair (plain_acquire w) w refl
  advance-Fair choice plain_release = ground arith
  advance-Fair choice (acquire w) = elim (Bool-cases s.state_closed) [
    | inl e ↦ let q = closed-Fair (acquire w) w refl in ground arith
    | inr e ↦ ground arith
  ]
  advance-Fair send (selecting w) = ground arith
  advance-Fair signal (selecting w) = signalled-Fair (selecting w) w refl
  advance-Fair see_closed (selecting w) = woken-Fair (selecting w) w refl
  advance-Fair default (selecting w) = defaulted-Fair (selecting w) w refl
  advance-Fair choice (rechecking w) = elim (Bool-cases s.state_closed) [
    | inl e ↦ let q = closed-Fair (rechecking w) w refl in ground arith
    | inr e ↦ ground arith
  ]
  advance-Fair choice release = ground arith
  advance-Fair choice receiving = ground arith
  advance-Fair choice close = ground arith
  advance-Fair choice closing_channel = (refl, b, omega arith)
  advance-Fair choice (done r) = tt

step-Bounded :
    (i : ℕ) (choice : Choice) (w : World)
    → Bounded w
    → Bounded (step i choice w) × ((step i choice w).semaphore.capacity ≡ w.semaphore.capacity)
unfolding step Bounded
step-Bounded i choice w b = elim (Option-cases (call_at w.calls i)) [
  | inl e ↦ rw (e, step) (b, refl)
  | inr (c, e) ↦
      let f = advance-Fair w.semaphore b.0 choice c in
      elim (Option-cases (advance choice c w.semaphore)) [
        | inl q ↦ rw (e, step) (rw (q) (b, refl))
        | inr ((s, c'), q) ↦
            let f' : Fair c w.semaphore (s, c') = subst (Then (Fair c w.semaphore)) q f in
            let p1 = total-set weight w.calls i c c' e in
            let p2 = total-set give_back w.calls i c c' e in
            rw (e, step) (rw (q) ((f'.1, omega (arith, p1, p2, f'.2, b.1)), f'.0))
      ]
]

run-Bounded :
    (is : List (ℕ × Choice)) (w : World)
    → Bounded w
    → Bounded (run is w) × ((run is w).semaphore.capacity ≡ w.semaphore.capacity)
unfolding run
run-Bounded [] w b = (b, refl)
run-Bounded ((i, choice) ∷ is) w b =
    let (b1, e1) = step-Bounded i choice w b in
    let (b2, e2) = run-Bounded is (step i choice w) b1 in (b2, e2 ∙ e1)

-- A call that has not begun.
abbrev pub IsFresh : Call → Type 0
IsFresh (plain_acquire _) = Unit
IsFresh plain_release = Unit
IsFresh (acquire _) = Unit
IsFresh release = Unit
IsFresh close = Unit
IsFresh _ = ⊥

fresh-weight : (c : Call) → IsFresh c → weight c ≡ 0
fresh-weight (plain_acquire _) f = refl
fresh-weight plain_release f = refl
fresh-weight (acquire _) f = refl
fresh-weight release f = refl
fresh-weight close f = refl
fresh-weight (selecting _) f = elim f [ ]
fresh-weight (rechecking _) f = elim f [ ]
fresh-weight receiving f = elim f [ ]
fresh-weight closing_channel f = elim f [ ]
fresh-weight (done _) f = elim f [ ]

total_fresh : (cs : List Call) → All IsFresh cs → total weight cs ≡ 0
total_fresh [] f = refl
total_fresh (c ∷ cs) f = omega (arith, fresh-weight c f.0, total_fresh cs f.1)

grant-weight : (c : Call) → grant c ≤ weight c
grant-weight (plain_acquire _) = omega arith
grant-weight plain_release = omega arith
grant-weight (acquire _) = omega arith
grant-weight (selecting _) = omega arith
grant-weight (rechecking _) = omega arith
grant-weight release = omega arith
grant-weight receiving = omega arith
grant-weight close = omega arith
grant-weight closing_channel = omega arith
grant-weight (done granted) = omega arith
grant-weight (done released) = omega arith
grant-weight (done closed_now) = omega arith
grant-weight (done unavailable) = omega arith
grant-weight (done (refused _)) = omega arith

total-grant : (cs : List Call) → total grant cs ≤ total weight cs
total-grant [] = omega arith
total-grant (c ∷ cs) = omega (arith, grant-weight c, total-grant cs)

new_lem : (count : ℕ) (s : Semaphore) → new count ≡ some s → (s.capacity ≡ count) × (s.held ≡ 0)
unfolding new
new_lem count s n = elim (Bool-cases (ltb count 1)) [
  | inl e ↦ absurd (grind (arith, n, e))
  | inr e ↦
      let q : s
          ≡ record { capacity = count; held = 0; state_closed = false; channel_closed = false } =
        grind (arith, n, e) in
      (ap (λ x. x.capacity) q, ap (λ x. x.held) q)
]

-- However calls on a new semaphore interleave, and whether or not it is closed in between, at most
-- as many acquiring calls have succeeded as its count and the calls of `Release` that have returned
-- a resource allow.
pub granted_bound :
    (count : ℕ) (s : Semaphore) (cs : List Call) (is : List (ℕ × Choice))
    → new count ≡ some s
    → All IsFresh cs
    → total grant (run is (record { semaphore = s; calls = cs })).calls
      ≤ count + total give_back (run is (record { semaphore = s; calls = cs })).calls
unfolding new Bounded
granted_bound count s cs is n f =
    let w : World = record { semaphore = s; calls = cs } in
    let z = new_lem count s n in
    let (b, c) = run-Bounded is w (omega (arith, z.1), omega (arith, total_fresh cs f, z.1)) in
    omega (arith, b.0, b.1, c, z.0, total-grant (run is w).calls)
