-- ===== src/Capacitor/Soundness.antt =====
-- No call on a capacitor blocks for good, and a delayer calls one function at most.
use webpa_common.Base.{
  ℕ, ◌≤◌, ◌<◌, ◌≡◌, refl, sym, ◌⊎◌, inl, inr, Bool, true, false, if◌then◌else◌, ◌==◌, ltb, none,
  some, List, [], ◌∷◌, ok, arith, Option-cases, Bool-cases, either, subst,
}
use webpa_common.Capacitor.{
  Phase, waiting, fired, executing, cleaning, gone, Delayer, Capacitor, new, set_delayer,
  fresh_delayer, submit, send_terminate, end_charge, execute, set_phase, terminated, clean_up,
  advance, Action, submits, ends, ticks, advances, step, run,
}

-- The goroutine has not left its selects.
abbrev pub is_early : Phase → Bool
is_early waiting = true
is_early fired = true
is_early executing = false
is_early cleaning = false
is_early gone = false

-- The goroutine has come to its cleanup.
abbrev pub is_over : Phase → Bool
is_over waiting = false
is_over fired = false
is_over executing = false
is_over cleaning = true
is_over gone = true

-- What a delayer may have done by a phase.
abbrev pub Once : Delayer → Type 0
Once x = x.runs ≤ (if is_over x.phase then 1 else 0)

-- The current delayer can still be told to end, and each has called its function once at most, and
-- not before it comes to its cleanup.
pub record IsSound (c : Capacitor) : Type 0 where
  pub untold : (h : ℕ) → c.d ≡ some h → (c.delayers h).terminate ≡ none
  pub known : (h : ℕ) → c.d ≡ some h → h < c.allocated
  pub once : (h : ℕ) → h < c.allocated → Once (c.delayers h)

pub new-IsSound : (delayers : ℕ → Delayer) → IsSound (new delayers)
unfolding new
new-IsSound delayers = record {
  untold = λ h e. cc;
  known = λ h e. cc;
  once = λ h p. absurd (omega (arith, p));
}

-- A change of a known delayer.
set_delayer-IsSound :
    (h : ℕ) (x : Delayer) (c : Capacitor)
    → (c.d ≡ some h → x.terminate ≡ none)
    → Once x
    → IsSound c
    → IsSound (set_delayer h x c)
unfolding set_delayer
set_delayer-IsSound h x c t o s = record {
  untold = λ k e. ground (arith, s.untold k, t, e);
  known = s.known;
  once = λ k p. ground (arith, s.once k p, o);
}

pub submit-IsSound : (v : ℕ) (c : Capacitor) → IsSound c → IsSound (submit v c)
unfolding submit fresh_delayer set_delayer
submit-IsSound v c s = elim (Option-cases c.d) [
  | inl e ↦
      rw (e, submit)
        (record {
          untold = λ k q. ground (arith, q);
          known = λ k q. ground (arith, q);
          once = λ k p. ground (arith, s.once k);
        })
  | inr (h, e) ↦
      rw (e, submit)
        (record {
          untold = λ k q. ground (arith, s.untold k, e, q);
          known = λ k q. ground (arith, s.known k, e, q);
          once = λ k p. ground (arith, s.once k p, s.once h);
        })
]

-- A capacitor whose current delayer was told to end.
unfoldable pub told : Bool → ℕ → Capacitor → Capacitor
unfolding set_delayer
told b h c = record (set_delayer h (record (c.delayers h) { terminate = some b }) c) { d = none }

pub end_charge_lem :
    (b : Bool) (h : ℕ) (c : Capacitor) → IsSound c → c.d ≡ some h → end_charge b c ≡ ok (told b h c)
unfolding end_charge send_terminate told
end_charge_lem b h c s e = ground (arith, e, s.untold h e)

pub told-IsSound : (b : Bool) (h : ℕ) (c : Capacitor) → IsSound c → IsSound (told b h c)
unfolding told set_delayer
told-IsSound b h c s = record {
  untold = λ k e. cc;
  known = λ k e. cc;
  once = λ k p. ground (arith, s.once k p);
}

terminated-IsSound :
    (b : Bool) (h : ℕ) (c : Capacitor)
    → is_early (c.delayers h).phase ≡ true
    → IsSound c
    → IsSound (terminated b h c)
unfolding terminated execute set_phase set_delayer
terminated-IsSound true h c e s = record {
  untold = λ k q. ground (arith, s.untold k q);
  known = s.known;
  once = λ k p. ground (arith, s.once k p, e);
}
terminated-IsSound false h c e s = record {
  untold = λ k q. ground (arith, s.untold k q);
  known = s.known;
  once = λ k p. ground (arith, s.once k p, e);
}

clean_up-IsSound :
    (h : ℕ) (c : Capacitor) → (c.delayers h).phase ≡ cleaning → IsSound c → IsSound (clean_up h c)
unfolding clean_up set_phase set_delayer
clean_up-IsSound h c e s = elim (Option-cases c.d) [
  | inl q ↦
      rw (q, clean_up)
        (record {
          untold = λ k r. ground (arith, s.untold k, r);
          known = λ k r. ground (arith, s.known k, r);
          once = λ k p. ground (arith, s.once k p, e);
        })
  | inr (g, q) ↦
      rw (q, clean_up)
        (either IsSound (g == h) _ _
          (λ r. record {
            untold = λ k x. cc;
            known = λ k x. cc;
            once = λ k p. ground (arith, s.once k p, e);
          })
          (λ r. record {
            untold = λ k x. ground (arith, s.untold k, x, q);
            known = λ k x. ground (arith, s.known k, x, q);
            once = λ k p. ground (arith, s.once k p, e);
          }))
]

-- What the next step of a goroutine can be.
pub data Advanced (h : ℕ) (c x : Capacitor) : Type 0 where
  stays : x ≡ c → Advanced h c x
  fires : (c.delayers h).phase ≡ waiting → x ≡ set_phase fired h c → Advanced h c x
  is_told :
      (b : Bool)
      → is_early (c.delayers h).phase ≡ true
      → (c.delayers h).terminate ≡ some b
      → x ≡ terminated b h c
      → Advanced h c x
  starts :
      (c.delayers h).phase ≡ fired
      → (c.delayers h).terminate ≡ none
      → x ≡ set_phase executing h c
      → Advanced h c x
  executes :
      (c.delayers h).phase ≡ executing → x ≡ set_phase cleaning h (execute h c) → Advanced h c x
  cleans : (c.delayers h).phase ≡ cleaning → x ≡ clean_up h c → Advanced h c x

pub advance-phase :
    (prefer : Bool) (h : ℕ) (c : Capacitor) (p : Phase)
    → (c.delayers h).phase ≡ p
    → Advanced h c (advance prefer h c)
unfolding advance
advance-phase prefer h c waiting e = elim (Bool-cases prefer) [
  | inl q ↦ elim (Bool-cases (c.delayers h).timer_ready) [
    | inl t ↦ fires e (ground (arith, e, q, t))
    | inr t ↦ stays (ground (arith, e, q, t))
  ]
  | inr q ↦ elim (Option-cases (c.delayers h).terminate) [
    | inl t ↦ stays (ground (arith, e, q, t))
    | inr (b, t) ↦ is_told b (ground (arith, e)) t (ground (arith, e, q, t))
  ]
]
advance-phase prefer h c fired e = elim (Option-cases (c.delayers h).terminate) [
  | inl t ↦ starts e t (ground (arith, e, t))
  | inr (b, t) ↦ is_told b (ground (arith, e)) t (ground (arith, e, t))
]
advance-phase prefer h c executing e = executes e (ground (arith, e))
advance-phase prefer h c cleaning e = cleans e (ground (arith, e))
advance-phase prefer h c gone e = stays (ground (arith, e))

fired-IsSound :
    (h : ℕ) (c : Capacitor)
    → (c.delayers h).phase ≡ waiting
    → IsSound c
    → IsSound (set_phase fired h c)
unfolding set_phase set_delayer
fired-IsSound h c e s = record {
  untold = λ k q. ground (arith, s.untold k q);
  known = s.known;
  once = λ k p. ground (arith, s.once k p, e);
}

starts-IsSound :
    (h : ℕ) (c : Capacitor)
    → (c.delayers h).phase ≡ fired
    → IsSound c
    → IsSound (set_phase executing h c)
unfolding set_phase set_delayer
starts-IsSound h c e s = record {
  untold = λ k q. ground (arith, s.untold k q);
  known = s.known;
  once = λ k p. ground (arith, s.once k p, e);
}

executes-IsSound :
    (h : ℕ) (c : Capacitor)
    → (c.delayers h).phase ≡ executing
    → IsSound c
    → IsSound (set_phase cleaning h (execute h c))
unfolding set_phase set_delayer execute
executes-IsSound h c e s = record {
  untold = λ k q. ground (arith, s.untold k q);
  known = s.known;
  once = λ k p. ground (arith, s.once k p, e);
}

pub advance-IsSound :
    (prefer : Bool) (h : ℕ) (c : Capacitor) → IsSound c → IsSound (advance prefer h c)
advance-IsSound prefer h c s = elim (advance-phase prefer h c (c.delayers h).phase refl) [
  | stays q ↦ subst IsSound (sym q) s
  | fires e q ↦ subst IsSound (sym q) (fired-IsSound h c e s)
  | is_told b e t q ↦ subst IsSound (sym q) (terminated-IsSound b h c e s)
  | starts e t q ↦ subst IsSound (sym q) (starts-IsSound h c e s)
  | executes e q ↦ subst IsSound (sym q) (executes-IsSound h c e s)
  | cleans e q ↦ subst IsSound (sym q) (clean_up-IsSound h c e s)
]

pub ticks-IsSound :
    (h : ℕ) (c : Capacitor)
    → IsSound c
    → IsSound (set_delayer h (record (c.delayers h) { timer_ready = true }) c)
unfolding set_delayer
ticks-IsSound h c s = record {
  untold = λ k q. ground (arith, s.untold k q);
  known = s.known;
  once = λ k p. ground (arith, s.once k p);
}

step-IsSound :
    (a : Action) (c : Capacitor) → IsSound c → (c' : Capacitor) × (step a c ≡ ok c') × IsSound c'
unfolding step end_charge
step-IsSound (submits v) c s = (submit v c, refl, submit-IsSound v c s)
step-IsSound (ends b) c s = elim (Option-cases c.d) [
  | inl e ↦ (c, ground (arith, e), s)
  | inr (h, e) ↦ (told b h c, end_charge_lem b h c s e, told-IsSound b h c s)
]
step-IsSound (ticks h) c s =
    (_, refl, either IsSound (ltb h c.allocated) _ _ (λ e. ticks-IsSound h c s) (λ e. s))
step-IsSound (advances p h) c s =
    (_, refl, either IsSound (ltb h c.allocated) _ _ (λ e. advance-IsSound p h c s) (λ e. s))

pub run-IsSound :
    (actions : List Action) (c : Capacitor)
    → IsSound c
    → (c' : Capacitor) × (run actions c ≡ ok c') × IsSound c'
unfolding run
run-IsSound [] c s = (c, refl, s)
run-IsSound (a ∷ rest) c s =
    let (c1, e, s1) = step-IsSound a c s in
    let (c2, q, s2) = run-IsSound rest c1 s1 in (c2, rw (e) q, s2)

-- Any sequence of steps on a new capacitor ends without a call that blocks for good, and each
-- delayer has called a function once at most.
pub run-new_once :
    (delayers : ℕ → Delayer) (actions : List Action) (h : ℕ)
    → (c : Capacitor) × (run actions (new delayers) ≡ ok c)
      × ((ltb h c.allocated ≡ false) ⊎ ((c.delayers h).runs ≤ 1))
run-new_once delayers actions h =
    let (c, e, s) = run-IsSound actions (new delayers) (new-IsSound delayers) in
    (
      c,
      e,
      elim (Bool-cases (ltb h c.allocated)) [
        | inl p ↦ inr (ground (arith, p, s.once h))
        | inr p ↦ inl p
      ],
    )
