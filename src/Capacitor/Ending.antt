-- ===== src/Capacitor/Ending.antt =====
-- What becomes of a delayer that is discharged or cancelled.
use webpa_common.Base.{
  ℕ, ◌<◌, ◌≡◌, ◌≢◌, refl, sym, ◌⊎◌, inl, inr, Bool, true, false, if◌then◌else◌, ◌==◌, ltb, none,
  some, List, [], ◌∷◌, ok, Go, arith, Option-cases, Bool-cases, either, subst,
}
use webpa_common.Capacitor.{
  Phase, waiting, fired, executing, cleaning, gone, Delayer, Capacitor, new, set_delayer,
  fresh_delayer, submit, end_charge, execute, set_phase, terminated, clean_up, advance, Action,
  submits, ends, ticks, advances, step, run,
}
use webpa_common.Capacitor.Soundness.{
  is_early, is_over, stays, fires, is_told, starts, executes, cleans, IsSound, new-IsSound,
  submit-IsSound, advance-IsSound, ticks-IsSound, run-IsSound, advance-phase, told, told-IsSound,
  end_charge_lem,
}

early-over : (p : Phase) → is_early p ≡ true → is_over p ≡ false
early-over waiting e = refl
early-over fired e = refl
early-over executing e = refl
early-over cleaning e = cc
early-over gone e = cc

ok_injective : {x y : Capacitor} (p : Go Capacitor) → p ≡ ok x → p ≡ ok y → x ≡ y
ok_injective p e q = grind (arith, e, q)

-- A delayer that was told to end, and is out of reach: its goroutine is in its selects and has the
-- message before it, or is about to call the function, as it was told, or has come to its cleanup.
abbrev Settled : Bool → ℕ → Capacitor → Type 0
Settled b h c =
    (h < c.allocated)
    × (c.d ≢ some h)
    × (((is_early (c.delayers h).phase ≡ true)
          × ((c.delayers h).terminate ≡ some b)
          × ((c.delayers h).runs ≡ 0))
        ⊎ ((((c.delayers h).phase ≡ executing) × (b ≡ true) × ((c.delayers h).runs ≡ 0))
            ⊎ ((is_over (c.delayers h).phase ≡ true)
                × ((c.delayers h).runs ≡ (if b then 1 else 0)))))

module _ (b : Bool) (h : ℕ) where
  submit-Settled : (v : ℕ) (c : Capacitor) → IsSound c → Settled b h c → Settled b h (submit v c)
  unfolding submit set_delayer fresh_delayer
  submit-Settled v c s t = elim (Option-cases c.d) [
    | inl e ↦
        rw (e, submit) (ground (arith, t.0), λ q. ground (arith, q, t.0), ground (arith, t.2, t.0))
    | inr (g, e) ↦ rw (e, submit) (t.0, λ q. ground (arith, q, t.1, e), ground (arith, t.2, t.1, e))
  ]

  told-Settled :
      (b' : Bool) (g : ℕ) (c : Capacitor) → c.d ≡ some g → Settled b h c → Settled b h (told b' g c)
  unfolding told set_delayer
  told-Settled b' g c e t = (t.0, λ q. cc, ground (arith, t.2, t.1, e))

  terminated-Settled :
      (d : Bool) (g : ℕ) (c : Capacitor)
      → is_early (c.delayers g).phase ≡ true
      → (c.delayers g).terminate ≡ some d
      → Settled b h c
      → Settled b h (terminated d g c)
  unfolding terminated set_phase set_delayer execute
  terminated-Settled true g c e m t = (t.0, t.1, ground (arith, t.2, e, m))
  terminated-Settled false g c e m t = (t.0, t.1, ground (arith, t.2, e, m))

  clean_up-Settled :
      (g : ℕ) (c : Capacitor)
      → (c.delayers g).phase ≡ cleaning
      → Settled b h c
      → Settled b h (clean_up g c)
  unfolding clean_up set_phase set_delayer
  clean_up-Settled g c e t = elim (Option-cases c.d) [
    | inl q ↦ rw (q, clean_up) (t.0, t.1, ground (arith, t.2, e))
    | inr (k, q) ↦
        rw (q, clean_up)
          (either (Settled b h) (k == g) _ _ (λ r. (t.0, λ x. cc, ground (arith, t.2, e)))
            (λ r. (t.0, t.1, ground (arith, t.2, e))))
  ]

  starts-Settled :
      (g : ℕ) (c : Capacitor)
      → (c.delayers g).phase ≡ fired
      → (c.delayers g).terminate ≡ none
      → Settled b h c
      → Settled b h (set_phase executing g c)
  unfolding set_phase set_delayer
  starts-Settled g c e m t = (t.0, t.1, ground (arith, t.2, e, m))

  fires-Settled :
      (g : ℕ) (c : Capacitor)
      → (c.delayers g).phase ≡ waiting
      → Settled b h c
      → Settled b h (set_phase fired g c)
  unfolding set_phase set_delayer
  fires-Settled g c e t = (t.0, t.1, ground (arith, t.2, e))

  executes-Settled :
      (g : ℕ) (c : Capacitor)
      → (c.delayers g).phase ≡ executing
      → Settled b h c
      → Settled b h (set_phase cleaning g (execute g c))
  unfolding set_phase set_delayer execute
  executes-Settled g c e t = (t.0, t.1, ground (arith, t.2, e))

  advance-Settled :
      (prefer : Bool) (g : ℕ) (c : Capacitor) → Settled b h c → Settled b h (advance prefer g c)
  advance-Settled prefer g c t = elim (advance-phase prefer g c (c.delayers g).phase refl) [
    | stays q ↦ subst (Settled b h) (sym q) t
    | fires e q ↦ subst (Settled b h) (sym q) (fires-Settled g c e t)
    | is_told d e m q ↦ subst (Settled b h) (sym q) (terminated-Settled d g c e m t)
    | starts e m q ↦ subst (Settled b h) (sym q) (starts-Settled g c e m t)
    | executes e q ↦ subst (Settled b h) (sym q) (executes-Settled g c e t)
    | cleans e q ↦ subst (Settled b h) (sym q) (clean_up-Settled g c e t)
  ]

  step-Settled :
      (a : Action) (c : Capacitor)
      → IsSound c
      → Settled b h c
      → (c' : Capacitor) × (step a c ≡ ok c') × IsSound c' × Settled b h c'
  unfolding step end_charge set_delayer
  step-Settled (submits v) c s t = (submit v c, refl, submit-IsSound v c s, submit-Settled v c s t)
  step-Settled (ends b') c s t = elim (Option-cases c.d) [
    | inl e ↦ (c, ground (arith, e), s, t)
    | inr (g, e) ↦
        (told b' g c, end_charge_lem b' g c s e, told-IsSound b' g c s, told-Settled b' g c e t)
  ]
  step-Settled (ticks g) c s t = elim (Bool-cases (ltb g c.allocated)) [
    | inl e ↦ (
      set_delayer g (record (c.delayers g) { timer_ready = true }) c,
      ground (arith, e),
      ticks-IsSound g c s,
      (t.0, t.1, ground (arith, t.2)),
    )
    | inr e ↦ (c, ground (arith, e), s, t)
  ]
  step-Settled (advances p g) c s t = elim (Bool-cases (ltb g c.allocated)) [
    | inl e ↦ (advance p g c, ground (arith, e), advance-IsSound p g c s, advance-Settled p g c t)
    | inr e ↦ (c, ground (arith, e), s, t)
  ]

  run-Settled :
      (actions : List Action) (c : Capacitor)
      → IsSound c
      → Settled b h c
      → (c' : Capacitor) × (run actions c ≡ ok c') × Settled b h c'
  unfolding run
  run-Settled [] c s t = (c, refl, t)
  run-Settled (a ∷ rest) c s t =
      let (c1, e, s1, t1) = step-Settled a c s t in
      let (c2, q, t2) = run-Settled rest c1 s1 t1 in (c2, rw (e) q, t2)

-- When the steps of a new capacitor lead to one whose current delayer is still in its selects, and
-- `Discharge` or `Cancel` comes next, then whatever follows does not block, and once the goroutine of
-- that delayer has come to its cleanup it has called a function once after `Discharge`, and not at
-- all after `Cancel`; before, it has called none.
pub end_charge_decides :
    (delayers : ℕ → Delayer) (before rest : List Action) (discharged : Bool) (c : Capacitor) (h : ℕ)
    → run before (new delayers) ≡ ok c
    → c.d ≡ some h
    → is_early (c.delayers h).phase ≡ true
    → (c' : Capacitor) × (run (ends discharged ∷ rest) c ≡ ok c')
      × (((is_over (c'.delayers h).phase ≡ false) × ((c'.delayers h).runs ≡ 0))
          ⊎ ((is_over (c'.delayers h).phase ≡ true)
              × ((c'.delayers h).runs ≡ (if discharged then 1 else 0))))
unfolding run step told set_delayer
end_charge_decides delayers before rest b c h e d p =
    let (c0, e0, s0) = run-IsSound before (new delayers) (new-IsSound delayers) in
    let s : IsSound c = subst IsSound (ok_injective (run before (new delayers)) e0 e) s0 in
    let t : Settled b h (told b h c) = (
      s.known h d,
      λ q. cc,
      inl (
        ground (arith, p),
        ground arith,
        ground (arith, s.once h (s.known h d), p, early-over (c.delayers h).phase p),
      ),
    ) in
    let (c', q, r) = run-Settled b h rest (told b h c) (told-IsSound b h c s) t in
    (
      c',
      rw (end_charge_lem b h c s d) q,
      elim r.2 [
        | inl x ↦ inl (early-over (c'.delayers h).phase x.0, x.2)
        | inr (inl x) ↦ inl (ground (arith, x.0), x.2)
        | inr (inr x) ↦ inr x
      ],
    )
