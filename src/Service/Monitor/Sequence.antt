-- ===== src/Service/Monitor/Sequence.antt =====
-- Which events a monitor sends.
use webpa_common.Base.{
  ℕ, suc, ◌≡◌, refl, ◌⊎◌, inl, inr, Bool, true, false, not, ◌||◌, ltb, ◌==◌, if◌then◌else◌, update,
  Option, none, some, List, [], ◌∷◌, ◌++◌, String, Bool-cases, either, arith, sym, subst, ap, ◌∙◌,
}
use webpa_common.Service.Monitor.{
  Event, Listener, Goroutine, Monitor, Action, receives, sees_stopped, sees_closed, stops, closes,
  instances_of, monitor_event, event_of, stopped_event, receive_event, finish, is_idle, step, run,
  new,
}

module _ {E : Type 0} where
  -- Events of service discovery, numbered on from a count up to another.
  abbrev pub Numbered : ℕ → List (Event E) → ℕ → Type 0
  Numbered i [] n = i ≡ n
  Numbered i (e ∷ es) n =
      ((e.event_count ≡ suc i) × (e.stopped ≡ false) × ((e.err ≡ none) ⊎ (e.instances ≡ [])))
      × Numbered (suc i) es n

  Numbered-append :
      (i n : ℕ) (es : List (Event E)) (e : Event E)
      → Numbered i es n
      → e.event_count ≡ suc n
      → e.stopped ≡ false
      → (e.err ≡ none) ⊎ (e.instances ≡ [])
      → Numbered i (es ++ e ∷ []) (suc n)
  Numbered-append i n [] e h c s x = ((ground (arith, h, c), s, x), ground (arith, h))
  Numbered-append i n (f ∷ es) e h c s x = (h.0, Numbered-append (suc i) n es e h.1 c s x)

  abbrev pub recorder : Listener E (List (Event E))
  recorder e s = s ++ e ∷ []

  -- The events of an instancer, in their order.
  abbrev pub of_instancer : ℕ → List (Event E) → List (Event E)
  of_instancer g [] = []
  of_instancer g (e ∷ es) =
      let rest = of_instancer g es in if e.instancer == g then e ∷ rest else rest

  of_instancer-snoc :
      (g : ℕ) (es : List (Event E)) (e : Event E)
      → of_instancer g (es ++ e ∷ [])
        ≡ (if e.instancer == g then of_instancer g es ++ e ∷ [] else of_instancer g es)
  of_instancer-snoc g [] e = refl
  of_instancer-snoc g (f ∷ es) e = ground (arith, of_instancer-snoc g es e)

  module _ (size : ℕ) (key service : ℕ → String) (filter : List String → List String) where
    -- What a listener has heard from an instancer, given its goroutine, and whether the monitor is
    -- stopped.
    abbrev pub Heard : ℕ → List (Event E) → Goroutine → Bool → Type 0
    Heard g es r is_stopped =
        ((r.is_done ≡ false) × Numbered 0 es r.event_count)
        ⊎ ((r.is_done ≡ true)
            × (is_stopped ≡ true)
            × ((fs : List (Event E)) × (es ≡ fs ++ stopped_event key service g r.event_count ∷ [])
                × Numbered 0 fs r.event_count))

    -- A monitor whose listener records what it hears, as to one of its instancers.
    abbrev pub IsSequence : ℕ → Monitor (List (Event E)) → Type 0
    IsSequence g m = Heard g (of_instancer g m.listeners) (m.goroutines g) m.is_stopped

    instances_of-cases :
        (failure : Option E) (instances : List String)
        → (failure ≡ none) ⊎ (instances_of filter failure instances ≡ [])
    unfolding instances_of
    instances_of-cases (some e) instances = inr refl
    instances_of-cases none instances = inl refl

    stopped-IsSequence :
        (g : ℕ) (m : Monitor (List (Event E)))
        → IsSequence g m
        → IsSequence g (record m { is_stopped = true })
    stopped-IsSequence g m (inl q) = inl q
    stopped-IsSequence g m (inr (d, s, x)) = inr (d, refl, x)

    -- What another goroutine does.
    other-IsSequence :
        (g h : ℕ) (e : Event E) (r : Goroutine) (m : Monitor (List (Event E)))
        → (h == g) ≡ false
        → e.instancer ≡ h
        → IsSequence g m
        → IsSequence g
            (record m { goroutines = update m.goroutines h r; listeners = m.listeners ++ e ∷ [] })
    other-IsSequence g h e r m n i q =
        subst (λ (es : List (Event E)). Heard g es (update m.goroutines h r g) m.is_stopped)
          (sym (of_instancer-snoc g m.listeners e ∙ ground (arith, n, i)))
          (subst (λ (x : Goroutine). Heard g (of_instancer g m.listeners) x m.is_stopped)
            (ground (arith, n)) q)

    -- What the goroutine itself does.
    own-IsSequence :
        (g h : ℕ) (e : Event E) (r : Goroutine) (m : Monitor (List (Event E)))
        → (h == g) ≡ true
        → e.instancer ≡ h
        → Heard g (of_instancer g m.listeners ++ e ∷ []) r m.is_stopped
        → IsSequence g
            (record m { goroutines = update m.goroutines h r; listeners = m.listeners ++ e ∷ [] })
    own-IsSequence g h e r m n i q =
        subst (λ (es : List (Event E)). Heard g es (update m.goroutines h r g) m.is_stopped)
          (sym (of_instancer-snoc g m.listeners e ∙ ground (arith, n, i)))
          (subst (λ (x : Goroutine). Heard g (of_instancer g m.listeners ++ e ∷ []) x m.is_stopped)
            (ground (arith, n)) q)

    receive-IsSequence :
        (g h : ℕ) (failure : Option E) (instances : List String) (m : Monitor (List (Event E)))
        → (m.goroutines h).is_done ≡ false
        → IsSequence g m
        → IsSequence g (receive_event key service filter (recorder ∷ []) h failure instances m)
    unfolding receive_event monitor_event event_of
    receive-IsSequence g h failure instances m d q =
        let n = suc (m.goroutines h).event_count in
        let e : Event E = event_of key service filter h n failure instances in
        let r : Goroutine = record (m.goroutines h) { event_count = n } in
        elim (Bool-cases (h == g)) [
          | inr x ↦ other-IsSequence g h e r m x refl q
          | inl x ↦
              let p : g ≡ h = ground (arith, x) in
              let q' : Heard g (of_instancer g m.listeners) (m.goroutines h) m.is_stopped =
                subst (λ k. Heard g (of_instancer g m.listeners) (m.goroutines k) m.is_stopped) p
                  q in
              own-IsSequence g h e r m x refl (elim q' [
                | inl (d', c) ↦ inl (
                  d,
                  Numbered-append 0 (m.goroutines h).event_count (of_instancer g m.listeners) e c
                      refl refl (instances_of-cases failure instances),
                )
                | inr (d', s, y) ↦ absurd (grind (arith, d, d'))
              ])
        ]

    finish-IsSequence :
        (g h : ℕ) (m : Monitor (List (Event E)))
        → (m.goroutines h).is_done ≡ false
        → m.is_stopped ≡ true
        → IsSequence g m
        → IsSequence g (finish key service (recorder ∷ []) h m)
    unfolding finish monitor_event stopped_event
    finish-IsSequence g h m d s q =
        let e : Event E = stopped_event key service h (m.goroutines h).event_count in
        let r : Goroutine = record (m.goroutines h) { is_done = true } in
        elim (Bool-cases (h == g)) [
          | inr x ↦ other-IsSequence g h e r m x refl q
          | inl x ↦
              let p : g ≡ h = ground (arith, x) in
              let q' : Heard g (of_instancer g m.listeners) (m.goroutines h) m.is_stopped =
                subst (λ k. Heard g (of_instancer g m.listeners) (m.goroutines k) m.is_stopped) p
                  q in
              own-IsSequence g h e r m x refl (elim q' [
                | inl (d', c) ↦ inr (
                  refl,
                  s,
                  (
                    of_instancer g m.listeners,
                    ap
                        (λ (k : ℕ).
                          of_instancer g m.listeners
                          ++ stopped_event key service k (m.goroutines h).event_count ∷ [])
                        (sym p),
                    c,
                  ),
                )
                | inr (d', s', y) ↦ absurd (grind (arith, d, d'))
              ])
        ]

    step-IsSequence :
        (g : ℕ) (a : Action E) (m : Monitor (List (Event E)))
        → IsSequence g m
        → IsSequence g (step size key service filter (recorder ∷ []) a m)
    unfolding step is_idle
    step-IsSequence g stops m q = stopped-IsSequence g m q
    step-IsSequence g closes m q = q
    step-IsSequence g (receives h failure instances) m q =
        either (IsSequence g) (not (ltb h size) || (m.goroutines h).is_done) _ _ (λ e. q)
          (λ e. receive-IsSequence g h failure instances m (ground (arith, e)) q)
    step-IsSequence g (sees_stopped h) m q =
        either (IsSequence g) (not (ltb h size) || (m.goroutines h).is_done) _ _ (λ e. q)
          (λ e.
            either (IsSequence g) m.is_stopped _ _
              (λ s. finish-IsSequence g h m (ground (arith, e)) s q) (λ s. q))
    step-IsSequence g (sees_closed h) m q =
        either (IsSequence g) (not (ltb h size) || (m.goroutines h).is_done) _ _ (λ e. q)
          (λ e.
            either (IsSequence g) m.is_closed _ _
              (λ s.
                finish-IsSequence g h (record m { is_stopped = true }) (ground (arith, e)) refl
                  (stopped-IsSequence g m q))
              (λ s. q))

    run-IsSequence :
        (g : ℕ) (actions : List (Action E)) (m : Monitor (List (Event E)))
        → IsSequence g m
        → IsSequence g (run size key service filter (recorder ∷ []) actions m)
    unfolding run
    run-IsSequence g [] m q = q
    run-IsSequence g (a ∷ rest) m q =
        run-IsSequence g rest (step size key service filter (recorder ∷ []) a m)
          (step-IsSequence g a m q)

    -- Whatever happens to a monitor of any number of instancers, the events that a listener hears from
    -- each of them are numbered from 1, those with an error have no instances, and none says that the
    -- monitor was stopped, but for one last event once the goroutine of that instancer has returned,
    -- when the monitor is stopped.
    pub run-new-IsSequence :
        (g : ℕ) (actions : List (Action E))
        → IsSequence g (run size key service filter (recorder ∷ []) actions (new []))
    unfolding new
    run-new-IsSequence g actions = run-IsSequence g actions (new []) (inl (refl, refl))
