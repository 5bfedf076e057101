-- ===== src/Service/Monitor/Registering.antt =====
-- What a registrar makes of the events of a monitor.
use webpa_common.Base.{
  ℕ, suc, ◌≡◌, refl, ◌⊎◌, inl, inr, Bool, true, false, not, ◌||◌, ltb, Option, List, [], ◌∷◌, ◌++◌,
  String, is_none, either, arith,
}
use webpa_common.Service.Monitor.{
  Event, Monitor, Action, receives, sees_stopped, sees_closed, stops, closes, monitor_event,
  event_of, stopped_event, receive_event, finish, is_idle, step, run, new, Registration, registers,
  deregisters, registrar_listener,
}

-- Calls each of which changes what the one before left.
abbrev pub Alternates : Bool → List Bool → Bool → Type 0
Alternates b [] c = b ≡ c
Alternates b (x ∷ xs) c = (x ≡ not b) × Alternates x xs c

Alternates-append :
    (b c d : Bool) (xs : List Bool) → Alternates b xs c → d ≡ not c → Alternates b (xs ++ d ∷ []) d
Alternates-append b c d [] h e = (ground (arith, h, e), refl)
Alternates-append b c d (x ∷ xs) h e = (h.0, Alternates-append x c d xs h.1 e)

module _ (b : Bool) where
  abbrev IsAlternating : Registration → Type 0
  IsAlternating r = Alternates b r.calls r.is_registered

  registers-IsAlternating : (r : Registration) → IsAlternating r → IsAlternating (registers r)
  unfolding registers
  registers-IsAlternating r h =
      either IsAlternating r.is_registered _ _ (λ e. h)
        (λ e. Alternates-append b r.is_registered true r.calls h (ground (arith, e)))

  deregisters-IsAlternating :
      (r : Registration)
      → IsAlternating r
      → IsAlternating (deregisters r) × ((deregisters r).is_registered ≡ false)
  unfolding deregisters
  deregisters-IsAlternating r h =
      either (λ (x : Registration). IsAlternating x × (x.is_registered ≡ false)) r.is_registered _ _
        (λ e. (Alternates-append b r.is_registered false r.calls h (ground (arith, e)), refl))
        (λ e. (h, e))

  abbrev IsRegular : Monitor Registration → Type 0
  IsRegular m =
      IsAlternating m.listeners
      × (((m.goroutines 0).is_done ≡ false) ⊎ (m.listeners.is_registered ≡ false))

  listener-IsAlternating :
      {E : Type 0} (e : Event E) (r : Registration)
      → IsAlternating r
      → IsAlternating (registrar_listener e r)
  unfolding registrar_listener
  listener-IsAlternating e r h =
      either IsAlternating (is_none e.err) _ _
        (λ x.
          either IsAlternating e.stopped _ _ (λ y. (deregisters-IsAlternating r h).0)
            (λ y. registers-IsAlternating r h))
        (λ x. (deregisters-IsAlternating r h).0)

  finish-IsRegular :
      (E : Type 0) (key service : ℕ → String) (h : ℕ) (m : Monitor Registration)
      → IsRegular m
      → IsRegular (finish key service (registrar_listener {E = E} ∷ []) h m)
  unfolding finish monitor_event stopped_event registrar_listener
  finish-IsRegular E key service h m q =
      let (x, y) = deregisters-IsAlternating m.listeners q.0 in (x, inr y)

module _ {E : Type 0} (key service : ℕ → String) (filter : List String → List String)
    (b : Bool) where
  receive-IsRegular :
      (h : ℕ) (failure : Option E) (instances : List String) (m : Monitor Registration)
      → ltb h 1 ≡ true
      → (m.goroutines h).is_done ≡ false
      → IsRegular b m
      → IsRegular b
          (receive_event key service filter (registrar_listener ∷ []) h failure instances m)
  unfolding receive_event monitor_event
  receive-IsRegular h failure instances m l d q = (
    listener-IsAlternating b
        (event_of key service filter h (suc (m.goroutines h).event_count) failure instances)
        m.listeners q.0,
    inl (ground (arith, l, d)),
  )

  step-IsRegular :
      (a : Action E) (m : Monitor Registration)
      → IsRegular b m
      → IsRegular b (step 1 key service filter (registrar_listener ∷ []) a m)
  unfolding step is_idle
  step-IsRegular stops m q = q
  step-IsRegular closes m q = q
  step-IsRegular (receives h failure instances) m q =
      either (IsRegular b) (not (ltb h 1) || (m.goroutines h).is_done) _ _ (λ e. q)
        (λ e. receive-IsRegular h failure instances m (ground (arith, e)) (ground (arith, e)) q)
  step-IsRegular (sees_stopped h) m q =
      either (IsRegular b) (not (ltb h 1) || (m.goroutines h).is_done) _ _ (λ e. q)
        (λ e.
          either (IsRegular b) m.is_stopped _ _ (λ s. finish-IsRegular b E key service h m q)
            (λ s. q))
  step-IsRegular (sees_closed h) m q =
      either (IsRegular b) (not (ltb h 1) || (m.goroutines h).is_done) _ _ (λ e. q)
        (λ e.
          either (IsRegular b) m.is_closed _ _
            (λ s. finish-IsRegular b E key service h (record m { is_stopped = true }) q) (λ s. q))

  run-IsRegular :
      (actions : List (Action E)) (m : Monitor Registration)
      → IsRegular b m
      → IsRegular b (run 1 key service filter (registrar_listener ∷ []) actions m)
  unfolding run
  run-IsRegular [] m q = q
  run-IsRegular (a ∷ rest) m q =
      run-IsRegular rest (step 1 key service filter (registrar_listener ∷ []) a m)
        (step-IsRegular a m q)

  -- A monitor of one instancer that has just started, with a registrar as its listener.
  abbrev pub ended : List (Action E) → Monitor Registration
  ended actions =
      run 1 key service filter (registrar_listener ∷ []) actions
        (new (record { is_registered = b; calls = [] }))

  -- Whatever happens to a monitor of one instancer with a registrar as its listener, the calls of
  -- `Register` and `Deregister` alternate, from how it was registered at first, the last of them is
  -- what the listener takes it for, and once the goroutine has returned it is not registered.
  pub run-new_registration :
      (actions : List (Action E))
      → Alternates b (ended actions).listeners.calls (ended actions).listeners.is_registered
        × ((((ended actions).goroutines 0).is_done ≡ false)
            ⊎ ((ended actions).listeners.is_registered ≡ false))
  unfolding new
  run-new_registration actions =
      run-IsRegular actions (new (record { is_registered = b; calls = [] })) (refl, inl refl)
