-- ===== src/Device/Drain/Control.antt =====
-- The calls that control a drainer never panic, and at most one job counts as running.
use webpa_common.Base.{
  ℕ, suc, ◌+◌, ◌≤◌, ◌<◌, ◌≡◌, refl, Bool, true, false, ◌&&◌, if◌then◌else◌, ltb, ◌==◌, some,
  Outcome, ok, err, Go, update, List, [], ◌∷◌, length, arith, inl, inr, Bool-cases, either,
}
use webpa_common.Device.Drain.{
  Drainer, Error, JobContext, Job, Stage, working, stamped, settled, ended, Action, starting,
  cancelling, reporting, finishing, start, cancel, cancel_current, close_cancel, settle, close_done,
  job_finished, report, step, run, new, width, fresh_context, not_active, stamp, add_visited,
  add_drained, metric_draining, metric_not_draining,
}

-- Whether the job still holds the drainer, if it was not cancelled.
abbrev pub is_open : Stage → Bool
is_open working = true
is_open stamped = true
is_open settled = false
is_open ended = false

abbrev pub is_ended : Stage → Bool
is_ended working = false
is_ended stamped = false
is_ended settled = false
is_ended ended = true

module _ {D : Type 0} where
  -- A job that was neither cancelled nor has settled.
  abbrev pub is_live : JobContext D → Bool
  is_live c = if c.cancelled then false else is_open c.stage

  pub record IsSound (dr : Drainer D) : Type 0 where
    pub numbered : (h : ℕ) → h < dr.allocated → (dr.jobs h).id ≡ suc h
    pub counted : dr.current_id ≡ dr.allocated
    pub live :
        (h : ℕ)
        → h < dr.allocated
        → is_live (dr.jobs h) ≡ true
        → (dr.is_active ≡ true) × (dr.current ≡ some h)
    pub newest : (h : ℕ) → dr.current ≡ some h → suc h ≡ dr.allocated
    pub backed :
        dr.is_active ≡ true → (h : ℕ) × (dr.current ≡ some h) × (is_live (dr.jobs h) ≡ true)
    pub measured : dr.gauge ≡ (if dr.is_active then metric_draining else metric_not_draining)
    pub closed : (h : ℕ) → h < dr.allocated → (dr.jobs h).is_done ≡ is_ended (dr.jobs h).stage

  new-IsSound : (jobs : ℕ → JobContext D) → IsSound (new jobs)
  unfolding new
  new-IsSound jobs = record {
    numbered = λ h p. absurd (omega (arith, p));
    counted = refl;
    live = λ h p. absurd (omega (arith, p));
    newest = λ h e. cc;
    backed = λ e. cc;
    measured = refl;
    closed = λ h p. absurd (omega (arith, p));
  }

  -- The jobs before a new one are not live, unless the drainer is active.
  old_not_live :
      (dr : Drainer D) (h : ℕ)
      → IsSound dr
      → dr.is_active ≡ false
      → h < dr.allocated
      → is_live (dr.jobs h) ≡ true
      → ⊥
  old_not_live dr h s e p l = let q = (s.live h p l).0 in cc

  start-IsSound :
      (now : ℕ) (j : Job D) (dr : Drainer D)
      → dr.allocated + 1 < width
      → IsSound dr
      → IsSound (start now j dr).0
  unfolding start fresh_context
  start-IsSound now j dr b s =
      either (λ (r : Drainer D × Outcome Error (ℕ × Job D)). IsSound r.0) dr.is_active _ _ (λ e. s)
        (λ e. record {
          numbered = λ h p. ground (arith, s.numbered h, s.counted);
          counted = ground (arith, s.counted);
          live = λ h p l. ground (arith, old_not_live dr h s e);
          newest = λ h q. ground (arith, q);
          backed = λ q. (dr.allocated, refl, ground arith);
          measured = refl;
          closed = λ h p. ground (arith, s.closed h);
        })

  cancel-IsSound :
      (dr : Drainer D)
      → IsSound dr
      → (r : Drainer D × Outcome Error ℕ) × (cancel dr ≡ ok r)
        × IsSound r.0
        × (r.0.allocated ≡ dr.allocated)
  unfolding cancel cancel_current close_cancel
  cancel-IsSound dr s = elim (Bool-cases dr.is_active) [
    | inr e ↦ ((dr, err not_active), ground arith, s, refl)
    | inl e ↦
        let (h, c, l) = s.backed e in
        let dr' = record dr {
          is_active = false;
          gauge = metric_not_draining;
          jobs = update dr.jobs h (record (dr.jobs h) { cancelled = true });
        } in
        (
          (dr', ok h),
          ground (arith, c, l, e),
          record {
            numbered = λ k p. ground (arith, s.numbered k p);
            counted = s.counted;
            live = λ k p q. ground (arith, q, s.live k p, c);
            newest = s.newest;
            backed = λ q. cc;
            measured = refl;
            closed = λ k p. ground (arith, s.closed k p);
          },
          refl,
        )
  ]

  -- A change of a job that leaves its id, and whether it is live.
  touch-IsSound :
      (h n : ℕ) (c : JobContext D) (dr : Drainer D)
      → c.id ≡ (dr.jobs h).id
      → is_live c ≡ is_live (dr.jobs h)
      → c.is_done ≡ is_ended c.stage
      → IsSound dr
      → IsSound (record dr { jobs = update dr.jobs h c; counter = n })
  touch-IsSound h n c dr i l d s = record {
    numbered = λ k p. ground (arith, s.numbered k p, i);
    counted = s.counted;
    live = λ k p q. ground (arith, q, s.live k p, l);
    newest = s.newest;
    backed = λ e. let (k, q, m) = s.backed e in (k, q, ground (arith, l, m));
    measured = s.measured;
    closed = λ k p. ground (arith, s.closed k p, d);
  }

  live_last :
      (dr : Drainer D) (h : ℕ)
      → IsSound dr
      → h < dr.allocated
      → is_live (dr.jobs h) ≡ true
      → suc h ≡ dr.allocated
  live_last dr h s p l = s.newest h (s.live h p l).1

  settle-IsSound :
      (h : ℕ) (dr : Drainer D)
      → h < dr.allocated
      → (dr.jobs h).stage ≡ stamped
      → IsSound dr
      → IsSound (settle h dr)
  unfolding settle
  settle-IsSound h dr b g s =
      either IsSound ((dr.jobs h).id == dr.current_id && dr.is_active) _ _
        (λ e. record {
          numbered = λ k p. ground (arith, s.numbered k p);
          counted = s.counted;
          live = λ k p q. ground (arith, q, e, live_last dr k s p, s.numbered h b, s.counted);
          newest = s.newest;
          backed = λ e. cc;
          measured = refl;
          closed = λ k p. ground (arith, s.closed k p, g);
        })
        (λ e. record {
          numbered = λ k p. ground (arith, s.numbered k p);
          counted = s.counted;
          live = λ k p q. ground (arith, q, s.live k p);
          newest = s.newest;
          backed = λ a.
              let (k, q, m) = s.backed a in
              (k, q, ground (arith, e, a, m, s.newest k q, s.numbered h b, s.counted));
          measured = s.measured;
          closed = λ k p. ground (arith, s.closed k p, g);
        })

  -- What a step that does not fail leaves: a sound drainer with so many more jobs at most.
  abbrev Steps : ℕ → Drainer D → Go (Drainer D) → Type 0
  Steps n dr x = (dr' : Drainer D) × (x ≡ ok dr') × IsSound dr' × (dr'.allocated ≤ dr.allocated + n)

  job_finished-IsSound :
      (now h : ℕ) (dr : Drainer D)
      → h < dr.allocated
      → IsSound dr
      → (g : Stage) → (dr.jobs h).stage ≡ g
      → Steps 1 dr (job_finished now h dr)
  unfolding job_finished close_done settle
  job_finished-IsSound now h dr b s working e = (
    _,
    rw (e, job_finished) refl,
    touch-IsSound h dr.counter (record (dr.jobs h) { t = stamp now (dr.jobs h).t; stage = stamped })
        dr refl (ground (arith, e)) (ground (arith, s.closed h b, e)) s,
    omega arith,
  )
  job_finished-IsSound now h dr b s stamped e =
      (settle h dr, ground (arith, e), settle-IsSound h dr b e s, ground arith)
  job_finished-IsSound now h dr b s settled e = (
    _,
    ground (arith, s.closed h b, e),
    touch-IsSound h dr.counter (record (dr.jobs h) { is_done = true; stage = ended }) dr refl
        (ground (arith, e)) refl s,
    omega arith,
  )
  job_finished-IsSound now h dr b s ended e = (dr, ground (arith, e), s, omega arith)

  step-IsSound :
      (a : Action D) (dr : Drainer D)
      → dr.allocated + 1 < width
      → IsSound dr
      → Steps 1 dr (step a dr)
  unfolding step report start add_visited add_drained
  step-IsSound (starting now j) dr b s =
      ((start now j dr).0, refl, start-IsSound now j dr b s, ground arith)
  step-IsSound cancelling dr b s =
      let (r, e, s', q) = cancel-IsSound dr s in (r.0, rw (e) refl, s', omega (arith, q))
  step-IsSound (reporting v d h) dr b s = elim (Bool-cases (ltb h dr.allocated)) [
    | inl e ↦ (
      report v d h dr,
      ground (arith, e),
      touch-IsSound h (dr.counter + d)
          (record (dr.jobs h) { t = add_drained d (add_visited v (dr.jobs h).t) }) dr refl refl
          (s.closed h (ground (arith, e))) s,
      omega arith,
    )
    | inr e ↦ (dr, ground (arith, e), s, omega arith)
  ]
  step-IsSound (finishing now h) dr b s = elim (Bool-cases (ltb h dr.allocated)) [
    | inl e ↦
        let (dr', q, r, n) =
          job_finished-IsSound now h dr (ground (arith, e)) s (dr.jobs h).stage refl in
        (dr', ground (arith, e, q), r, n)
    | inr e ↦ (dr, ground (arith, e), s, omega arith)
  ]

  run-IsSound :
      (actions : List (Action D)) (dr : Drainer D)
      → dr.allocated + length actions < width
      → IsSound dr
      → (dr' : Drainer D) × (run actions dr ≡ ok dr') × IsSound dr'
  unfolding run
  run-IsSound [] dr b s = (dr, refl, s)
  run-IsSound (a ∷ rest) dr b s =
      let (dr1, e, s1, n) = step-IsSound a dr (omega (arith, b)) s in
      let (dr2, q, s2) = run-IsSound rest dr1 (omega (arith, b, n)) s1 in (dr2, rw (e) q, s2)

  -- However fewer than 2^32 steps of Start, of Cancel and of the goroutines of jobs follow each
  -- other on a new drainer, none of them panics, so no channel is closed twice. The drainer is then
  -- active exactly while a job runs that was not cancelled, which is its current one, and there is
  -- no other; the gauge shows it; and the jobs whose channel is closed are those whose goroutine
  -- has ended.
  pub run-new-IsSound :
      (jobs : ℕ → JobContext D) (actions : List (Action D))
      → length actions < width
      → (dr : Drainer D) × (run actions (new jobs) ≡ ok dr) × IsSound dr
  unfolding new
  run-new-IsSound jobs actions b =
      run-IsSound actions (new jobs) (omega (arith, b)) (new-IsSound jobs)
