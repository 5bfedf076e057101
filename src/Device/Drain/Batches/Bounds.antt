-- ===== src/Device/Drain/Batches/Bounds.antt =====
-- How much a drain job does: it ends, and it never handles more devices than its count.
use webpa_common.Base.{
  ℕ, suc, ◌+◌, ◌≤◌, ◌<◌, ◌≡◌, refl, Bool, true, false, ◌&&◌, if◌then◌else◌, ltb, Option, List, [],
  ◌∷◌, ◌++◌, String, GoMap, length, length-append, arith, inl, inr, Bool-cases, either, subst, ◌⊎◌,
}
use webpa_common.Device.Drain.{Job, add_visited, add_drained, sign_extend, progress}
use webpa_common.Device.Drain.Batches.{
  Fleet, Look, Turn, Verdict, skip, enqueue, stop, halt, verdict, collect, offer, is_allowed,
  Running, pull, next_batch, is_running, shrink, disconnect_round, check_skipped, drain_round,
  round, loop, begin, is_open, passed_over, is_taken,
}

and_ltb : (a : Bool) (n : ℕ) → a && ltb 0 n ≡ true → 0 < n
and_ltb true n e = ground arith
and_ltb false n e = cc

-- Nothing is put into a batch without room.
offer_full : (k : Look) (room : Bool) → offer k room ≡ enqueue → room ≡ true
unfolding offer
offer_full is_open true e = refl
offer_full is_open false e = cc
offer_full passed_over true e = refl
offer_full passed_over false e = cc
offer_full is_taken room e = cc

abbrev Verdict-cases : (v : Verdict) → (v ≡ skip) ⊎ (v ≡ enqueue) ⊎ (v ≡ stop) ⊎ (v ≡ halt)
Verdict-cases skip = inl refl
Verdict-cases enqueue = inr (inl refl)
Verdict-cases stop = inr (inr (inl refl))
Verdict-cases halt = inr (inr (inr refl))

module _ {D : Type 0} (filter : Option (D → Bool)) (visits : ℕ → Look) (size : ℕ) where
  verdict-enqueue :
      (i : ℕ) (d : D) (batch : List String)
      → verdict filter visits size i d batch ≡ enqueue
      → length batch < size
  unfolding verdict
  verdict-enqueue i d batch e = elim (Bool-cases (is_allowed filter d)) [
    | inl q ↦ absurd (grind (arith, q, e))
    | inr q ↦ ground (arith, q, e, offer_full (visits i) (ltb (length batch) size))
  ]

  collect_bound :
      (m : GoMap String D) (i : ℕ) (batch : List String) (skipped : ℕ)
      → length batch ≤ size
      → length (collect filter visits size m i batch skipped).batch ≤ size
  unfolding collect
  collect_bound [] i batch skipped b = b
  collect_bound ((id, d) ∷ m) i batch skipped b =
      elim (Verdict-cases (verdict filter visits size i d batch)) [
        | inl e ↦ ground (arith, e, collect_bound m (suc i) batch (suc skipped) b)
        | inr (inl e) ↦
            let room = verdict-enqueue i d batch e in
            let b' : length (batch ++ id ∷ []) ≤ size =
              omega (arith, length-append batch (id ∷ []), room) in
            ground (arith, e, collect_bound m (suc i) (batch ++ id ∷ []) skipped b')
        | inr (inr (inl e)) ↦ ground (arith, e)
        | inr (inr (inr e)) ↦ ground (arith, e)
      ]

module _ {W D : Type 0} (api : Fleet W D) where
  pull_bound :
      (pulls : ℕ → Look) (others : ℕ → W → W) (batch : List String) (i : ℕ) (w : W) (n : ℕ)
      → (pull api pulls others batch i w n).drained ≤ n + length batch
  unfolding pull
  pull_bound pulls others [] i w n = omega arith
  pull_bound pulls others (id ∷ batch) i w n =
      let (w', hit) = api.disconnect id (others (suc i) w) in
      ground (arith, pull_bound pulls others batch (suc i) w' (if hit then suc n else n))

  -- What a job has done, of a count and beside a total that was there before.
  abbrev pub Kept : ℕ → ℕ → Running W → Type 0
  Kept count total s =
      (s.t.visited + s.remaining ≤ count)
      × (s.t.drained ≤ s.t.visited)
      × (s.drained_total ≡ total + s.t.drained)

  -- The loop is over, or fewer devices remain.
  abbrev pub IsNearer : ℕ → Running W → Type 0
  IsNearer remaining s = (s.more ≡ false) ⊎ (s.remaining < remaining)

  module _ (count total : ℕ) (small : count < 2147483648) where
    next_batch-Kept :
        (filter : Option (D → Bool)) (turn : Turn W) (s : Running W)
        → Kept count total s
        → s.size ≤ s.remaining
        → Kept count total (next_batch api filter turn s).0
          × IsNearer s.remaining (next_batch api filter turn s).0
          × ((next_batch api filter turn s).0.size ≡ s.size)
    unfolding next_batch add_visited add_drained
    next_batch-Kept filter turn s k b =
        let w = turn.others 0 s.fleet in
        let c = collect filter turn.visits s.size (api.devices w) 0 [] 0 in
        let p = pull api turn.pulls turn.others c.batch 0 w 0 in
        let cb : length c.batch ≤ s.size =
          collect_bound filter turn.visits s.size (api.devices w) 0 [] 0 (omega arith) in
        let pb : p.drained ≤ length c.batch =
          omega (arith, pull_bound turn.pulls turn.others c.batch 0 w 0) in
        either
          (λ (r : Running W × ℕ).
            Kept count total r.0 × IsNearer s.remaining r.0 × (r.0.size ≡ s.size))
          (c.more && ltb 0 (length c.batch)) _ _
          (λ e. (
            (
              omega (arith, k.0, k.1, cb, pb, b, small),
              omega (arith, k.0, k.1, cb, pb, b, small),
              omega (arith, k.0, k.1, k.2, cb, pb, b, small),
            ),
            inr (omega (arith, and_ltb c.more (length c.batch) e, k.0, k.1, cb, b)),
            refl,
          ))
          (λ e. ((omega (arith, k.0), k.1, k.2), inl refl, refl))

    -- What a round leaves of a loop whose batches are bounded.
    abbrev Advances : ℕ → ℕ → Running W → Type 0
    Advances limit remaining s = Kept count total s × IsNearer remaining s × (s.size ≤ limit)

    shrink-Kept :
        (limit : ℕ) (s : Running W)
        → Kept count total s
        → s.size ≤ limit
        → Kept count total (shrink limit s)
          × ((shrink limit s).size ≤ s.remaining)
          × ((shrink limit s).size ≤ limit)
          × ((shrink limit s).remaining ≡ s.remaining)
    unfolding shrink
    shrink-Kept limit s k b =
        either
          (λ (r : Running W).
            Kept count total r
            × (r.size ≤ s.remaining)
            × (r.size ≤ limit)
            × (r.remaining ≡ s.remaining))
          (ltb s.remaining limit) _ _ (λ e. (k, ground arith, ground (arith, e), refl))
          (λ e. (k, ground (arith, e), b, refl))

    batch-Advances :
        (limit : ℕ) (filter : Option (D → Bool)) (turn : Turn W) (s : Running W)
        → Kept count total s
        → s.size ≤ limit
        → Advances limit s.remaining (next_batch api filter turn (shrink limit s)).0
    batch-Advances limit filter turn s k b =
        let (k1, b1, b2, e) = shrink-Kept limit s k b in
        let (k2, n, z) = next_batch-Kept filter turn (shrink limit s) k1 (omega (arith, b1, e)) in
        (
          k2,
          subst (λ r. IsNearer r (next_batch api filter turn (shrink limit s)).0) e n,
          omega (arith, z, b2),
        )

    check_skipped-Advances :
        (limit remaining : ℕ) (late : W → W) (r : Running W × ℕ)
        → Advances limit remaining r.0
        → Advances limit remaining (check_skipped api late r)
    unfolding check_skipped
    check_skipped-Advances limit remaining late (s, skipped) (k, inl e, b) =
        (k, inl (ground (arith, e)), b)
    check_skipped-Advances limit remaining late (s, skipped) (k, inr e, b) = (k, inr e, b)

    drain_round-Advances :
        (j : Job D) (turn : Turn W) (s : Running W)
        → Kept count total s
        → s.size ≤ j.rate
        → Advances j.rate s.remaining (drain_round api j turn s)
    unfolding drain_round
    drain_round-Advances j turn s k b =
        let (k1, b1, b2, e) = shrink-Kept j.rate s k b in
        either (Advances j.rate s.remaining) turn.cancelled _ _ (λ c. (k1, inl refl, b2))
          (λ c.
            check_skipped-Advances j.rate s.remaining turn.late
              (next_batch api j.drain_filter turn (shrink j.rate s))
              (batch-Advances j.rate j.drain_filter turn s k b))

    round-Advances :
        (j : Job D) (batch_size limit : ℕ) (turn : Turn W) (s : Running W)
        → limit ≡ (if ltb 0 j.rate then j.rate else batch_size)
        → Kept count total s
        → s.size ≤ limit
        → Advances limit s.remaining (round api j batch_size turn s)
    unfolding round disconnect_round
    round-Advances j batch_size limit turn s q k b =
        either (Advances limit s.remaining) (ltb 0 j.rate) _ _
          (λ e.
            let r : limit ≡ j.rate = ground (arith, q, e) in
            let (k1, n, z) = drain_round-Advances j turn s k (omega (arith, b, r)) in
            (k1, n, omega (arith, z, r)))
          (λ e.
            let r : limit ≡ batch_size = ground (arith, q, e) in
            let (k1, n, z) =
              batch-Advances batch_size j.drain_filter turn s k (omega (arith, b, r)) in
            (k1, n, omega (arith, z, r)))

    loop-Kept :
        (j : Job D) (batch_size limit : ℕ) (turns : List (Turn W)) (s : Running W)
        → limit ≡ (if ltb 0 j.rate then j.rate else batch_size)
        → Kept count total s
        → s.size ≤ limit
        → Kept count total (loop api j batch_size turns s)
    unfolding loop
    loop-Kept j batch_size limit [] s q k b = k
    loop-Kept j batch_size limit (turn ∷ turns) s q k b =
        let (k1, _, b1) = round-Advances j batch_size limit turn s q k b in
        either (Kept count total) (is_running s) _ _
          (λ e. loop-Kept j batch_size limit turns (round api j batch_size turn s) q k1 b1) (λ e. k)

    loop_stopped :
        (j : Job D) (batch_size : ℕ) (turns : List (Turn W)) (s : Running W)
        → is_running s ≡ false
        → is_running (loop api j batch_size turns s) ≡ false
    unfolding loop
    loop_stopped j batch_size [] s e = e
    loop_stopped j batch_size (turn ∷ turns) s e = ground (arith, e)

    loop_ends :
        (j : Job D) (batch_size limit : ℕ) (turns : List (Turn W)) (s : Running W)
        → limit ≡ (if ltb 0 j.rate then j.rate else batch_size)
        → Kept count total s
        → s.size ≤ limit
        → s.remaining ≤ length turns
        → is_running (loop api j batch_size turns s) ≡ false
    unfolding loop is_running
    loop_ends j batch_size limit [] s q k b n = ground (arith, n)
    loop_ends j batch_size limit (turn ∷ turns) s q k b n =
        let (k1, d, b1) = round-Advances j batch_size limit turn s q k b in
        either (λ (r : Running W). is_running r ≡ false) (is_running s) _ _
          (λ e. elim d [
            | inl f ↦
                loop_stopped j batch_size turns (round api j batch_size turn s) (ground (arith, f))
            | inr f ↦
                loop_ends j batch_size limit turns (round api j batch_size turn s) q k1 b1
                  (omega (arith, f, n))
          ])
          (λ e. e)

  begin-Kept :
      (j : Job D) (batch_size now total : ℕ) (w : W)
      → Kept j.count total (begin j batch_size now total w)
        × ((begin j batch_size now total w).size ≡ (if ltb 0 j.rate then j.rate else batch_size))
        × ((begin j batch_size now total w).remaining ≡ j.count)
  unfolding begin
  begin-Kept j batch_size now total w = ((omega arith, omega arith, omega arith), refl, refl)

  -- The loop of a job with a count below 2^31 ends after as many rounds as its count at the latest,
  -- whatever the other goroutines do in between, and whether or not it has a rate or is cancelled.
  pub loop-begin_ends :
      (j : Job D) (batch_size now total : ℕ) (w : W) (turns : List (Turn W))
      → j.count < 2147483648
      → j.count ≤ length turns
      → is_running (loop api j batch_size turns (begin j batch_size now total w)) ≡ false
  loop-begin_ends j batch_size now total w turns small n =
      let (k, z, r) = begin-Kept j batch_size now total w in
      loop_ends j.count total small j batch_size (if ltb 0 j.rate then j.rate else batch_size) turns
        (begin j batch_size now total w) refl k (omega (arith, z)) (omega (arith, r, n))

  -- At every moment between two rounds of a job with a count below 2^31, its progress shows no more
  -- devices visited than the count and no more drained than visited, and the shared counter has
  -- risen by the number drained.
  pub loop-begin_bounds :
      (j : Job D) (batch_size now total : ℕ) (w : W) (turns : List (Turn W))
      → j.count < 2147483648
      → ((progress (loop api j batch_size turns (begin j batch_size now total w)).t).visited
          ≤ j.count)
        × ((progress (loop api j batch_size turns (begin j batch_size now total w)).t).drained
            ≤ (progress (loop api j batch_size turns (begin j batch_size now total w)).t).visited)
        × ((loop api j batch_size turns (begin j batch_size now total w)).drained_total
            ≡ total
              + (progress (loop api j batch_size turns (begin j batch_size now total w)).t).drained)
  unfolding progress sign_extend
  loop-begin_bounds j batch_size now total w turns small =
      let (k, z, r) = begin-Kept j batch_size now total w in
      let k1 =
        loop-Kept j.count total small j batch_size (if ltb 0 j.rate then j.rate else batch_size)
          turns (begin j batch_size now total w) refl k (omega (arith, z)) in
      ground (arith, k1, small)
