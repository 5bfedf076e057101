-- ===== src/Device/Drain/Batches/Quiet.antt =====
-- What a drain job without a filter does when nobody cancels it and the devices stay connected.
use mathlib.Core.List.{append-nil, append_assoc}
use webpa_common.Base.{
  ℕ, zero, suc, ◌+◌, ◌≤◌, ◌<◌, ◌≡◌, ◌≢◌, refl, true, false, not, if◌then◌else◌, ltb, none, List, [],
  ◌∷◌, ◌++◌, String, GoMap, lookup, UniqueKeys, string_key, is_none, length, length-append,
  length-replicate, replicate, All, arith, either,
}
use webpa_common.Device.Drain.{Job, add_visited, add_drained, sign_extend, progress}
use webpa_common.Device.Drain.Batches.{
  Fleet, Turn, verdict, collect, offer, is_allowed, is_cancelled, is_closed, Running, pull,
  next_batch, is_running, shrink, disconnect_round, check_skipped, drain_round, round, loop, begin,
  is_open,
}
use webpa_common.Device.Drain.Batches.Bounds.{loop-begin_ends}

-- What the registry and the connector promise: an id has one device, and `Disconnect` takes away
-- the device with the id, if there is one, and no other.
pub record IsFleet {W D : Type 0} (api : Fleet W D) : Type 0 where
  pub unique : (w : W) → UniqueKeys (api.devices w)
  pub found :
      (id : String) (w : W) → (api.disconnect id w).1 ≡ not (is_none (lookup id (api.devices w)))
  pub kept :
      (id j : String) (w : W)
      → id ≢ j
      → is_none (lookup j (api.devices (api.disconnect id w).0))
        ≡ is_none (lookup j (api.devices w))
  pub counted :
      (id : String) (w : W)
      → length (api.devices w)
        ≡ length (api.devices (api.disconnect id w).0) + (if (api.disconnect id w).1 then 1 else 0)

abbrev pub fewer : ℕ → ℕ → ℕ
fewer a b = if ltb a b then a else b

module _ {D : Type 0} where
  -- The ids of the devices that a visit meets first.
  abbrev firsts : ℕ → GoMap String D → List String
  firsts zero m = []
  firsts (suc n) [] = []
  firsts (suc n) ((id, d) ∷ m) = id ∷ firsts n m

  -- The ids are in the map, each once.
  abbrev Ready : GoMap String D → List String → Type 0
  Ready m [] = Unit
  Ready m (id ∷ ids) = (is_none (lookup id m) ≡ false) × All (λ j. id ≢ j) ids × Ready m ids

  length-firsts :
      (n : ℕ) (m : GoMap String D)
      → length (firsts n m) ≡ (if ltb n (length m) then n else length m)
  length-firsts zero m = ground arith
  length-firsts (suc n) [] = ground arith
  length-firsts (suc n) ((id, d) ∷ m) = ground (arith, length-firsts n m)

  apart :
      (id : String) (m : GoMap String D) (ids : List String)
      → lookup id m ≡ none
      → Ready m ids
      → All (λ j. id ≢ j) ids
  apart id m [] e r = tt
  apart id m (j ∷ ids) e r = (λ q. ground (arith, e, r.0, q), apart id m ids e r.2)

  Ready-cons :
      (id : String) (d : D) (m : GoMap String D) (ids : List String)
      → Ready m ids
      → Ready ((id, d) ∷ m) ids
  unfolding lookup
  Ready-cons id d m [] r = tt
  Ready-cons id d m (j ∷ ids) r = (ground (arith, r.0), r.1, Ready-cons id d m ids r.2)

  firsts-Ready : (n : ℕ) (m : GoMap String D) → UniqueKeys m → Ready m (firsts n m)
  unfolding lookup
  firsts-Ready zero m u = tt
  firsts-Ready (suc n) [] u = tt
  firsts-Ready (suc n) ((id, d) ∷ m) u =
      let r = firsts-Ready n m u.1 in
      (ground arith, apart id m (firsts n m) u.0 r, Ready-cons id d m (firsts n m) r)

  collect-firsts :
      (size : ℕ) (m : GoMap String D) (room i : ℕ) (batch : List String)
      → length batch + room ≡ size
      → collect none (λ _. is_open) size m i batch 0
        ≡ record { batch = batch ++ firsts room m; skipped = 0; more = true }
  unfolding collect verdict is_allowed offer
  collect-firsts size [] zero i batch e = ground (arith, append-nil batch)
  collect-firsts size [] (suc room) i batch e = ground (arith, append-nil batch)
  collect-firsts size ((id, d) ∷ m) zero i batch e =
      let full : ltb (length batch) size ≡ false = ground (arith, e) in
      rw (full, collect) (ground (arith, append-nil batch))
  collect-firsts size ((id, d) ∷ m) (suc room) i batch e =
      let free : ltb (length batch) size ≡ true = ground (arith, e) in
      let more =
        collect-firsts size m room (suc i) (batch ++ id ∷ [])
          (omega (arith, e, length-append batch (id ∷ []))) in
      rw (free, collect) (simp append_assoc at more)

-- A turn in which nobody else does anything.
abbrev pub quiet : {W : Type 0} → Turn W
quiet = record {
  visits = λ _. is_open;
  pulls = λ _. is_open;
  others = λ _ w. w;
  cancelled = false;
  late = λ w. w;
}

module _ {W D : Type 0} (api : Fleet W D) where
  -- A job after so many rounds in which nobody else does anything.
  abbrev pub alone : Job D → ℕ → ℕ → ℕ → ℕ → W → Running W
  alone j batch_size now total n w =
      loop api j batch_size (replicate n quiet) (begin j batch_size now total w)

module _ {W D : Type 0} (api : Fleet W D) (laws : IsFleet api) where
  Ready-disconnect :
      (id : String) (ids : List String) (w : W)
      → All (λ j. id ≢ j) ids
      → Ready (api.devices w) ids
      → Ready (api.devices (api.disconnect id w).0) ids
  Ready-disconnect id [] w a r = tt
  Ready-disconnect id (j ∷ ids) w a r =
      (ground (arith, r.0, laws.kept id j w a.0), r.1, Ready-disconnect id ids w a.1 r.2)

  -- Every device of a batch whose devices are there is drained.
  pull-Ready :
      (ids : List String) (i : ℕ) (w : W) (n : ℕ)
      → Ready (api.devices w) ids
      → ((pull api (λ _. is_open) (λ _ v. v) ids i w n).more ≡ true)
        × ((pull api (λ _. is_open) (λ _ v. v) ids i w n).drained ≡ n + length ids)
        × (length (api.devices (pull api (λ _. is_open) (λ _ v. v) ids i w n).fleet) + length ids
            ≡ length (api.devices w))
  unfolding pull is_cancelled is_closed
  pull-Ready [] i w n r = (refl, omega arith, omega arith)
  pull-Ready (id ∷ ids) i w n r =
      let hit : (api.disconnect id w).1 ≡ true = ground (arith, laws.found id w, r.0) in
      let (m, d, l) =
        pull-Ready ids (suc i) (api.disconnect id w).0 (suc n)
          (Ready-disconnect id ids w r.1 r.2) in
      rw (hit) (m, omega (arith, d), ground (arith, l, hit, laws.counted id w))

  -- The variables of a loop that has drained what it visited, out of so many devices.
  abbrev Steady : ℕ → ℕ → Running W → Type 0
  Steady count devices s =
      (s.t.visited + s.remaining ≡ count)
      × (s.t.drained ≡ s.t.visited)
      × (length (api.devices s.fleet) + s.t.visited ≡ devices)
      × (0 < s.size)

  -- No device is left once the loop has found that there is no more to do.
  abbrev Exhausted : Running W → Type 0
  Exhausted s = s.more ≡ false → length (api.devices s.fleet) ≡ 0

  size-next_batch : (s : Running W) → (next_batch api none quiet s).0.size ≡ s.size
  unfolding next_batch
  size-next_batch s =
      either (λ (r : Running W × ℕ). r.0.size ≡ s.size) _ _ _ (λ e. refl) (λ e. refl)

  module _ (count devices : ℕ) (small : count < 2147483648) where
    next_batch-Steady :
        (s : Running W)
        → Steady count devices s
        → s.size ≤ s.remaining
        → Steady count devices (next_batch api none quiet s).0
          × Exhausted (next_batch api none quiet s).0
          × ((next_batch api none quiet s).1 ≡ 0)
    unfolding next_batch add_visited add_drained
    next_batch-Steady s k b =
        let m = api.devices s.fleet in
        let ids = firsts s.size m in
        let ce = collect-firsts s.size m s.size 0 [] (omega arith) in
        let (pm, pd, pl) =
          pull-Ready ids 0 s.fleet 0 (firsts-Ready s.size m (laws.unique s.fleet)) in
        let n = length-firsts s.size m in
        rw (ce, next_batch)
          (either (λ (r : Running W × ℕ). Steady count devices r.0 × Exhausted r.0 × (r.1 ≡ 0))
            (ltb 0 (length ids)) _ _
            (λ e. (
              (
                ground (arith, k, n, b, small),
                ground (arith, k, pd, n, b, small),
                ground (arith, k, pl, n, b, small),
                k.3,
              ),
              λ q. absurd (grind (arith, q, pm)),
              refl,
            ))
            (λ e. ((ground (arith, k, n, e), k.1, k.2, k.3), λ _. ground (arith, e, n, k.3), refl)))

    shrink-Steady :
        (limit : ℕ) (s : Running W)
        → Steady count devices s
        → 0 < s.remaining
        → s.size ≤ limit
        → Steady count devices (shrink limit s)
          × ((shrink limit s).size ≤ (shrink limit s).remaining)
          × ((shrink limit s).size ≤ limit)
    unfolding shrink
    shrink-Steady limit s k r b =
        either
          (λ (q : Running W). Steady count devices q × (q.size ≤ q.remaining) × (q.size ≤ limit))
          (ltb s.remaining limit) _ _ (λ e. ((k.0, k.1, k.2, r), omega arith, ground (arith, e)))
          (λ e. (k, ground (arith, e), b))

    batch-Steady :
        (limit : ℕ) (s : Running W)
        → Steady count devices s
        → 0 < s.remaining
        → s.size ≤ limit
        → Steady count devices (next_batch api none quiet (shrink limit s)).0
          × Exhausted (next_batch api none quiet (shrink limit s)).0
          × ((next_batch api none quiet (shrink limit s)).1 ≡ 0)
          × ((next_batch api none quiet (shrink limit s)).0.size ≤ limit)
    batch-Steady limit s k r b =
        let (k1, b1, b2) = shrink-Steady limit s k r b in
        let (k2, x, z) = next_batch-Steady (shrink limit s) k1 b1 in
        (k2, x, z, omega (arith, size-next_batch (shrink limit s), b2))

    check_skipped-Steady :
        (limit : ℕ) (r : Running W × ℕ)
        → Steady count devices r.0
        → Exhausted r.0
        → r.1 ≡ 0
        → r.0.size ≤ limit
        → Steady count devices (check_skipped api (λ w. w) r)
          × Exhausted (check_skipped api (λ w. w) r)
          × ((check_skipped api (λ w. w) r).size ≤ limit)
    unfolding check_skipped
    check_skipped-Steady limit (s, skipped) k x z c = (k, λ e. ground (arith, e, x, z), c)

    round-Steady :
        (j : Job D) (batch_size limit : ℕ) (s : Running W)
        → j.drain_filter ≡ none
        → limit ≡ (if ltb 0 j.rate then j.rate else batch_size)
        → Steady count devices s
        → 0 < s.remaining
        → s.size ≤ limit
        → Steady count devices (round api j batch_size quiet s)
          × Exhausted (round api j batch_size quiet s)
          × ((round api j batch_size quiet s).size ≤ limit)
    unfolding round drain_round disconnect_round check_skipped
    round-Steady j batch_size limit s f q k r b =
        either (λ (x : Running W). Steady count devices x × Exhausted x × (x.size ≤ limit))
          (ltb 0 j.rate) _ _
          (λ e.
            let l : limit ≡ j.rate = ground (arith, q, e) in
            let (k1, x, z, c) = batch-Steady j.rate s k r (omega (arith, b, l)) in
            rw (f) (
              check_skipped-Steady limit (next_batch api none quiet (shrink j.rate s)) k1 x z
                (omega (arith, c, l))))
          (λ e.
            let l : limit ≡ batch_size = ground (arith, q, e) in
            let (k1, x, z, c) = batch-Steady batch_size s k r (omega (arith, b, l)) in
            rw (f) (k1, x, omega (arith, c, l)))

    loop-Steady :
        (j : Job D) (batch_size limit n : ℕ) (s : Running W)
        → j.drain_filter ≡ none
        → limit ≡ (if ltb 0 j.rate then j.rate else batch_size)
        → Steady count devices s
        → Exhausted s
        → s.size ≤ limit
        → Steady count devices (loop api j batch_size (replicate n quiet) s)
          × Exhausted (loop api j batch_size (replicate n quiet) s)
    unfolding loop is_running
    loop-Steady j batch_size limit zero s f q k x b = (k, x)
    loop-Steady j batch_size limit (suc n) s f q k x b =
        either (λ (r : Running W). Steady count devices r × Exhausted r) (is_running s) _ _
          (λ e.
            let (k1, x1, b1) = round-Steady j batch_size limit s f q k (ground (arith, e)) b in
            loop-Steady j batch_size limit n (round api j batch_size quiet s) f q k1 x1 b1)
          (λ e. (k, x))

  -- When a job without a filter, with a count below 2^31 and a rate or a batch size that is not 0,
  -- is left alone by everybody else, then after as many rounds as its count its loop is over; it
  -- has visited and drained as many devices as its count, or all of them if there were fewer; and
  -- so many fewer are connected.
  pub loop_quiet :
      (j : Job D) (batch_size now total n : ℕ) (w : W)
      → j.drain_filter ≡ none
      → j.count < 2147483648
      → 0 < (if ltb 0 j.rate then j.rate else batch_size)
      → j.count ≤ n
      → (is_running (alone api j batch_size now total n w) ≡ false)
        × ((progress (alone api j batch_size now total n w).t).visited
            ≡ fewer j.count (length (api.devices w)))
        × ((progress (alone api j batch_size now total n w).t).drained
            ≡ fewer j.count (length (api.devices w)))
        × (length (api.devices (alone api j batch_size now total n w).fleet)
              + fewer j.count (length (api.devices w))
            ≡ length (api.devices w))
  unfolding progress sign_extend begin is_running
  loop_quiet j batch_size now total n w f small pos enough =
      let s = alone api j batch_size now total n w in
      let over : is_running s ≡ false =
        loop-begin_ends api j batch_size now total w (replicate n quiet) small
          (omega (arith, enough, length-replicate n (quiet {W = W}))) in
      let (k, x) =
        loop-Steady j.count (length (api.devices w)) small j batch_size
          (if ltb 0 j.rate then j.rate else batch_size) n (begin j batch_size now total w) f refl
          (omega arith, refl, omega arith, pos) (λ e. cc) (omega arith) in
      let v : s.t.visited ≡ fewer j.count (length (api.devices w)) = ground (arith, over, k, x) in
      (over, ground (arith, v, k, small), ground (arith, v, k, small), omega (arith, k.2, v))
