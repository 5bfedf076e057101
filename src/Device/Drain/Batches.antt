-- ===== src/Device/Drain/Batches.antt =====
-- device/drain/drainer.go: the loops of a drain job. The registry and the connector of the job are
-- an interface, and `W` is the state behind it, which other goroutines change between any two steps
-- of the job. What they do, and what each `select` finds and takes, are arguments.
pub mod Bounds
pub mod Quiet
use webpa_common.Base.{
  ℕ, zero, suc, ◌+◌, ◌-◌, Bool, true, false, not, ◌&&◌, if◌then◌else◌, ltb, ◌==◌, Option, none,
  some, List, [], ◌∷◌, ◌++◌, String, GoMap, length,
}
use webpa_common.Device.Drain.{Job, Tracker, add_visited, add_drained}

-- What the job uses of `device.Registry` and `device.Connector`: the devices by their ids, and
-- `Disconnect`, which tells whether there was a device with the id.
pub record Fleet (W D : Type 0) : Type 0 where
  pub devices : W → GoMap String D
  pub disconnect : String → W → W × Bool

-- What a `select` with the case `<-jc.cancel` meets: the channel is open, or it is closed and the
-- `select` prefers another case that is ready, or it is closed and its case is taken.
pub data Look : Type 0 where
  is_open passed_over is_taken : Look

-- One time round the loop of a job. `visits` and `pulls` are what the selects of `nextBatch` meet,
-- `others` what other goroutines do before the visit and before each call of `Disconnect`. The last
-- two are for `drain` only: whether its own select takes the cancellation, and what others do
-- before the call of `Len`.
pub record Turn (W : Type 0) : Type 0 where
  pub visits : ℕ → Look
  pub pulls : ℕ → Look
  pub others : ℕ → W → W
  pub cancelled : Bool
  pub late : W → W

pub record Collected : Type 0 where
  pub batch : List String
  pub skipped : ℕ
  pub more : Bool

-- What the visitor of `nextBatch` makes of a device.
pub data Verdict : Type 0 where
  skip enqueue stop halt : Verdict

unfoldable pub is_allowed : {D : Type 0} → Option (D → Bool) → D → Bool
is_allowed none d = false
is_allowed (some f) d = f d

-- The `select` of the visitor, for a batch that has room or not.
unfoldable pub offer : Look → Bool → Verdict
offer is_open room = if room then enqueue else stop
offer passed_over room = if room then enqueue else halt
offer is_taken room = halt

module _ {D : Type 0} (filter : Option (D → Bool)) (visits : ℕ → Look) (size : ℕ) where
  unfoldable pub verdict : ℕ → D → List String → Verdict
  unfolding is_allowed offer
  verdict i d batch =
      if is_allowed filter d then skip else offer (visits i) (ltb (length batch) size)

  -- `VisitAll` with the visitor of `nextBatch`, from the device with a given position on.
  unfoldable pub collect : GoMap String D → ℕ → List String → ℕ → Collected
  unfolding verdict
  collect [] i batch skipped = record { batch = batch; skipped = skipped; more = true }
  collect ((id, d) ∷ rest) i batch skipped = elim (verdict i d batch) [
    | skip ↦ collect rest (suc i) batch (suc skipped)
    | enqueue ↦ collect rest (suc i) (batch ++ id ∷ []) skipped
    | stop ↦ record { batch = batch; skipped = skipped; more = true }
    | halt ↦ record { batch = batch; skipped = skipped; more = false }
  ]

unfoldable pub is_cancelled : Look → Bool
is_cancelled is_open = false
is_cancelled passed_over = false
is_cancelled is_taken = true

-- With an empty batch the cancellation is the only case that can be ready.
unfoldable pub is_closed : Look → Bool
is_closed is_open = false
is_closed passed_over = true
is_closed is_taken = true

-- The state of a loop. `size` is the capacity of `batch`, and `drained_total` the shared counter.
pub record Running (W : Type 0) : Type 0 where
  pub fleet : W
  pub t : Tracker
  pub drained_total : ℕ
  pub remaining : ℕ
  pub more : Bool
  pub size : ℕ

pub record Pulled (W : Type 0) : Type 0 where
  pub fleet : W
  pub drained : ℕ
  pub more : Bool

module _ {W : Type 0} where
  -- `for more && remaining > 0`
  unfoldable pub is_running : Running W → Bool
  is_running s = s.more && ltb 0 s.remaining

  -- `if remaining < limit { batch = make(chan device.ID, remaining) }`
  unfoldable pub shrink : ℕ → Running W → Running W
  shrink limit s = if ltb s.remaining limit then record s { size = s.remaining } else s

  -- The variables of the loop at its beginning.
  unfoldable pub begin : {D : Type 0} → Job D → ℕ → ℕ → ℕ → W → Running W
  begin j batch_size now total w = record {
    fleet = w;
    t = record { visited = 0; drained = 0; started = now; finished = none };
    drained_total = total;
    remaining = j.count;
    more = true;
    size = if ltb 0 j.rate then j.rate else batch_size;
  }

module _ {W D : Type 0} (api : Fleet W D) where
  -- The second loop of `nextBatch`.
  unfoldable pub pull : (ℕ → Look) → (ℕ → W → W) → List String → ℕ → W → ℕ → Pulled W
  unfolding is_cancelled is_closed
  pull pulls others [] i w n = record { fleet = w; drained = n; more = not (is_closed (pulls i)) }
  pull pulls others (id ∷ batch) i w n = elim (is_cancelled (pulls i)) [
    | true ↦ record { fleet = w; drained = n; more = false }
    | false ↦
        let (w', hit) = api.disconnect id (others (suc i) w) in
        pull pulls others batch (suc i) w' (if hit then suc n else n)
  ]

  -- `nextBatch`, and `remaining -= visited` after it, with the number of devices skipped.
  unfoldable pub next_batch : Option (D → Bool) → Turn W → Running W → Running W × ℕ
  unfolding collect pull add_visited add_drained
  next_batch filter turn s =
      let w = turn.others 0 s.fleet in
      let c = collect filter turn.visits s.size (api.devices w) 0 [] 0 in
      let visited = length c.batch in
      let s' = record s { fleet = w; remaining = s.remaining - visited } in
      if c.more && ltb 0 visited
      then (let p = pull turn.pulls turn.others c.batch 0 w 0 in
          (
            record s' {
              fleet = p.fleet;
              t = add_drained p.drained (add_visited visited s.t);
              drained_total = s.drained_total + p.drained;
              more = p.more;
            },
            c.skipped,
          ))
      else (record s' { more = false }, c.skipped)

  -- The body of the loop of `disconnect`.
  unfoldable pub disconnect_round : Job D → ℕ → Turn W → Running W → Running W
  unfolding next_batch shrink
  disconnect_round j batch_size turn s = (next_batch j.drain_filter turn (shrink batch_size s)).0

  -- The end of a round of `drain`: nobody else is there to be disconnected.
  unfoldable pub check_skipped : (W → W) → Running W × ℕ → Running W
  check_skipped late (s, skipped) =
      let w = late s.fleet in
      record s { fleet = w; more = s.more && not (skipped == length (api.devices w)) }

  -- The body of the loop of `drain`, once the ticker or the cancellation is ready.
  unfoldable pub drain_round : Job D → Turn W → Running W → Running W
  unfolding next_batch shrink check_skipped
  drain_round j turn s =
      let s' = shrink j.rate s in
      if turn.cancelled
      then record s' { more = false }
      else check_skipped turn.late (next_batch j.drain_filter turn s')

  -- `Start` runs `drain` for a job with a rate, and `disconnect` for one without.
  unfoldable pub round : Job D → ℕ → Turn W → Running W → Running W
  unfolding drain_round disconnect_round
  round j batch_size turn s =
      if ltb 0 j.rate then drain_round j turn s else disconnect_round j batch_size turn s

  -- The loop as far as the turns go.
  unfoldable pub loop : Job D → ℕ → List (Turn W) → Running W → Running W
  unfolding round is_running
  loop j batch_size [] s = s
  loop j batch_size (turn ∷ turns) s =
      if is_running s then loop j batch_size turns (round j batch_size turn s) else s
