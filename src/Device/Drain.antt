-- ===== src/Device/Drain.antt =====
-- device/drain/drainer.go and device/drain/tracker.go: the jobs of a drainer and the calls that
-- start, cancel and end them. A job context is an address in `jobs`, since the goroutine of the job
-- and the drainer share it. Start and Cancel hold the lock, so each is one step; `jobFinished` is
-- three, between which other goroutines run. A number 0 in a job stands for every number that is
-- not positive.
pub mod Control
pub mod Hub
pub mod Batches
use webpa_common.Base.{
  ℕ, suc, ◌+◌, ◌%◌, Bool, true, false, ◌&&◌, if◌then◌else◌, ltb, ◌==◌, Option, none, some, Outcome,
  ok, err, Go, panic, ◌>>=◌, update, List, [], ◌∷◌,
}

pub data Error : Type 0 where
  active not_active : Error

abbrev pub metric_not_draining : ℕ
metric_not_draining = 0

abbrev pub metric_draining : ℕ
metric_draining = 1

abbrev pub disconnect_batch_size : ℕ
disconnect_batch_size = 1000

abbrev pub second : ℕ
second = 1000000000

-- The filter lets a device be, or it does not.
pub record Job (D : Type 0) : Type 0 where
  pub count : ℕ
  pub percent : ℕ
  pub rate : ℕ
  pub tick : ℕ
  pub drain_filter : Option (D → Bool)

-- The fields `visited` and `drained` hold the bits of an `int32`. The metric that `addDrained`
-- raises too is one for all jobs, and is a field of the drainer.
pub record Tracker : Type 0 where
  pub visited : ℕ
  pub drained : ℕ
  pub started : ℕ
  pub finished : Option ℕ

pub record Progress : Type 0 where
  pub visited : ℕ
  pub drained : ℕ
  pub started : ℕ
  pub finished : Option ℕ

abbrev pub width : ℕ
width = 4294967296

-- `int(x)` for an `int32`, as the bits of an integer of 64 bits.
unfoldable pub sign_extend : ℕ → ℕ
sign_extend bits = if ltb bits 2147483648 then bits else bits + 18446744069414584320

unfoldable pub progress : Tracker → Progress
unfolding sign_extend
progress t = record {
  visited = sign_extend t.visited;
  drained = sign_extend t.drained;
  started = t.started;
  finished = t.finished;
}

unfoldable pub add_visited : ℕ → Tracker → Tracker
add_visited delta t = record t { visited = (t.visited + delta) % width }

unfoldable pub add_drained : ℕ → Tracker → Tracker
add_drained delta t = record t { drained = (t.drained + delta) % width }

unfoldable pub stamp : ℕ → Tracker → Tracker
stamp timestamp t = record t { finished = some timestamp }

-- How far the goroutine of a job is: in its loop, or in `jobFinished`.
pub data Stage : Type 0 where
  working stamped settled ended : Stage

pub record JobContext (D : Type 0) : Type 0 where
  pub id : ℕ
  pub t : Tracker
  pub j : Job D
  pub batch_size : ℕ
  pub cancelled : Bool
  pub is_done : Bool
  pub stage : Stage

pub record Drainer (D : Type 0) : Type 0 where
  pub is_active : Bool
  pub current_id : ℕ
  pub current : Option ℕ
  pub gauge : ℕ
  pub counter : ℕ
  pub jobs : ℕ → JobContext D
  pub allocated : ℕ

-- The steps of callers and of the goroutines of jobs.
pub data Action (D : Type 0) : Type 0 where
  starting : (now : ℕ) (j : Job D) → Action D
  cancelling : Action D
  reporting : (visited drained h : ℕ) → Action D
  finishing : (now h : ℕ) → Action D

module _ {D : Type 0} where
  -- The percentage is taken in floating-point numbers, whose arithmetic is an argument.
  unfoldable pub normalize : (ℕ → ℕ → ℕ) → ℕ → Job D → Job D
  normalize percentage device_count j =
      let j1 =
        if ltb 0 j.percent
        then record j { count = percentage device_count j.percent }
        else if ltb 0 j.count
        then j
        else record j { count = device_count } in
      if ltb 0 j1.rate
      then (if ltb 0 j1.tick then j1 else record j1 { tick = second })
      else record j1 { rate = 0; tick = 0 }

  -- `New`, before any job.
  unfoldable pub new : (ℕ → JobContext D) → Drainer D
  new jobs = record {
    is_active = false;
    current_id = 0;
    current = none;
    gauge = metric_not_draining;
    counter = 0;
    jobs = jobs;
    allocated = 0;
  }

  unfoldable pub fresh_context : ℕ → ℕ → Job D → JobContext D
  fresh_context id now j = record {
    id = id;
    t = record { visited = 0; drained = 0; started = now; finished = none };
    j = j;
    batch_size = if ltb 0 j.rate then 0 else disconnect_batch_size;
    cancelled = false;
    is_done = false;
    stage = working;
  }

  -- The part of `Start` under the lock, for a job that is normalized. The result is the address of
  -- the context, whose channel `done` the caller gets, and the job.
  unfoldable pub start : ℕ → Job D → Drainer D → Drainer D × Outcome Error (ℕ × Job D)
  unfolding fresh_context
  start now j dr = if dr.is_active then (dr, err active) else (
    record {
      is_active = true;
      current_id = (dr.current_id + 1) % width;
      current = some dr.allocated;
      gauge = metric_draining;
      counter = dr.counter;
      jobs = update dr.jobs dr.allocated (fresh_context ((dr.current_id + 1) % width) now j);
      allocated = suc dr.allocated;
    },
    ok (dr.allocated, j),
  )

  -- `Status`. None: no job has ever run.
  unfoldable pub status : Drainer D → Option (Bool × Job D × Progress)
  unfolding progress
  status dr = elim dr.current [
    | none ↦ none
    | some h ↦ some (dr.is_active, (dr.jobs h).j, progress (dr.jobs h).t)
  ]

  -- `close(jc.cancel)`, which panics on a closed channel.
  unfoldable pub close_cancel : ℕ → Drainer D → Go (Drainer D)
  close_cancel h dr =
      if (dr.jobs h).cancelled
      then err panic
      else ok (record dr { jobs = update dr.jobs h (record (dr.jobs h) { cancelled = true }) })

  -- `dr.current.Load().(jobContext)` panics if no job was ever stored.
  unfoldable pub cancel_current : Option ℕ → Drainer D → Go (Drainer D × Outcome Error ℕ)
  unfolding close_cancel
  cancel_current none dr = err panic
  cancel_current (some h) dr = do dr' ← close_cancel h dr; ok (dr', ok h)

  unfoldable pub cancel : Drainer D → Go (Drainer D × Outcome Error ℕ)
  unfolding cancel_current
  cancel dr =
      if dr.is_active
      then cancel_current dr.current (record dr { is_active = false; gauge = metric_not_draining })
      else ok (dr, err not_active)

  -- The part of `jobFinished` under the lock.
  unfoldable pub settle : ℕ → Drainer D → Drainer D
  settle h dr =
      let dr' = record dr { jobs = update dr.jobs h (record (dr.jobs h) { stage = settled }) } in
      if (dr.jobs h).id == dr.current_id && dr.is_active
      then record dr' { is_active = false; gauge = metric_not_draining }
      else dr'

  -- `close(jc.done)`
  unfoldable pub close_done : ℕ → Drainer D → Go (Drainer D)
  close_done h dr =
      if (dr.jobs h).is_done
      then err panic
      else ok (record dr {
        jobs = update dr.jobs h (record (dr.jobs h) { is_done = true; stage = ended });
      })

  -- The next step of `jobFinished`, for a goroutine that has left its loop.
  unfoldable pub job_finished : ℕ → ℕ → Drainer D → Go (Drainer D)
  unfolding stamp settle close_done
  job_finished now h dr = elim (dr.jobs h).stage [
    | working ↦ ok (record dr {
      jobs = update dr.jobs h (record (dr.jobs h) { t = stamp now (dr.jobs h).t; stage = stamped });
    })
    | stamped ↦ ok (settle h dr)
    | settled ↦ close_done h dr
    | ended ↦ ok dr
  ]

  -- What `nextBatch` reports to the tracker of its job.
  unfoldable pub report : ℕ → ℕ → ℕ → Drainer D → Drainer D
  unfolding add_visited add_drained
  report visited drained h dr = record dr {
    counter = dr.counter + drained;
    jobs =
        update dr.jobs h
          (record (dr.jobs h) { t = add_drained drained (add_visited visited (dr.jobs h).t) });
  }

  -- Only a job that was started has a goroutine.
  unfoldable pub step : Action D → Drainer D → Go (Drainer D)
  unfolding start cancel report job_finished
  step (starting now j) dr = let (dr', _) = start now j dr in ok dr'
  step cancelling dr = do (dr', _) ← cancel dr; ok dr'
  step (reporting v d h) dr = if ltb h dr.allocated then ok (report v d h dr) else ok dr
  step (finishing now h) dr = if ltb h dr.allocated then job_finished now h dr else ok dr

  unfoldable pub run : List (Action D) → Drainer D → Go (Drainer D)
  unfolding step
  run [] dr = ok dr
  run (a ∷ rest) dr = do dr' ← step a dr; run rest dr'
