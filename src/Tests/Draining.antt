-- ===== src/Tests/Draining.antt =====
-- Runs of device/drain, on the hub of two devices.
use webpa_common.Base.{
  ℕ, ◌+◌, ◌≤◌, ◌*◌, ◌/◌, ◌≡◌, ◌≢◌, refl, false, not, if◌then◌else◌, none, some, List, [], ◌∷◌,
  lookup, string_key, is_none, ok, arith, ne_of_test,
}
use webpa_common.Device.Endpoint.{Device}
use webpa_common.Device.Endpoint.Closing.{shut}
use webpa_common.Device.Registry.{Registry, remove, len}
use webpa_common.Device.Registry.Sound.{IsSound}
use webpa_common.Device.Registry.Steps.{removed}
use webpa_common.Device.Drain.{
  Job, JobContext, Drainer, Action, starting, cancelling, finishing, working, progress, run, new,
}
use webpa_common.Device.Drain.Control
use webpa_common.Device.Drain.Control.{run-new-IsSound}
use webpa_common.Device.Drain.Batches.{begin, loop, is_running}
use webpa_common.Device.Drain.Batches.Bounds.{loop-begin_ends, loop-begin_bounds}
use webpa_common.Device.Drain.Batches.Quiet.{quiet}
use webpa_common.Device.Drain.Hub.{hub, hub_refines, hub_drained, ended_job, drained_reason}
use webpa_common.Tests.Hub.{Frame, fleet, fleet-IsSound, first_id, other_id}

abbrev sound_fleet : (w : Registry Frame) × IsSound w
sound_fleet = (fleet, fleet-IsSound)

abbrev pair_job : Job (Device Frame)
pair_job = record { count = 2; percent = 0; rate = 1; tick = 5; drain_filter = none }

abbrev blank : ℕ → JobContext (Device Frame)
blank h = record {
  id = 0;
  t = record { visited = 0; drained = 0; started = 0; finished = none };
  j = pair_job;
  batch_size = 0;
  cancelled = false;
  is_done = false;
  stage = working;
}

-- A job that is cancelled, and a second one that starts before the first has ended.
abbrev overlap : List (Action (Device Frame))
overlap =
    starting 1 pair_job ∷ cancelling ∷ starting 2 pair_job ∷ finishing 3 0 ∷ finishing 3 0 ∷ []

run-new-IsSound_example :
    (dr : Drainer (Device Frame)) × (run overlap (new blank) ≡ ok dr) × Control.IsSound dr
run-new-IsSound_example = run-new-IsSound blank overlap (omega arith)

loop-begin_ends_example :
    is_running (loop hub pair_job 0 (quiet ∷ quiet ∷ []) (begin pair_job 0 7 0 sound_fleet)) ≡ false
loop-begin_ends_example =
    loop-begin_ends hub pair_job 0 7 0 sound_fleet (quiet ∷ quiet ∷ []) (omega arith) (omega arith)

loop-begin_bounds_example :
    ((progress (loop hub pair_job 0 (quiet ∷ []) (begin pair_job 0 7 4 sound_fleet)).t).visited ≤ 2)
    × ((progress (loop hub pair_job 0 (quiet ∷ []) (begin pair_job 0 7 4 sound_fleet)).t).drained
        ≤ (progress
            (loop hub pair_job 0 (quiet ∷ []) (begin pair_job 0 7 4 sound_fleet)).t).visited)
    × ((loop hub pair_job 0 (quiet ∷ []) (begin pair_job 0 7 4 sound_fleet)).drained_total
        ≡ 4
          + (progress
              (loop hub pair_job 0 (quiet ∷ []) (begin pair_job 0 7 4 sound_fleet)).t).drained)
loop-begin_bounds_example =
    loop-begin_bounds hub pair_job 0 7 4 sound_fleet (quiet ∷ []) (omega arith)

other_than_first : first_id ≢ other_id
other_than_first = ne_of_test first_id other_id refl

hub_refines_example :
    (remove first_id drained_reason fleet
      ≡ ok ((hub.disconnect first_id sound_fleet).0.0, (removed first_id drained_reason fleet).1))
    × ((hub.disconnect first_id sound_fleet).1
        ≡ not (is_none (lookup first_id (hub.devices sound_fleet))))
    × (lookup first_id (hub.devices (hub.disconnect first_id sound_fleet).0) ≡ none)
    × ((g : ℕ)
        → lookup first_id fleet.data_map ≡ some g
        → (hub.disconnect first_id sound_fleet).0.0.heap g ≡ shut drained_reason (fleet.heap g))
    × (lookup other_id (hub.devices (hub.disconnect first_id sound_fleet).0)
        ≡ lookup other_id (hub.devices sound_fleet))
    × (len fleet
        ≡ len (hub.disconnect first_id sound_fleet).0.0
          + (if (hub.disconnect first_id sound_fleet).1 then 1 else 0))
hub_refines_example = hub_refines first_id other_id fleet fleet-IsSound other_than_first

abbrev default_job : Job (Device Frame)
default_job = record { count = 0; percent = 0; rate = 0; tick = 0; drain_filter = none }

-- A percentage without rounding errors.
abbrev share : ℕ → ℕ → ℕ
share devices percent = devices * percent / 100

hub_drained_example :
    (is_running (ended_job share default_job 7 4 sound_fleet) ≡ false)
    × (len (ended_job share default_job 7 4 sound_fleet).fleet.0 ≡ 0)
    × ((progress (ended_job share default_job 7 4 sound_fleet).t).visited ≡ len fleet)
    × ((progress (ended_job share default_job 7 4 sound_fleet).t).drained ≡ len fleet)
unfolding len
hub_drained_example =
    hub_drained share default_job 7 4 fleet fleet-IsSound refl refl refl (omega arith)
