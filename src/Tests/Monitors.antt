-- ===== src/Tests/Monitors.antt =====
-- Runs of service/monitor, on a monitor that hears of instances and is then stopped.
use webpa_common.Base.{◌≡◌, ◌⊎◌, false, none, some, List, [], ◌∷◌, String, ℕ}
use webpa_common.Service.Monitor.{
  Action, receives, sees_stopped, sees_closed, stops, closes, run, new,
}
use webpa_common.Service.Monitor.Sequence.{recorder, IsSequence, run-new-IsSequence}
use webpa_common.Service.Monitor.Registering.{Alternates, ended, run-new_registration}

-- Two instancers, of which the second is stopped first.
abbrev actions : List (Action ℕ)
actions =
    receives 0 none ("b" ∷ [])
    ∷ receives 1 (some 7) ("b" ∷ [])
    ∷ receives 0 none []
    ∷ stops
    ∷ sees_stopped 1
    ∷ receives 0 none ("b" ∷ [])
    ∷ sees_stopped 0
    ∷ []

abbrev key_of : ℕ → String
key_of g = "key"

abbrev service_of : ℕ → String
service_of g = "service"

abbrev unfiltered : List String → List String
unfiltered instances = instances

run-new-IsSequence_example :
    IsSequence 2 key_of service_of unfiltered 0
      (run 2 key_of service_of unfiltered (recorder ∷ []) actions (new []))
run-new-IsSequence_example = run-new-IsSequence 2 key_of service_of unfiltered 0 actions

-- One instancer, whose environment is closed.
abbrev closing : List (Action ℕ)
closing = receives 0 none ("b" ∷ []) ∷ receives 0 (some 7) [] ∷ closes ∷ sees_closed 0 ∷ []

run-new_registration_example :
    Alternates false
      (ended key_of service_of unfiltered false closing).listeners.calls
      (ended key_of service_of unfiltered false closing).listeners.is_registered
    × ((((ended key_of service_of unfiltered false closing).goroutines 0).is_done ≡ false)
        ⊎ ((ended key_of service_of unfiltered false closing).listeners.is_registered ≡ false))
run-new_registration_example = run-new_registration key_of service_of unfiltered false closing
