-- ===== src/Tests/Pumps.antt =====
-- Runs of the pumps and the source check of device/manager.go.
use webpa_common.Base.{
  fresh_chan, ◌≡◌, ◌≢◌, ◌↔◌, refl, Bool, true, false, none, some, [], ◌∷◌, String_discrete, lookup,
  string_key, ok, err, receive, element, ne_of_test, ap,
}
use webpa_common.Device.Id.{parse_id}
use webpa_common.Device.Manager.{Manager, source_is_valid, id_match, read_frame}
use webpa_common.Device.Manager.Source.{source_is_valid_lem}
use webpa_common.Device.Manager.Reading.{spoof_dropped}
use webpa_common.Device.WritePump.{deliver, ping, pump, write_result, failed_event}
use webpa_common.Device.WritePump.Events.{failed_twice, disconnected_event}
use webpa_common.Device.Sending.{Line, send_step, context_done, awaiting}
use webpa_common.Device.Sending.Cleanup.{Tidy, send_step-Tidy}
use webpa_common.Tests.Hub.{
  device_of, Frame, frames, hub, first_id, envelope, device_of-IsSound, fleet-IsSound,
}

source_is_valid_lem_example :
    (((source_is_valid true first_id "MAC:112233445566").0 ≡ true)
      ↔ (parse_id "MAC:112233445566" ≡ ok first_id))
    × ((source_is_valid false first_id "MAC:112233445566").0 ≡ true)
    × ((enforce : Bool)
        → ((source_is_valid enforce first_id "MAC:112233445566").1 ≡ id_match)
          ↔ (parse_id "MAC:112233445566" ≡ ok first_id))
source_is_valid_lem_example = source_is_valid_lem first_id "MAC:112233445566"

-- A frame with the source of another device.
abbrev pub spoof : Frame
spoof = record { source_text = "mac:000000000000"; key = "a" }

abbrev pub answer : Frame
answer = record { source_text = first_id; key = "a" }

spoof_parsed : parse_id spoof.source_text ≢ ok first_id
unfolding parse_id String_discrete
spoof_parsed p =
    ne_of_test spoof.source_text first_id refl (ap (λ r. elim r [ ok id ↦ id | err _ ↦ "" ]) p)

spoof_dropped_example :
    read_frame frames 0 true (1 ∷ []) hub
    ≡ ok (record hub {
      source_checks = (false, (source_is_valid true first_id spoof.source_text).1) ∷ [];
    })
spoof_dropped_example = spoof_dropped frames 0 (1 ∷ []) spoof hub refl refl spoof_parsed

broken : write_result frames envelope.request (some "broken pipe") ≡ some "broken pipe"
unfolding write_result
broken = refl

failed_twice_example :
    (m' : Manager Frame) × (pump frames 0 (deliver (some "broken pipe") ∷ ping none ∷ []) hub
      ≡ ok m')
    × (receive (m'.completes 3) ≡ element "broken pipe")
    × (lookup first_id m'.registry.data_map ≡ none)
    × (m'.connection_closed 0 ≡ true)
    × ((m'.registry.heap 0).messages ≡ [])
    × (m'.events
        ≡ failed_event 0 (some "broken pipe") envelope
          ∷ disconnected_event 0
          ∷ failed_event 0 (some "broken pipe") envelope
          ∷ failed_event 0 (some "broken pipe") envelope
          ∷ [])
failed_twice_example =
    failed_twice frames 0 (some "broken pipe") "broken pipe" envelope (envelope ∷ [])
      (ping none ∷ []) hub fleet-IsSound refl refl broken refl

-- A call of `Send` that waits for its response when its context times out.
abbrev pub line : Line Frame
line = record { device = device_of first_id; completes = λ _. fresh_chan }

send_step-Tidy_example :
    Tidy
      (some "a")
      (send_step frames envelope.request 3 (context_done "timeout") (awaiting "a" 0) line)
send_step-Tidy_example =
    send_step-Tidy frames envelope.request 3 (context_done "timeout") (awaiting "a" 0) line "a"
      (device_of-IsSound first_id).transactions_sound refl
