-- ===== src/Tests/Hub.antt =====
-- A hub with three devices at addresses: two with the same id, and one with another. Runs of
-- device/registry.go and device/rehasher/rehasher.go on it.
use webpa_common.Base.{
  ℕ, ◌+◌, ◌≡◌, ◌≢◌, ◌⊎◌, refl, true, false, ◌==◌, if◌then◌else◌, Option, none, some, [], ◌∷◌,
  String, String_discrete, ite, lookup, string_key, ok, err, arith, fresh_chan, is_none,
}
use webpa_common.Device.Wrp.{Wrp}
use webpa_common.Device.Endpoint.{Device, CloseReason, Envelope}
use webpa_common.Device.Endpoint.Closing
use webpa_common.Device.Registry.{
  Registry, new_registry, add, remove_if, get, len, device_limit_reached, Error,
}
use webpa_common.Device.Registry.Steps.{is_full}
use webpa_common.Device.Registry.Sound.{IsSound}
use webpa_common.Device.Registry.Metrics.{IsBalanced}
use webpa_common.Device.Registry.History.{adds, removes, removes_all, run, run-new_registry_total}
use webpa_common.Device.Registry.Content.{IsShut, add_content}
use webpa_common.Device.Registry.Bulk.{verdict, remove_if_content}
use webpa_common.Device.Manager.{Manager, register, pump_close}
use webpa_common.Device.Manager.Duplicates.{duplicate_lost}
use webpa_common.Device.Rehasher.{Rehasher, Event}

pub record Frame : Type 0 where
  pub source_text : String
  pub key : String

-- A library of messages whose encodings have one byte.
abbrev pub frames : Wrp
frames = record {
  Message = Frame;
  destination = λ m. m.source_text;
  source = λ m. m.source_text;
  content_type = λ m. "";
  set_content_type = λ t m. m;
  set_partner_ids = λ t m. m;
  set_session_id = λ t m. m;
  is_simple_event = λ m. false;
  is_request_response = λ m. true;
  transaction_key = λ m. m.key;
  is_transaction_part = λ m. true;
  msgpack = 1;
  decode = λ c. elim c [
    | [] ↦ err "empty"
    | b ∷ rest ↦ ok (record {
      source_text = if b == 0 then "mac:112233445566" else "mac:000000000000";
      key = "a";
    })
  ];
  encode = λ m. ok (9 ∷ []);
  encode_nil = ok (0 ∷ []);
}

abbrev pub first_id : String
first_id = "mac:112233445566"

abbrev pub other_id : String
other_id = "uuid:b"

abbrev pub envelope : Envelope Frame
envelope = record {
  request = record { message = none; format = 1; contents = 5 ∷ [] };
  complete = 3;
}

-- An open device with one transaction pending and two messages in its queue.
abbrev pub device_of : String → Device Frame
device_of id = record {
  id = id;
  duplications = 0;
  is_open = true;
  shutdown_closed = false;
  messages = envelope ∷ envelope ∷ [];
  queue_size = 2;
  transactions = record {
    closed = false;
    pending = ("a", 0) ∷ [];
    channels = λ _. fresh_chan;
    next = 1;
  };
  close_reason = none;
}

pub device_of-IsSound : (id : String) → Closing.IsSound (device_of id)
unfolding lookup
device_of-IsSound id = record {
  shutdown = refl;
  transactions_closed = refl;
  transactions_sound = record {
    owned = (omega arith, refl, tt, refl, tt);
    cleared = λ p. absurd (grind (arith, p));
  };
}

abbrev pub devices : ℕ → Device Frame
devices h = device_of (if h == 2 then other_id else first_id)

devices-IsSound : (h : ℕ) → Closing.IsSound (devices h)
devices-IsSound h = device_of-IsSound (if h == 2 then other_id else first_id)

abbrev pub fleet : Registry Frame
fleet = record {
  limit = 1;
  data_map = (first_id, 0) ∷ [];
  heap = devices;
  count = 1;
  limit_reached = 0;
  connect = 1;
  disconnect = 0;
  duplicates = 0;
}

pub fleet-IsSound : IsSound fleet
unfolding lookup
fleet-IsSound = record {
  devices = devices-IsSound;
  unique = (refl, tt);
  keyed = (refl, tt);
  counted = refl;
}

abbrev pub reason : CloseReason
reason = record { err = none; text = "test" }

run-new_registry_total_example :
    (w : Registry Frame) × (run
        (adds 0 ∷ adds 1 ∷ adds 2 ∷ removes first_id reason ∷ removes_all reason ∷ [])
        (new_registry 1 devices)
      ≡ ok w)
    × IsSound w
    × IsBalanced w
run-new_registry_total_example =
    run-new_registry_total
      (adds 0 ∷ adds 1 ∷ adds 2 ∷ removes first_id reason ∷ removes_all reason ∷ []) 1 devices
      devices-IsSound

-- The limit refuses the device at 2.
add_content_example :
    (w' : Registry Frame) × (r : Option Error) × (add 2 fleet ≡ ok (w', r))
    × (((r ≡ some device_limit_reached)
          × (lookup (fleet.heap 2).id fleet.data_map ≡ none)
          × (is_full fleet ≡ true)
          × (w'.data_map ≡ fleet.data_map)
          × IsShut 2 w')
        ⊎ ((r ≡ none)
            × ((lookup (fleet.heap 2).id fleet.data_map ≢ none) ⊎ (is_full fleet ≡ false))
            × ((id : String)
                → get id w' ≡ ite (String_discrete (fleet.heap 2).id id) (some 2) (get id fleet))
            × ((g : ℕ) → lookup (fleet.heap 2).id fleet.data_map ≡ some g → IsShut g w')))
add_content_example = add_content 2 fleet fleet-IsSound

abbrev pub always : Device Frame → Option CloseReason
always d = some reason

remove_if_content_example :
    (w' : Registry Frame) × (n : ℕ) × (remove_if always fleet ≡ ok (w', n))
    × (len w' + n ≡ len fleet)
    × ((id : String)
        → get id w'
          ≡ (if is_none (verdict always id fleet.heap fleet.data_map) then get id fleet else none))
    × ((id : String) (h : ℕ)
        → get id fleet ≡ some h
        → is_none (always (fleet.heap h)) ≡ false
        → IsShut h w')
remove_if_content_example = remove_if_content always fleet fleet-IsSound

abbrev pub hub : Manager Frame
hub = record {
  registry = fleet;
  enforce = true;
  claims = λ _. record { partner_id = "p"; session_id = "s" };
  events = [];
  completes = λ _. fresh_chan;
  connection_closed = λ _. false;
  close_once = λ _. false;
  source_checks = [];
  request_responses = 0;
}

connected_first : get (hub.registry.heap 1).id hub.registry ≡ some 0
unfolding get lookup String_discrete
connected_first = refl

duplicate_lost_example :
    (m1 m2 : Manager Frame) × (register 1 hub ≡ ok (m1, none))
    × (get (hub.registry.heap 1).id m1.registry ≡ some 1)
    × (pump_close 0 reason m1 ≡ ok m2)
    × (get (hub.registry.heap 1).id m2.registry ≡ none)
    × IsShut 1 m2.registry
duplicate_lost_example = duplicate_lost hub 1 0 reason fleet-IsSound connected_first refl

abbrev pub update_event : Event
update_event = record {
  service = "talaria";
  error = none;
  stopped = false;
  event_count = 2;
  instances = "here" ∷ [];
}

abbrev pub lost_event : Event
lost_event = record update_event { instances = [] }

-- Every id hashes to an instance that is not registered.
abbrev pub placed : Rehasher Frame
placed = record {
  services = ("talaria", true) ∷ [];
  accessor_factory = λ instances id. ("there", none);
  is_registered = λ i. false;
  connector = hub;
  keep = [];
  disconnect = [];
  disconnect_all_count = [];
}
