-- ===== src/Device/Manager.antt =====
-- device/manager.go: the hub, with its two pumps. What the network does enters as arguments: the
-- frames that arrive, the results of writes and pings, and which case of a `select` is taken.
-- Logging, and the convey data with its metrics, are left out.
pub mod Source
pub mod Duplicates
pub mod Reading
use Prim.Native.Char.{Char, code}
use webpa_common.Base.{
  ℕ, suc, ◌+◌, ◌≡◌, Bool, true, false, not, ◌&&◌, ◌||◌, if◌then◌else◌, ltb, leb, ◌==◌, Option, none,
  some, List, [], ◌∷◌, ◌++◌, String, GoMap, String_discrete, ite, lookup, string_key, Outcome, ok,
  err, Go, ◌>>=◌, Chan, send, close_chan, update, is_none, length,
}
use webpa_common.Device.Id.{parse_id}
use webpa_common.Device.Id
use webpa_common.Device.Transactions.{complete}
use webpa_common.Device.Transactions
use webpa_common.Device.Endpoint.{GoError, Device, CloseReason, Request, Response, Envelope}
use webpa_common.Device.Registry.{Registry}
use webpa_common.Device.Registry
use webpa_common.Device.Wrp.{Wrp}

pub data EventType : Type 0 where
  connected disconnected message_sent message_received : EventType
  message_failed transaction_complete transaction_broken : EventType

pub record Event (M : Type 0) : Type 0 where
  pub type : EventType
  pub device : ℕ
  pub request : Request M
  pub error : Option GoError

-- The labels of the counter of source checks.
pub data Reason : Type 0 where
  empty parse_error id_mismatch id_match : Reason

-- What the pumps read of a device's metadata.
pub record Claims : Type 0 where
  pub partner_id : String
  pub session_id : String

pub record Manager (M : Type 0) : Type 0 where
  pub registry : Registry M
  pub enforce : Bool
  pub claims : ℕ → Claims
  pub events : List (Event M)
  pub completes : ℕ → Chan GoError
  pub connection_closed : ℕ → Bool
  pub close_once : ℕ → Bool
  pub source_checks : List (Bool × Reason)
  pub request_responses : ℕ

-- `unicode.IsSpace`
unfoldable pub is_space : Char → Bool
is_space c =
    leb 9 (code c) && leb (code c) 13
    || code c == 32
    || code c == 0x85
    || code c == 0xA0
    || code c == 0x1680
    || leb 0x2000 (code c) && leb (code c) 0x200A
    || code c == 0x2028
    || code c == 0x2029
    || code c == 0x202F
    || code c == 0x205F
    || code c == 0x3000

-- `len(strings.TrimSpace(s)) == 0`
unfoldable pub is_blank : String → Bool
unfolding is_space
is_blank String.[] = true
is_blank (String.◌∷◌ c s) = is_space c && is_blank s

-- `wrpSourceIsValid`: whether the message may pass, and the label that is counted.
check_parsed : Bool → String → Outcome Id.Error String → Bool × Reason
check_parsed enforce expected (err _) = (not enforce, parse_error)
check_parsed enforce expected (ok actual) =
    ite (String_discrete expected actual) (true, id_match) (not enforce, id_mismatch)

unfoldable pub source_is_valid : Bool → String → String → Bool × Reason
unfolding check_parsed
source_is_valid enforce expected source =
    if is_blank source
    then (not enforce, empty)
    else check_parsed enforce expected (parse_id source)

module _ {M : Type 0} where
  abbrev pub no_request : Request M
  no_request = record { message = none; format = 0; contents = [] }

  -- Listeners see the events in this order.
  unfoldable pub dispatch : Event M → Manager M → Manager M
  dispatch e m = record m { events = m.events ++ e ∷ [] }

  unfoldable pub device_at : ℕ → Manager M → Device M
  device_at h m = m.registry.heap h

  unfoldable pub set_device : ℕ → Device M → Manager M → Manager M
  set_device h d m = record m { registry = record m.registry { heap = update m.registry.heap h d } }

  -- `closeOnce.Do(func() { m.pumpClose(d, c, reason) })`
  unfoldable pub pump_close : ℕ → CloseReason → Manager M → Go (Manager M)
  pump_close h reason m = if m.close_once h then ok m else (do
    (r, _) ← Registry.remove (m.registry.heap h).id reason m.registry
    ok (
        dispatch (record { type = disconnected; device = h; request = no_request; error = none })
          (record m {
            registry = r;
            close_once = update m.close_once h true;
            connection_closed = update m.connection_closed h true;
          })))

  -- The part of `Connect` that follows the websocket upgrade.
  unfoldable pub register : ℕ → Manager M → Go (Manager M × Option Registry.Error)
  register h m = do
    (r, e) ← Registry.add h m.registry
    let m' = record m { registry = r }
    ok (elim e [
      | none ↦ (
        dispatch (record { type = connected; device = h; request = no_request; error = none }) m',
        none,
      )
      | some x ↦ (record m' { connection_closed = update m.connection_closed h true }, some x)
    ])

  unfoldable pub disconnect : String → CloseReason → Manager M → Go (Manager M × Bool)
  disconnect id reason m = do
    (r, found) ← Registry.remove id reason m.registry
    ok (record m { registry = r }, not (is_none found))

  unfoldable pub disconnect_if : (String → Option CloseReason) → Manager M → Go (Manager M × ℕ)
  disconnect_if f m = do
    (r, n) ← Registry.remove_if (λ d. f d.id) m.registry
    ok (record m { registry = r }, n)

  unfoldable pub disconnect_all : CloseReason → Manager M → Go (Manager M × ℕ)
  disconnect_all reason m = do
    (r, n) ← Registry.remove_all reason m.registry
    ok (record m { registry = r }, n)

-- device/errors.go
unfoldable pub error_text : Transactions.Error → GoError
error_text Transactions.invalid_transaction_key = "Transaction keys must be non-empty strings"
error_text Transactions.no_such_transaction_key = "That transaction key is not registered"
error_text Transactions.transactions_already_closed = "That Transactions is already closed"
error_text Transactions.transactions_closed = "Transactions are closed for that device"
error_text Transactions.transaction_already_registered = "That transaction is already registered"

-- The type and the error of the event for a message that is part of a transaction.
unfoldable pub completion : Option Transactions.Error → EventType × Option GoError
unfolding error_text
completion none = (transaction_complete, none)
completion (some e) = (transaction_broken, some (error_text e))

module _ (wrp : Wrp) where
  open wrp use {
    Message, destination, source, content_type, set_content_type, set_partner_ids, set_session_id,
    is_simple_event, is_request_response, transaction_key, is_transaction_part, msgpack, decode,
    encode,
  }

  -- The message as it is passed on: `addDeviceMetadataContext` and the default content type.
  add_metadata : Claims → Message → Message
  add_metadata c message =
      let m1 = set_partner_ids (c.partner_id ∷ []) message in
      if is_simple_event m1 then set_session_id c.session_id m1 else m1

  unfoldable pub passed_on : Claims → Message → Message
  unfolding add_metadata
  passed_on c message = add_metadata c (
      if is_blank (content_type message)
      then set_content_type "application/octet-stream" message
      else message)

  -- The event for a message that has come from a device.
  unfoldable pub arrival : ℕ → Message → List ℕ → EventType × Option GoError → Event Message
  arrival h message contents (type, error) = record {
    type = type;
    device = h;
    request = record { message = some message; format = msgpack; contents = contents };
    error = error;
  }

  -- The last part of a round of the read pump: the waiting transaction, and the event.
  finish_read : ℕ → Message → List ℕ → Manager Message → Go (Manager Message)
  finish_read h message contents m =
      if is_transaction_part message
      then (do
        (t, e) ←
            complete (transaction_key message)
              (some
                (record { device = h; message = message; format = msgpack; contents = contents }))
              (m.registry.heap h).transactions
        ok (
            dispatch (arrival h message contents (completion e))
              (set_device h (record (m.registry.heap h) { transactions = t }) m)))
      else ok (dispatch (arrival h message contents (message_received, none)) m)

  -- One frame that the read pump has read. A frame that is skipped changes nothing but the counter.
  unfoldable pub read_frame : ℕ → Bool → List ℕ → Manager Message → Go (Manager Message)
  unfolding finish_read
  read_frame h is_binary contents m = if not is_binary then ok m else elim (decode contents) [
    | err _ ↦ ok m
    | ok message ↦
        let (valid, reason) = source_is_valid m.enforce (m.registry.heap h).id (source message) in
        let m1 = record m { source_checks = m.source_checks ++ (valid, reason) ∷ [] } in
        if not valid
        then ok m1
        else (let message' = passed_on (m.claims h) message in
            let m2 = record m1 {
              request_responses =
                  if is_request_response message'
                  then suc m1.request_responses
                  else m1.request_responses;
            } in
            elim (encode message') [
              | err _ ↦ ok m2
              | ok contents' ↦ finish_read h message' contents' m2
            ])
  ]

  destination_id : Option Message → Outcome GoError String
  destination_id none = ok ""
  destination_id (some message) = elim (parse_id (destination message)) [
    | err _ ↦ err "Invalid device name"
    | ok id ↦ ok id
  ]

  -- `Route`: the address of the device that the request is sent to.
  unfoldable pub route : Request Message → Manager Message → Outcome GoError ℕ
  unfolding destination_id
  route request m = do
    id ← destination_id request.message
    elim (Registry.get id m.registry) [ none ↦ err "The device does not exist" | some h ↦ ok h ]
