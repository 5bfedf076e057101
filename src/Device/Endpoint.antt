-- ===== src/Device/Endpoint.antt =====
-- device/device.go: one connected device. `M` is the type of WRP messages, which another
-- repository defines. Errors are told apart by their texts.
pub mod Closing
use webpa_common.Base.{
  ℕ, Bool, true, false, if◌then◌else◌, Option, none, some, List, [], String, String_discrete, ite,
  Outcome, ok, err, Go, panic, ◌>>=◌, leb,
}
use webpa_common.Device.Transactions
use webpa_common.Device.Transactions.{Transactions, new_transactions}

abbrev pub GoError : Type 0
GoError = String

-- device/device.go and its callers: why a device was closed.
pub record CloseReason : Type 0 where
  pub err : Option GoError
  pub text : String

-- device/transactions.go. No message stands for a nil one and for one that is not routable.
pub record Request (M : Type 0) : Type 0 where
  pub message : Option M
  pub format : ℕ
  pub contents : List ℕ

pub record Response (M : Type 0) : Type 0 where
  pub device : ℕ
  pub message : M
  pub format : ℕ
  pub contents : List ℕ

-- A request with the address of the channel on which its sender waits.
pub record Envelope (M : Type 0) : Type 0 where
  pub request : Request M
  pub complete : ℕ

pub record Device (M : Type 0) : Type 0 where
  pub id : String
  pub duplications : ℕ
  pub is_open : Bool
  pub shutdown_closed : Bool
  pub messages : List (Envelope M)
  pub queue_size : ℕ
  pub transactions : Transactions (Response M)
  pub close_reason : Option CloseReason

abbrev pub default_device_message_queue_size : ℕ
default_device_message_queue_size = 100

with_text : CloseReason → CloseReason
with_text r = ite (String_discrete r.text "") (record r { text = "unknown" }) r

module _ {M : Type 0} where
  unfoldable pub new_device : String → ℕ → Device M
  unfolding new_transactions
  new_device id queue_size = record {
    id = id;
    duplications = 0;
    is_open = true;
    shutdown_closed = false;
    messages = [];
    queue_size = if leb 1 queue_size then queue_size else default_device_message_queue_size;
    transactions = new_transactions;
    close_reason = none;
  }

  -- `close(d.shutdown)`
  close_shutdown : Device M → Go (Device M)
  close_shutdown d =
      if d.shutdown_closed then err panic else ok (record d { shutdown_closed = true })

  -- The winner of the compare-and-swap closes; everyone else finds it done.
  unfoldable pub request_close : CloseReason → Device M → Go (Device M)
  unfolding close_shutdown with_text
  request_close reason d =
      if d.is_open
      then (do
        d' ← close_shutdown (record d { is_open = false })
        (t, _) ← Transactions.close d'.transactions
        ok (record d' { transactions = t; close_reason = some (with_text reason) }))
      else ok d

  unfoldable pub closed : Device M → Bool
  closed d = if d.is_open then false else true

  -- `CloseReason()`: the zero value while the device is open.
  unfoldable pub reason_of : Device M → CloseReason
  reason_of d = elim d.close_reason [ some r ↦ r | none ↦ record { err = none; text = "" } ]
