-- ===== src/Device/Sending.antt =====
-- `Send` of device/device.go, in the steps between which the pumps and other senders run: the
-- start, and the three places where it waits. The case that a `select` takes is an argument of the
-- step; a case that is not ready leaves everything as it is. No one else reads the two channels
-- that a call receives from, so a receive leaves them as they are.
pub mod Cleanup
use webpa_common.Base.{
  ℕ, Bool, true, false, if◌then◌else◌, ltb, Option, none, some, List, [], ◌∷◌, ◌++◌, String,
  Outcome, ok, err, Go, ◌>>=◌, Chan, receive, element, zero_value, waits, length,
}
use webpa_common.Device.Transactions.{cancel, register}
use webpa_common.Device.Endpoint.{Device, GoError, Request, Response, closed}
use webpa_common.Device.Manager.{error_text}
use webpa_common.Device.Wrp.{Wrp}

abbrev pub device_closed : GoError
device_closed = "That device has been closed"

abbrev pub transaction_cancelled : GoError
transaction_cancelled = "The transaction has been cancelled"

-- The device, and the channels on which the write pump reports.
pub record Line (M : Type 0) : Type 0 where
  pub device : Device M
  pub completes : ℕ → Chan GoError

-- How far a call has come, with the key and the channel of its transaction, if there is one.
pub data Stage (M : Type 0) : Type 0 where
  started : Stage M
  enqueuing enqueued : Option (String × ℕ) → Stage M
  awaiting : String → ℕ → Stage M
  returned : Outcome GoError (Option (Response M)) → Stage M

pub data Choice : Type 0 where
  context_done : GoError → Choice
  shut_down proceed : Choice

module _ {M : Type 0} where
  -- The call returns: its transaction is cancelled by the deferred call.
  unfoldable pub finish :
      Option (String × ℕ) → Outcome GoError (Option (Response M)) → Line M → Go (Line M × Stage M)
  finish none r s = ok (s, returned r)
  finish (some (key, h)) r s = do
    t ← cancel key s.device.transactions
    ok (record s { device = record s.device { transactions = t } }, returned r)

  -- The registration of the key, if the request is part of a transaction.
  unfoldable pub begin : Option String → Line M → Go (Line M × Stage M)
  unfolding error_text
  begin none s = ok (s, enqueuing none)
  begin (some key) s =
      let (t, r) = register key s.device.transactions in
      elim r [
        | err e ↦ ok (s, returned (err (error_text e)))
        | ok h ↦
            ok (
              record s { device = record s.device { transactions = t } },
              enqueuing (some (key, h)),
            )
      ]

  -- The cases that each `select` has.
  unfoldable pub interrupted : Option (String × ℕ) → GoError → Line M → Go (Line M × Stage M)
  unfolding finish
  interrupted res e s = finish res (err e) s

  unfoldable pub on_shutdown : Option (String × ℕ) → Stage M → Line M → Go (Line M × Stage M)
  unfolding finish
  on_shutdown res stage s =
      if s.device.shutdown_closed then finish res (err device_closed) s else ok (s, stage)

  -- `d.messages <- envelope`
  unfoldable pub enqueue : Option (String × ℕ) → Request M → ℕ → Line M → Go (Line M × Stage M)
  enqueue res request c s =
      if ltb (length s.device.messages) s.device.queue_size
      then ok (
        record s {
          device = record s.device {
            messages = s.device.messages ++ record { request = request; complete = c } ∷ [];
          };
        },
        enqueued res,
      )
      else ok (s, enqueuing res)

  -- What follows a nil error of the write pump.
  unfoldable pub after_sent : Option (String × ℕ) → Line M → Go (Line M × Stage M)
  unfolding finish
  after_sent none s = finish none (ok none) s
  after_sent (some (key, h)) s = ok (s, awaiting key h)

  -- `err := <-complete`
  unfoldable pub on_complete : Option (String × ℕ) → ℕ → Line M → Go (Line M × Stage M)
  unfolding finish after_sent
  on_complete res c s = elim (receive (s.completes c)) [
    | element e ↦ finish res (err e) s
    | zero_value ↦ after_sent res s
    | waits ↦ ok (s, enqueued res)
  ]

  -- `response := <-result`
  unfoldable pub on_response : String → ℕ → Line M → Go (Line M × Stage M)
  unfolding finish
  on_response key h s = elim (receive (s.device.transactions.channels h)) [
    | element r ↦ finish (some (key, h)) (ok (some r)) s
    | zero_value ↦ finish (some (key, h)) (err transaction_cancelled) s
    | waits ↦ ok (s, awaiting key h)
  ]

module _ (wrp : Wrp) where
  open wrp use {Message, transaction_key, is_transaction_part}

  -- `Transactional`: the key, if the request is part of a transaction.
  unfoldable pub transactional : Request Message → Option String
  transactional request = elim request.message [
    | none ↦ none
    | some m ↦ if is_transaction_part m then some (transaction_key m) else none
  ]

  -- One step of `Send`, with the address of the channel that it makes for the write pump.
  unfoldable pub send_step :
      Request Message
      → ℕ
      → Choice
      → Stage Message
      → Line Message
      → Go (Line Message × Stage Message)
  unfolding begin interrupted on_shutdown enqueue on_complete on_response transactional
  send_step request c choice started s =
      if closed s.device
      then ok (s, returned (err device_closed))
      else begin (transactional request) s
  send_step request c (context_done e) (enqueuing res) s = interrupted res e s
  send_step request c shut_down (enqueuing res) s = on_shutdown res (enqueuing res) s
  send_step request c proceed (enqueuing res) s = enqueue res request c s
  send_step request c (context_done e) (enqueued res) s = interrupted res e s
  send_step request c shut_down (enqueued res) s = on_shutdown res (enqueued res) s
  send_step request c proceed (enqueued res) s = on_complete res c s
  send_step request c (context_done e) (awaiting key h) s = interrupted (some (key, h)) e s
  send_step request c shut_down (awaiting key h) s = on_shutdown (some (key, h)) (awaiting key h) s
  send_step request c proceed (awaiting key h) s = on_response key h s
  send_step request c choice (returned r) s = ok (s, returned r)
