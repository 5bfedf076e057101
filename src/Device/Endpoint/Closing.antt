-- ===== src/Device/Endpoint/Closing.antt =====
-- Closing a device happens once, and takes its transactions with it.
use webpa_common.Base.{
  ℕ, ◌≡◌, refl, true, false, not, if◌then◌else◌, some, String, String_discrete, ite, lookup,
  string_key, ok, arith, receive, zero_value,
}
use webpa_common.Device.Transactions.Invariant
use webpa_common.Device.Transactions.Delivery
use webpa_common.Device.Transactions.Delivery.{swept}
use webpa_common.Device.Endpoint.{
  CloseReason, Device, new_device, request_close, with_text, closed, reason_of,
}

module _ {M : Type 0} where
  -- The shutdown channel and the transactions are closed exactly if the device is.
  pub record IsSound (d : Device M) : Type 0 where
    pub shutdown : d.shutdown_closed ≡ not d.is_open
    pub transactions_closed : d.transactions.closed ≡ not d.is_open
    pub transactions_sound : Invariant.IsSound d.transactions

  pub shut : CloseReason → Device M → Device M
  shut reason d =
      if d.is_open
      then record d {
        is_open = false;
        shutdown_closed = true;
        transactions = swept d.transactions;
        close_reason = some (with_text reason);
      }
      else d

  -- A new device is sound.
  pub new_device-IsSound : (id : String) (n : ℕ) → IsSound (new_device id n)
  unfolding new_device
  new_device-IsSound id n = record {
    shutdown = refl;
    transactions_closed = refl;
    transactions_sound = Delivery.new-IsSound;
  }

  -- Closing a sound device does not panic, whether it is open or closed.
  pub request_close_lem :
      (reason : CloseReason) (d : Device M)
      → IsSound d
      → request_close reason d ≡ ok (shut reason d)
  unfolding request_close shut
  request_close_lem reason d s =
      ground (arith, Delivery.close_lem d.transactions s.transactions_sound)

  pub shut-IsSound : (reason : CloseReason) (d : Device M) → IsSound d → IsSound (shut reason d)
  unfolding shut swept
  shut-IsSound reason d s = ground arith

  pub messages-shut : (reason : CloseReason) (d : Device M) → (shut reason d).messages ≡ d.messages
  unfolding shut
  messages-shut reason d = ground arith

  -- shut leaves the identity alone
  pub id-shut : (reason : CloseReason) (d : Device M) → (shut reason d).id ≡ d.id
  unfolding shut
  id-shut reason d = ground arith

  pub is_open-shut : (reason : CloseReason) (d : Device M) → (shut reason d).is_open ≡ false
  unfolding shut
  is_open-shut reason d = ground arith

  -- When two requests close a sound device that is open, the first reason stays, a missing
  -- text is replaced, and everyone who waits on a pending transaction is woken with nil.
  pub request_close_once :
      (first second : CloseReason) (d : Device M)
      → IsSound d
      → d.is_open ≡ true
      → (d' : Device M) × (request_close first d ≡ ok d')
        × (request_close second d' ≡ ok d')
        × (closed d' ≡ true)
        × (reason_of d'
            ≡ ite (String_discrete first.text "") (record first { text = "unknown" }) first)
        × ((key : String) (h : ℕ)
            → lookup key d.transactions.pending ≡ some h
            → receive (d'.transactions.channels h) ≡ zero_value)
  unfolding shut swept request_close closed reason_of receive
  request_close_once first second d s o = (
    shut first d,
    request_close_lem first d s,
    ground arith,
    ground arith,
    ground arith,
    (λ key h e. rw (o) (
        rw (
          Invariant.close_entries-lookup d.transactions.next key h d.transactions.pending
            d.transactions.channels s.transactions_sound.owned e))),
  )
