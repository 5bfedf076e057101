-- ===== src/Device/Manager/Reading.antt =====
-- What the read pump of device/manager.go does with a frame.
use webpa_common.Base.{
  ℕ, ◌≡◌, ◌≢◌, true, false, List, [], ◌∷◌, ◌++◌, ok, Bool-cases, inl, inr, string_key,
}
use webpa_common.Device.Id.{parse_id}
use webpa_common.Device.Transactions.Delivery
use webpa_common.Device.Manager.{Manager, source_is_valid, read_frame, passed_on}
use webpa_common.Device.Manager.Source.{source_is_valid_lem}
use webpa_common.Device.Wrp.{Wrp}

module _ (wrp : Wrp) where
  open wrp use {
    Message, source, decode, encode, transaction_key, is_transaction_part, msgpack,
    is_request_response,
  }

  -- Under enforcement a message whose source does not parse to the id of the device goes nowhere:
  -- no transaction is completed and no listener hears of it. All that changes is the counter of
  -- source checks.
  pub spoof_dropped :
      (h : ℕ) (contents : List ℕ) (message : Message) (m : Manager Message)
      → m.enforce ≡ true
      → decode contents ≡ ok message
      → parse_id (source message) ≢ ok (m.registry.heap h).id
      → read_frame wrp h true contents m
        ≡ ok (record m {
          source_checks =
              m.source_checks
              ++ (false, (source_is_valid true (m.registry.heap h).id (source message)).1) ∷ [];
        })
  unfolding read_frame
  spoof_dropped h contents message m en de ne =
      let check = source_is_valid_lem (m.registry.heap h).id (source message) in
      elim (Bool-cases (source_is_valid true (m.registry.heap h).id (source message)).0) [
        | inl v ↦ absurd (ne ((check.0).0 v))
        | inr v ↦ rw (de, read_frame) (rw en (rw v))
      ]

  -- The message that a device's frame carries, as everyone else gets it.
  module _ (h : ℕ) (contents contents' : List ℕ) (message : Message) (m : Manager Message) where
    abbrev pub stamped : Message
    stamped = passed_on wrp (m.claims h) message
