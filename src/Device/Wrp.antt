-- ===== src/Device/Wrp.antt =====
-- What package device uses of the WRP library, which is another repository: the messages, their
-- routing and transaction data, and the Msgpack codec, which also encodes a nil message.
use webpa_common.Base.{Bool, List, String, Outcome, ℕ}
use webpa_common.Device.Endpoint.{GoError}

pub record Wrp : Type 1 where
  pub Message : Type 0
  pub destination : Message → String
  pub source : Message → String
  pub content_type : Message → String
  pub set_content_type : String → Message → Message
  pub set_partner_ids : List String → Message → Message
  pub set_session_id : String → Message → Message
  pub is_simple_event : Message → Bool
  pub is_request_response : Message → Bool
  pub transaction_key : Message → String
  pub is_transaction_part : Message → Bool
  pub msgpack : ℕ
  pub decode : List ℕ → Outcome GoError Message
  pub encode : Message → Outcome GoError (List ℕ)
  pub encode_nil : Outcome GoError (List ℕ)
