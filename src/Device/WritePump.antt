-- ===== src/Device/WritePump.antt =====
-- `writePump` of device/manager.go, the goroutine that sends a device's messages. The cases that
-- its `select` takes are a list of inputs, each with the result of the call that it leads to.
pub mod Events
use webpa_common.Base.{
  ℕ, suc, ◌+◌, ◌≡◌, Bool, true, false, ◌&&◌, ◌||◌, if◌then◌else◌, ltb, ◌==◌, Option, none, some,
  List, [], ◌∷◌, ◌++◌, ok, err, Go, ◌>>=◌, send, close_chan, update, is_none, length, Outcome,
}
use webpa_common.Device.Endpoint.{GoError, Device, CloseReason, Request, Envelope}
use webpa_common.Device.Manager.{
  Manager, Event, EventType, message_sent, message_failed, dispatch, set_device, pump_close,
}
use webpa_common.Device.Wrp.{Wrp}

-- What the write pump's `select` meets, with the result of the call that it leads to.
pub data Input : Type 0 where
  shutdown : Option GoError → Input
  deliver : Option GoError → Input
  ping : Option GoError → Input

-- How the loop stands: the last envelope, the write error, and whether it has returned.
pub record Writing (M : Type 0) : Type 0 where
  pub envelope : Option (Envelope M)
  pub write_error : Option GoError
  pub returned : Bool

module _ {M : Type 0} where
  outcome_event : ℕ → Request M → Option GoError → Event M
  outcome_event h request e = record {
    type = if is_none e then message_sent else message_failed;
    device = h;
    request = request;
    error = e;
  }

  -- `envelope.complete <- writeError` on failure, and `close(envelope.complete)`
  notify : Option GoError → ℕ → Manager M → Go (Manager M)
  notify none c m = do
    done ← close_chan (m.completes c)
    ok (record m { completes = update m.completes c done })
  notify (some e) c m = do
    full ← send e (m.completes c)
    done ← close_chan full
    ok (record m { completes = update m.completes c done })

  -- The event for a message that is given up.
  unfoldable pub failed_event : ℕ → Option GoError → Envelope M → Event M
  failed_event h e v = record { type = message_failed; device = h; request = v.request; error = e }

  -- The messages that wait at the end.
  drain : ℕ → Option GoError → List (Envelope M) → Manager M → Manager M
  unfolding failed_event
  drain h e [] m = m
  drain h e (v ∷ vs) m = drain h e vs (dispatch (failed_event h e v) m)

  last_failed : ℕ → Option GoError → Option (Envelope M) → Manager M → Manager M
  last_failed h e none m = m
  last_failed h e (some v) m = dispatch (failed_event h e v) m

  take_messages : ℕ → Manager M → Manager M
  take_messages h m = set_device h (record (m.registry.heap h) { messages = [] }) m

  -- The deferred function.
  unfoldable pub clean_up : ℕ → Writing M → Manager M → Go (Manager M)
  unfolding drain last_failed take_messages
  clean_up h w m = do
    m1 ← pump_close h (record { err = w.write_error; text = "write-error" }) m
    let m2 = last_failed h w.write_error w.envelope m1
    ok (drain h w.write_error (m2.registry.heap h).messages (take_messages h m2))

module _ (wrp : Wrp) where
  open wrp use {Message, msgpack, encode, encode_nil}

  -- The error of the encoding, if one is needed, or else that of the write.
  unfoldable pub write_result : Request Message → Option GoError → Option GoError
  write_result r e =
      if r.format == msgpack && ltb 0 (length r.contents) then e else elim r.message [
        | none ↦ elim encode_nil [ err x ↦ some x | ok _ ↦ e ]
        | some message ↦ elim (encode message) [ err x ↦ some x | ok _ ↦ e ]
      ]

  -- The case of a message. It waits while the queue is empty.
  deliver_first :
      ℕ
      → Option GoError
      → List (Envelope Message)
      → Manager Message
      → Go (Manager Message × Writing Message)
  unfolding notify outcome_event
  deliver_first h e [] m = ok (m, record { envelope = none; write_error = none; returned = false })
  deliver_first h e (v ∷ vs) m = do
    let result = write_result v.request e
    let m1 = set_device h (record (m.registry.heap h) { messages = vs }) m
    m2 ← notify result v.complete m1
    ok (
      dispatch (outcome_event h v.request result) m2,
      record { envelope = some v; write_error = result; returned = false },
    )

  -- One round of the loop. The case of the shutdown waits until a shutdown is asked for.
  unfoldable pub round : ℕ → Input → Manager Message → Go (Manager Message × Writing Message)
  unfolding deliver_first write_result
  round h (shutdown e) m =
      if (m.registry.heap h).shutdown_closed
      then ok (m, record { envelope = none; write_error = e; returned = true })
      else ok (m, record { envelope = none; write_error = none; returned = false })
  round h (deliver e) m = deliver_first h e (m.registry.heap h).messages m
  round h (ping e) m = ok (m, record { envelope = none; write_error = e; returned = false })

  -- The pump, until it returns or the inputs end.
  unfoldable pub pump : ℕ → List Input → Manager Message → Go (Manager Message)
  unfolding round clean_up
  pump h [] m = ok m
  pump h (i ∷ is) m = do
    (m', w) ← round h i m
    let rest = pump h is m'
    if w.returned || (if is_none w.write_error then false else true) then clean_up h w m' else rest
