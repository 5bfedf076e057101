-- ===== src/Device/WritePump/Events.antt =====
-- What the sender and the listeners of device/manager.go learn of a message that is written.
use mathlib.Core.List.{append-nil, append_assoc}
use webpa_common.Base.{
  sym, ℕ, ◌≡◌, refl, ap, true, false, Option, none, some, List, [], ◌∷◌, ◌++◌, map, ok, arith,
  update, lookup, lookup-delete, string_key, Option-cases, inl, inr, receive, element, zero_value,
  fresh_chan, send, close_chan, String,
}
use webpa_common.Device.Endpoint.{GoError, CloseReason, Envelope}
use webpa_common.Device.Endpoint.Closing.{messages-shut}
use webpa_common.Device.Registry.{Registry, drop_id}
use webpa_common.Device.Registry.Sound.{IsSound, Keyed-SameIds, shut_at}
use webpa_common.Device.Registry.Steps.{removed, dropped, remove_lem}
use webpa_common.Device.Manager.{
  Manager, Event, dispatch, set_device, pump_close, disconnected, message_sent, no_request,
}
use webpa_common.Device.WritePump.{
  Input, deliver, pump, round, clean_up, write_result, deliver_first, notify, failed_event, drain,
  last_failed, take_messages, outcome_event,
}
use webpa_common.Device.Wrp.{Wrp}

module _ {M : Type 0} where
  messages-removed :
      (h : ℕ) (id : String) (reason : CloseReason) (w : Registry M)
      → ((removed id reason w).0.heap h).messages ≡ (w.heap h).messages
  unfolding removed dropped shut_at drop_id
  messages-removed h id reason w = ground (arith, messages-shut reason (w.heap h))

  unmapped :
      (id : String) (reason : CloseReason) (w : Registry M)
      → lookup id (removed id reason w).0.data_map ≡ none
  unfolding removed dropped shut_at drop_id
  unmapped id reason w = elim (Option-cases (lookup id w.data_map)) [
    | inl e ↦ ground (arith, e)
    | inr (g, e) ↦ ground (arith, e, lookup-delete id id w.data_map)
  ]

  -- A registry stays sound when the queue of a device changes.
  queue-IsSound :
      (h : ℕ) (vs : List (Envelope M)) (w : Registry M)
      → IsSound w
      → IsSound (record w { heap = update w.heap h (record (w.heap h) { messages = vs }) })
  queue-IsSound h vs w s = record {
    devices = λ g. ground (arith, s.devices g);
    unique = s.unique;
    keyed =
        Keyed-SameIds w.heap (update w.heap h (record (w.heap h) { messages = vs })) w.data_map
          (λ q. ground arith) s.keyed;
    counted = s.counted;
  }

  -- The event for the device, when its connection goes.
  abbrev pub disconnected_event : ℕ → Event M
  disconnected_event h = record {
    type = disconnected;
    device = h;
    request = no_request;
    error = none;
  }

  -- The manager with the device of a pump removed.
  pump_closed : ℕ → CloseReason → Manager M → Manager M
  pump_closed h reason m = dispatch (disconnected_event h) (record m {
    registry = (removed (m.registry.heap h).id reason m.registry).0;
    close_once = update m.close_once h true;
    connection_closed = update m.connection_closed h true;
  })

  pump_close_lem :
      (h : ℕ) (reason : CloseReason) (m : Manager M)
      → IsSound m.registry
      → m.close_once h ≡ false
      → pump_close h reason m ≡ ok (pump_closed h reason m)
  unfolding pump_close pump_closed
  pump_close_lem h reason m s o =
      rw (o, pump_close) (rw (remove_lem (m.registry.heap h).id reason m.registry s) refl)

  drain_lem :
      (h : ℕ) (e : Option GoError) (vs : List (Envelope M)) (m : Manager M)
      → drain h e vs m ≡ record m { events = m.events ++ map (failed_event h e) vs }
  unfolding drain dispatch
  drain_lem h e [] m = ap (λ es. record m { events = es }) (sym (append-nil m.events))
  drain_lem h e (v ∷ vs) m =
      rw (drain_lem h e vs (dispatch (failed_event h e v) m), drain)
        (ap (λ es. record m { events = es })
          (append_assoc m.events (failed_event h e v ∷ []) (map (failed_event h e) vs)))

  -- The manager after the deferred function, with these messages in the queue.
  cleaned : ℕ → Option GoError → Envelope M → List (Envelope M) → Manager M → Manager M
  cleaned h e v vs m =
      let m1 =
        dispatch (failed_event h e v)
          (pump_closed h (record { err = e; text = "write-error" }) m) in
      record (take_messages h m1) { events = m1.events ++ map (failed_event h e) vs }

  clean_up_lem :
      (h : ℕ) (e : Option GoError) (v : Envelope M) (vs : List (Envelope M)) (m : Manager M)
      → IsSound m.registry
      → m.close_once h ≡ false
      → (m.registry.heap h).messages ≡ vs
      → clean_up h (record { envelope = some v; write_error = e; returned = false }) m
        ≡ ok (cleaned h e v vs m)
  unfolding clean_up last_failed cleaned pump_closed dispatch take_messages set_device
  clean_up_lem h e v vs m s o q =
      let reason : CloseReason = record { err = e; text = "write-error" } in
      rw (pump_close_lem h reason m s o, clean_up)
        (rw (messages-removed h (m.registry.heap h).id reason m.registry) (
          rw q (
            ap (λ x. ok x)
              (drain_lem h e vs
                (take_messages h (dispatch (failed_event h e v) (pump_closed h reason m)))))))

module _ (wrp : Wrp) where
  open wrp use {Message}

  -- The manager after an envelope is taken, and the channel of its sender is notified.
  notified :
      Option GoError
      → ℕ
      → Envelope Message
      → List (Envelope Message)
      → Manager Message
      → Manager Message
  notified e h v vs m = record m {
    registry = record m.registry {
      heap = update m.registry.heap h (record (m.registry.heap h) { messages = vs });
    };
    completes = update m.completes v.complete (record { buffer = e; is_closed = true });
    events = m.events ++ outcome_event h v.request e ∷ [];
  }

  deliver_lem :
      (h : ℕ) (r e : Option GoError) (v : Envelope Message) (vs : List (Envelope Message))
      (m : Manager Message)
      → (m.registry.heap h).messages ≡ v ∷ vs
      → write_result wrp v.request r ≡ e
      → m.completes v.complete ≡ fresh_chan
      → round wrp h (deliver r) m
        ≡ ok (notified e h v vs m, record { envelope = some v; write_error = e; returned = false })
  unfolding round deliver_first notify notified set_device dispatch send close_chan
  deliver_lem h r none v vs m q we fr =
      rw (q, round) (rw (we, deliver_first) (rw (fr, notify) refl))
  deliver_lem h r (some e) v vs m q we fr =
      rw (q, round) (rw (we, deliver_first) (rw (fr, notify) refl))

  -- The first message of the queue is written without an error, and nothing has come on the channel
  -- of its sender. Then that channel is closed with no error in it, the rest of the queue stays in
  -- its order, listeners hear that the message was sent, and the pump goes on.
  pub delivered :
      (h : ℕ) (r : Option GoError) (v : Envelope Message) (vs : List (Envelope Message))
      (is : List Input) (m : Manager Message)
      → (m.registry.heap h).messages ≡ v ∷ vs
      → write_result wrp v.request r ≡ none
      → m.completes v.complete ≡ fresh_chan
      → (m' : Manager Message) × (pump wrp h (deliver r ∷ is) m ≡ pump wrp h is m')
        × (receive (m'.completes v.complete) ≡ zero_value)
        × ((m'.registry.heap h).messages ≡ vs)
        × (m'.events
            ≡ m.events
              ++ record { type = message_sent; device = h; request = v.request; error = none } ∷ [])
  unfolding pump notified receive outcome_event
  delivered h r v vs is m q we fr = (
    notified none h v vs m,
    rw (deliver_lem h r none v vs m q we fr, pump) refl,
    ground arith,
    ground arith,
    refl,
  )

  -- In a sound registry, writing the first message of the queue fails, the pumps have not ended,
  -- and nothing has come on the channel of its sender. Then the sender gets the error and the pump
  -- ends: the id of the device is no longer in the registry, its connection is closed, and its queue
  -- is empty. Listeners hear of the failure, of the
  -- disconnection, of the same failure again, and of each message left in the queue with the error
  -- of that write.
  pub failed_twice :
      (h : ℕ) (r : Option GoError) (e : GoError) (v : Envelope Message)
      (vs : List (Envelope Message)) (is : List Input) (m : Manager Message)
      → IsSound m.registry
      → m.close_once h ≡ false
      → (m.registry.heap h).messages ≡ v ∷ vs
      → write_result wrp v.request r ≡ some e
      → m.completes v.complete ≡ fresh_chan
      → (m' : Manager Message) × (pump wrp h (deliver r ∷ is) m ≡ ok m')
        × (receive (m'.completes v.complete) ≡ element e)
        × (lookup (m.registry.heap h).id m'.registry.data_map ≡ none)
        × (m'.connection_closed h ≡ true)
        × ((m'.registry.heap h).messages ≡ [])
        × (m'.events
            ≡ m.events
              ++ (failed_event h (some e) v
                  ∷ disconnected_event h
                  ∷ failed_event h (some e) v
                  ∷ map (failed_event h (some e)) vs))
  unfolding pump notified receive outcome_event cleaned pump_closed take_messages set_device
      dispatch failed_event
  failed_twice h r e v vs is m s o q we fr =
      let m1 = notified (some e) h v vs m in
      (
        cleaned h (some e) v vs m1,
        rw (deliver_lem h r (some e) v vs m q we fr, pump)
            (clean_up_lem h (some e) v vs m1 (queue-IsSound h vs m.registry s) o (ground arith)),
        ground arith,
        ground (
          arith,
          unmapped (m.registry.heap h).id (record { err = some e; text = "write-error" })
              m1.registry,
        ),
        ground arith,
        ground arith,
        simp append_assoc,
      )
