-- ===== src/Device/Sending/Cleanup.antt =====
-- What a call of `Send` leaves in the transactions of device/device.go.
use webpa_common.Base.{
  ℕ, ◌≡◌, ◌⊎◌, inl, inr, refl, Bool, true, false, if◌then◌else◌, ltb, Option, none, some, String,
  string_key, lookup, Outcome, ok, err, Go, Received, receive, element, zero_value, waits, length,
  arith, subst, ◌++◌, ◌∷◌, [],
}
use webpa_common.Device.Transactions.Invariant.{IsSound}
use webpa_common.Device.Transactions.Delivery.{
  cancelled, cancel_lem, cancelled-IsSound, lookup-cancelled,
}
use webpa_common.Device.Endpoint.{GoError, Request, Response}
use webpa_common.Device.Sending.{
  Line, Stage, started, enqueuing, enqueued, awaiting, returned, Choice, context_done, shut_down,
  proceed, finish, interrupted, on_shutdown, enqueue, after_sent, on_complete, on_response,
  send_step, device_closed, transaction_cancelled,
}
use webpa_common.Device.Wrp.{Wrp}

abbrev key_of : Option (String × ℕ) → Option String
key_of none = none
key_of (some (key, _)) = some key

either {ℓ κ} :
    {A : Type ℓ} (P : A → Type κ) (b : Bool) (x y : A) → P x → P y → P (if b then x else y)
either P true x y p q = p
either P false x y p q = q

received {ℓ κ} :
    {A B : Type ℓ} (P : B → Type κ) (r : Received A) (f : A → B) (x y : B)
    → ((a : A) → P (f a))
    → P x
    → P y
    → P (elim r [ element a ↦ f a | zero_value ↦ x | waits ↦ y ])
received P (element a) f x y p q z = p a
received P zero_value f x y p q z = q
received P waits f x y p q z = z

module _ {M : Type 0} where
  -- The key that a call has registered and not yet given up.
  abbrev pub held_key : Stage M → Option String
  held_key started = none
  held_key (enqueuing res) = elim res [ none ↦ none | some (key, _) ↦ some key ]
  held_key (enqueued res) = elim res [ none ↦ none | some (key, _) ↦ some key ]
  held_key (awaiting key _) = some key
  held_key (returned _) = none

  -- A step that ends, in a sound state, where the key is still held or no longer pending.
  pub Tidy : Option String → Go (Line M × Stage M) → Type 0
  Tidy held step =
      (s : Line M) × (stage : Stage M) × (step ≡ ok (s, stage))
      × IsSound s.device.transactions
      × ((held_key stage ≡ held)
          ⊎ ((key : String) × (held ≡ some key)
              × (lookup key s.device.transactions.pending ≡ none)))

  still :
      (s : Line M) (stage : Stage M)
      → IsSound s.device.transactions
      → Tidy (held_key stage) (ok (s, stage))
  unfolding Tidy
  still s stage i = (s, stage, refl, i, inl refl)

  finish-Tidy :
      (res : Option (String × ℕ)) (r : Outcome GoError (Option (Response M))) (s : Line M)
      → IsSound s.device.transactions
      → Tidy (key_of res) (finish res r s)
  unfolding finish Tidy
  finish-Tidy none r s i = (s, returned r, refl, i, inl refl)
  finish-Tidy (some (key, h)) r s i = (
    record s { device = record s.device { transactions = cancelled key s.device.transactions } },
    returned r,
    rw (cancel_lem s.device.transactions i key) refl,
    cancelled-IsSound key s.device.transactions i,
    inr (key, refl, lookup-cancelled key s.device.transactions),
  )

  shutdown-Tidy :
      (res : Option (String × ℕ)) (stage : Stage M) (s : Line M)
      → held_key stage ≡ key_of res
      → IsSound s.device.transactions
      → Tidy (key_of res) (on_shutdown res stage s)
  unfolding on_shutdown
  shutdown-Tidy res stage s k i =
      either (Tidy (key_of res)) s.device.shutdown_closed (finish res (err device_closed) s)
        (ok (s, stage)) (finish-Tidy res (err device_closed) s i)
        (subst (λ o. Tidy o (ok (s, stage))) k (still s stage i))

  enqueue-Tidy :
      (key : String) (h : ℕ) (request : Request M) (c : ℕ) (s : Line M)
      → IsSound s.device.transactions
      → Tidy (some key) (enqueue (some (key, h)) request c s)
  unfolding enqueue
  enqueue-Tidy key h request c s i =
      let s' : Line M = record s {
        device = record s.device {
          messages = s.device.messages ++ record { request = request; complete = c } ∷ [];
        };
      } in
      either (Tidy (some key)) (ltb (length s.device.messages) s.device.queue_size)
        (ok (s', enqueued (some (key, h)))) (ok (s, enqueuing (some (key, h))))
        (still s' (enqueued (some (key, h))) i) (still s (enqueuing (some (key, h))) i)

  complete-Tidy :
      (key : String) (h c : ℕ) (s : Line M)
      → IsSound s.device.transactions
      → Tidy (some key) (on_complete (some (key, h)) c s)
  unfolding on_complete after_sent
  complete-Tidy key h c s i =
      received (Tidy (some key)) (receive (s.completes c)) (λ e. finish (some (key, h)) (err e) s)
        (ok (s, awaiting key h)) (ok (s, enqueued (some (key, h))))
        (λ e. finish-Tidy (some (key, h)) (err e) s i) (still s (awaiting key h) i)
        (still s (enqueued (some (key, h))) i)

  response-Tidy :
      (key : String) (h : ℕ) (s : Line M)
      → IsSound s.device.transactions
      → Tidy (some key) (on_response key h s)
  unfolding on_response
  response-Tidy key h s i =
      received (Tidy (some key)) (receive (s.device.transactions.channels h))
        (λ r. finish (some (key, h)) (ok (some r)) s)
        (finish (some (key, h)) (err transaction_cancelled) s) (ok (s, awaiting key h))
        (λ r. finish-Tidy (some (key, h)) (ok (some r)) s i)
        (finish-Tidy (some (key, h)) (err transaction_cancelled) s i) (still s (awaiting key h) i)

module _ (wrp : Wrp) where
  open wrp use {Message}

  -- In sound transactions, a call of `Send` that has registered a key does not leak it: whatever
  -- its next step meets, that step ends without a fault and keeps the transactions sound, and
  -- either the call still holds the key, or the key is no longer pending.
  pub send_step-Tidy :
      (request : Request Message) (c : ℕ) (choice : Choice) (stage : Stage Message)
      (s : Line Message) (key : String)
      → IsSound s.device.transactions
      → held_key stage ≡ some key
      → Tidy (some key) (send_step wrp request c choice stage s)
  unfolding send_step interrupted
  send_step-Tidy request c choice started s key i k = absurd (grind (arith, k))
  send_step-Tidy request c choice (enqueuing none) s key i k = absurd (grind (arith, k))
  send_step-Tidy request c choice (enqueued none) s key i k = absurd (grind (arith, k))
  send_step-Tidy request c choice (returned r) s key i k = absurd (grind (arith, k))
  send_step-Tidy request c (context_done e) (enqueuing (some (j, h))) s key i k =
      subst (λ o. Tidy o (send_step wrp request c (context_done e) (enqueuing (some (j, h))) s)) k
        (finish-Tidy (some (j, h)) (err e) s i)
  send_step-Tidy request c shut_down (enqueuing (some (j, h))) s key i k =
      subst (λ o. Tidy o (send_step wrp request c shut_down (enqueuing (some (j, h))) s)) k
        (shutdown-Tidy (some (j, h)) (enqueuing (some (j, h))) s refl i)
  send_step-Tidy request c proceed (enqueuing (some (j, h))) s key i k =
      subst (λ o. Tidy o (send_step wrp request c proceed (enqueuing (some (j, h))) s)) k
        (enqueue-Tidy j h request c s i)
  send_step-Tidy request c (context_done e) (enqueued (some (j, h))) s key i k =
      subst (λ o. Tidy o (send_step wrp request c (context_done e) (enqueued (some (j, h))) s)) k
        (finish-Tidy (some (j, h)) (err e) s i)
  send_step-Tidy request c shut_down (enqueued (some (j, h))) s key i k =
      subst (λ o. Tidy o (send_step wrp request c shut_down (enqueued (some (j, h))) s)) k
        (shutdown-Tidy (some (j, h)) (enqueued (some (j, h))) s refl i)
  send_step-Tidy request c proceed (enqueued (some (j, h))) s key i k =
      subst (λ o. Tidy o (send_step wrp request c proceed (enqueued (some (j, h))) s)) k
        (complete-Tidy j h c s i)
  send_step-Tidy request c (context_done e) (awaiting j h) s key i k =
      subst (λ o. Tidy o (send_step wrp request c (context_done e) (awaiting j h) s)) k
        (finish-Tidy (some (j, h)) (err e) s i)
  send_step-Tidy request c shut_down (awaiting j h) s key i k =
      subst (λ o. Tidy o (send_step wrp request c shut_down (awaiting j h) s)) k
        (shutdown-Tidy (some (j, h)) (awaiting j h) s refl i)
  send_step-Tidy request c proceed (awaiting j h) s key i k =
      subst (λ o. Tidy o (send_step wrp request c proceed (awaiting j h) s)) k
        (response-Tidy j h s i)
