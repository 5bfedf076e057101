-- ===== src/Device/Transactions/Delivery.antt =====
-- What the operations of device/transactions.go do to the channels that `Register` handed out.
use webpa_common.Base.{
  Bool-cases, ap, ℕ, ◌≡◌, ◌≢◌, refl, true, false, if◌then◌else◌, Option, none, some, List, [], ◌∷◌,
  String, lookup, delete, ok, err, Go, ◌>>=◌, Chan, send, close_chan, receive, element, zero_value,
  waits, update, string_key, String_discrete, ite, arith, inl, inr, ◌⊎◌, Bool, ◌||◌, panic,
  Option-cases, delete_absent, lookup-delete, lookup-insert,
}
use webpa_common.Device.Transactions.{
  Transactions, Error, invalid_transaction_key, no_such_transaction_key,
  transactions_already_closed, transactions_closed, new_transactions, complete, cancel, close,
  register, complete_with,
}
use webpa_common.Device.Transactions.Invariant.{
  IsSound, lookup-Owned, delete-Owned, update-Owned, insert-Owned, close_all_lem, close_entries,
  closed_chan, close_entries-lookup,
}

module _ {R : Type 0} where
  abbrev answered : R → Chan R
  answered r = record { buffer = some r; is_closed = true }

  -- The state without the key, whose channel has become `c`.
  abbrev settled : String → ℕ → Chan R → Transactions R → Transactions R
  settled key h c t = record t { pending = delete key t.pending; channels = update t.channels h c }

  pub completed : String → R → Transactions R → Transactions R × Option Error
  completed key r t =
      ite (String_discrete key "") (t, some invalid_transaction_key)
        (elim (lookup key t.pending) [
          | none ↦ (t, some no_such_transaction_key)
          | some h ↦ (settled key h (answered r) t, none)
        ])

  pub cancelled : String → Transactions R → Transactions R
  cancelled key t = elim (lookup key t.pending) [ none ↦ t | some h ↦ settled key h closed_chan t ]

  unfoldable pub swept : Transactions R → Transactions R
  swept t = record t { closed = true; pending = []; channels = close_entries t.pending t.channels }

  module _ (t : Transactions R) (s : IsSound t) where
    -- `Complete` on every branch.
    pub complete_lem : (key : String) (r : R) → complete key (some r) t ≡ ok (completed key r t)
    unfolding complete completed send close_chan
    complete_lem key r = elim (Option-cases (lookup key t.pending)) [
      | inl e ↦ ground (arith, delete_absent key t.pending e)
      | inr (h, e) ↦ ground (arith, lookup-Owned t.channels t.next key h t.pending s.owned e)
    ]

    pub cancel_lem : (key : String) → cancel key t ≡ ok (cancelled key t)
    unfolding cancel cancelled close_chan lookup delete
    cancel_lem key = elim (Option-cases (lookup key t.pending)) [
      | inl e ↦ ground (arith, delete_absent key t.pending e, s.cleared)
      | inr (h, e) ↦
          ground (arith, lookup-Owned t.channels t.next key h t.pending s.owned e, s.cleared)
    ]

    pub close_lem :
        close t ≡ ok (if t.closed then (t, some transactions_already_closed) else (swept t, none))
    unfolding close swept
    close_lem = ground (arith, close_all_lem t.pending (record t { closed = true }) refl s.owned)

  settled-IsSound :
      (key : String) (h : ℕ) (c : Chan R) (t : Transactions R)
      → lookup key t.pending ≡ some h
      → IsSound t
      → IsSound (settled key h c t)
  unfolding lookup
  settled-IsSound key h c t e s = record {
    owned =
        update-Owned t.channels t.next h c (delete key t.pending)
          (lookup-Owned t.channels t.next key h t.pending s.owned e).2
          (delete-Owned t.channels t.next key t.pending s.owned);
    cleared = λ x. cc (ap (lookup key) (s.cleared x));
  }

  completed-IsSound :
      (key : String) (r : R) (t : Transactions R) → IsSound t → IsSound (completed key r t).0
  unfolding completed
  completed-IsSound key r t s = elim (Option-cases (lookup key t.pending)) [
    | inl e ↦ ground arith
    | inr (h, e) ↦ ground (arith, settled-IsSound key h (answered r) t e s)
  ]

  pub cancelled-IsSound :
      (key : String) (t : Transactions R) → IsSound t → IsSound (cancelled key t)
  unfolding cancelled
  cancelled-IsSound key t s = elim (Option-cases (lookup key t.pending)) [
    | inl e ↦ ground arith
    | inr (h, e) ↦ ground (arith, settled-IsSound key h closed_chan t e s)
  ]

  pub lookup-cancelled :
      (key : String) (t : Transactions R) → lookup key (cancelled key t).pending ≡ none
  unfolding cancelled
  lookup-cancelled key t = elim (Option-cases (lookup key t.pending)) [
    | inl e ↦ ground arith
    | inr (h, e) ↦ ground (arith, lookup-delete key key t.pending)
  ]

  pub register-IsSound :
      (key : String) (t : Transactions R) → IsSound t → IsSound (register key t).0
  unfolding register
  register-IsSound key t s =
      ground (arith, s.cleared, insert-Owned t.channels t.next key t.pending s.owned)

-- The operations of a device's transactions. A response may be nil.
pub data Call (R : Type 0) : Type 0 where
  completes : String → Option R → Call R
  cancels registers : String → Call R
  closes : Call R

module _ {R : Type 0} where
  unfoldable pub step : Call R → Transactions R → Go (Transactions R)
  step (completes key r) t = do (t', _) ← complete key r t; ok t'
  step (cancels key) t = cancel key t
  step (registers key) t = ok (register key t).0
  step closes t = do (t', _) ← close t; ok t'

  unfoldable pub run : List (Call R) → Transactions R → Go (Transactions R)
  unfolding step
  run [] t = ok t
  run (c ∷ cs) t = do t' ← step c t; run cs t'

  -- A call of `Complete` with a nil response, for a key that is not empty.
  abbrev pub is_nil : Call R → Bool
  is_nil (completes key none) = ite (String_discrete key "") false true
  is_nil _ = false

  abbrev pub any_nil : List (Call R) → Bool
  any_nil [] = false
  any_nil (c ∷ cs) = is_nil c || any_nil cs

  -- An operation that completes no key with nil ends without a fault, and keeps the invariant.
  step_total :
      (c : Call R) (t : Transactions R)
      → IsSound t
      → is_nil c ≡ false
      → (t' : Transactions R) × (step c t ≡ ok t') × IsSound t'
  unfolding step swept complete
  step_total (completes key none) t s n = (t, ground arith, s)
  step_total (completes key (some r)) t s n =
      ((completed key r t).0, rw (complete_lem t s key r), completed-IsSound key r t s)
  step_total (cancels key) t s n = (cancelled key t, cancel_lem t s key, cancelled-IsSound key t s)
  step_total (registers key) t s n = ((register key t).0, refl, register-IsSound key t s)
  step_total closes t s n = elim (Bool-cases t.closed) [
    | inl e ↦ (t, rw (close_lem t s, e), s)
    | inr e ↦ (swept t, rw (close_lem t s, e), record { owned = tt; cleared = λ _. refl })
  ]

  step_nil : (c : Call R) (t : Transactions R) → is_nil c ≡ true → step c t ≡ err panic
  unfolding step complete complete_with
  step_nil (completes key none) t n = ground arith
  step_nil (completes key (some r)) t n = ground arith
  step_nil (cancels key) t n = ground arith
  step_nil (registers key) t n = ground arith
  step_nil closes t n = ground arith

  -- How operations on a set end.
  abbrev pub Ends : List (Call R) → Transactions R → Type 0
  Ends cs t =
      ((any_nil cs ≡ false) × (t' : Transactions R) × (run cs t ≡ ok t') × IsSound t')
      ⊎ ((any_nil cs ≡ true) × (run cs t ≡ err panic))

  run_total : (cs : List (Call R)) (t : Transactions R) → IsSound t → Ends cs t
  unfolding run
  run_total [] t s = inl (refl, t, refl, s)
  run_total (c ∷ cs) t s = elim (Bool-cases (is_nil c)) [
    | inl n ↦ inr (ground (arith, n), rw (step_nil c t n))
    | inr n ↦
        let (t', e, s') = step_total c t s n in
        elim (run_total cs t' s') [
          | inl (m, t'', e', s'') ↦ inl (ground (arith, n, m), t'', rw e e', s'')
          | inr (m, e') ↦ inr (ground (arith, n, m), rw e e')
        ]
  ]

  pub new-IsSound : IsSound {R = R} new_transactions
  unfolding new_transactions
  new-IsSound = record { owned = tt; cleared = λ _. refl }

  -- Any sequence of operations on a new set ends in a sound set if none of them completes a key that
  -- is not empty with a nil response, and with a panic if one does. So none panics by a send on a
  -- closed channel or a second close, and none blocks on a full channel.
  pub run-new_total :
      (cs : List (Call R))
      → ((any_nil cs ≡ false) × (t : Transactions R) × (run cs new_transactions ≡ ok t) × IsSound t)
        ⊎ ((any_nil cs ≡ true) × (run cs new_transactions ≡ err panic))
  run-new_total cs = run_total cs new_transactions new-IsSound

  -- In a sound set, a response for a pending key that is not empty reaches the channel that
  -- `Register` returned for it, and a second one for the same key is refused and changes nothing.
  pub complete_once :
      (key : String) (r r' : R) (t : Transactions R) (h : ℕ)
      → IsSound t
      → key ≢ ""
      → lookup key t.pending ≡ some h
      → (t' : Transactions R) × (complete key (some r) t ≡ ok (t', none))
        × (receive (t'.channels h) ≡ element r)
        × (complete key (some r') t' ≡ ok (t', some no_such_transaction_key))
  unfolding completed receive
  complete_once key r r' t h s ne e =
      let t' = settled key h (answered r) t in
      (
        t',
        rw (complete_lem t s key r) (ground arith),
        ground arith,
        rw (complete_lem t' (settled-IsSound key h (answered r) t e s) key r')
            (ground (arith, lookup-delete key key t.pending)),
      )

  -- `Close` of a sound set that is open wakes everyone who waits: each pending channel yields nil.
  -- Nothing is pending afterwards, no key can be registered, and a second `Close` is refused.
  pub close_cancels :
      (t : Transactions R)
      → IsSound t
      → t.closed ≡ false
      → (t' : Transactions R) × (close t ≡ ok (t', none))
        × ((key : String) (h : ℕ)
            → lookup key t.pending ≡ some h
            → receive (t'.channels h) ≡ zero_value)
        × (t'.pending ≡ [])
        × ((key : String) → key ≢ "" → register key t' ≡ (t', err transactions_closed))
        × (close t' ≡ ok (t', some transactions_already_closed))
  unfolding swept register receive close
  close_cancels t s o = (
    swept t,
    rw (close_lem t s, o),
    (λ key h e. rw (close_entries-lookup t.next key h t.pending t.channels s.owned e)),
    refl,
    (λ key ne. ground arith),
    refl,
  )

  -- In a sound set, a key that `Register` takes was not empty and not pending, and the set was
  -- open. It gets a channel on which nothing has come yet, and which no other pending key has.
  pub register_fresh :
      (key : String) (t : Transactions R) (h : ℕ)
      → IsSound t
      → (register key t).1 ≡ ok h
      → (key ≢ "")
        × (t.closed ≡ false)
        × (lookup key t.pending ≡ none)
        × (receive ((register key t).0.channels h) ≡ waits)
        × ((j : String) → j ≢ key → lookup j (register key t).0.pending ≢ some h)
        × (lookup key (register key t).0.pending ≡ some h)
  unfolding register receive
  register_fresh key t h s e = (
    ground arith,
    ground arith,
    ground arith,
    ground arith,
    (λ j ne p. ground (
      arith,
      lookup-insert key j t.next t.pending,
      lookup-Owned t.channels t.next j t.next t.pending s.owned,
    )),
    ground (arith, lookup-insert key key t.next t.pending),
  )
