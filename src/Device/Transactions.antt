-- ===== src/Device/Transactions.antt =====
-- device/transactions.go: the set of pending transactions of one device. A method runs under the
-- lock, so it is one step from a state to the next. `channels` is the store of the channels that
-- `Register` has made; `next` is the address of the next one.
pub mod Invariant
pub mod Delivery
pub mod Keys
use webpa_common.Base.{
  ℕ, suc, Bool, true, false, if◌then◌else◌, Option, none, some, List, [], ◌∷◌, String, GoMap,
  lookup, insert, delete, length, set, replicate, Outcome, ok, err, Go, panic, ◌>>=◌, Chan,
  fresh_chan, send, close_chan, update, string_key, String_discrete, ite,
}

pub data Error : Type 0 where
  invalid_transaction_key no_such_transaction_key transactions_already_closed : Error
  transactions_closed transaction_already_registered : Error

pub record Transactions (R : Type 0) : Type 0 where
  pub closed : Bool
  pub pending : GoMap String ℕ
  pub channels : ℕ → Chan R
  pub next : ℕ

-- `keys[position] = key; position++` for each pending key.
fill_keys : ℕ → List String → GoMap String ℕ → List String
fill_keys position slots [] = slots
fill_keys position slots ((key, _) ∷ rest) = fill_keys (suc position) (set slots position key) rest

module _ {R : Type 0} where
  unfoldable pub new_transactions : Transactions R
  new_transactions = record { closed = false; pending = []; channels = λ _. fresh_chan; next = 0 }

  unfoldable pub len : Transactions R → ℕ
  len t = length t.pending

  unfoldable pub keys : Transactions R → List String
  unfolding fill_keys
  keys t = fill_keys 0 (replicate (length t.pending) "") t.pending

  -- `result <- response; close(result)`
  deliver : ℕ → R → Transactions R → Go (Transactions R)
  deliver h response t = do
    full ← send response (t.channels h)
    done ← close_chan full
    ok (record t { channels = update t.channels h done })

  close_at : ℕ → Transactions R → Go (Transactions R)
  close_at h t = do
    done ← close_chan (t.channels h)
    ok (record t { channels = update t.channels h done })

  complete_found : Option ℕ → R → Transactions R → Go (Transactions R × Option Error)
  unfolding deliver
  complete_found none response t = ok (t, some no_such_transaction_key)
  complete_found (some h) response t = do t' ← deliver h response t; ok (t', none)

  unfoldable pub complete_with :
      String → Option R → Transactions R → Go (Transactions R × Option Error)
  unfolding complete_found
  complete_with key none t = err panic
  complete_with key (some response) t =
      complete_found (lookup key t.pending) response (record t { pending = delete key t.pending })

  -- A nil response panics, unless the key is empty.
  unfoldable pub complete : String → Option R → Transactions R → Go (Transactions R × Option Error)
  unfolding complete_with
  complete key response t =
      ite (String_discrete key "") (ok (t, some invalid_transaction_key))
        (complete_with key response t)

  cancel_found : Option ℕ → Transactions R → Go (Transactions R)
  unfolding close_at
  cancel_found none t = ok t
  cancel_found (some h) t = close_at h t

  unfoldable pub cancel : String → Transactions R → Go (Transactions R)
  unfolding cancel_found
  cancel key t =
      if t.closed
      then ok t
      else cancel_found (lookup key t.pending) (record t { pending = delete key t.pending })

  -- The loop of `Close`, over the entries that are left.
  pub close_all : GoMap String ℕ → Transactions R → Go (Transactions R)
  unfolding close_at
  close_all [] t = ok t
  close_all ((key, h) ∷ rest) t = do
    t' ← close_at h (record t { pending = delete key t.pending })
    close_all rest t'

  unfoldable pub close : Transactions R → Go (Transactions R × Option Error)
  unfolding close_all
  close t =
      if t.closed
      then ok (t, some transactions_already_closed)
      else do t' ← close_all t.pending (record t { closed = true }); ok (t', none)

  add_pending : String → Transactions R → Transactions R
  add_pending key t = record t {
    pending = insert key t.next t.pending;
    channels = update t.channels t.next fresh_chan;
    next = suc t.next;
  }

  -- The address of the new channel, or the error.
  unfoldable pub register : String → Transactions R → Transactions R × Outcome Error ℕ
  unfolding add_pending
  register key t =
      ite (String_discrete key "") (t, err invalid_transaction_key)
        (if t.closed then (t, err transactions_closed) else elim (lookup key t.pending) [
          | some _ ↦ (t, err transaction_already_registered)
          | none ↦ (add_pending key t, ok t.next)
        ])
