-- ===== src/Tests/Calls.antt =====
-- Runs of device/transactions.go, device/device.go and device/id.go.
use webpa_common.Base.{
  ne_of_test, List, ◌⊎◌, panic, ℕ, ◌≡◌, ◌≢◌, refl, true, false, none, some, [], ◌∷◌, String,
  String_discrete, ite, lookup, string_key, ok, err, arith, receive, element, zero_value,
  fresh_chan,
}
use webpa_common.Device.Transactions.{
  Transactions, complete, close, register, no_such_transaction_key, transactions_closed,
  transactions_already_closed, new_transactions,
}
use webpa_common.Device.Transactions.Invariant.{IsSound}
use webpa_common.Device.Transactions.Delivery.{
  Call, any_nil, completes, cancels, registers, closes, run, run-new_total, complete_once,
  close_cancels,
}
use webpa_common.Device.Endpoint.{CloseReason, Device, request_close, closed, reason_of}
use webpa_common.Device.Endpoint.Closing.{request_close_once, new_device-IsSound}
use webpa_common.Device.Endpoint.Closing
use webpa_common.Device.Id.{parse_id}
use webpa_common.Device.Id.Canonical.{parse_id-parse_id, parse_id-IsCanonical, IsCanonical}

abbrev pub key_a : String
key_a = "a"

abbrev pub key_b : String
key_b = "b"

abbrev pub no_key : String
no_key = ""

-- One key is pending.
abbrev pub waiting : Transactions ℕ
waiting = record { closed = false; pending = ("a", 0) ∷ []; channels = λ _. fresh_chan; next = 1 }

waiting-IsSound : IsSound waiting
unfolding lookup
waiting-IsSound = record {
  owned = (omega arith, refl, tt, refl, tt);
  cleared = λ p. absurd (grind (arith, p));
}

found : lookup "a" waiting.pending ≡ some 0
unfolding lookup String_discrete
found = refl

not_empty : key_a ≢ no_key
not_empty = ne_of_test key_a no_key refl

abbrev script : List (Call ℕ)
script = registers "a" ∷ completes "a" (some 7) ∷ cancels "a" ∷ closes ∷ []

run-new_total_example :
    ((any_nil script ≡ false)
      × (t : Transactions ℕ) × (run script new_transactions ≡ ok t)
      × IsSound t)
    ⊎ ((any_nil script ≡ true) × (run script new_transactions ≡ err panic))
run-new_total_example = run-new_total script

complete_once_example :
    (t : Transactions ℕ) × (complete "a" (some 7) waiting ≡ ok (t, none))
    × (receive (t.channels 0) ≡ element 7)
    × (complete "a" (some 8) t ≡ ok (t, some no_such_transaction_key))
complete_once_example = complete_once "a" 7 8 waiting 0 waiting-IsSound not_empty found

close_cancels_example :
    (t : Transactions ℕ) × (close waiting ≡ ok (t, none))
    × ((key : String) (h : ℕ)
        → lookup key waiting.pending ≡ some h
        → receive (t.channels h) ≡ zero_value)
    × (t.pending ≡ [])
    × ((key : String) → key ≢ no_key → register key t ≡ (t, err transactions_closed))
    × (close t ≡ ok (t, some transactions_already_closed))
close_cancels_example = close_cancels waiting waiting-IsSound refl

abbrev pub gone : CloseReason
gone = record { err = none; text = "" }

abbrev pub later : CloseReason
later = record { err = some "late"; text = "second" }

-- An open device with one pending transaction.
abbrev pub busy : Device ℕ
busy = record {
  id = "mac:112233445566";
  duplications = 0;
  is_open = true;
  shutdown_closed = false;
  messages = [];
  queue_size = 1;
  transactions = record {
    closed = false;
    pending = ("a", 0) ∷ [];
    channels = λ _. fresh_chan;
    next = 1;
  };
  close_reason = none;
}

busy-IsSound : Closing.IsSound busy
unfolding lookup
busy-IsSound = record {
  shutdown = refl;
  transactions_closed = refl;
  transactions_sound = record {
    owned = (omega arith, refl, tt, refl, tt);
    cleared = λ p. absurd (grind (arith, p));
  };
}

request_close_once_example :
    (d : Device ℕ) × (request_close gone busy ≡ ok d)
    × (request_close later d ≡ ok d)
    × (closed d ≡ true)
    × (reason_of d ≡ ite (String_discrete "" "") (record gone { text = "unknown" }) gone)
    × ((key : String) (h : ℕ)
        → lookup key busy.transactions.pending ≡ some h
        → receive (d.transactions.channels h) ≡ zero_value)
request_close_once_example = request_close_once gone later busy busy-IsSound refl

parsed : parse_id "MAC:11:22:33:44:55:66/config" ≡ ok "mac:112233445566"
unfolding parse_id String_discrete
parsed = refl

parse_id-parse_id_example : parse_id "mac:112233445566" ≡ ok "mac:112233445566"
parse_id-parse_id_example =
    parse_id-parse_id "MAC:11:22:33:44:55:66/config" "mac:112233445566" parsed

parse_id-IsCanonical_example : IsCanonical "mac:112233445566"
parse_id-IsCanonical_example =
    parse_id-IsCanonical "MAC:11:22:33:44:55:66/config" "mac:112233445566" parsed
