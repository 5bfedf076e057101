-- ===== src/Tests/Retries.antt =====
-- Runs of xhttp/retry.go and health on concrete data.
use webpa_common.Base.{
  ◌+◌, ◌%◌, ◌≤◌, ◌≡◌, ◌⊎◌, refl, true, false, none, some, List, [], ◌∷◌, String, length, ok, arith,
  All,
}
use webpa_common.Xhttp.Retry.{
  RetryOptions, Transaction, Trying, stream, seekable, wants_retry, transact,
}
use webpa_common.Xhttp.Retry.Attempts.{transact-sent}
use webpa_common.Health.{
  Event, arrives, leaves, measures, at, run, new_stats, word, requests_received, requests_serviced,
  requests_denied, max_alloc, max_heap_sys, max_active,
}
use webpa_common.Health.Totals.{
  tally, readings, arrival, success, denial, alloc_reading, heap_reading, active_reading, IsPeak,
  run-new_stats,
}

abbrev twice : RetryOptions String
twice = record {
  retries = 2;
  should_retry = λ e. true;
  should_retry_status = λ code. false;
  update_request = λ r. r;
}

-- Every attempt fails and reads all of its body.
abbrev fails : Transaction String
fails n r = (none, some "reset", none)

transact-sent_example :
    (s : Trying String) × (transact twice fails
        (record { body = some (stream (ok (7 ∷ []))); get_body = none })
      ≡ ok s)
    × All (λ b. b ≡ some (seekable (7 ∷ []) 0 none)) s.sent
    × (length s.sent ≡ s.counter + 1)
    × (s.counter ≤ 2)
    × (s.rewind_error ≡ none)
    × ((s.counter ≡ 2) ⊎ (wants_retry twice s ≡ false))
transact-sent_example = transact-sent twice fails (7 ∷ []) (λ r. refl) (λ r. refl) (omega arith)

abbrev day : List Event
day =
    arrives
    ∷ measures (record { active_kb = some 3; alloc = 8; heap_sys = 9 })
    ∷ leaves (record { status_code = 404; panicked = false })
    ∷ []

run-new_stats_example :
    (at requests_received (run day (new_stats [])) ≡ tally arrival day % word)
    × (at requests_serviced (run day (new_stats [])) ≡ tally success day % word)
    × (at requests_denied (run day (new_stats [])) ≡ tally denial day % word)
    × IsPeak (at max_alloc (run day (new_stats []))) (0 ∷ readings alloc_reading day)
    × IsPeak (at max_heap_sys (run day (new_stats []))) (0 ∷ readings heap_reading day)
    × IsPeak (at max_active (run day (new_stats []))) (0 ∷ readings active_reading day)
run-new_stats_example = run-new_stats day
