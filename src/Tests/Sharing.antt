-- ===== src/Tests/Sharing.antt =====
-- Runs of semaphore, store and xhttp/gate.
use webpa_common.Base.{
  ℕ, ◌+◌, ◌≤◌, ◌<◌, ◌≡◌, refl, true, false, if◌then◌else◌, none, some, [], ◌∷◌, ok, err, arith, leb,
}
use webpa_common.Semaphore
use webpa_common.Semaphore.{
  Semaphore, World, acquire, release, close, selecting, rechecking, blocking, try_once, send,
  see_closed, default, advance,
}
use webpa_common.Semaphore.Bound.{grant, give_back, total, granted_bound}
use webpa_common.Semaphore.Closing.{no_grant_after_close, close_wakes, rank}
use webpa_common.Store.Cache.{Cache, load}
use webpa_common.Store.Cache.Calls.{
  loading, locked, refreshing, call, load_never_fails, one_call_per_period,
}
use webpa_common.Store.Cache.Calls

abbrev pub one : Semaphore
one = record { capacity = 1; held = 0; state_closed = false; channel_closed = false }

new_one : Semaphore.new 1 ≡ some one
unfolding Semaphore.new
new_one = refl

granted_bound_example :
    total grant
      (Semaphore.run
        ((0, default) ∷ (0, send) ∷ (1, default) ∷ (1, send) ∷ (0, default) ∷ [])
        (record {
          semaphore = one;
          calls = acquire blocking ∷ acquire blocking ∷ release ∷ [];
        })).calls
    ≤ 1
      + total give_back
          (Semaphore.run
            ((0, default) ∷ (0, send) ∷ (1, default) ∷ (1, send) ∷ (0, default) ∷ [])
            (record {
              semaphore = one;
              calls = acquire blocking ∷ acquire blocking ∷ release ∷ [];
            })).calls
granted_bound_example =
    granted_bound 1 one (acquire blocking ∷ acquire blocking ∷ release ∷ [])
      ((0, default) ∷ (0, send) ∷ (1, default) ∷ (1, send) ∷ (0, default) ∷ []) new_one
      (tt, (tt, (tt, tt)))

-- A semaphore that is closed while one call is under way.
abbrev pub shutting : World
shutting = record {
  semaphore = record { capacity = 1; held = 1; state_closed = true; channel_closed = true };
  calls = rechecking blocking ∷ selecting blocking ∷ acquire try_once ∷ [];
}

no_grant_after_close_example :
    total grant (Semaphore.run ((0, default) ∷ (1, see_closed) ∷ (2, default) ∷ []) shutting).calls
    ≡ 0
no_grant_after_close_example =
    no_grant_after_close ((0, default) ∷ (1, see_closed) ∷ (2, default) ∷ []) shutting refl
      (tt, (tt, (tt, tt)))

close_wakes_example :
    (choice : Semaphore.Choice) × (s' : Semaphore) × (c' : Semaphore.Call) × (advance choice
        (selecting blocking)
        shutting.semaphore
      ≡ some (s', c'))
    × (rank c' < 2)
close_wakes_example = close_wakes (selecting blocking) shutting.semaphore refl (omega arith)

-- A source that answers once.
abbrev pub fresh : Cache ℕ
fresh = record {
  cache = none;
  source = λ n. if leb 1 n then err "down" else ok 42;
  calls = 0;
  period = 10;
}

abbrev pub filled : Cache ℕ
filled = record fresh { cache = some (record { value = 42; expiry = 10 }); calls = 1 }

one_call_per_period_example :
    ((load 0 fresh).0 ≡ ok 42)
    × ((Calls.run (locked 0 ∷ loading 10 ∷ []) (load 0 fresh).1).calls ≡ 1)
    × ((call (loading 3) (Calls.run (locked 0 ∷ loading 10 ∷ []) (load 0 fresh).1)).0 ≡ ok 42)
one_call_per_period_example =
    one_call_per_period 0 42 (locked 0 ∷ loading 10 ∷ []) (loading 3) fresh refl refl
      (omega arith, (omega arith, tt)) (omega arith)

abbrev pub counting : ℕ → ℕ
counting n = n
