-- ===== src/Tests/Pools.antt =====
-- Runs of httppool, on a pool whose tasks are numbers: a task asks for a request with its number, but
-- for 0, which fails.
use webpa_common.Base.{ℕ, zero, suc, ◌+◌, ◌≡◌, true, false, none, some, List, [], ◌∷◌, String}
use webpa_common.HttpPool.{
  Asked, asked, Reply, broke, replied, Pool, reject, dispatch, start_pool, run, Action, sends,
  offers, closes, takes, announces, begins, handles, close, offer, send, workers,
}
use webpa_common.HttpPool.Books.{is_queue, tally}
use webpa_common.HttpPool.Sound.{IsSound}
use webpa_common.HttpPool.Accounts.{all_given, run-start_pool-IsSound}
use webpa_common.HttpPool.Shutdown.{rounds, close-refuses, rounds_drain}

abbrev call : ℕ → Asked ℕ String
call zero = asked none none (some "no request")
call (suc n) = asked (some n) (some none) none

abbrev transact : ℕ → Reply String
transact zero = broke "refused"
transact (suc n) = replied (some true) none

abbrev started : Pool ℕ ℕ String
started = start_pool 2 1

abbrev script : List (Action ℕ)
script =
    sends 2
    ∷ offers 0
    ∷ offers 1
    ∷ announces
    ∷ takes
    ∷ begins 0
    ∷ handles 0
    ∷ closes
    ∷ sends 1
    ∷ takes
    ∷ begins 0
    ∷ takes
    ∷ []

run-start_pool-IsSound_example :
    IsSound call transact 1
      (all_given "closed" call transact script started)
      (run "closed" call transact script started)
unfolding workers
run-start_pool-IsSound_example = run-start_pool-IsSound "closed" call transact 2 1 script

close-refuses_example :
    (tally is_queue (run "closed" call transact script (close "closed" started).1).events
        + (run "closed" call transact script (close "closed" started).1).unannounced
      ≡ 0)
    × ((close "closed" (run "closed" call transact script (close "closed" started).1)).0
        ≡ some "closed")
    × ((offer "closed" 3 (run "closed" call transact script (close "closed" started).1)).0
        ≡ (false, some "closed"))
    × (send "closed" 3 (run "closed" call transact script (close "closed" started).1)
        ≡ some (
          some "closed",
          dispatch reject
              (some "closed")
              (run "closed" call transact script (close "closed" started).1),
        ))
unfolding start_pool
close-refuses_example = close-refuses "closed" call transact 3 started script

rounds_drain_example :
    ((run "closed" call transact (rounds 3) (record started {
      tasks = 2 ∷ 0 ∷ [];
      is_closed = true;
      waiting = 1;
      holding = [];
      handling = [];
    })).tasks
      ≡ [])
    × ((run "closed" call transact (rounds 3) (record started {
      tasks = 2 ∷ 0 ∷ [];
      is_closed = true;
      waiting = 1;
      holding = [];
      handling = [];
    })).ran
        ≡ 2 ∷ 0 ∷ [])
    × ((run "closed" call transact (rounds 3) (record started {
      tasks = 2 ∷ 0 ∷ [];
      is_closed = true;
      waiting = 1;
      holding = [];
      handling = [];
    })).gone
        ≡ 1)
unfolding start_pool
rounds_drain_example = rounds_drain "closed" call transact 0 (2 ∷ 0 ∷ []) started
