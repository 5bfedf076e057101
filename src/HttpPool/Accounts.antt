-- ===== src/HttpPool/Accounts.antt =====
-- The books of a pool after any sequence of steps.
use webpa_common.Base.{ℕ, inl, refl, subst, List, [], ◌∷◌, ◌++◌, arith}
use mathlib.Core.List.{append_assoc}
use webpa_common.HttpPool.Books.{pick-IsPicked}
use webpa_common.HttpPool.{
  Asked, Reply, Pool, pick, start_pool, take, send, offer, close, announce, begin, handle, Action,
  sends, offers, closes, announces, takes, begins, handles, step, run, workers,
}
use webpa_common.HttpPool.Sound.{
  IsSound, same-IsSound, announce_with-IsSound, close-IsSound, sent, offered, send-IsSound,
  offer-IsSound,
}
use webpa_common.HttpPool.Workers.{take_with-IsSound, begin_on-IsSound, work_on-IsSound}

module _ {T R E : Type 0} (error_closed : E) (call : T → Asked R E) (transact : R → Reply E) where
  -- The tasks that a step puts into the queue: those for which `Send` returns no error, and `Offer`
  -- returns true.
  abbrev pub put_by : Action T → Pool T R E → List T
  put_by (sends t) p = sent t (send error_closed t p)
  put_by (offers t) p = offered t (offer error_closed t p)
  put_by _ p = []

  -- The tasks that a sequence of steps puts there.
  abbrev pub all_given : List (Action T) → Pool T R E → List T
  all_given [] p = []
  all_given (a ∷ rest) p = put_by a p ++ all_given rest (step error_closed call transact a p)

  step-IsSound :
      (n : ℕ) (given : List T) (a : Action T) (p : Pool T R E)
      → IsSound call transact n given p
      → IsSound call transact n (given ++ put_by a p) (step error_closed call transact a p)
  unfolding step take handle announce begin
  step-IsSound n given (sends t) p s = send-IsSound call transact error_closed n given t p s
  step-IsSound n given (offers t) p s = offer-IsSound call transact error_closed n given t p s
  step-IsSound n given closes p s =
      same-IsSound call transact n given (close error_closed p).1
        (close-IsSound call transact error_closed n given p s)
  step-IsSound n given announces p s =
      same-IsSound call transact n given (announce p)
        (announce_with-IsSound call transact n p.unannounced given p s refl)
  step-IsSound n given (begins i) p s =
      same-IsSound call transact n given (begin i p)
        (begin_on-IsSound call transact n given (pick i p.holding) p s (pick-IsPicked i p.holding))
  step-IsSound n given takes p s =
      same-IsSound call transact n given (take p)
        (take_with-IsSound call transact n p.waiting given p.tasks p s refl refl)
  step-IsSound n given (handles i) p s =
      same-IsSound call transact n given (handle call transact i p)
        (work_on-IsSound call transact n given (pick i p.handling) p s (pick-IsPicked i p.handling))

  run-IsSound :
      (n : ℕ) (given : List T) (actions : List (Action T)) (p : Pool T R E)
      → IsSound call transact n given p
      → IsSound call transact n
          (given ++ all_given actions p)
          (run error_closed call transact actions p)
  unfolding run
  run-IsSound n given [] p s = same-IsSound call transact n given p s
  run-IsSound n given (a ∷ rest) p s =
      let p' = step error_closed call transact a p in
      subst (λ g. IsSound call transact n g (run error_closed call transact rest p'))
        (append_assoc given (put_by a p) (all_given rest p'))
        (run-IsSound n (given ++ put_by a p) rest p' (step-IsSound n given a p s))

  -- Any sequence of steps on a pool that was started leaves its books sound, for the tasks that Send
  -- and Offer accepted in it: the queue keeps within its capacity, no worker is lost, the accepted
  -- tasks are those taken, in their order, and then the queue, each taken one is held or was called
  -- once, each that was called is in work or done with its own result, starts and finishes tell of
  -- just these, a worker has returned only from a channel that is closed and empty, and the body of
  -- each response is closed.
  pub run-start_pool-IsSound :
      (size n : ℕ) (actions : List (Action T))
      → IsSound call transact
          (workers n)
          (all_given actions (start_pool size n))
          (run error_closed call transact actions (start_pool {T = T} {R = R} {E = E} size n))
  unfolding start_pool
  run-start_pool-IsSound size n actions =
      run-IsSound (workers n) [] actions (start_pool size n) (record {
        room = ground arith;
        crew = omega arith;
        queued = refl;
        taken = [];
        in_order = refl;
        kept = λ f. refl;
        started = refl;
        done = [];
        called = λ f. refl;
        handled = refl;
        told = refl;
        ended = inl refl;
        tidy = tt;
      })
