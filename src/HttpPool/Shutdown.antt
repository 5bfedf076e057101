-- ===== src/HttpPool/Shutdown.antt =====
-- A pool whose channel is closed: what it refuses, and that it runs what is left.
use webpa_common.Base.{
  ℕ, zero, suc, ◌+◌, ◌≡◌, refl, sym, ap, ◌∙◌, Bool, true, false, ltb, if◌then◌else◌, Option, none,
  some, List, [], ◌∷◌, ◌++◌, length, either, arith,
}
use mathlib.Core.List.{append-nil, append_assoc}
use webpa_common.HttpPool.{
  Asked, Reply, handle_task, queue, reject, start, finish, Event, Pool, pick, dispatch, put,
  take_with, take, announce_with, announce, begin_on, begin, announces, begins, send, offer, close,
  work, work_on, handle, Action, sends, offers, closes, takes, handles, step, run,
}
use webpa_common.HttpPool.Books.{is_queue, tally, tally-append}

-- The steps of a worker that takes a task, calls it and ends with it, again and again.
abbrev pub rounds : {T : Type 0} → ℕ → List (Action T)
rounds zero = []
rounds (suc n) = takes ∷ begins 0 ∷ handles 0 ∷ rounds n

module _ {T R E : Type 0} where
  -- A pool that is closed and has queued as much as a count says.
  abbrev IsShut : ℕ → Pool T R E → Type 0
  IsShut n p = (p.is_closed ≡ true) × (tally is_queue p.events + p.unannounced ≡ n)

  reject-IsShut :
      (n : ℕ) (e : Option E) (p : Pool T R E) → IsShut n p → IsShut n (dispatch reject e p)
  unfolding dispatch
  reject-IsShut n e p (c, q) = (
    c,
    omega (
      arith,
      tally-append is_queue p.events (record { event_type = reject; event_error = e } ∷ []),
      q,
    ),
  )

  announce_with-IsShut :
      (n k : ℕ) (p : Pool T R E) → IsShut n p → p.unannounced ≡ k → IsShut n (announce_with k p)
  unfolding announce_with dispatch
  announce_with-IsShut n zero p s u = s
  announce_with-IsShut n (suc k) p (c, q) u = (
    c,
    omega (
      arith,
      tally-append is_queue p.events (record { event_type = queue; event_error = none } ∷ []),
      q,
      u,
    ),
  )

  begin_on-IsShut :
      (n : ℕ) (o : Option (T × List T)) (p : Pool T R E) → IsShut n p → IsShut n (begin_on o p)
  unfolding begin_on dispatch
  begin_on-IsShut n none p s = s
  begin_on-IsShut n (some (t, others)) p (c, q) = (
    c,
    omega (
      arith,
      tally-append is_queue p.events (record { event_type = start; event_error = none } ∷ []),
      q,
    ),
  )

  take_with-IsShut :
      (n w : ℕ) (ts : List T) (p : Pool T R E) → IsShut n p → IsShut n (take_with w ts p)
  unfolding take_with
  take_with-IsShut n zero ts p s = s
  take_with-IsShut n (suc k) [] p s = either (IsShut n) p.is_closed _ _ (λ c. s) (λ c. s)
  take_with-IsShut n (suc k) (t ∷ ts) p s = s

module _ {T R E : Type 0} (error_closed : E) where
  send_closed :
      (t : T) (p : Pool T R E)
      → p.is_closed ≡ true
      → send error_closed t p ≡ some (some error_closed, dispatch reject (some error_closed) p)
  unfolding send
  send_closed t p c =
      ap
        (λ (b : Bool).
          if b
          then some (some error_closed, dispatch reject (some error_closed) p)
          else if ltb (length p.tasks) p.capacity
          then some (none, put t p)
          else none)
        c

  offer_closed :
      (t : T) (p : Pool T R E)
      → p.is_closed ≡ true
      → offer error_closed t p ≡ ((false, some error_closed), dispatch reject (some error_closed) p)
  unfolding offer
  offer_closed t p c =
      ap
        (λ (b : Bool).
          if b
          then ((false, some error_closed), dispatch reject (some error_closed) p)
          else if ltb (length p.tasks) p.capacity
          then ((true, none), put t p)
          else ((false, none), dispatch reject none p))
        c

  close_closed :
      (p : Pool T R E) → p.is_closed ≡ true → close error_closed p ≡ (some error_closed, p)
  unfolding close
  close_closed p c =
      ap (λ (b : Bool). if b then (some error_closed, p) else (none, record p { is_closed = true }))
        c

  close-IsShut :
      (p : Pool T R E) → IsShut (tally is_queue p.events + p.unannounced) (close error_closed p).1
  unfolding close
  close-IsShut p =
      either (λ (x : Option E × Pool T R E). IsShut (tally is_queue p.events + p.unannounced) x.1)
        p.is_closed _ _ (λ c. (c, refl)) (λ c. (refl, refl))

module _ {T R E : Type 0} (call : T → Asked R E) (transact : R → Reply E) where
  work_on-IsShut :
      (n : ℕ) (o : Option (T × List T)) (p : Pool T R E)
      → IsShut n p
      → IsShut n (work_on call transact o p)
  unfolding work_on work dispatch
  work_on-IsShut n none p s = s
  work_on-IsShut n (some (t, others)) p (c, q) =
      let h = handle_task transact (call t) in
      let more : List (Event E) = record { event_type = finish; event_error = h.err } ∷ [] in
      (c, omega (arith, tally-append is_queue p.events more, q))

module _ {T R E : Type 0} (error_closed : E) (call : T → Asked R E) (transact : R → Reply E) where
  step-IsShut :
      (n : ℕ) (a : Action T) (p : Pool T R E)
      → IsShut n p
      → IsShut n (step error_closed call transact a p)
  unfolding step take handle announce begin
  step-IsShut n (sends t) p s =
      rw (step, send_closed error_closed t p s.0) (reject-IsShut n (some error_closed) p s)
  step-IsShut n (offers t) p s =
      rw (step, offer_closed error_closed t p s.0) (reject-IsShut n (some error_closed) p s)
  step-IsShut n closes p s = rw (step, close_closed error_closed p s.0) s
  step-IsShut n announces p s = announce_with-IsShut n p.unannounced p s refl
  step-IsShut n (begins i) p s = begin_on-IsShut n (pick i p.holding) p s
  step-IsShut n takes p s = take_with-IsShut n p.waiting p.tasks p s
  step-IsShut n (handles i) p s = work_on-IsShut call transact n (pick i p.handling) p s

  run-IsShut :
      (n : ℕ) (actions : List (Action T)) (p : Pool T R E)
      → IsShut n p
      → IsShut n (run error_closed call transact actions p)
  unfolding run
  run-IsShut n [] p s = s
  run-IsShut n (a ∷ rest) p s =
      run-IsShut n rest (step error_closed call transact a p) (step-IsShut n a p s)

  -- Once a pool is closed, whatever follows puts nothing more into its queue, and Close, Send and Offer all return
  -- the error that the dispatcher was closed.
  pub close-refuses :
      (t : T) (p : Pool T R E) (actions : List (Action T))
      → (tally is_queue (run error_closed call transact actions (close error_closed p).1).events
            + (run error_closed call transact actions (close error_closed p).1).unannounced
          ≡ tally is_queue p.events + p.unannounced)
        × ((close error_closed (run error_closed call transact actions (close error_closed p).1)).0
            ≡ some error_closed)
        × ((offer error_closed t
              (run error_closed call transact actions (close error_closed p).1)).0
            ≡ (false, some error_closed))
        × (send error_closed t (run error_closed call transact actions (close error_closed p).1)
            ≡ some (
              some error_closed,
              dispatch reject
                  (some error_closed)
                  (run error_closed call transact actions (close error_closed p).1),
            ))
  close-refuses t p actions =
      let p' = run error_closed call transact actions (close error_closed p).1 in
      let (c, q) =
        run-IsShut (tally is_queue p.events + p.unannounced) actions (close error_closed p).1
          (close-IsShut error_closed p) in
      (
        q,
        ap (λ (x : Option E × Pool T R E). x.0) (close_closed error_closed p' c),
        ap (λ (x : (Bool × Option E) × Pool T R E). x.0) (offer_closed error_closed t p' c),
        send_closed error_closed t p' c,
      )

  -- A worker of a closed pool in which no other worker has a task calls all the tasks that are left in
  -- their order, if it is left alone for one round more than there are tasks, and returns.
  pub rounds_drain :
      (k : ℕ) (ts : List T) (p : Pool T R E)
      → ((run error_closed call transact (rounds (suc (length ts))) (record p {
        tasks = ts;
        is_closed = true;
        waiting = suc k;
        holding = [];
        handling = [];
      })).tasks
          ≡ [])
        × ((run error_closed call transact (rounds (suc (length ts))) (record p {
          tasks = ts;
          is_closed = true;
          waiting = suc k;
          holding = [];
          handling = [];
        })).ran
            ≡ p.ran ++ ts)
        × ((run error_closed call transact (rounds (suc (length ts))) (record p {
          tasks = ts;
          is_closed = true;
          waiting = suc k;
          holding = [];
          handling = [];
        })).gone
            ≡ suc p.gone)
  unfolding run step take take_with handle work_on work dispatch pick begin begin_on
  rounds_drain k [] p = (refl, sym (append-nil p.ran), refl)
  rounds_drain k (t ∷ ts) p =
      let h = handle_task transact (call t) in
      let first : List (Event E) = record { event_type = start; event_error = none } ∷ [] in
      let last : List (Event E) = record { event_type = finish; event_error = h.err } ∷ [] in
      let (a, b, c) = rounds_drain k ts (record p {
        ran = p.ran ++ t ∷ [];
        handled = p.handled ++ h ∷ [];
        events = (p.events ++ first) ++ last;
      }) in
      (a, b ∙ append_assoc p.ran (t ∷ []) ts, c)
