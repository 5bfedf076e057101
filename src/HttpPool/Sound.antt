-- ===== src/HttpPool/Sound.antt =====
-- The books of a pool, and what senders do to them.
use webpa_common.Base.{
  ℕ, zero, suc, ◌+◌, ◌≤◌, ◌≡◌, ◌⊎◌, inl, inr, refl, sym, ap, subst, ◌∙◌, Bool, true, false,
  if◌then◌else◌, ltb, Option, none, some, List, [], ◌∷◌, ◌++◌, map, length, length-append, All,
  either, arith,
}
use mathlib.Core.List.{append-nil, append_assoc}
use webpa_common.HttpPool.Books.{
  is_queue, is_start, tally, tally-append, finish_errors, finish_errors-append, count,
}
use webpa_common.HttpPool.{
  Asked, Reply, Handled, handle_task, queue, reject, Event, Pool, dispatch, put, send, offer, close,
  announce_with,
}

module _ {T R E : Type 0} (call : T → Asked R E) (transact : R → Reply E) where
  -- The books of a pool of `n` workers which was given some tasks in an order. Its queue keeps within
  -- its capacity, no worker is lost, and each task given is announced once or will be. The tasks given
  -- are those that were taken, in order, and then the queue; those taken are, each as often, held by
  -- a worker or called. Each that was called was announced by a start, and is, as often, in work or
  -- done; what came of a task that is done is what `handleTask` makes of it, and a finish tells its
  -- error. A worker has returned only from a channel that is closed and empty, and the body of each
  -- response is closed.
  pub record IsSound (n : ℕ) (given : List T) (p : Pool T R E) : Type 0 where
    pub room : length p.tasks ≤ p.capacity
    pub crew : p.waiting + length p.holding + length p.handling + p.gone ≡ n
    pub queued : tally is_queue p.events + p.unannounced ≡ length given
    pub taken : List T
    pub in_order : given ≡ taken ++ p.tasks
    pub kept : (f : T → Bool) → count f taken ≡ count f p.holding + count f p.ran
    pub started : tally is_start p.events ≡ length p.ran
    pub done : List T
    pub called : (f : T → Bool) → count f p.ran ≡ count f p.handling + count f done
    pub handled : p.handled ≡ map (λ t. handle_task transact (call t)) done
    pub told : finish_errors p.events ≡ map (λ (h : Handled R E). h.err) p.handled
    pub ended : (p.gone ≡ 0) ⊎ ((p.is_closed ≡ true) × (p.tasks ≡ []))
    pub tidy : All (λ (h : Handled R E). h.closed_body ≡ h.got_body) p.handled

  -- Where nothing is given.
  pub same-IsSound :
      (n : ℕ) (given : List T) (p : Pool T R E) → IsSound n given p → IsSound n (given ++ []) p
  same-IsSound n given p s = subst (λ g. IsSound n g p) (sym (append-nil given)) s

  pub put-IsSound :
      (n : ℕ) (given : List T) (t : T) (p : Pool T R E)
      → IsSound n given p
      → p.is_closed ≡ false
      → ltb (length p.tasks) p.capacity ≡ true
      → IsSound n (given ++ t ∷ []) (put t p)
  unfolding put
  put-IsSound n given t p s c r = record {
    room = ground (arith, s.room, length-append p.tasks (t ∷ []), r);
    crew = s.crew;
    queued = omega (arith, length-append given (t ∷ []), s.queued);
    taken = s.taken;
    in_order = ap (λ xs. xs ++ t ∷ []) s.in_order ∙ append_assoc s.taken p.tasks (t ∷ []);
    kept = s.kept;
    started = s.started;
    done = s.done;
    called = s.called;
    handled = s.handled;
    told = s.told;
    ended = elim s.ended [ inl z ↦ inl z | inr (d, x) ↦ absurd (grind (arith, c, d)) ];
    tidy = s.tidy;
  }

  pub announce_with-IsSound :
      (n k : ℕ) (given : List T) (p : Pool T R E)
      → IsSound n given p
      → p.unannounced ≡ k
      → IsSound n given (announce_with k p)
  unfolding announce_with dispatch
  announce_with-IsSound n zero given p s u = s
  announce_with-IsSound n (suc k) given p s u =
      let more : List (Event E) = record { event_type = queue; event_error = none } ∷ [] in
      record {
        room = s.room;
        crew = s.crew;
        queued = omega (arith, tally-append is_queue p.events more, s.queued, u);
        taken = s.taken;
        in_order = s.in_order;
        kept = s.kept;
        started = omega (arith, tally-append is_start p.events more, s.started);
        done = s.done;
        called = s.called;
        handled = s.handled;
        told = finish_errors-append p.events more ∙ append-nil (finish_errors p.events) ∙ s.told;
        ended = s.ended;
        tidy = s.tidy;
      }

  pub reject-IsSound :
      (n : ℕ) (given : List T) (e : Option E) (p : Pool T R E)
      → IsSound n given p
      → IsSound n (given ++ []) (dispatch reject e p)
  unfolding dispatch
  reject-IsSound n given e p s =
      let more : List (Event E) = record { event_type = reject; event_error = e } ∷ [] in
      same-IsSound n given (record p { events = p.events ++ more })
        (record {
          room = s.room;
          crew = s.crew;
          queued = omega (arith, tally-append is_queue p.events more, s.queued);
          taken = s.taken;
          in_order = s.in_order;
          kept = s.kept;
          started = omega (arith, tally-append is_start p.events more, s.started);
          done = s.done;
          called = s.called;
          handled = s.handled;
          told = finish_errors-append p.events more ∙ append-nil (finish_errors p.events) ∙ s.told;
          ended = s.ended;
          tidy = s.tidy;
        })

  pub close-IsSound :
      (error_closed : E) (n : ℕ) (given : List T) (p : Pool T R E)
      → IsSound n given p
      → IsSound n given (close error_closed p).1
  unfolding close
  close-IsSound error_closed n given p s =
      either (λ (o : Option E × Pool T R E). IsSound n given o.1) p.is_closed _ _ (λ c. s)
        (λ c. record {
          room = s.room;
          crew = s.crew;
          queued = s.queued;
          taken = s.taken;
          in_order = s.in_order;
          kept = s.kept;
          started = s.started;
          done = s.done;
          called = s.called;
          handled = s.handled;
          told = s.told;
          ended = elim s.ended [ inl z ↦ inl z | inr (d, x) ↦ inr (refl, x) ];
          tidy = s.tidy;
        })

-- The task that a call puts, by what the call returns.
module _ {T R E : Type 0} where
  abbrev pub sent : T → Option (Option E × Pool T R E) → List T
  sent t none = []
  sent t (some (some e, p)) = []
  sent t (some (none, p)) = t ∷ []

  abbrev pub offered : T → (Bool × Option E) × Pool T R E → List T
  offered t ((taken, e), p) = if taken then t ∷ [] else []

module _ {T R E : Type 0} (call : T → Asked R E) (transact : R → Reply E) where
  pub send-IsSound :
      (error_closed : E) (n : ℕ) (given : List T) (t : T) (p : Pool T R E)
      → IsSound call transact n given p
      → IsSound call transact n
          (given ++ sent t (send error_closed t p))
          (elim (send error_closed t p) [ none ↦ p | some (e, p') ↦ p' ])
  unfolding send
  send-IsSound error_closed n given t p s =
      either Sent p.is_closed _ _
        (λ c. reject-IsSound call transact n given (some error_closed) p s)
        (λ c.
          either Sent (ltb (length p.tasks) p.capacity) _ _
            (λ r. put-IsSound call transact n given t p s c r)
            (λ r. same-IsSound call transact n given p s))
    where
      Sent : Option (Option E × Pool T R E) → Type 0
      Sent o = IsSound call transact n (given ++ sent t o) (elim o [ none ↦ p | some (e, p') ↦ p' ])

  pub offer-IsSound :
      (error_closed : E) (n : ℕ) (given : List T) (t : T) (p : Pool T R E)
      → IsSound call transact n given p
      → IsSound call transact n
          (given ++ offered t (offer error_closed t p))
          (offer error_closed t p).1
  unfolding offer
  offer-IsSound error_closed n given t p s =
      either Offered p.is_closed _ _
        (λ c. reject-IsSound call transact n given (some error_closed) p s)
        (λ c.
          either Offered (ltb (length p.tasks) p.capacity) _ _
            (λ r. put-IsSound call transact n given t p s c r)
            (λ r. reject-IsSound call transact n given none p s))
    where
      Offered : (Bool × Option E) × Pool T R E → Type 0
      Offered o = IsSound call transact n (given ++ offered t o) o.1
