-- ===== src/HttpPool/Workers.antt =====
-- What workers do to the books of a pool.
use webpa_common.Base.{
  ℕ, zero, suc, ◌≡◌, inl, inr, sym, ap, ◌∙◌, true, Option, none, some, List, [], ◌∷◌, ◌++◌, length,
  length-append, All-append, either, arith,
}
use mathlib.Core.List.{append-nil, append_assoc}
use webpa_common.HttpPool.Books.{
  is_queue, is_start, tally-append, finish_errors, finish_errors-append, count-append, IsPicked,
  map-snoc, handle_task-closed_body,
}
use webpa_common.HttpPool.{
  Asked, Reply, Handled, handle_task, start, finish, Event, Pool, dispatch, take_with, begin_on,
  work, work_on,
}
use webpa_common.HttpPool.Sound.{IsSound}

module _ {T R E : Type 0} (call : T → Asked R E) (transact : R → Reply E) where
  take_task-IsSound :
      (n k : ℕ) (given : List T) (t : T) (ts : List T) (p : Pool T R E)
      → IsSound call transact n given p
      → p.waiting ≡ suc k
      → p.tasks ≡ t ∷ ts
      → IsSound call transact n given
          (record p { waiting = k; tasks = ts; holding = p.holding ++ t ∷ [] })
  take_task-IsSound n k given t ts p s w q =
      let l : length p.tasks ≡ suc (length ts) = ap length q in
      record {
        room = omega (arith, s.room, l);
        crew = omega (arith, s.crew, w, length-append p.holding (t ∷ []));
        queued = s.queued;
        taken = s.taken ++ t ∷ [];
        in_order = s.in_order ∙ ap (λ xs. s.taken ++ xs) q ∙ sym (append_assoc s.taken (t ∷ []) ts);
        kept = λ f.
            omega
              (arith, s.kept f, count-append f s.taken (t ∷ []), count-append f p.holding (t ∷ []));
        started = s.started;
        done = s.done;
        called = s.called;
        handled = s.handled;
        told = s.told;
        ended = elim s.ended [
          | inl z ↦ inl z
          | inr (d, x) ↦ absurd (omega (arith, l, ap length x))
        ];
        tidy = s.tidy;
      }

  leave-IsSound :
      (n k : ℕ) (given : List T) (p : Pool T R E)
      → IsSound call transact n given p
      → p.waiting ≡ suc k
      → p.tasks ≡ []
      → p.is_closed ≡ true
      → IsSound call transact n given (record p { waiting = k; gone = suc p.gone })
  leave-IsSound n k given p s w q c = record {
    room = s.room;
    crew = omega (arith, s.crew, w);
    queued = s.queued;
    taken = s.taken;
    in_order = s.in_order;
    kept = s.kept;
    started = s.started;
    done = s.done;
    called = s.called;
    handled = s.handled;
    told = s.told;
    ended = inr (c, q);
    tidy = s.tidy;
  }

  pub take_with-IsSound :
      (n w : ℕ) (given ts : List T) (p : Pool T R E)
      → IsSound call transact n given p
      → p.waiting ≡ w
      → p.tasks ≡ ts
      → IsSound call transact n given (take_with w ts p)
  unfolding take_with
  take_with-IsSound n zero given ts p s w q = s
  take_with-IsSound n (suc k) given [] p s w q =
      either (IsSound call transact n given) p.is_closed _ _
        (λ c. leave-IsSound n k given p s w q c) (λ c. s)
  take_with-IsSound n (suc k) given (t ∷ ts) p s w q = take_task-IsSound n k given t ts p s w q

  pub begin_on-IsSound :
      (n : ℕ) (given : List T) (o : Option (T × List T)) (p : Pool T R E)
      → IsSound call transact n given p
      → IsPicked p.holding o
      → IsSound call transact n given (begin_on o p)
  unfolding begin_on dispatch
  begin_on-IsSound n given none p s l = s
  begin_on-IsSound n given (some (t, others)) p s (l, picked) =
      let more : List (Event E) = record { event_type = start; event_error = none } ∷ [] in
      let r = length-append p.ran (t ∷ []) in
      record {
        room = s.room;
        crew = omega (arith, s.crew, l, length-append p.handling (t ∷ []));
        queued = omega (arith, tally-append is_queue p.events more, s.queued);
        taken = s.taken;
        in_order = s.in_order;
        kept = λ f. omega (arith, s.kept f, picked f, count-append f p.ran (t ∷ []));
        started = omega (arith, tally-append is_start p.events more, s.started, r);
        done = s.done;
        called = λ f.
            omega (
              arith,
              s.called f,
              count-append f p.ran (t ∷ []),
              count-append f p.handling (t ∷ []),
            );
        handled = s.handled;
        told = finish_errors-append p.events more ∙ append-nil (finish_errors p.events) ∙ s.told;
        ended = s.ended;
        tidy = s.tidy;
      }

  pub work_on-IsSound :
      (n : ℕ) (given : List T) (o : Option (T × List T)) (p : Pool T R E)
      → IsSound call transact n given p
      → IsPicked p.handling o
      → IsSound call transact n given (work_on call transact o p)
  unfolding work_on work dispatch
  work_on-IsSound n given none p s l = s
  work_on-IsSound n given (some (t, others)) p s (l, picked) =
      let h = handle_task transact (call t) in
      let more : List (Event E) = record { event_type = finish; event_error = h.err } ∷ [] in
      record {
        room = s.room;
        crew = omega (arith, s.crew, l);
        queued = omega (arith, tally-append is_queue p.events more, s.queued);
        taken = s.taken;
        in_order = s.in_order;
        kept = s.kept;
        started = omega (arith, tally-append is_start p.events more, s.started);
        done = s.done ++ t ∷ [];
        called = λ f. omega (arith, s.called f, picked f, count-append f s.done (t ∷ []));
        handled =
            ap (λ xs. xs ++ h ∷ []) s.handled
            ∙ sym (map-snoc (λ x. handle_task transact (call x)) s.done t);
        told =
            finish_errors-append p.events more
            ∙ ap (λ xs. xs ++ h.err ∷ []) s.told
            ∙ sym (map-snoc (λ (h : Handled R E). h.err) p.handled h);
        ended = s.ended;
        tidy =
            All-append (λ (h : Handled R E). h.closed_body ≡ h.got_body) p.handled (h ∷ []) s.tidy
              (handle_task-closed_body transact (call t), tt);
      }
