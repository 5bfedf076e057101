-- ===== src/Xhttp/Retry.antt =====
-- xhttp/retry.go and xhttp/rewind.go: an HTTP transaction that is tried again, with a body that is
-- rewound in between. The transaction itself, the predicates and the update of a request are
-- arguments; waiting takes no part. An error of type E.
pub mod Attempts
use webpa_common.Base.{
  ℕ, zero, suc, ◌+◌, Bool, true, false, ◌&&◌, ◌||◌, if◌then◌else◌, ltb, Option, none, some, List,
  [], ◌∷◌, ◌++◌, Outcome, ok, err, is_none,
}

-- A body: a reader that can seek, which is at a position in its bytes and may fail to seek, or any
-- other reader, which can be read once.
pub data Body (E : Type 0) : Type 0 where
  seekable : (bytes : List ℕ) (position : ℕ) (seek_error : Option E) → Body E
  stream : (read : Outcome E (List ℕ)) → Body E

-- `get_body` is what `GetBody` would return.
pub record Request (E : Type 0) : Type 0 where
  pub body : Option (Body E)
  pub get_body : Option (Outcome E (Body E))

module _ {E : Type 0} where
  -- The function that `NewRewind` returns for a reader that can seek: `Seek(0, 0)`.
  unfoldable pub rewound : List ℕ → Option E → Outcome E (Body E)
  rewound bytes none = ok (seekable bytes 0 none)
  rewound bytes (some e) = err e

  unfoldable pub new_rewind : Body E → Outcome E (Body E × Outcome E (Body E))
  unfolding rewound
  new_rewind (seekable bytes position e) = ok (seekable bytes position e, rewound bytes e)
  new_rewind (stream (err e)) = err e
  new_rewind (stream (ok bytes)) = ok (seekable bytes 0 none, rewound bytes none)

  unfoldable pub ensure_body : Body E → Request E → Outcome E (Request E)
  unfolding new_rewind
  ensure_body b r = elim (new_rewind b) [
    | err e ↦ err e
    | ok (body, get_body) ↦ ok (record { body = some body; get_body = some get_body })
  ]

  unfoldable pub ensure_rewindable : Request E → Outcome E (Request E)
  unfolding ensure_body
  ensure_rewindable r = elim r.get_body [
    | some _ ↦ ok r
    | none ↦ elim r.body [ none ↦ ok r | some b ↦ ensure_body b r ]
  ]

  -- The error of `Rewind`: that of `GetBody`, or none, which stands for `errNotRewindable`.
  unfoldable pub rewind : Request E → Outcome (Option E) (Request E)
  rewind r = elim r.get_body [
    | some g ↦ elim g [ ok b ↦ ok (record r { body = some b }) | err e ↦ err (some e) ]
    | none ↦ if is_none r.body then ok r else err none
  ]

-- `RetryOptions`; a number of retries that is not positive is 0.
pub record RetryOptions (E : Type 0) : Type 0 where
  pub retries : ℕ
  pub should_retry : E → Bool
  pub should_retry_status : ℕ → Bool
  pub update_request : Request E → Request E

-- What an attempt with a given number returns: the status of the response, if there is one, the
-- error, and what it leaves of the body.
abbrev pub Transaction : Type 0 → Type 0
Transaction E = ℕ → Request E → Option ℕ × Option E × Option (Body E)

-- The variables of the loop. `counter` is the counter of retries, `sent` the bodies that were handed
-- over, and `rewind_error` whether the rewinding has failed, which ends the function.
pub record Trying (E : Type 0) : Type 0 where
  pub request : Request E
  pub response : Option ℕ
  pub failure : Option E
  pub status_code : ℕ
  pub counter : ℕ
  pub sent : List (Option (Body E))
  pub rewind_error : Option (Option E)

module _ {E : Type 0} (o : RetryOptions E) where
  unfoldable pub is_retried : Option E → Bool
  is_retried none = false
  is_retried (some e) = o.should_retry e

  unfoldable pub wants_retry : Trying E → Bool
  unfolding is_retried
  wants_retry s = is_retried s.failure || o.should_retry_status s.status_code

module _ {E : Type 0} (o : RetryOptions E) (next : Transaction E) where
  -- `response, err = next(request)`, with the status of the response if there is one.
  unfoldable pub attempt : ℕ → Trying E → Trying E
  attempt n s =
      let (response, failure, body) = next n s.request in
      record s {
        request = record s.request { body = body };
        response = response;
        failure = failure;
        status_code = elim response [ some code ↦ code | none ↦ s.status_code ];
        sent = s.sent ++ s.request.body ∷ [];
      }

  -- The body of the loop.
  unfoldable pub retry : ℕ → Trying E → Trying E
  unfolding attempt
  retry n s =
      let s1 = record s { counter = suc s.counter } in
      elim (rewind s1.request) [
        | err e ↦ record s1 { rewind_error = some e }
        | ok r ↦ attempt n (record s1 { request = o.update_request r })
      ]

  -- The loop, with the number of retries that are left.
  unfoldable pub retry_loop : ℕ → ℕ → Trying E → Trying E
  unfolding retry wants_retry
  retry_loop zero n s = s
  retry_loop (suc left) n s =
      if is_none s.rewind_error && wants_retry o s then retry_loop left (suc n) (retry n s) else s

  -- The transactor: an error if the body cannot be made rewindable, and otherwise the state in which
  -- the function returns.
  unfoldable pub transact : Request E → Outcome E (Trying E)
  unfolding attempt retry_loop
  transact request = elim (if ltb o.retries 1 then ok request else ensure_rewindable request) [
    | err e ↦ err e
    | ok r ↦ ok (
        retry_loop o.retries 1 (
          attempt 0 (record {
            request = r;
            response = none;
            failure = none;
            status_code = 0;
            counter = 0;
            sent = [];
            rewind_error = none;
          })))
  ]
