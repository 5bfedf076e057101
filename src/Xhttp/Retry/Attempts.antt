-- ===== src/Xhttp/Retry/Attempts.antt =====
-- How often a transaction is tried, and with which body.
use webpa_common.Base.{
  ℕ, zero, suc, ◌+◌, ◌≤◌, ◌<◌, ◌≡◌, refl, ◌⊎◌, inl, inr, true, false, ltb, ◌&&◌, none, some, List,
  [], ◌∷◌, length, length-append, All, All-append, ok, is_none, either, arith, ◌∙◌,
}
use webpa_common.Xhttp.Retry.{
  seekable, stream, Request, RetryOptions, Transaction, Trying, rewound, new_rewind, ensure_body,
  ensure_rewindable, rewind, wants_retry, attempt, retry, retry_loop, transact,
}

module _ {E : Type 0} (o : RetryOptions E) (next : Transaction E) (bytes : List ℕ)
    (same_body : (r : Request E) → (o.update_request r).body ≡ r.body)
    (same_get_body : (r : Request E) → (o.update_request r).get_body ≡ r.get_body) where
  -- After so many attempts, each with the whole body.
  record Tried (n : ℕ) (s : Trying E) : Type 0 where
    rewinds : s.request.get_body ≡ some (ok (seekable bytes 0 none))
    same : All (λ b. b ≡ some (seekable bytes 0 none)) s.sent
    attempts : length s.sent ≡ n
    counted : s.counter + 1 ≡ n
    unbroken : s.rewind_error ≡ none

  attempt-Tried :
      (n m : ℕ) (s : Trying E)
      → s.request.body ≡ some (seekable bytes 0 none)
      → s.request.get_body ≡ some (ok (seekable bytes 0 none))
      → All (λ b. b ≡ some (seekable bytes 0 none)) s.sent
      → length s.sent ≡ n
      → s.counter ≡ n
      → s.rewind_error ≡ none
      → Tried (n + 1) (attempt o next m s)
  unfolding attempt
  attempt-Tried n m s b g a l c u = record {
    rewinds = g;
    same =
        All-append (λ b. b ≡ some (seekable bytes 0 none)) s.sent (s.request.body ∷ []) a (b, tt);
    attempts = omega (arith, length-append s.sent (s.request.body ∷ []), l);
    counted = omega (arith, c);
    unbroken = u;
  }

  retry-Tried : (n m : ℕ) (s : Trying E) → Tried n s → Tried (n + 1) (retry o next m s)
  unfolding retry rewind
  retry-Tried n m s t =
      let r : Request E = record s.request { body = some (seekable bytes 0 none) } in
      rw (t.rewinds, retry)
        (attempt-Tried n m (record s { request = o.update_request r; counter = suc s.counter })
          (same_body r) (same_get_body r ∙ t.rewinds) t.same t.attempts (omega (arith, t.counted))
          t.unbroken)

  -- Where the loop ends.
  abbrev IsLast : ℕ → Trying E → Type 0
  IsLast limit s = (k : ℕ) × Tried k s × (k ≤ limit) × ((k ≡ limit) ⊎ (wants_retry o s ≡ false))

  retry_loop-IsLast :
      (left n m : ℕ) (s : Trying E) → Tried n s → IsLast (n + left) (retry_loop o next left m s)
  unfolding retry_loop
  retry_loop-IsLast zero n m s t = (n, t, omega arith, inl (omega arith))
  retry_loop-IsLast (suc left) n m s t =
      let unbroken : is_none s.rewind_error ≡ true = ground (arith, t.unbroken) in
      let (k, t', b, e) =
        retry_loop-IsLast left (n + 1) (suc m) (retry o next m s) (retry-Tried n m s t) in
      either (IsLast (n + suc left)) (is_none s.rewind_error && wants_retry o s) _ _
        (λ q. (k, t', omega (arith, b), elim e [ inl x ↦ inl (omega (arith, x)) | inr x ↦ inr x ]))
        (λ q. (n, t, omega arith, inr (ground (arith, q, unbroken))))

  -- When the update of a request leaves its body and `GetBody` alone, and the number of retries is
  -- positive, a request with a body that can be read once,
  -- and whose reading succeeds, is tried as often as the number of retries and once more at most;
  -- each attempt gets the whole body from its start, whatever the attempts before it left of theirs;
  -- and the last attempt is one that does not want a retry, or the retries are used up.
  pub transact-sent :
      0 < o.retries
      → (s : Trying E) × (transact o next
            (record { body = some (stream (ok bytes)); get_body = none })
          ≡ ok s)
        × All (λ b. b ≡ some (seekable bytes 0 none)) s.sent
        × (length s.sent ≡ s.counter + 1)
        × (s.counter ≤ o.retries)
        × (s.rewind_error ≡ none)
        × ((s.counter ≡ o.retries) ⊎ (wants_retry o s ≡ false))
  unfolding transact ensure_rewindable ensure_body new_rewind rewound
  transact-sent p =
      let positive : ltb o.retries 1 ≡ false = ground (arith, p) in
      let r : Request E = record {
        body = some (seekable bytes 0 none);
        get_body = some (ok (seekable bytes 0 none));
      } in
      let s0 : Trying E = record {
        request = r;
        response = none;
        failure = none;
        status_code = 0;
        counter = 0;
        sent = [];
        rewind_error = none;
      } in
      let (k, t, b, e) =
        retry_loop-IsLast o.retries 1 1 (attempt o next 0 s0)
          (attempt-Tried 0 0 s0 refl refl tt refl refl refl) in
      let s = retry_loop o next o.retries 1 (attempt o next 0 s0) in
      (
        s,
        rw (positive, transact) refl,
        t.same,
        omega (arith, t.attempts, t.counted),
        omega (arith, b, t.counted),
        t.unbroken,
        elim e [ inl x ↦ inl (omega (arith, x, t.counted)) | inr x ↦ inr x ],
      )
