-- ===== src/Xhttp/Fanout/Choice.antt =====
-- Which of its results a fanout answers with.
use webpa_common.Base.{
  ℕ, ◌≤◌, ◌<◌, ◌≡◌, refl, ◌⊎◌, inl, inr, Bool, true, false, ltb, Option, none, some, List, [], ◌∷◌,
  ◌++◌, map, length, All, Bool-cases, Outcome-cases, Holds, of_ok, sym, Outcome, ok, err, arith, ap,
  subst, ◌∙◌,
}
use webpa_common.Xhttp.Fanout.{
  canceled, deadline_exceeded, bad_transactor, url_error, bare_url_error, other, Handler, Request,
  Result, Writer, Response, Failure, arrived, await, finish, finish_latest, keep_worst, execute,
  result_of, failure_status, unwrap, serve_http, new_fanout_requests, build, tailor, bare_request,
  RequestFunc, Url, Error,
}

failure_status-positive : (e : Failure) → 0 < failure_status e
unfolding failure_status
failure_status-positive canceled = omega arith
failure_status-positive deadline_exceeded = omega arith
failure_status-positive bad_transactor = omega arith
failure_status-positive (url_error t e) = omega arith
failure_status-positive (bare_url_error t) = omega arith
failure_status-positive (other t) = omega arith

module _ {C : Type 0} where
  -- The result that is left after those of a list, if none of them ends the fanout.
  abbrev worst : Option (Result C) → List (Result C) → Option (Result C)
  worst latest [] = latest
  worst latest (r ∷ rs) = worst (keep_worst latest r) rs

  abbrev Below : Result C → Result C → Type 0
  Below r q = q.status_code < r.status_code

  abbrev NotAbove : Result C → Result C → Type 0
  NotAbove r q = q.status_code ≤ r.status_code

  -- The first result with the greatest status.
  abbrev pub IsWorst : Result C → List (Result C) → Type 0
  IsWorst r rs =
      (before : List (Result C)) × (rest : List (Result C)) × (rs ≡ before ++ r ∷ rest)
      × All (λ q. q.status_code < r.status_code) before
      × All (λ q. q.status_code ≤ r.status_code) rest

  -- The first result that ends the fanout.
  abbrev pub IsFirst : (Result C → Bool) → Result C → List (Result C) → Type 0
  IsFirst p r rs =
      (before : List (Result C)) × (rest : List (Result C)) × (rs ≡ before ++ r ∷ rest)
      × All (λ q. p q ≡ false) before
      × (p r ≡ true)

  worst-some :
      (l : Result C) (rs : List (Result C))
      → ((worst (some l) rs ≡ some l) × All (NotAbove l) rs)
        ⊎ ((r : Result C) × (worst (some l) rs ≡ some r)
            × (l.status_code < r.status_code)
            × IsWorst r rs)
  unfolding keep_worst
  worst-some l [] = inl (refl, tt)
  worst-some l (q ∷ rs) = elim (Bool-cases (ltb l.status_code q.status_code)) [
    | inl e ↦ elim (worst-some q rs) [
      | inl (w, a) ↦ inr (q, ground (arith, e, w), ground (arith, e), ([], rs, refl, tt, a))
      | inr (r, w, b, (before, rest, s, m, n)) ↦ inr (
        r,
        ground (arith, e, w),
        ground (arith, e, b),
        (q ∷ before, rest, ap (λ x. q ∷ x) s, (b, m), n),
      )
    ]
    | inr e ↦ elim (worst-some l rs) [
      | inl (w, a) ↦ inl (ground (arith, e, w), (ground (arith, e), a))
      | inr (r, w, b, (before, rest, s, m, n)) ↦ inr (
        r,
        ground (arith, e, w),
        b,
        (q ∷ before, rest, ap (λ x. q ∷ x) s, (ground (arith, e, b), m), n),
      )
    ]
  ]

  worst-none :
      (q : Result C) (rs : List (Result C))
      → 0 < q.status_code
      → (r : Result C) × (worst none (q ∷ rs) ≡ some r) × IsWorst r (q ∷ rs)
  unfolding keep_worst
  worst-none q rs p = elim (worst-some q rs) [
    | inl (w, a) ↦ (q, ground (arith, p, w), ([], rs, refl, tt, a))
    | inr (r, w, b, (before, rest, s, m, n)) ↦
        (r, ground (arith, p, w), (q ∷ before, rest, ap (λ x. q ∷ x) s, (b, m), n))
  ]

  module _ (h : Handler C) (w : Writer) where
    await-first :
        (before : List (Result C)) (r : Result C) (rest : List (Result C))
        (latest : Option (Result C))
        → All (λ q. h.should_terminate q ≡ false) before
        → h.should_terminate r ≡ true
        → await h w (length (before ++ r ∷ rest)) (map arrived (before ++ r ∷ rest)) latest
          ≡ some (ok (finish w r h.after))
    unfolding await
    await-first [] r rest latest a e = ground (arith, e)
    await-first (q ∷ before) r rest latest a e =
        ground (arith, a.0, await-first before r rest (keep_worst latest q) a.1 e)

    await-worst :
        (rs : List (Result C)) (latest : Option (Result C))
        → All (λ q. h.should_terminate q ≡ false) rs
        → await h w (length rs) (map arrived rs) latest
          ≡ some (finish_latest w (worst latest rs) h.failure)
    unfolding await
    await-worst [] latest a = refl
    await-worst (q ∷ rs) latest a = ground (arith, a.0, await-worst rs (keep_worst latest q) a.1)

    IsFirst-or_none :
        (rs : List (Result C))
        → ((r : Result C) × IsFirst h.should_terminate r rs)
          ⊎ All (λ q. h.should_terminate q ≡ false) rs
    IsFirst-or_none [] = inr tt
    IsFirst-or_none (q ∷ rs) = elim (Bool-cases (h.should_terminate q)) [
      | inl e ↦ inl (q, ([], rs, refl, tt, e))
      | inr e ↦ elim (IsFirst-or_none rs) [
        | inl (r, (before, rest, s, a, t)) ↦
            inl (r, (q ∷ before, rest, ap (λ x. q ∷ x) s, (e, a), t))
        | inr a ↦ inr (e, a)
      ]
    ]

  result_of-positive :
      (text : Failure → List ℕ) (q : Request C) (r : Option Response) (e : Option Failure)
      → ((x : Response) → r ≡ some x → 0 < x.status_code)
      → 0 < (result_of text q r e).status_code
  unfolding result_of
  result_of-positive text q (some r) e p = p r refl
  result_of-positive text q none (some e) p = failure_status-positive (unwrap e)
  result_of-positive text q none none p = omega arith

  -- The answers to requests, in the order in which they come.
  abbrev pub answers : (Failure → List ℕ) → Handler C → List (Request C) → List (Result C)
  answers text h [] = []
  answers text h (q ∷ qs) = execute text h q ∷ answers text h qs

  answers-positive :
      (text : Failure → List ℕ) (h : Handler C)
      → ((q : Request C) (x : Response) → (h.transactor q).0 ≡ some x → 0 < x.status_code)
      → (qs : List (Request C)) → All (λ r. 0 < r.status_code) (answers text h qs)
  unfolding execute
  answers-positive text h p [] = tt
  answers-positive text h p (q ∷ qs) =
      let (response, e) = h.transactor q in
      (result_of-positive text q response e (p q), answers-positive text h p qs)

  abbrev IsFull : List (Request C) → Type 0
  IsFull rs = 0 < length rs

  build-IsFull :
      (before : List (RequestFunc C)) (ctx : C) (original : Request C) (body : List ℕ) (url : Url)
      (urls : List Url)
      → Holds IsFull (build before ctx original body (url ∷ urls))
  unfolding build
  build-IsFull before ctx original body url urls =
      elim (Outcome-cases (tailor before ctx original (bare_request ctx original url) body)) [
        | inl (f, e) ↦ rw (e) tt
        | inr (r, e) ↦ elim (Outcome-cases (build before ctx original body urls)) [
          | inl (f, g) ↦ rw (e) (rw (g) tt)
          | inr (rs, g) ↦ rw (e) (rw (g) (omega arith))
        ]
      ]

  new_fanout_requests-IsFull :
      (h : Handler C) (ctx : C) (original : Request C) (read : Outcome Failure (List ℕ))
      → Holds IsFull (new_fanout_requests h ctx original read)
  unfolding new_fanout_requests
  new_fanout_requests-IsFull h ctx original (err f) = tt
  new_fanout_requests-IsFull h ctx original (ok body) =
      elim (Outcome-cases (h.fanout_urls original)) [
        | inl (f, e) ↦ rw (e, new_fanout_requests) tt
        | inr ([], e) ↦ rw (e, new_fanout_requests) tt
        | inr (url ∷ urls, e) ↦
            rw (e, new_fanout_requests) (build-IsFull h.before ctx original body url urls)
      ]

  length-answers :
      (text : Failure → List ℕ) (h : Handler C) (qs : List (Request C))
      → length (answers text h qs) ≡ length qs
  length-answers text h [] = refl
  length-answers text h (q ∷ qs) = omega (arith, length-answers text h qs)

  await-answers :
      (h : Handler C) (w : Writer) (rs : List (Result C))
      → 0 < length rs
      → All (λ r. 0 < r.status_code) rs
      → (r : Result C) × ((IsFirst h.should_terminate r rs
            × (await h w (length rs) (map arrived rs) none ≡ some (ok (finish w r h.after))))
          ⊎ (All (λ q. h.should_terminate q ≡ false) rs
              × IsWorst r rs
              × (await h w (length rs) (map arrived rs) none ≡ some (ok (finish w r h.failure)))))
  unfolding finish_latest
  await-answers h w [] n p = absurd (omega (arith, n))
  await-answers h w (q ∷ rs) n p = elim (IsFirst-or_none h w (q ∷ rs)) [
    | inl (r, (before, rest, s, a, t)) ↦ (
      r,
      inl (
        (before, rest, s, a, t),
        subst (λ x. await h w (length x) (map arrived x) none ≡ some (ok (finish w r h.after)))
            (sym s) (await-first h w before r rest none a t),
      ),
    )
    | inr a ↦
        let (r, e, x) = worst-none q rs p.0 in
        (
          r,
          inr (
            a,
            x,
            await-worst h w (q ∷ rs) none a ∙ ap (λ l. some (finish_latest w l h.failure)) e,
          ),
        )
  ]

  -- When the requests of a fanout can be built, as many answers come as there are requests, in any
  -- order, each of the transactor to some request, a response of the transactor has a positive
  -- status, and the context is not done before, then the handler does not panic: it answers with
  -- the first result that ends the fanout, or, if there is none, with the first of the results that
  -- have the greatest status.
  pub serve_http-answers :
      (text : Failure → List ℕ) (h : Handler C) (encode : Error → Writer → Writer) (w : Writer)
      (original : Request C) (read : Outcome Failure (List ℕ)) (requests qs : List (Request C))
      → new_fanout_requests h original.context original read ≡ ok requests
      → length qs ≡ length requests
      → ((q : Request C) (x : Response) → (h.transactor q).0 ≡ some x → 0 < x.status_code)
      → (r : Result C) × ((IsFirst h.should_terminate r (answers text h qs)
            × (serve_http h encode w original read (map arrived (answers text h qs))
                ≡ some (ok (finish w r h.after))))
          ⊎ (All (λ q. h.should_terminate q ≡ false) (answers text h qs)
              × IsWorst r (answers text h qs)
              × (serve_http h encode w original read (map arrived (answers text h qs))
                  ≡ some (ok (finish w r h.failure)))))
  unfolding serve_http
  serve_http-answers text h encode w original read requests qs e n p =
      let full =
        of_ok IsFull (new_fanout_requests h original.context original read) requests
          (new_fanout_requests-IsFull h original.context original read) e in
      let l = length-answers text h qs in
      let len : length (answers text h qs) ≡ length requests = omega (arith, l, n) in
      rw (e, serve_http)
        (subst
          (λ m.
            (r : Result C) × ((IsFirst h.should_terminate r (answers text h qs)
                × (await h w m (map arrived (answers text h qs)) none
                    ≡ some (ok (finish w r h.after))))
              ⊎ (All (λ q. h.should_terminate q ≡ false) (answers text h qs)
                  × IsWorst r (answers text h qs)
                  × (await h w m (map arrived (answers text h qs)) none
                      ≡ some (ok (finish w r h.failure))))))
          len
          (await-answers h w (answers text h qs) (omega (arith, full, l, n))
            (answers-positive text h p qs)))
