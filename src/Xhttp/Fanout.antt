-- ===== src/Xhttp/Fanout.antt =====
-- xhttp/fanout: a request that is sent to several endpoints at once, and the choice among their
-- responses (handler.go, result.go, requestResponse.go, endpoints.go). The goroutines of a fanout
-- send their results on a channel with room for all, so the handler meets them in some order, which
-- is an argument, as is the moment at which the context of the request is done. Bytes are numbers.
pub mod Choice
pub mod Requests
pub mod Forwarding
use webpa_common.Base.{
  ℕ, zero, suc, Bool, true, false, if◌then◌else◌, ltb, Option, none, some, List, [], ◌∷◌, ◌++◌,
  String, GoMap, lookup, insert, delete, string_key, length, Outcome, ok, err, ◌>>=◌, Go, panic,
  is_none, String_discrete, ite,
}

pub record Url : Type 0 where
  pub scheme : String
  pub host : String
  pub path : String
  pub raw_path : String
  pub raw_query : String
  pub fragment : String

abbrev pub Header : Type 0
Header = GoMap String (List String)

-- An HTTP request with its context, as far as the fanout looks at it.
pub record Request (C : Type 0) : Type 0 where
  pub method : String
  pub url : Url
  pub host : String
  pub header : Header
  pub body : Option (List ℕ)
  pub content_length : ℕ
  pub rewinds : Bool
  pub context : C

-- The errors of a transaction: those of the context, `*url.Error` with or without another inside,
-- and any other, with their texts.
pub data Failure : Type 0 where
  canceled deadline_exceeded bad_transactor : Failure
  url_error : List ℕ → Failure → Failure
  bare_url_error : List ℕ → Failure
  other : List ℕ → Failure

-- `content` is what could be read of the body.
pub record Response : Type 0 where
  pub status_code : ℕ
  pub header : Header
  pub content : List ℕ

pub record Result (C : Type 0) : Type 0 where
  pub status_code : ℕ
  pub request : Request C
  pub response : Option Response
  pub err : Option Failure
  pub content_type : String
  pub body : List ℕ

-- What has been written to the response of the original request.
pub record Writer : Type 0 where
  pub header : Header
  pub status : Option ℕ
  pub written : List ℕ

pub data Error : Type 0 where
  no_fanout_urls : Error
  unread : Failure → Error
  no_urls : Failure → Error
  refused : Failure → Error

abbrev pub status_gateway_timeout : ℕ
status_gateway_timeout = 504

abbrev pub status_service_unavailable : ℕ
status_service_unavailable = 503

-- `Header.Get`
unfoldable pub get : String → Header → String
get key h = elim (lookup key h) [ none ↦ "" | some vs ↦ elim vs [ [] ↦ "" | v ∷ _ ↦ v ] ]

unfoldable pub default_should_terminate : {C : Type 0} → Result C → Bool
default_should_terminate result = ltb result.status_code 400

unfoldable pub write_header : ℕ → Writer → Writer
write_header code w = elim w.status [ none ↦ record w { status = some code } | some _ ↦ w ]

-- `result.Err = ue.Err`
unfoldable pub unwrap : Failure → Failure
unwrap (url_error t e) = e
unwrap (bare_url_error t) = bare_url_error t
unwrap canceled = canceled
unwrap deadline_exceeded = deadline_exceeded
unwrap bad_transactor = bad_transactor
unwrap (other t) = other t

unfoldable pub failure_status : Failure → ℕ
failure_status canceled = status_gateway_timeout
failure_status deadline_exceeded = status_gateway_timeout
failure_status bad_transactor = status_service_unavailable
failure_status (url_error t e) = status_service_unavailable
failure_status (bare_url_error t) = status_service_unavailable
failure_status (other t) = status_service_unavailable

abbrev pub RequestFunc : Type 0 → Type 0
RequestFunc C = C → Request C → Request C → List ℕ → Outcome Failure (C × Request C)

abbrev pub ResponseFunc : Type 0 → Type 0
ResponseFunc C = C → Writer → Result C → C × Writer

pub record Handler (C : Type 0) : Type 0 where
  pub fanout_urls : Request C → Outcome Failure (List Url)
  pub before : List (RequestFunc C)
  pub after : List (ResponseFunc C)
  pub failure : List (ResponseFunc C)
  pub should_terminate : Result C → Bool
  pub transactor : Request C → Option Response × Option Failure

-- What the handler meets in its loop: the end of its context, or a result.
pub data Arrival (C : Type 0) : Type 0 where
  context_done : Arrival C
  arrived : Result C → Arrival C

module _ {C : Type 0} where
  -- The loop over `h.before`.
  unfoldable pub tailor :
      List (RequestFunc C) → C → Request C → Request C → List ℕ → Outcome Error (Request C)
  tailor [] ctx original fanout body = ok (record fanout { context = ctx })
  tailor (rf ∷ rest) ctx original fanout body = elim (rf ctx original fanout body) [
    | err e ↦ err (refused e)
    | ok (ctx', fanout') ↦ tailor rest ctx' original fanout' body
  ]

  unfoldable pub bare_request : C → Request C → Url → Request C
  bare_request ctx original url = record {
    method = original.method;
    url = url;
    host = url.host;
    header = [];
    body = none;
    content_length = 0;
    rewinds = false;
    context = ctx;
  }

  -- The loop over the URLs.
  unfoldable pub build :
      List (RequestFunc C) → C → Request C → List ℕ → List Url → Outcome Error (List (Request C))
  unfolding tailor bare_request
  build before ctx original body [] = ok []
  build before ctx original body (url ∷ urls) = do
    r ← tailor before ctx original (bare_request ctx original url) body
    rs ← build before ctx original body urls
    ok (r ∷ rs)

  -- `ioutil.ReadAll(original.Body)` is an argument.
  unfoldable pub new_fanout_requests :
      Handler C → C → Request C → Outcome Failure (List ℕ) → Outcome Error (List (Request C))
  unfolding build
  new_fanout_requests h ctx original read = elim read [
    | err e ↦ err (unread e)
    | ok body ↦ elim (h.fanout_urls original) [
      | err e ↦ err (no_urls e)
      | ok [] ↦ err no_fanout_urls
      | ok (url ∷ urls) ↦ build h.before ctx original body (url ∷ urls)
    ]
  ]

  -- The `switch` of `execute`, with the texts of errors as an argument.
  unfoldable pub result_of :
      (Failure → List ℕ) → Request C → Option Response → Option Failure → Result C
  unfolding get unwrap failure_status
  result_of text request (some r) e = record {
    status_code = r.status_code;
    request = request;
    response = some r;
    err = e;
    content_type = get "Content-Type" r.header;
    body = r.content;
  }
  result_of text request none (some e) = record {
    status_code = failure_status (unwrap e);
    request = request;
    response = none;
    err = some (unwrap e);
    content_type = "text/plain";
    body = text e;
  }
  result_of text request none none = record {
    status_code = status_service_unavailable;
    request = request;
    response = none;
    err = some bad_transactor;
    content_type = "text/plain";
    body = text bad_transactor;
  }

  unfoldable pub execute : (Failure → List ℕ) → Handler C → Request C → Result C
  unfolding result_of
  execute text h request =
      let (response, e) = h.transactor request in result_of text request response e

  -- The loop over the after functions.
  unfoldable pub apply_each : List (ResponseFunc C) → C → Writer → Result C → Writer
  apply_each [] ctx w result = w
  apply_each (rf ∷ rest) ctx w result =
      let (ctx', w') = rf ctx w result in apply_each rest ctx' w' result

  unfoldable pub content_type_of : Result C → String
  content_type_of result =
      ite (String_discrete result.content_type "") "application/octet-stream" result.content_type

  unfoldable pub write_result : Writer → Result C → Writer
  unfolding write_header content_type_of
  write_result w result = elim result.body [
    | [] ↦ write_header result.status_code w
    | b ∷ bs ↦
        let w1 = record w {
          header = insert "Content-Type" (content_type_of result ∷ []) w.header;
        } in
        let w2 = write_header result.status_code w1 in record w2 { written = w2.written ++ b ∷ bs }
  ]

  unfoldable pub finish : Writer → Result C → List (ResponseFunc C) → Writer
  unfolding apply_each write_result
  finish w result after = write_result (apply_each after result.request.context w result) result

  -- `finish` panics on a zero result, which has no request.
  unfoldable pub finish_latest : Writer → Option (Result C) → List (ResponseFunc C) → Go Writer
  unfolding finish
  finish_latest w none after = err panic
  finish_latest w (some r) after = ok (finish w r after)

  -- `if statusCode < r.StatusCode`
  unfoldable pub keep_worst : Option (Result C) → Result C → Option (Result C)
  keep_worst none r = if ltb 0 r.status_code then some r else none
  keep_worst (some q) r = if ltb q.status_code r.status_code then some r else some q

  -- The loop of `ServeHTTP`, with the number of results that are still to come. None: it waits.
  unfoldable pub await :
      Handler C → Writer → ℕ → List (Arrival C) → Option (Result C) → Option (Go Writer)
  unfolding finish finish_latest write_header keep_worst
  await h w zero arrivals latest = some (finish_latest w latest h.failure)
  await h w (suc n) [] latest = none
  await h w (suc n) (context_done ∷ rest) latest = some (ok (write_header status_gateway_timeout w))
  await h w (suc n) (arrived r ∷ rest) latest =
      if h.should_terminate r
      then some (ok (finish w r h.after))
      else await h w n rest (keep_worst latest r)

  -- `ServeHTTP`, with the error encoder of go-kit as an argument.
  unfoldable pub serve_http :
      Handler C
      → (Error → Writer → Writer)
      → Writer
      → Request C
      → Outcome Failure (List ℕ)
      → List (Arrival C)
      → Option (Go Writer)
  unfolding new_fanout_requests await
  serve_http h encode w original read arrivals =
      elim (new_fanout_requests h original.context original read) [
        | err e ↦ some (ok (encode e w))
        | ok requests ↦ await h w (length requests) arrivals none
      ]
