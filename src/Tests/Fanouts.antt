-- ===== src/Tests/Fanouts.antt =====
-- Runs of xhttp/fanout, with two endpoints.
use webpa_common.Base.{
  ℕ, ◌<◌, ◌≡◌, ◌⊎◌, refl, false, none, some, List, [], ◌∷◌, ◌++◌, String, map, ok, arith, All,
}
use webpa_common.Xhttp.Fanout.{
  Url, Header, Request, Response, Handler, Writer, Result, arrived, serve_http, new_fanout_requests,
  default_should_terminate, finish,
}
use webpa_common.Xhttp.Fanout.Requests.{values_of, copy_headers}
use webpa_common.Xhttp.Fanout.Forwarding.{copies, copy_headers_lem}
use webpa_common.Xhttp.Fanout.Choice.{answers, IsFirst, IsWorst, serve_http-answers}

abbrev url_of : String → Url
url_of host = record {
  scheme = "http";
  host = host;
  path = "/";
  raw_path = "";
  raw_query = "";
  fragment = "";
}

abbrev request_to : String → Request ℕ
request_to host = record {
  method = "GET";
  url = url_of host;
  host = host;
  header = [];
  body = none;
  content_length = 0;
  rewinds = false;
  context = 0;
}

abbrev missing : Response
missing = record { status_code = 404; header = []; content = [] }

abbrev handler : Handler ℕ
handler = record {
  fanout_urls = λ q. ok (url_of "a" ∷ url_of "b" ∷ []);
  before = [];
  after = [];
  failure = [];
  should_terminate = default_should_terminate;
  transactor = λ q. (some missing, none);
}

abbrev blank : Writer
blank = record { header = []; status = none; written = [] }

abbrev both : List (Request ℕ)
both = request_to "a" ∷ request_to "b" ∷ []

both_built : new_fanout_requests handler 0 (request_to "a") (ok []) ≡ ok both
unfolding new_fanout_requests
both_built = refl

status_positive :
    (q : Request ℕ) (x : Response) → (handler.transactor q).0 ≡ some x → 0 < x.status_code
status_positive q x e = ground (arith, e)

serve_http-answers_example :
    (r : Result ℕ) × ((IsFirst default_should_terminate r (answers (λ e. []) handler both)
        × (serve_http handler
              (λ e w. w)
              blank
              (request_to "a")
              (ok [])
              (map arrived (answers (λ e. []) handler both))
            ≡ some (ok (finish blank r []))))
      ⊎ (All (λ q. default_should_terminate q ≡ false) (answers (λ e. []) handler both)
          × IsWorst r (answers (λ e. []) handler both)
          × (serve_http handler
                (λ e w. w)
                blank
                (request_to "a")
                (ok [])
                (map arrived (answers (λ e. []) handler both))
              ≡ some (ok (finish blank r [])))))
serve_http-answers_example =
    serve_http-answers (λ e. []) handler (λ e w. w) blank (request_to "a") (ok []) both both
      both_built refl status_positive

abbrev traced : Header
traced = ("X-Trace", "1" ∷ "2" ∷ []) ∷ ("Accept", "text" ∷ []) ∷ []

copy_headers_lem_example :
    values_of "X-Trace" (copy_headers ("X-Trace" ∷ "Accept" ∷ []) traced traced)
    ≡ values_of "X-Trace" traced ++ copies "X-Trace" ("X-Trace" ∷ "Accept" ∷ []) traced
copy_headers_lem_example = copy_headers_lem "X-Trace" ("X-Trace" ∷ "Accept" ∷ []) traced traced
