-- ===== src/Xhttp/Fanout/Requests.antt =====
-- xhttp/fanout: what requestResponse.go and endpoints.go put into the requests of a fanout and into
-- the response of the original request. Names of headers are canonical.
use webpa_common.Base.{
  Bool, false, none, some, List, [], ◌∷◌, ◌++◌, String, lookup, insert, delete, string_key, length,
  ok,
}
use webpa_common.Xhttp.Fanout.{Url, Header, Request, get, RequestFunc, ResponseFunc}

unfoldable pub values_of : String → Header → List String
values_of key h = elim (lookup key h) [ none ↦ [] | some vs ↦ vs ]

-- `target[key] = append(target[key], values...)`, if there are values
unfoldable pub append_values : String → List String → Header → Header
unfolding values_of
append_values key [] target = target
append_values key (v ∷ vs) target = insert key (values_of key target ++ v ∷ vs) target

unfoldable pub copy_headers : List String → Header → Header → Header
unfolding values_of append_values
copy_headers [] source target = target
copy_headers (key ∷ keys) source target =
    copy_headers keys source (append_values key (values_of key source) target)

module _ {C : Type 0} where
  unfoldable pub forward_body : Bool → RequestFunc C
  unfolding get
  forward_body follow_redirects ctx original fanout body =
      let bare = record fanout {
        content_length = length body;
        body = none;
        rewinds = false;
        header = delete "Content-Type" fanout.header;
      } in
      elim body [
        | [] ↦ ok (ctx, bare)
        | b ∷ bs ↦ ok (
          ctx,
          record bare {
            header = insert "Content-Type" (get "Content-Type" original.header ∷ []) bare.header;
            body = some (b ∷ bs);
            rewinds = follow_redirects;
          },
        )
      ]

  unfoldable pub forward_headers : List String → RequestFunc C
  unfolding copy_headers
  forward_headers keys ctx original fanout body =
      ok (ctx, record fanout { header = copy_headers keys original.header fanout.header })

  unfoldable pub use_path : String → RequestFunc C
  use_path path ctx original fanout body =
      ok (ctx, record fanout { url = record fanout.url { path = path; raw_path = "" } })

  unfoldable pub return_headers : List String → ResponseFunc C
  unfolding copy_headers
  return_headers keys ctx w result = elim result.response [
    | none ↦ (ctx, w)
    | some r ↦ (ctx, record w { header = copy_headers keys r.header w.header })
  ]

  -- `FixedEndpoints.FanoutURLs`
  unfoldable pub fixed_urls : List Url → Request C → List Url
  fixed_urls [] original = []
  fixed_urls (u ∷ us) original =
      record {
        scheme = u.scheme;
        host = u.host;
        path = original.url.path;
        raw_path = original.url.raw_path;
        raw_query = original.url.raw_query;
        fragment = original.url.fragment;
      }
      ∷ fixed_urls us original
