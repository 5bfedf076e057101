-- ===== src/Xhttp/Fanout/Forwarding.antt =====
-- Which values of headers are forwarded to the endpoints of a fanout, and returned.
use webpa_common.Base.{
  ◌≡◌, refl, sym, ap, ◌∙◌, List, [], ◌∷◌, ◌++◌, String, string_key, String_discrete, ite, lookup,
  lookup-insert, Option, none, some,
}
use mathlib.Core.List.{append-nil, append_assoc}
use webpa_common.Xhttp.Fanout.{Header}
use webpa_common.Xhttp.Fanout.Requests.{values_of, append_values, copy_headers}

-- The values of a header in a source, once for each time its name is in a list.
abbrev pub copies : String → List String → Header → List String
copies name [] source = []
copies name (key ∷ keys) source =
    ite (String_discrete key name) (values_of name source ++ copies name keys source)
      (copies name keys source)

append_values_lem :
    (key name : String) (vs : List String) (h : Header)
    → values_of name (append_values key vs h)
      ≡ ite (String_discrete key name) (values_of name h ++ vs) (values_of name h)
unfolding append_values values_of
append_values_lem key name [] h =
    elim (String_discrete key name)
      as (λ d. values_of name h ≡ ite d (values_of name h ++ []) (values_of name h)) [
        | yes e ↦ sym (append-nil (values_of name h))
        | no e ↦ refl
      ]
append_values_lem key name (v ∷ vs) h =
    ap (λ (o : Option (List String)). elim o [ none ↦ [] | some ws ↦ ws ])
      (lookup-insert key name (values_of key h ++ v ∷ vs) h)
    ∙ (elim (String_discrete key name)
        as (λ d.
          (elim (ite d (some (values_of key h ++ v ∷ vs)) (lookup name h)) [
            | none ↦ []
            | some ws ↦ ws
          ])
          ≡ ite d (values_of name h ++ v ∷ vs) (values_of name h)) [
            | yes e ↦ ap (λ k. values_of k h ++ v ∷ vs) e
            | no e ↦ refl
          ])

-- After headers of some names are copied, a header has the values it had, and then the values that it
-- has in the source, once for each time its name is among those names.
pub copy_headers_lem :
    (name : String) (keys : List String) (source target : Header)
    → values_of name (copy_headers keys source target)
      ≡ values_of name target ++ copies name keys source
unfolding copy_headers
copy_headers_lem name [] source target = sym (append-nil (values_of name target))
copy_headers_lem name (key ∷ keys) source target =
    copy_headers_lem name keys source (append_values key (values_of key source) target)
    ∙ ap (λ vs. vs ++ copies name keys source)
        (append_values_lem key name (values_of key source) target)
    ∙ joined (String_discrete key name)
  where
    joined :
        (d : Dec (key ≡ name))
        → ite d (values_of name target ++ values_of key source) (values_of name target)
            ++ copies name keys source
          ≡ values_of name target
            ++ ite d (values_of name source ++ copies name keys source) (copies name keys source)
    joined (yes e) =
        ap (λ k. values_of name target ++ values_of k source ++ copies name keys source) e
        ∙ append_assoc (values_of name target) (values_of name source) (copies name keys source)
    joined (no e) = refl
