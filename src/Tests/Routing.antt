-- ===== src/Tests/Routing.antt =====
-- Runs of service/accessor.go, device/devicegate/filter.go and event/multimap.go.
use webpa_common.Base.{
  ◌≡◌, refl, true, Option, none, some, [], ◌∷◌, String, String_discrete, GoMap, lookup, string_key,
  ok, is_none, All, subst,
}
use webpa_common.Event.MultiMap.{MultiMap, RawMap, entry, nested, texts, end}
use webpa_common.Service.Accessor.{Accessor, AccessorValue, GoError, Router, ErrorChain, RouteError}
use webpa_common.Service.Layered.{LayeredAccessor, try_each, value_at}
use webpa_common.Service.Layered.FailOver.{Callable, Ends, try_each_lem}
use webpa_common.Device.DeviceGate.{
  hashable, slice, Value, Metadata, Location, MatchResult, FilterGate, allow_connection, located,
  params_of,
}
use webpa_common.Device.DeviceGate.Admission.{Clean, IsHashable, Answers, allow_connection_lem}

abbrev pub answering : String → Accessor
answering i key = (i, none)

-- The router refuses one instance.
abbrev pub picky : Router
picky i = elim (String_discrete i "first") [ yes _ ↦ some "refused" | no _ ↦ none ]

abbrev pub sites : GoMap String AccessorValue
sites =
    ("a", record { accessor = some (answering "first"); error = none })
    ∷ ("b", record { accessor = some (answering "second"); error = none })
    ∷ []

sites-Callable : All (Callable (some picky) sites (7 ∷ [])) ("a" ∷ "b" ∷ [])
unfolding Callable value_at lookup String_discrete
sites-Callable = ((λ _. (answering "first", refl)), ((λ _. (answering "second", refl)), tt))

try_each_lem_example :
    (r : String × Option GoError) × (try_each (some picky) sites (7 ∷ []) ("a" ∷ "b" ∷ []) ≡ ok r)
    × Ends (some picky) sites (7 ∷ []) ("a" ∷ "b" ∷ []) r
try_each_lem_example = try_each_lem (some picky) sites (7 ∷ []) ("a" ∷ "b" ∷ []) sites-Callable

abbrev pub layers : LayeredAccessor
layers = record {
  router = some picky;
  accessor_queue = none;
  error = none;
  primary = some (answering "main");
  failover = some sites;
}

abbrev pub refused_layers : LayeredAccessor
refused_layers = record layers { primary = some (answering "first") }

abbrev pub degraded : RouteError
degraded = record { chain = ErrorChain.single "refused"; instance_name = "second" }

abbrev pub partners : Metadata String
partners = record {
  stored = λ key. some (slice (hashable "p" ∷ hashable "q" ∷ []));
  claims = λ key. none;
}

abbrev pub gate : FilterGate String
gate = record { filter_store = ("partner-id", ("q", true) ∷ []) ∷ []; allowed_filters = none }

CleanAt : Option (Value String × Location) → Type 0
CleanAt none = Unit
CleanAt (some (v, _)) = All IsHashable (params_of v)

partners-Clean : All (λ e. Clean partners e.0) gate.filter_store
unfolding Clean located params_of CleanAt
partners-Clean = ((λ v l e. subst CleanAt e (tt, (tt, tt))), tt)

allow_connection_lem_example :
    (r : Option MatchResult) × (allow_connection partners gate ≡ ok (is_none r, r))
    × Answers partners gate.filter_store r
allow_connection_lem_example = allow_connection_lem partners gate partners-Clean

abbrev pub raw : RawMap
raw = entry "IOT" (nested (entry "on" (texts ("a" ∷ "b" ∷ [])) end)) (entry "off" (texts []) end)

abbrev pub flat : MultiMap
flat = ("IOT.on", "a" ∷ "b" ∷ []) ∷ []
