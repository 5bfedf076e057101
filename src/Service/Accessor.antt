-- ===== src/Service/Accessor.antt =====
-- service/accessor.go. Accessors, routers and orders are the interfaces of that file: a caller of
-- them is modelled against every function of their types. Go returns the instance and the error
-- side by side, and so do they. The locks make each method one step.
use webpa_common.Base.{
  append, ℕ, Bool, true, false, if◌then◌else◌, Option, none, some, List, String, GoMap, lookup,
  string_key, ok, err, Go, panic, ◌>>=◌,
}

abbrev pub GoError : Type 0
GoError = String

-- What `Get` of an `Accessor` does, and `Route` of a `RouteTraffic`, and `Order` of an
-- `AccessorQueue`.
abbrev pub Accessor : Type 0
Accessor = List ℕ → String × Option GoError

abbrev pub Router : Type 0
Router = String → Option GoError

abbrev pub Queue : Type 0
Queue = List String → List String

abbrev pub no_instances : GoError
no_instances = "There are no instances available"

abbrev pub no_fail_overs : GoError
no_fail_overs = "no failover instances available"

abbrev pub fail_overs_failed : GoError
fail_overs_failed = "failovers could not find an instance"

unfoldable pub empty_accessor : Accessor
empty_accessor key = ("", some no_instances)

unfoldable pub default_traffic_router : Router
default_traffic_router instance_name = none

unfoldable pub default_order : Queue
default_order keys = keys

-- `MapAccessor`, with the texts of byte keys given by the conversion of Go.
unfoldable pub map_accessor : (List ℕ → String) → GoMap String String → Accessor
map_accessor text m key = elim (lookup (text key) m) [
  | some v ↦ (v, none)
  | none ↦ ("", some (append "No such key: " (text key)))
]

pub record AccessorValue : Type 0 where
  pub accessor : Option Accessor
  pub error : Option GoError

-- `ErrorChain`: the zero value, a first error, and an error on top of a chain.
pub data ErrorChain : Type 0 where
  no_errors : ErrorChain
  single : GoError → ErrorChain
  chained : GoError → ErrorChain → ErrorChain

unfoldable pub is_empty : ErrorChain → Bool
is_empty no_errors = true
is_empty (single _) = false
is_empty (chained _ _) = false

unfoldable pub add_error : Option GoError → ErrorChain → ErrorChain
unfolding is_empty
add_error none c = c
add_error (some e) c = if is_empty c then single e else chained e c

-- `Error()` of a chain. That of the zero value dereferences a nil error.
unfoldable pub chain_text : ErrorChain → Go String
chain_text no_errors = err panic
chain_text (single e) = ok e
chain_text (chained e c) = do inner ← chain_text c; ok (append e (append "(" (append inner ")")))

pub record RouteError : Type 0 where
  pub chain : ErrorChain
  pub instance_name : String

unfoldable pub route_error_text : RouteError → Go String
unfolding chain_text
route_error_text e = do
  reason ← chain_text e.chain
  ok (append "failed to route `" (append e.instance_name (append "`. reason: " reason)))
