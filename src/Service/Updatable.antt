-- ===== src/Service/Updatable.antt =====
-- `UpdatableAccessor` of service/accessor.go. Its lock makes each method one step.
use webpa_common.Base.{ℕ, Option, none, some, List, String, string_key}
use webpa_common.Service.Accessor.{Accessor, GoError, no_instances}

pub record UpdatableAccessor : Type 0 where
  pub error : Option GoError
  pub current : Option Accessor

unfoldable pub get : List ℕ → UpdatableAccessor → String × Option GoError
get key ua = elim ua.error [
  | some e ↦ ("", some e)
  | none ↦ elim ua.current [ some a ↦ a key | none ↦ ("", some no_instances) ]
]

unfoldable pub set_error : Option GoError → UpdatableAccessor → UpdatableAccessor
set_error e ua = record ua { error = e; current = none }

unfoldable pub set_instances : Option Accessor → UpdatableAccessor → UpdatableAccessor
set_instances a ua = record ua { error = none; current = a }

unfoldable pub update : Option Accessor → Option GoError → UpdatableAccessor → UpdatableAccessor
update a e ua = record ua { error = e; current = a }
