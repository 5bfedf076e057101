-- ===== src/Xhttp/Gate.antt =====
-- xhttp/gate/gate.go. The lock makes each method one step. The clock is an argument, and the gauge
-- of the metrics is part of the state.
pub mod Turns
use webpa_common.Base.{ℕ, Bool, true, false, if◌then◌else◌, String}

abbrev pub open_value : ℕ
open_value = 1

abbrev pub closed_value : ℕ
closed_value = 0

pub record Gate : Type 0 where
  pub is_open : Bool
  pub timestamp : ℕ
  pub gauge : ℕ

unfoldable pub new : Bool → ℕ → Gate
new initial now = record {
  is_open = initial;
  timestamp = now;
  gauge = if initial then open_value else closed_value;
}

unfoldable pub raise : ℕ → Gate → Gate × Bool
raise now g =
    if g.is_open
    then (g, false)
    else (record { is_open = true; timestamp = now; gauge = open_value }, true)

unfoldable pub lower : ℕ → Gate → Gate × Bool
lower now g =
    if g.is_open
    then (record { is_open = false; timestamp = now; gauge = closed_value }, true)
    else (g, false)

unfoldable pub state : Gate → Bool × ℕ
state g = (g.is_open, g.timestamp)

unfoldable pub text : Gate → String
text g = if g.is_open then "open" else "closed"
