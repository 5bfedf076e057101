-- ===== src/Device/Rehasher.antt =====
-- device/rehasher/rehasher.go: what a change of the instances does to the devices. The gauges and
-- the counters of the metrics are part of the state, those of the clock are left out.
pub mod Placement
use webpa_common.Base.{
  ℕ, zero, suc, ◌+◌, Bool, true, false, if◌then◌else◌, ltb, ◌==◌, Option, none, some, List, [], ◌∷◌,
  String, GoMap, lookup, insert, string_key, Outcome, ok, err, Go, ◌>>=◌, length, is_none,
}
use webpa_common.Device.Endpoint.{CloseReason, Device, GoError}
use webpa_common.Device.Manager.{Manager, disconnect_if, disconnect_all}

pub data Reason : Type 0 where
  service_discovery_error service_discovery_stopped service_discovery_no_instances : Reason

unfoldable pub reason_text : Reason → String
reason_text service_discovery_error = "service-discovery-error"
reason_text service_discovery_stopped = "service-discovery-stopped"
reason_text service_discovery_no_instances = "service-discovery-no-instances"

-- `monitor.Event`
pub record Event : Type 0 where
  pub service : String
  pub error : Option GoError
  pub stopped : Bool
  pub event_count : ℕ
  pub instances : List String

-- An accessor, asked for the bytes of an id.
abbrev pub Accessor : Type 0
Accessor = String → String × Option GoError

pub record Rehasher (M : Type 0) : Type 0 where
  pub services : GoMap String Bool
  pub accessor_factory : List String → Accessor
  pub is_registered : String → Bool
  pub connector : Manager M
  pub keep : GoMap String ℕ
  pub disconnect : GoMap String ℕ
  pub disconnect_all_count : List (String × Reason)

-- The predicate of `rehash`: why a device is closed, if it is.
judge : (String → Bool) → String × Option GoError → Option CloseReason
judge is_registered (i, some e) = some (record { err = some e; text = "rehash-error" })
judge is_registered (i, none) =
    if is_registered i then none else some (record { err = none; text = "rehash-other-instance" })

unfoldable pub visit : (String → Bool) → Accessor → String → Option CloseReason
unfolding judge
visit is_registered accessor id = judge is_registered (accessor id)

module _ {M : Type 0} where
  -- `keepCount` after the predicate has met each device.
  unfoldable pub kept : (String → Option CloseReason) → (ℕ → Device M) → GoMap String ℕ → ℕ
  kept f heap [] = 0
  kept f heap ((_, h) ∷ m) =
      let rest = kept f heap m in if is_none (f (heap h).id) then suc rest else rest

  unfoldable pub rehash : String → Accessor → Rehasher M → Go (Rehasher M)
  unfolding visit kept
  rehash svc accessor r = do
    let f = visit r.is_registered accessor
    let w = r.connector.registry
    (m, n) ← disconnect_if f r.connector
    ok (record r {
      connector = m;
      keep = insert svc (kept f w.heap w.data_map) r.keep;
      disconnect = insert svc n r.disconnect;
    })

  unfoldable pub disconnect_each : String → Option GoError → Reason → Rehasher M → Go (Rehasher M)
  unfolding reason_text
  disconnect_each svc e reason r = do
    (m, _) ← disconnect_all (record { err = e; text = reason_text reason }) r.connector
    ok (record r { connector = m; disconnect_all_count = (svc, reason) ∷ r.disconnect_all_count })

  unfoldable pub is_watched : String → Rehasher M → Bool
  is_watched svc r = elim (lookup svc r.services) [ none ↦ false | some b ↦ b ]

  -- The switch of `MonitorEvent`.
  unfoldable pub respond : Event → Rehasher M → Go (Rehasher M)
  unfolding disconnect_each rehash
  respond e r = elim e.error [
    | some x ↦ disconnect_each e.service (some x) service_discovery_error r
    | none ↦
        if e.stopped
        then disconnect_each e.service none service_discovery_stopped r
        else if e.event_count == 1
        then ok r
        else if ltb 0 (length e.instances)
        then rehash e.service (r.accessor_factory e.instances) r
        else disconnect_each e.service none service_discovery_no_instances r
  ]

  unfoldable pub monitor_event : Event → Rehasher M → Go (Rehasher M)
  unfolding respond is_watched
  monitor_event e r = if is_watched e.service r then respond e r else ok r
