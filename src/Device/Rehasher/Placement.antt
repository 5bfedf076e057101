-- ===== src/Device/Rehasher/Placement.antt =====
-- Which devices device/rehasher/rehasher.go keeps.
use webpa_common.Base.{
  ℕ, ◌≡◌, refl, Bool, true, false, ◌==◌, Option, none, some, [], ◌∷◌, String, lookup, string_key,
  ok, is_none, arith, inl, inr, ◌∙◌, ◌⊎◌,
}
use webpa_common.Device.Endpoint.{GoError}
use webpa_common.Device.Manager.{disconnect_all}
use webpa_common.Device.Registry.{Registry, get, len}
use webpa_common.Device.Registry.Sound.{IsSound}
use webpa_common.Device.Registry.Content.{IsShut}
use webpa_common.Device.Registry.Bulk.{remove_all_content}
use webpa_common.Device.Rehasher.{
  Rehasher, Event, visit, disconnect_each, respond, monitor_event, is_watched, reason_text,
  service_discovery_error, service_discovery_stopped, service_discovery_no_instances, Reason,
}

-- The events on which every device goes: an error of the service discovery, its end, or instances
-- that are all gone, later than the first time.
unfoldable pub IsLoss : Event → Type 0
IsLoss e =
    ((x : GoError) × (e.error ≡ some x))
    ⊎ ((e.error ≡ none) × (e.stopped ≡ true))
    ⊎ ((e.error ≡ none) × (e.stopped ≡ false) × ((e.event_count == 1) ≡ false) × (e.instances ≡ []))

module _ {M : Type 0} where
  -- A device belongs to this process if its id hashes, without an error, to a registered instance.
  abbrev pub belongs : Event → Rehasher M → String → Bool
  belongs e r id = is_none (visit r.is_registered (r.accessor_factory e.instances) id)

  loss_event :
      (e : Event) (r : Rehasher M)
      → lookup e.service r.services ≡ some true
      → IsLoss e
      → (x : Option GoError) × (why : Reason) × (monitor_event e r
          ≡ disconnect_each e.service x why r)
  unfolding monitor_event respond is_watched IsLoss
  loss_event e r wa (inl (x, er)) = (some x, service_discovery_error, ground arith)
  loss_event e r wa (inr (inl (er, st))) = (none, service_discovery_stopped, ground arith)
  loss_event e r wa (inr (inr (er, st, co, i))) =
      (none, service_discovery_no_instances, ground arith)

  -- On such an event of a service of the process no device stays in a sound registry: the registry
  -- is empty, and every device that was in it is closed.
  pub all_disconnected :
      (e : Event) (r : Rehasher M)
      → IsSound r.connector.registry
      → lookup e.service r.services ≡ some true
      → IsLoss e
      → (r' : Rehasher M) × (monitor_event e r ≡ ok r')
        × (len r'.connector.registry ≡ 0)
        × ((id : String) (h : ℕ)
            → get id r.connector.registry ≡ some h
            → IsShut h r'.connector.registry)
  unfolding disconnect_each disconnect_all
  all_disconnected e r s wa l =
      let (x, why, p) = loss_event e r wa l in
      let (w, gone, empty, closed) =
        remove_all_content (record { err = x; text = reason_text why }) r.connector.registry s in
      let r' : Rehasher M = record r {
        connector = record r.connector { registry = w };
        disconnect_all_count = (e.service, why) ∷ r.disconnect_all_count;
      } in
      let q : disconnect_each e.service x why r ≡ ok r' = rw (gone) refl in
      (r', p ∙ q, empty, closed)
