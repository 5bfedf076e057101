-- ===== src/Device/Registry/Content.antt =====
-- Which devices device/registry.go holds after each method, and which it has closed.
use webpa_common.Base.{
  ℕ, ◌≡◌, ◌≢◌, true, false, Option, none, some, String, lookup, lookup-insert, lookup-delete,
  string_key, String_discrete, ite, ok, arith, Option-cases, Bool-cases, inl, inr, ◌⊎◌,
}
use webpa_common.Device.Endpoint.{CloseReason}
use webpa_common.Device.Endpoint.Closing.{is_open-shut}
use webpa_common.Device.Registry.{
  Registry, Error, device_limit_reached, limit_reason, duplicate_reason, put, add_duplications,
  drop_id, add, remove, get,
}
use webpa_common.Device.Registry.Sound.{IsSound, shut_at}
use webpa_common.Device.Registry.Steps.{
  is_full, added, rejected, accepted, replaced, removed, dropped, add_lem, remove_lem,
}

module _ {M : Type 0} where
  -- The device at an address is closed.
  abbrev pub IsShut : ℕ → Registry M → Type 0
  IsShut h w = (w.heap h).is_open ≡ false

  -- In a sound registry, `add` fails exactly if the id is new and one more device would pass a
  -- positive limit. Then the map stays and the new device is closed. Otherwise the id maps to the
  -- new device, every other id to what it did, and a device that was there under the id is closed.
  pub add_content :
      (h : ℕ) (w : Registry M)
      → IsSound w
      → (w' : Registry M) × (r : Option Error) × (add h w ≡ ok (w', r))
        × (((r ≡ some device_limit_reached)
              × (lookup (w.heap h).id w.data_map ≡ none)
              × (is_full w ≡ true)
              × (w'.data_map ≡ w.data_map)
              × IsShut h w')
            ⊎ ((r ≡ none)
                × ((lookup (w.heap h).id w.data_map ≢ none) ⊎ (is_full w ≡ false))
                × ((id : String)
                    → get id w' ≡ ite (String_discrete (w.heap h).id id) (some h) (get id w))
                × ((g : ℕ) → lookup (w.heap h).id w.data_map ≡ some g → IsShut g w')))
  unfolding added rejected accepted replaced shut_at put add_duplications get
  add_content h w s = (
    (added h w).0,
    (added h w).1,
    add_lem h w s,
    elim (Option-cases (lookup id' w.data_map)) [
      | inl e ↦ elim (Bool-cases (is_full w)) [
        | inl full ↦ inl (
          ground arith,
          e,
          full,
          ground arith,
          ground (arith, is_open-shut limit_reason (w.heap h)),
        )
        | inr room ↦ inr (
          ground arith,
          inr room,
          (λ id. ground (arith, lookup-insert id' id h w.data_map)),
          (λ g p. ground arith),
        )
      ]
      | inr (g, e) ↦ inr (
        ground arith,
        inl (λ p. ground arith),
        (λ id. ground (arith, lookup-insert id' id h w.data_map)),
        (λ g' p.
            ground
              (arith, is_open-shut duplicate_reason ((add_duplications h g (put h w)).heap g))),
      )
    ],
  )
    where
      id' : String
      id' = (w.heap h).id

  -- In a sound registry, `remove` leaves its id unmapped and every other id as it was. It returns
  -- the device that was there, closed, or nothing if there was none.
  pub remove_content :
      (id : String) (reason : CloseReason) (w : Registry M)
      → IsSound w
      → (w' : Registry M) × (remove id reason w ≡ ok (w', get id w))
        × ((j : String) → get j w' ≡ ite (String_discrete id j) none (get j w))
        × ((g : ℕ) → get id w ≡ some g → IsShut g w')
  unfolding removed dropped shut_at drop_id get
  remove_content id reason w s = (
    (removed id reason w).0,
    rw (remove_lem id reason w s) (ground (arith, Option-cases (lookup id w.data_map))),
    (λ j. ground (arith, Option-cases (lookup id w.data_map), lookup-delete id j w.data_map)),
    (λ g e. ground (arith, is_open-shut reason (w.heap g))),
  )
