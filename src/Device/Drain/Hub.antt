-- ===== src/Device/Drain/Hub.antt =====
-- The registry of a hub (device/registry.go) as what a drain job uses of `device.Registry` and
-- `device.Connector`, whose `Disconnect` is `registry.remove` (device/manager.go).
use webpa_common.Base.{
  ℕ, ◌+◌, ◌<◌, ltb, ◌≡◌, ◌≢◌, refl, false, not, if◌then◌else◌, none, some, [], ◌∷◌, String, GoMap,
  lookup, delete, UniqueKeys, string_key, is_none, length, ok, arith, inl, inr, Option-cases,
  lookup-delete, length-delete, ap, sym, ◌∙◌,
}
use webpa_common.Device.Endpoint.{Device, CloseReason}
use webpa_common.Device.Registry.{Registry, len, remove, drop_id}
use webpa_common.Device.Registry.Sound.{IsSound, shut_at, lookup-Keyed}
use webpa_common.Device.Endpoint.Closing.{shut}
use webpa_common.Device.Registry.Steps.{removed, dropped, removed-IsSound, remove_lem}
use webpa_common.Device.Drain.Batches.{Fleet, Running, is_running}
use webpa_common.Device.Drain.Batches.Quiet.{IsFleet, alone, fewer, loop_quiet}
use webpa_common.Device.Drain.{Job, normalize, disconnect_batch_size, progress}

-- `device.CloseReason{Text: Drained}`
abbrev pub drained_reason : CloseReason
drained_reason = record { err = none; text = "drained" }

module _ {M : Type 0} where
  -- The devices in the order of the map.
  unfoldable pub entries : (ℕ → Device M) → GoMap String ℕ → GoMap String (Device M)
  entries heap [] = []
  entries heap ((id, h) ∷ m) = (id, heap h) ∷ entries heap m

  unfoldable pub hub : Fleet ((w : Registry M) × IsSound w) (Device M)
  unfolding entries
  hub = record {
    devices = λ (w, _). entries w.heap w.data_map;
    disconnect = λ id (w, s).
        let (w', g) = removed id drained_reason w in
        ((w', removed-IsSound id drained_reason w s), not (is_none g));
  }

  length-entries : (heap : ℕ → Device M) (m : GoMap String ℕ) → length (entries heap m) ≡ length m
  unfolding entries
  length-entries heap [] = refl
  length-entries heap ((id, h) ∷ m) = omega (arith, length-entries heap m)

  lookup-entries :
      (heap : ℕ → Device M) (m : GoMap String ℕ) (id : String)
      → is_none (lookup id (entries heap m)) ≡ is_none (lookup id m)
  unfolding entries lookup
  lookup-entries heap [] id = refl
  lookup-entries heap ((j, h) ∷ m) id = ground (arith, lookup-entries heap m id)

  entries-UniqueKeys :
      (heap : ℕ → Device M) (m : GoMap String ℕ) → UniqueKeys m → UniqueKeys (entries heap m)
  unfolding entries
  entries-UniqueKeys heap [] u = tt
  entries-UniqueKeys heap ((id, h) ∷ m) u =
      (ground (arith, lookup-entries heap m id, u.0), entries-UniqueKeys heap m u.1)

  data_map-removed :
      (id : String) (w : Registry M)
      → (removed id drained_reason w).0.data_map
        ≡ elim (lookup id w.data_map) [ none ↦ w.data_map | some _ ↦ delete id w.data_map ]
  unfolding removed dropped shut_at drop_id
  data_map-removed id w = elim (Option-cases (lookup id w.data_map)) [
    | inl e ↦ ground (arith, e)
    | inr (g, e) ↦ ground (arith, e)
  ]

  found-removed :
      (id : String) (w : Registry M)
      → not (is_none (removed id drained_reason w).1)
        ≡ not (is_none (lookup id (entries w.heap w.data_map)))
  unfolding removed
  found-removed id w = ground (arith, lookup-entries w.heap w.data_map id)

  kept-removed :
      (id j : String) (w w' : Registry M)
      → id ≢ j
      → w' ≡ (removed id drained_reason w).0
      → is_none (lookup j (entries w'.heap w'.data_map))
        ≡ is_none (lookup j (entries w.heap w.data_map))
  kept-removed id j w w' ne e = ground (
    arith,
    ap (λ x. x.data_map) e,
    lookup-entries w.heap w.data_map j,
    lookup-entries w'.heap w'.data_map j,
    data_map-removed id w,
    lookup-delete id j w.data_map,
  )

  -- An id has its device.
  device-entries :
      (heap : ℕ → Device M) (m : GoMap String ℕ) (id : String)
      → lookup id (entries heap m) ≡ elim (lookup id m) [ none ↦ none | some h ↦ some (heap h) ]
  unfolding entries lookup
  device-entries heap [] id = refl
  device-entries heap ((j, h) ∷ m) id = ground (arith, device-entries heap m id)

  heap-removed :
      (id : String) (h : ℕ) (w : Registry M)
      → IsSound w
      → (w.heap h).id ≢ id
      → (removed id drained_reason w).0.heap h ≡ w.heap h
  unfolding removed dropped shut_at drop_id
  heap-removed id h w s ne = elim (Option-cases (lookup id w.data_map)) [
    | inl e ↦ ground (arith, e)
    | inr (g, e) ↦
        let other : h ≢ g =
          λ p. ne (ap (λ x. (w.heap x).id) p ∙ lookup-Keyed w.heap id g w.data_map s.keyed e) in
        ground (arith, e, other)
  ]

  kept_device :
      (id j : String) (w w' : Registry M)
      → IsSound w
      → id ≢ j
      → w' ≡ (removed id drained_reason w).0
      → lookup j (entries w'.heap w'.data_map) ≡ lookup j (entries w.heap w.data_map)
  kept_device id j w w' s ne e = elim (Option-cases (lookup j w.data_map)) [
    | inl n ↦ ground (
      arith,
      n,
      ne,
      ap (λ x. x.data_map) e,
      device-entries w.heap w.data_map j,
      device-entries w'.heap w'.data_map j,
      data_map-removed id w,
      lookup-delete id j w.data_map,
    )
    | inr (h, n) ↦
        let same : w'.heap h ≡ w.heap h =
          ap (λ x. x.heap h) e
          ∙ heap-removed id h w s
              (λ p. ne (sym p ∙ lookup-Keyed w.heap j h w.data_map s.keyed n)) in
        ground (
          arith,
          n,
          ne,
          same,
          ap (λ x. x.data_map) e,
          device-entries w.heap w.data_map j,
          device-entries w'.heap w'.data_map j,
          data_map-removed id w,
          lookup-delete id j w.data_map,
        )
  ]

  -- The id is gone, and its device is closed.
  gone-removed :
      (id : String) (w w' : Registry M)
      → w' ≡ (removed id drained_reason w).0
      → lookup id (entries w'.heap w'.data_map) ≡ none
  gone-removed id w w' e = ground (
    arith,
    ap (λ x. x.data_map) e,
    device-entries w'.heap w'.data_map id,
    data_map-removed id w,
    lookup-delete id id w.data_map,
  )

  shut-removed :
      (id : String) (g : ℕ) (w : Registry M)
      → lookup id w.data_map ≡ some g
      → (removed id drained_reason w).0.heap g ≡ shut drained_reason (w.heap g)
  unfolding removed dropped shut_at drop_id
  shut-removed id g w e = ground (arith, e)

  counted-removed :
      (id : String) (w w' : Registry M)
      → UniqueKeys w.data_map
      → w' ≡ (removed id drained_reason w).0
      → length (entries w.heap w.data_map)
        ≡ length (entries w'.heap w'.data_map)
          + (if not (is_none (removed id drained_reason w).1) then 1 else 0)
  unfolding removed
  counted-removed id w w' u e = ground (
    arith,
    ap (λ x. x.data_map) e,
    length-entries w.heap w.data_map,
    length-entries w'.heap w'.data_map,
    data_map-removed id w,
    length-delete id w.data_map u,
  )

  -- What the drainer relies on holds of the registry.
  pub hub-IsFleet : IsFleet hub
  unfolding hub
  hub-IsFleet = record {
    unique = λ (w, s). entries-UniqueKeys w.heap w.data_map s.unique;
    found = λ id (w, s). found-removed id w;
    kept = λ id j (w, s) ne. kept-removed id j w (removed id drained_reason w).0 ne refl;
    counted = λ id (w, s). counted-removed id w (removed id drained_reason w).0 s.unique refl;
  }

  -- On a sound registry the `Disconnect` that a drain job calls is `registry.remove`, which does
  -- not panic; it reports whether the id had a device; the id has none afterwards, and the device that
  -- it had is closed, with the reason of a drain if it was still open; every other id has the very device it had, unchanged, or none
  -- as before; and the number of devices falls by one if there was one, and stays otherwise.
  pub hub_refines :
      (id j : String) (w : Registry M) (s : IsSound w)
      → id ≢ j
      → (remove id drained_reason w
          ≡ ok ((hub.disconnect id (w, s)).0.0, (removed id drained_reason w).1))
        × ((hub.disconnect id (w, s)).1 ≡ not (is_none (lookup id (hub.devices (w, s)))))
        × (lookup id (hub.devices (hub.disconnect id (w, s)).0) ≡ none)
        × ((g : ℕ)
            → lookup id w.data_map ≡ some g
            → (hub.disconnect id (w, s)).0.0.heap g ≡ shut drained_reason (w.heap g))
        × (lookup j (hub.devices (hub.disconnect id (w, s)).0) ≡ lookup j (hub.devices (w, s)))
        × (len w
            ≡ len (hub.disconnect id (w, s)).0.0 + (if (hub.disconnect id (w, s)).1 then 1 else 0))
  unfolding hub len
  hub_refines id j w s ne =
      let n = counted-removed id w (removed id drained_reason w).0 s.unique refl in
      (
        remove_lem id drained_reason w s,
        found-removed id w,
        gone-removed id w (removed id drained_reason w).0 refl,
        (λ g e. shut-removed id g w e),
        kept_device id j w (removed id drained_reason w).0 s ne refl,
        omega (
          arith,
          n,
          length-entries w.heap w.data_map,
          length-entries (removed id drained_reason w).0.heap
              (removed id drained_reason w).0.data_map,
        ),
      )

  length-hub : (w : (v : Registry M) × IsSound v) → length (hub.devices w) ≡ len w.0
  unfolding hub len
  length-hub (w, s) = length-entries w.heap w.data_map

  normalize_default :
      (percentage : ℕ → ℕ → ℕ) (n : ℕ) (j : Job (Device M))
      → j.count ≡ 0
      → j.percent ≡ 0
      → ((normalize percentage n j).count ≡ n)
        × (0 < (
            if ltb 0 (normalize percentage n j).rate
            then (normalize percentage n j).rate
            else disconnect_batch_size))
        × ((normalize percentage n j).drain_filter ≡ j.drain_filter)
  unfolding normalize
  normalize_default percentage n j c p = (ground (arith, c, p), ground arith, ground arith)

  -- What `Start` makes of a job, after as many quiet rounds as there are devices.
  abbrev pub ended_job :
      (ℕ → ℕ → ℕ)
      → Job (Device M)
      → ℕ
      → ℕ
      → ((w : Registry M) × IsSound w)
      → Running ((w : Registry M) × IsSound w)
  ended_job percentage j now total w =
      alone hub (normalize percentage (len w.0) j) disconnect_batch_size now total (len w.0) w

  -- A job with no count, percentage or filter, which is left alone by everybody else on a sound
  -- registry of fewer than 2^31 devices, with any rate or none: after as many rounds as there were
  -- devices its loop is over, no device is left, and all of them were visited and drained.
  pub hub_drained :
      (percentage : ℕ → ℕ → ℕ) (j : Job (Device M)) (now total : ℕ) (w : Registry M) (s : IsSound w)
      → j.count ≡ 0
      → j.percent ≡ 0
      → j.drain_filter ≡ none
      → len w < 2147483648
      → (is_running (ended_job percentage j now total (w, s)) ≡ false)
        × (len (ended_job percentage j now total (w, s)).fleet.0 ≡ 0)
        × ((progress (ended_job percentage j now total (w, s)).t).visited ≡ len w)
        × ((progress (ended_job percentage j now total (w, s)).t).drained ≡ len w)
  hub_drained percentage j now total w s c p f small =
      let (n, b, g) = normalize_default percentage (len w) j c p in
      let e = length-hub (w, s) in
      let e' = length-hub (ended_job percentage j now total (w, s)).fleet in
      let (over, v, d, l) =
        loop_quiet hub hub-IsFleet (normalize percentage (len w) j) disconnect_batch_size now total
          (len w) (w, s) (ground (arith, g, f)) (omega (arith, n, small)) b (omega (arith, n)) in
      let all : fewer (normalize percentage (len w) j).count (length (hub.devices (w, s))) ≡ len w =
        ground (arith, n, e) in
      (over, omega (arith, l, all, e, e'), omega (arith, v, all), omega (arith, d, all))
