-- ===== src/Device/Registry/Steps.antt =====
-- What the methods of a sound registry return, once it is known that no close panics.
use webpa_common.Base.{
  ℕ, suc, ◌+◌, ◌≡◌, refl, Bool, true, false, ◌&&◌, if◌then◌else◌, Option, none, some, List, [], ◌∷◌,
  String, GoMap, lookup, length, string_key, ok, ltb, arith, Option-cases, inl, inr,
}
use webpa_common.Device.Endpoint.{Device, CloseReason}
use webpa_common.Device.Registry.{
  Registry, Error, device_limit_reached, limit_reason, duplicate_reason, put, add_duplications, add,
  drop_id, remove, gather, remove_matched, remove_each, remove_if, close_each, remove_all,
}
use webpa_common.Device.Registry.Sound.{
  IsSound, shut_at, close_at_lem, shut_at-IsSound, add_duplications-IsSound, put-IsSound,
  drop_id-IsSound, metrics-IsSound,
}

module _ {M : Type 0} where
  -- Whether one more device would pass the limit.
  abbrev pub is_full : Registry M → Bool
  is_full w = ltb 0 w.limit && ltb w.limit (length w.data_map + 1)

  unfoldable pub rejected : ℕ → Registry M → Registry M
  rejected h w =
      shut_at h limit_reason
        (record w { limit_reached = w.limit_reached + 1; disconnect = w.disconnect + 1 })

  unfoldable pub accepted : ℕ → Registry M → Registry M
  accepted h w = let w' = put h w in record w' { connect = w'.connect + 1 }

  unfoldable pub replaced : ℕ → ℕ → Registry M → Registry M
  replaced h g w =
      let w1 = put h w in
      let w2 = record w1 { disconnect = w1.disconnect + 1; duplicates = w1.duplicates + 1 } in
      let w3 = shut_at g duplicate_reason (add_duplications h g w2) in
      record w3 { connect = w3.connect + 1 }

  unfoldable pub added : ℕ → Registry M → Registry M × Option Error
  added h w = elim (lookup (w.heap h).id w.data_map) [
    | none ↦ if is_full w then (rejected h w, some device_limit_reached) else (accepted h w, none)
    | some g ↦ (replaced h g w, none)
  ]

  unfoldable pub dropped : ℕ → String → CloseReason → Registry M → Registry M
  dropped g id reason w =
      let w1 = drop_id id w in shut_at g reason (record w1 { disconnect = w1.disconnect + 1 })

  unfoldable pub removed : String → CloseReason → Registry M → Registry M × Option ℕ
  removed id reason w = elim (lookup id w.data_map) [
    | none ↦ (record w { count = length w.data_map }, none)
    | some g ↦ (dropped g id reason w, some g)
  ]

  unfoldable pub match_removed : ℕ → CloseReason → Registry M → Registry M × Bool
  match_removed h reason w = elim (lookup (w.heap h).id w.data_map) [
    | none ↦ (w, false)
    | some _ ↦ (shut_at h reason (drop_id (w.heap h).id w), true)
  ]

  unfoldable pub each_removed : List (ℕ × CloseReason) → ℕ → Registry M → Registry M × ℕ
  each_removed [] n w = (w, n)
  each_removed ((h, reason) ∷ rest) n w =
      let (w', hit) = match_removed h reason w in each_removed rest (if hit then suc n else n) w'

  unfoldable pub if_removed : (Device M → Option CloseReason) → Registry M → Registry M × ℕ
  if_removed f w =
      let (w', n) = each_removed (gather f w.heap w.data_map) 0 w in
      (record w' { disconnect = w'.disconnect + n }, n)

  unfoldable pub each_shut : GoMap String ℕ → CloseReason → Registry M → Registry M
  each_shut [] reason w = w
  each_shut ((_, h) ∷ rest) reason w = each_shut rest reason (shut_at h reason w)

  unfoldable pub all_removed : CloseReason → Registry M → Registry M × ℕ
  all_removed reason w =
      let w' = each_shut w.data_map reason (record w { data_map = []; count = 0 }) in
      (record w' { disconnect = w'.disconnect + length w.data_map }, length w.data_map)

  pub add_lem : (h : ℕ) (w : Registry M) → IsSound w → add h w ≡ ok (added h w)
  unfolding add added rejected accepted replaced put add_duplications
  add_lem h w s = elim (Option-cases (lookup (w.heap h).id w.data_map)) [
    | inl e ↦ ground (
      arith,
      close_at_lem h limit_reason
          (record w { limit_reached = w.limit_reached + 1; disconnect = w.disconnect + 1 })
          (s.devices h),
    )
    | inr (g, e) ↦
        let w1 = put h w in
        let w2 = record w1 { disconnect = w1.disconnect + 1; duplicates = w1.duplicates + 1 } in
        let w3 = add_duplications h g w2 in
        rw (e, add, added)
          (rw (
            close_at_lem g duplicate_reason w3 (
              (add_duplications-IsSound h g w2 (
                  metrics-IsSound w1 w1.limit_reached w1.connect (w1.disconnect + 1)
                    (w1.duplicates + 1) (put-IsSound h w s))).devices
                g)))
  ]

  pub remove_lem :
      (id : String) (reason : CloseReason) (w : Registry M)
      → IsSound w
      → remove id reason w ≡ ok (removed id reason w)
  unfolding remove removed dropped drop_id
  remove_lem id reason w s = elim (Option-cases (lookup id w.data_map)) [
    | inl e ↦ ground arith
    | inr (g, e) ↦
        let w1 = drop_id id w in
        rw (e, remove, removed)
          (rw (close_at_lem g reason (record w1 { disconnect = w1.disconnect + 1 }) (s.devices g)))
  ]

  match_removed_lem :
      (h : ℕ) (reason : CloseReason) (w : Registry M)
      → IsSound w
      → remove_matched h reason w ≡ ok (match_removed h reason w)
  unfolding remove_matched match_removed drop_id
  match_removed_lem h reason w s =
      ground (arith, close_at_lem h reason (drop_id (w.heap h).id w) (s.devices h))

  pub match_removed-IsSound :
      (h : ℕ) (reason : CloseReason) (w : Registry M)
      → IsSound w
      → IsSound (match_removed h reason w).0
  unfolding match_removed
  match_removed-IsSound h reason w s = ground (
    arith,
    shut_at-IsSound h reason (drop_id (w.heap h).id w) (drop_id-IsSound (w.heap h).id w s),
  )

  pub each_removed-IsSound :
      (ms : List (ℕ × CloseReason)) (n : ℕ) (w : Registry M)
      → IsSound w
      → IsSound (each_removed ms n w).0
  unfolding each_removed
  each_removed-IsSound [] n w s = s
  each_removed-IsSound ((h, reason) ∷ ms) n w s =
      let (w', hit) = match_removed h reason w in
      each_removed-IsSound ms (if hit then suc n else n) w' (match_removed-IsSound h reason w s)

  each_removed_lem :
      (ms : List (ℕ × CloseReason)) (n : ℕ) (w : Registry M)
      → IsSound w
      → remove_each ms n w ≡ ok (each_removed ms n w)
  unfolding remove_each each_removed
  each_removed_lem [] n w s = refl
  each_removed_lem ((h, reason) ∷ ms) n w s =
      let (w', hit) = match_removed h reason w in
      rw (match_removed_lem h reason w s)
        (each_removed_lem ms (if hit then suc n else n) w' (match_removed-IsSound h reason w s))

  pub remove_if_lem :
      (f : Device M → Option CloseReason) (w : Registry M)
      → IsSound w
      → remove_if f w ≡ ok (if_removed f w)
  unfolding remove_if if_removed
  remove_if_lem f w s = rw (each_removed_lem (gather f w.heap w.data_map) 0 w s)

  pub each_shut-IsSound :
      (m : GoMap String ℕ) (reason : CloseReason) (w : Registry M)
      → IsSound w
      → IsSound (each_shut m reason w)
  unfolding each_shut
  each_shut-IsSound [] reason w s = s
  each_shut-IsSound ((_, h) ∷ m) reason w s =
      each_shut-IsSound m reason (shut_at h reason w) (shut_at-IsSound h reason w s)

  close_each_lem :
      (m : GoMap String ℕ) (reason : CloseReason) (w : Registry M)
      → IsSound w
      → close_each m reason w ≡ ok (each_shut m reason w)
  unfolding close_each each_shut
  close_each_lem [] reason w s = refl
  close_each_lem ((_, h) ∷ m) reason w s =
      rw (close_at_lem h reason w (s.devices h))
        (close_each_lem m reason (shut_at h reason w) (shut_at-IsSound h reason w s))

  emptied-IsSound : (w : Registry M) → IsSound w → IsSound (record w { data_map = []; count = 0 })
  emptied-IsSound w s = record { devices = s.devices; unique = tt; keyed = tt; counted = refl }

  pub remove_all_lem :
      (reason : CloseReason) (w : Registry M)
      → IsSound w
      → remove_all reason w ≡ ok (all_removed reason w)
  unfolding remove_all all_removed
  remove_all_lem reason w s = rw (
      close_each_lem w.data_map reason (record w { data_map = []; count = 0 })
        (emptied-IsSound w s))

  pub added-IsSound : (h : ℕ) (w : Registry M) → IsSound w → IsSound (added h w).0
  unfolding added rejected accepted replaced
  added-IsSound h w s = elim (Option-cases (lookup (w.heap h).id w.data_map)) [
    | inl e ↦ ground (
      arith,
      shut_at-IsSound h limit_reason
          (record w { limit_reached = w.limit_reached + 1; disconnect = w.disconnect + 1 })
          (metrics-IsSound w (w.limit_reached + 1) w.connect (w.disconnect + 1) w.duplicates s),
      metrics-IsSound w1 w1.limit_reached (w1.connect + 1) w1.disconnect w1.duplicates s1,
    )
    | inr (g, e) ↦
        let w2 = record w1 { disconnect = w1.disconnect + 1; duplicates = w1.duplicates + 1 } in
        let s2 =
          metrics-IsSound w1 w1.limit_reached w1.connect (w1.disconnect + 1) (w1.duplicates + 1)
            s1 in
        let w3 = shut_at g duplicate_reason (add_duplications h g w2) in
        let s3 =
          shut_at-IsSound g duplicate_reason (add_duplications h g w2)
            (add_duplications-IsSound h g w2 s2) in
        rw (e, added)
          (metrics-IsSound w3 w3.limit_reached (w3.connect + 1) w3.disconnect w3.duplicates s3)
  ]
    where
      w1 : Registry M
      w1 = put h w

      s1 : IsSound w1
      s1 = put-IsSound h w s

  pub removed-IsSound :
      (id : String) (reason : CloseReason) (w : Registry M)
      → IsSound w
      → IsSound (removed id reason w).0
  unfolding removed dropped
  removed-IsSound id reason w s = elim (Option-cases (lookup id w.data_map)) [
    | inl e ↦
        rw (e, removed)
          (record { devices = s.devices; unique = s.unique; keyed = s.keyed; counted = refl })
    | inr (g, e) ↦
        let w1 = drop_id id w in
        let s1 = drop_id-IsSound id w s in
        rw (e, removed)
          (shut_at-IsSound g reason (record w1 { disconnect = w1.disconnect + 1 })
            (metrics-IsSound w1 w1.limit_reached w1.connect (w1.disconnect + 1) w1.duplicates s1))
  ]

  pub if_removed-IsSound :
      (f : Device M → Option CloseReason) (w : Registry M) → IsSound w → IsSound (if_removed f w).0
  unfolding if_removed
  if_removed-IsSound f w s =
      let (w', n) = each_removed (gather f w.heap w.data_map) 0 w in
      metrics-IsSound w' w'.limit_reached w'.connect (w'.disconnect + n) w'.duplicates
        (each_removed-IsSound (gather f w.heap w.data_map) 0 w s)

  pub all_removed-IsSound :
      (reason : CloseReason) (w : Registry M) → IsSound w → IsSound (all_removed reason w).0
  unfolding all_removed
  all_removed-IsSound reason w s =
      let w' = each_shut w.data_map reason (record w { data_map = []; count = 0 }) in
      metrics-IsSound w' w'.limit_reached w'.connect (w'.disconnect + length w.data_map)
        w'.duplicates
        (each_shut-IsSound w.data_map reason (record w { data_map = []; count = 0 })
          (emptied-IsSound w s))
