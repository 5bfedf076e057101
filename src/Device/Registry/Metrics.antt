-- ===== src/Device/Registry/Metrics.antt =====
-- The metrics of device/registry.go balance, and the limit holds.
use webpa_common.Base.{
  ℕ, suc, ◌+◌, ◌≤◌, ◌<◌, ◌≡◌, if◌then◌else◌, Option, List, [], ◌∷◌, String, GoMap, lookup, length,
  length-insert, length-delete, string_key, arith, Option-cases,
}
use webpa_common.Device.Endpoint.{Device, CloseReason}
use webpa_common.Device.Registry.{Registry, put, drop_id, add_duplications, gather}
use webpa_common.Device.Registry.Sound.{IsSound, shut_at}
use webpa_common.Device.Registry.Steps.{
  added, rejected, accepted, replaced, removed, dropped, match_removed, each_removed, if_removed,
  each_shut, all_removed, match_removed-IsSound,
}

module _ {M : Type 0} where
  -- Each connect or refusal is matched by a disconnect or by a device that is still there, and a
  -- positive limit is not passed.
  pub record IsBalanced (w : Registry M) : Type 0 where
    pub balanced : w.connect + w.limit_reached ≡ w.disconnect + length w.data_map
    pub bounded : 0 < w.limit → length w.data_map ≤ w.limit

  pub added-IsBalanced : (h : ℕ) (w : Registry M) → IsBalanced w → IsBalanced (added h w).0
  unfolding added rejected accepted replaced put shut_at add_duplications
  added-IsBalanced h w b = ground (
    arith,
    length-insert (w.heap h).id h w.data_map,
    Option-cases (lookup (w.heap h).id w.data_map),
  )

  pub removed-IsBalanced :
      (id : String) (reason : CloseReason) (w : Registry M)
      → IsSound w
      → IsBalanced w
      → IsBalanced (removed id reason w).0
  unfolding removed dropped drop_id shut_at
  removed-IsBalanced id reason w s b =
      ground (arith, length-delete id w.data_map s.unique, Option-cases (lookup id w.data_map))

  -- What a removal loop has taken out is what it has counted.
  pub record IsCounted (w w' : Registry M) (n n' : ℕ) : Type 0 where
    pub lengths : length w'.data_map + n' ≡ length w.data_map + n
    pub connects : w'.connect ≡ w.connect
    pub refusals : w'.limit_reached ≡ w.limit_reached
    pub disconnects : w'.disconnect ≡ w.disconnect
    pub limits : w'.limit ≡ w.limit

  match_removed-IsCounted :
      (h : ℕ) (reason : CloseReason) (n : ℕ) (w : Registry M)
      → IsSound w
      → let r = match_removed h reason w in IsCounted w r.0 n (if r.1 then suc n else n)
  unfolding match_removed drop_id shut_at
  match_removed-IsCounted h reason n w s = ground (
    arith,
    length-delete (w.heap h).id w.data_map s.unique,
    Option-cases (lookup (w.heap h).id w.data_map),
  )

  pub each_removed-IsCounted :
      (ms : List (ℕ × CloseReason)) (n : ℕ) (w : Registry M)
      → IsSound w
      → IsCounted w (each_removed ms n w).0 n (each_removed ms n w).1
  unfolding each_removed
  each_removed-IsCounted [] n w s = ground arith
  each_removed-IsCounted ((h, reason) ∷ ms) n w s =
      let (w', hit) = match_removed h reason w in
      let n' = if hit then suc n else n in
      ground (
        arith,
        match_removed-IsCounted h reason n w s,
        each_removed-IsCounted ms n' w' (match_removed-IsSound h reason w s),
      )

  pub if_removed-IsBalanced :
      (f : Device M → Option CloseReason) (w : Registry M)
      → IsSound w
      → IsBalanced w
      → IsBalanced (if_removed f w).0
  unfolding if_removed
  if_removed-IsBalanced f w s b =
      ground (arith, each_removed-IsCounted (gather f w.heap w.data_map) 0 w s)

  pub each_shut-IsCounted :
      (m : GoMap String ℕ) (reason : CloseReason) (w : Registry M)
      → IsCounted w (each_shut m reason w) 0 0
  unfolding each_shut shut_at
  each_shut-IsCounted [] reason w = ground arith
  each_shut-IsCounted ((_, h) ∷ m) reason w =
      ground (arith, each_shut-IsCounted m reason (shut_at h reason w))

  pub all_removed-IsBalanced :
      (reason : CloseReason) (w : Registry M) → IsBalanced w → IsBalanced (all_removed reason w).0
  unfolding all_removed
  all_removed-IsBalanced reason w b =
      ground (arith, each_shut-IsCounted w.data_map reason (record w { data_map = []; count = 0 }))
