-- ===== src/Device/Registry/History.antt =====
-- Sequences of calls on device/registry.go.
use webpa_common.Base.{ℕ, ◌≡◌, refl, Option, List, [], ◌∷◌, String, ok, Go, ◌>>=◌, arith}
use webpa_common.Device.Endpoint.{Device, CloseReason}
use webpa_common.Device.Endpoint.Closing
use webpa_common.Device.Registry.{Registry, new_registry, add, remove, remove_if, remove_all}
use webpa_common.Device.Registry.Sound.{IsSound}
use webpa_common.Device.Registry.Steps.{
  added, removed, if_removed, all_removed, add_lem, remove_lem, remove_if_lem, remove_all_lem,
  added-IsSound, removed-IsSound, if_removed-IsSound, all_removed-IsSound,
}
use webpa_common.Device.Registry.Metrics.{
  IsBalanced, added-IsBalanced, removed-IsBalanced, if_removed-IsBalanced, all_removed-IsBalanced,
}

pub data Call (M : Type 0) : Type 0 where
  adds : ℕ → Call M
  removes : String → CloseReason → Call M
  removes_if : (Device M → Option CloseReason) → Call M
  removes_all : CloseReason → Call M

module _ {M : Type 0} where
  unfoldable pub step : Call M → Registry M → Go (Registry M)
  step (adds h) w = do (w', _) ← add h w; ok w'
  step (removes id reason) w = do (w', _) ← remove id reason w; ok w'
  step (removes_if f) w = do (w', _) ← remove_if f w; ok w'
  step (removes_all reason) w = do (w', _) ← remove_all reason w; ok w'

  unfoldable pub run : List (Call M) → Registry M → Go (Registry M)
  unfolding step
  run [] w = ok w
  run (c ∷ cs) w = do w' ← step c w; run cs w'

  step_total :
      (c : Call M) (w : Registry M)
      → IsSound w
      → IsBalanced w
      → (w' : Registry M) × (step c w ≡ ok w') × IsSound w' × IsBalanced w'
  unfolding step
  step_total (adds h) w s b =
      ((added h w).0, rw (add_lem h w s), added-IsSound h w s, added-IsBalanced h w b)
  step_total (removes id reason) w s b = (
    (removed id reason w).0,
    rw (remove_lem id reason w s),
    removed-IsSound id reason w s,
    removed-IsBalanced id reason w s b,
  )
  step_total (removes_if f) w s b = (
    (if_removed f w).0,
    rw (remove_if_lem f w s),
    if_removed-IsSound f w s,
    if_removed-IsBalanced f w s b,
  )
  step_total (removes_all reason) w s b = (
    (all_removed reason w).0,
    rw (remove_all_lem reason w s),
    all_removed-IsSound reason w s,
    all_removed-IsBalanced reason w b,
  )

  run_total :
      (cs : List (Call M)) (w : Registry M)
      → IsSound w
      → IsBalanced w
      → (w' : Registry M) × (run cs w ≡ ok w') × IsSound w' × IsBalanced w'
  unfolding run
  run_total [] w s b = (w, refl, s, b)
  run_total (c ∷ cs) w s b =
      let (w', e, s', b') = step_total c w s b in
      let (w'', e', s'', b'') = run_total cs w' s' b' in (w'', rw e e', s'', b'')

  -- From an empty registry over sound devices, any sequence of calls ends without a panic. After
  -- it, each id is mapped once, to a device with that id; the device gauge is the size of the map;
  -- connects and refusals together are the disconnects and the devices still there; and a positive
  -- limit is not passed.
  pub run-new_registry_total :
      (cs : List (Call M)) (limit : ℕ) (heap : ℕ → Device M)
      → ((h : ℕ) → Closing.IsSound (heap h))
      → (w : Registry M) × (run cs (new_registry limit heap) ≡ ok w) × IsSound w × IsBalanced w
  unfolding new_registry
  run-new_registry_total cs limit heap d =
      run_total cs (new_registry limit heap)
        (record { devices = d; unique = tt; keyed = tt; counted = refl }) (ground arith)
