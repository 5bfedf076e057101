-- ===== src/Device/Manager/Duplicates.antt =====
-- What becomes of a device whose id connects again.
use webpa_common.Base.{
  ℕ, ◌≡◌, true, false, none, some, String, lookup-insert, lookup-delete, string_key, ok, arith,
  update, subst,
}
use webpa_common.Device.Endpoint.{CloseReason}
use webpa_common.Device.Endpoint.Closing.{is_open-shut, id-shut}
use webpa_common.Device.Registry
use webpa_common.Device.Registry.{Registry, get, put, drop_id, add_duplications, duplicate_reason}
use webpa_common.Device.Registry.Sound.{IsSound, lookup-Keyed, shut_at}
use webpa_common.Device.Registry.Content.{IsShut}
use webpa_common.Device.Registry.Steps.{
  added, replaced, removed, dropped, add_lem, remove_lem, added-IsSound,
}
use webpa_common.Device.Manager.{
  Manager, register, pump_close, dispatch, connected, disconnected, no_request,
}

module _ {M : Type 0} where
  replaced-lookup : (h g : ℕ) (w : Registry M) → get (w.heap h).id (replaced h g w) ≡ some h
  unfolding get replaced shut_at put add_duplications
  replaced-lookup h g w = ground (arith, lookup-insert (w.heap h).id (w.heap h).id h w.data_map)

  id-replaced : (h g q : ℕ) (w : Registry M) → ((replaced h g w).heap q).id ≡ (w.heap q).id
  unfolding replaced shut_at put add_duplications
  id-replaced h g q w =
      let w1 = add_duplications h g (put h w) in
      ground (arith, id-shut duplicate_reason (w1.heap g))

  add-replaced :
      (h g : ℕ) (w : Registry M)
      → IsSound w
      → get (w.heap h).id w ≡ some g
      → Registry.add h w ≡ ok (replaced h g w, none)
  unfolding added get
  add-replaced h g w s e = rw (add_lem h w s) (ground arith)

  replaced-IsSound :
      (h g : ℕ) (w : Registry M)
      → IsSound w
      → get (w.heap h).id w ≡ some g
      → IsSound (replaced h g w)
  unfolding added get
  replaced-IsSound h g w s e =
      let p : (added h w).0 ≡ replaced h g w = ground arith in subst IsSound p (added-IsSound h w s)

  -- The replaced device carries the id too.
  remove-replaced :
      (h g : ℕ) (reason : CloseReason) (w : Registry M)
      → IsSound w
      → get (w.heap h).id w ≡ some g
      → Registry.remove ((replaced h g w).heap g).id reason (replaced h g w)
        ≡ ok (dropped h (w.heap h).id reason (replaced h g w), some h)
  unfolding removed get
  remove-replaced h g reason w s e =
      rw (id-replaced h g g w, lookup-Keyed w.heap (w.heap h).id g w.data_map s.keyed e)
        (rw (remove_lem (w.heap h).id reason (replaced h g w) (replaced-IsSound h g w s e))
          (ground (arith, replaced-lookup h g w)))

  dropped-lookup :
      (h : ℕ) (id : String) (reason : CloseReason) (w : Registry M)
      → get id (dropped h id reason w) ≡ none
  unfolding dropped get shut_at drop_id
  dropped-lookup h id reason w = ground (arith, lookup-delete id id w.data_map)

  dropped-IsShut :
      (h : ℕ) (id : String) (reason : CloseReason) (w : Registry M)
      → IsShut h (dropped h id reason w)
  unfolding dropped shut_at drop_id
  dropped-IsShut h id reason w = ground (arith, is_open-shut reason (w.heap h))

  -- In a sound registry, a device connects under an id that is in use. The pumps of the replaced
  -- device, which have not ended, then remove that id when they do, and by then it is the new
  -- device's: the new device is closed and no device is left under the id.
  pub duplicate_lost :
      (m : Manager M) (h g : ℕ) (reason : CloseReason)
      → IsSound m.registry
      → get (m.registry.heap h).id m.registry ≡ some g
      → m.close_once g ≡ false
      → (m1 m2 : Manager M) × (register h m ≡ ok (m1, none))
        × (get (m.registry.heap h).id m1.registry ≡ some h)
        × (pump_close g reason m1 ≡ ok m2)
        × (get (m.registry.heap h).id m2.registry ≡ none)
        × IsShut h m2.registry
  unfolding register pump_close get dispatch
  duplicate_lost m h g reason s e o =
      let w = m.registry in
      let r1 = replaced h g w in
      let id = (w.heap h).id in
      let m1 =
        dispatch (record { type = connected; device = h; request = no_request; error = none })
          (record m { registry = r1 }) in
      let r2 = dropped h id reason r1 in
      let m2 =
        dispatch (record { type = disconnected; device = g; request = no_request; error = none })
          (record m1 {
            registry = r2;
            close_once = update m1.close_once g true;
            connection_closed = update m1.connection_closed g true;
          }) in
      let first = replaced-lookup h g w in
      (
        m1,
        m2,
        rw (add-replaced h g w s e),
        first,
        rw (o, remove-replaced h g reason w s e),
        dropped-lookup h id reason r1,
        dropped-IsShut h id reason r1,
      )
