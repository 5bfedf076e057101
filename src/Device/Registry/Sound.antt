-- ===== src/Device/Registry/Sound.antt =====
-- The shape of a registry: an id maps to one device, which carries that id, and every device is
-- sound, so that closing one does not panic.
use webpa_common.Base.{
  ℕ, ◌+◌, ◌≡◌, refl, ◌∙◌, some, [], ◌∷◌, String, GoMap, lookup, insert, delete, length, string_key,
  All, UniqueKeys, insert-UniqueKeys, delete-UniqueKeys, ok, update, arith,
}
use webpa_common.Device.Endpoint.{Device, CloseReason}
use webpa_common.Device.Endpoint.Closing.{shut, shut-IsSound, id-shut, request_close_lem}
use webpa_common.Device.Endpoint.Closing
use webpa_common.Device.Registry.{Registry, close_at, put, add_duplications, drop_id}

module _ {M : Type 0} where
  abbrev pub Keyed : (ℕ → Device M) → GoMap String ℕ → Type 0
  Keyed heap = All (λ e. (heap e.1).id ≡ e.0)

  pub record IsSound (w : Registry M) : Type 0 where
    pub devices : (h : ℕ) → Closing.IsSound (w.heap h)
    pub unique : UniqueKeys w.data_map
    pub keyed : Keyed w.heap w.data_map
    pub counted : w.count ≡ length w.data_map

  -- The registry with the device at an address closed.
  unfoldable pub shut_at : ℕ → CloseReason → Registry M → Registry M
  shut_at h reason w = record w { heap = update w.heap h (shut reason (w.heap h)) }

  pub close_at_lem :
      (h : ℕ) (reason : CloseReason) (w : Registry M)
      → Closing.IsSound (w.heap h)
      → close_at h reason w ≡ ok (shut_at h reason w)
  unfolding close_at shut_at
  close_at_lem h reason w s = rw (request_close_lem reason (w.heap h) s)

  -- Two heaps that give each address the same id.
  abbrev pub SameIds : (ℕ → Device M) → (ℕ → Device M) → Type 0
  SameIds heap heap' = (q : ℕ) → (heap' q).id ≡ (heap q).id

  pub Keyed-SameIds :
      (heap heap' : ℕ → Device M) (m : GoMap String ℕ)
      → SameIds heap heap'
      → Keyed heap m
      → Keyed heap' m
  Keyed-SameIds heap heap' [] e k = tt
  Keyed-SameIds heap heap' ((j, g) ∷ m) e k = (e g ∙ k.0, Keyed-SameIds heap heap' m e k.1)

  pub Keyed-insert :
      (heap : ℕ → Device M) (h : ℕ) (m : GoMap String ℕ)
      → Keyed heap m
      → Keyed heap (insert (heap h).id h m)
  unfolding insert
  Keyed-insert heap h [] k = (refl, tt)
  Keyed-insert heap h ((j, g) ∷ m) k = ground (arith, Keyed-insert heap h m k.1)

  pub Keyed-delete :
      (heap : ℕ → Device M) (id : String) (m : GoMap String ℕ)
      → Keyed heap m
      → Keyed heap (delete id m)
  unfolding delete
  Keyed-delete heap id [] k = tt
  Keyed-delete heap id ((j, g) ∷ m) k = ground (arith, Keyed-delete heap id m k.1)

  pub lookup-Keyed :
      (heap : ℕ → Device M) (id : String) (h : ℕ) (m : GoMap String ℕ)
      → Keyed heap m
      → lookup id m ≡ some h
      → (heap h).id ≡ id
  unfolding lookup
  lookup-Keyed heap id h [] k e = cc
  lookup-Keyed heap id h ((j, g) ∷ m) k e = ground (arith, lookup-Keyed heap id h m k.1)

  -- A new heap of sound devices under the same ids.
  pub reheap-IsSound :
      (w : Registry M) (heap' : ℕ → Device M)
      → SameIds w.heap heap'
      → ((h : ℕ) → Closing.IsSound (heap' h))
      → IsSound w
      → IsSound (record w { heap = heap' })
  reheap-IsSound w heap' e d s = record {
    devices = d;
    unique = s.unique;
    keyed = Keyed-SameIds w.heap heap' w.data_map e s.keyed;
    counted = s.counted;
  }

  update-SameIds :
      (heap : ℕ → Device M) (h : ℕ) (d : Device M)
      → d.id ≡ (heap h).id
      → SameIds heap (update heap h d)
  update-SameIds heap h d e q = ground arith

  update-devices :
      (heap : ℕ → Device M) (h : ℕ) (d : Device M)
      → Closing.IsSound d
      → ((q : ℕ) → Closing.IsSound (heap q))
      → (q : ℕ) → Closing.IsSound (update heap h d q)
  update-devices heap h d s all q = ground (arith, all q)

  pub shut_at-IsSound :
      (h : ℕ) (reason : CloseReason) (w : Registry M) → IsSound w → IsSound (shut_at h reason w)
  unfolding shut_at
  shut_at-IsSound h reason w s =
      reheap-IsSound w (update w.heap h (shut reason (w.heap h)))
        (update-SameIds w.heap h (shut reason (w.heap h)) (id-shut reason (w.heap h)))
        (update-devices w.heap h (shut reason (w.heap h))
          (shut-IsSound reason (w.heap h) (s.devices h)) s.devices)
        s

  pub add_duplications-IsSound :
      (h g : ℕ) (w : Registry M) → IsSound w → IsSound (add_duplications h g w)
  unfolding add_duplications
  add_duplications-IsSound h g w s =
      let d = record (w.heap h) {
        duplications = (w.heap h).duplications + ((w.heap g).duplications + 1);
      } in
      reheap-IsSound w (update w.heap h d) (update-SameIds w.heap h d refl)
        (update-devices w.heap h d
          (record {
            shutdown = (s.devices h).shutdown;
            transactions_closed = (s.devices h).transactions_closed;
            transactions_sound = (s.devices h).transactions_sound;
          })
          s.devices)
        s

  pub put-IsSound : (h : ℕ) (w : Registry M) → IsSound w → IsSound (put h w)
  unfolding put
  put-IsSound h w s = record {
    devices = s.devices;
    unique = insert-UniqueKeys (w.heap h).id h w.data_map s.unique;
    keyed = Keyed-insert w.heap h w.data_map s.keyed;
    counted = refl;
  }

  pub drop_id-IsSound : (id : String) (w : Registry M) → IsSound w → IsSound (drop_id id w)
  unfolding drop_id
  drop_id-IsSound id w s = record {
    devices = s.devices;
    unique = delete-UniqueKeys id w.data_map s.unique;
    keyed = Keyed-delete w.heap id w.data_map s.keyed;
    counted = refl;
  }

  -- The metrics play no part in the shape.
  pub metrics-IsSound :
      (w : Registry M) (limit_reached connect disconnect duplicates : ℕ)
      → IsSound w
      → IsSound (record w {
        limit_reached = limit_reached;
        connect = connect;
        disconnect = disconnect;
        duplicates = duplicates;
      })
  metrics-IsSound w a b c d s = record {
    devices = s.devices;
    unique = s.unique;
    keyed = s.keyed;
    counted = s.counted;
  }
