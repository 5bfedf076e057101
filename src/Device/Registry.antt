-- ===== src/Device/Registry.antt =====
-- device/registry.go: the devices of a manager, by their ids, with its metrics. A device is an
-- address in `heap`, since the registry, the pumps and the senders share it. A method is one step;
-- `remove_if` releases the lock between devices, so its loop has a step for each. A limit of 0
-- stands for every limit that is not positive.
pub mod Sound
pub mod Steps
pub mod Metrics
pub mod Content
pub mod Bulk
pub mod History
use webpa_common.Base.{
  ℕ, suc, ◌+◌, Bool, true, false, ◌&&◌, if◌then◌else◌, Option, none, some, List, [], ◌∷◌, String,
  GoMap, lookup, insert, delete, length, string_key, ok, Go, ◌>>=◌, update, ltb, is_none,
}
use webpa_common.Device.Endpoint.{Device, CloseReason, request_close}

pub data Error : Type 0 where
  device_limit_reached : Error

pub record Registry (M : Type 0) : Type 0 where
  pub limit : ℕ
  pub data_map : GoMap String ℕ
  pub heap : ℕ → Device M
  pub count : ℕ
  pub limit_reached : ℕ
  pub connect : ℕ
  pub disconnect : ℕ
  pub duplicates : ℕ

abbrev pub limit_reason : CloseReason
limit_reason = record { err = some "Device limit reached"; text = "device-limit-reached" }

abbrev pub duplicate_reason : CloseReason
duplicate_reason = record { err = none; text = "duplicate" }

module _ {M : Type 0} where
  unfoldable pub new_registry : ℕ → (ℕ → Device M) → Registry M
  new_registry limit heap = record {
    limit = limit;
    data_map = [];
    heap = heap;
    count = 0;
    limit_reached = 0;
    connect = 0;
    disconnect = 0;
    duplicates = 0;
  }

  unfoldable pub len : Registry M → ℕ
  len w = length w.data_map

  -- `d.requestClose(reason)` for the device at an address
  unfoldable pub close_at : ℕ → CloseReason → Registry M → Go (Registry M)
  close_at h reason w = do
    d ← request_close reason (w.heap h)
    ok (record w { heap = update w.heap h d })

  -- `r.data[id] = newDevice; r.count.Set(float64(len(r.data)))`
  unfoldable pub put : ℕ → Registry M → Registry M
  put h w = let m = insert (w.heap h).id h w.data_map in record w { data_map = m; count = length m }

  -- `newDevice.Statistics().AddDuplications(existing.Statistics().Duplications() + 1)`
  unfoldable pub add_duplications : ℕ → ℕ → Registry M → Registry M
  add_duplications h g w = record w {
    heap = update w.heap h (record (w.heap h) {
      duplications = (w.heap h).duplications + ((w.heap g).duplications + 1);
    });
  }

  add_with : Option ℕ → ℕ → Registry M → Go (Registry M × Option Error)
  add_with none h w =
      if ltb 0 w.limit && ltb w.limit (length w.data_map + 1)
      then (do
        w' ←
            close_at h limit_reason
              (record w { limit_reached = w.limit_reached + 1; disconnect = w.disconnect + 1 })
        ok (w', some device_limit_reached))
      else (let w' = put h w in ok (record w' { connect = w'.connect + 1 }, none))
  add_with (some g) h w = do
    let w1 = put h w
    let w2 = record w1 { disconnect = w1.disconnect + 1; duplicates = w1.duplicates + 1 }
    w3 ← close_at g duplicate_reason (add_duplications h g w2)
    ok (record w3 { connect = w3.connect + 1 }, none)

  unfoldable pub add : ℕ → Registry M → Go (Registry M × Option Error)
  unfolding add_with
  add h w = add_with (lookup (w.heap h).id w.data_map) h w

  -- `delete(r.data, id); r.count.Set(float64(len(r.data)))`
  unfoldable pub drop_id : String → Registry M → Registry M
  drop_id id w = let m = delete id w.data_map in record w { data_map = m; count = length m }

  remove_with : Option ℕ → String → CloseReason → Registry M → Go (Registry M × Option ℕ)
  remove_with none id reason w = ok (record w { count = length w.data_map }, none)
  remove_with (some g) id reason w = do
    let w1 = drop_id id w
    w2 ← close_at g reason (record w1 { disconnect = w1.disconnect + 1 })
    ok (w2, some g)

  -- The device that was removed, if there was one.
  unfoldable pub remove : String → CloseReason → Registry M → Go (Registry M × Option ℕ)
  unfolding remove_with
  remove id reason w = remove_with (lookup id w.data_map) id reason w

  -- The first loop of `removeIf`.
  unfoldable pub gather :
      (Device M → Option CloseReason) → (ℕ → Device M) → GoMap String ℕ → List (ℕ × CloseReason)
  gather f heap [] = []
  gather f heap ((_, h) ∷ rest) = elim (f (heap h)) [
    | some reason ↦ (h, reason) ∷ gather f heap rest
    | none ↦ gather f heap rest
  ]

  -- The body of the second loop, which allows for barging: it removes whatever has the id now.
  unfoldable pub remove_matched : ℕ → CloseReason → Registry M → Go (Registry M × Bool)
  remove_matched h reason w =
      if is_none (lookup (w.heap h).id w.data_map)
      then ok (w, false)
      else (do w' ← close_at h reason (drop_id (w.heap h).id w); ok (w', true))

  unfoldable pub remove_each : List (ℕ × CloseReason) → ℕ → Registry M → Go (Registry M × ℕ)
  unfolding remove_matched
  remove_each [] n w = ok (w, n)
  remove_each ((h, reason) ∷ rest) n w = do
    (w', hit) ← remove_matched h reason w
    remove_each rest (if hit then suc n else n) w'

  unfoldable pub remove_if : (Device M → Option CloseReason) → Registry M → Go (Registry M × ℕ)
  unfolding remove_each gather
  remove_if f w = do
    (w', n) ← remove_each (gather f w.heap w.data_map) 0 w
    ok (record w' { disconnect = w'.disconnect + n }, n)

  -- The loop of `removeAll`, over the map that it has taken away.
  unfoldable pub close_each : GoMap String ℕ → CloseReason → Registry M → Go (Registry M)
  close_each [] reason w = ok w
  close_each ((_, h) ∷ rest) reason w = do w' ← close_at h reason w; close_each rest reason w'

  unfoldable pub remove_all : CloseReason → Registry M → Go (Registry M × ℕ)
  unfolding close_each
  remove_all reason w = do
    w' ← close_each w.data_map reason (record w { data_map = []; count = 0 })
    ok (record w' { disconnect = w'.disconnect + length w.data_map }, length w.data_map)

  -- The loop of `visit`; the visitor has a state of its own, and says whether to go on.
  unfoldable pub visit_from :
      {S : Type 0} → (Device M → S → S × Bool) → (ℕ → Device M) → GoMap String ℕ → ℕ → S → ℕ × S
  visit_from f heap [] visited s = (visited, s)
  visit_from f heap ((_, h) ∷ rest) visited s =
      let (s', more) = f (heap h) s in
      let on = visit_from f heap rest (suc visited) s' in if more then on else (suc visited, s')

  unfoldable pub visit : {S : Type 0} → (Device M → S → S × Bool) → S → Registry M → ℕ × S
  unfolding visit_from
  visit f s w = visit_from f w.heap w.data_map 0 s

  unfoldable pub get : String → Registry M → Option ℕ
  get id w = lookup id w.data_map
