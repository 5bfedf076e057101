-- ===== src/Device/Registry/Bulk.antt =====
-- What the bulk methods of device/registry.go leave behind: `removeIf` and `removeAll`.
use webpa_common.Base.{
  ℕ, suc, ◌+◌, ◌≡◌, refl, Bool, true, false, not, if◌then◌else◌, Option, none, some, List, [], ◌∷◌,
  String, GoMap, lookup, delete, lookup-delete, UniqueKeys, string_key, String_discrete, All, ite,
  ok, is_none, arith, Option-cases, inl, inr,
}
use webpa_common.Device.Endpoint.{Device, CloseReason}
use webpa_common.Device.Endpoint.Closing.{is_open-shut, id-shut}
use webpa_common.Device.Registry.{Registry, drop_id, gather, remove_if, remove_all, get, len}
use webpa_common.Device.Registry.Sound.{IsSound, Keyed, SameIds, Keyed-SameIds, shut_at}
use webpa_common.Device.Registry.Steps.{
  match_removed, each_removed, if_removed, each_shut, all_removed, remove_if_lem, remove_all_lem,
}
use webpa_common.Device.Registry.Content.{IsShut}
use webpa_common.Device.Registry.Metrics.{each_removed-IsCounted, each_shut-IsCounted}
use webpa_common.Base.{subst}

module _ {M : Type 0} where
  -- Some device of the list has the id.
  named : String → (ℕ → Device M) → List (ℕ × CloseReason) → Bool
  named id heap [] = false
  named id heap ((h, _) ∷ ms) = ite (String_discrete (heap h).id id) true (named id heap ms)

  named-SameIds :
      (id : String) (heap heap' : ℕ → Device M) (ms : List (ℕ × CloseReason))
      → SameIds heap heap'
      → named id heap' ms ≡ named id heap ms
  unfolding named
  named-SameIds id heap heap' [] e = refl
  named-SameIds id heap heap' ((h, _) ∷ ms) e =
      ground (arith, e h, named-SameIds id heap heap' ms e)

  match_removed-SameIds :
      (h : ℕ) (reason : CloseReason) (w : Registry M)
      → SameIds w.heap (match_removed h reason w).0.heap
  unfolding match_removed shut_at drop_id
  match_removed-SameIds h reason w q =
      ground (arith, id-shut reason (w.heap h), Option-cases (lookup (w.heap h).id w.data_map))

  lookup-match_removed :
      (id : String) (h : ℕ) (reason : CloseReason) (w : Registry M)
      → lookup id (match_removed h reason w).0.data_map
        ≡ ite (String_discrete (w.heap h).id id) none (lookup id w.data_map)
  unfolding match_removed shut_at drop_id
  lookup-match_removed id h reason w = ground (
    arith,
    lookup-delete (w.heap h).id id w.data_map,
    Option-cases (lookup (w.heap h).id w.data_map),
  )

  lookup-each_removed :
      (id : String) (ms : List (ℕ × CloseReason)) (n : ℕ) (w : Registry M)
      → lookup id (each_removed ms n w).0.data_map
        ≡ (if named id w.heap ms then none else lookup id w.data_map)
  unfolding each_removed named
  lookup-each_removed id [] n w = refl
  lookup-each_removed id ((h, reason) ∷ ms) n w =
      let (w', hit) = match_removed h reason w in
      ground (
        arith,
        lookup-each_removed id ms (if hit then suc n else n) w',
        named-SameIds id w.heap w'.heap ms (match_removed-SameIds h reason w),
        lookup-match_removed id h reason w,
      )

  module _ (f : Device M → Option CloseReason) where
    -- The reason that a predicate gives for the device under an id.
    abbrev pub verdict : String → (ℕ → Device M) → GoMap String ℕ → Option CloseReason
    verdict id heap m = elim (lookup id m) [ none ↦ none | some h ↦ f (heap h) ]

    named-gather :
        (id : String) (heap : ℕ → Device M) (m : GoMap String ℕ)
        → Keyed heap m
        → UniqueKeys m
        → named id heap (gather f heap m) ≡ not (is_none (verdict id heap m))
    unfolding named gather lookup
    named-gather id heap [] k u = refl
    named-gather id heap ((j, g) ∷ m) k u =
        ground (arith, named-gather id heap m k.1 u.1, Option-cases (f (heap g)))

    IsShut-stays :
        (h : ℕ) (ms : List (ℕ × CloseReason)) (n : ℕ) (w : Registry M)
        → IsShut h w
        → IsShut h (each_removed ms n w).0
    unfolding each_removed match_removed shut_at drop_id
    IsShut-stays h [] n w o = o
    IsShut-stays h ((g, reason) ∷ ms) n w o =
        let (w', hit) = match_removed g reason w in
        IsShut-stays h ms (if hit then suc n else n) w' (
          ground
            (arith, is_open-shut reason (w.heap g), Option-cases (lookup (w.heap g).id w.data_map)))

    -- Every entry of a part of the map is still in the map.
    abbrev Held : GoMap String ℕ → GoMap String ℕ → Type 0
    Held all = All (λ e. lookup e.0 all ≡ some e.1)

    Held-delete :
        (id : String) (all m : GoMap String ℕ)
        → lookup id m ≡ none
        → Held all m
        → Held (delete id all) m
    unfolding lookup
    Held-delete id all [] e k = tt
    Held-delete id all ((j, g) ∷ m) e k =
        ground (arith, Held-delete id all m, lookup-delete id j all)

    Held-cons :
        (j : String) (g : ℕ) (all m : GoMap String ℕ)
        → lookup j m ≡ none
        → Held all m
        → Held ((j, g) ∷ all) m
    unfolding lookup
    Held-cons j g all [] e k = tt
    Held-cons j g all ((i, q) ∷ m) e k = ground (arith, Held-cons j g all m)

    Held-refl : (m : GoMap String ℕ) → UniqueKeys m → Held m m
    unfolding lookup
    Held-refl [] u = tt
    Held-refl ((j, g) ∷ m) u = ground (arith, Held-cons j g m m u.0 (Held-refl m u.1))

    -- One round of the loop, at an entry that the map still has.
    match-Held :
        (j : String) (g : ℕ) (reason : CloseReason) (w : Registry M) (m : GoMap String ℕ)
        → (w.heap g).id ≡ j
        → lookup j w.data_map ≡ some g
        → lookup j m ≡ none
        → Held w.data_map m
        → IsShut g (match_removed g reason w).0 × Held (match_removed g reason w).0.data_map m
    unfolding match_removed shut_at drop_id
    match-Held j g reason w m k e u d =
        let found : lookup (w.heap g).id w.data_map ≡ some g = rw k e in
        let rest : delete j w.data_map ≡ (match_removed g reason w).0.data_map = ground arith in
        (
          ground (arith, is_open-shut reason (w.heap g)),
          subst (λ x. Held x m) rest (Held-delete j w.data_map m u d),
        )

    gathered-IsShut :
        (id : String) (h : ℕ) (heap : ℕ → Device M) (m : GoMap String ℕ) (n : ℕ) (w : Registry M)
        → UniqueKeys m
        → Keyed w.heap m
        → Held w.data_map m
        → lookup id m ≡ some h
        → is_none (f (heap h)) ≡ false
        → IsShut h (each_removed (gather f heap m) n w).0
    unfolding gather lookup each_removed
    gathered-IsShut id h heap [] n w u k d e t = cc
    gathered-IsShut id h heap ((j, g) ∷ m) n w u k d e t = elim (Option-cases (f (heap g))) [
      | inl p ↦ ground (arith, gathered-IsShut id h heap m n w u.1 k.1 d.1)
      | inr (reason, p) ↦
          let (w', hit) = match_removed g reason w in
          let n' = if hit then suc n else n in
          let (now, held) = match-Held j g reason w m k.0 d.0 u.0 d.1 in
          let ids = Keyed-SameIds w.heap w'.heap m (match_removed-SameIds g reason w) k.1 in
          rw (p, gather)
            (elim (String_discrete j id) [
              | yes q ↦
                  subst (λ x. IsShut x (each_removed (gather f heap m) n' w').0) (ground arith)
                    (IsShut-stays g (gather f heap m) n' w' now)
              | no q ↦ gathered-IsShut id h heap m n' w' u.1 ids held (ground arith) t
            ])
    ]

    -- In a sound registry, `removeIf` unmaps exactly the ids whose devices match, closes those
    -- devices, and leaves every other id as it was.
    pub remove_if_content :
        (w : Registry M)
        → IsSound w
        → (w' : Registry M) × (n : ℕ) × (remove_if f w ≡ ok (w', n))
          × (len w' + n ≡ len w)
          × ((id : String)
              → get id w' ≡ (if is_none (verdict id w.heap w.data_map) then get id w else none))
          × ((id : String) (h : ℕ)
              → get id w ≡ some h
              → is_none (f (w.heap h)) ≡ false
              → IsShut h w')
    unfolding if_removed get len
    remove_if_content w s = (
      (if_removed f w).0,
      (if_removed f w).1,
      remove_if_lem f w s,
      ground (arith, each_removed-IsCounted (gather f w.heap w.data_map) 0 w s),
      (λ id. ground (
        arith,
        lookup-each_removed id (gather f w.heap w.data_map) 0 w,
        named-gather id w.heap w.data_map s.keyed s.unique,
      )),
      (λ id h e t.
          gathered-IsShut id h w.heap w.data_map 0 w s.unique s.keyed
            (Held-refl w.data_map s.unique) e t),
    )

  each_shut_stays :
      (h : ℕ) (m : GoMap String ℕ) (reason : CloseReason) (w : Registry M)
      → IsShut h w
      → IsShut h (each_shut m reason w)
  unfolding each_shut shut_at
  each_shut_stays h [] reason w o = o
  each_shut_stays h ((_, g) ∷ m) reason w o =
      each_shut_stays h m reason (shut_at g reason w)
        (ground (arith, is_open-shut reason (w.heap g)))

  each_shut_closes :
      (id : String) (h : ℕ) (m : GoMap String ℕ) (reason : CloseReason) (w : Registry M)
      → lookup id m ≡ some h
      → IsShut h (each_shut m reason w)
  unfolding each_shut lookup shut_at
  each_shut_closes id h [] reason w e = cc
  each_shut_closes id h ((j, g) ∷ m) reason w e = ground (
    arith,
    each_shut_closes id h m reason (shut_at g reason w),
    each_shut_stays g m reason (shut_at g reason w),
    is_open-shut reason (w.heap g),
  )

  -- In a sound registry, `removeAll` empties the map, closes every device that was in it, and
  -- returns their number.
  pub remove_all_content :
      (reason : CloseReason) (w : Registry M)
      → IsSound w
      → (w' : Registry M) × (remove_all reason w ≡ ok (w', len w))
        × (len w' ≡ 0)
        × ((id : String) (h : ℕ) → get id w ≡ some h → IsShut h w')
  unfolding all_removed get len
  remove_all_content reason w s = (
    (all_removed reason w).0,
    remove_all_lem reason w s,
    ground (arith, each_shut-IsCounted w.data_map reason (record w { data_map = []; count = 0 })),
    (λ id h e. each_shut_closes id h w.data_map reason (record w { data_map = []; count = 0 }) e),
  )
