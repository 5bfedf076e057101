-- ===== src/Device/Transactions/Invariant.antt =====
-- The pending set of device/transactions.go: every pending key owns an open, empty channel of its
-- own, so that no operation panics or blocks.
use webpa_common.Base.{
  ℕ, suc, ◌<◌, ◌≡◌, ◌≢◌, refl, true, none, some, [], ◌∷◌, String, GoMap, lookup, insert, delete,
  All, ok, Chan, fresh_chan, close_chan, update, string_key, arith, delete_absent, lookup-delete,
  lookup-insert,
}
use webpa_common.Device.Transactions.{Transactions, close_all}

-- No entry has the address.
abbrev pub Absent : ℕ → GoMap String ℕ → Type 0
Absent h = All (λ e. e.1 ≢ h)

module _ {R : Type 0} where
  -- Each entry has an open, empty channel below `n`, which no other entry has, and a key of its
  -- own.
  abbrev pub Owned : (ℕ → Chan R) → ℕ → GoMap String ℕ → Type 0
  Owned chs n [] = Unit
  Owned chs n ((key, h) ∷ m) =
      (h < n) × (chs h ≡ fresh_chan) × Absent h m × (lookup key m ≡ none) × Owned chs n m

  pub record IsSound (t : Transactions R) : Type 0 where
    pub owned : Owned t.channels t.next t.pending
    pub cleared : t.closed ≡ true → t.pending ≡ []

delete-Absent : (key : String) (h : ℕ) (m : GoMap String ℕ) → Absent h m → Absent h (delete key m)
unfolding delete
delete-Absent key h [] a = tt
delete-Absent key h ((j, g) ∷ m) a = ground (arith, delete-Absent key h m a.1)

insert-Absent :
    (key : String) (g h : ℕ) (m : GoMap String ℕ) → g ≢ h → Absent h m → Absent h (insert key g m)
unfolding insert
insert-Absent key g h [] ne a = (ne, tt)
insert-Absent key g h ((j, i) ∷ m) ne a = ground (arith, insert-Absent key g h m ne a.1)

lookup-Absent :
    (g : ℕ) (key : String) (h : ℕ) (m : GoMap String ℕ) → Absent g m → lookup key m ≡ some h → h ≢ g
unfolding lookup
lookup-Absent g key h [] a e = cc
lookup-Absent g key h ((j, i) ∷ m) a e = ground (arith, lookup-Absent g key h m a.1)

module _ {R : Type 0} where
  pub lookup-Owned :
      (chs : ℕ → Chan R) (n : ℕ) (key : String) (h : ℕ) (m : GoMap String ℕ)
      → Owned chs n m
      → lookup key m ≡ some h
      → (h < n) × (chs h ≡ fresh_chan) × Absent h (delete key m)
  unfolding lookup delete
  lookup-Owned chs n key h [] o e = cc
  lookup-Owned chs n key h ((j, g) ∷ m) o e = ground (
    arith,
    lookup-Owned chs n key h m o.4,
    delete-Absent key g m o.2,
    lookup-Absent g key h m o.2,
  )

  pub delete-Owned :
      (chs : ℕ → Chan R) (n : ℕ) (key : String) (m : GoMap String ℕ)
      → Owned chs n m
      → Owned chs n (delete key m)
  unfolding delete
  delete-Owned chs n key [] o = tt
  delete-Owned chs n key ((j, g) ∷ m) o =
      ground (arith, delete-Owned chs n key m o.4, delete-Absent key g m o.2, lookup-delete key j m)

  pub update-Owned :
      (chs : ℕ → Chan R) (n h : ℕ) (c : Chan R) (m : GoMap String ℕ)
      → Absent h m
      → Owned chs n m
      → Owned (update chs h c) n m
  update-Owned chs n h c [] a o = tt
  update-Owned chs n h c ((j, g) ∷ m) a o = ground (arith, update-Owned chs n h c m a.1 o.4)

  above-Absent : (chs : ℕ → Chan R) (n : ℕ) (m : GoMap String ℕ) → Owned chs n m → Absent n m
  above-Absent chs n [] o = tt
  above-Absent chs n ((j, g) ∷ m) o = ground (arith, above-Absent chs n m o.4)

  pub insert-Owned :
      (chs : ℕ → Chan R) (n : ℕ) (key : String) (m : GoMap String ℕ)
      → Owned chs n m
      → lookup key m ≡ none
      → Owned (update chs n fresh_chan) (suc n) (insert key n m)
  unfolding insert lookup
  insert-Owned chs n key [] o e = ground arith
  insert-Owned chs n key ((j, g) ∷ m) o e =
      ground (arith, insert-Owned chs n key m o.4, insert-Absent key n g m, lookup-insert key j n m)

  abbrev pub closed_chan : Chan R
  closed_chan = record { buffer = none; is_closed = true }

  -- The channels once those of the entries are closed.
  abbrev pub close_entries : GoMap String ℕ → (ℕ → Chan R) → ℕ → Chan R
  close_entries [] chs = chs
  close_entries ((_, h) ∷ m) chs = close_entries m (update chs h closed_chan)

  close_entries-Absent :
      (h : ℕ) (m : GoMap String ℕ) (chs : ℕ → Chan R) → Absent h m → close_entries m chs h ≡ chs h
  close_entries-Absent h [] chs a = refl
  close_entries-Absent h ((j, g) ∷ m) chs a =
      ground (arith, close_entries-Absent h m (update chs g closed_chan) a.1)

  pub close_entries-lookup :
      (n : ℕ) (key : String) (h : ℕ) (m : GoMap String ℕ) (chs : ℕ → Chan R)
      → Owned chs n m
      → lookup key m ≡ some h
      → close_entries m chs h ≡ closed_chan
  unfolding lookup
  close_entries-lookup n key h [] chs o e = cc
  close_entries-lookup n key h ((j, g) ∷ m) chs o e = ground (
    arith,
    close_entries-Absent h m (update chs g closed_chan),
    close_entries-lookup n key h m (update chs g closed_chan)
        (update-Owned chs n g closed_chan m o.2 o.4),
  )

  -- The loop of `Close` empties the set and closes each pending channel once.
  pub close_all_lem :
      (m : GoMap String ℕ) (t : Transactions R)
      → t.pending ≡ m
      → Owned t.channels t.next m
      → close_all m t ≡ ok (record t { pending = []; channels = close_entries m t.channels })
  unfolding close_all close_chan delete
  close_all_lem [] t e o = ground arith
  close_all_lem ((key, h) ∷ m) t e o = ground (
    arith,
    delete_absent key m o.3,
    close_all_lem m (record t { pending = m; channels = update t.channels h closed_chan }) refl
        (update-Owned t.channels t.next h closed_chan m o.2 o.4),
  )
