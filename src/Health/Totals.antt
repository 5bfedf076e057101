-- ===== src/Health/Totals.antt =====
-- The totals of a monitor after any sequence of events.
use webpa_common.Base.{
  ℕ, ◌+◌, ◌*◌, ◌%◌, ◌<◌, ◌≡◌, refl, sym, ◌⊎◌, inl, inr, true, false, if◌then◌else◌, Option, none,
  some, List, [], ◌∷◌, ◌++◌, lookup, insert, String_discrete, string_key, arith, Option-cases,
  Bool-cases, All, ◌∙◌, ap, subst,
}
use webpa_common.Health.{
  at, exceeds, word, ensure, ensure_each, apply, max_alloc, max_heap_sys, max_active,
  requests_received, requests_serviced, requests_denied, run, Event, arrives, leaves, measures,
  new_stats,
}
use webpa_common.Health.Counting.{
  View, view, greater, is_success, seen, seen_memory, seen_info, seen_stats, seen_answer, replay,
  view-run,
}

-- How many events there are of a kind, and what was measured, in order.
abbrev pub tally : (Event → ℕ) → List Event → ℕ
tally f [] = 0
tally f (e ∷ es) = f e + tally f es

abbrev pub readings : (Event → List ℕ) → List Event → List ℕ
readings f [] = []
readings f (e ∷ es) = f e ++ readings f es

abbrev pub arrival : Event → ℕ
arrival arrives = 1
arrival (leaves _) = 0
arrival (measures _) = 0

abbrev pub success : Event → ℕ
success arrives = 0
success (leaves r) = if is_success r then 1 else 0
success (measures _) = 0

abbrev pub denial : Event → ℕ
denial arrives = 0
denial (leaves r) = if is_success r then 0 else 1
denial (measures _) = 0

abbrev pub alloc_reading : Event → List ℕ
alloc_reading arrives = []
alloc_reading (leaves _) = []
alloc_reading (measures m) = m.alloc ∷ []

abbrev pub heap_reading : Event → List ℕ
heap_reading arrives = []
heap_reading (leaves _) = []
heap_reading (measures m) = m.heap_sys ∷ []

abbrev pub bytes_of : Option ℕ → List ℕ
bytes_of none = []
bytes_of (some kb) = kb * 1024 % word ∷ []

abbrev pub active_reading : Event → List ℕ
active_reading arrives = []
active_reading (leaves _) = []
active_reading (measures m) = bytes_of m.active_kb

-- The number is one of a list.
abbrev pub IsOneOf : ℕ → List ℕ → Type 0
IsOneOf m [] = ⊥
IsOneOf m (x ∷ xs) = (m ≡ x) ⊎ IsOneOf m xs

-- The greatest of a list of integers.
abbrev pub IsPeak : ℕ → List ℕ → Type 0
IsPeak m xs = All (λ x. exceeds x m ≡ false) xs × IsOneOf m xs

abbrev peak : ℕ → List ℕ → ℕ
peak m [] = m
peak m (x ∷ xs) = peak (greater x m) xs

-- The order of integers.
exceeds_trans : (a b c : ℕ) → exceeds a b ≡ false → exceeds b c ≡ false → exceeds a c ≡ false
unfolding exceeds
exceeds_trans a b c p q = ground (arith, p, q)

exceeds_self : (a : ℕ) → exceeds a a ≡ false
unfolding exceeds
exceeds_self a = ground arith

exceeds_asym : (a b : ℕ) → exceeds a b ≡ true → exceeds b a ≡ false
unfolding exceeds
exceeds_asym a b p = ground (arith, p)

greater_lem :
    (x m : ℕ)
    → (exceeds x (greater x m) ≡ false)
      × (exceeds m (greater x m) ≡ false)
      × ((greater x m ≡ x) ⊎ (greater x m ≡ m))
greater_lem x m = elim (Bool-cases (exceeds x m)) [
  | inl e ↦ (
    ground (arith, e, exceeds_self x),
    ground (arith, e, exceeds_asym x m e),
    inl (ground (arith, e)),
  )
  | inr e ↦ (ground (arith, e), ground (arith, e, exceeds_self m), inr (ground (arith, e)))
]

peak-IsPeak : (m : ℕ) (xs : List ℕ) → IsPeak (peak m xs) (m ∷ xs)
peak-IsPeak m [] = ((exceeds_self m, tt), inl refl)
peak-IsPeak m (x ∷ xs) =
    let ((b, a), o) = peak-IsPeak (greater x m) xs in
    let (gx, gm, g) = greater_lem x m in
    let p = peak (greater x m) xs in
    (
      (exceeds_trans m (greater x m) p gm b, (exceeds_trans x (greater x m) p gx b, a)),
      elim o [
        | inl q ↦ elim g [ inl r ↦ inr (inl (q ∙ r)) | inr r ↦ inl (q ∙ r) ]
        | inr q ↦ inr (inr q)
      ],
    )

peak-append : (m : ℕ) (xs ys : List ℕ) → peak m (xs ++ ys) ≡ peak (peak m xs) ys
peak-append m [] ys = refl
peak-append m (x ∷ xs) ys = peak-append (greater x m) xs ys

-- What one event does to a counter, and to a peak.
seen_counts :
    (e : Event) (v : View)
    → v.received < word
    → v.serviced < word
    → v.denied < word
    → ((seen e v).received ≡ (v.received + arrival e) % word)
      × ((seen e v).serviced ≡ (v.serviced + success e) % word)
      × ((seen e v).denied ≡ (v.denied + denial e) % word)
unfolding seen seen_memory seen_info seen_stats seen_answer
seen_counts arrives v p q r = (refl, omega (arith, q), omega (arith, r))
seen_counts (leaves a) v p q r = elim (Bool-cases (is_success a)) [
  | inl e ↦ (ground (arith, e, p), ground (arith, e), ground (arith, e, r))
  | inr e ↦ (ground (arith, e, p), ground (arith, e, q), ground (arith, e))
]
seen_counts (measures m) v p q r = elim (Option-cases m.active_kb) [
  | inl e ↦ (ground (arith, e, p), ground (arith, e, q), ground (arith, e, r))
  | inr (kb, e) ↦ (ground (arith, e, p), ground (arith, e, q), ground (arith, e, r))
]

seen_peaks :
    (e : Event) (v : View)
    → ((seen e v).max_alloc ≡ peak v.max_alloc (alloc_reading e))
      × ((seen e v).max_heap_sys ≡ peak v.max_heap_sys (heap_reading e))
      × ((seen e v).max_active ≡ peak v.max_active (active_reading e))
unfolding seen seen_memory seen_info seen_stats seen_answer
seen_peaks arrives v = (refl, refl, refl)
seen_peaks (leaves a) v = elim (Bool-cases (is_success a)) [
  | inl e ↦ (ground (arith, e), ground (arith, e), ground (arith, e))
  | inr e ↦ (ground (arith, e), ground (arith, e), ground (arith, e))
]
seen_peaks (measures m) v = elim (Option-cases m.active_kb) [
  | inl e ↦ (ground (arith, e), ground (arith, e), ground (arith, e))
  | inr (kb, e) ↦ (ground (arith, e), ground (arith, e), ground (arith, e))
]

replay_counts :
    (es : List Event) (v : View)
    → v.received < word
    → v.serviced < word
    → v.denied < word
    → ((replay es v).received ≡ (v.received + tally arrival es) % word)
      × ((replay es v).serviced ≡ (v.serviced + tally success es) % word)
      × ((replay es v).denied ≡ (v.denied + tally denial es) % word)
unfolding replay
replay_counts [] v p q r = (omega (arith, p), omega (arith, q), omega (arith, r))
replay_counts (e ∷ es) v p q r =
    let (x, y, z) = seen_counts e v p q r in
    let (a, b, c) =
      replay_counts es (seen e v) (omega (arith, x)) (omega (arith, y)) (omega (arith, z)) in
    (omega (arith, a, x), omega (arith, b, y), omega (arith, c, z))

replay_peaks :
    (es : List Event) (v : View)
    → ((replay es v).max_alloc ≡ peak v.max_alloc (readings alloc_reading es))
      × ((replay es v).max_heap_sys ≡ peak v.max_heap_sys (readings heap_reading es))
      × ((replay es v).max_active ≡ peak v.max_active (readings active_reading es))
unfolding replay
replay_peaks [] v = (refl, refl, refl)
replay_peaks (e ∷ es) v =
    let (x, y, z) = seen_peaks e v in
    let (a, b, c) = replay_peaks es (seen e v) in
    (
      a
          ∙ ap (λ m. peak m (readings alloc_reading es)) x
          ∙ sym (peak-append v.max_alloc (alloc_reading e) (readings alloc_reading es)),
      b
          ∙ ap (λ m. peak m (readings heap_reading es)) y
          ∙ sym (peak-append v.max_heap_sys (heap_reading e) (readings heap_reading es)),
      c
          ∙ ap (λ m. peak m (readings active_reading es)) z
          ∙ sym (peak-append v.max_active (active_reading e) (readings active_reading es)),
    )

peaked : {m : ℕ} (xs : List ℕ) → m ≡ peak 0 xs → IsPeak m (0 ∷ xs)
peaked xs e = subst (λ m. IsPeak m (0 ∷ xs)) (sym e) (peak-IsPeak 0 xs)

zeros : View
zeros = record {
  received = 0;
  serviced = 0;
  denied = 0;
  alloc = 0;
  heap_sys = 0;
  active = 0;
  max_alloc = 0;
  max_heap_sys = 0;
  max_active = 0;
}

view-new_stats : view (new_stats []) ≡ zeros
unfolding view new_stats ensure_each ensure apply at lookup insert String_discrete zeros
view-new_stats = refl

-- After any sequence of events on the statistics that a monitor starts with, the three request
-- counters are the numbers of requests that arrived, that were answered with a status below 400
-- without a panic, and that were answered otherwise, in 64 bits; and each of the three maxima is the
-- greatest of 0 and of what was measured, as signed integers.
pub run-new_stats :
    (es : List Event)
    → (at requests_received (run es (new_stats [])) ≡ tally arrival es % word)
      × (at requests_serviced (run es (new_stats [])) ≡ tally success es % word)
      × (at requests_denied (run es (new_stats [])) ≡ tally denial es % word)
      × IsPeak (at max_alloc (run es (new_stats []))) (0 ∷ readings alloc_reading es)
      × IsPeak (at max_heap_sys (run es (new_stats []))) (0 ∷ readings heap_reading es)
      × IsPeak (at max_active (run es (new_stats []))) (0 ∷ readings active_reading es)
unfolding view zeros
run-new_stats es =
    let w = view-run es (new_stats []) ∙ ap (replay es) view-new_stats in
    let (x, y, z) = replay_counts es zeros (omega arith) (omega arith) (omega arith) in
    let (a, b, c) = replay_peaks es zeros in
    (
      omega (arith, ap (λ v. v.received) w, x),
      omega (arith, ap (λ v. v.serviced) w, y),
      omega (arith, ap (λ v. v.denied) w, z),
      peaked (readings alloc_reading es) (ap (λ v. v.max_alloc) w ∙ a),
      peaked (readings heap_reading es) (ap (λ v. v.max_heap_sys) w ∙ b),
      peaked (readings active_reading es) (ap (λ v. v.max_active) w ∙ c),
    )
