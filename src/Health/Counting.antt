-- ===== src/Health/Counting.antt =====
-- What the statistics of a monitor say about what has happened.
use webpa_common.Base.{
  ℕ, ◌+◌, ◌*◌, ◌%◌, ◌≡◌, refl, inl, inr, Bool, false, if◌then◌else◌, ltb, none, some, List, [], ◌∷◌,
  String, String_discrete, ite, insert, lookup-insert, string_key, arith, Option-cases, Bool-cases,
  ◌∙◌, ap,
}
use webpa_common.Health.{
  Stats, at, inc, exceeds, raise_to, word, current_alloc, current_heap_sys, current_active,
  max_alloc, max_heap_sys, max_active, requests_received, requests_serviced, requests_denied,
  update_mem_info, update_mem_stats, update_memory, received, answered, step, run, Event, arrives,
  leaves, measures, Memory, Served,
}

at-insert :
    (j k : String) (v : ℕ) (s : Stats) → at k (insert j v s) ≡ ite (String_discrete j k) v (at k s)
unfolding at
at-insert j k v s = ground (arith, lookup-insert j k v s)

at-raise_to :
    (j k : String) (v : ℕ) (s : Stats)
    → at k (raise_to j v s)
      ≡ ite (String_discrete j k) (if exceeds v (at j s) then v else at j s) (at k s)
unfolding raise_to
at-raise_to j k v s = elim (Bool-cases (exceeds v (at j s))) [
  | inl e ↦ ground (arith, e, at-insert j k v s)
  | inr e ↦ ground (arith, e)
]

-- The counters that a monitor starts with.
pub record View : Type 0 where
  pub received : ℕ
  pub serviced : ℕ
  pub denied : ℕ
  pub alloc : ℕ
  pub heap_sys : ℕ
  pub active : ℕ
  pub max_alloc : ℕ
  pub max_heap_sys : ℕ
  pub max_active : ℕ

unfoldable pub view : Stats → View
view s = record {
  received = at requests_received s;
  serviced = at requests_serviced s;
  denied = at requests_denied s;
  alloc = at current_alloc s;
  heap_sys = at current_heap_sys s;
  active = at current_active s;
  max_alloc = at max_alloc s;
  max_heap_sys = at max_heap_sys s;
  max_active = at max_active s;
}

abbrev pub greater : ℕ → ℕ → ℕ
greater v m = if exceeds v m then v else m

unfoldable pub seen_info : ℕ → View → View
seen_info kb v = record v {
  active = kb * 1024 % word;
  max_active = greater (kb * 1024 % word) v.max_active;
}

unfoldable pub seen_stats : ℕ → ℕ → View → View
seen_stats alloc heap_sys v = record v {
  alloc = alloc;
  heap_sys = heap_sys;
  max_alloc = greater alloc v.max_alloc;
  max_heap_sys = greater heap_sys v.max_heap_sys;
}

view-update_mem_info : (kb : ℕ) (s : Stats) → view (update_mem_info kb s) ≡ seen_info kb (view s)
unfolding view update_mem_info seen_info String_discrete
view-update_mem_info kb s = simp (at-raise_to, at-insert) refl

view-update_mem_stats :
    (alloc heap_sys : ℕ) (s : Stats)
    → view (update_mem_stats alloc heap_sys s) ≡ seen_stats alloc heap_sys (view s)
unfolding view update_mem_stats seen_stats String_discrete
view-update_mem_stats alloc heap_sys s = simp (at-raise_to, at-insert) refl

unfoldable pub seen_memory : Memory → View → View
seen_memory m v =
    seen_stats m.alloc m.heap_sys (elim m.active_kb [ none ↦ v | some kb ↦ seen_info kb v ])

view-update_memory : (m : Memory) (s : Stats) → view (update_memory m s) ≡ seen_memory m (view s)
unfolding update_memory seen_memory
view-update_memory m s = elim (Option-cases m.active_kb) [
  | inl e ↦ rw (e) (view-update_mem_stats m.alloc m.heap_sys s)
  | inr (kb, e) ↦ rw (e) (
      view-update_mem_stats m.alloc m.heap_sys (update_mem_info kb s)
      ∙ ap (seen_stats m.alloc m.heap_sys) (view-update_mem_info kb s))
]

-- Whether an answer counts as a success.
abbrev pub is_success : Served → Bool
is_success r = if r.panicked then false else ltb r.status_code 400

unfoldable pub seen_answer : Served → View → View
seen_answer r v =
    if is_success r
    then record v { serviced = (v.serviced + 1) % word }
    else record v { denied = (v.denied + 1) % word }

view-received :
    (s : Stats)
    → view (received s) ≡ record (view s) { received = (at requests_received s + 1) % word }
unfolding view received inc String_discrete
view-received s = simp at-insert refl

view-denied :
    (s : Stats)
    → view (inc requests_denied 1 s)
      ≡ record (view s) { denied = (at requests_denied s + 1) % word }
unfolding view inc String_discrete
view-denied s = simp at-insert refl

view-serviced :
    (s : Stats)
    → view (inc requests_serviced 1 s)
      ≡ record (view s) { serviced = (at requests_serviced s + 1) % word }
unfolding view inc String_discrete
view-serviced s = simp at-insert refl

view-answered : (r : Served) (s : Stats) → view (answered r s).0 ≡ seen_answer r (view s)
unfolding answered seen_answer view
view-answered r s = elim (Bool-cases r.panicked) [
  | inl e ↦ ground (arith, e, view-denied s)
  | inr e ↦ elim (Bool-cases (ltb r.status_code 400)) [
    | inl q ↦ ground (arith, e, q, view-serviced s)
    | inr q ↦ ground (arith, e, q, view-denied s)
  ]
]

unfoldable pub seen : Event → View → View
seen arrives v = record v { received = (v.received + 1) % word }
seen (leaves r) v = seen_answer r v
seen (measures m) v = seen_memory m v

view-step : (e : Event) (s : Stats) → view (step e s) ≡ seen e (view s)
unfolding step seen view
view-step arrives s = view-received s
view-step (leaves r) s = view-answered r s
view-step (measures m) s = view-update_memory m s

unfoldable pub replay : List Event → View → View
replay [] v = v
replay (e ∷ es) v = replay es (seen e v)

pub view-run : (es : List Event) (s : Stats) → view (run es s) ≡ replay es (view s)
unfolding run replay
view-run [] s = refl
view-run (e ∷ es) s = view-run es (step e s) ∙ ap (replay es) (view-step e s)
