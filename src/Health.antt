-- ===== src/Health.antt =====
-- health/stat.go, health/health.go and health/responseWriter.go: named counters, what the monitor
-- keeps of the use of memory, and the counting of requests. An `int` is the bits of its 64, and so is
-- a `uint64`. The lock makes each health function one step.
pub mod Counting
pub mod Totals
use webpa_common.Base.{
  ℕ, ◌+◌, ◌*◌, ◌%◌, Bool, true, false, if◌then◌else◌, ltb, ◌==◌, Option, none, some, List, [], ◌∷◌,
  String, GoMap, lookup, insert, string_key, is_none,
}

abbrev pub Stats : Type 0
Stats = GoMap String ℕ

abbrev pub current_alloc : String
current_alloc = "CurrentMemoryUtilizationAlloc"

abbrev pub current_heap_sys : String
current_heap_sys = "CurrentMemoryUtilizationHeapSys"

abbrev pub current_active : String
current_active = "CurrentMemoryUtilizationActive"

abbrev pub max_alloc : String
max_alloc = "MaxMemoryUtilizationAlloc"

abbrev pub max_heap_sys : String
max_heap_sys = "MaxMemoryUtilizationHeapSys"

abbrev pub max_active : String
max_active = "MaxMemoryUtilizationActive"

abbrev pub requests_received : String
requests_received = "TotalRequestsReceived"

abbrev pub requests_serviced : String
requests_serviced = "TotalRequestsSuccessfullyServiced"

abbrev pub requests_denied : String
requests_denied = "TotalRequestsDenied"

abbrev pub memory_stats : List String
memory_stats =
    current_alloc ∷ current_heap_sys ∷ current_active ∷ max_alloc ∷ max_heap_sys ∷ max_active ∷ []

abbrev pub request_stats : List String
request_stats = requests_received ∷ requests_serviced ∷ requests_denied ∷ []

abbrev pub word : ℕ
word = 18446744073709551616

-- `a > b` on the bits of two integers
unfoldable pub exceeds : ℕ → ℕ → Bool
exceeds a b = ltb ((b + 9223372036854775808) % word) ((a + 9223372036854775808) % word)

-- `stats[stat]`, which is 0 for a missing key
unfoldable pub at : String → Stats → ℕ
at stat s = elim (lookup stat s) [ none ↦ 0 | some v ↦ v ]

-- `Stat.Set` and `Ensure`
unfoldable pub ensure : String → Stats → Stats
ensure stat s = if is_none (lookup stat s) then insert stat 0 s else s

unfoldable pub inc : String → ℕ → Stats → Stats
unfolding at
inc stat value s = insert stat ((at stat s + value) % word) s

unfoldable pub set : String → ℕ → Stats → Stats
set stat value s = insert stat value s

-- `Apply` for the options that are names
unfoldable pub ensure_each : List String → Stats → Stats
unfolding ensure
ensure_each [] s = s
ensure_each (stat ∷ stats) s = ensure_each stats (ensure stat s)

-- `Apply`; an option is a function on the statistics.
unfoldable pub apply : List (Stats → Stats) → Stats → Stats
apply [] s = s
apply (option ∷ options) s = apply options (option s)

unfoldable pub new_stats : List (Stats → Stats) → Stats
unfolding ensure_each apply
new_stats options = apply options (ensure_each request_stats (ensure_each memory_stats []))

-- `Stats.Set` and the loop of `Clone`
unfoldable pub copy_into : Stats → Stats → Stats
copy_into [] target = target
copy_into ((stat, v) ∷ s) target = copy_into s (insert stat v target)

unfoldable pub clone : Stats → Stats
unfolding copy_into
clone s = copy_into s []

-- `if value > s[stat] { s[stat] = value }`
unfoldable pub raise_to : String → ℕ → Stats → Stats
unfolding exceeds at
raise_to stat value s = if exceeds value (at stat s) then insert stat value s else s

unfoldable pub update_mem_info : ℕ → Stats → Stats
update_mem_info active_kb s =
    let active = active_kb * 1024 % word in
    raise_to max_active active (insert current_active active s)

unfoldable pub update_mem_stats : ℕ → ℕ → Stats → Stats
update_mem_stats alloc heap_sys s =
    let s1 = insert current_heap_sys heap_sys (insert current_alloc alloc s) in
    raise_to max_heap_sys heap_sys (raise_to max_alloc alloc s1)

-- What the two readers say; the first fails with none.
pub record Memory : Type 0 where
  pub active_kb : Option ℕ
  pub alloc : ℕ
  pub heap_sys : ℕ

unfoldable pub update_memory : Memory → Stats → Stats
update_memory m s =
    update_mem_stats m.alloc m.heap_sys
      (elim m.active_kb [ none ↦ s | some kb ↦ update_mem_info kb s ])

-- How a delegate ends: the last status that it wrote, 0 for none, and whether it panicked.
pub record Served : Type 0 where
  pub status_code : ℕ
  pub panicked : Bool

-- The start of `RequestTracker`, and its deferred function; the latter also tells the status that it
-- writes itself.
unfoldable pub received : Stats → Stats
received s = inc requests_received 1 s

unfoldable pub answered : Served → Stats → Stats × Option ℕ
answered r s =
    if r.panicked
    then (inc requests_denied 1 s, if r.status_code == 0 then some 500 else none)
    else if ltb r.status_code 400
    then (inc requests_serviced 1 s, none)
    else (inc requests_denied 1 s, none)

-- What reaches the lock of a monitor.
pub data Event : Type 0 where
  arrives : Event
  leaves : Served → Event
  measures : Memory → Event

unfoldable pub step : Event → Stats → Stats
unfolding received answered update_memory
step arrives s = received s
step (leaves r) s = (answered r s).0
step (measures m) s = update_memory m s

unfoldable pub run : List Event → Stats → Stats
unfolding step
run [] s = s
run (e ∷ es) s = run es (step e s)
