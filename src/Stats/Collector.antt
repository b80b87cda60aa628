-- ===== src/Stats/Collector.antt =====
-- internal/wait0/stats/collector.go: counters that many goroutines update without a lock. `Observe`
-- and `ObserveRefreshDuration` are the same code over their own four atomics, a gauge here; a step of
-- a goroutine is one atomic operation. A uint64 is a number below 2 ^ 64.
pub mod Folds
pub mod Counts
pub mod Extremes
pub mod Quiet
mod Tests
use wait.Base.{
  ℕ, zero, suc, ◌+◌, ◌/◌, ◌%◌, ◌≡◌, Bool, true, false, List, [], ◌∷◌, ◌++◌, ◌==◌, leb,
  if◌then◌else◌, add64, is_neg, max_uint64,
}

pub record Gauge : Type 0 where
  pub count : ℕ
  pub total : ℕ
  pub min : ℕ
  pub max : ℕ

pub record Collector : Type 0 where
  pub responses : Gauge
  pub refreshes : Gauge

abbrev pub new_gauge : Gauge
new_gauge = record { count = 0; total = 0; min = max_uint64; max = 0 }

abbrev pub new_collector : Collector
new_collector = record { responses = new_gauge; refreshes = new_gauge }

-- Where a goroutine stands in an observation of `n`: before the two additions, before the load or the
-- swap of each loop (a swap has the value that was loaded), or at its end.
pub data Pc : Type 0 where
  add_count : ℕ → Pc
  add_total : ℕ → Pc
  load_min : ℕ → Pc
  swap_min : ℕ → ℕ → Pc
  load_max : ℕ → Pc
  swap_max : ℕ → ℕ → Pc
  finished : ℕ → Pc

-- An int that is negative counts as 0.
unfoldable pub clamp : ℕ → ℕ
clamp n = if is_neg n then 0 else n

-- The start of `Observe`, and of `ObserveRefreshDuration`.
unfoldable pub begin : ℕ → Pc
unfolding clamp
begin n = add_count (clamp n)

-- One atomic operation.
unfoldable pub advance : Gauge → Pc → Gauge × Pc
advance g (add_count n) = (record g { count = add64 g.count 1 }, add_total n)
advance g (add_total n) = (record g { total = add64 g.total n }, load_min n)
advance g (load_min n) = (g, if leb g.min n then load_max n else swap_min n g.min)
advance g (swap_min n cur) =
    if g.min == cur then (record g { min = n }, load_max n) else (g, load_min n)
advance g (load_max n) = (g, if leb n g.max then finished n else swap_max n g.max)
advance g (swap_max n cur) =
    if g.max == cur then (record g { max = n }, finished n) else (g, load_max n)
advance g (finished n) = (g, finished n)

-- A gauge and its goroutines; a goroutine begins an observation, or does its next operation.
pub record System : Type 0 where
  pub gauge : Gauge
  pub threads : List Pc

abbrev pub start : System
start = record { gauge = new_gauge; threads = [] }

pub data Step : System → System → Type 0 where
  call : (s : System) (n : ℕ) → Step s (record s { threads = begin n ∷ s.threads })
  move :
      (g : Gauge) (xs : List Pc) (pc : Pc) (ys : List Pc)
      → Step
          (record { gauge = g; threads = xs ++ pc ∷ ys })
          (record { gauge = (advance g pc).0; threads = xs ++ (advance g pc).1 ∷ ys })

pub data Reach : System → Type 0 where
  here : Reach start
  later : {s t : System} → Reach s → Step s t → Reach t

pub record Snapshot : Type 0 where
  pub total_responses : ℕ
  pub total_resp_bytes : ℕ
  pub min_resp_bytes : ℕ
  pub max_resp_bytes : ℕ
  pub avg_resp_bytes : ℕ
  pub refresh_count : ℕ
  pub total_refresh_dur_ns : ℕ
  pub min_refresh_dur_ns : ℕ
  pub max_refresh_dur_ns : ℕ
  pub avg_refresh_dur_ns : ℕ

unfoldable pub avg_div : ℕ → ℕ → ℕ
avg_div total count = if count == 0 then 0 else total / count

-- The minimum before the first observation reads as 0.
unfoldable pub shown_min : ℕ → ℕ
shown_min m = if m == max_uint64 then 0 else m

-- `Snapshot`, where no goroutine changes the collector between its loads.
unfoldable pub snapshot : Collector → Snapshot
unfolding avg_div shown_min
snapshot c = record {
  total_responses = if c.responses.count == 0 then 0 else c.responses.count;
  total_resp_bytes = if c.responses.count == 0 then 0 else c.responses.total;
  min_resp_bytes = if c.responses.count == 0 then 0 else shown_min c.responses.min;
  max_resp_bytes = if c.responses.count == 0 then 0 else c.responses.max;
  avg_resp_bytes = if c.responses.count == 0 then 0 else c.responses.total / c.responses.count;
  refresh_count = c.refreshes.count;
  total_refresh_dur_ns = c.refreshes.total;
  min_refresh_dur_ns = shown_min c.refreshes.min;
  max_refresh_dur_ns = c.refreshes.max;
  avg_refresh_dur_ns = avg_div c.refreshes.total c.refreshes.count;
}
