-- ===== src/Stats/Collector/Counts.antt =====
-- What one atomic operation of internal/wait0/stats/collector.go does to the gauge and its goroutine.
use wait.Base.{ℕ, ◌+◌, ◌-◌, ◌%◌, ◌≤◌, ◌≡◌, ◌⊎◌, two64, max_uint64, arith}
use wait.Stats.Collector.{
  Gauge, Pc, add_count, add_total, load_min, swap_min, load_max, swap_max, finished, advance,
}

-- The size that a goroutine observes.
unfoldable pub value : Pc → ℕ
value (add_count n) = n
value (add_total n) = n
value (load_min n) = n
value (swap_min n cur) = n
value (load_max n) = n
value (swap_max n cur) = n
value (finished n) = n

-- What it has added to the count and to the total.
unfoldable pub counted : Pc → ℕ
counted (add_count n) = 0
counted (add_total n) = 1
counted (load_min n) = 1
counted (swap_min n cur) = 1
counted (load_max n) = 1
counted (swap_max n cur) = 1
counted (finished n) = 1

unfoldable pub added : Pc → ℕ
added (add_count n) = 0
added (add_total n) = 0
added (load_min n) = n
added (swap_min n cur) = n
added (load_max n) = n
added (swap_max n cur) = n
added (finished n) = n

-- A bound that the minimum keeps for it once its loop is left, and one that the maximum keeps.
unfoldable pub low_done : Pc → ℕ
low_done (load_max n) = n
low_done (swap_max n cur) = n
low_done (finished n) = n
low_done (add_count n) = max_uint64
low_done (add_total n) = max_uint64
low_done (load_min n) = max_uint64
low_done (swap_min n cur) = max_uint64

unfoldable pub high_done : Pc → ℕ
high_done (finished n) = n
high_done (add_count n) = 0
high_done (add_total n) = 0
high_done (load_min n) = 0
high_done (swap_min n cur) = 0
high_done (load_max n) = 0
high_done (swap_max n cur) = 0

-- How far a swap that is planned would move a bound the wrong way.
unfoldable pub gap : Pc → ℕ
gap (swap_min n cur) = n - cur
gap (swap_max n cur) = cur - n
gap (add_count n) = 0
gap (add_total n) = 0
gap (load_min n) = 0
gap (load_max n) = 0
gap (finished n) = 0

pub record Moves (g : Gauge) (pc : Pc) (g' : Gauge) (pc' : Pc) : Type 0 where
  pub observes : value pc' ≡ value pc
  pub counts : g'.count ≡ (g.count + counted pc' - counted pc) % two64
  pub counts_up : counted pc ≤ counted pc'
  pub adds : g'.total ≡ (g.total + added pc' - added pc) % two64
  pub adds_up : added pc ≤ added pc'
  pub low : g'.min ≤ g.min
  pub low_from : (g'.min ≡ g.min) ⊎ (g'.min ≡ value pc)
  pub low_kept : g'.min ≤ low_done pc'
  pub high : g.max ≤ g'.max
  pub high_from : (g'.max ≡ g.max) ⊎ (g'.max ≡ value pc)
  pub high_kept : high_done pc' ≤ g'.max
  pub planned : gap pc' ≤ 0

-- A gauge whose counters are uint64, and a goroutine that it has kept its bounds for.
pub record Keeps (g : Gauge) (pc : Pc) : Type 0 where
  pub count_small : g.count ≡ g.count % two64
  pub total_small : g.total ≡ g.total % two64
  pub min_small : g.min ≤ max_uint64
  pub low_kept : g.min ≤ low_done pc
  pub high_kept : high_done pc ≤ g.max
  pub planned : gap pc ≤ 0

pub advance-Moves :
    (g : Gauge) (pc : Pc) → Keeps g pc → Moves g pc (advance g pc).0 (advance g pc).1
unfolding advance value counted added low_done high_done gap
advance-Moves g (add_count n) k = ground arith
advance-Moves g (add_total n) k = ground arith
advance-Moves g (load_min n) k = ground arith
advance-Moves g (swap_min n cur) k = ground arith
advance-Moves g (load_max n) k = ground arith
advance-Moves g (swap_max n cur) k = ground arith
advance-Moves g (finished n) k = ground arith
