-- ===== src/Stats/Collector/Tests.antt =====
-- Runs of internal/wait0/stats/collector.go.
use wait.Base.{arith, ℕ, ◌≡◌, refl, [], ◌∷◌}
use wait.Stats.Collector.{
  Gauge, Pc, System, Reach, Step, here, later, call, move, start, new_gauge, advance, begin, clamp,
  add_count, add_total, load_min, swap_min, load_max, swap_max, finished, snapshot,
}
use wait.Stats.Collector.Quiet.{Measures, Reach-Measures, alone, alone-finishes, observe, observed}

program : Unit {0}
unfolding advance begin clamp snapshot observe
program = tt

-- Goroutines that observe 5 and 3; the second writes the minimum between the load and the swap of the
-- first, whose swap fails and is tried again.
abbrev gauge_of : ℕ → ℕ → ℕ → ℕ → Gauge
gauge_of count total min max = record { count = count; total = total; min = min; max = max }

abbrev max64 : ℕ
max64 = 18446744073709551615

abbrev both : Gauge → Pc → Pc → System
both g a b = record { gauge = g; threads = a ∷ b ∷ [] }

first : (g : Gauge) (a b : Pc) → Step (both g a b) (both (advance g a).0 (advance g a).1 b)
first g a b = move g [] a (b ∷ [])

second : (g : Gauge) (a b : Pc) → Step (both g a b) (both (advance g b).0 a (advance g b).1)
second g a b = move g (a ∷ []) b []

both-begun : Reach (both new_gauge (add_count 5) (add_count 3))
unfolding program
both-begun =
    later (later here (call start 3))
      (call (record { gauge = new_gauge; threads = begin 3 ∷ [] }) 5)

raced : Reach (both (gauge_of 2 8 3 0) (swap_min 5 max64) (load_max 3))
unfolding program
raced =
    later
      (later
        (later
          (later
            (later
              (later (later both-begun (first _ (add_count 5) (add_count 3)))
                (first (gauge_of 1 0 max64 0) (add_total 5) (add_count 3)))
              (first (gauge_of 1 5 max64 0) (load_min 5) (add_count 3)))
            (second (gauge_of 1 5 max64 0) (swap_min 5 max64) (add_count 3)))
          (second (gauge_of 2 5 max64 0) (swap_min 5 max64) (add_total 3)))
        (second (gauge_of 2 8 max64 0) (swap_min 5 max64) (load_min 3)))
      (second (gauge_of 2 8 max64 0) (swap_min 5 max64) (swap_min 3 max64))

settled : Reach (both (gauge_of 2 8 3 5) (finished 5) (finished 3))
unfolding program
settled =
    later
      (later
        (later
          (later
            (later (later raced (first (gauge_of 2 8 3 0) (swap_min 5 max64) (load_max 3)))
              (first (gauge_of 2 8 3 0) (load_min 5) (load_max 3)))
            (first (gauge_of 2 8 3 0) (load_max 5) (load_max 3)))
          (first (gauge_of 2 8 3 0) (swap_max 5 0) (load_max 3)))
        (second (gauge_of 2 8 3 5) (finished 5) (load_max 3)))
      (second (gauge_of 2 8 3 5) (finished 5) (finished 3))

Reach-Measures_example : Measures (gauge_of 2 8 3 5) (5 ∷ 3 ∷ [])
Reach-Measures_example =
    Reach-Measures (both (gauge_of 2 8 3 5) (finished 5) (finished 3)) (5 ∷ 3 ∷ []) settled refl

alone-finishes_example :
    alone 6 (gauge_of 2 8 3 5) (begin 9)
    ≡ (observe (gauge_of 2 8 3 5) (observed 9), finished (observed 9))
alone-finishes_example = alone-finishes (gauge_of 2 8 3 5) 9 (omega arith)

shown_average :
    (snapshot (record { responses = gauge_of 2 8 3 5; refreshes = new_gauge })).avg_resp_bytes ≡ 4
unfolding program
shown_average = refl
