-- ===== src/Stats/Collector/Extremes.antt =====
-- The invariant of a gauge of internal/wait0/stats/collector.go and its goroutines.
use wait.Base.{ℕ, ◌%◌, ◌≤◌, ◌≡◌, refl, List, [], ◌∷◌, ◌++◌, two64, max_uint64, arith}
use wait.Stats.Collector.{
  Gauge, Pc, System, Step, call, move, Reach, here, later, new_gauge, begin, advance,
}
use wait.Stats.Collector.Folds.{
  sum_of, least, greatest, sum_of-move, least-le, le-least, least-same, le-greatest, greatest-le,
  greatest-same,
}
use wait.Stats.Collector.Counts.{
  value, counted, added, low_done, high_done, gap, Moves, Keeps, advance-Moves,
}

-- The count and the total are those of the operations done; the minimum is no less than the least
-- size that is being observed, and no more than one whose loop is left; so with the maximum.
pub record IsGauge (g : Gauge) (ts : List Pc) : Type 0 where
  pub counts : g.count ≡ sum_of counted ts % two64
  pub adds : g.total ≡ sum_of added ts % two64
  pub low_from : least value ts ≤ g.min
  pub low_kept : g.min ≤ least low_done ts
  pub high_from : g.max ≤ greatest value ts
  pub high_kept : greatest high_done ts ≤ g.max
  pub planned : greatest gap ts ≤ 0
  pub min_small : g.min ≤ max_uint64

start-IsGauge : IsGauge new_gauge []
unfolding sum_of least greatest
start-IsGauge = record {
  counts = refl;
  adds = refl;
  low_from = omega arith;
  low_kept = omega arith;
  high_from = omega arith;
  high_kept = omega arith;
  planned = omega arith;
  min_small = omega arith;
}

call-IsGauge : (g : Gauge) (ts : List Pc) (n : ℕ) → IsGauge g ts → IsGauge g (begin n ∷ ts)
unfolding sum_of least greatest begin value counted added low_done high_done gap
call-IsGauge g ts n ok = ground arith

module _ (g : Gauge) (xs : List Pc) (pc : Pc) (ys : List Pc) (ok : IsGauge g (xs ++ pc ∷ ys)) where
  keeps : Keeps g pc
  keeps = record {
    count_small = omega (arith, ok.counts);
    total_small = omega (arith, ok.adds);
    min_small = ok.min_small;
    low_kept = omega (arith, ok.low_kept, least-le low_done xs pc ys);
    high_kept = omega (arith, ok.high_kept, le-greatest high_done xs pc ys);
    planned = omega (arith, ok.planned, le-greatest gap xs pc ys);
  }

  Moves-IsGauge : (g' : Gauge) (pc' : Pc) → Moves g pc g' pc' → IsGauge g' (xs ++ pc' ∷ ys)
  Moves-IsGauge g' pc' m =
      let same_low = least-same value xs pc pc' ys (omega (arith, m.observes)) in
      let same_high = greatest-same value xs pc pc' ys (omega (arith, m.observes)) in
      record {
        counts = omega (arith, m.counts, m.counts_up, ok.counts, sum_of-move counted xs pc pc' ys);
        adds = omega (arith, m.adds, m.adds_up, ok.adds, sum_of-move added xs pc pc' ys);
        low_from = ground (arith, m.low_from, ok.low_from, same_low, least-le value xs pc ys);
        low_kept =
            le-least low_done g'.min xs pc pc' ys (omega (arith, m.low, ok.low_kept)) m.low_kept;
        high_from =
            ground (arith, m.high_from, ok.high_from, same_high, le-greatest value xs pc ys);
        high_kept =
            greatest-le high_done g'.max xs pc pc' ys (omega (arith, m.high, ok.high_kept))
              m.high_kept;
        planned = greatest-le gap 0 xs pc pc' ys ok.planned m.planned;
        min_small = omega (arith, m.low, ok.min_small);
      }

  move-IsGauge : IsGauge (advance g pc).0 (xs ++ (advance g pc).1 ∷ ys)
  move-IsGauge = Moves-IsGauge (advance g pc).0 (advance g pc).1 (advance-Moves g pc keeps)

Step-IsGauge : {s t : System} → Step s t → IsGauge s.gauge s.threads → IsGauge t.gauge t.threads
Step-IsGauge (call s n) ok = call-IsGauge s.gauge s.threads n ok
Step-IsGauge (move g xs pc ys) ok = move-IsGauge g xs pc ys ok

pub Reach-IsGauge : {s : System} → Reach s → IsGauge s.gauge s.threads
Reach-IsGauge here = start-IsGauge
Reach-IsGauge (later r st) = Step-IsGauge st (Reach-IsGauge r)
