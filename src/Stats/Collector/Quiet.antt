-- ===== src/Stats/Collector/Quiet.antt =====
-- The counters of internal/wait0/stats/collector.go when no goroutine is inside an observation, and a
-- goroutine that runs alone.
use mathlib.Core.Path.{subst}
use wait.Base.{
  ℕ, zero, suc, ◌+◌, ◌%◌, ◌≡◌, ◌<◌, ◌∙◌, refl, List, [], ◌∷◌, leb, if◌then◌else◌, add64, two63,
  two64, max_uint64, arith, length,
}
use wait.Stats.Collector.{Gauge, Pc, System, Reach, add_count, finished, advance, begin, clamp}
use wait.Stats.Collector.Folds.{sum_of, least, greatest}
use wait.Stats.Collector.Counts.{value, counted, added, low_done, high_done}
use wait.Stats.Collector.Extremes.{IsGauge, Reach-IsGauge}

-- The sizes, their sum, and their extremes.
abbrev pub sum : List ℕ → ℕ
sum [] = 0
sum (n ∷ ns) = n + sum ns

abbrev pub minimum : List ℕ → ℕ
minimum [] = max_uint64
minimum (n ∷ ns) = if leb n (minimum ns) then n else minimum ns

abbrev pub maximum : List ℕ → ℕ
maximum [] = 0
maximum (n ∷ ns) = if leb (maximum ns) n then n else maximum ns

abbrev pub done : List ℕ → List Pc
done [] = []
done (n ∷ ns) = finished n ∷ done ns

-- What the gauge holds when the observations of `ns` are over.
pub record Measures (g : Gauge) (ns : List ℕ) : Type 0 where
  pub count : g.count ≡ length ns % two64
  pub total : g.total ≡ sum ns % two64
  pub min : g.min ≡ minimum ns
  pub max : g.max ≡ maximum ns

folds_done :
    (ns : List ℕ)
    → (sum_of counted (done ns) ≡ length ns)
      × (sum_of added (done ns) ≡ sum ns)
      × (least value (done ns) ≡ minimum ns)
      × (least low_done (done ns) ≡ minimum ns)
      × (greatest value (done ns) ≡ maximum ns)
      × (greatest high_done (done ns) ≡ maximum ns)
unfolding sum_of least greatest value counted added low_done high_done
folds_done [] = (refl, refl, refl, refl, refl, refl)
folds_done (n ∷ ns) = ground (arith, folds_done ns)

-- However the operations of the goroutines interleave: in a reachable state in which every observation
-- is over, the count is their number and the total their sum (modulo 2 ^ 64), and the minimum and the
-- maximum are those of the sizes: no update is lost.
pub Reach-Measures :
    (s : System) (ns : List ℕ) → Reach s → s.threads ≡ done ns → Measures s.gauge ns
Reach-Measures s ns r e =
    let ok : IsGauge s.gauge (done ns) = subst (IsGauge s.gauge) e (Reach-IsGauge r) in
    let (c, a, lv, ld, hv, hd) = folds_done ns in
    record {
      count = omega (arith, ok.counts, c);
      total = omega (arith, ok.adds, a);
      min = omega (arith, ok.low_from, ok.low_kept, lv, ld);
      max = omega (arith, ok.high_from, ok.high_kept, hv, hd);
    }

-- The operations of one goroutine while the others stand.
abbrev pub alone : ℕ → Gauge → Pc → Gauge × Pc
alone zero g pc = (g, pc)
alone (suc k) g pc = alone k (advance g pc).0 (advance g pc).1

-- What an observation does as a whole.
unfoldable pub observe : Gauge → ℕ → Gauge
observe g n = record {
  count = add64 g.count 1;
  total = add64 g.total n;
  min = if leb g.min n then g.min else n;
  max = if leb n g.max then g.max else n;
}

-- What counts of an int64: a pattern from 2 ^ 63 on is a negative number.
unfoldable pub observed : ℕ → ℕ
observed n = if leb two63 n then 0 else n

-- A goroutine that runs alone leaves both loops: six operations are enough, whatever the gauge holds,
-- and together they are one observation: of 0 where the int64 is negative.
pub alone-finishes :
    (g : Gauge) (n : ℕ)
    → n < two64
    → alone 6 g (begin n) ≡ (observe g (observed n), finished (observed n))
unfolding advance observe begin clamp observed
alone-finishes g n small =
    go (clamp n) ∙ (let e : clamp n ≡ observed n = ground (arith, small) in rw e refl)
  where
    go : (m : ℕ) → alone 6 g (add_count m) ≡ (observe g m, finished m)
    go m = ground arith
