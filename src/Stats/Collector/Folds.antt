-- ===== src/Stats/Collector/Folds.antt =====
-- Sums, minima and maxima over the goroutines of internal/wait0/stats/collector.go, and what becomes
-- of them when one goroutine moves.
use wait.Base.{ℕ, ◌+◌, ◌≤◌, ◌≡◌, List, [], ◌∷◌, ◌++◌, leb, if◌then◌else◌, arith, max_uint64}
use wait.Stats.Collector.{Pc}

module _ (w : Pc → ℕ) where
  unfoldable pub sum_of : List Pc → ℕ
  sum_of [] = 0
  sum_of (x ∷ xs) = w x + sum_of xs

  unfoldable pub least : List Pc → ℕ
  least [] = max_uint64
  least (x ∷ xs) = if leb (w x) (least xs) then w x else least xs

  unfoldable pub greatest : List Pc → ℕ
  greatest [] = 0
  greatest (x ∷ xs) = if leb (greatest xs) (w x) then w x else greatest xs

  pub sum_of-move :
      (xs : List Pc) (a b : Pc) (ys : List Pc)
      → sum_of (xs ++ b ∷ ys) + w a ≡ sum_of (xs ++ a ∷ ys) + w b
  unfolding sum_of
  sum_of-move [] a b ys = omega arith
  sum_of-move (x ∷ xs) a b ys = omega (arith, sum_of-move xs a b ys)

  pub least-le : (xs : List Pc) (a : Pc) (ys : List Pc) → least (xs ++ a ∷ ys) ≤ w a
  unfolding least
  least-le [] a ys = ground arith
  least-le (x ∷ xs) a ys = ground (arith, least-le xs a ys)

  pub le-least :
      (m : ℕ) (xs : List Pc) (a b : Pc) (ys : List Pc)
      → m ≤ least (xs ++ a ∷ ys)
      → m ≤ w b
      → m ≤ least (xs ++ b ∷ ys)
  unfolding least
  le-least m [] a b ys h k = ground arith
  le-least m (x ∷ xs) a b ys h k = ground (arith, le-least m xs a b ys)

  pub least-same :
      (xs : List Pc) (a b : Pc) (ys : List Pc)
      → w a ≡ w b
      → least (xs ++ a ∷ ys) ≡ least (xs ++ b ∷ ys)
  unfolding least
  least-same [] a b ys e = ground arith
  least-same (x ∷ xs) a b ys e = ground (arith, least-same xs a b ys)

  pub le-greatest : (xs : List Pc) (a : Pc) (ys : List Pc) → w a ≤ greatest (xs ++ a ∷ ys)
  unfolding greatest
  le-greatest [] a ys = ground arith
  le-greatest (x ∷ xs) a ys = ground (arith, le-greatest xs a ys)

  pub greatest-le :
      (m : ℕ) (xs : List Pc) (a b : Pc) (ys : List Pc)
      → greatest (xs ++ a ∷ ys) ≤ m
      → w b ≤ m
      → greatest (xs ++ b ∷ ys) ≤ m
  unfolding greatest
  greatest-le m [] a b ys h k = ground arith
  greatest-le m (x ∷ xs) a b ys h k = ground (arith, greatest-le m xs a b ys)

  pub greatest-same :
      (xs : List Pc) (a b : Pc) (ys : List Pc)
      → w a ≡ w b
      → greatest (xs ++ a ∷ ys) ≡ greatest (xs ++ b ∷ ys)
  unfolding greatest
  greatest-same [] a b ys e = ground arith
  greatest-same (x ∷ xs) a b ys e = ground (arith, greatest-same xs a b ys)
