-- ===== src/Dashboard/Limiter/Tests.antt =====
-- Runs of the limiter of internal/wait0/dashboard/controller.go.
use wait.Base.{
  ℕ, ◌+◌, ◌≡◌, ◌≤◌, refl, some, List, [], ◌∷◌, Str, str, str_eq, trim_space, trim_left, is_space,
  lookup, insert, arith,
}
use wait.Dashboard.Limiter.{Limiter, new_limiter, client_key, roll, take_one, allow}
use wait.Dashboard.Limiter.Grants.{granted, IsLimited, granted-le-limit}

program : Unit {0}
unfolding str_eq trim_space trim_left is_space lookup insert new_limiter client_key roll take_one
    allow granted
program = tt

abbrev two : Limiter
two = record { limit = 2; window = 100; window_start = 10; counts = [] }

abbrev burst : List (Str × ℕ)
burst = (str "a", 11) ∷ (str " a", 12) ∷ (str "b", 13) ∷ (str "a", 14) ∷ []

burst-granted : granted (str "a") (some two) burst ≡ 2
unfolding program
burst-granted = refl

granted-le-limit_example : granted (str "a") (some two) burst + 0 ≤ 2
unfolding program IsLimited
granted-le-limit_example =
    granted-le-limit (str "a") burst two (omega arith) (λ k. omega arith)
      (refl, (refl, (refl, (refl, tt))))
