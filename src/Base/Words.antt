-- ===== src/Base/Words.antt =====
-- Machine integers. An int64 (Go's int, int64, time.Duration) is its bit pattern, a number below
-- 2 ^ 64; a uint64 is the number itself.
use Prim.Native.Nat.{ℕ, ◌+◌, ◌-◌, ◌*◌, ◌%◌, ◌^◌, ◌<◌}
use mathlib.Core.Path.{◌≡◌}
use mathlib.Core.Bool.{Bool, true}
use native.Mathlib.Omega.{arith}
use wait.Base.Tests.{ltb}

abbrev pub two64 : ℕ
two64 = 2 ^ 64

abbrev pub two63 : ℕ
two63 = 2 ^ 63

abbrev pub max_uint64 : ℕ
max_uint64 = two64 - 1

abbrev pub add64 : ℕ → ℕ → ℕ
add64 a b = (a + b) % two64

-- `-` on ℕ stops at 0, so the modulus is added first.
abbrev pub sub64 : ℕ → ℕ → ℕ
sub64 a b = (a + (two64 - b % two64)) % two64

abbrev pub mul64 : ℕ → ℕ → ℕ
mul64 a b = (a * b) % two64

-- The signed order: with the sign bit flipped the patterns are in order.
abbrev pub flip_sign : ℕ → ℕ
flip_sign a = (a + two63) % two64

abbrev pub slt : ℕ → ℕ → Bool
slt a b = ltb (flip_sign a) (flip_sign b)

-- x > 0 and x <= 0 of an int64.
abbrev pub is_pos : ℕ → Bool
is_pos x = slt 0 x

abbrev pub is_neg : ℕ → Bool
is_neg x = slt x 0

pub is_pos-lt : (x : ℕ) → x < two64 → is_pos x ≡ true → x < two63
is_pos-lt x h p = ground arith
