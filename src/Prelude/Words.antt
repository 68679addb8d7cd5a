-- ===== src/Prelude/Words.antt =====
-- Machine integers as numbers: a uint64_t is below 2 ^ 64, an int64_t is its bit pattern.
use Prim.Native.Nat.{ℕ, ◌+◌, ◌-◌, ◌*◌, ◌%◌, ◌^◌, ◌<◌, ◌/◌}
use mathlib.Core.Path.{◌≡◌}
use mathlib.Core.Bool.{Bool}
use native.Mathlib.Omega.{arith}
use whdd_modify.Prelude.Tests.{ltb, if◌then◌else◌}

abbrev pub add64 : ℕ → ℕ → ℕ
add64 a b = (a + b) % 2 ^ 64

abbrev pub sub64 : ℕ → ℕ → ℕ
sub64 a b = (a + 2 ^ 64 - b) % 2 ^ 64

abbrev pub mul64 : ℕ → ℕ → ℕ
mul64 a b = a * b % 2 ^ 64

-- `a < b` on two int64_t: flipping the sign bit turns the order into the unsigned one.
abbrev pub slt64 : ℕ → ℕ → Bool
slt64 a b = ltb (add64 a (2 ^ 63)) (add64 b (2 ^ 63))

-- On patterns with the sign bit clear the signed order is the order of numbers.
pub slt64-eq-ltb : (a b : ℕ) → a < 2 ^ 63 → b < 2 ^ 63 → slt64 a b ≡ ltb a b
slt64-eq-ltb a b h k = ground arith

-- Division and remainder of an int64_t by a positive one, which round towards 0.
abbrev pub sdiv64 : ℕ → ℕ → ℕ
sdiv64 a b = if slt64 a 0 then sub64 0 (sub64 0 a / b) else a / b

abbrev pub srem64 : ℕ → ℕ → ℕ
srem64 a b = if slt64 a 0 then sub64 0 (sub64 0 a % b) else a % b
