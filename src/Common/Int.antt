-- ===== src/Common/Int.antt =====
-- Signed integers over the native numbers, and the casts between `i64` and `u64`.
use Prim.Native.Nat.{ℕ, ◌-◌, ◌%◌, ◌^◌, ◌<◌}
use mathlib.Core.Path.{◌≡◌}
use mathlib.Core.Bool.{Bool, true}
use native.Mathlib.Omega.{arith}
use tracing_perfetto_file.Common.Tests.{ltb, if◌then◌else◌}

-- `negsuc n` is -(n + 1).
pub data ℤ : Type 0 where
  pos : ℕ → ℤ
  negsuc : ℕ → ℤ

-- `value as u64`: the two's complement bits.
unfoldable pub as_u64 : ℤ → ℕ
as_u64 (pos n) = n % 2 ^ 64
as_u64 (negsuc n) = 2 ^ 64 - 1 - n % 2 ^ 64

-- `value as i64` of a `u64`.
unfoldable pub as_i64 : ℕ → ℤ
as_i64 v = if ltb v (2 ^ 63) then pos v else negsuc (2 ^ 64 - 1 - v)

-- Whether an integer is an `i64`, which is when `i64::try_from` succeeds.
unfoldable pub fits_i64 : ℤ → Bool
fits_i64 (pos n) = ltb n (2 ^ 63)
fits_i64 (negsuc n) = ltb n (2 ^ 63)

pub as_u64-lt : (z : ℤ) → as_u64 z < 2 ^ 64
unfolding as_u64
as_u64-lt (pos n) = omega arith
as_u64-lt (negsuc n) = omega arith

pub as_i64-as_u64 : (z : ℤ) → fits_i64 z ≡ true → as_i64 (as_u64 z) ≡ z
unfolding as_i64 as_u64 fits_i64
as_i64-as_u64 (pos n) h = ground arith
as_i64-as_u64 (negsuc n) h = ground arith

pub as_u64-as_i64 : (v : ℕ) → v < 2 ^ 64 → as_u64 (as_i64 v) ≡ v
unfolding as_i64 as_u64
as_u64-as_i64 v h = ground arith
