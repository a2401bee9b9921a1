-- ===== src/Prelude/Int.antt =====
-- Signed integers: `negsuc n` is -(n + 1). Casts between `i64` and `u64` keep the bit pattern, and
-- `>>` on a signed value rounds down.
use Prim.Native.Nat.{ℕ, ◌-◌, ◌/◌, ◌%◌, ◌^◌, ◌<◌}
use mathlib.Core.Path.{◌≡◌}
use native.Mathlib.Omega.{arith}
use layline.Prelude.Tests.{ltb, if◌then◌else◌}

pub data ℤ : Type 0 where
  pos : ℕ → ℤ
  negsuc : ℕ → ℤ

-- The values of a `b`-bit signed integer, for `b` at least 1.
abbrev pub IsSigned : ℕ → ℤ → Type 0
IsSigned b (pos n) = n < 2 ^ (b - 1)
IsSigned b (negsuc n) = n < 2 ^ (b - 1)

-- `v as u64` of an `i64`.
abbrev pub as_u64 : ℤ → ℕ
as_u64 (pos n) = n % 2 ^ 64
as_u64 (negsuc n) = 2 ^ 64 - 1 - n % 2 ^ 64

-- `w as i64` of a `u64`.
abbrev pub as_i64 : ℕ → ℤ
as_i64 w = if ltb w (2 ^ 63) then pos w else negsuc (2 ^ 64 - 1 - w)

-- `v >> k`, rounding down.
abbrev pub asr : ℤ → ℕ → ℤ
asr (pos n) k = pos (n / 2 ^ k)
asr (negsuc n) k = negsuc (n / 2 ^ k)

pub as_u64-lt : (v : ℤ) → as_u64 v < 2 ^ 64
as_u64-lt (pos n) = omega arith
as_u64-lt (negsuc n) = omega arith

pub as_i64-as_u64 : (v : ℤ) → IsSigned 64 v → as_i64 (as_u64 v) ≡ v
as_i64-as_u64 (pos n) h = ground arith
as_i64-as_u64 (negsuc n) h = ground arith

pub as_u64-as_i64 : (w : ℕ) → w < 2 ^ 64 → as_u64 (as_i64 w) ≡ w
as_u64-as_i64 w h = ground arith
