-- ===== src/Int.antt =====
-- crates/layline-core/src/int.rs: integers of a stated width, of 1 to 64 bits. A value of `U<N>` is
-- its number, one of `I<N>` its integer; `w` is `WIDTH`.
pub mod Unsigned
pub mod Signed
mod Runs
use layline.Prelude.{
  ℕ, ◌+◌, ◌*◌, ◌-◌, ◌%◌, ◌^◌, leb, ◌&&◌, if◌then◌else◌, bit_and, Option, none, some, Bool, true,
  false,
}
use layline.Prelude.Int.{ℤ, pos, negsuc, as_u64, as_i64, asr}
use layline.Extent.{mask64}

-- `checked_width`; `none` is its panic.
pub checked_width : ℕ → Option ℕ
checked_width n = if leb 1 n && leb n 64 then some n else none

-- `U::new`, and its `from_raw` and `to_raw`.
pub new_u : ℕ → ℕ → Option ℕ
new_u w value = if leb value (mask64 w) then some value else none

pub from_raw_u : ℕ → ℕ → ℕ
from_raw_u w raw = bit_and raw (mask64 w)

pub to_raw_u : ℕ → ℕ
to_raw_u value = value

-- `<=` on `i64`.
pub int_leb : ℤ → ℤ → Bool
int_leb (pos a) (pos b) = leb a b
int_leb (pos a) (negsuc b) = false
int_leb (negsuc a) (pos b) = true
int_leb (negsuc a) (negsuc b) = leb b a

-- `I::MAX` and `I::MIN`.
pub max_i : ℕ → ℤ
max_i w = asr (pos (2 ^ 63 - 1)) (64 - w)

pub min_i : ℕ → ℤ
min_i w = asr (negsuc (2 ^ 63 - 1)) (64 - w)

-- `I::new`, and its `from_raw` and `to_raw`.
pub new_i : ℕ → ℤ → Option ℤ
unfolding int_leb max_i min_i
new_i w value = if int_leb (min_i w) value && int_leb value (max_i w) then some value else none

unfoldable pub sign_extend : ℕ → ℕ → ℤ
sign_extend raw bits = let shift = 64 - bits in asr (as_i64 (raw * 2 ^ shift % 2 ^ 64)) shift

pub from_raw_i : ℕ → ℕ → ℤ
unfolding sign_extend
from_raw_i w raw = sign_extend raw w

pub to_raw_i : ℕ → ℤ → ℕ
to_raw_i w value = bit_and (as_u64 value) (mask64 w)
