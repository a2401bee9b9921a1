-- ===== src/Extent.antt =====
-- crates/layline-core/src/mask.rs and extent.rs: a field's place in a container of up to 128 bits.
-- A `u128` is a number below 2^128.
pub mod Insert
mod Runs
use layline.Prelude.{
  ℕ, ◌+◌, ◌*◌, ◌-◌, ◌/◌, ◌%◌, ◌^◌, ◌≤◌, leb, if◌then◌else◌, bit_and, bit_or, Option, none, some,
}

-- `mask64` and `mask128`.
unfoldable pub mask64 : ℕ → ℕ
mask64 bits = if leb 64 bits then 2 ^ 64 - 1 else 2 ^ bits - 1

pub mask128 : ℕ → ℕ
mask128 bits = if leb 128 bits then 2 ^ 128 - 1 else 2 ^ bits - 1

-- `x << k` and `!x` on `u128`.
abbrev shl_u128 : ℕ → ℕ → ℕ
shl_u128 x k = x * 2 ^ k % 2 ^ 128

abbrev not_u128 : ℕ → ℕ
not_u128 x = 2 ^ 128 - 1 - x

pub record Extent : Type 0 where
  pub start : ℕ
  pub width : ℕ

-- `Extent::new`; `none` is its panic.
pub new : ℕ → ℕ → Option Extent
new start width = if leb 1 width then some (record { start = start; width = width }) else none

-- `end`, with a sum that is taken to fit a `u64`.
unfoldable pub end_of : Extent → ℕ
end_of e = e.start + e.width

pub mask_wide : Extent → ℕ
unfolding mask128
mask_wide e = mask128 e.width

pub extract_wide : Extent → ℕ → ℕ
unfolding mask_wide
extract_wide e bits = bit_and (bits / 2 ^ e.start) (mask_wide e)

pub insert_wide : Extent → ℕ → ℕ → ℕ
unfolding mask_wide
insert_wide e bits value =
    let mask = mask_wide e in
    bit_or (bit_and bits (not_u128 (shl_u128 mask e.start))) (shl_u128 (bit_and value mask) e.start)

-- The accessors for fields of up to 64 bits.
pub extract : Extent → ℕ → ℕ
unfolding extract_wide
extract e bits = extract_wide e bits % 2 ^ 64

pub insert : Extent → ℕ → ℕ → ℕ
unfolding insert_wide
insert e bits value = insert_wide e bits value
