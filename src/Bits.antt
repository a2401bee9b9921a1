-- ===== src/Bits.antt =====
-- crates/layline-core/src/bits.rs: bit cursors that read and write fields of up to 64 bits. `msb` is
-- the trait parameter `MSB`: whether each byte is filled from the top bit down.
pub mod Number
pub mod Put
pub mod Reader
pub mod Writer
pub mod RoundTrip
pub mod Patched
mod Runs
use layline.Prelude.{ℕ, ◌+◌, ◌*◌, ◌-◌, ◌/◌, ◌%◌, ◌^◌}

-- `x as u8`, and `x << k` and `x >> k` on `u8` and `u64`.
abbrev pub as_u8 : ℕ → ℕ
as_u8 x = x % 2 ^ 8

abbrev pub shl_u8 : ℕ → ℕ → ℕ
shl_u8 x k = x * 2 ^ k % 2 ^ 8

abbrev pub shl_u64 : ℕ → ℕ → ℕ
shl_u64 x k = x * 2 ^ k % 2 ^ 64

abbrev pub shr : ℕ → ℕ → ℕ
shr x k = x / 2 ^ k

-- `chunk_mask`: the low `n` bits set, for `n` up to 8.
abbrev pub chunk_mask : ℕ → ℕ
chunk_mask n = 2 ^ n - 1

-- `div_ceil(8)`.
abbrev pub bytes_for : ℕ → ℕ
bytes_for bits = (bits + 7) / 8
