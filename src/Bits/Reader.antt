-- ===== src/Bits/Reader.antt =====
-- `BitReader` of crates/layline-core/src/bits.rs.
pub mod Read
pub mod Skip
use layline.Prelude.{
  ℕ, zero, suc, ◌+◌, ◌*◌, ◌-◌, ◌/◌, ◌%◌, ◌^◌, min, List, [], ◌∷◌, Bool, true, false, not,
}
use layline.Prelude.{
  ltb, ◌==◌, if◌then◌else◌, length, get_elem?, bit_and, bit_or, u64_max, saturating_add,
}
use layline.Prelude.{Res, ok, err, panic, ◌>>=◌, expect, ParseError, short}
use layline.Bits.{shl_u64, shr, chunk_mask, bytes_for}

-- `BitReader { bytes, at }`.
pub record BitReader : Type 0 where
  pub bytes : List ℕ
  pub at : ℕ

-- `BitReader::new` and `BitReader::at`.
pub new : List ℕ → BitReader
new bytes = record { bytes = bytes; at = 0 }

unfoldable pub reader_at : List ℕ → ℕ → BitReader
reader_at bytes at_bit = record { bytes = bytes; at = at_bit }

-- The value after a round that takes `take` of the `free` bits left in `byte`; `done` bits of it
-- have been read before.
pub read_chunk : Bool → ℕ → ℕ → ℕ → ℕ → ℕ → ℕ
read_chunk true byte free take done value =
    bit_or (shl_u64 value take) (bit_and (shr byte (free - take)) (chunk_mask take))
read_chunk false byte free take done value =
    bit_or value (shl_u64 (bit_and (shr byte (8 - free)) (chunk_mask take)) done)

module _ (msb : Bool) where
  -- The loop of `read`, `left` bits before its end, with fuel for its rounds.
  pub read_loop : ℕ → ℕ → ℕ → ℕ → BitReader → Res (ℕ × BitReader)
  read_loop fuel bits zero value r = ok (value, r)
  read_loop zero bits (suc left) value r = panic
  read_loop (suc fuel) bits (suc left) value r = do
    byte ← expect (get_elem? r.bytes (r.at / 8))
    let free = 8 - r.at % 8
    let taken = min (suc left) free
    read_loop fuel bits (suc left - taken) (read_chunk msb byte free taken (bits - suc left) value)
        (record r { at = r.at + taken })

  -- `read`.
  unfoldable pub read : ℕ → BitReader → Res (ℕ × BitReader)
  unfolding read_loop read_chunk
  read bits r =
      let need = bytes_for (saturating_add r.at bits) in
      if ltb (length r.bytes) need
      then err (short need (length r.bytes) (r.at / 8))
      else read_loop bits bits bits 0 r

  -- `bit`.
  unfoldable pub bit : BitReader → Res (Bool × BitReader)
  unfolding read
  bit r = read 1 r >>= λ (value, r'). ok (not (value == 0), r')

-- `skip`.
pub skip : ℕ → BitReader → Res (Unit {0} × BitReader)
skip bits r =
    let end = saturating_add r.at bits in
    let need = bytes_for end in
    if ltb (length r.bytes) need
    then err (short need (length r.bytes) (r.at / 8))
    else ok (tt, record r { at = end })

-- `position`, and `bytes_consumed`.
unfoldable pub position : BitReader → ℕ
position r = r.at

pub bytes_consumed : BitReader → ℕ
bytes_consumed r = bytes_for r.at
