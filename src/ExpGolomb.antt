-- ===== src/ExpGolomb.antt =====
-- crates/layline-core/src/num/expgolomb.rs: the unsigned Exp-Golomb code, on the bit cursors that
-- take the top of each byte first.
pub mod Scan
pub mod Ends
pub mod Decode
pub mod Split
pub mod Encode
pub mod RoundTrip
mod Runs
use layline.Bound.{u64_int}
use layline.Prelude.{
  ℕ, zero, suc, ◌+◌, ◌-◌, ◌/◌, ◌^◌, List, Bool, true, false, ltb, ◌==◌, if◌then◌else◌, u64_max,
}
use layline.Prelude.{Res, ok, err, panic, malformed, ◌>>=◌}
use layline.Prelude.Int.{ℤ, as_u64, as_i64}
use layline.Extent.{mask64}
use layline.Bits.Reader.{BitReader, bit, read, position, reader_at}

-- `u64::ilog2` of a number that is not zero: its halvings, at most 64.
pub ilog2_from : ℕ → ℕ → ℕ
ilog2_from zero n = 0
ilog2_from (suc fuel) n = let rest = ilog2_from fuel (n / 2) in if n / 2 == 0 then 0 else suc rest

pub ilog2 : ℕ → ℕ
unfolding ilog2_from
ilog2 n = ilog2_from 64 n

-- `ExpGolomb::split`.
pub split : ℕ → ℕ × ℕ
unfolding ilog2
split value =
    if value == u64_max
    then (64, 0)
    else (let zero_bits = ilog2 (value + 1) in (zero_bits, value + 1 - 2 ^ zero_bits))

-- `u64::checked_add`.
pub checked_add : ℕ → ℕ → Bool × ℕ
checked_add a b = (ltb (a + b) (2 ^ 64), a + b)

-- The loop of `ExpGolomb::decode` over the zero bits, with fuel for its rounds. It ends with the
-- number of zero bits and the cursor behind the one bit.
pub zeros_loop : ℕ → ℕ → ℕ → BitReader → Res (ℕ × BitReader)
zeros_loop zero at_bit zero_bits r = panic
zeros_loop (suc fuel) at_bit zero_bits r = do
  (set, r') ← bit true r
  let rest = zeros_loop fuel at_bit (zero_bits + 1) r'
  if set
      then ok (zero_bits, r')
      else (if ltb 64 (zero_bits + 1) then err (malformed "ExpGolomb" (at_bit / 8)) else rest)

-- What `ExpGolomb::decode` does behind the one bit.
pub read_suffix : ℕ → ℕ × BitReader → Res (ℕ × ℕ)
unfolding checked_add
read_suffix at_bit (zero_bits, r) = do
  (suffix, r') ← if zero_bits == 0 then ok (0, r) else read true zero_bits r
  let (fits, value) = checked_add (mask64 zero_bits) suffix
  if fits then ok (value, position r' - at_bit) else err (malformed "ExpGolomb" (at_bit / 8))

-- `ExpGolomb::decode`. The loop returns in its 65th round at the latest.
pub decode : List ℕ → ℕ → Res (ℕ × ℕ)
unfolding zeros_loop read_suffix
decode bytes at_bit = zeros_loop 65 at_bit 0 (reader_at bytes at_bit) >>= read_suffix at_bit

-- `WireInt for ExpGolomb`.
unfoldable pub to_i64 : ℕ → ℤ
to_i64 code = u64_int.to_i64 code

unfoldable pub from_i64 : ℤ → ℕ
from_i64 n = as_u64 n
