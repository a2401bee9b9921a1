-- ===== src/Word.antt =====
-- crates/layline-core/src/word.rs: a container of up to 16 bytes, loaded from the wire as one number.
-- `n` is `WIRE_BYTES`; the assertions on `MASK` ask for `1 ≤ n ≤ 16` and `DATA_BITS = n * 8`.
pub mod Wire
mod Runs
use layline.Prelude.{ℕ, zero, suc, ◌+◌, ◌*◌, ◌-◌, ◌/◌, ◌%◌, ◌^◌, List, [], ◌∷◌, bit_and, bit_or}
use layline.Extent.{mask128}

pub record BitWord : Type 0 where
  pub bits : ℕ

pub zeroed : BitWord
zeroed = record { bits = 0 }

-- `MASK`.
abbrev pub word_mask : ℕ → ℕ
word_mask n = mask128 (n * 8)

-- The loops of `from_wire` and `from_wire_be`, at byte `i`.
pub load : ℕ → List ℕ → ℕ → ℕ
load i [] bits = bits
load i (b ∷ bs) bits = load (suc i) bs (bit_or bits (b * 2 ^ (i * 8) % 2 ^ 128))

pub load_be : ℕ → ℕ → List ℕ → ℕ → ℕ
load_be n i [] bits = bits
load_be n i (b ∷ bs) bits = load_be n (suc i) bs (bit_or bits (b * 2 ^ ((n - 1 - i) * 8) % 2 ^ 128))

pub from_wire : ℕ → List ℕ → BitWord
unfolding load
from_wire n bytes = record { bits = bit_and (load 0 bytes 0) (word_mask n) }

pub from_wire_be : ℕ → List ℕ → BitWord
unfolding load_be
from_wire_be n bytes = record { bits = bit_and (load_be n 0 bytes 0) (word_mask n) }

-- The loops of `to_wire` and `to_wire_be`, with `left` bytes to go, at byte `i`.
pub store : ℕ → ℕ → ℕ → List ℕ
store zero i bits = []
store (suc left) i bits = bits / 2 ^ (i * 8) % 2 ^ 8 ∷ store left (suc i) bits

pub store_be : ℕ → ℕ → ℕ → ℕ → List ℕ
store_be n zero i bits = []
store_be n (suc left) i bits = bits / 2 ^ ((n - 1 - i) * 8) % 2 ^ 8 ∷ store_be n left (suc i) bits

pub to_wire : ℕ → BitWord → List ℕ
unfolding store
to_wire n w = store n 0 w.bits

pub to_wire_be : ℕ → BitWord → List ℕ
unfolding store_be
to_wire_be n w = store_be n n 0 w.bits

-- `set_raw`.
pub set_raw : ℕ → ℕ → BitWord → BitWord
set_raw n bits w = record w { bits = bit_and bits (word_mask n) }
