-- ===== src/Checksum.antt =====
-- crates/layline-core/src/checksum.rs: CRCs of 8, 16, 32 and 64 bits, and the 16-bit sum. `Checksum`
-- is the trait, with the law that its documentation states: runs do not matter, only bytes.
pub mod Crcs
pub mod Serial
pub mod Sums
mod Runs
use layline.Prelude.{
  ℕ, zero, suc, ◌+◌, ◌*◌, ◌-◌, ◌/◌, ◌%◌, ◌^◌, List, [], ◌∷◌, ◌++◌, Bool, true, false, ◌==◌, ◌≡◌,
  ◌&&◌,
}
use layline.Prelude.{not, if◌then◌else◌, bit_and, bit_xor, Option, none, some}
use layline.Extent.{mask64}

pub record Checksum (State Output : Type 0) : Type 0 where
  pub init : State
  pub update : State → List ℕ → State
  pub finish : State → Output
  pub update-append : (s : State) (xs ys : List ℕ) → update (update s xs) ys ≡ update s (xs ++ ys)

-- `Checksum::compute`.
pub compute : {State Output : Type 0} → Checksum State Output → List ℕ → Output
compute c bytes = c.finish (c.update c.init bytes)

-- The parameters of `Crc`; `width` is the width of its word.
pub record Crc : Type 0 where
  pub width : ℕ
  pub poly : ℕ
  pub seed : ℕ
  pub xorout : ℕ
  pub reflect : Bool

-- The assertions of `Crc::init`.
pub parameters_fit : Crc → Bool
parameters_fit c =
    let outside = 2 ^ 64 - 1 - mask64 c.width in
    (bit_and c.poly outside == 0)
    && (bit_and c.seed outside == 0)
    && (bit_and c.xorout outside == 0)

-- One bit of `crc_fold`; `poly` is `POLY as $t`.
pub crc_bit : Crc → ℕ → ℕ
crc_bit c crc =
    let poly = c.poly % 2 ^ c.width in
    if c.reflect
    then (if not (bit_and crc 1 == 0) then bit_xor (crc / 2) poly else crc / 2)
    else (if not (bit_and crc (2 ^ (c.width - 1)) == 0)
        then bit_xor (crc * 2 % 2 ^ c.width) poly
        else crc * 2 % 2 ^ c.width)

-- `n` bits of it.
pub crc_bits : Crc → ℕ → ℕ → ℕ
unfolding crc_bit
crc_bits c zero crc = crc
crc_bits c (suc n) crc = crc_bits c n (crc_bit c crc)

-- One byte of it.
pub crc_byte : Crc → ℕ → ℕ → ℕ
unfolding crc_bits
crc_byte c crc byte =
    crc_bits c 8 (bit_xor crc (if c.reflect then byte else byte * 2 ^ (c.width - 8) % 2 ^ c.width))

-- `crc_fold`, and so `crc_update` and `Crc::update`.
pub crc_fold : Crc → ℕ → List ℕ → ℕ
unfolding crc_byte
crc_fold c crc [] = crc
crc_fold c crc (byte ∷ bytes) = crc_fold c (crc_byte c crc byte) bytes

-- `Crc::init`, once its assertions hold, and `Crc::finish`.
pub crc_init : Crc → ℕ
crc_init c = c.seed % 2 ^ c.width

pub crc_finish : Crc → ℕ → ℕ
crc_finish c state = bit_xor state c.xorout % 2 ^ c.width

pub record Sum16State : Type 0 where
  pub sum : ℕ
  pub half : Option ℕ

-- `u16::wrapping_add` and `wrapping_neg`.
abbrev pub wrapping_add : ℕ → ℕ → ℕ
wrapping_add a b = (a + b) % 2 ^ 16

abbrev pub wrapping_neg : ℕ → ℕ
wrapping_neg a = (2 ^ 16 - a) % 2 ^ 16

-- `pair_le`, `pair_be` and `PAIR`.
pub pair : Bool → ℕ → ℕ → ℕ
pair false first second = first + second * 2 ^ 8
pair true first second = first * 2 ^ 8 + second

-- The words of `sum16_feed`, and the byte left over.
pub feed_words : Bool → ℕ → List ℕ → Sum16State
unfolding pair
feed_words be sum [] = record { sum = sum; half = none }
feed_words be sum (last ∷ []) = record { sum = sum; half = some last }
feed_words be sum (lo ∷ (hi ∷ rest)) = feed_words be (wrapping_add sum (pair be lo hi)) rest

pub sum16_feed : Bool → Sum16State → List ℕ → Sum16State
unfolding feed_words
sum16_feed be state bytes = elim state.half [
  | none ↦ feed_words be state.sum bytes
  | some held ↦ elim bytes [
    | [] ↦ record { sum = state.sum; half = some held }
    | next ∷ rest ↦ feed_words be (wrapping_add state.sum (pair be held next)) rest
  ]
]

pub sum16_close : Bool → Sum16State → ℕ
unfolding pair
sum16_close be state =
    wrapping_neg
      (elim state.half [ none ↦ state.sum | some last ↦ wrapping_add state.sum (pair be last 0) ])

-- `Sum16State::default`.
pub sum16_init : Sum16State
sum16_init = record { sum = 0; half = none }
