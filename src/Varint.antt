-- ===== src/Varint.antt =====
-- crates/layline-core/src/num/varint.rs: unsigned and signed LEB128, and zigzag.
pub mod Uleb
pub mod Rounds
pub mod Encode
pub mod Sleb
pub mod SlebDecode
pub mod SlebEncode
pub mod Zigzag
mod Runs
use layline.Prelude.{
  ℕ, zero, suc, ◌+◌, ◌*◌, ◌-◌, ◌/◌, ◌%◌, ◌^◌, List, [], ◌∷◌, Bool, true, false, not, leb, ltb, ◌&&◌,
  ◌||◌, ◌==◌, if◌then◌else◌, length,
}
use layline.Prelude.{bit_and, bit_or, bit_xor, Res, ok, err, short, malformed}
use layline.Prelude.Int.{ℤ, pos, negsuc, as_u64, as_i64, asr}
use layline.Bound.{int_eq}
use layline.Buffer.{Buffer, Status, done, stuck, ◌>>=◌}

-- The loop of `Uleb128::decode`, at byte `i` of `len`.
pub uleb_loop : ℕ → ℕ → ℕ → ℕ → List ℕ → Res (ℕ × ℕ)
uleb_loop len i shift value [] = err (short (len + 1) len 0)
uleb_loop len i shift value (b ∷ bytes) =
    let payload = bit_and b 0x7F in
    let moved = payload * 2 ^ shift % 2 ^ 64 in
    let grown = bit_or value moved in
    let rest = uleb_loop len (suc i) (shift + 7) grown bytes in
    if leb 64 shift
    then err (malformed "Uleb128" 0)
    else (if not (moved / 2 ^ shift == payload)
        then err (malformed "Uleb128" 0)
        else (if bit_and b 0x80 == 0 then ok (grown, i + 1) else rest))

pub uleb_decode : List ℕ → Res (ℕ × ℕ)
unfolding uleb_loop
uleb_decode bytes = uleb_loop (length bytes) 0 0 0 bytes

-- The byte of a round of `Uleb128::encode`.
pub uleb_byte : ℕ → ℕ
uleb_byte value =
    let byte = bit_and value 0x7F % 2 ^ 8 in if value / 2 ^ 7 == 0 then byte else bit_or byte 0x80

-- The loop of `Uleb128::encode`, with fuel for its rounds.
module _ {B : Type 0} (buffer : Buffer B) where
  pub uleb_encode_loop : ℕ → ℕ → B → B × Status
  uleb_encode_loop zero rest out = (out, stuck)
  uleb_encode_loop (suc fuel) rest out = do
    pushed ← buffer.push (uleb_byte rest ∷ []) out
    if rest / 2 ^ 7 == 0 then (pushed, done) else uleb_encode_loop fuel (rest / 2 ^ 7) pushed

  -- Ten rounds take 70 bits.
  pub uleb_encode : ℕ → B → B × Status
  unfolding uleb_encode_loop
  uleb_encode value out = uleb_encode_loop 10 value out

-- `b & mask != 0`.
abbrev is_set : ℕ → ℕ → Bool
is_set b mask = not (bit_and b mask == 0)

-- `|` on `i64`, and `-1i64 << k`.
abbrev pub or_i64 : ℤ → ℤ → ℤ
or_i64 a b = as_i64 (bit_or (as_u64 a) (as_u64 b))

abbrev pub ones_above : ℕ → ℤ
ones_above k = as_i64 (as_u64 (negsuc 0) * 2 ^ k % 2 ^ 64)

-- The value of `Sleb128::decode` behind its last byte: the sign is copied up.
pub sign_filled : ℕ → ℕ → ℕ → ℤ
sign_filled value shift b =
    if ltb shift 64 && is_set b 0x40 then or_i64 (as_i64 value) (ones_above shift) else as_i64 value

-- The loop of `Sleb128::decode`, at byte `i` of `len`.
pub sleb_loop : ℕ → ℕ → ℕ → ℕ → List ℕ → Res (ℤ × ℕ)
unfolding sign_filled
sleb_loop len i shift value [] = err (short (len + 1) len 0)
sleb_loop len i shift value (b ∷ bytes) =
    let payload = bit_and b 0x7F in
    let fill = if bit_and payload 1 == 0 then 0x00 else 0x7F in
    let grown = bit_or value (payload * 2 ^ shift % 2 ^ 64) in
    let rest = sleb_loop len (suc i) (shift + 7) grown bytes in
    if leb 64 shift
    then err (malformed "Sleb128" 0)
    else (if (shift == 63) && not (payload == fill)
        then err (malformed "Sleb128" 0)
        else (if bit_and b 0x80 == 0 then ok (sign_filled grown (shift + 7) b, i + 1) else rest))

pub sleb_decode : List ℕ → Res (ℤ × ℕ)
unfolding sleb_loop
sleb_decode bytes = sleb_loop (length bytes) 0 0 0 bytes

-- The low seven bits of a round of `Sleb128::encode`, whether it is the last, and its byte.
pub sleb_payload : ℤ → ℕ
sleb_payload rest = bit_and (as_u64 rest) 0x7F % 2 ^ 8

pub sleb_last : ℤ → Bool
unfolding sleb_payload
sleb_last rest =
    let sign_set = is_set (sleb_payload rest) 0x40 in
    (int_eq (asr rest 7) (pos 0) && not sign_set) || (int_eq (asr rest 7) (negsuc 0) && sign_set)

pub sleb_byte : ℤ → ℕ
unfolding sleb_payload sleb_last
sleb_byte rest = if sleb_last rest then sleb_payload rest else bit_or (sleb_payload rest) 0x80

module _ {B : Type 0} (buffer : Buffer B) where
  -- The loop of `Sleb128::encode`, with fuel for its rounds.
  pub sleb_encode_loop : ℕ → ℤ → B → B × Status
  unfolding sleb_byte sleb_last
  sleb_encode_loop zero rest out = (out, stuck)
  sleb_encode_loop (suc fuel) rest out = do
    pushed ← buffer.push (sleb_byte rest ∷ []) out
    if sleb_last rest then (pushed, done) else sleb_encode_loop fuel (asr rest 7) pushed

  -- Ten rounds take 70 bits.
  pub sleb_encode : ℤ → B → B × Status
  unfolding sleb_encode_loop
  sleb_encode value out = sleb_encode_loop 10 value out

-- `zigzag`.
pub zigzag : ℤ → ℕ
zigzag value = bit_xor (as_u64 value * 2 % 2 ^ 64) (as_u64 (asr value 63))

-- `-(bit as i64)` of a bit, and `^` on `i64`.
abbrev negated : ℕ → ℤ
negated b = if b == 0 then pos 0 else negsuc (b - 1)

abbrev xor_i64 : ℤ → ℤ → ℤ
xor_i64 a b = as_i64 (bit_xor (as_u64 a) (as_u64 b))

pub unzigzag : ℕ → ℤ
unzigzag raw = xor_i64 (as_i64 (raw / 2)) (negated (bit_and raw 1))
