-- ===== src/Varint/SlebEncode.antt =====
-- `Sleb128::encode` of crates/layline-core/src/num/varint.rs on any buffer, and its decode.
use layline.Prelude.{ℕ, zero, suc, ◌+◌, ◌*◌, ◌^◌, ◌<◌, List, ◌++◌, false, length}
use layline.Prelude.{ok, ◌≡◌, ap, ◌∙◌, arith, lt→ltb}
use layline.Prelude.Int.{ℤ, pos, negsuc, asr}
use layline.Buffer.{Buffer, Status}
use layline.Int.Signed.{magnitude}
use layline.Varint.{sleb_byte, sleb_last, sleb_decode, sleb_encode_loop, sleb_encode}
use layline.Varint.Rounds.{IsEncode, round-IsEncode}
use layline.Varint.Sleb.{sleb_last-ltb, on_top}
use layline.Varint.SlebDecode.{
  sleb_bytes, sleb_loop-bytes, magnitude-IsSigned, magnitude-asr, seven_fewer,
}

module _ {B : Type 0} (buffer : Buffer B) where
  open buffer use {IsValid}

  sleb_encode_loop-suc :
      (fuel : ℕ) (rest : ℤ) (b : B)
      → IsValid b
      → ((c : B)
          → IsValid c
          → sleb_last rest ≡ false
          → IsEncode buffer
              (sleb_bytes fuel (asr rest 7))
              c
              (sleb_encode_loop buffer fuel (asr rest 7) c))
      → IsEncode buffer (sleb_bytes (suc fuel) rest) b (sleb_encode_loop buffer (suc fuel) rest b)
  unfolding sleb_encode_loop
  sleb_encode_loop-suc fuel rest b v again =
      round-IsEncode buffer (sleb_byte rest) (sleb_last rest) (sleb_bytes fuel (asr rest 7))
        (sleb_encode_loop buffer fuel (asr rest 7)) b v again

  sleb_encode_loop-IsEncode :
      (fuel : ℕ) (rest : ℤ) (b : B)
      → magnitude rest < 2 ^ (7 * fuel + 6)
      → magnitude rest < 2 ^ 63
      → IsValid b
      → IsEncode buffer (sleb_bytes (suc fuel) rest) b (sleb_encode_loop buffer (suc fuel) rest b)
  sleb_encode_loop-IsEncode zero rest b enough fits v =
      sleb_encode_loop-suc zero rest b v (λ c vc more.
        let last =
          sleb_last-ltb rest (magnitude-IsSigned rest fits)
          ∙ lt→ltb (magnitude rest) (2 ^ 6) enough in
        absurd cc)
  sleb_encode_loop-IsEncode (suc fuel) rest b enough fits v =
      sleb_encode_loop-suc (suc fuel) rest b v (λ c vc more.
        sleb_encode_loop-IsEncode fuel (asr rest 7) c (seven_fewer fuel rest enough)
          (rw (magnitude-asr rest) (omega (arith, fits))) vc)

  -- What an encode appends, and what a decode of it makes, whatever bytes follow.
  abbrev pub ReadsIntBack : ℤ → List ℕ → B → B × Status → Type 0
  ReadsIntBack value tail b out =
      (bytes : List ℕ) × IsEncode buffer bytes b out
      × (sleb_decode (bytes ++ tail) ≡ ok (value, length bytes))

  on_top-nothing : (value : ℤ) → on_top 0 0 value ≡ value
  on_top-nothing (pos n) = ap pos (omega arith)
  on_top-nothing (negsuc n) = ap negsuc (omega arith)

  -- On any buffer the encode of an `i64` returns: it appends bytes that decode to the value,
  -- whatever bytes follow, and uses them up, or it overflows after the first of those bytes.
  pub sleb_encode-sleb_decode :
      (value : ℤ) (tail : List ℕ) (b : B)
      → magnitude value < 2 ^ 63
      → IsValid b
      → ReadsIntBack value tail b (sleb_encode buffer value b)
  unfolding sleb_encode sleb_decode
  sleb_encode-sleb_decode value tail b lt v =
      let same = on_top-nothing value in
      (
        sleb_bytes 10 value,
        sleb_encode_loop-IsEncode 9 value b (omega (arith, lt)) lt v,
        sleb_loop-bytes 9 0 0 value (length (sleb_bytes 10 value ++ tail)) 0 tail
              (omega (arith, lt)) (omega arith) (omega arith) (rw same lt)
            ∙ (λ i. ok (same i, from_zero i)),
      )
    where
      from_zero : 0 + length (sleb_bytes 10 value) ≡ length (sleb_bytes 10 value)
      from_zero = omega arith
