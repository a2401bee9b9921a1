-- ===== src/Varint/Encode.antt =====
-- `Uleb128::encode` of crates/layline-core/src/num/varint.rs on any buffer, and its decode.
use layline.Prelude.{ℕ, zero, suc, ◌+◌, ◌*◌, ◌/◌, ◌^◌, ◌<◌, List, ◌++◌, false, ◌==◌, length}
use layline.Prelude.{ok, ◌≡◌, ◌∙◌, arith, ==_iff}
use layline.Buffer.{Buffer, Status}
use layline.Varint.{uleb_decode, uleb_byte, uleb_encode_loop, uleb_encode}
use layline.Varint.Rounds.{IsEncode, round-IsEncode}
use layline.Varint.Uleb.{uleb_bytes, uleb_loop-bytes, seven_more}

module _ {B : Type 0} (buffer : Buffer B) where
  open buffer use {IsValid, push, written, push-cases}

  uleb_encode_loop-suc :
      (fuel rest : ℕ) (b : B)
      → IsValid b
      → ((c : B)
          → IsValid c
          → (rest / 2 ^ 7 == 0) ≡ false
          → IsEncode buffer
              (uleb_bytes fuel (rest / 2 ^ 7))
              c
              (uleb_encode_loop buffer fuel (rest / 2 ^ 7) c))
      → IsEncode buffer (uleb_bytes (suc fuel) rest) b (uleb_encode_loop buffer (suc fuel) rest b)
  unfolding uleb_encode_loop
  uleb_encode_loop-suc fuel rest b v again =
      round-IsEncode buffer (uleb_byte rest) (rest / 2 ^ 7 == 0) (uleb_bytes fuel (rest / 2 ^ 7))
        (uleb_encode_loop buffer fuel (rest / 2 ^ 7)) b v again

  uleb_encode_loop-IsEncode :
      (fuel rest : ℕ) (b : B)
      → rest < 2 ^ (7 * suc fuel)
      → IsValid b
      → IsEncode buffer (uleb_bytes (suc fuel) rest) b (uleb_encode_loop buffer (suc fuel) rest b)
  uleb_encode_loop-IsEncode zero rest b enough v =
      uleb_encode_loop-suc zero rest b v
        (λ c vc more. absurd (let none = (==_iff (rest / 2 ^ 7) 0).1 (omega arith) in cc))
  uleb_encode_loop-IsEncode (suc fuel) rest b enough v =
      let wide = seven_more fuel in
      uleb_encode_loop-suc (suc fuel) rest b v (λ c vc more.
        uleb_encode_loop-IsEncode fuel (rest / 2 ^ 7) c (omega (arith, wide, enough)) vc)

  -- What an encode appends, and what a decode of it makes, whatever bytes follow.
  abbrev pub ReadsBack : ℕ → List ℕ → B → B × Status → Type 0
  ReadsBack value tail b out =
      (bytes : List ℕ) × IsEncode buffer bytes b out
      × (uleb_decode (bytes ++ tail) ≡ ok (value, length bytes))

  -- On any buffer the encode of a `u64` returns: it appends bytes that decode to the value,
  -- whatever bytes follow, and uses them up, or it overflows after the first of those bytes.
  pub uleb_encode-uleb_decode :
      (value : ℕ) (tail : List ℕ) (b : B)
      → value < 2 ^ 64
      → IsValid b
      → ReadsBack value tail b (uleb_encode buffer value b)
  unfolding uleb_encode uleb_decode
  uleb_encode-uleb_decode value tail b lt v = (
    uleb_bytes 10 value,
    uleb_encode_loop-IsEncode 9 value b (omega arith) v,
    uleb_loop-bytes 9 value 0 0 (length (uleb_bytes 10 value ++ tail)) 0 tail (omega arith)
          (omega arith) (omega arith) (omega arith)
        ∙ (λ i. ok (same i, from_zero i)),
  )
    where
      same : 0 + value * 2 ^ 0 ≡ value
      same = omega arith

      from_zero : 0 + length (uleb_bytes 10 value) ≡ length (uleb_bytes 10 value)
      from_zero = omega arith
