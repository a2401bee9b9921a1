-- ===== src/Varint/SlebDecode.antt =====
-- `Sleb128::decode` of crates/layline-core/src/num/varint.rs on the bytes of an integer.
use layline.Prelude.{
  ℕ, zero, suc, ◌+◌, ◌*◌, ◌-◌, ◌/◌, ◌%◌, ◌^◌, ◌≤◌, ◌<◌, List, [], ◌∷◌, ◌++◌, Bool, true, false, ltb,
  if◌then◌else◌, length,
}
use layline.Prelude.{
  bit_and, ok, ◌≡◌, refl, ap, sym, ◌∙◌, arith, Bool-cases, inl, inr, lt→ltb, le→ltb, ltb→lt, ltb→le,
  two-pow-add, pow_pos,
}
use layline.Prelude.Int.{ℤ, pos, negsuc, IsSigned, asr}
use layline.Prelude.BitOps.{bit_or_fields_low, bit_or-zero}
use layline.Int.Signed.{magnitude}
use layline.Varint.{sleb_loop, sleb_byte, sleb_last, sign_filled}
use layline.Varint.Sleb.{
  IsByteOf, low_seven, on_top, sleb_last-ltb, sleb_byte-IsByteOf, sleb_loop-byte,
  sign_filled-on_top, wide, grown-lt,
}

-- The bytes of an integer: seven bits each from the lowest.
abbrev pub sleb_bytes : ℕ → ℤ → List ℕ
sleb_bytes zero rest = []
sleb_bytes (suc fuel) rest =
    if sleb_last rest then sleb_byte rest ∷ [] else sleb_byte rest ∷ sleb_bytes fuel (asr rest 7)

-- What a round leaves stands for the same integer.
on_top-next :
    (shift value : ℕ) (v : ℤ)
    → shift ≤ 56
    → value < 2 ^ shift
    → on_top (shift + 7) (value + low_seven v * 2 ^ shift) (asr v 7) ≡ on_top shift value v
on_top-next shift value (pos n) low small =
    let parts : n / 2 ^ 7 * 2 ^ 7 + n % 2 ^ 7 ≡ n = omega arith in
    let w = wide shift value (pos n) low small in
    ap pos (omega (arith, ap (λ (k : ℕ). k * 2 ^ shift) parts, ap (λ (k : ℕ). n / 2 ^ 7 * k) w))
on_top-next shift value (negsuc n) low small =
    let m = 2 ^ 7 - 1 - n % 2 ^ 7 in
    let parts : n / 2 ^ 7 * 2 ^ 7 + n % 2 ^ 7 ≡ n = omega arith in
    let sum : m + n % 2 ^ 7 + 1 ≡ 2 ^ 7 = omega arith in
    let w = wide shift value (negsuc n) low small in
    ap negsuc (
      omega (
        arith,
        small,
        w,
        ap (λ (k : ℕ). k * 2 ^ shift) parts,
        ap (λ (k : ℕ). k * 2 ^ shift) sum,
        ap (λ (k : ℕ). n / 2 ^ 7 * k) w,
      ))

-- The tenth byte, which has one bit of the integer.
sleb_loop-tenth :
    (value : ℕ) (v : ℤ) (len i b : ℕ) (bytes : List ℕ)
    → value < 2 ^ 63
    → magnitude v ≡ 0
    → IsByteOf true v b
    → sleb_loop len i 63 value (b ∷ bytes) ≡ ok (on_top 63 value v, i + 1)
unfolding sleb_loop sign_filled
sleb_loop-tenth value (pos n) len i b bytes small none h =
    let payload : bit_and b 0x7F ≡ 0 = h.payload ∙ omega (arith, none) in
    rw (payload, h.flag, bit_or-zero value, lt→ltb value (2 ^ 63) small, none)
      (ap (λ (k : ℕ). ok (pos k, i + 1)) (omega arith))
sleb_loop-tenth value (negsuc n) len i b bytes small none h =
    let payload : bit_and b 0x7F ≡ 127 = h.payload ∙ omega (arith, none) in
    let high : 2 ^ 63 ≤ value + 2 ^ 63 = omega arith in
    let rest : 2 ^ 64 - 1 - (value + 2 ^ 63) ≡ 2 ^ 63 - 1 - value = omega arith in
    rw
      (
        payload,
        h.flag,
        bit_or_fields_low 63 1 value small,
        le→ltb (value + 2 ^ 63) (2 ^ 63) high,
        none,
        rest,
      )
      (ap (λ (k : ℕ). ok (negsuc k, i + 1)) (omega arith))

-- The integer on top is no smaller than the one below it.
magnitude-on_top :
    (shift value : ℕ) (v : ℤ) → magnitude v * 2 ^ shift ≤ magnitude (on_top shift value v)
magnitude-on_top shift value (pos n) = omega arith
magnitude-on_top shift value (negsuc n) = omega arith

pub magnitude-IsSigned : (v : ℤ) → magnitude v < 2 ^ 63 → IsSigned 64 v
magnitude-IsSigned (pos n) h = h
magnitude-IsSigned (negsuc n) h = h

pub magnitude-asr : (v : ℤ) → magnitude (asr v 7) ≡ magnitude v / 2 ^ 7
magnitude-asr (pos n) = refl
magnitude-asr (negsuc n) = refl

-- A magnitude that fits on top fits alone, and is zero on top of 63 bits.
module _ (k value : ℕ) (v : ℤ) (ten : k ≤ 9)
    (whole : magnitude (on_top (7 * k) value v) < 2 ^ 63) where
  alone : magnitude v < 2 ^ 63
  alone = let m = magnitude-on_top (7 * k) value v in grind (arith, m, whole, pow_pos (7 * k))

  tenth : k ≡ 9 → magnitude v ≡ 0
  tenth e =
      let m = magnitude-on_top (7 * k) value v in
      let full : 7 * k ≡ 63 = omega arith in omega (arith, rw full at m, rw full at whole)

  signed : IsSigned 64 v
  signed = magnitude-IsSigned v alone

  byte_of : (last : Bool) → sleb_last v ≡ last → IsByteOf last v (sleb_byte v)
  byte_of last e = rw e at (sleb_byte-IsByteOf v signed)

  short : sleb_last v ≡ true → magnitude v < 2 ^ 6
  short last = ltb→lt (magnitude v) (2 ^ 6) (sym (sleb_last-ltb v signed) ∙ last)

  long : sleb_last v ≡ false → 2 ^ 6 ≤ magnitude v
  long more = ltb→le (magnitude v) (2 ^ 6) (sym (sleb_last-ltb v signed) ∙ more)

  sleb_loop-last :
      (len i : ℕ) (tail : List ℕ)
      → value < 2 ^ (7 * k)
      → sleb_last v ≡ true
      → sleb_loop len i (7 * k) value (sleb_byte v ∷ tail) ≡ ok (on_top (7 * k) value v, i + 1)
  sleb_loop-last len i tail small last = elim (Bool-cases (ltb k 9)) [
    | inl early ↦
        let low : 7 * k ≤ 56 = omega (arith, ltb→lt _ _ early) in
        sleb_loop-byte (7 * k) value v low small true len i (sleb_byte v) tail (byte_of true last)
        ∙ ap (λ (z : ℤ). ok (z, i + 1))
            (sign_filled-on_top (7 * k) value v (sleb_byte v) low small (byte_of true last)
              (short last))
    | inr late ↦
        let nine : k ≡ 9 = omega (arith, ltb→le _ _ late, ten) in
        let full : 7 * k ≡ 63 = omega (arith, nine) in
        rw full (
          sleb_loop-tenth value v len i (sleb_byte v) tail (rw full at small) (tenth nine)
            (byte_of true last))
  ]

  sleb_loop-more :
      (len i : ℕ) (bytes : List ℕ)
      → value < 2 ^ (7 * k)
      → sleb_last v ≡ false
      → (suc k ≤ 9)
        × (value + low_seven v * 2 ^ (7 * k) < 2 ^ (7 * suc k))
        × (on_top (7 * suc k) (value + low_seven v * 2 ^ (7 * k)) (asr v 7)
            ≡ on_top (7 * k) value v)
        × (sleb_loop len i (7 * k) value (sleb_byte v ∷ bytes)
            ≡ sleb_loop len (suc i) (7 * suc k) (value + low_seven v * 2 ^ (7 * k)) bytes)
  sleb_loop-more len i bytes small more =
      let early : suc k ≤ 9 = elim (Bool-cases (ltb k 9)) [
        | inl early ↦ omega (arith, ltb→lt _ _ early)
        | inr late ↦ absurd (omega (arith, long more, tenth (omega (arith, ltb→le _ _ late, ten))))
      ] in
      let low : 7 * k ≤ 56 = omega (arith, early) in
      let up : 7 * k + 7 ≡ 7 * suc k = omega arith in
      (
        early,
        rw up at (grown-lt (7 * k) value v low small),
        rw up at (on_top-next (7 * k) value v low small),
        rw up at (
            sleb_loop-byte (7 * k) value v low small false len i (sleb_byte v) bytes
              (byte_of false more)),
      )

pub seven_fewer :
    (fuel : ℕ) (v : ℤ)
    → magnitude v < 2 ^ (7 * suc fuel + 6)
    → magnitude (asr v 7) < 2 ^ (7 * fuel + 6)
seven_fewer fuel v enough =
    let e : 7 * suc fuel + 6 ≡ 7 + (7 * fuel + 6) = omega arith in
    let wide : 2 ^ (7 * suc fuel + 6) ≡ 2 ^ 7 * 2 ^ (7 * fuel + 6) =
      ap (λ (j : ℕ). 2 ^ j) e ∙ two-pow-add 7 (7 * fuel + 6) in
    rw (magnitude-asr v) (omega (arith, wide, enough))

-- Bytes of an integer are read back on top of the bits of a longer one.
pub sleb_loop-bytes :
    (fuel k value : ℕ) (v : ℤ) (len i : ℕ) (tail : List ℕ)
    → magnitude v < 2 ^ (7 * fuel + 6)
    → k ≤ 9
    → value < 2 ^ (7 * k)
    → magnitude (on_top (7 * k) value v) < 2 ^ 63
    → sleb_loop len i (7 * k) value (sleb_bytes (suc fuel) v ++ tail)
      ≡ ok (on_top (7 * k) value v, i + length (sleb_bytes (suc fuel) v))
sleb_loop-bytes zero k value v len i tail enough ten small whole = elim (Bool-cases (sleb_last v)) [
  | inl last ↦ rw last (sleb_loop-last k value v ten whole len i tail small last)
  | inr more ↦ absurd (omega (arith, long k value v ten whole more))
]
sleb_loop-bytes (suc fuel) k value v len i tail enough ten small whole =
    elim (Bool-cases (sleb_last v)) [
      | inl last ↦ rw last (sleb_loop-last k value v ten whole len i tail small last)
      | inr more ↦
          let bytes = sleb_bytes (suc fuel) (asr v 7) in
          let (ten', small', same, step) =
            sleb_loop-more k value v ten whole len i (bytes ++ tail) small more in
          let count : suc i + length bytes ≡ i + suc (length bytes) = omega arith in
          rw more (
            step
            ∙ sleb_loop-bytes fuel (suc k) (value + low_seven v * 2 ^ (7 * k)) (asr v 7) len (suc i)
                tail (seven_fewer fuel v enough) ten' small' (rw same whole)
            ∙ (λ j. ok (same j, count j)))
    ]
