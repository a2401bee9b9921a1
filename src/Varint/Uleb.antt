-- ===== src/Varint/Uleb.antt =====
-- `Uleb128` of crates/layline-core/src/num/varint.rs: the bytes of a number, and their decode.
use layline.Prelude.{
  ℕ, zero, suc, ◌+◌, ◌*◌, ◌/◌, ◌%◌, ◌^◌, ◌≤◌, ◌<◌, List, [], ◌∷◌, ◌++◌, true, false, leb, ◌==◌,
  if◌then◌else◌, length,
}
use layline.Prelude.{
  bit_and, bit_or, ok, ◌≡◌, refl, ap, ◌∙◌, arith, Bool-cases, inl, inr, ==_iff, lt→leb, leb→le,
  leb→lt, div_of_sum, div-mod, pow_pos, two-pow-add, two-pow-le,
}
use layline.Prelude.BitOps.{bit_and_mask, bit_and_flag, bit_or_fields_low}
use native.Mathlib.Nat.{mod-eq_of_lt}
use layline.Varint.{uleb_loop, uleb_byte}

-- The bytes of a number: seven bits each from the lowest, the last one below 128.
abbrev pub uleb_bytes : ℕ → ℕ → List ℕ
uleb_bytes zero rest = []
uleb_bytes (suc fuel) rest =
    if rest / 2 ^ 7 == 0
    then uleb_byte rest ∷ []
    else uleb_byte rest ∷ uleb_bytes fuel (rest / 2 ^ 7)

uleb_byte-last : (rest : ℕ) → (rest / 2 ^ 7 == 0) ≡ true → uleb_byte rest ≡ rest % 2 ^ 7
unfolding uleb_byte
uleb_byte-last rest h = rw (h, bit_and_mask 7 rest) (omega arith)

uleb_byte-more : (rest : ℕ) → (rest / 2 ^ 7 == 0) ≡ false → uleb_byte rest ≡ rest % 2 ^ 7 + 2 ^ 7
unfolding uleb_byte
uleb_byte-more rest h =
    let byte : rest % 2 ^ 7 % 2 ^ 8 ≡ rest % 2 ^ 7 = omega arith in
    rw (h, bit_and_mask 7 rest, byte)
      (bit_or_fields_low 7 1 (rest % 2 ^ 7) (omega arith) ∙ omega arith)

-- What a round of decode makes of such a byte.
module _ (rest shift value : ℕ) (small : value < 2 ^ shift)
    (fits : value + rest * 2 ^ shift < 2 ^ 64) where
  abbrev piece : ℕ
  piece = rest % 2 ^ 7

  room : 1 ≤ rest → shift < 64
  room pos = elim (Bool-cases (leb 64 shift)) [
    | inl over ↦
        let wide = two-pow-le 64 shift (leb→le _ _ over) in absurd (grind (arith, wide, pos, fits))
    | inr under ↦ leb→lt _ _ under
  ]

  split : rest * 2 ^ shift ≡ rest / 2 ^ 7 * (2 ^ 7 * 2 ^ shift) + piece * 2 ^ shift
  split =
      let parts = (div-mod rest (2 ^ 7) (omega arith)).0 in
      omega (arith, ap (λ (k : ℕ). k * 2 ^ shift) parts)

  moved : piece * 2 ^ shift % 2 ^ 64 ≡ piece * 2 ^ shift
  moved = mod-eq_of_lt (omega (arith, split, fits))

  moved_back : piece * 2 ^ shift / 2 ^ shift ≡ piece
  moved_back =
      let e : piece * 2 ^ shift ≡ piece * 2 ^ shift + 0 = omega arith in
      ap (λ (k : ℕ). k / 2 ^ shift) e ∙ div_of_sum (2 ^ shift) piece 0 (pow_pos shift)

  grown : bit_or value (piece * 2 ^ shift) ≡ value + piece * 2 ^ shift
  grown = bit_or_fields_low shift piece value small

  -- The round on a byte of these seven bits, with or without the continuation bit.
  uleb_loop-byte :
      (len i b : ℕ) (bytes : List ℕ)
      → shift < 64
      → bit_and b 0x7F ≡ piece
      → uleb_loop len i shift value (b ∷ bytes) ≡ (
          if bit_and b 0x80 == 0
          then ok (value + piece * 2 ^ shift, i + 1)
          else uleb_loop len (suc i) (shift + 7) (value + piece * 2 ^ shift) bytes)
  unfolding uleb_loop
  uleb_loop-byte len i b bytes lt payload =
      rw (payload, moved, moved_back, grown, lt→leb 64 shift lt, (==_iff piece piece).1 refl) refl

  next_small : value + piece * 2 ^ shift < 2 ^ (shift + 7)
  next_small =
      let low = (div-mod rest (2 ^ 7) (omega arith)).1 in rw two-pow-add (grind (arith, small, low))

  next_same : value + piece * 2 ^ shift + rest / 2 ^ 7 * 2 ^ (shift + 7) ≡ value + rest * 2 ^ shift
  next_same = omega (arith, split, ap (λ (k : ℕ). rest / 2 ^ 7 * k) (two-pow-add shift 7))

-- The last byte of a number, and a byte before it.
uleb_loop-last :
    (rest shift value len i : ℕ) (tail : List ℕ)
    → shift < 64
    → value < 2 ^ shift
    → value + rest * 2 ^ shift < 2 ^ 64
    → (rest / 2 ^ 7 == 0) ≡ true
    → uleb_loop len i shift value (uleb_byte rest ∷ tail) ≡ ok (value + rest * 2 ^ shift, i + 1)
uleb_loop-last rest shift value len i tail lt small fits last =
    let none : rest / 2 ^ 7 ≡ 0 = (==_iff (rest / 2 ^ 7) 0).0 last in
    let whole : rest % 2 ^ 7 ≡ rest = omega arith in
    let byte : uleb_byte rest ≡ rest = uleb_byte-last rest last ∙ whole in
    let payload : bit_and rest 0x7F ≡ rest % 2 ^ 7 = bit_and_mask 7 rest in
    let flag : bit_and rest 0x80 ≡ 0 = bit_and_flag 7 rest ∙ omega arith in
    rw byte (
      uleb_loop-byte rest shift value small fits len i rest tail lt payload ∙ rw (flag, whole) refl)

uleb_loop-more :
    (rest shift value len i : ℕ) (bytes : List ℕ)
    → shift < 64
    → value < 2 ^ shift
    → value + rest * 2 ^ shift < 2 ^ 64
    → (rest / 2 ^ 7 == 0) ≡ false
    → uleb_loop len i shift value (uleb_byte rest ∷ bytes)
      ≡ uleb_loop len (suc i) (shift + 7) (value + rest % 2 ^ 7 * 2 ^ shift) bytes
uleb_loop-more rest shift value len i bytes lt small fits more =
    let b = rest % 2 ^ 7 + 2 ^ 7 in
    let payload : bit_and b 0x7F ≡ rest % 2 ^ 7 = bit_and_mask 7 b ∙ omega arith in
    let flag : bit_and b 0x80 ≡ 128 = bit_and_flag 7 b ∙ omega arith in
    rw (uleb_byte-more rest more)
      (uleb_loop-byte rest shift value small fits len i b bytes lt payload ∙ rw flag refl)

pub seven_more : (fuel : ℕ) → 2 ^ (7 * suc (suc fuel)) ≡ 2 ^ 7 * 2 ^ (7 * suc fuel)
seven_more fuel =
    let e : 7 * suc (suc fuel) ≡ 7 + 7 * suc fuel = omega arith in
    rw (← two-pow-add 7 (7 * suc fuel), ← e) refl

-- Bytes of a number are read back from any place in a longer number.
pub uleb_loop-bytes :
    (fuel rest shift value len i : ℕ) (tail : List ℕ)
    → rest < 2 ^ (7 * suc fuel)
    → shift < 64
    → value < 2 ^ shift
    → value + rest * 2 ^ shift < 2 ^ 64
    → uleb_loop len i shift value (uleb_bytes (suc fuel) rest ++ tail)
      ≡ ok (value + rest * 2 ^ shift, i + length (uleb_bytes (suc fuel) rest))
uleb_loop-bytes zero rest shift value len i tail enough lt small fits =
    let last : (rest / 2 ^ 7 == 0) ≡ true = (==_iff (rest / 2 ^ 7) 0).1 (omega arith) in
    rw last (uleb_loop-last rest shift value len i tail lt small fits last)
uleb_loop-bytes (suc fuel) rest shift value len i tail enough lt small fits =
    elim (Bool-cases (rest / 2 ^ 7 == 0)) [
      | inl last ↦ rw last (uleb_loop-last rest shift value len i tail lt small fits last)
      | inr more ↦
          let high = rest / 2 ^ 7 in
          let low = value + rest % 2 ^ 7 * 2 ^ shift in
          let pos : 1 ≤ high = ground (arith, more) in
          let same = next_same rest shift value small fits in
          let below = next_small rest shift value small fits in
          let wide = seven_more fuel in
          let fewer : high < 2 ^ (7 * suc fuel) = omega (arith, wide, enough) in
          let fits' : low + high * 2 ^ (shift + 7) < 2 ^ 64 = omega (arith, same, fits) in
          let step : suc i + length (uleb_bytes (suc fuel) high)
              ≡ i + suc (length (uleb_bytes (suc fuel) high)) =
            omega arith in
          rw more (
            uleb_loop-more rest shift value len i (uleb_bytes (suc fuel) high ++ tail) lt small fits
              more
            ∙ uleb_loop-bytes fuel high (shift + 7) low len (suc i) tail fewer
                (room high (shift + 7) low below fits' pos) below fits'
            ∙ (λ j. ok (same j, step j)))
    ]
