-- ===== src/Varint/Zigzag.antt =====
-- `zigzag` and `unzigzag` of crates/layline-core/src/num/varint.rs.
use layline.Prelude.{
  ℕ, zero, suc, ◌+◌, ◌*◌, ◌-◌, ◌/◌, ◌%◌, ◌^◌, ◌<◌, ◌≡◌, refl, ap, sym, ◌∙◌, arith, bit_xor, bit_and,
  ◌⊎◌, inl, inr, lt→ltb, le→ltb,
}
use layline.Prelude.Int.{ℤ, pos, negsuc, IsSigned}
use layline.Prelude.BitOps.{bit_xor_ones, bit_and_one, bit_xor-zero}
use layline.Varint.{zigzag, unzigzag}

-- Small magnitudes first: 0, -1, 1, -2, 2 and so on.
abbrev pub interleaved : ℤ → ℕ
interleaved (pos n) = 2 * n
interleaved (negsuc n) = 2 * n + 1

zigzag-interleaved : (v : ℤ) → IsSigned 64 v → zigzag v ≡ interleaved v
unfolding zigzag
zigzag-interleaved (pos n) h =
    let sign : n / 2 ^ 63 % 2 ^ 64 ≡ 0 = omega arith in
    let twice : n % 2 ^ 64 * 2 % 2 ^ 64 ≡ 2 * n = omega arith in
    rw (sign, twice) (bit_xor-zero (2 * n))
zigzag-interleaved (negsuc n) h =
    let sign : 2 ^ 64 - 1 - n / 2 ^ 63 % 2 ^ 64 ≡ 2 ^ 64 - 1 = omega arith in
    let twice : (2 ^ 64 - 1 - n % 2 ^ 64) * 2 % 2 ^ 64 ≡ 2 ^ 64 - 2 - 2 * n = omega arith in
    rw (sign, twice) (bit_xor_ones 64 (2 ^ 64 - 2 - 2 * n) (omega arith) ∙ omega arith)

unzigzag-even : (n : ℕ) → n < 2 ^ 63 → unzigzag (2 * n) ≡ pos n
unfolding unzigzag
unzigzag-even n h =
    let half : 2 * n / 2 ≡ n = omega arith in
    let bit : bit_and (2 * n) 1 ≡ 0 = bit_and_one (2 * n) ∙ omega arith in
    let whole : n % 2 ^ 64 ≡ n = omega arith in
    let low = lt→ltb n (2 ^ 63) h in rw (half, bit, low, whole, bit_xor-zero n, low) refl

unzigzag-odd : (n : ℕ) → n < 2 ^ 63 → unzigzag (2 * n + 1) ≡ negsuc n
unfolding unzigzag
unzigzag-odd n h =
    let half : (2 * n + 1) / 2 ≡ n = omega arith in
    let bit : bit_and (2 * n + 1) 1 ≡ 1 = bit_and_one (2 * n + 1) ∙ omega arith in
    let whole : n % 2 ^ 64 ≡ n = omega arith in
    let flip : bit_xor n (2 ^ 64 - 1) ≡ 2 ^ 64 - 1 - n = bit_xor_ones 64 n (omega arith) in
    let back : 2 ^ 64 - 1 - (2 ^ 64 - 1 - n) ≡ n = omega arith in
    rw
      (
        half,
        bit,
        lt→ltb n (2 ^ 63) h,
        whole,
        flip,
        le→ltb (2 ^ 64 - 1 - n) (2 ^ 63) (omega arith),
        back,
      )
      refl

unzigzag-interleaved : (v : ℤ) → IsSigned 64 v → unzigzag (interleaved v) ≡ v
unzigzag-interleaved (pos n) h = unzigzag-even n h
unzigzag-interleaved (negsuc n) h = unzigzag-odd n h

halves : (raw : ℕ) → (raw ≡ 2 * (raw / 2)) ⊎ (raw ≡ 2 * (raw / 2) + 1)
halves raw = parity (raw % 2) refl
  where
    parity : (r : ℕ) → r ≡ raw % 2 → (raw ≡ 2 * (raw / 2)) ⊎ (raw ≡ 2 * (raw / 2) + 1)
    parity zero e = inl (omega arith)
    parity (suc zero) e = inr (omega arith)
    parity (suc (suc r)) e = absurd (omega arith)

zigzag-unzigzag : (raw : ℕ) → raw < 2 ^ 64 → zigzag (unzigzag raw) ≡ raw
zigzag-unzigzag raw h = elim (halves raw) [
  | inl even ↦
      ap (λ (k : ℕ). zigzag (unzigzag k)) even
      ∙ ap zigzag (unzigzag-even (raw / 2) (omega arith))
      ∙ zigzag-interleaved (pos (raw / 2)) (omega arith)
      ∙ sym even
  | inr odd ↦
      ap (λ (k : ℕ). zigzag (unzigzag k)) odd
      ∙ ap zigzag (unzigzag-odd (raw / 2) (omega arith))
      ∙ zigzag-interleaved (negsuc (raw / 2)) (omega arith)
      ∙ sym odd
]

-- `zigzag` of an `i64` counts 0, -1, 1, -2, 2 and so on, and `unzigzag` gives the integer back;
-- every `u64` is the zigzag number of the integer that `unzigzag` gives.
pub unzigzag-zigzag :
    (v : ℤ) (raw : ℕ)
    → IsSigned 64 v
    → raw < 2 ^ 64
    → (zigzag v ≡ interleaved v) × (unzigzag (zigzag v) ≡ v) × (zigzag (unzigzag raw) ≡ raw)
unzigzag-zigzag v raw h lt =
    let number = zigzag-interleaved v h in
    (number, ap unzigzag number ∙ unzigzag-interleaved v h, zigzag-unzigzag raw lt)
