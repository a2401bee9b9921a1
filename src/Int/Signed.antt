-- ===== src/Int/Signed.antt =====
-- `I<N>` of crates/layline-core/src/int.rs.
use layline.Prelude.{
  suc, ℕ, ◌+◌, ◌*◌, ◌-◌, ◌/◌, ◌%◌, ◌^◌, ◌≤◌, ◌<◌, ◌≡◌, refl, ap, ◌∙◌, arith, ltb, if◌then◌else◌,
  none, some,
}
use layline.Prelude.{
  Bool-cases, inl, inr, lt→leb, le→leb, ltb→lt, ltb→le, lt→ltb, le→ltb, pow_pos, div-mod,
  two-pow-add, two-pow-suc, div_of_sum, mod_of_sum,
}
use layline.Prelude.Int.{ℤ, pos, negsuc, IsSigned, as_i64, asr, as_u64}
use layline.Prelude.BitOps.{bit_and_mask}
use native.Mathlib.Nat.{mod-eq_of_lt}
use layline.Int.{new_i, int_leb, max_i, min_i, sign_extend, from_raw_i, to_raw_i}
use layline.Int.Unsigned.{IsWidth, mask64-pow}

-- The integer that `w` bits stand for in two's complement.
abbrev pub signed : ℕ → ℕ → ℤ
signed w r = if ltb r (2 ^ (w - 1)) then pos r else negsuc (2 ^ w - 1 - r)

module _ (w : ℕ) (width : IsWidth w) where
  abbrev shift : ℕ
  shift = 64 - w

  pub whole : 2 ^ 64 ≡ 2 ^ w * 2 ^ shift
  whole = let e : w + shift ≡ 64 = omega (arith, width) in rw e at (two-pow-add w shift)

  half : 2 ^ 63 ≡ 2 ^ (w - 1) * 2 ^ shift
  half = let e : w - 1 + shift ≡ 63 = omega (arith, width) in rw e at (two-pow-add (w - 1) shift)

  pub double : 2 ^ w ≡ 2 * 2 ^ (w - 1)
  double = let e : suc (w - 1) ≡ w = omega (arith, width) in rw e at (two-pow-suc (w - 1))

  -- The raw bits moved to the top of a `u64`.
  shifted : (raw : ℕ) → raw * 2 ^ shift % 2 ^ 64 ≡ raw % 2 ^ w * 2 ^ shift
  shifted raw =
      let parts = div-mod raw (2 ^ w) (pow_pos w) in
      let split : raw * 2 ^ shift ≡ raw / 2 ^ w * 2 ^ 64 + raw % 2 ^ w * 2 ^ shift =
        omega
          (arith, ap (λ (k : ℕ). k * 2 ^ shift) parts.0, ap (λ (k : ℕ). raw / 2 ^ w * k) whole) in
      let fits : raw % 2 ^ w * 2 ^ shift < 2 ^ 64 = grind (arith, whole, parts.1, pow_pos shift) in
      ap (λ (k : ℕ). k % 2 ^ 64) split
      ∙ mod_of_sum (2 ^ 64) (raw / 2 ^ w) (raw % 2 ^ w * 2 ^ shift) fits

  sign_extend-signed : (raw : ℕ) → sign_extend raw w ≡ signed w (raw % 2 ^ w)
  unfolding sign_extend
  sign_extend-signed raw =
      let r = raw % 2 ^ w in
      let lt = (div-mod raw (2 ^ w) (pow_pos w)).1 in
      ap (λ (k : ℕ). asr (as_i64 k) shift) (shifted raw) ∙ elim (Bool-cases (ltb r (2 ^ (w - 1)))) [
        | inl low ↦
            let small : r * 2 ^ shift < 2 ^ 63 = below r (ltb→lt _ _ low) in
            rw (low, lt→ltb (r * 2 ^ shift) (2 ^ 63) small)
              (ap pos (
                ap (λ (k : ℕ). k / 2 ^ shift) (plus_zero (r * 2 ^ shift))
                ∙ div_of_sum (2 ^ shift) r 0 (pow_pos shift)))
        | inr high ↦
            let large : 2 ^ 63 ≤ r * 2 ^ shift = above r (ltb→le _ _ high) in
            rw (high, le→ltb (r * 2 ^ shift) (2 ^ 63) large)
              (ap negsuc (
                ap (λ (k : ℕ). k / 2 ^ shift) (complement r lt)
                ∙ div_of_sum (2 ^ shift) (2 ^ w - 1 - r) (2 ^ shift - 1)
                    (omega (arith, pow_pos shift))))
      ]
    where
      plus_zero : (k : ℕ) → k ≡ k + 0
      plus_zero k = omega arith

      below : (r : ℕ) → r < 2 ^ (w - 1) → r * 2 ^ shift < 2 ^ 63
      below r h = grind (arith, half, pow_pos shift)

      above : (r : ℕ) → 2 ^ (w - 1) ≤ r → 2 ^ 63 ≤ r * 2 ^ shift
      above r h = grind (arith, half, pow_pos shift)

      complement :
          (r : ℕ)
          → r < 2 ^ w
          → 2 ^ 64 - 1 - r * 2 ^ shift ≡ (2 ^ w - 1 - r) * 2 ^ shift + (2 ^ shift - 1)
      complement r h =
          let sum : 2 ^ w - 1 - r + 1 + r ≡ 2 ^ w = omega arith in
          omega (arith, whole, pow_pos shift, ap (λ (k : ℕ). k * 2 ^ shift) sum)

  to_raw_i-pos : (n : ℕ) → n < 2 ^ (w - 1) → to_raw_i w (pos n) ≡ n
  unfolding to_raw_i
  to_raw_i-pos n h =
      let small : n < 2 ^ w = omega (arith, double) in
      let fits : n < 2 ^ 64 = grind (arith, whole, pow_pos shift) in
      rw (mod-eq_of_lt fits, mask64-pow w (width.1)) (bit_and_mask w n ∙ mod-eq_of_lt small)

  to_raw_i-negsuc : (n : ℕ) → n < 2 ^ (w - 1) → to_raw_i w (negsuc n) ≡ 2 ^ w - 1 - n
  unfolding to_raw_i
  to_raw_i-negsuc n h =
      let small : n < 2 ^ w = omega (arith, double) in
      let fits : n < 2 ^ 64 = grind (arith, whole, pow_pos shift) in
      let less : 2 ^ shift - 1 + 1 ≡ 2 ^ shift = omega (arith, pow_pos shift) in
      let split : 2 ^ 64 - 1 - n ≡ (2 ^ shift - 1) * 2 ^ w + (2 ^ w - 1 - n) =
        omega (arith, whole, ap (λ (k : ℕ). k * 2 ^ w) less) in
      rw (mod-eq_of_lt fits, mask64-pow w (width.1))
        (bit_and_mask w (2 ^ 64 - 1 - n)
          ∙ ap (λ (k : ℕ). k % 2 ^ w) split
          ∙ mod_of_sum (2 ^ w) (2 ^ shift - 1) (2 ^ w - 1 - n) (omega (arith, pow_pos w)))

  to_raw_i-signed : (r : ℕ) → r < 2 ^ w → to_raw_i w (signed w r) ≡ r
  to_raw_i-signed r h = elim (Bool-cases (ltb r (2 ^ (w - 1)))) [
    | inl low ↦ rw low (to_raw_i-pos r (ltb→lt _ _ low))
    | inr high ↦
        rw high
          (to_raw_i-negsuc (2 ^ w - 1 - r) (omega (arith, double, ltb→le _ _ high)) ∙ omega arith)
  ]

  pub signed-to_raw_i : (v : ℤ) → IsSigned w v → signed w (to_raw_i w v % 2 ^ w) ≡ v
  signed-to_raw_i (pos n) h =
      let small : n < 2 ^ w = omega (arith, double) in
      ap (λ (k : ℕ). signed w (k % 2 ^ w)) (to_raw_i-pos n h)
      ∙ ap (signed w) (mod-eq_of_lt small)
      ∙ rw (lt→ltb n (2 ^ (w - 1)) h) refl
  signed-to_raw_i (negsuc n) h =
      let small : 2 ^ w - 1 - n < 2 ^ w = omega (arith, pow_pos w) in
      let back : 2 ^ w - 1 - (2 ^ w - 1 - n) ≡ n = omega (arith, double) in
      ap (λ (k : ℕ). signed w (k % 2 ^ w)) (to_raw_i-negsuc n h)
      ∙ ap (signed w) (mod-eq_of_lt small)
      ∙ rw (le→ltb (2 ^ w - 1 - n) (2 ^ (w - 1)) (omega (arith, double))) (ap negsuc back)

  limit : (2 ^ 63 - 1) / 2 ^ shift ≡ 2 ^ (w - 1) - 1
  limit =
      let less : 2 ^ (w - 1) - 1 + 1 ≡ 2 ^ (w - 1) = omega (arith, pow_pos (w - 1)) in
      let split : 2 ^ 63 - 1 ≡ (2 ^ (w - 1) - 1) * 2 ^ shift + (2 ^ shift - 1) =
        omega (arith, half, pow_pos shift, ap (λ (k : ℕ). k * 2 ^ shift) less) in
      ap (λ (k : ℕ). k / 2 ^ shift) split
      ∙ div_of_sum (2 ^ shift) (2 ^ (w - 1) - 1) (2 ^ shift - 1) (omega (arith, pow_pos shift))

-- `n` of `n` and of `-(n + 1)`, which `w` bits hold exactly when it is below `2 ^ (w - 1)`.
abbrev pub magnitude : ℤ → ℕ
magnitude (pos n) = n
magnitude (negsuc n) = n

new_i-magnitude :
    (w : ℕ) (v : ℤ)
    → IsWidth w
    → new_i w v ≡ (if ltb (magnitude v) (2 ^ (w - 1)) then some v else none)
unfolding new_i int_leb max_i min_i
new_i-magnitude w (pos n) width = elim (Bool-cases (ltb n (2 ^ (w - 1)))) [
  | inl fits ↦
      rw (limit w width, fits, le→leb n (2 ^ (w - 1) - 1) (omega (arith, ltb→lt _ _ fits))) refl
  | inr over ↦
      rw
        (
          limit w width,
          over,
          lt→leb n (2 ^ (w - 1) - 1) (omega (arith, ltb→le _ _ over, pow_pos (w - 1))),
        )
        refl
]
new_i-magnitude w (negsuc n) width = elim (Bool-cases (ltb n (2 ^ (w - 1)))) [
  | inl fits ↦
      rw (limit w width, fits, le→leb n (2 ^ (w - 1) - 1) (omega (arith, ltb→lt _ _ fits))) refl
  | inr over ↦
      rw
        (
          limit w width,
          over,
          lt→leb n (2 ^ (w - 1) - 1) (omega (arith, ltb→le _ _ over, pow_pos (w - 1))),
        )
        refl
]

from_raw_i-to_raw_i : (w : ℕ) (v : ℤ) → IsWidth w → IsSigned w v → from_raw_i w (to_raw_i w v) ≡ v
unfolding from_raw_i
from_raw_i-to_raw_i w v width h =
    sign_extend-signed w width (to_raw_i w v) ∙ signed-to_raw_i w width v h

-- For a width of 1 to 64 bits `I::new` takes the integers that two's complement of that width holds
-- and no other, `from_raw` reads the low bits of any raw value so, and `to_raw` gives those bits back;
-- an integer that the width holds is what its raw value reads as.
pub new_i-from_raw_i :
    (w raw : ℕ) (v held : ℤ)
    → IsWidth w
    → IsSigned w held
    → (new_i w v ≡ (if ltb (magnitude v) (2 ^ (w - 1)) then some v else none))
      × (from_raw_i w raw ≡ signed w (raw % 2 ^ w))
      × (to_raw_i w (from_raw_i w raw) ≡ raw % 2 ^ w)
      × (from_raw_i w (to_raw_i w held) ≡ held)
unfolding from_raw_i
new_i-from_raw_i w raw v held width h =
    let extended = sign_extend-signed w width raw in
    (
      new_i-magnitude w v width,
      extended,
      ap (to_raw_i w) extended
          ∙ to_raw_i-signed w width (raw % 2 ^ w) (div-mod raw (2 ^ w) (pow_pos w)).1,
      from_raw_i-to_raw_i w held width h,
    )

pub to_raw_i-low : (w : ℕ) (v : ℤ) → IsWidth w → to_raw_i w v ≡ as_u64 v % 2 ^ w
unfolding to_raw_i
to_raw_i-low w v width = rw (mask64-pow w (width.1)) (bit_and_mask w (as_u64 v))

-- Every raw value stands for an integer of the width.
pub signed-IsSigned : (w r : ℕ) → IsWidth w → r < 2 ^ w → IsSigned w (signed w r)
signed-IsSigned w r width lt = elim (Bool-cases (ltb r (2 ^ (w - 1)))) [
  | inl low ↦ rw low (ltb→lt _ _ low)
  | inr high ↦ rw high (omega (arith, double w width, ltb→le _ _ high, pow_pos w))
]
