-- ===== src/Prelude/BitOps/Xor.antt =====
-- `^` on the halves, on shifts and on the high and the low bits of numbers.
use Prim.Native.Nat.{ℕ, zero, suc, ◌+◌, ◌*◌, ◌/◌, ◌%◌, ◌^◌, ◌≤◌, ◌<◌, differ, bit_xor}
use mathlib.Core.Path.{◌≡◌, refl, ◌∙◌, sym}
use mathlib.Core.Logic.{◌⊎◌, inl, inr}
use native.Mathlib.Omega.{arith}
use layline.Prelude.Tests.{◌==◌}
use layline.Prelude.BitOps.{op_split}
use layline.Prelude.BitOps.Step.{bit_xor-IsBitwise, digit-cases, differ-small}

pub bit_xor-digits : (a b : ℕ) → bit_xor a b ≡ bit_xor (a / 2) (b / 2) * 2 + differ (a % 2) (b % 2)
bit_xor-digits = bit_xor-IsBitwise.step

pub bit_xor_half : (a b : ℕ) → bit_xor a b / 2 ≡ bit_xor (a / 2) (b / 2)
bit_xor_half a b =
    omega (arith, bit_xor-digits a b, differ-small (a % 2) (b % 2) (omega arith) (omega arith))

pub bit_xor_low : (a b : ℕ) → bit_xor a b % 2 ≡ differ (a % 2) (b % 2)
bit_xor_low a b =
    omega (arith, bit_xor-digits a b, differ-small (a % 2) (b % 2) (omega arith) (omega arith))

pub bit_xor_split :
    (k q q' r r' : ℕ)
    → r < 2 ^ k
    → r' < 2 ^ k
    → bit_xor (q * 2 ^ k + r) (q' * 2 ^ k + r') ≡ bit_xor q q' * 2 ^ k + bit_xor r r'
bit_xor_split = op_split bit_xor differ bit_xor-IsBitwise

pub bit_xor_double : (a b : ℕ) → bit_xor (a * 2) (b * 2) ≡ bit_xor a b * 2
bit_xor_double a b =
    let ha : a * 2 / 2 ≡ a = omega arith in
    let hb : b * 2 / 2 ≡ b = omega arith in
    let la : a * 2 % 2 ≡ 0 = omega arith in
    let lb : b * 2 % 2 ≡ 0 = omega arith in
    bit_xor-digits (a * 2) (b * 2) ∙ rw (ha, hb, la, lb) (omega arith)

pub differ_zero : (a b : ℕ) → a < 2 → b < 2 → (differ a b == 0) ≡ (a == b)
differ_zero a b ha hb = ground (arith, digit-cases a ha, digit-cases b hb)

differ_swap : (a b c : ℕ) → a < 2 → b < 2 → c < 2 → differ (differ a b) c ≡ differ (differ a c) b
differ_swap a b c ha hb hc = ground (arith, digit-cases a ha, digit-cases b hb, digit-cases c hc)

swap_fuel : (n a b c : ℕ) → a + b + c ≤ n → bit_xor (bit_xor a b) c ≡ bit_xor (bit_xor a c) b
swap_fuel zero a b c h =
    let ea : a ≡ 0 = omega arith in
    let eb : b ≡ 0 = omega arith in let ec : c ≡ 0 = omega arith in rw (ea, eb, ec) refl
swap_fuel (suc n) a b c h = elim (none_left a b c) [
  | inl (ea, eb, ec) ↦ rw (ea, eb, ec) refl
  | inr some_left ↦
      let high = swap_fuel n (a / 2) (b / 2) (c / 2) (omega (arith, some_left)) in
      let low = differ_swap (a % 2) (b % 2) (c % 2) (omega arith) (omega arith) (omega arith) in
      let digits_of = λ (x y z : ℕ).
        (bit_xor-digits (bit_xor x y) z
          ∙ (λ i. bit_xor (bit_xor_half x y i) (z / 2) * 2 + differ (bit_xor_low x y i) (z % 2))) in
      digits_of a b c ∙ (λ i. high i * 2 + low i) ∙ sym (digits_of a c b)
]
  where
    none_left : (a b c : ℕ) → ((a ≡ 0) × (b ≡ 0) × (c ≡ 0)) ⊎ (1 ≤ a + b + c)
    none_left zero zero zero = inl (refl, refl, refl)
    none_left zero zero (suc c) = inr (omega arith)
    none_left zero (suc b) c = inr (omega arith)
    none_left (suc a) b c = inr (omega arith)

pub bit_xor_swap : (a b c : ℕ) → bit_xor (bit_xor a b) c ≡ bit_xor (bit_xor a c) b
bit_xor_swap a b c = swap_fuel (a + b + c) a b c (omega arith)
