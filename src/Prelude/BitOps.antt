-- ===== src/Prelude/BitOps.antt =====
-- `&`, `|` and `^` on fields of any width, as arithmetic.
pub mod Step
pub mod Xor
use Prim.Native.Nat.{ℕ, zero, suc, ◌+◌, ◌-◌, ◌*◌, ◌/◌, ◌%◌, ◌^◌, ◌≤◌, ◌<◌, min, max, differ}
use Prim.Native.Nat.{bit_and, bit_or, bit_xor, bit_and-bitwise, bit_or-bitwise, bit_xor-bitwise}
use mathlib.Core.Path.{◌≡◌, refl, ap, ◌∙◌, sym}
use native.Mathlib.Omega.{arith}
use layline.Prelude.Pow.{pow_pos, two-pow-suc, two-pow-add, two-pow-le, div-mod, mod_mod_pow}
use native.Mathlib.Nat.{mod-eq_of_lt, div-lt_iff_lt-mul}
use Step.{IsBitwise, bit_and-IsBitwise, bit_or-IsBitwise, bit_xor-IsBitwise, differ-one}

twice_pow : (k q : ℕ) → 2 * (q * 2 ^ k) ≡ q * 2 ^ suc k
twice_pow k q = omega (arith, ap (λ (power : ℕ). q * power) (two-pow-suc k))

-- What holds of every operation that works digit by digit.
module _ (op f : ℕ → ℕ → ℕ) (law : IsBitwise op f) where
  open law use {step, nought, small, flip}

  -- The operation works on the high and the low fields apart.
  op_split :
      (k q q' r r' : ℕ)
      → r < 2 ^ k
      → r' < 2 ^ k
      → op (q * 2 ^ k + r) (q' * 2 ^ k + r') ≡ op q q' * 2 ^ k + op r r'
  op_split zero q q' r r' hr hr' =
      let e : r ≡ 0 = omega arith in
      let e' : r' ≡ 0 = omega arith in
      let s : q * 1 + 0 ≡ q = omega arith in
      let s' : q' * 1 + 0 ≡ q' = omega arith in rw (e, e', s, s') (omega (arith, nought))
  op_split (suc k) q q' r r' hr hr' =
      let a = q * 2 ^ suc k + r in
      let b = q' * 2 ^ suc k + r' in
      let ha : a / 2 ≡ q * 2 ^ k + r / 2 = omega (arith, twice_pow k q) in
      let hb : b / 2 ≡ q' * 2 ^ k + r' / 2 = omega (arith, twice_pow k q') in
      let la : a % 2 ≡ r % 2 = omega (arith, twice_pow k q) in
      let lb : b % 2 ≡ r' % 2 = omega (arith, twice_pow k q') in
      let ih =
        op_split k q q' (r / 2) (r' / 2) (omega (arith, two-pow-suc k))
          (omega (arith, two-pow-suc k)) in
      step a b ∙ rw (ha, hb, la, lb, ih) (omega (arith, step r r', twice_pow k (op q q')))

  op-lt : (k a b : ℕ) → a < 2 ^ k → b < 2 ^ k → op a b < 2 ^ k
  op-lt zero a b ha hb =
      let e : a ≡ 0 = omega arith in
      let e' : b ≡ 0 = omega arith in rw (e, e', nought) (omega arith)
  op-lt (suc k) a b ha hb = omega (
    arith,
    step a b,
    small (a % 2) (b % 2) (omega arith) (omega arith),
    two-pow-suc k,
    op-lt k (a / 2) (b / 2) (omega (arith, two-pow-suc k)) (omega (arith, two-pow-suc k)),
  )

  op_comm_fuel : (n a b : ℕ) → a + b ≤ n → op a b ≡ op b a
  op_comm_fuel zero a b h =
      let e : a ≡ 0 = omega arith in let e' : b ≡ 0 = omega arith in rw (e, e')
  op_comm_fuel (suc n) zero zero h = refl
  op_comm_fuel (suc n) (suc a) b h = omega (
    arith,
    step (suc a) b,
    step b (suc a),
    flip (suc a % 2) (b % 2) (omega arith) (omega arith),
    op_comm_fuel n (suc a / 2) (b / 2) (omega arith),
  )
  op_comm_fuel (suc n) zero (suc b) h = omega (
    arith,
    step 0 (suc b),
    step (suc b) 0,
    flip 0 (suc b % 2) (omega arith) (omega arith),
    op_comm_fuel n 0 (suc b / 2) (omega arith),
  )

pub bit_or_comm : (a b : ℕ) → bit_or a b ≡ bit_or b a
bit_or_comm a b = op_comm_fuel bit_or max bit_or-IsBitwise (a + b) a b (omega arith)

pub bit_and_comm : (a b : ℕ) → bit_and a b ≡ bit_and b a
bit_and_comm a b = op_comm_fuel bit_and min bit_and-IsBitwise (a + b) a b (omega arith)

pub bit_xor-lt : (k a b : ℕ) → a < 2 ^ k → b < 2 ^ k → bit_xor a b < 2 ^ k
bit_xor-lt = op-lt bit_xor differ bit_xor-IsBitwise

pub bit_and_split :
    (k q q' r r' : ℕ)
    → r < 2 ^ k
    → r' < 2 ^ k
    → bit_and (q * 2 ^ k + r) (q' * 2 ^ k + r') ≡ bit_and q q' * 2 ^ k + bit_and r r'
bit_and_split = op_split bit_and min bit_and-IsBitwise

pub zero-bit_or : (a : ℕ) → bit_or 0 a ≡ a
zero-bit_or a = bit_or-bitwise 0 a

pub bit_or-zero : (a : ℕ) → bit_or a 0 ≡ a
bit_or-zero a = bit_or_comm a 0 ∙ zero-bit_or a

pub zero-bit_and : (a : ℕ) → bit_and 0 a ≡ 0
zero-bit_and a = bit_and-bitwise 0 a

pub bit_and-zero : (a : ℕ) → bit_and a 0 ≡ 0
bit_and-zero a = bit_and_comm a 0 ∙ zero-bit_and a

-- `(q << k) | r` is a sum when `r` fits `k` bits, on either side.
pub bit_or_fields : (k q r : ℕ) → r < 2 ^ k → bit_or (q * 2 ^ k) r ≡ q * 2 ^ k + r
bit_or_fields k q r fits =
    let e : q * 2 ^ k ≡ q * 2 ^ k + 0 = omega arith in
    let e' : r ≡ 0 * 2 ^ k + r = omega arith in
    ap₂ e e'
    ∙ op_split bit_or max bit_or-IsBitwise k q 0 0 r (pow_pos k) fits
    ∙ omega (arith, bit_or-zero q, ap (λ (t : ℕ). t * 2 ^ k) (bit_or-zero q), zero-bit_or r)
  where
    ap₂ : {a a' b b' : ℕ} → a ≡ a' → b ≡ b' → bit_or a b ≡ bit_or a' b'
    ap₂ p q = λ i. bit_or (p i) (q i)

pub bit_or_fields_low : (k q r : ℕ) → r < 2 ^ k → bit_or r (q * 2 ^ k) ≡ r + q * 2 ^ k
bit_or_fields_low k q r fits = omega (arith, bit_or_comm r (q * 2 ^ k), bit_or_fields k q r fits)

-- A mask of `k` low bits is the remainder by `2 ^ k`.
bit_and_ones : (k q r : ℕ) → r < 2 ^ k → bit_and (q * 2 ^ k + r) (2 ^ k - 1) ≡ r
bit_and_ones zero q r fits = rw bit_and-zero (omega arith)
bit_and_ones (suc k) q r fits = omega (
  arith,
  bit_and-IsBitwise.step (q * 2 ^ suc k + r) (2 ^ suc k - 1),
  halve,
  ap₂ (q * 2 ^ k + r / 2) (2 ^ k - 1) half_of ones,
  bit_and_ones k q (r / 2) (omega (arith, two-pow-suc k)),
)
  where
    ap₂ : {a b : ℕ} (a' b' : ℕ) → a ≡ a' → b ≡ b' → bit_and a b ≡ bit_and a' b'
    ap₂ a' b' p p' = λ i. bit_and (p i) (p' i)

    halve : ((q * 2 ^ suc k + r) % 2 ≡ r % 2) × ((2 ^ suc k - 1) % 2 ≡ 1)
    halve = omega (arith, twice_pow k q, two-pow-suc k, pow_pos k)

    half_of : (q * 2 ^ suc k + r) / 2 ≡ q * 2 ^ k + r / 2
    half_of = omega (arith, twice_pow k q)

    ones : (2 ^ suc k - 1) / 2 ≡ 2 ^ k - 1
    ones = omega (arith, two-pow-suc k, pow_pos k)

pub bit_and_mask : (k a : ℕ) → bit_and a (2 ^ k - 1) ≡ a % 2 ^ k
bit_and_mask k a =
    let parts = div-mod a (2 ^ k) (pow_pos k) in
    rw parts.0 at (bit_and_ones k (a / 2 ^ k) (a % 2 ^ k) parts.1)

-- One bit, tested in place.
pub bit_and_flag : (k a : ℕ) → bit_and a (2 ^ k) ≡ a / 2 ^ k % 2 * 2 ^ k
bit_and_flag k a =
    let parts = div-mod a (2 ^ k) (pow_pos k) in
    let here = bit_and_split k (a / 2 ^ k) 1 (a % 2 ^ k) 0 parts.1 (pow_pos k) in
    let one_bit = bit_and_mask 1 (a / 2 ^ k) in
    let e : 1 * 2 ^ k + 0 ≡ 2 ^ k = omega arith in
    rw (parts.0, e, bit_and-zero, one_bit) at here ∙ omega arith

pub bit_and_one : (a : ℕ) → bit_and a 1 ≡ a % 2
bit_and_one a = bit_and_mask 1 a

-- `a & !(mask << s)` for a mask of `w` bits: the field is cleared, what stands round it stays.
pub bit_and_hole :
    (h s w a : ℕ)
    → a < 2 ^ (h + (s + w))
    → bit_and a ((2 ^ h - 1) * 2 ^ (s + w) + (2 ^ s - 1))
      ≡ a / 2 ^ (s + w) * 2 ^ (s + w) + a % 2 ^ s
bit_and_hole h s w a fits =
    let n = 2 ^ (s + w) in
    let parts = div-mod a n (pow_pos (s + w)) in
    let low : 2 ^ s - 1 < n = omega (arith, two-pow-le s (s + w) (omega arith), pow_pos s) in
    let here = bit_and_split (s + w) (a / n) (2 ^ h - 1) (a % n) (2 ^ s - 1) parts.1 low in
    rw (parts.0, bit_and_mask h (a / n), bit_and_mask s (a % n)) at here
    ∙ ap₂ (mod-eq_of_lt (div-lt_of_lt-mul fits)) (mod_mod_pow a s w)
  where
    ap₂ : {x x' y y' : ℕ} → x ≡ x' → y ≡ y' → x * 2 ^ (s + w) + y ≡ x' * 2 ^ (s + w) + y'
    ap₂ p q = λ i. p i * 2 ^ (s + w) + q i

    div-lt_of_lt-mul : a < 2 ^ (h + (s + w)) → a / 2 ^ (s + w) < 2 ^ h
    div-lt_of_lt-mul lt = div-lt (rw (← two-pow-add h (s + w)) lt)
      where
        div-lt : a < 2 ^ h * 2 ^ (s + w) → a / 2 ^ (s + w) < 2 ^ h
        div-lt l = (div-lt_iff_lt-mul (pow_pos (s + w))).1 l

-- `a ^ 0b1…1` is the complement.
pub bit_xor_ones : (k a : ℕ) → a < 2 ^ k → bit_xor a (2 ^ k - 1) ≡ 2 ^ k - 1 - a
bit_xor_ones zero a h = let e : a ≡ 0 = omega arith in rw (e, bit_xor-IsBitwise.nought)
bit_xor_ones (suc k) a h = omega (
  arith,
  bit_xor-IsBitwise.step a (2 ^ suc k - 1),
  two-pow-suc k,
  pow_pos k,
  digit,
  ap (bit_xor (a / 2)) ones,
  bit_xor_ones k (a / 2) (omega (arith, two-pow-suc k)),
)
  where
    ones : (2 ^ suc k - 1) / 2 ≡ 2 ^ k - 1
    ones = omega (arith, two-pow-suc k, pow_pos k)

    odd : (2 ^ suc k - 1) % 2 ≡ 1
    odd = omega (arith, two-pow-suc k, pow_pos k)

    digit : differ (a % 2) ((2 ^ suc k - 1) % 2) ≡ 1 - a % 2
    digit = rw odd (differ-one (a % 2) (omega arith))

-- A field put into a hole: `w` bits at bit `s`.
pub bit_or_hole :
    (s w q x r : ℕ)
    → x < 2 ^ w
    → r < 2 ^ s
    → bit_or (q * 2 ^ (s + w) + r) (x * 2 ^ s) ≡ (q * 2 ^ w + x) * 2 ^ s + r
bit_or_hole s w q x r hx hr =
    let wide = two-pow-add s w in
    let left : q * 2 ^ (s + w) + r ≡ q * 2 ^ w * 2 ^ s + r =
      omega (arith, ap (λ (t : ℕ). q * t) wide) in
    let right : x * 2 ^ s ≡ x * 2 ^ s + 0 = omega arith in
    ap₂ left right
    ∙ op_split bit_or max bit_or-IsBitwise s (q * 2 ^ w) x r 0 hr (pow_pos s)
    ∙ (λ i. bit_or_fields w q x hx i * 2 ^ s + bit_or-zero r i)
  where
    ap₂ : {a a' b b' : ℕ} → a ≡ a' → b ≡ b' → bit_or a b ≡ bit_or a' b'
    ap₂ p q = λ i. bit_or (p i) (q i)

pub bit_xor-zero : (a : ℕ) → bit_xor a 0 ≡ a
bit_xor-zero a =
    op_comm_fuel bit_xor differ bit_xor-IsBitwise (a + 0) a 0 (omega arith) ∙ bit_xor-bitwise 0 a
