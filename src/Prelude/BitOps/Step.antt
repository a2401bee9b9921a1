-- ===== src/Prelude/BitOps/Step.antt =====
-- The native operations mean a recursion on binary digits with fuel. Here the fuel is dropped: one
-- equation for the lowest digit of each, from which the laws are proved at every width.
use Prim.Native.Nat.{
  ℕ, zero, suc, ◌+◌, ◌-◌, ◌*◌, ◌/◌, ◌%◌, ◌≤◌, ◌<◌, min, max, differ, digits, bitwise,
}
use Prim.Native.Nat.{bit_and, bit_or, bit_xor, bit_and-bitwise, bit_or-bitwise, bit_xor-bitwise}
use mathlib.Core.Path.{◌≡◌, refl, ap}
use mathlib.Core.Logic.{◌⊎◌, inl, inr}
use native.Mathlib.Omega.{arith}

-- A count of digits that is large enough may be larger. `rest` is what the operation makes of the
-- second number once the first has run out, and `digit` its work on two digits.
spare_digits :
    (rest : ℕ → ℕ) (digit : ℕ → ℕ → ℕ) (a spare count b : ℕ)
    → a ≤ count
    → digits rest digit (spare + count) a b ≡ digits rest digit count a b
spare_digits rest digit a spare count b fits = more count a b fits (spare + count) (omega arith)
  where
    more :
        (few x y : ℕ)
        → x ≤ few
        → (many : ℕ) → few ≤ many
        → digits rest digit many x y ≡ digits rest digit few x y
    more few zero y below zero le = let none_left : few ≡ 0 = omega arith in rw none_left
    more zero zero y below (suc many) le = refl
    more (suc few) zero y below (suc many) le = refl
    more zero (suc x) y below many le = absurd (omega arith)
    more (suc few) (suc x) y below zero le = absurd (omega arith)
    more (suc few) (suc x) y below (suc many) le =
        ap (λ (high : ℕ). high * 2 + digit (suc x % 2) (y % 2))
          (more few (suc x / 2) (y / 2) (omega arith) many (omega arith))

-- One digit of the recursion, for a first number that has one.
peel_digit :
    (rest : ℕ → ℕ) (digit : ℕ → ℕ → ℕ) (a b : ℕ)
    → bitwise rest digit (suc a) b
      ≡ bitwise rest digit (suc a / 2) (b / 2) * 2 + digit (suc a % 2) (b % 2)
peel_digit rest digit a b =
    let high = suc a / 2 in
    let whole : a - high + high ≡ a = omega arith in
    ap (λ (h : ℕ). h * 2 + digit (suc a % 2) (b % 2))
      (rw whole at (spare_digits rest digit high (a - high) high (b / 2) (omega arith)))

-- The lowest digit of an operation's value, and the rest of its value.
abbrev pub PeelsDigits : (ℕ → ℕ → ℕ) → (ℕ → ℕ → ℕ) → Type 0
PeelsDigits op f = (a b : ℕ) → op a b ≡ op (a / 2) (b / 2) * 2 + f (a % 2) (b % 2)

-- An operation on numbers that works digit by digit by `f`, and `f` on digits.
pub record IsBitwise (op f : ℕ → ℕ → ℕ) : Type 0 where
  pub step : PeelsDigits op f
  pub nought : op 0 0 ≡ 0
  pub small : (a b : ℕ) → a < 2 → b < 2 → f a b < 2
  pub flip : (a b : ℕ) → a < 2 → b < 2 → f a b ≡ f b a

and_digits : PeelsDigits bit_and min
and_digits zero n = simp bit_and-bitwise (omega arith)
and_digits (suc m) n = simp bit_and-bitwise (peel_digit (λ y. 0) min m n)

or_digits : PeelsDigits bit_or max
or_digits zero n = simp bit_or-bitwise (omega arith)
or_digits (suc m) n = simp bit_or-bitwise (peel_digit (λ y. y) max m n)

pub digit-cases : (a : ℕ) → a < 2 → (a ≡ 0) ⊎ (a ≡ 1)
digit-cases zero h = inl refl
digit-cases (suc zero) h = inr refl
digit-cases (suc (suc a)) h = absurd (omega arith)

pub differ-small : (a b : ℕ) → a < 2 → b < 2 → differ a b < 2
differ-small a b ha hb = ground (arith, digit-cases a ha, digit-cases b hb)

differ_comm : (a b : ℕ) → a < 2 → b < 2 → differ a b ≡ differ b a
differ_comm a b ha hb = ground (arith, digit-cases a ha, digit-cases b hb)

pub differ-one : (a : ℕ) → a < 2 → differ a 1 ≡ 1 - a
differ-one a ha = ground (arith, digit-cases a ha)

zero-differ : (b : ℕ) → b < 2 → differ 0 b ≡ b
zero-differ b hb = ground (arith, digit-cases b hb)

xor_digits : PeelsDigits bit_xor differ
xor_digits zero n = simp bit_xor-bitwise (omega (arith, zero-differ (n % 2) (omega arith)))
xor_digits (suc m) n = simp bit_xor-bitwise (peel_digit (λ y. y) differ m n)

pub bit_and-IsBitwise : IsBitwise bit_and min
bit_and-IsBitwise = record {
  step = and_digits;
  nought = refl;
  small = λ a b p q. omega arith;
  flip = λ a b p q. omega arith;
}

pub bit_or-IsBitwise : IsBitwise bit_or max
bit_or-IsBitwise = record {
  step = or_digits;
  nought = refl;
  small = λ a b p q. omega arith;
  flip = λ a b p q. omega arith;
}

pub bit_xor-IsBitwise : IsBitwise bit_xor differ
bit_xor-IsBitwise = record {
  step = xor_digits;
  nought = refl;
  small = differ-small;
  flip = differ_comm;
}
