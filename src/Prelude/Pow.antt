-- ===== src/Prelude/Pow.antt =====
-- Powers of two, halving by a power, and the saturating sum.
use Prim.Native.Nat.{ℕ, zero, suc, ◌+◌, ◌-◌, ◌*◌, ◌/◌, ◌%◌, ◌^◌, ◌≤◌, ◌<◌, min}
use mathlib.Core.Path.{◌≡◌, ap, ◌∙◌, sym}
use native.Mathlib.Omega.{arith}
use native.Mathlib.Nat.{pow-suc, one-le-pow, add-zero, mod-lt, div-add-mod'}
use native.Mathlib.Nat.{add-mul-div_right, div-eq_of_lt, div-div-eq-div-mul}

abbrev pub u64_max : ℕ
u64_max = 2 ^ 64 - 1

-- `a.saturating_add(b)` on `u64`.
abbrev pub saturating_add : ℕ → ℕ → ℕ
saturating_add a b = min (a + b) u64_max

pub pow_pos : (k : ℕ) → 1 ≤ 2 ^ k
pow_pos k = one-le-pow k 2 (omega arith)

pub two-pow-suc : (k : ℕ) → 2 ^ suc k ≡ 2 * 2 ^ k
two-pow-suc k = omega (arith, pow-suc 2 k)

pub two-pow-add : (a b : ℕ) → 2 ^ (a + b) ≡ 2 ^ a * 2 ^ b
two-pow-add a zero = rw add-zero (omega arith)
two-pow-add a (suc b) =
    let shift : a + suc b ≡ suc (a + b) = omega arith in
    rw shift (
      omega
        (arith, two-pow-suc (a + b), two-pow-add a b, ap (λ (t : ℕ). 2 ^ a * t) (two-pow-suc b)))

-- A narrower power divides a wider one.
pub two-pow-split : (k n : ℕ) → k ≤ n → 2 ^ n ≡ 2 ^ (n - k) * 2 ^ k
two-pow-split k n h = let e : n - k + k ≡ n = omega arith in rw e at (two-pow-add (n - k) k)

pub two-pow-le : (k n : ℕ) → k ≤ n → 2 ^ k ≤ 2 ^ n
two-pow-le k n h = grind (arith, two-pow-split k n h, pow_pos (n - k))

pub div-mod : (a n : ℕ) → 0 < n → (a / n * n + a % n ≡ a) × (a % n < n)
div-mod a n h = (div-add-mod' a n, mod-lt a h)

-- A quotient and a remainder are determined by their sum.
pub div_of_sum : (n q r : ℕ) → r < n → (q * n + r) / n ≡ q
div_of_sum n q r h =
    let e : q * n + r ≡ r + q * n = omega arith in
    rw e (add-mul-div_right r q {z = n} (omega arith) ∙ rw (div-eq_of_lt h) (omega arith))

pub mod_of_sum : (n q r : ℕ) → r < n → (q * n + r) % n ≡ r
mod_of_sum n q r h =
    omega (arith, div-mod (q * n + r) n (omega arith), ap (λ (t : ℕ). t * n) (div_of_sum n q r h))

-- Two divisions are one by the product; a remainder by a wider power keeps the narrower one.
pub div_div_pow : (a s w : ℕ) → a / 2 ^ s / 2 ^ w ≡ a / 2 ^ (s + w)
div_div_pow a s w = rw two-pow-add (div-div-eq-div-mul a (2 ^ s) (2 ^ w))

pub mod_mod_pow : (a s w : ℕ) → a % 2 ^ (s + w) % 2 ^ s ≡ a % 2 ^ s
mod_mod_pow a s w =
    let n = 2 ^ s in
    let big = div-mod a (2 ^ (s + w)) (pow_pos (s + w)) in
    let small = div-mod (a % 2 ^ (s + w)) n (pow_pos s) in
    let q = a / 2 ^ (s + w) * 2 ^ w + a % 2 ^ (s + w) / n in
    let r = a % 2 ^ (s + w) % n in
    let whole : q * n + r ≡ a =
      omega (arith, big, small, ap (λ (t : ℕ). a / 2 ^ (s + w) * t) (two-pow-add s w)) in
    sym (rw whole at (mod_of_sum n q r small.1))

-- The low `s + w` bits of a number are its low `s` bits and the `w` above them.
pub mod_pow_split : (a s w : ℕ) → a % 2 ^ (s + w) ≡ a / 2 ^ s % 2 ^ w * 2 ^ s + a % 2 ^ s
mod_pow_split a s w =
    let n = 2 ^ s in
    let low = div-mod a n (pow_pos s) in
    let high = div-mod (a / n) (2 ^ w) (pow_pos w) in
    let r = a / n % 2 ^ w * n + a % n in
    let fits : r < 2 ^ (s + w) = rw two-pow-add (grind (arith, low, high)) in
    let whole : a / n / 2 ^ w * 2 ^ (s + w) + r ≡ a =
      rw two-pow-add (omega (arith, low, ap (λ (t : ℕ). t * n) high.0)) in
    rw whole at (mod_of_sum (2 ^ (s + w)) (a / n / 2 ^ w) r fits)

-- A field of a field.
pub mod_div_pow : (a s w : ℕ) → a % 2 ^ (s + w) / 2 ^ s ≡ a / 2 ^ s % 2 ^ w
mod_div_pow a s w =
    rw mod_pow_split
      (div_of_sum (2 ^ s) (a / 2 ^ s % 2 ^ w) (a % 2 ^ s) (div-mod a (2 ^ s) (pow_pos s)).1)

-- `t` bits at bit `u` of the low `n` bits.
pub low_field : (a n u t : ℕ) → u + t ≤ n → a % 2 ^ n / 2 ^ u % 2 ^ t ≡ a / 2 ^ u % 2 ^ t
low_field a n u t fits =
    let e : u + (t + (n - (u + t))) ≡ n = omega arith in
    rw e at (ap (λ (x : ℕ). x % 2 ^ t) (mod_div_pow a u (t + (n - (u + t)))))
    ∙ mod_mod_pow (a / 2 ^ u) t (n - (u + t))

-- `t` bits at bit `u` of an `n`-bit field at bit `m`.
pub sub_field :
    (a m n u t : ℕ) → u + t ≤ n → a / 2 ^ m % 2 ^ n / 2 ^ u % 2 ^ t ≡ a / 2 ^ (m + u) % 2 ^ t
sub_field a m n u t fits =
    low_field (a / 2 ^ m) n u t fits ∙ ap (λ (x : ℕ). x % 2 ^ t) (div_div_pow a m u)

-- The low `k` bits shifted out, and `j` more.
pub shift_down : (k j q r : ℕ) → r < 2 ^ k → (q * 2 ^ k + r) / 2 ^ (k + j) ≡ q / 2 ^ j
shift_down k j q r h =
    sym (div_div_pow (q * 2 ^ k + r) k j) ∙ ap (λ (x : ℕ). x / 2 ^ j) (div_of_sum (2 ^ k) q r h)
