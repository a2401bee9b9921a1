-- ===== src/Checksum/Serial.antt =====
-- `Crc` of crates/layline-core/src/checksum.rs as a shift register that takes one bit at a time.
use layline.Prelude.{
  ℕ, zero, suc, ◌+◌, ◌*◌, ◌-◌, ◌/◌, ◌%◌, ◌^◌, ◌≤◌, ◌<◌, List, [], ◌∷◌, ◌++◌, Bool, true, false,
  ◌==◌, ◌≡◌, refl, ap, sym, ◌∙◌,
}
use Prim.Native.Nat.{differ}
use layline.Prelude.{
  not, if◌then◌else◌, bit_and, bit_xor, All, arith, div-mod, pow_pos, mod_pow_split, two-pow-add,
  two-pow-suc, mod_of_sum, div_of_sum,
}
use layline.Prelude.BitOps.{bit_and_one, bit_and_flag, bit_xor-zero, bit_xor-lt}
use layline.Prelude.BitOps.Xor.{
  bit_xor_half, bit_xor_low, bit_xor_split, bit_xor_double, bit_xor_swap, differ_zero,
}
use native.Mathlib.Nat.{mod-eq_of_lt}
use layline.Bits.Number.{IsByte}
use layline.Checksum.{Crc, crc_bit, crc_bits, crc_byte, crc_fold}

-- The bits of a number, from the lowest of `n`, and from the highest.
abbrev pub low_first : ℕ → ℕ → List ℕ
low_first zero b = []
low_first (suc n) b = b % 2 ∷ low_first n (b / 2)

abbrev pub high_first : ℕ → ℕ → List ℕ
high_first zero b = []
high_first (suc n) b = b / 2 ^ n % 2 ∷ high_first n b

-- The bits of bytes in the order of the wire: of each byte the lowest first, if `reflect` is set.
abbrev pub wire_bits : Bool → List ℕ → List ℕ
wire_bits reflect [] = []
wire_bits reflect (b ∷ bytes) =
    (if reflect then low_first 8 b else high_first 8 b) ++ wire_bits reflect bytes

-- The register moves by one bit, and takes in the polynomial where the bit that leaves it is not the
-- message's bit.
abbrev pub serial_bit : Crc → ℕ → ℕ → ℕ
serial_bit c crc bit =
    let leaves = if c.reflect then crc % 2 else crc / 2 ^ (c.width - 1) % 2 in
    let moved = if c.reflect then crc / 2 else crc * 2 % 2 ^ c.width in
    if leaves == bit then moved else bit_xor moved (c.poly % 2 ^ c.width)

abbrev pub serial : Crc → ℕ → List ℕ → ℕ
serial c crc [] = crc
serial c crc (bit ∷ bits) = serial c (serial_bit c crc bit) bits

-- A step with bits still to come in the register is the step, and those bits moved.
pick_xor :
    (same : Bool) (moved rest poly : ℕ)
    → (if not same then bit_xor (bit_xor moved rest) poly else bit_xor moved rest)
      ≡ bit_xor (if same then moved else bit_xor moved poly) rest
pick_xor true moved rest poly = refl
pick_xor false moved rest poly = bit_xor_swap moved rest poly

module _ (c : Crc) (reflected : c.reflect ≡ true) where
  crc_bit-low : (crc b : ℕ) → crc_bit c (bit_xor crc b) ≡ bit_xor (serial_bit c crc (b % 2)) (b / 2)
  unfolding crc_bit
  crc_bit-low crc b =
      let gone : (bit_and (bit_xor crc b) 1 == 0) ≡ (crc % 2 == b % 2) =
        ap (λ (k : ℕ). k == 0) (bit_and_one (bit_xor crc b) ∙ bit_xor_low crc b)
        ∙ differ_zero (crc % 2) (b % 2) (omega arith) (omega arith) in
      rw (reflected, gone, bit_xor_half crc b)
        (pick_xor (crc % 2 == b % 2) (crc / 2) (b / 2) (c.poly % 2 ^ c.width))

  crc_bits-low :
      (n crc b : ℕ) → b < 2 ^ n → crc_bits c n (bit_xor crc b) ≡ serial c crc (low_first n b)
  unfolding crc_bits
  crc_bits-low zero crc b lt = let none : b ≡ 0 = omega arith in rw none (bit_xor-zero crc)
  crc_bits-low (suc n) crc b lt =
      ap (crc_bits c n) (crc_bit-low crc b)
      ∙ crc_bits-low n (serial_bit c crc (b % 2)) (b / 2) (omega (arith, two-pow-suc n))

module _ (c : Crc) (plain : c.reflect ≡ false) (wide : 1 ≤ c.width) where
  abbrev top : ℕ
  top = c.width - 1

  double : 2 ^ c.width ≡ 2 * 2 ^ top
  double = let e : suc top ≡ c.width = omega (arith, wide) in rw e at (two-pow-suc top)

  moved_out : (m l : ℕ) → l < 2 ^ top → (m * 2 ^ top + l) * 2 % 2 ^ c.width ≡ l * 2
  moved_out m l lt =
      let split : (m * 2 ^ top + l) * 2 ≡ m * 2 ^ c.width + l * 2 =
        omega (arith, ap (λ (k : ℕ). m * k) double) in
      ap (λ (k : ℕ). k % 2 ^ c.width) split
      ∙ mod_of_sum (2 ^ c.width) m (l * 2) (omega (arith, double))

  -- A bit on the top of the register, and bits below it.
  module _ (crc bit y : ℕ) (one : bit < 2) (below : y < 2 ^ top) where
    abbrev q : ℕ
    q = crc / 2 ^ top

    abbrev r : ℕ
    r = crc % 2 ^ top

    abbrev low : ℕ
    low = bit_xor r y

    r-lt : r < 2 ^ top
    r-lt = (div-mod crc (2 ^ top) (pow_pos top)).1

    low-lt : low < 2 ^ top
    low-lt = bit_xor-lt top r y r-lt below

    joined : bit_xor crc (bit * 2 ^ top + y) ≡ bit_xor q bit * 2 ^ top + low
    joined =
        ap (λ (k : ℕ). bit_xor k (bit * 2 ^ top + y)) (sym (div-mod crc (2 ^ top) (pow_pos top)).0)
        ∙ bit_xor_split top q bit r y r-lt below

    leaving : (bit_and (bit_xor q bit * 2 ^ top + low) (2 ^ top) == 0) ≡ (q % 2 == bit)
    leaving =
        let x = bit_xor q bit * 2 ^ top + low in
        let whole : bit % 2 ≡ bit = omega arith in
        let high =
          ap (λ (k : ℕ). k % 2) (div_of_sum (2 ^ top) (bit_xor q bit) low low-lt)
          ∙ bit_xor_low q bit
          ∙ ap (λ (k : ℕ). differ (q % 2) k) whole in
        ap (λ (k : ℕ). k == 0) (bit_and_flag top x ∙ ap (λ (k : ℕ). k * 2 ^ top) high)
        ∙ scaled (differ (q % 2) bit)
        ∙ differ_zero (q % 2) bit (omega arith) one
      where
        scaled : (k : ℕ) → (k * 2 ^ top == 0) ≡ (k == 0)
        scaled zero = let none : 0 * 2 ^ top ≡ 0 = omega arith in ap (λ (k : ℕ). k == 0) none
        scaled (suc k) =
            let some_left : 1 ≤ suc k * 2 ^ top = grind (arith, pow_pos top) in
            ground (arith, some_left)

    shifted :
        (bit_xor q bit * 2 ^ top + low) * 2 % 2 ^ c.width ≡ bit_xor (crc * 2 % 2 ^ c.width) (y * 2)
    shifted =
        let here : crc * 2 % 2 ^ c.width ≡ r * 2 =
          ap (λ (k : ℕ). k * 2 % 2 ^ c.width) (sym (div-mod crc (2 ^ top) (pow_pos top)).0)
          ∙ moved_out q r r-lt in
        moved_out (bit_xor q bit) low low-lt
        ∙ sym (bit_xor_double r y)
        ∙ ap (λ (k : ℕ). bit_xor k (y * 2)) (sym here)

    crc_bit-high :
        crc_bit c (bit_xor crc (bit * 2 ^ top + y)) ≡ bit_xor (serial_bit c crc bit) (y * 2)
    unfolding crc_bit
    crc_bit-high =
        rw (joined, plain, leaving, shifted)
          (pick_xor (q % 2 == bit) (crc * 2 % 2 ^ c.width) (y * 2) (c.poly % 2 ^ c.width))

  crc_bits-high :
      (n crc b : ℕ)
      → n ≤ c.width
      → crc_bits c n (bit_xor crc (b % 2 ^ n * 2 ^ (c.width - n))) ≡ serial c crc (high_first n b)
  unfolding crc_bits
  crc_bits-high zero crc b le =
      let none : b % 2 ^ 0 * 2 ^ (c.width - 0) ≡ 0 =
        let e : b % 2 ^ 0 ≡ 0 = omega arith in
        ap (λ (k : ℕ). k * 2 ^ (c.width - 0)) e ∙ omega arith in
      ap (bit_xor crc) none ∙ bit_xor-zero crc
  crc_bits-high (suc n) crc b le =
      let bit = b / 2 ^ n % 2 in
      let rest = b % 2 ^ n in
      let y = rest * 2 ^ (top - n) in
      let swap : suc n ≡ n + 1 = omega arith in
      let under : c.width - suc n ≡ top - n = omega arith in
      let up : suc (top - n) ≡ c.width - n = omega (arith, le) in
      let level : n + (top - n) ≡ top = omega (arith, le) in
      let tall : 2 ^ n * 2 ^ (top - n) ≡ 2 ^ top =
        sym (two-pow-add n (top - n)) ∙ ap (λ (k : ℕ). 2 ^ k) level in
      let rest-lt = (div-mod b (2 ^ n) (pow_pos n)).1 in
      let below : y < 2 ^ top = grind (arith, tall, rest-lt, pow_pos (top - n)) in
      let parts : b % 2 ^ suc n ≡ bit * 2 ^ n + rest =
        ap (λ (k : ℕ). b % 2 ^ k) swap ∙ mod_pow_split b n 1 in
      let placed : b % 2 ^ suc n * 2 ^ (c.width - suc n) ≡ bit * 2 ^ top + y =
        (λ i. parts i * 2 ^ under i) ∙ omega (arith, ap (λ (k : ℕ). bit * k) tall) in
      let twice : y * 2 ≡ rest * 2 ^ (c.width - n) = omega (
        arith,
        ap (λ (k : ℕ). rest * k) (sym (two-pow-suc (top - n)) ∙ ap (λ (k : ℕ). 2 ^ k) up),
      ) in
      ap (λ (k : ℕ). crc_bits c n (crc_bit c (bit_xor crc k))) placed
      ∙ ap (crc_bits c n)
          (crc_bit-high crc bit y (omega arith) below ∙ ap (bit_xor (serial_bit c crc bit)) twice)
      ∙ crc_bits-high n (serial_bit c crc bit) b (omega arith)

serial-append :
    (c : Crc) (crc : ℕ) (xs ys : List ℕ) → serial c crc (xs ++ ys) ≡ serial c (serial c crc xs) ys
serial-append c crc [] ys = refl
serial-append c crc (x ∷ xs) ys = serial-append c (serial_bit c crc x) xs ys

crc_byte-serial :
    (c : Crc) (crc b : ℕ)
    → 8 ≤ c.width
    → IsByte b
    → crc_byte c crc b ≡ serial c crc (if c.reflect then low_first 8 b else high_first 8 b)
unfolding crc_byte
crc_byte-serial c crc b wide lt = cases c.reflect refl
  where
    cases :
        (reflect : Bool)
        → c.reflect ≡ reflect
        → crc_bits c 8 (bit_xor crc (if reflect then b else b * 2 ^ (c.width - 8) % 2 ^ c.width))
          ≡ serial c crc (if reflect then low_first 8 b else high_first 8 b)
    cases true reflected = crc_bits-low c reflected 8 crc b lt
    cases false plain =
        let whole : b % 2 ^ 8 ≡ b = omega (arith, lt) in
        let sum : 8 + (c.width - 8) ≡ c.width = omega (arith, wide) in
        let tall : 2 ^ c.width ≡ 2 ^ 8 * 2 ^ (c.width - 8) =
          rw sum at (two-pow-add 8 (c.width - 8)) in
        let below : b * 2 ^ (c.width - 8) < 2 ^ c.width =
          grind (arith, tall, lt, pow_pos (c.width - 8)) in
        ap (λ (k : ℕ). crc_bits c 8 (bit_xor crc k))
          (mod-eq_of_lt below ∙ ap (λ (k : ℕ). k * 2 ^ (c.width - 8)) (sym whole))
        ∙ crc_bits-high c plain (omega (arith, wide)) 8 crc b wide

-- Bytes folded into a register of at least 8 bits leave what a shift register leaves that takes their
-- bits one at a time, of each byte the lowest first if `REFLECT` is set and else the highest: it moves
-- by one bit, and adds the polynomial where the bit that leaves it is not the bit taken.
pub crc_fold-serial :
    (c : Crc) (crc : ℕ) (bytes : List ℕ)
    → 8 ≤ c.width
    → All IsByte bytes
    → crc_fold c crc bytes ≡ serial c crc (wire_bits c.reflect bytes)
unfolding crc_fold
crc_fold-serial c crc [] wide h = refl
crc_fold-serial c crc (b ∷ bytes) wide (hb, h) =
    let bits = if c.reflect then low_first 8 b else high_first 8 b in
    crc_fold-serial c (crc_byte c crc b) bytes wide h
    ∙ ap (λ (k : ℕ). serial c k (wire_bits c.reflect bytes)) (crc_byte-serial c crc b wide hb)
    ∙ sym (serial-append c crc bits (wire_bits c.reflect bytes))
