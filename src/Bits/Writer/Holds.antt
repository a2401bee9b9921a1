-- ===== src/Bits/Writer/Holds.antt =====
-- Bits written to a byte string, as one number: what the writer of crates/layline-core/src/bits.rs
-- keeps, and what the fields of such a string are.
use layline.Prelude.{ℕ, ◌+◌, ◌*◌, ◌-◌, ◌/◌, ◌%◌, ◌^◌, ◌≤◌, ◌<◌, List, Bool, true, false}
use layline.Prelude.{length, All, arith, ◌≡◌, ap, sym, ◌∙◌}
use layline.Prelude.{pow_pos, div_of_sum, mod_of_sum, div-mod, low_field, shift_down}
use native.Mathlib.Nat.{mod-eq_of_lt}
use layline.Bits.{bytes_for}
use layline.Bits.Number.{IsByte, big_endian, little_endian, field}
use layline.Bits.Number.{big_endian_inj, little_endian_inj}

-- The number of a byte string whose first `p` bits stand for `n` and whose other bits are zero.
abbrev pub Stands : Bool → List ℕ → ℕ → ℕ → Type 0
Stands true bytes p n = big_endian bytes ≡ n * 2 ^ (8 * length bytes - p)
Stands false bytes p n = little_endian bytes ≡ n

-- A byte string that holds `p` bits, standing for `n`, and no byte more than they need.
pub record Holds (msb : Bool) (bytes : List ℕ) (p n : ℕ) : Type 0 where
  pub are_bytes : All IsByte bytes
  pub size : length bytes ≡ bytes_for p
  pub bound : n < 2 ^ p
  pub stands : Stands msb bytes p n

-- The number that `p` bits standing for `n` become by `bits` bits of `value` behind them.
abbrev pub joined : Bool → ℕ → ℕ → ℕ → ℕ → ℕ
joined true p n value bits = n * 2 ^ bits + value % 2 ^ bits
joined false p n value bits = n + value % 2 ^ bits * 2 ^ p

-- `bits` bits at bit `at` of `p` bits standing for `n`.
abbrev pub part : Bool → ℕ → ℕ → ℕ → ℕ → ℕ
part true p n at bits = n / 2 ^ (p - (at + bits)) % 2 ^ bits
part false p n at bits = n / 2 ^ at % 2 ^ bits

-- A field inside the bits held, from their number.
pub Holds-field :
    (msb : Bool) (bytes : List ℕ) (p n at bits : ℕ)
    → Holds msb bytes p n
    → at + bits ≤ p
    → field msb bytes at bits ≡ part msb p n at bits
unfolding field
Holds-field true bytes p n at bits h inside =
    let spare = 8 * length bytes - p in
    let rest = p - (at + bits) in
    let e : 8 * length bytes - (at + bits) ≡ spare + rest = omega (arith, h.size) in
    let padded : big_endian bytes ≡ n * 2 ^ spare + 0 = omega (arith, h.stands) in
    (λ i. padded i / 2 ^ e i % 2 ^ bits)
    ∙ ap (λ (x : ℕ). x % 2 ^ bits) (shift_down spare rest n 0 (pow_pos spare))
Holds-field false bytes p n at bits h inside = ap (λ (x : ℕ). x / 2 ^ at % 2 ^ bits) h.stands

-- The bits appended last, and the bits before them, in the joined number.
pub part-joined_new :
    (msb : Bool) (p n value bits : ℕ)
    → n < 2 ^ p
    → part msb (p + bits) (joined msb p n value bits) p bits ≡ value % 2 ^ bits
part-joined_new true p n value bits lt =
    let none : p + bits - (p + bits) ≡ 0 = omega arith in
    let whole : (n * 2 ^ bits + value % 2 ^ bits) / 2 ^ 0 ≡ n * 2 ^ bits + value % 2 ^ bits =
      omega arith in
    rw (none, whole)
      (mod_of_sum (2 ^ bits) n (value % 2 ^ bits) (div-mod value (2 ^ bits) (pow_pos bits)).1)
part-joined_new false p n value bits lt =
    let swap : n + value % 2 ^ bits * 2 ^ p ≡ value % 2 ^ bits * 2 ^ p + n = omega arith in
    rw (swap, div_of_sum (2 ^ p) (value % 2 ^ bits) n lt)
      (mod-eq_of_lt (div-mod value (2 ^ bits) (pow_pos bits)).1)

pub part-joined_old :
    (msb : Bool) (p n value bits at width : ℕ)
    → at + width ≤ p
    → n < 2 ^ p
    → part msb (p + bits) (joined msb p n value bits) at width ≡ part msb p n at width
part-joined_old true p n value bits at width inside lt =
    let e : p + bits - (at + width) ≡ bits + (p - (at + width)) = omega arith in
    rw e (
      ap (λ (x : ℕ). x % 2 ^ width)
        (shift_down bits (p - (at + width)) n (value % 2 ^ bits)
          (div-mod value (2 ^ bits) (pow_pos bits)).1))
part-joined_old false p n value bits at width inside lt =
    let v = value % 2 ^ bits in
    let swap : n + v * 2 ^ p ≡ v * 2 ^ p + n = omega arith in
    rw swap (
      sym (low_field (v * 2 ^ p + n) p at width inside)
      ∙ ap (λ (x : ℕ). x / 2 ^ at % 2 ^ width) (mod_of_sum (2 ^ p) v n lt))

-- The bits held determine the bytes.
pub Holds-unique : (msb : Bool) (a b : List ℕ) (p n : ℕ) → Holds msb a p n → Holds msb b p n → a ≡ b
Holds-unique true a b p n ha hb =
    let same = ha.size ∙ sym hb.size in
    big_endian_inj a b ha.are_bytes hb.are_bytes same
      (ha.stands ∙ ap (λ (k : ℕ). n * 2 ^ (8 * k - p)) same ∙ sym hb.stands)
Holds-unique false a b p n ha hb =
    little_endian_inj a b ha.are_bytes hb.are_bytes (ha.size ∙ sym hb.size)
      (ha.stands ∙ sym hb.stands)
