-- ===== src/Varint/Sleb.antt =====
-- `Sleb128` of crates/layline-core/src/num/varint.rs: the bytes of an integer, and a round of their decode.
use layline.Prelude.{
  ℕ, suc, ◌+◌, ◌*◌, ◌-◌, ◌/◌, ◌%◌, ◌^◌, ◌≤◌, ◌<◌, List, ◌∷◌, Bool, true, false, leb, ltb, ◌==◌,
  if◌then◌else◌,
}
use layline.Prelude.{
  bit_and, bit_or, ok, ◌≡◌, refl, ap, ◌∙◌, arith, Bool-cases, inl, inr, lt→leb, lt→ltb, le→ltb,
  pow_pos, mod_of_sum, two-pow-add, two-pow-le,
}
use layline.Prelude.Int.{ℤ, pos, negsuc, IsSigned, as_u64, as_i64, as_u64-as_i64}
use layline.Prelude.BitOps.{bit_and_mask, bit_and_flag, bit_or_fields_low}
use native.Mathlib.Nat.{mod-eq_of_lt}
use layline.Bound.{int_eq}
use layline.Int.Signed.{magnitude}
use layline.Varint.{sleb_loop, sleb_byte, sleb_last, sleb_payload, sign_filled, or_i64, ones_above}

-- The low seven bits of an integer in two's complement.
abbrev pub low_seven : ℤ → ℕ
low_seven (pos n) = n % 2 ^ 7
low_seven (negsuc n) = 2 ^ 7 - 1 - n % 2 ^ 7

sleb_payload-low : (v : ℤ) → IsSigned 64 v → sleb_payload v ≡ low_seven v
unfolding sleb_payload
sleb_payload-low (pos n) h = rw (bit_and_mask 7 (n % 2 ^ 64)) (omega arith)
sleb_payload-low (negsuc n) h = rw (bit_and_mask 7 (2 ^ 64 - 1 - n % 2 ^ 64)) (omega arith)

-- A round is the last where seven bits hold the integer.
pub sleb_last-ltb : (v : ℤ) → IsSigned 64 v → sleb_last v ≡ ltb (magnitude v) (2 ^ 6)
unfolding sleb_last int_eq
sleb_last-ltb (pos n) h = rw (sleb_payload-low (pos n) h, bit_and_flag 6 (n % 2 ^ 7)) (ground arith)
sleb_last-ltb (negsuc n) h =
    rw (sleb_payload-low (negsuc n) h, bit_and_flag 6 (2 ^ 7 - 1 - n % 2 ^ 7)) (ground arith)

-- The integer whose bits from bit `shift` on are `rest`, above those of `value`.
abbrev pub on_top : ℕ → ℕ → ℤ → ℤ
on_top shift value (pos n) = pos (n * 2 ^ shift + value)
on_top shift value (negsuc n) = negsuc (n * 2 ^ shift + (2 ^ shift - 1 - value))

low_seven-lt : (v : ℤ) → low_seven v < 2 ^ 7
low_seven-lt (pos n) = omega arith
low_seven-lt (negsuc n) = omega arith

-- The byte of a round, and its parts.
pub record IsByteOf (last : Bool) (v : ℤ) (b : ℕ) : Type 0 where
  pub payload : bit_and b 0x7F ≡ low_seven v
  pub flag : (bit_and b 0x80 == 0) ≡ last
  pub sign : bit_and b 0x40 ≡ low_seven v / 2 ^ 6 * 2 ^ 6

last_byte : (v : ℤ) (l : ℕ) → low_seven v ≡ l → l < 2 ^ 7 → IsByteOf true v l
last_byte v l e lt = record {
  payload = rw e (bit_and_mask 7 l ∙ omega arith);
  flag = rw (bit_and_flag 7 l) (ground arith);
  sign = rw (bit_and_flag 6 l, e) (omega arith);
}

more_byte : (v : ℤ) (l : ℕ) → low_seven v ≡ l → l < 2 ^ 7 → IsByteOf false v (l + 1 * 2 ^ 7)
more_byte v l e lt = record {
  payload = rw e (bit_and_mask 7 (l + 1 * 2 ^ 7) ∙ omega arith);
  flag = rw (bit_and_flag 7 (l + 1 * 2 ^ 7)) (ground arith);
  sign = rw (bit_and_flag 6 (l + 1 * 2 ^ 7), e) (omega arith);
}

pub sleb_byte-IsByteOf : (v : ℤ) → IsSigned 64 v → IsByteOf (sleb_last v) v (sleb_byte v)
unfolding sleb_byte
sleb_byte-IsByteOf v h = elim (Bool-cases (sleb_last v)) [
  | inl last ↦ rw (last, sleb_payload-low v h) (last_byte v (low_seven v) refl (low_seven-lt v))
  | inr more ↦
      rw (more, sleb_payload-low v h, bit_or_fields_low 7 1 (low_seven v) (low_seven-lt v))
        (more_byte v (low_seven v) refl (low_seven-lt v))
]

-- The bits from bit `s` on, and a value with them: what the sign copied up makes.
module _ (s : ℕ) (narrow : s ≤ 63) where
  abbrev high_ones : ℕ
  high_ones = 2 ^ (64 - s) - 1

  word : 2 ^ 64 ≡ 2 ^ (64 - s) * 2 ^ s
  word = let e : 64 - s + s ≡ 64 = omega arith in rw e at (two-pow-add (64 - s) s)

  high_ones-sum : high_ones * 2 ^ s + 2 ^ s ≡ 2 ^ 64
  high_ones-sum =
      let e : high_ones + 1 ≡ 2 ^ (64 - s) = omega (arith, pow_pos (64 - s)) in
      omega (arith, word, ap (λ (k : ℕ). k * 2 ^ s) e)

  ones_moved : (2 ^ 64 - 1) * 2 ^ s % 2 ^ 64 ≡ high_ones * 2 ^ s
  ones_moved =
      let split : (2 ^ 64 - 1) * 2 ^ s ≡ (2 ^ s - 1) * 2 ^ 64 + high_ones * 2 ^ s =
        omega (arith, high_ones-sum, pow_pos s) in
      ap (λ (k : ℕ). k % 2 ^ 64) split
      ∙ mod_of_sum (2 ^ 64) (2 ^ s - 1) (high_ones * 2 ^ s)
          (omega (arith, high_ones-sum, pow_pos s))

  or_ones : (x : ℕ) → x < 2 ^ s → or_i64 (as_i64 x) (ones_above s) ≡ negsuc (2 ^ s - 1 - x)
  or_ones x lt =
      let below = two-pow-le s 63 narrow in
      let ones : as_u64 (ones_above s) ≡ high_ones * 2 ^ s =
        as_u64-as_i64 ((2 ^ 64 - 1) * 2 ^ s % 2 ^ 64) (omega arith) ∙ ones_moved in
      let whole : as_u64 (as_i64 x) ≡ x = as_u64-as_i64 x (omega (arith, below)) in
      let above : 2 ^ 63 ≤ x + high_ones * 2 ^ s = omega (arith, high_ones-sum, below) in
      let rest : 2 ^ 64 - 1 - (x + high_ones * 2 ^ s) ≡ 2 ^ s - 1 - x =
        omega (arith, high_ones-sum) in
      (λ i. as_i64 (bit_or (whole i) (ones i)))
      ∙ ap as_i64 (bit_or_fields_low s high_ones x lt)
      ∙ rw (le→ltb (x + high_ones * 2 ^ s) (2 ^ 63) above) (ap negsuc rest)

-- A round of decode below bit 63.
module _ (shift value : ℕ) (v : ℤ) (low : shift ≤ 56) (small : value < 2 ^ shift) where
  abbrev grown : ℕ
  grown = value + low_seven v * 2 ^ shift

  pub wide : 2 ^ (shift + 7) ≡ 2 ^ 7 * 2 ^ shift
  wide = rw two-pow-add (omega arith)

  pub fits : 2 ^ (shift + 7) ≤ 2 ^ 63
  fits = two-pow-le (shift + 7) 63 (omega arith)

  pub grown-lt : grown < 2 ^ (shift + 7)
  grown-lt = let l = low_seven-lt v in grind (arith, wide, small)

  pub sleb_loop-byte :
      (last : Bool) (len i b : ℕ) (bytes : List ℕ)
      → IsByteOf last v b
      → sleb_loop len i shift value (b ∷ bytes) ≡ (
          if last
          then ok (sign_filled grown (shift + 7) b, i + 1)
          else sleb_loop len (suc i) (shift + 7) grown bytes)
  unfolding sleb_loop
  sleb_loop-byte last len i b bytes h =
      let moved : low_seven v * 2 ^ shift % 2 ^ 64 ≡ low_seven v * 2 ^ shift =
        mod-eq_of_lt (omega (arith, grown-lt, fits)) in
      let under : leb 64 shift ≡ false = lt→leb 64 shift (omega (arith, low)) in
      let inside : (shift == 63) ≡ false = ground (arith, low) in
      rw
        (h.payload, h.flag, moved, bit_or_fields_low shift (low_seven v) value small, under, inside)
        refl

-- The end of the integer, its sign copied up.
pub sign_filled-on_top :
    (shift value : ℕ) (v : ℤ) (b : ℕ)
    → shift ≤ 56
    → value < 2 ^ shift
    → IsByteOf true v b
    → magnitude v < 2 ^ 6
    → sign_filled (value + low_seven v * 2 ^ shift) (shift + 7) b ≡ on_top shift value v
unfolding sign_filled
sign_filled-on_top shift value (pos n) b low small h last =
    let x = value + n % 2 ^ 7 * 2 ^ shift in
    let clear : bit_and b 0x40 ≡ 0 = h.sign ∙ omega (arith, last) in
    let below : x < 2 ^ 63 =
      omega (arith, grown-lt shift value (pos n) low small, fits shift value (pos n) low small) in
    let whole : n % 2 ^ 7 ≡ n = omega (arith, last) in
    rw (clear, lt→ltb x (2 ^ 63) below, whole) (ground arith)
sign_filled-on_top shift value (negsuc n) b low small h last =
    let m = 2 ^ 7 - 1 - n % 2 ^ 7 in
    let x = value + m * 2 ^ shift in
    let set : bit_and b 0x40 ≡ 64 = h.sign ∙ omega (arith, last) in
    let inside : ltb (shift + 7) 64 ≡ true = lt→ltb (shift + 7) 64 (omega (arith, low)) in
    let sum : m + n + 1 ≡ 2 ^ 7 = omega (arith, last) in
    rw (set, inside)
      (or_ones (shift + 7) (omega (arith, low)) x (grown-lt shift value (negsuc n) low small)
        ∙ ap negsuc (
            omega (
              arith,
              wide shift value (negsuc n) low small,
              ap (λ (k : ℕ). k * 2 ^ shift) sum,
              small,
            )))
