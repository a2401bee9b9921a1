-- ===== src/Word/Wire.antt =====
-- `from_wire`, `to_wire` and their big-endian forms of crates/layline-core/src/word.rs.
use layline.Prelude.{
  ℕ, suc, ◌+◌, ◌*◌, ◌-◌, ◌/◌, ◌%◌, ◌^◌, ◌≤◌, ◌<◌, List, [], ◌∷◌, length, All, bit_and, bit_or,
}
use layline.Prelude.{
  arith, ◌≡◌, refl, ap, sym, ◌∙◌, two-pow-add, two-pow-le, pow_pos, div_of_sum, mod_of_sum,
  div_div_pow, mod_mod_pow, mod_div_pow,
}
use layline.Prelude.BitOps.{bit_and_mask, bit_or_fields, bit_or_fields_low}
use native.Mathlib.Nat.{mod-eq_of_lt}
use layline.Extent.Insert.{mask128-pow}
use layline.Bits.Number.{IsByte, big_endian, little_endian, big_endian-lt, little_endian-lt}
use layline.Word.{
  load, load_be, from_wire, from_wire_be, store, store_be, to_wire, to_wire_be, word_mask,
}

-- A byte moved up by `s` bits stays in a `u128` and below the next byte.
byte_at-lt : (b s : ℕ) → IsByte b → b * 2 ^ s < 2 ^ (8 + s)
byte_at-lt b s h = grind (arith, two-pow-add 8 s, pow_pos s)

byte_shift : (b s : ℕ) → IsByte b → 8 + s ≤ 128 → b * 2 ^ s % 2 ^ 128 ≡ b * 2 ^ s
byte_shift b s h le = mod-eq_of_lt (omega (arith, byte_at-lt b s h, two-pow-le (8 + s) 128 le))

load-number :
    (i : ℕ) (bs : List ℕ) (bits : ℕ)
    → All IsByte bs
    → i + length bs ≤ 16
    → bits < 2 ^ (i * 8)
    → load i bs bits ≡ bits + little_endian bs * 2 ^ (i * 8)
unfolding load little_endian
load-number i [] bits h le lt = omega arith
load-number i (b ∷ bs) bits (hb, h) le lt =
    let s = i * 8 in
    let next : suc i * 8 ≡ 8 + s = omega arith in
    let placed : bit_or bits (b * 2 ^ s % 2 ^ 128) ≡ bits + b * 2 ^ s =
      ap (bit_or bits) (byte_shift b s hb (omega arith)) ∙ bit_or_fields_low s b bits lt in
    let fits : bits + b * 2 ^ s < 2 ^ (suc i * 8) = rw (next, two-pow-add) (grind arith) in
    rw placed (load-number (suc i) bs (bits + b * 2 ^ s) h (omega arith) fits)
    ∙ ap (λ (k : ℕ). bits + b * 2 ^ s + little_endian bs * k)
        (ap (λ (k : ℕ). 2 ^ k) next ∙ two-pow-add 8 s)
    ∙ omega arith

load_be-number :
    (n i : ℕ) (bs : List ℕ) (high : ℕ)
    → All IsByte bs
    → i + length bs ≡ n
    → n ≤ 16
    → load_be n i bs (high * 2 ^ (8 * length bs)) ≡ high * 2 ^ (8 * length bs) + big_endian bs
unfolding load_be big_endian
load_be-number n i [] high h e le = omega arith
load_be-number n i (b ∷ bs) high (hb, h) e le =
    let s = 8 * length bs in
    let here : (n - 1 - i) * 8 ≡ s = omega arith in
    let wide : 8 * suc (length bs) ≡ 8 + s = omega arith in
    let placed : bit_or (high * 2 ^ (8 + s)) (b * 2 ^ s) ≡ high * 2 ^ (8 + s) + b * 2 ^ s =
      bit_or_fields (8 + s) high (b * 2 ^ s) (byte_at-lt b s hb) in
    let regroup : high * 2 ^ (8 + s) + b * 2 ^ s ≡ (high * 2 ^ 8 + b) * 2 ^ s =
      omega (arith, ap (λ (k : ℕ). high * k) (two-pow-add 8 s)) in
    rw (here, byte_shift b s hb (omega arith), wide, placed)
      (ap (load_be n (suc i) bs) regroup
        ∙ load_be-number n (suc i) bs (high * 2 ^ 8 + b) h (omega arith) le
        ∙ omega (arith, regroup))

store-number :
    (i : ℕ) (bs : List ℕ) (bits : ℕ)
    → All IsByte bs
    → bits / 2 ^ (i * 8) ≡ little_endian bs
    → store (length bs) i bits ≡ bs
unfolding store little_endian
store-number i [] bits h e = refl
store-number i (b ∷ bs) bits (hb, h) e =
    let byte : bits / 2 ^ (i * 8) % 2 ^ 8 ≡ b = omega arith in
    let next : i * 8 + 8 ≡ suc i * 8 = omega arith in
    let rest : bits / 2 ^ (suc i * 8) ≡ little_endian bs =
      ap (λ (k : ℕ). bits / 2 ^ k) (sym next)
      ∙ sym (div_div_pow bits (i * 8) 8)
      ∙ ap (λ (x : ℕ). x / 2 ^ 8) e
      ∙ omega arith in
    (λ j. byte j ∷ store-number (suc i) bs bits h rest j)

store_be-number :
    (n i : ℕ) (bs : List ℕ) (bits : ℕ)
    → All IsByte bs
    → i + length bs ≡ n
    → bits % 2 ^ (8 * length bs) ≡ big_endian bs
    → store_be n (length bs) i bits ≡ bs
unfolding store_be big_endian
store_be-number n i [] bits h len e = refl
store_be-number n i (b ∷ bs) bits (hb, h) len e =
    let s = 8 * length bs in
    let here : (n - 1 - i) * 8 ≡ s = omega arith in
    let wide : 8 * suc (length bs) ≡ s + 8 = omega arith in
    let whole : bits % 2 ^ (s + 8) ≡ b * 2 ^ s + big_endian bs =
      ap (λ (k : ℕ). bits % 2 ^ k) (sym wide) ∙ e in
    let low = big_endian-lt bs h in
    let byte : bits / 2 ^ ((n - 1 - i) * 8) % 2 ^ 8 ≡ b =
      ap (λ (k : ℕ). bits / 2 ^ k % 2 ^ 8) here
      ∙ sym (mod_div_pow bits s 8)
      ∙ ap (λ (x : ℕ). x / 2 ^ s) whole
      ∙ div_of_sum (2 ^ s) b (big_endian bs) low in
    let rest : bits % 2 ^ s ≡ big_endian bs =
      sym (mod_mod_pow bits s 8)
      ∙ ap (λ (x : ℕ). x % 2 ^ s) whole
      ∙ mod_of_sum (2 ^ s) b (big_endian bs) low in
    (λ j. byte j ∷ store_be-number n (suc i) bs bits h (omega arith) rest j)

masked : (n x : ℕ) → n ≤ 16 → x < 2 ^ (8 * n) → bit_and x (word_mask n) ≡ x
masked n x le lt =
    let same : n * 8 ≡ 8 * n = omega arith in
    rw (mask128-pow (n * 8) (omega arith), same) (bit_and_mask (8 * n) x ∙ mod-eq_of_lt lt)

module _ (bytes : List ℕ) (are_bytes : All IsByte bytes) (le : length bytes ≤ 16) where
  from_wire-bits : (from_wire (length bytes) bytes).bits ≡ little_endian bytes
  unfolding from_wire
  from_wire-bits =
      ap (λ (x : ℕ). bit_and x (word_mask (length bytes)))
        (load-number 0 bytes 0 are_bytes (omega arith) (omega arith) ∙ omega arith)
      ∙ masked (length bytes) (little_endian bytes) le (little_endian-lt bytes are_bytes)

  from_wire_be-bits : (from_wire_be (length bytes) bytes).bits ≡ big_endian bytes
  unfolding from_wire_be
  from_wire_be-bits =
      let none : 0 ≡ 0 * 2 ^ (8 * length bytes) = omega arith in
      ap (λ (x : ℕ). bit_and x (word_mask (length bytes)))
        (ap (load_be (length bytes) 0 bytes) none
          ∙ load_be-number (length bytes) 0 bytes 0 are_bytes (omega arith) le
          ∙ omega arith)
      ∙ masked (length bytes) (big_endian bytes) le (big_endian-lt bytes are_bytes)

-- Up to 16 bytes of the wire are loaded as the number that they are in either byte order, and
-- stored again as the same bytes.
pub to_wire-from_wire :
    (bytes : List ℕ)
    → All IsByte bytes
    → length bytes ≤ 16
    → ((from_wire (length bytes) bytes).bits ≡ little_endian bytes)
      × ((from_wire_be (length bytes) bytes).bits ≡ big_endian bytes)
      × (to_wire (length bytes) (from_wire (length bytes) bytes) ≡ bytes)
      × (to_wire_be (length bytes) (from_wire_be (length bytes) bytes) ≡ bytes)
unfolding to_wire to_wire_be
to_wire-from_wire bytes are_bytes le =
    let little = from_wire-bits bytes are_bytes le in
    let big = from_wire_be-bits bytes are_bytes le in
    (
      little,
      big,
      store-number 0 bytes _ are_bytes (omega (arith, little)),
      store_be-number (length bytes) 0 bytes _ are_bytes (omega arith) (
          ap (λ (x : ℕ). x % 2 ^ (8 * length bytes)) big
          ∙ mod-eq_of_lt (big_endian-lt bytes are_bytes)),
    )
