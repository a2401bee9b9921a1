-- ===== src/ExpGolomb/Scan.antt =====
-- The zero bits in front of a code word: crates/layline-core/src/num/expgolomb.rs.
use layline.Prelude.{
  ℕ, zero, suc, ◌+◌, ◌*◌, ◌-◌, ◌/◌, ◌%◌, ◌^◌, ◌≤◌, ◌<◌, List, true, false, ltb, ◌==◌, not,
  if◌then◌else◌, length, All, u64_max,
}
use layline.Prelude.{
  ok, err, short, malformed, ◌≡◌, refl, ap, sym, ◌∙◌, arith, le→leb, lt→leb, le→ltb, ==_iff,
  mod_pow_split, div_div_pow, div-mod, pow_pos,
}
use layline.Bits.{bytes_for}
use layline.Bits.Number.{IsByte, big_endian, field}
use layline.Bits.Reader.{BitReader}
use layline.Bits.Reader.Read.{bit_lem}
use layline.ExpGolomb.{zeros_loop}

-- A field of `a + b` bits is made of its first `a` and its last `b` bits.
pub field-split :
    (bytes : List ℕ) (at a b : ℕ)
    → at + (a + b) ≤ 8 * length bytes
    → field true bytes at (a + b) ≡ field true bytes at a * 2 ^ b + field true bytes (at + a) b
unfolding field
field-split bytes at a b fits =
    let low = 8 * length bytes - (at + (a + b)) in
    let n = big_endian bytes in
    let high : 8 * length bytes - (at + a) ≡ low + b = omega arith in
    let last : 8 * length bytes - (at + a + b) ≡ low = omega arith in
    let swap : a + b ≡ b + a = omega arith in
    let down = div_div_pow n low b in
    ap (λ (k : ℕ). n / 2 ^ low % 2 ^ k) swap
    ∙ mod_pow_split (n / 2 ^ low) b a
    ∙ (λ i. down i % 2 ^ a * 2 ^ b + n / 2 ^ sym last i % 2 ^ b)
    ∙ ap (λ (k : ℕ). n / 2 ^ k % 2 ^ a * 2 ^ b + n / 2 ^ (8 * length bytes - (at + a + b)) % 2 ^ b)
        (sym high)

pub field-lt : (bytes : List ℕ) (at bits : ℕ) → field true bytes at bits < 2 ^ bits
unfolding field
field-lt bytes at bits = (div-mod _ (2 ^ bits) (pow_pos bits)).1

module _ (bytes : List ℕ) (p : ℕ) (are_bytes : All IsByte bytes) (small : p + 129 ≤ u64_max) where
  abbrev pub stand : ℕ → BitReader
  stand at = record { bytes = bytes; at = at }

  -- A round at bit `p + zero_bits`, behind that many zero bits.
  pub zeros_loop-suc :
      (fuel zero_bits : ℕ)
      → zero_bits ≤ 64
      → p + zero_bits + 1 ≤ 8 * length bytes
      → zeros_loop (suc fuel) p zero_bits (stand (p + zero_bits)) ≡ (
          if not (field true bytes (p + zero_bits) 1 == 0)
          then ok (zero_bits, stand (p + zero_bits + 1))
          else (if ltb 64 (zero_bits + 1)
              then err (malformed "ExpGolomb" (p / 8))
              else zeros_loop fuel p (zero_bits + 1) (stand (p + zero_bits + 1))))
  unfolding zeros_loop
  zeros_loop-suc fuel zero_bits le fits =
      rw
        (
          bit_lem (stand (p + zero_bits)) are_bytes (omega arith),
          le→leb (p + zero_bits + 1) (8 * length bytes) fits,
        )
        refl

  pub zeros_loop-cut :
      (fuel zero_bits : ℕ)
      → zero_bits ≤ 64
      → 8 * length bytes < p + zero_bits + 1
      → zeros_loop (suc fuel) p zero_bits (stand (p + zero_bits))
        ≡ err (short (bytes_for (p + zero_bits + 1)) (length bytes) ((p + zero_bits) / 8))
  unfolding zeros_loop
  zeros_loop-cut fuel zero_bits le over =
      rw
        (
          bit_lem (stand (p + zero_bits)) are_bytes (omega arith),
          lt→leb (p + zero_bits + 1) (8 * length bytes) over,
        )
        refl

  -- `zero_bits` zero bits are passed in as many rounds.
  pub zeros_loop-skip :
      (zero_bits fuel : ℕ)
      → zero_bits ≤ 64
      → zero_bits ≤ 8 * length bytes - p
      → field true bytes p zero_bits ≡ 0
      → zeros_loop (zero_bits + fuel) p 0 (stand p)
        ≡ zeros_loop fuel p zero_bits (stand (p + zero_bits))
  zeros_loop-skip zero fuel le fits none =
      let e : p + 0 ≡ p = omega arith in let e' : 0 + fuel ≡ fuel = omega arith in rw (e, e') refl
  zeros_loop-skip (suc zero_bits) fuel le fits none =
      let e : suc zero_bits + fuel ≡ zero_bits + suc fuel = omega arith in
      let next : zero_bits + 1 ≡ suc zero_bits = omega arith in
      let at : p + zero_bits + 1 ≡ p + suc zero_bits = omega arith in
      let parts = field-split bytes p zero_bits 1 (omega arith) in
      let whole : field true bytes p (zero_bits + 1) ≡ 0 = rw next none in
      let before : field true bytes p zero_bits ≡ 0 = omega arith in
      let last : (field true bytes (p + zero_bits) 1 == 0) ≡ true = (==_iff _ 0).1 (omega arith) in
      let go : ltb 64 (suc zero_bits) ≡ false = le→ltb 64 (suc zero_bits) le in
      rw e (
        zeros_loop-skip zero_bits (suc fuel) (omega arith) (omega arith) before
        ∙ zeros_loop-suc fuel zero_bits (omega arith) (omega arith)
        ∙ rw (last, next, at, go) refl)
