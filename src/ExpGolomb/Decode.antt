-- ===== src/ExpGolomb/Decode.antt =====
-- `ExpGolomb::decode` of crates/layline-core/src/num/expgolomb.rs: every outcome of a decode.
use layline.Prelude.{ℕ, ◌+◌, ◌*◌, ◌-◌, ◌/◌, ◌^◌, ◌≤◌, ◌<◌, List, true, ltb, length, All, u64_max}
use layline.Prelude.{
  Res, ok, err, panic, ParseError, short, malformed, ◌≡◌, refl, ap, sym, ◌∙◌, arith, Bool-cases,
  inl, inr, leb, leb→le, leb→lt, le→leb, lt→ltb, ltb→lt, ltb→le, two-pow-add, two-pow-le, pow_pos,
  div_of_sum,
}
use layline.Bits.{bytes_for}
use layline.Bits.Number.{IsByte, field}
use layline.ExpGolomb.{decode}
use layline.ExpGolomb.Scan.{field-split, field-lt}
use layline.ExpGolomb.Ends.{
  at_one, at_end, never, ends, decode_at_one, decode_at_end, decode_never, read_suffix_lem,
  after_one,
}

-- A code word of `2 z + 1` bits for `value`: `value + 1` in binary behind `z` zero bits.
abbrev pub IsWord : ℕ → ℕ → Type 0
IsWord z value = (z ≤ 64) × (2 ^ z ≤ value + 1) × (value + 1 < 2 ^ (z + 1)) × (value < 2 ^ 64)

module _ (bytes : List ℕ) (p : ℕ) where
  abbrev size : ℕ
  size = 8 * length bytes

  abbrev suffix : ℕ → ℕ
  suffix z = field true bytes (p + z + 1) z

  -- The number of the `2 z + 1` bits at `p`, when the first `z + 1` of them stand for one.
  word-number :
      (z : ℕ)
      → p + z + 1 + z ≤ size
      → field true bytes p (z + 1) ≡ 1
      → field true bytes p (2 * z + 1) ≡ 2 ^ z + suffix z
  word-number z fits one =
      let e : 2 * z + 1 ≡ z + 1 + z = omega arith in
      let at : p + (z + 1) ≡ p + z + 1 = omega arith in
      rw (e, field-split bytes p (z + 1) z (omega arith), one, at) (omega arith)

  -- Why a decode fails.
  pub data IsRefused (e : ParseError) : Type 0 where
    -- The bytes end behind `z` zero bits, or behind the one bit after them.
    in_zeros :
        (z : ℕ)
        → z ≤ 64
        → z ≤ size - p
        → field true bytes p z ≡ 0
        → size < p + z + 1
        → e ≡ short (bytes_for (p + z + 1)) (length bytes) ((p + z) / 8)
        → IsRefused e
    in_suffix :
        (z : ℕ)
        → z ≤ 64
        → p + z + 1 ≤ size
        → field true bytes p (z + 1) ≡ 1
        → size < p + z + 1 + z
        → e ≡ short (bytes_for (p + z + 1 + z)) (length bytes) ((p + z + 1) / 8)
        → IsRefused e
    -- There are 65 zero bits, or 64 and a value above the largest `u64`.
    too_long :
        p + 65 ≤ size → field true bytes p 65 ≡ 0 → e ≡ malformed "ExpGolomb" (p / 8) → IsRefused e
    too_wide :
        p + 129 ≤ size
        → 2 ^ 64 < field true bytes p 129
        → field true bytes p 65 ≡ 1
        → e ≡ malformed "ExpGolomb" (p / 8)
        → IsRefused e

  abbrev pub IsDecode : Res (ℕ × ℕ) → Type 0
  IsDecode (ok (value, used)) =
      (z : ℕ) × IsWord z value
      × (used ≡ 2 * z + 1)
      × (p + used ≤ size)
      × (field true bytes p used ≡ value + 1)
  IsDecode (err e) = IsRefused e
  IsDecode panic = ⊥

  module _ (are_bytes : All IsByte bytes) (small : p + 129 ≤ u64_max) where
    after_one-IsDecode :
        (z : ℕ)
        → z ≤ 64
        → p + z + 1 ≤ size
        → field true bytes p (z + 1) ≡ 1
        → IsDecode (after_one bytes p are_bytes small z)
    after_one-IsDecode z le fits one = elim (Bool-cases (leb (p + z + 1 + z) size)) [
      | inr cut ↦ rw cut (in_suffix z le fits one (leb→lt _ _ cut) refl)
      | inl long ↦
          let value = 2 ^ z - 1 + suffix z in
          let number = word-number z (leb→le _ _ long) one in
          let low = field-lt bytes (p + z + 1) z in
          let pos = pow_pos z in
          elim (Bool-cases (ltb value (2 ^ 64))) [
            | inl exact ↦
                rw (long, exact)
                  (
                    z,
                    (
                      le,
                      omega (arith, pos),
                      omega (arith, pos, low, two-pow-add z 1),
                      ltb→lt _ _ exact,
                    ),
                    refl,
                    omega (arith, leb→le _ _ long),
                    number ∙ omega (arith, pos),
                  )
            | inr wide ↦ rw (long, wide) (wide_word z le (leb→le _ _ long) one (ltb→le _ _ wide))
          ]
    ]
      where
        wide_word :
            (z : ℕ)
            → z ≤ 64
            → p + z + 1 + z ≤ size
            → field true bytes p (z + 1) ≡ 1
            → 2 ^ 64 ≤ 2 ^ z - 1 + suffix z
            → IsRefused (malformed "ExpGolomb" (p / 8))
        wide_word z le fits one wide = elim (Bool-cases (leb 64 z)) [
          | inl full ↦
              let e : z ≡ 64 = omega (arith, leb→le _ _ full) in
              let above : 2 ^ 64 < field true bytes p (2 * z + 1) =
                omega (arith, word-number z fits one, wide, ap (λ (k : ℕ). 2 ^ k) e) in
              too_wide (omega arith) (rw e at above) (rw e at one) refl
          | inr part ↦
              let low = field-lt bytes (p + z + 1) z in
              let small = two-pow-le (z + 1) 64 (omega (arith, leb→lt _ _ part)) in
              absurd (omega (arith, low, two-pow-add z 1, small, pow_pos z))
        ]

    -- Every outcome of a decode at bit `p`, where 129 more bits are at positions that fit a `u64`: it
    -- gives a value with the bits of its code word, which stand there, or fails for one of four reasons. It never panics.
    pub decode_lem : IsDecode (decode bytes p)
    decode_lem = elim (ends bytes p are_bytes small) [
      | at_one z le fits one ↦
          rw
            (
              decode_at_one bytes p are_bytes small z le fits one,
              read_suffix_lem bytes p are_bytes small z le fits,
            )
            (after_one-IsDecode z le fits one)
      | at_end z le inside over none ↦
          rw (decode_at_end bytes p are_bytes small z le inside over none)
            (in_zeros z le inside none over refl)
      | never inside none ↦
          rw (decode_never bytes p are_bytes small inside none) (too_long inside none refl)
    ]

    -- A code word that stands at bit `p` decodes to its value and is used up.
    pub decode_of_word :
        (z value : ℕ)
        → IsWord z value
        → p + (2 * z + 1) ≤ size
        → field true bytes p (2 * z + 1) ≡ value + 1
        → decode bytes p ≡ ok (value, 2 * z + 1)
    decode_of_word z value (le, above, below, exact) fits number =
        let e : z + 1 + z ≡ 2 * z + 1 = omega arith in
        let parts = rw e at (field-split bytes p (z + 1) z (omega arith)) in
        let low = field-lt bytes (p + (z + 1)) z in
        let rest = value + 1 - 2 ^ z in
        let small_rest : rest < 2 ^ z = omega (arith, below, two-pow-add z 1) in
        let whole : field true bytes p (z + 1) * 2 ^ z + field true bytes (p + (z + 1)) z
            ≡ 1 * 2 ^ z + rest =
          omega (arith, parts, number, above) in
        let one : field true bytes p (z + 1) ≡ 1 =
          sym (div_of_sum (2 ^ z) (field true bytes p (z + 1)) _ low)
          ∙ ap (λ (k : ℕ). k / 2 ^ z) whole
          ∙ div_of_sum (2 ^ z) 1 rest small_rest in
        let sum = word-number z (omega arith) one in
        let same : 2 ^ z - 1 + suffix z ≡ value = omega (arith, sum, number, above) in
        decode_at_one bytes p are_bytes small z le (omega arith) one
        ∙ read_suffix_lem bytes p are_bytes small z le (omega arith)
        ∙ rw (le→leb (p + z + 1 + z) size (omega arith), same, lt→ltb _ _ exact) refl
