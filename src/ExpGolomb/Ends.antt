-- ===== src/ExpGolomb/Ends.antt =====
-- `ExpGolomb::decode` of crates/layline-core/src/num/expgolomb.rs: a decode by where its zero bits end.
use layline.Prelude.{
  ℕ, zero, suc, ◌+◌, ◌*◌, ◌-◌, ◌/◌, ◌^◌, ◌≤◌, ◌<◌, List, Bool, true, false, ltb, ◌==◌, not,
  if◌then◌else◌, length, All, u64_max,
}
use layline.Prelude.{
  Res, ◌>>=◌, ok, err, short, malformed, ◌≡◌, refl, ap, sym, ◌∙◌, arith, Bool-cases, inl, inr, leb,
  leb→le, leb→lt, le→leb, ==_iff,
}
use layline.Int.Unsigned.{mask64-pow}
use layline.Bits.{bytes_for}
use layline.Bits.Number.{IsByte, field}
use layline.Bits.Reader.{BitReader, reader_at, position}
use layline.Bits.Reader.Read.{read_lem}
use layline.ExpGolomb.{decode, zeros_loop, read_suffix, checked_add}
use layline.ExpGolomb.Scan.{field-split, field-lt, zeros_loop-suc, zeros_loop-cut, zeros_loop-skip}

module _ (bytes : List ℕ) (p : ℕ) (are_bytes : All IsByte bytes) (small : p + 129 ≤ u64_max) where
  abbrev stand : ℕ → BitReader
  stand at = record { bytes = bytes; at = at }

  abbrev size : ℕ
  size = 8 * length bytes

  -- Where the zero bits from bit `p` on end.
  pub data Ends : Type 0 where
    at_one : (z : ℕ) → z ≤ 64 → p + z + 1 ≤ size → field true bytes p (z + 1) ≡ 1 → Ends
    at_end : (z : ℕ) → z ≤ 64 → z ≤ size - p → size < p + z + 1 → field true bytes p z ≡ 0 → Ends
    never : p + 65 ≤ size → field true bytes p 65 ≡ 0 → Ends

  ends_from : (fuel z : ℕ) → z + fuel ≡ 65 → z ≤ size - p → field true bytes p z ≡ 0 → Ends
  ends_from zero z e le none =
      let last : z ≡ 65 = omega arith in never (omega arith) (rw last at none)
  ends_from (suc fuel) z e le none = elim (Bool-cases (leb (p + z + 1) size)) [
    | inr over ↦ at_end z (omega arith) le (leb→lt _ _ over) none
    | inl fits ↦
        let inside = leb→le _ _ fits in
        let parts = field-split bytes p z 1 (omega arith) in
        let bit = field-lt bytes (p + z) 1 in
        elim (Bool-cases (field true bytes (p + z) 1 == 0)) [
          | inl clear ↦
              let clear' = (==_iff _ 0).0 clear in
              ends_from fuel (z + 1) (omega arith) (omega arith) (omega arith)
          | inr set ↦ at_one z (omega arith) inside (ground arith)
        ]
  ]

  none-field : field true bytes p 0 ≡ 0
  none-field = let lt = field-lt bytes p 0 in omega arith

  pub ends : Ends
  ends = ends_from 65 0 refl (omega arith) none-field

  -- The number of a code word is one more than its value: a one bit and the bits behind it.
  pub decode_at_one :
      (z : ℕ)
      → z ≤ 64
      → p + z + 1 ≤ size
      → field true bytes p (z + 1) ≡ 1
      → decode bytes p ≡ read_suffix p (z, stand (p + z + 1))
  unfolding decode reader_at
  decode_at_one z le fits one =
      let parts = field-split bytes p z 1 (omega arith) in
      let bit = field-lt bytes (p + z) 1 in
      let none : field true bytes p z ≡ 0 = omega arith in
      let set : (field true bytes (p + z) 1 == 0) ≡ false = ground arith in
      let e : 65 ≡ z + suc (64 - z) = omega arith in
      ap (λ (r : Res (ℕ × BitReader)). r >>= read_suffix p)
        (ap (λ (k : ℕ). zeros_loop k p 0 (stand p)) e
          ∙ zeros_loop-skip bytes p are_bytes small z (suc (64 - z)) le (omega arith) none
          ∙ zeros_loop-suc bytes p are_bytes small (64 - z) z le fits
          ∙ stops _ _ set)
    where
      stops : {s : Bool} (a b : Res (ℕ × BitReader)) → s ≡ false → (if not s then a else b) ≡ a
      stops a b e = rw e refl

  pub decode_at_end :
      (z : ℕ)
      → z ≤ 64
      → z ≤ size - p
      → size < p + z + 1
      → field true bytes p z ≡ 0
      → decode bytes p ≡ err (short (bytes_for (p + z + 1)) (length bytes) ((p + z) / 8))
  unfolding decode reader_at
  decode_at_end z le inside over none =
      let e : 65 ≡ z + suc (64 - z) = omega arith in
      ap (λ (r : Res (ℕ × BitReader)). r >>= read_suffix p)
        (ap (λ (k : ℕ). zeros_loop k p 0 (stand p)) e
          ∙ zeros_loop-skip bytes p are_bytes small z (suc (64 - z)) le inside none
          ∙ zeros_loop-cut bytes p are_bytes small (64 - z) z le over)

  pub decode_never :
      p + 65 ≤ size
      → field true bytes p 65 ≡ 0
      → decode bytes p ≡ err (malformed "ExpGolomb" (p / 8))
  unfolding decode reader_at
  decode_never inside none =
      let parts = field-split bytes p 64 1 (omega arith) in
      let before : field true bytes p 64 ≡ 0 = omega (arith, parts, none) in
      let clear : (field true bytes (p + 64) 1 == 0) ≡ true =
        (==_iff _ 0).1 (omega (arith, parts, none)) in
      ap (λ (r : Res (ℕ × BitReader)). r >>= read_suffix p)
        (zeros_loop-skip bytes p are_bytes small 64 1 (omega arith) (omega arith) before
          ∙ zeros_loop-suc bytes p are_bytes small 0 64 (omega arith) (omega arith)
          ∙ stops _ _ clear)
    where
      stops :
          {s : Bool} (a b : Res (ℕ × BitReader))
          → s ≡ true
          → (if not s then a else (if true then b else a)) ≡ b
      stops a b e = rw e refl

  abbrev suffix : ℕ → ℕ
  suffix z = field true bytes (p + z + 1) z

  -- A value that fits a `u64`, with the bits used.
  abbrev fitting : ℕ → ℕ → Res (ℕ × ℕ)
  fitting value used =
      if ltb value (2 ^ 64) then ok (value, used) else err (malformed "ExpGolomb" (p / 8))

  abbrev pub after_one : ℕ → Res (ℕ × ℕ)
  after_one z =
      if leb (p + z + 1 + z) size
      then fitting (2 ^ z - 1 + suffix z) (2 * z + 1)
      else err (short (bytes_for (p + z + 1 + z)) (length bytes) ((p + z + 1) / 8))

  pub read_suffix_lem :
      (z : ℕ) → z ≤ 64 → p + z + 1 ≤ size → read_suffix p (z, stand (p + z + 1)) ≡ after_one z
  unfolding read_suffix checked_add position
  read_suffix_lem zero le fits =
      let e : p + 0 + 1 + 0 ≡ p + 0 + 1 = omega arith in
      let low = field-lt bytes (p + 0 + 1) 0 in
      let none : field true bytes (p + 0 + 1) 0 ≡ 0 = omega arith in
      let used : p + 0 + 1 - p ≡ 2 * 0 + 1 = omega arith in
      rw (mask64-pow 0 le, e, le→leb _ _ fits) (λ i. fitting (2 ^ 0 - 1 + sym none i) (used i))
  read_suffix_lem (suc z) le fits =
      let used : p + suc z + 1 + suc z - p ≡ 2 * suc z + 1 = omega arith in
      let some : (suc z == 0) ≡ false = ground arith in
      let narrow : p + suc z + 1 + suc z ≤ u64_max = omega arith in
      elim (Bool-cases (leb (p + suc z + 1 + suc z) size)) [
        | inl long ↦
            rw
              (
                some,
                read_lem true (suc z) (stand (p + suc z + 1)) are_bytes le narrow,
                long,
                mask64-pow (suc z) le,
              )
              (ap (fitting (2 ^ suc z - 1 + suffix (suc z))) used)
        | inr cut ↦
            rw (some, read_lem true (suc z) (stand (p + suc z + 1)) are_bytes le narrow, cut) refl
      ]
