-- ===== src/Bits/Reader/Skip.antt =====
-- `BitReader::skip` of crates/layline-core/src/bits.rs against `BitReader::read`.
use layline.Prelude.{
  ℕ, ◌+◌, ◌*◌, ◌/◌, ◌≤◌, Bool, length, All, u64_max, saturating_add, Res, ok, err, panic, short,
  arith, ◌≡◌, refl, ap, sym, ◌∙◌,
}
use layline.Prelude.{leb, if◌then◌else◌, Bool-cases, inl, inr, leb→le, leb→lt, le→ltb, lt→ltb}
use layline.Bits.{bytes_for}
use layline.Bits.Number.{IsByte, field}
use layline.Bits.Reader.{BitReader, read, skip}
use layline.Bits.Reader.Read.{read_lem}

-- A read of which only the cursor is kept.
abbrev pub without_value : Res (ℕ × BitReader) → Res (Unit {0} × BitReader)
without_value (ok (value, r)) = ok (tt, r)
without_value (err e) = err e
without_value panic = panic

-- A skip of up to 64 bits, from a position that with them fits a `u64`, moves the cursor or fails
-- just as a read of those bits does, in both bit orders.
pub skip-read :
    (msb : Bool) (bits : ℕ) (r : BitReader)
    → All IsByte r.bytes
    → bits ≤ 64
    → r.at + bits ≤ u64_max
    → skip bits r ≡ without_value (read msb bits r)
unfolding skip
skip-read msb bits r are_bytes narrow small =
    let exact : saturating_add r.at bits ≡ r.at + bits = omega arith in
    sym (ap without_value (read_lem msb bits r are_bytes narrow small) ∙ sym (cases exact))
  where
    outcome : Res (ℕ × BitReader)
    outcome =
        if leb (r.at + bits) (8 * length r.bytes)
        then ok (field msb r.bytes r.at bits, record r { at = r.at + bits })
        else err (short (bytes_for (r.at + bits)) (length r.bytes) (r.at / 8))

    cases : saturating_add r.at bits ≡ r.at + bits → skip bits r ≡ without_value outcome
    cases exact = elim (Bool-cases (leb (r.at + bits) (8 * length r.bytes))) [
      | inl fits ↦
          rw
            (
              exact,
              fits,
              le→ltb (length r.bytes) (bytes_for (r.at + bits)) (omega (arith, leb→le _ _ fits)),
            )
            refl
      | inr over ↦
          rw
            (
              exact,
              over,
              lt→ltb (length r.bytes) (bytes_for (r.at + bits)) (omega (arith, leb→lt _ _ over)),
            )
            refl
    ]
