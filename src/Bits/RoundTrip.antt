-- ===== src/Bits/RoundTrip.antt =====
-- What `BitWriter::write` wrote, read back by `BitReader::read`: crates/layline-core/src/bits.rs.
use layline.Prelude.{
  ℕ, ◌+◌, ◌%◌, ◌^◌, ◌≤◌, List, ◌++◌, Bool, length, drop, drop-append, u64_max, ok,
}
use layline.Prelude.{arith, ◌≡◌, ap, sym, ◌∙◌}
use layline.Buffer.{Buffer, Status, done, overflow, stuck}
use layline.Bits.Reader.{read}
use layline.Bits.Reader.Read.{read_of_le}
use layline.Bits.Writer.{BitWriter, write}
use layline.Bits.Writer.Holds.{
  Holds, joined, part, Holds-field, Holds-unique, part-joined_new, part-joined_old,
}
use layline.Bits.Writer.Rounds.{IsWriter}
use layline.Bits.Writer.Write.{IsWrite, write_lem}

module _ {B : Type 0} (buffer : Buffer B) (msb : Bool) (pre : List ℕ) where
  open buffer use {written}

  -- The bytes behind those that the writer began at.
  abbrev pub region : BitWriter B → List ℕ
  region w = drop (length pre) (written w.out)

  pub region-bytes :
      (w : BitWriter B) (p n : ℕ) (h : IsWriter buffer msb pre w p n) → region w ≡ h.bytes
  region-bytes w p n h = ap (λ (l : List ℕ). drop (length pre) l) h.splits ∙ drop-append pre h.bytes

  -- A read of `bits` bits at `at` gives `value`.
  abbrev pub Reads : List ℕ → ℕ → ℕ → ℕ → Type 0
  Reads bytes at bits value =
      read msb bits (record { bytes = bytes; at = at })
      ≡ ok (value, record { bytes = bytes; at = at + bits })

  pub Holds-Reads :
      (bytes : List ℕ) (p n at bits : ℕ)
      → Holds msb bytes p n
      → bits ≤ 64
      → at + bits ≤ p
      → p ≤ u64_max
      → Reads bytes at bits (part msb p n at bits)
  Holds-Reads bytes p n at bits h narrow inside small =
      read_of_le msb bits (record { bytes = bytes; at = at }) h.are_bytes narrow (omega arith)
        (omega (arith, h.size))
      ∙ ap (λ (v : ℕ). ok (v, record { bytes = bytes; at = at + bits }))
          (Holds-field msb bytes p n at bits h inside)

  -- After a write: what a read gives at the position before it, and at an earlier field.
  abbrev pub ReadsBack : ℕ → ℕ → ℕ → ℕ → ℕ → BitWriter B → BitWriter B × Status → Type 0
  ReadsBack value bits p at width w (w', done) =
      Reads (region w') p bits (value % 2 ^ bits)
      × ((v : ℕ) × Reads (region w) at width v × Reads (region w') at width v)
  ReadsBack value bits p at width w (w', overflow) = written w'.out ≡ written w.out
  ReadsBack value bits p at width w (w', stuck) = ⊥

  IsWrite-ReadsBack :
      (value bits at width : ℕ) (w : BitWriter B) (p n : ℕ) (out : BitWriter B × Status)
      → bits ≤ 64
      → width ≤ 64
      → at + width ≤ p
      → p + bits ≤ u64_max
      → IsWriter buffer msb pre w p n
      → IsWrite buffer msb pre value bits p n out
      → ReadsBack value bits p at width w out
  IsWrite-ReadsBack value bits at width w p n (w', done) narrow thin inside small h h' =
      let before = region-bytes w p n h in
      let after = region-bytes w' (p + bits) (joined msb p n value bits) h' in
      let new =
        Holds-Reads h'.bytes (p + bits) (joined msb p n value bits) p bits h'.holds narrow
          (omega arith) small in
      let old =
        Holds-Reads h'.bytes (p + bits) (joined msb p n value bits) at width h'.holds thin
          (omega arith) small in
      (
        rw (after, ← part-joined_new msb p n value bits h.holds.bound) new,
        (
          part msb p n at width,
          rw before (Holds-Reads h.bytes p n at width h.holds thin inside (omega arith)),
          rw (after, ← part-joined_old msb p n value bits at width inside h.holds.bound) old,
        ),
      )
  IsWrite-ReadsBack value bits at width w p n (w', overflow) narrow thin inside small h h' =
      h'.splits
      ∙ ap (λ (l : List ℕ). pre ++ l) (Holds-unique msb h'.bytes h.bytes p n h'.holds h.holds)
      ∙ sym h.splits
  IsWrite-ReadsBack value bits at width w p n (w', stuck) narrow thin inside small h h' = h'

  -- A write of up to 64 bits to a writer that holds `p` bits returns. If it is done, a read of that
  -- width at bit `p` gives the low bits of the value, and a read inside the first `p` bits gives
  -- what it gave before the write; if it overflows, the bytes written are those before it.
  pub write-read :
      (value bits at width : ℕ) (w : BitWriter B) (p n : ℕ)
      → bits ≤ 64
      → width ≤ 64
      → at + width ≤ p
      → p + bits ≤ u64_max
      → IsWriter buffer msb pre w p n
      → ReadsBack value bits p at width w (write buffer msb value bits w)
  write-read value bits at width w p n narrow thin inside small h =
      IsWrite-ReadsBack value bits at width w p n _ narrow thin inside small h
        (write_lem buffer msb pre value bits w p n narrow h)
