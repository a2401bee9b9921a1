-- ===== src/Bits/Patched.antt =====
-- A field that `BitWriter::patch` put, read back: crates/layline-core/src/bits.rs.
use layline.Prelude.{ℕ, ◌+◌, ◌-◌, ◌%◌, ◌^◌, ◌≤◌, List, Bool, true, false, u64_max, some}
use layline.Prelude.{arith, ◌≡◌, sym, ◌⊎◌, inl, inr}
use layline.Buffer.{Buffer}
use layline.Bits.Put.{put, put-here, put-elsewhere}
use layline.Bits.Writer.{BitWriter, patch, position}
use layline.Bits.Writer.Holds.{part}
use layline.Bits.Writer.PatchBytes.{low_end}
use layline.Bits.Writer.Rounds.{IsWriter}
use layline.Bits.Writer.Patch.{patch-IsWriter}
use layline.Bits.Writer.Position.{IsWriter-position}
use layline.Bits.RoundTrip.{Reads, region, region-bytes, Holds-Reads}

-- The field put, and a field apart from it, in the number.
part-put_here :
    (msb : Bool) (p n at bits value : ℕ)
    → part msb p (put n (low_end msb p at bits) bits value) at bits ≡ value % 2 ^ bits
part-put_here true p n at bits value = put-here n (p - (at + bits)) bits value
part-put_here false p n at bits value = put-here n at bits value

-- Two fields that have no bit in common.
abbrev pub Apart : ℕ → ℕ → ℕ → ℕ → Type 0
Apart at bits b width = (b + width ≤ at) ⊎ (at + bits ≤ b)

part-put_elsewhere :
    (msb : Bool) (p n at bits value b width : ℕ)
    → at + bits ≤ p
    → b + width ≤ p
    → Apart at bits b width
    → part msb p (put n (low_end msb p at bits) bits value) b width ≡ part msb p n b width
part-put_elsewhere true p n at bits value b width inside inside' (inl before) =
    put-elsewhere n (p - (at + bits)) bits value (p - (b + width)) width (inr (omega arith))
part-put_elsewhere true p n at bits value b width inside inside' (inr behind) =
    put-elsewhere n (p - (at + bits)) bits value (p - (b + width)) width (inl (omega arith))
part-put_elsewhere false p n at bits value b width inside inside' apart =
    put-elsewhere n at bits value b width apart

module _ {B : Type 0} (buffer : Buffer B) (msb : Bool) (pre : List ℕ) where
  -- A patched writer: its position, what a read gives in the field, and what it gives in a field
  -- apart, before and after.
  pub record IsPatched (value at bits b width : ℕ) (w w' : BitWriter B) : Type 0 where
    pub still : position buffer w' ≡ position buffer w
    pub here : Reads buffer msb pre (region buffer msb pre w') at bits (value % 2 ^ bits)
    pub found : ℕ
    pub before : Reads buffer msb pre (region buffer msb pre w) b width found
    pub after : Reads buffer msb pre (region buffer msb pre w') b width found

  -- A patch of up to 64 bits inside the bits that a writer holds, all of them at positions that fit a
  -- `u64`, returns. The position stays, a read
  -- of the field gives the low bits of the value, and a read of up to 64 bits that has no bit in
  -- common with the field gives what it gave before.
  pub patch-read :
      (value at bits b width : ℕ) (w : BitWriter B) (p n : ℕ)
      → bits ≤ 64
      → width ≤ 64
      → at + bits ≤ p
      → b + width ≤ p
      → Apart at bits b width
      → p ≤ u64_max
      → IsWriter buffer msb pre w p n
      → (w' : BitWriter B) × (patch buffer msb at bits value w ≡ some w')
        × IsPatched value at bits b width w w'
  patch-read value at bits b width w p n narrow thin inside inside' apart small h =
      let (w', runs, h') = patch-IsWriter buffer msb pre w p n at bits value h inside in
      let m = put n (low_end msb p at bits) bits value in
      let reads = Holds-Reads buffer msb pre in
      let bytes = region-bytes buffer msb pre in
      (
        w',
        runs,
        record {
          still =
              rw (IsWriter-position buffer msb pre w' p m h')
                (sym (IsWriter-position buffer msb pre w p n h));
          here =
              rw (bytes w' p m h', ← part-put_here msb p n at bits value)
                (reads h'.bytes p m at bits h'.holds narrow inside small);
          found = part msb p n b width;
          before = rw (bytes w p n h) (reads h.bytes p n b width h.holds thin inside' small);
          after =
              rw
                (
                  bytes w' p m h',
                  ← part-put_elsewhere msb p n at bits value b width inside inside' apart,
                )
                (reads h'.bytes p m b width h'.holds thin inside' small);
        },
      )
