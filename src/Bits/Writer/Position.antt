-- ===== src/Bits/Writer/Position.antt =====
-- `BitWriter::new` and `position` of crates/layline-core/src/bits.rs on every buffer.
use layline.Prelude.{
  ℕ, ◌+◌, ◌≤◌, List, [], Bool, true, false, length, arith, ◌≡◌, refl, ap, sym, ◌∙◌,
}
use layline.Prelude.{length-append, append-nil}
use layline.Buffer.{Buffer, Status, done, overflow, stuck}
use layline.Bits.{bytes_for}
use layline.Bits.Number.{big_endian, little_endian}
use layline.Bits.Writer.{BitWriter, new, position, write}
use layline.Bits.Writer.Holds.{Holds, joined}
use layline.Bits.Writer.Rounds.{IsWriter}
use layline.Bits.Writer.Write.{IsWrite, write_lem}

nothing-Holds : (msb : Bool) → Holds msb [] 0 0
unfolding big_endian little_endian
nothing-Holds true = record { are_bytes = tt; size = refl; bound = omega arith; stands = refl }
nothing-Holds false = record { are_bytes = tt; size = refl; bound = omega arith; stands = refl }

module _ {B : Type 0} (buffer : Buffer B) (msb : Bool) where
  open buffer use {IsValid, written}

  -- A new cursor holds no bit, behind all the bytes of the buffer.
  pub new-IsWriter : (b : B) → IsValid b → IsWriter buffer msb (written b) (new buffer b) 0 0
  unfolding new
  new-IsWriter b v = record {
    valid = v;
    bytes = [];
    splits = sym (append-nil (written b));
    holds = nothing-Holds msb;
    cursor = refl;
    start = refl;
  }

  pub IsWriter-position :
      (pre : List ℕ) (w : BitWriter B) (p n : ℕ)
      → IsWriter buffer msb pre w p n
      → position buffer w ≡ p
  unfolding position
  IsWriter-position pre w p n h =
      let whole : length (written w.out) ≡ w.base + bytes_for p =
        ap (λ (l : List ℕ). length l) h.splits
        ∙ length-append pre h.bytes
        ∙ omega (arith, h.holds.size, h.start) in
      ground (arith, whole, h.cursor)

  -- How far the position moves in a write: over its bits, or nowhere.
  abbrev pub IsMoved : ℕ → ℕ → BitWriter B × Status → Type 0
  IsMoved bits before (w, done) = position buffer w ≡ before + bits
  IsMoved bits before (w, overflow) = position buffer w ≡ before
  IsMoved bits before (w, stuck) = ⊥

  -- A writer that holds `p` bits is at position `p`; a write of up to 64 bits moves it by their number
  -- if it is done, and leaves it there if it overflows.
  pub position-write :
      (pre : List ℕ) (value bits : ℕ) (w : BitWriter B) (p n : ℕ)
      → bits ≤ 64
      → IsWriter buffer msb pre w p n
      → (position buffer w ≡ p) × IsMoved bits p (write buffer msb value bits w)
  position-write pre value bits w p n narrow h = (
    IsWriter-position pre w p n h,
    after (write buffer msb value bits w) (write_lem buffer msb pre value bits w p n narrow h),
  )
    where
      after :
          (out : BitWriter B × Status)
          → IsWrite buffer msb pre value bits p n out
          → IsMoved bits p out
      after (w', done) h' = IsWriter-position pre w' (p + bits) (joined msb p n value bits) h'
      after (w', overflow) h' = IsWriter-position pre w' p n h'
      after (w', stuck) h' = h'
