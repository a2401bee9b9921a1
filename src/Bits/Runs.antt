-- ===== src/Bits/Runs.antt =====
-- The cursors of crates/layline-core/src/bits.rs at concrete inputs.
use layline.Prelude.{
  false, ℕ, ◌+◌, List, [], ◌∷◌, true, arith, ◌≡◌, refl, ok, err, some, inl, short, leb,
  if◌then◌else◌,
}
use layline.Buffer.Vector.{vec}
use layline.Bits.{bytes_for}
use layline.Bits.Number.{big_endian, field}
use layline.Bits.Reader.{BitReader, read, skip}
use layline.Bits.Reader.Skip.{without_value, skip-read}
use layline.Bits.Reader.Read.{read_lem}
use layline.Bits.Writer.{BitWriter, write, new, position, patch}
use layline.Bits.Writer.Position.{IsMoved, position-write, new-IsWriter}
use layline.Buffer.Fixed.{Fixed, fixed}
use layline.Bits.Writer.Holds.{Holds}
use layline.Bits.Writer.Rounds.{IsWriter}
use layline.Bits.Writer.Write.{IsWrite, write_lem}
use layline.Bits.RoundTrip.{ReadsBack, write-read}
use layline.Bits.Patched.{IsPatched, patch-read}

abbrev cursor : BitReader
cursor = record { bytes = 0xAB ∷ 0xCD ∷ 0xEF ∷ []; at = 5 }

-- Eleven bits over two bytes.
read_lem_example : read true 11 cursor ≡ (
    if leb (5 + 11) 24
    then ok (field true cursor.bytes 5 11, record cursor { at = 5 + 11 })
    else err (short (bytes_for 16) 3 0))
read_lem_example =
    read_lem true 11 cursor (omega arith, (omega arith, (omega arith, tt))) (omega arith)
      (omega arith)

-- A writer that began behind one byte and holds the three bits 101.
abbrev three_bits : BitWriter (List ℕ)
three_bits = record { out = 0x11 ∷ 0xA0 ∷ []; base = 1; used = 3 }

three_bits-Holds : Holds true (0xA0 ∷ []) 3 5
unfolding big_endian
three_bits-Holds = record {
  are_bytes = (omega arith, tt);
  size = refl;
  bound = omega arith;
  stands = refl;
}

abbrev three_bits-IsWriter : IsWriter vec true (0x11 ∷ []) three_bits 3 5
three_bits-IsWriter = record {
  valid = tt;
  bytes = 0xA0 ∷ [];
  splits = refl;
  holds = three_bits-Holds;
  cursor = refl;
  start = refl;
}

write_lem_example : IsWrite vec true (0x11 ∷ []) 0x1F3 9 3 5 (write vec true 0x1F3 9 three_bits)
write_lem_example =
    write_lem vec true (0x11 ∷ []) 0x1F3 9 three_bits 3 5 (omega arith) three_bits-IsWriter

write-read_example :
    ReadsBack vec true (0x11 ∷ []) 0x1F3 9 3 1 2 three_bits (write vec true 0x1F3 9 three_bits)
write-read_example =
    write-read vec true (0x11 ∷ []) 0x1F3 9 1 2 three_bits 3 5 (omega arith) (omega arith)
      (omega arith) (omega arith) three_bits-IsWriter

skip-read_example : skip 11 cursor ≡ without_value (read true 11 cursor)
skip-read_example =
    skip-read true 11 cursor (omega arith, (omega arith, (omega arith, tt))) (omega arith)
      (omega arith)

position-write_example :
    (position vec three_bits ≡ 3) × IsMoved vec true 9 3 (write vec true 0x1F3 9 three_bits)
position-write_example =
    position-write vec true (0x11 ∷ []) 0x1F3 9 three_bits 3 5 (omega arith) three_bits-IsWriter

-- A cursor on a slice of one byte.
abbrev one_byte : Fixed
one_byte = record { room = 0 ∷ []; at = 0 }

new_cursor-IsWriter : IsWriter fixed false (fixed.written one_byte) (new fixed one_byte) 0 0
new_cursor-IsWriter = new-IsWriter fixed false one_byte (omega arith)

write_byte_over :
    IsWrite fixed false
      (fixed.written one_byte)
      0x1F3
      9
      0
      0
      (write fixed false 0x1F3 9 (new fixed one_byte))
write_byte_over =
    write_lem fixed false (fixed.written one_byte) 0x1F3 9 (new fixed one_byte) 0 0 (omega arith)
      new_cursor-IsWriter

-- Eleven bits behind one byte, of which nine are replaced.
abbrev eleven_bits : BitWriter (List ℕ)
eleven_bits = record { out = 0x11 ∷ 0xA5 ∷ 0xC0 ∷ []; base = 1; used = 3 }

eleven_bits-Holds : Holds true (0xA5 ∷ 0xC0 ∷ []) 11 0x52E
unfolding big_endian
eleven_bits-Holds = record {
  are_bytes = (omega arith, (omega arith, tt));
  size = refl;
  bound = omega arith;
  stands = refl;
}

abbrev eleven_bits-IsWriter : IsWriter vec true (0x11 ∷ []) eleven_bits 11 0x52E
eleven_bits-IsWriter = record {
  valid = tt;
  bytes = 0xA5 ∷ 0xC0 ∷ [];
  splits = refl;
  holds = eleven_bits-Holds;
  cursor = refl;
  start = refl;
}

patch-read_example :
    (w' : BitWriter (List ℕ)) × (patch vec true 2 9 0x1F3 eleven_bits ≡ some w')
    × IsPatched vec true (0x11 ∷ []) 0x1F3 2 9 0 2 eleven_bits w'
patch-read_example =
    patch-read vec true (0x11 ∷ []) 0x1F3 2 9 0 2 eleven_bits 11 0x52E (omega arith) (omega arith)
      (omega arith) (omega arith) (inl (omega arith)) (omega arith) eleven_bits-IsWriter
