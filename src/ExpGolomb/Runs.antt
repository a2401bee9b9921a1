-- ===== src/ExpGolomb/Runs.antt =====
-- The Exp-Golomb code of crates/layline-core/src/num/expgolomb.rs at concrete inputs.
use layline.Prelude.{ℕ, List, [], ◌∷◌, true, arith, ◌≡◌, refl, ok, err, short}
use layline.Buffer.Vector.{vec}
use layline.Bits.Number.{big_endian}
use layline.Bits.Writer.{BitWriter}
use layline.Bits.Writer.Holds.{Holds}
use layline.Bits.Writer.Rounds.{IsWriter}
use layline.Bits.Reader.{bit, read, reader_at, position}
use layline.Extent.{mask64}
use layline.ExpGolomb.{split, decode}
use layline.ExpGolomb.Encode.{encode}
use layline.ExpGolomb.Decode.{IsDecode, decode_lem}
use layline.ExpGolomb.RoundTrip.{ReadsBack, encode-decode}

split_six : split 6 ≡ (2, 3)
unfolding split
split_six = refl

-- The code word 00111 behind three other bits, a code word that the bytes end inside, and 65 zero bits.
decode_six : decode (0xA7 ∷ []) 3 ≡ ok (6, 5)
unfolding decode bit read reader_at position mask64
decode_six = refl

decode_cut : decode (0 ∷ []) 0 ≡ err (short 2 1 1)
unfolding decode bit read reader_at
decode_cut = refl

-- The decode of a code word behind three other bits.
decode_lem_example : IsDecode (0xA7 ∷ []) 3 (decode (0xA7 ∷ []) 3)
decode_lem_example = decode_lem (0xA7 ∷ []) 3 (omega arith, tt) (omega arith)

abbrev three_bits : BitWriter (List ℕ)
three_bits = record { out = 0xA0 ∷ []; base = 0; used = 3 }

three_bits-Holds : Holds true (0xA0 ∷ []) 3 5
unfolding big_endian
three_bits-Holds = record {
  are_bytes = (omega arith, tt);
  size = refl;
  bound = omega arith;
  stands = refl;
}

abbrev three_bits-IsWriter : IsWriter vec true [] three_bits 3 5
three_bits-IsWriter = record {
  valid = tt;
  bytes = 0xA0 ∷ [];
  splits = refl;
  holds = three_bits-Holds;
  cursor = refl;
  start = refl;
}

encode-decode_example : ReadsBack vec [] 3 5 6 (encode vec 6 three_bits)
encode-decode_example =
    encode-decode vec [] 3 5 6 three_bits (omega arith) (omega arith) three_bits-IsWriter
