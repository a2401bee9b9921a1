-- ===== src/Varint/Runs.antt =====
-- The codings of crates/layline-core/src/num/varint.rs at concrete inputs.
use layline.Prelude.{[], ◌∷◌, ◌≡◌, refl, arith, ok}
use layline.Prelude.Int.{negsuc}
use layline.Buffer.Fixed.{Fixed, fixed}
use layline.Varint.{uleb_encode, uleb_decode, sleb_encode, sleb_decode, zigzag, unzigzag}
use layline.Varint.Encode.{ReadsBack, uleb_encode-uleb_decode}
use layline.Varint.SlebEncode.{ReadsIntBack, sleb_encode-sleb_decode}
use layline.Varint.Zigzag.{interleaved, unzigzag-zigzag}

abbrev three_free : Fixed
three_free = record { room = 7 ∷ 0 ∷ 0 ∷ 0 ∷ []; at = 1 }

-- The example of the documentation.
uleb_decode-bytes : uleb_decode (0xB9 ∷ 0x64 ∷ []) ≡ ok (12857, 2)
unfolding uleb_decode
uleb_decode-bytes = refl

uleb_encode-uleb_decode_example :
    ReadsBack fixed 12857 (0x80 ∷ []) three_free (uleb_encode fixed 12857 three_free)
uleb_encode-uleb_decode_example =
    uleb_encode-uleb_decode fixed 12857 (0x80 ∷ []) three_free (omega arith) (omega arith)

-- -129 takes two bytes, and the smallest `i64` takes ten.
sleb_decode-bytes : sleb_decode (0xFF ∷ 0x7E ∷ 0x05 ∷ []) ≡ ok (negsuc 128, 2)
unfolding sleb_decode
sleb_decode-bytes = refl

sleb_encode-sleb_decode_example :
    ReadsIntBack fixed
      (negsuc 128)
      (0x80 ∷ [])
      three_free
      (sleb_encode fixed (negsuc 128) three_free)
sleb_encode-sleb_decode_example =
    sleb_encode-sleb_decode fixed (negsuc 128) (0x80 ∷ []) three_free (omega arith) (omega arith)

unzigzag-zigzag_example :
    (zigzag (negsuc 1) ≡ interleaved (negsuc 1))
    × (unzigzag (zigzag (negsuc 1)) ≡ negsuc 1)
    × (zigzag (unzigzag 7) ≡ 7)
unzigzag-zigzag_example = unzigzag-zigzag (negsuc 1) 7 (omega arith) (omega arith)
