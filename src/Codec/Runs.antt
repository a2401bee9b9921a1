-- ===== src/Codec/Runs.antt =====
-- The codecs of crates/layline-core/src/codec.rs at concrete inputs.
use layline.Prelude.{true, ◌==◌, ◌%◌, ◌^◌, if◌then◌else◌, none, some, ◌≡◌, arith}
use layline.Int.Unsigned.{new_u-from_raw_u}
use layline.Codec.{bool_codec, nonzero_codec, u_codec, get, new, none_value, reserved_codec}
use layline.Codec.Laws.{bool_codec-nonzero_codec, get-new}

bool_codec-nonzero_codec_example :
    (bool_codec.to_raw (bool_codec.from_raw 7) ≡ 7 % 2)
    × (bool_codec.from_raw (bool_codec.to_raw true) ≡ true)
    × ((nonzero_codec 8).to_raw ((nonzero_codec 8).from_raw 7) ≡ (if 7 == 0 then 0 else 1))
    × ((nonzero_codec 8).from_raw ((nonzero_codec 8).to_raw true) ≡ true)
bool_codec-nonzero_codec_example = bool_codec-nonzero_codec 8 7 true

-- Nine bits of which 511 is reserved.
get-new_example :
    ((reserved_codec (u_codec 9) 511).to_raw ((reserved_codec (u_codec 9) 511).from_raw 0xFFFF)
      ≡ 0xFFFF % 2 ^ 9)
    × (get (u_codec 9) 511 (new (u_codec 9) 511 180)
        ≡ (if (u_codec 9).to_raw 180 == 511 then none else some 180))
    × (get (u_codec 9) 511 (none_value (u_codec 9) 511) ≡ none)
get-new_example =
    get-new (u_codec 9) 511 0xFFFF 180 (omega arith, omega arith)
      ((new_u-from_raw_u 9 0 180 (omega arith, omega arith)).2)
