-- ===== src/Codec/Laws.antt =====
-- The codecs of crates/layline-core/src/codec.rs and `Reserved` of num.rs: what they give back.
use layline.Prelude.{
  ℕ, ◌%◌, ◌^◌, ◌<◌, Bool, true, false, not, ◌==◌, if◌then◌else◌, bit_and, none, some,
}
use layline.Prelude.{◌≡◌, refl, ap, arith, ==_iff}
use layline.Prelude.BitOps.{bit_and_one, bit_and_mask}
use layline.Int.Unsigned.{IsWidth, mask64-pow}
use layline.Codec.{
  FieldCodec, bool_codec, nonzero_codec, flag_bit, none_value, new, get, reserved_codec,
}

-- A flag of one bit reads the lowest bit and gives it back. `Nonzero` reads any value but zero as
-- set and gives 1 back for it, so it keeps the flag but not the raw value.
pub bool_codec-nonzero_codec :
    (bits raw : ℕ) (set : Bool)
    → (bool_codec.to_raw (bool_codec.from_raw raw) ≡ raw % 2)
      × (bool_codec.from_raw (bool_codec.to_raw set) ≡ set)
      × ((nonzero_codec bits).to_raw ((nonzero_codec bits).from_raw raw)
          ≡ (if raw == 0 then 0 else 1))
      × ((nonzero_codec bits).from_raw ((nonzero_codec bits).to_raw set) ≡ set)
unfolding bool_codec nonzero_codec
bool_codec-nonzero_codec bits raw set =
    (rw (bit_and_one raw) (low_bit (raw % 2) (omega arith)), back set, flag (raw == 0), any set)
  where
    low_bit : (b : ℕ) → b < 2 → flag_bit (not (b == 0)) ≡ b
    low_bit b h = ground arith

    back : (set : Bool) → not (bit_and (flag_bit set) 1 == 0) ≡ set
    back true = refl
    back false = refl

    flag : (zero : Bool) → flag_bit (not zero) ≡ (if zero then 0 else 1)
    flag true = refl
    flag false = refl

    any : (set : Bool) → not (flag_bit set == 0) ≡ set
    any true = refl
    any false = refl

-- `Reserved` over a codec of 1 to 64 bits keeps the low bits of every raw value. A value that its
-- codec gives back reads as itself, unless its raw bits are the reserved ones, which read as no value.
pub get-new :
    {C : Type 0} (codec : FieldCodec C) (reserved raw : ℕ) (value : C)
    → IsWidth codec.bits
    → codec.from_raw (codec.to_raw value) ≡ value
    → ((reserved_codec codec reserved).to_raw ((reserved_codec codec reserved).from_raw raw)
        ≡ raw % 2 ^ codec.bits)
      × (get codec reserved (new codec reserved value)
          ≡ (if codec.to_raw value == reserved then none else some value))
      × (get codec reserved (none_value codec reserved) ≡ none)
unfolding get new none_value reserved_codec
get-new codec reserved raw value (pos, le) same = (
  rw (mask64-pow codec.bits le) (bit_and_mask codec.bits raw),
  ap (λ v. if codec.to_raw value == reserved then none else some v) same,
  rw ((==_iff reserved reserved).1 refl) refl,
)
