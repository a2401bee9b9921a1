-- ===== src/Codec.antt =====
-- crates/layline-core/src/codec.rs, and `Reserved` of num.rs: types stored in a fixed number of bits.
pub mod Laws
mod Runs
use layline.Prelude.{
  ℕ, ◌-◌, ◌^◌, Bool, true, false, not, ◌==◌, if◌then◌else◌, bit_and, Option, none, some,
}
use layline.Prelude.Int.{ℤ}
use layline.Extent.{mask64}
use layline.Int.{from_raw_u, to_raw_u, from_raw_i, to_raw_i}

pub record FieldCodec (T : Type 0) : Type 0 where
  pub bits : ℕ
  pub from_raw : ℕ → T
  pub to_raw : T → ℕ

-- `*self as u64` of a flag.
abbrev pub flag_bit : Bool → ℕ
flag_bit set = if set then 1 else 0

pub bool_codec : FieldCodec Bool
bool_codec = record { bits = 1; from_raw = λ raw. not (bit_and raw 1 == 0); to_raw = flag_bit }

-- `Nonzero<BITS>`, whose values are the flags.
pub nonzero_codec : ℕ → FieldCodec Bool
nonzero_codec bits = record { bits = bits; from_raw = λ raw. not (raw == 0); to_raw = flag_bit }

-- `U<N>` and `I<N>`.
abbrev pub u_codec : ℕ → FieldCodec ℕ
u_codec w = record { bits = w; from_raw = from_raw_u w; to_raw = to_raw_u }

abbrev pub i_codec : ℕ → FieldCodec ℤ
i_codec w = record { bits = w; from_raw = from_raw_i w; to_raw = to_raw_i w }

-- `Reserved<C, RAW>`: the raw bits, of which `RAW` stands for no value.
pub record Reserved : Type 0 where
  pub raw_bits : ℕ

module _ {C : Type 0} (codec : FieldCodec C) (reserved : ℕ) where
  -- The assertion on `RAW`.
  pub reserved_fits : Bool
  reserved_fits = bit_and reserved (2 ^ 64 - 1 - mask64 codec.bits) == 0

  pub none_value : Reserved
  none_value = record { raw_bits = reserved }

  pub new : C → Reserved
  new value = record { raw_bits = codec.to_raw value }

  pub get : Reserved → Option C
  get r = if r.raw_bits == reserved then none else some (codec.from_raw r.raw_bits)

  pub reserved_codec : FieldCodec Reserved
  reserved_codec = record {
    bits = codec.bits;
    from_raw = λ raw. record { raw_bits = bit_and raw (mask64 codec.bits) };
    to_raw = λ r. r.raw_bits;
  }
