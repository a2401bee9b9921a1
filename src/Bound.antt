-- ===== src/Bound.antt =====
-- crates/layline-core/src/bound.rs: integers read from the wire, and whether one fits a field.
pub mod Fits
mod Runs
use layline.Prelude.{
  ℕ, zero, suc, ◌+◌, ◌*◌, ◌-◌, ◌/◌, ◌%◌, ◌^◌, min, Bool, true, false, not, leb, ltb, ◌==◌, ◌&&◌,
  ◌||◌, if◌then◌else◌, bit_and, bit_or,
}
use layline.Prelude.Int.{ℤ, pos, negsuc, as_u64, as_i64}
use layline.Extent.{mask64}
use layline.Int.{sign_extend}

-- `WireInt`, with the values of the type as a type.
pub record WireInt (T : Type 0) : Type 0 where
  pub to_i64 : T → ℤ
  pub from_i64 : ℤ → T

-- The primitives of `bits` bits: a value of an unsigned one is its number.
pub unsigned_int : ℕ → WireInt ℕ
unsigned_int bits = record { to_i64 = λ x. as_i64 x; from_i64 = λ n. as_u64 n % 2 ^ bits }

pub signed_int : ℕ → WireInt ℤ
signed_int bits = record { to_i64 = λ x. x; from_i64 = λ n. sign_extend (as_u64 n % 2 ^ bits) bits }

-- `u64`, which saturates.
pub u64_int : WireInt ℕ
u64_int = record { to_i64 = λ x. pos (min x (2 ^ 63 - 1)); from_i64 = as_u64 }

-- `==` on `i64`, and `n < 0`.
unfoldable pub int_eq : ℤ → ℤ → Bool
int_eq (pos a) (pos b) = a == b
int_eq (pos a) (negsuc b) = false
int_eq (negsuc a) (pos b) = false
int_eq (negsuc a) (negsuc b) = a == b

pub is_negative : ℤ → Bool
is_negative (pos a) = false
is_negative (negsuc a) = true

-- What a field of `width` bits gives back of `value`.
pub stored : Bool → ℤ → ℕ → ℤ
stored signed value width =
    let mask = mask64 width in
    let raw = bit_and (as_u64 value) mask in
    if signed && (bit_and (raw / 2 ^ (width - 1)) 1 == 1)
    then as_i64 (bit_or raw (2 ^ 64 - 1 - mask))
    else as_i64 raw

pub fits_in_field : {T : Type 0} → WireInt T → ℤ → ℕ → Bool
unfolding int_eq is_negative stored
fits_in_field int value width =
    if not (int_eq (int.to_i64 (int.from_i64 value)) value)
    then false
    else (if (width == 0) || leb 64 width
        then true
        else int_eq (stored (is_negative (int.to_i64 (int.from_i64 (negsuc 0)))) value width) value)
