-- ===== src/Layout/Fields.antt =====
-- crates/layline-codegen/src/model/field.rs and coverage.rs: the fields of a layout and their widths.
use Prim.Native.String.{String}
use layline.Prelude.{
  ℕ, ◌*◌, ◌/◌, ◌%◌, ◌^◌, List, [], ◌∷◌, Bool, true, false, ◌==◌, ◌&&◌, not, if◌then◌else◌, Option,
  none, some,
}
use layline.Prelude.Int.{ℤ}
use layline.Table.{StatedUnit, bit, byte, unit_bits}

-- `a * b` on `u64` and on `usize` of 64 bits.
abbrev pub mul_u64 : ℕ → ℕ → ℕ
mul_u64 a b = a * b % 2 ^ 64

-- `Stated`, an `#[at]` position.
pub record Stated : Type 0 where
  pub unit : StatedUnit
  pub pos : ℕ

unfoldable pub stated_at : Stated → ℕ
unfolding unit_bits
stated_at s = mul_u64 s.pos (unit_bits s.unit)

-- `Stated::published`.
unfoldable pub published : Stated → ℕ → Stated
unfolding unit_bits
published s physical =
    if physical % unit_bits s.unit == 0
    then (record { unit = s.unit; pos = physical / unit_bits s.unit })
    else (record { unit = bit; pos = physical })

-- A position in a diagnostic: `<unit> <n>`, or a bit that is not on a byte boundary.
pub data Place : Type 0 where
  in_units : StatedUnit → ℕ → Place
  off_boundary : ℕ → Place

-- Where `Stated::check` says that the field stands, if that is not where it is stated.
unfoldable pub check_plain : Stated → ℕ → Option Place
unfolding stated_at unit_bits
check_plain s at =
    if stated_at s == at
    then none
    else (if is_byte s.unit && not (at % 8 == 0)
        then some (off_boundary at)
        else some (in_units s.unit (at / unit_bits s.unit)))
  where
    is_byte : StatedUnit → Bool
    is_byte byte = true
    is_byte bit = false

pub data Scalar : Type 0 where
  u i : ℕ → Scalar
  f32 f64 bool byte_bool : Scalar

-- `Scalar::bits`.
unfoldable pub scalar_bits : Scalar → ℕ
scalar_bits (u n) = n
scalar_bits (i n) = n
scalar_bits f32 = 32
scalar_bits f64 = 64
scalar_bits bool = 1
scalar_bits byte_bool = 8

-- `By`: `field * scale + offset`.
pub record By : Type 0 where
  pub field : String
  pub scale : ℕ
  pub offset : ℤ

pub data Len : Type 0 where
  bytes : ℕ → Len
  field : (by : By) (cap align : Option ℕ) → Len
  until : (terminator : ℕ) → Len
  fill : Len

pub data CoverFrom : Type 0 where
  start : CoverFrom
  from_field : String → CoverFrom

pub data CoverTo : Type 0 where
  here : CoverTo
  before after : String → CoverTo

pub record Coverage : Type 0 where
  pub from : CoverFrom
  pub to : CoverTo

pub data Kind : Type 0 where
  scalar : Scalar → Kind
  array : Scalar → List ℕ → Kind
  codec : (ty : String) (bits : ℕ) → Kind
  nested : (ty : String) (bytes : ℕ) → Kind
  nested_array : (ty : String) (bytes len : ℕ) → Kind
  var : (ty : String) → Kind
  msg : (ty : String) (boxed : Bool) (with_fields : List String) → Kind
  checksum : (repr : Scalar) (algorithm : String) (over : Coverage) → Kind
  text : Len → (codec : Option String) → Kind

-- `iter().product::<usize>()`.
unfoldable pub product : List ℕ → ℕ
product [] = 1
product (d ∷ ds) = mul_u64 d (product ds)

-- `Kind::bits`, and `Kind::width`.
unfoldable pub kind_bits : Kind → Option ℕ
unfolding scalar_bits product
kind_bits (scalar s) = some (scalar_bits s)
kind_bits (array s dims) = some (mul_u64 (scalar_bits s) (product dims))
kind_bits (codec ty n) = some n
kind_bits (nested ty size) = some (mul_u64 size 8)
kind_bits (nested_array ty size len) = some (mul_u64 (mul_u64 size len) 8)
kind_bits (var ty) = none
kind_bits (msg ty boxed with_fields) = none
kind_bits (checksum repr algorithm over) = some (scalar_bits repr)
kind_bits (text (bytes n) _) = some (mul_u64 n 8)
kind_bits (text _ _) = none

unfoldable pub width : Kind → ℕ
unfolding kind_bits
width k = elim (kind_bits k) [ some n ↦ n | none ↦ 0 ]

-- `Kind::is_integer`.
unfoldable pub is_integer : Kind → Bool
is_integer (scalar (u _)) = true
is_integer (scalar (i _)) = true
is_integer (var _) = true
is_integer (codec _ _) = true
is_integer _ = false

-- `Range`, the bounds of a `#[range]`.
pub record Range : Type 0 where
  pub lo : Option ℤ
  pub hi : Option ℤ

-- `Field`, without its documentation and its mark as spare, which no check reads.
pub record Field : Type 0 where
  pub name : String
  pub kind : Kind
  pub stated : Option Stated
  pub magic : Option (List ℕ)
  pub range : Option Range
  pub visibility : Option String
