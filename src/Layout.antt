-- ===== src/Layout.antt =====
-- crates/layline-codegen/src/model/layout.rs: containers and the places of their fields. Its field
-- kinds are in Layout/Fields, and the derive's solver, which places the fields, in Layout/Solve.
pub mod Fields
pub mod Covered
pub mod Invalid
pub mod Validate
pub mod Solve
use Prim.Native.String.{String}
use layline.Prelude.{
  ℕ, ◌+◌, ◌-◌, ◌*◌, ◌%◌, ◌^◌, ◌/◌, List, [], ◌∷◌, Bool, true, false, ◌==◌, leb, ◌||◌, not,
  if◌then◌else◌, Option, none, some,
}
use layline.Table.{StatedUnit, bit, byte, unit_bits}
use Fields.{
  Field, Kind, scalar, codec, width, mul_u64, Stated, stated_at, check_plain, Place, in_units,
  off_boundary,
}

-- `a + b` on `u64`.
abbrev pub add_u64 : ℕ → ℕ → ℕ
add_u64 a b = (a + b) % 2 ^ 64

pub data Endian : Type 0 where
  le be : Endian

pub data BitOrder : Type 0 where
  lsb msb : BitOrder

pub data Container : Type 0 where
  word :
      (bits prefix : ℕ) (prefix_value : Option ℕ) (endian : Endian) (order : BitOrder) → Container
  in_bytes : (bytes : ℕ) (endian : Endian) → Container
  in_words : (words : ℕ) (endian : Endian) (order : BitOrder) → Container

pub data SizeUnit : Type 0 where
  bits bytes words : SizeUnit

-- `Container::unit` and `units`.
unfoldable pub unit : Container → SizeUnit
unit (word _ _ _ _ _) = bits
unit (in_bytes _ _) = bytes
unit (in_words _ _ _) = words

unfoldable pub units : Container → ℕ
units (word n _ _ _ _) = n
units (in_bytes n _) = n
units (in_words n _ _) = n

-- `order`, and `is_bit_addressed`.
unfoldable pub order : Container → Option BitOrder
order (word _ _ _ _ o) = some o
order (in_bytes _ _) = none
order (in_words _ _ o) = some o

unfoldable pub is_bit_addressed : Container → Bool
is_bit_addressed (in_bytes _ _) = false
is_bit_addressed _ = true

-- `Container::bits`, `prefix` and `field_bits`.
unfoldable pub container_bits : Container → ℕ
container_bits (word n _ _ _ _) = n
container_bits (in_bytes n _) = mul_u64 n 8
container_bits (in_words n _ _) = mul_u64 n 16

unfoldable pub prefix : Container → ℕ
prefix (word _ p _ _ _) = p
prefix _ = 0

unfoldable pub field_bits : Container → ℕ
unfolding container_bits
field_bits (word n p _ _ _) = n - p
field_bits c = container_bits c

-- `region_bits` and `region_start`.
unfoldable pub region_bits : Container → ℕ → ℕ
region_bits (word n _ _ _ _) w = n
region_bits (in_words _ _ _) w = 16
region_bits (in_bytes _ _) w = w

unfoldable pub region_start : Container → ℕ → ℕ
region_start (word _ _ _ _ _) start = 0
region_start (in_words _ _ _) start = start - start % 16
region_start (in_bytes _ _) start = start

-- `interior_boundary`.
unfoldable pub interior_boundary : Container → Option ℕ
interior_boundary (in_words _ _ _) = some 16
interior_boundary _ = none

-- The kinds that `physical` mirrors under `order = msb`.
unfoldable pub is_packed : Kind → Bool
is_packed (scalar _) = true
is_packed (codec _ _) = true
is_packed _ = false

abbrev is_lsb : BitOrder → Bool
is_lsb lsb = true
is_lsb msb = false

-- `physical` in regions of a given size; `region.saturating_sub(..)` is a subtraction of numbers.
unfoldable pub physical_in : ℕ → BitOrder → Kind → ℕ → ℕ
unfolding is_packed width
physical_in region o kind start =
    let base = start - start % region in
    if is_lsb o || not (is_packed kind) || (region == 0)
    then start
    else add_u64 base (region - add_u64 (start - base) (width kind))

-- `Container::physical`.
unfoldable pub physical : Container → Kind → ℕ → ℕ
unfolding physical_in
physical (word n _ _ _ o) kind start = physical_in n o kind start
physical (in_words _ _ o) kind start = physical_in 16 o kind start
physical (in_bytes _ _) kind start = start

-- `place`.
unfoldable pub place : StatedUnit → ℕ → Place
unfolding unit_bits
place unit n =
    if n % unit_bits unit == 0 then in_units unit (n / unit_bits unit) else off_boundary n

-- What `check_stated` says of a position that is not the declared one.
pub data Lands : Type 0 where
  is_physical : Place → Lands
  does_not_fit : (region : ℕ) → Lands

pub data Misplaced : Type 0 where
  plain : Place → Misplaced
  mirrored : (lands : Lands) (placed declared : Place) → Misplaced

abbrev is_msb : Container → Bool
is_msb (word _ _ _ _ msb) = true
is_msb (in_words _ _ msb) = true
is_msb _ = false

-- `check_stated`, without a result where it accepts.
unfoldable pub check_stated : Container → Kind → Stated → ℕ → Option Misplaced
unfolding region_bits region_start place physical
check_stated c kind stated declared =
    let claimed = stated_at stated in
    let region = region_bits c (width kind) in
    let lands =
      if leb (add_u64 claimed (width kind)) (add_u64 (region_start c claimed) region)
      then is_physical (place stated.unit (physical c kind claimed))
      else does_not_fit region in
    if not (is_msb c)
    then (elim (check_plain stated declared) [ none ↦ none | some p ↦ some (plain p) ])
    else (if claimed == declared
        then none
        else some (
            mirrored lands (place stated.unit (physical c kind declared))
              (place stated.unit declared)))

-- `Positioned`, and `positioned`, from bit `at` on.
pub record Positioned : Type 0 where
  pub field : Field
  pub declared : ℕ
  pub phys_bit : ℕ

unfoldable pub positioned_from : Container → ℕ → List Field → List Positioned
positioned_from c at [] = []
positioned_from c at (f ∷ fs) =
    record { field = f; declared = at; phys_bit = physical c f.kind at }
    ∷ positioned_from c (add_u64 at (width f.kind)) fs

unfoldable pub positioned : List Field → Container → List Positioned
unfolding positioned_from
positioned fields c = positioned_from c (prefix c) fields
