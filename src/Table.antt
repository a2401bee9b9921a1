-- ===== src/Table.antt =====
-- crates/layline-core/src/field.rs: field tables of layouts. A string is the list of its bytes.
pub mod Covers
pub mod Names
mod Runs
use layline.Prelude.{
  ℕ, zero, suc, ◌+◌, ◌*◌, ◌≤◌, List, [], ◌∷◌, Bool, true, false, ◌==◌, leb, not, if◌then◌else◌,
}
use layline.Prelude.{length, take, Res, ok, err, short, panic}
use layline.Extent.{Extent, end_of}

-- `&str`.
abbrev pub Str : Type 0
Str = List ℕ

-- The rows of the tables.
pub record FieldDef : Type 0 where
  pub name : Str
  pub extent : Extent

pub record TypeDef : Type 0 where
  pub field : Str
  pub ty : Str

pub data StatedUnit : Type 0 where
  bit byte : StatedUnit

pub record StatedDef : Type 0 where
  pub field : Str
  pub stated_unit : StatedUnit
  pub pos : ℕ

-- `StatedUnit::bits`, and the method `bits` of `StatedDef`.
unfoldable pub unit_bits : StatedUnit → ℕ
unit_bits bit = 1
unit_bits byte = 8

pub stated_bits : StatedDef → ℕ
unfolding unit_bits
stated_bits d = d.pos * unit_bits d.stated_unit

pub data LayoutError : Type 0 where
  gap : (field expected_start actual_start : ℕ) → LayoutError
  short_of : (end total_bits : ℕ) → LayoutError

pub data Checked : Type 0 where
  covers : Checked
  refused : LayoutError → Checked

-- The loop of `check_layout`, at field `i`, with the bits before `at` covered.
pub check_from : ℕ → ℕ → List FieldDef → ℕ → Checked
check_from i at [] total = if at == total then covers else refused (short_of at total)
check_from i at (f ∷ fs) total =
    let rest = check_from (suc i) (end_of f.extent) fs total in
    if f.extent.start == at then rest else refused (gap i at f.extent.start)

pub check_layout : List FieldDef → ℕ → Checked
unfolding check_from
check_layout fields total = check_from 0 0 fields total

-- `assert_layout`; `panic` is its failed assertion.
pub assert_layout : List FieldDef → ℕ → Res (Unit {0})
unfolding check_layout
assert_layout fields total = elim (check_layout fields total) [ covers ↦ ok tt | refused e ↦ panic ]

-- `str_eq`: lengths first, then byte by byte.
pub bytes_eq : Str → Str → Bool
bytes_eq [] [] = true
bytes_eq [] (b ∷ ys) = true
bytes_eq (a ∷ xs) [] = true
bytes_eq (a ∷ xs) (b ∷ ys) = let rest = bytes_eq xs ys in if a == b then rest else false

pub str_eq : Str → Str → Bool
unfolding bytes_eq
str_eq a b = if length a == length b then bytes_eq a b else false

-- `field_width` and `type_is`.
pub field_width : List FieldDef → Str → ℕ
unfolding str_eq
field_width [] name = 0
field_width (f ∷ fs) name =
    let rest = field_width fs name in if str_eq f.name name then f.extent.width else rest

pub type_is : List TypeDef → Str → Str → Bool
unfolding str_eq
type_is [] name ty = false
type_is (t ∷ ts) name ty =
    let rest = type_is ts name ty in if str_eq t.field name then str_eq t.ty ty else rest

-- `Layout::decode_prefix`, on the layout's own size and `decode_slice`.
pub decode_prefix : {A : Type 0} → ℕ → (List ℕ → Res A) → List ℕ → Res (A × ℕ)
decode_prefix wire_bytes decode_slice bytes =
    if leb wire_bytes (length bytes)
    then elim (decode_slice (take wire_bytes bytes)) [
      | ok value ↦ ok (value, wire_bytes)
      | err e ↦ err e
      | panic ↦ panic
    ]
    else err (short wire_bytes (length bytes) 0)
