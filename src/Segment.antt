-- ===== src/Segment.antt =====
-- crates/layline-core/src/segment.rs: segment tables of messages, and what they fix before a decode.
pub mod Leading
pub mod Fixed
pub mod Arms
mod Runs
use layline.Prelude.{
  ℕ, zero, ◌+◌, ◌≤◌, List, [], ◌∷◌, Bool, true, false, ◌==◌, leb, not, ◌&&◌, if◌then◌else◌, Option,
  none, some,
}
use layline.Prelude.Int.{ℤ, pos}
use layline.Layout.{add_u64}
use layline.Table.{Str, FieldDef}

pub data Start : Type 0 where
  at_bit : ℕ → Start
  after : (segment : Str) (bits : ℕ) → Start
  seek : (by : Str) → Start

-- `Start::bit`.
pub start_bit : Start → Option ℕ
start_bit (at_bit bit) = some bit
start_bit (after segment bits) = none
start_bit (seek by) = none

pub record By : Type 0 where
  pub field : Str
  pub scale : ℕ
  pub offset : ℤ

-- `By::field`.
pub by_field : Str → By
by_field field = record { field = field; scale = 1; offset = pos 0 }

pub data Discriminant : Type 0 where
  field_value : Str → Discriminant
  body_length : Discriminant

pub data Span : Type 0 where
  terminated : (mask : ℕ) → Span
  fixed : ℕ → Span
  counted : (by : By) (each : Option ℕ) → Span
  squared : (by : By) (each : Option ℕ) → Span
  strided : (by stride : By) → Span
  window : (by : By) → Span
  self_delimiting : Span
  until : (terminator : ℕ) → Span
  fill : (cap : Option ℕ) → Span
  chosen : (on : Discriminant) → Span
  chosen_in : (on : Discriminant) (bits : ℕ) → Span
  pad : (align : ℕ) → Span
  chosen_within : (on : Discriminant) (by : By) → Span

-- `Span::bits`.
pub span_bits : Span → Option ℕ
span_bits (fixed bits) = some bits
span_bits (chosen_in on bits) = some bits
span_bits (terminated mask) = none
span_bits (counted by each) = none
span_bits (squared by each) = none
span_bits (strided by stride) = none
span_bits (window by) = none
span_bits self_delimiting = none
span_bits (until terminator) = none
span_bits (fill cap) = none
span_bits (chosen on) = none
span_bits (pad align) = none
span_bits (chosen_within on by) = none

-- `matches!(span, Span::Fill { .. })`.
pub is_fill : Span → Bool
is_fill (fill cap) = true
is_fill (terminated mask) = false
is_fill (fixed bits) = false
is_fill (counted by each) = false
is_fill (squared by each) = false
is_fill (strided by stride) = false
is_fill (window by) = false
is_fill self_delimiting = false
is_fill (until terminator) = false
is_fill (chosen on) = false
is_fill (chosen_in on bits) = false
is_fill (pad align) = false
is_fill (chosen_within on by) = false

pub data Presence : Type 0 where
  flag : (field : Str) (mask : ℕ) → Presence
  clear : (field : Str) (mask : ℕ) → Presence
  offset : Presence
  bit_before : Presence
  remaining : Presence
  byte_length : (by : Str) → Presence

pub record SegmentDef : Type 0 where
  pub name : Str
  pub start : Start
  pub span : Span
  pub when_present : Option Presence
  pub decoded_by : Option Str
  pub fields : List FieldDef

-- `SegmentDef::extent` and `is_fixed`.
pub extent_bits : SegmentDef → Option ℕ
unfolding span_bits
extent_bits row = elim row.when_present [ some p ↦ none | none ↦ span_bits row.span ]

pub is_fixed : SegmentDef → Bool
unfolding start_bit extent_bits
is_fixed row = is_some (start_bit row.start) && is_some (extent_bits row)
  where
    is_some : Option ℕ → Bool
    is_some none = false
    is_some (some b) = true

pub data CoverEdge : Type 0 where
  body_start : CoverEdge
  before_row : Str → CoverEdge
  after_row : Str → CoverEdge

pub record CoverDef : Type 0 where
  pub field : Str
  pub from : CoverEdge
  pub to : CoverEdge
  pub excludes_self : Bool

pub record ArmDef : Type 0 where
  pub name : Str
  pub value : Option ℤ
  pub segments : List SegmentDef

-- The loop of `fixed_bits`, by a row's start and extent.
pub fixed_from : ℕ → List SegmentDef → ℕ
unfolding start_bit extent_bits
fixed_from at [] = at
fixed_from at (row ∷ rows) = elim (start_bit row.start) [
  | none ↦ at
  | some start ↦ elim (extent_bits row) [
    | none ↦ start
    | some bits ↦ fixed_from (add_u64 start bits) rows
  ]
]

pub fixed_bits : List SegmentDef → ℕ
unfolding fixed_from
fixed_bits segments = fixed_from 0 segments

-- The loop of `arm_fits`.
pub arm_fits_from : ℕ → List SegmentDef → ℕ → Bool
unfolding start_bit span_bits is_fill
arm_fits_from at [] bits = at == bits
arm_fits_from at (row ∷ rows) bits = elim (start_bit row.start) [
  | none ↦ true
  | some start ↦ elim row.when_present [
    | some p ↦ true
    | none ↦ elim (is_fill row.span) [
      | true ↦ leb start bits
      | false ↦ elim (span_bits row.span) [
        | none ↦ true
        | some width ↦ arm_fits_from (add_u64 start width) rows bits
      ]
    ]
  ]
]

pub arm_fits : List SegmentDef → ℕ → Bool
unfolding arm_fits_from
arm_fits rows bits = arm_fits_from 0 rows bits

pub arms_fit : List ArmDef → ℕ → Bool
unfolding arm_fits
arms_fit [] bits = true
arms_fit (arm ∷ arms) bits = if not (arm_fits arm.segments bits) then false else arms_fit arms bits
