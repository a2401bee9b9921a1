-- ===== src/Segment/Runs.antt =====
-- Segment tables of crates/layline-core/src/segment.rs at concrete inputs.
use layline.Prelude.{List, [], ◌∷◌, none, some, ◌≡◌, refl, true, ◌↔◌, All}
use layline.Segment.{
  Start, at_bit, Span, fixed, counted, fill, by_field, SegmentDef, ArmDef, fixed_bits, arms_fit,
  start_bit, extent_bits, bit_before,
}
use layline.Segment.Leading.{leading, beyond, last_end}
use layline.Segment.Fixed.{first_start, fixed_bits_lem}
use layline.Segment.Arms.{Fits, arms_fit_iff}

abbrev row : Start → Span → SegmentDef
row start span = record {
  name = 114 ∷ [];
  start = start;
  span = span;
  when_present = none;
  decoded_by = none;
  fields = [];
}

abbrev block : SegmentDef
block = row (at_bit 0) (fixed 64)

abbrev items : SegmentDef
items = row (at_bit 64) (counted (by_field (99 ∷ [])) (some 32))

abbrev tail : SegmentDef
tail = row (at_bit 64) (fill none)

fixed_bits_lem_example :
    fixed_bits (block ∷ items ∷ [])
    ≡ first_start (beyond (block ∷ items ∷ [])) (last_end 0 (leading (block ∷ items ∷ [])))
fixed_bits_lem_example = fixed_bits_lem (block ∷ items ∷ [])

-- The example of the documentation, and a row behind its presence bit, which no row holds.
block_then_items : fixed_bits (block ∷ items ∷ []) ≡ 64
unfolding fixed_bits start_bit extent_bits
block_then_items = refl

presence_bit :
    fixed_bits (
      row (at_bit 0) (fixed 5)
      ∷ record (row (at_bit 6) (fixed 16)) { when_present = some bit_before }
      ∷ [])
    ≡ 6
unfolding fixed_bits start_bit extent_bits
presence_bit = refl

abbrev two_arms : List ArmDef
two_arms =
    record { name = 97 ∷ []; value = none; segments = block ∷ [] }
    ∷ record { name = 98 ∷ []; value = none; segments = block ∷ (tail ∷ []) }
    ∷ []

arms_fit_iff_example : (arms_fit two_arms 64 ≡ true) ↔ All (Fits 64) two_arms
arms_fit_iff_example = arms_fit_iff two_arms 64

two_arms_fit : arms_fit two_arms 64 ≡ true
unfolding arms_fit
two_arms_fit = refl
