-- ===== src/Segment/Leading.antt =====
-- The rows of a table of crates/layline-core/src/segment.rs whose place and width it fixes, up to the
-- first that is not so, by `SegmentDef::is_fixed`.
use layline.Prelude.{
  ℕ, List, [], ◌∷◌, ◌++◌, Bool, true, false, if◌then◌else◌, Option, none, some, ◌≡◌, refl, inl, inr,
  Bool-cases, ap,
}
use layline.Layout.{add_u64}
use layline.Segment.{SegmentDef, start_bit, extent_bits, is_fixed}

abbrev pub leading : List SegmentDef → List SegmentDef
leading [] = []
leading (row ∷ rows) = if is_fixed row then row ∷ leading rows else []

abbrev pub beyond : List SegmentDef → List SegmentDef
beyond [] = []
beyond (row ∷ rows) = if is_fixed row then beyond rows else row ∷ rows

pub leading-beyond : (rows : List SegmentDef) → leading rows ++ beyond rows ≡ rows
leading-beyond [] = refl
leading-beyond (row ∷ rows) = elim (Bool-cases (is_fixed row)) [
  | inl fixed ↦ rw fixed (ap (λ (l : List SegmentDef). row ∷ l) (leading-beyond rows))
  | inr loose ↦ rw loose
]

-- Where a row starts and how wide it is, with 0 for what is read from the wire.
abbrev pub or_zero : Option ℕ → ℕ
or_zero none = 0
or_zero (some n) = n

abbrev pub row_end : SegmentDef → ℕ
row_end row = add_u64 (or_zero (start_bit row.start)) (or_zero (extent_bits row))

pub row_end-fixed :
    (row : SegmentDef) (start width : ℕ)
    → start_bit row.start ≡ some start
    → extent_bits row ≡ some width
    → row_end row ≡ add_u64 start width
row_end-fixed row start width es ew = λ i. add_u64 (or_zero (es i)) (or_zero (ew i))

-- The end of the last row, or `at` where there is none.
abbrev pub last_end : ℕ → List SegmentDef → ℕ
last_end at [] = at
last_end at (row ∷ rows) = last_end (row_end row) rows

-- A row that is not fixed has its start, or its width or presence, from the wire.
pub data IsFixed (row : SegmentDef) : Bool → Type 0 where
  fixed_at :
      (start width : ℕ)
      → start_bit row.start ≡ some start
      → extent_bits row ≡ some width
      → IsFixed row true
  no_start : start_bit row.start ≡ none → IsFixed row false
  no_width :
      (start : ℕ) → start_bit row.start ≡ some start → extent_bits row ≡ none → IsFixed row false

pub is_fixed-IsFixed : (row : SegmentDef) → IsFixed row (is_fixed row)
unfolding is_fixed
is_fixed-IsFixed row = cases (start_bit row.start) (extent_bits row) refl refl
  where
    cases :
        (start width : Option ℕ)
        → start_bit row.start ≡ start
        → extent_bits row ≡ width
        → IsFixed row (is_fixed row)
    cases none width es ew = rw es (no_start es)
    cases (some start) none es ew = rw (es, ew) (no_width start es ew)
    cases (some start) (some width) es ew = rw (es, ew) (fixed_at start width es ew)
