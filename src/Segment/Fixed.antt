-- ===== src/Segment/Fixed.antt =====
-- `fixed_bits` of crates/layline-core/src/segment.rs on every table.
use layline.Prelude.{
  ℕ, List, [], ◌∷◌, Bool, true, false, if◌then◌else◌, none, some, ◌≡◌, refl, ap, sym, ◌∙◌,
}
use layline.Layout.{add_u64}
use layline.Segment.{SegmentDef, start_bit, is_fixed, fixed_from, fixed_bits}
use layline.Segment.Leading.{
  leading, beyond, row_end, row_end-fixed, last_end, IsFixed, fixed_at, no_start, no_width,
  is_fixed-IsFixed,
}

-- The start of the first row, if it has one that the table fixes, or the end of the rows before it.
abbrev pub first_start : List SegmentDef → ℕ → ℕ
first_start [] to = to
first_start (row ∷ rows) to = elim (start_bit row.start) [ none ↦ to | some start ↦ start ]

fixed_from-leading :
    (at : ℕ) (rows : List SegmentDef)
    → fixed_from at rows ≡ first_start (beyond rows) (last_end at (leading rows))
unfolding fixed_from
fixed_from-leading at [] = refl
fixed_from-leading at (row ∷ rows) =
    cases (is_fixed row) (is_fixed-IsFixed row) (λ next. fixed_from-leading next rows)
  where
    cases :
        (fixed : Bool)
        → IsFixed row fixed
        → ((next : ℕ)
            → fixed_from next rows ≡ first_start (beyond rows) (last_end next (leading rows)))
        → fixed_from at (row ∷ rows)
          ≡ first_start
              (if fixed then beyond rows else row ∷ rows)
              (last_end at (if fixed then row ∷ leading rows else []))
    cases true (fixed_at start width es ew) more =
        let size = row_end-fixed row start width es ew in
        let step : fixed_from at (row ∷ rows) ≡ fixed_from (add_u64 start width) rows =
          rw (fixed_from, es, ew) in
        step ∙ ap (λ (k : ℕ). fixed_from k rows) (sym size) ∙ more (row_end row)
    cases false (no_start es) more = rw (fixed_from, first_start, es)
    cases false (no_width start es ew) more = rw (fixed_from, first_start, es, ew)

-- On every table, `fixed_bits` is the start of the first row that `is_fixed` does not hold of; where
-- the table does not fix that start, or there is no such row, it is the end of the last row before,
-- or 0 if there is none. The end of a row wraps around at 64 bits.
pub fixed_bits_lem :
    (rows : List SegmentDef)
    → fixed_bits rows ≡ first_start (beyond rows) (last_end 0 (leading rows))
unfolding fixed_bits
fixed_bits_lem rows = fixed_from-leading 0 rows
