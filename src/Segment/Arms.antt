-- ===== src/Segment/Arms.antt =====
-- `arms_fit` of crates/layline-core/src/segment.rs on every catalogue.
use layline.Prelude.{
  ℕ, ◌≤◌, List, [], ◌∷◌, Bool, none, some, true, false, not, ◌&&◌, if◌then◌else◌, Option,
}
use layline.Prelude.{
  ◌≡◌, refl, ap, sym, ◌∙◌, ◌⊎◌, ◌↔◌, inl, inr, All, leb→le, le→leb, ==_iff, Bool-cases, arith,
}
use layline.Layout.{add_u64}
use layline.Segment.{
  SegmentDef, Span, fixed, chosen_in, terminated, counted, squared, strided, window,
  self_delimiting, until, fill, chosen, pad, chosen_within, Presence, ArmDef, start_bit, span_bits,
  extent_bits, is_fill, is_fixed, arm_fits_from, arm_fits, arms_fit,
}
use layline.Segment.Leading.{
  leading, beyond, or_zero, row_end, row_end-fixed, last_end, IsFixed, fixed_at, no_start, no_width,
  is_fixed-IsFixed,
}

-- A row that is always there and takes what is left.
abbrev always_there : Option Presence → Bool
always_there none = true
always_there (some present) = false

abbrev pub takes_rest : SegmentDef → Bool
takes_rest row = always_there row.when_present && is_fill row.span

-- What stands behind the fixed rows, which end at bit `to`: nothing, where the container ends there
-- too; or a row, which starts in the container if it takes what is left.
abbrev pub FitsBehind : ℕ → List SegmentDef → ℕ → Type 0
FitsBehind bits [] to = to ≡ bits
FitsBehind bits (row ∷ rows) to = (takes_rest row ≡ false) ⊎ (or_zero (start_bit row.start) ≤ bits)

fill-no_bits : (span : Span) → is_fill span ≡ true → span_bits span ≡ none
unfolding is_fill span_bits
fill-no_bits (fill cap) e = refl
fill-no_bits (fixed bits) e = absurd cc
fill-no_bits (chosen_in on bits) e = absurd cc
fill-no_bits (terminated mask) e = absurd cc
fill-no_bits (counted by each) e = absurd cc
fill-no_bits (squared by each) e = absurd cc
fill-no_bits (strided by stride) e = absurd cc
fill-no_bits (window by) e = absurd cc
fill-no_bits self_delimiting e = absurd cc
fill-no_bits (until t) e = absurd cc
fill-no_bits (chosen on) e = absurd cc
fill-no_bits (pad align) e = absurd cc
fill-no_bits (chosen_within on by) e = absurd cc

-- A fixed row is always there and takes a width that is its own.
fixed-parts :
    (row : SegmentDef) (width : ℕ)
    → extent_bits row ≡ some width
    → (row.when_present ≡ none) × (span_bits row.span ≡ some width) × (is_fill row.span ≡ false)
unfolding extent_bits
fixed-parts row width e = cases row.when_present refl
  where
    sized : span_bits row.span ≡ some width → is_fill row.span ≡ false
    sized b = elim (Bool-cases (is_fill row.span)) [
      | inl filling ↦ absurd (let none_there = fill-no_bits row.span filling in cc)
      | inr plain ↦ plain
    ]

    cases :
        (present : Option Presence)
        → row.when_present ≡ present
        → (row.when_present ≡ none) × (span_bits row.span ≡ some width) × (is_fill row.span ≡ false)
    cases (some p) ep = absurd (let e' = rw ep at e in cc)
    cases none ep = let e' = rw ep at e in (ep, e', sized e')

unsized_of :
    (row : SegmentDef)
    → row.when_present ≡ none
    → extent_bits row ≡ none
    → span_bits row.span ≡ none
unfolding extent_bits
unsized_of row ep ew = rw ep at ew

arm_fits_from-leading :
    (at : ℕ) (rows : List SegmentDef) (bits : ℕ)
    → (arm_fits_from at rows bits ≡ true)
      ↔ FitsBehind bits (beyond rows) (last_end at (leading rows))
unfolding arm_fits_from
arm_fits_from-leading at [] bits = ==_iff at bits
arm_fits_from-leading at (row ∷ rows) bits =
    cases (is_fixed row) (is_fixed-IsFixed row) (λ next. arm_fits_from-leading next rows bits)
  where
    behind :
        (start : ℕ)
        → start_bit row.start ≡ some start
        → (present : Option Presence) → row.when_present ≡ present
        → (filling : Bool) → is_fill row.span ≡ filling
        → extent_bits row ≡ none
        → (arm_fits_from at (row ∷ rows) bits ≡ true)
          ↔ ((takes_rest row ≡ false) ⊎ (or_zero (start_bit row.start) ≤ bits))
    behind start es (some p) ep filling ef ew =
        rw (arm_fits_from, es, ep) (λ h. inl refl, λ h. refl)
    behind start es none ep true ef ew =
        rw (arm_fits_from, es, ep, ef)
          (
            λ h. inr (leb→le start bits h),
            λ h. elim h [ inl no_rest ↦ absurd cc | inr le ↦ le→leb start bits le ],
          )
    behind start es none ep false ef ew =
        let unsized : span_bits row.span ≡ none = unsized_of row ep ew in
        rw (arm_fits_from, es, ep, ef, unsized) (λ h. inl refl, λ h. refl)

    cases :
        (fixed : Bool)
        → IsFixed row fixed
        → ((next : ℕ)
            → (arm_fits_from next rows bits ≡ true)
              ↔ FitsBehind bits (beyond rows) (last_end next (leading rows)))
        → (arm_fits_from at (row ∷ rows) bits ≡ true)
          ↔ FitsBehind bits
              (if fixed then beyond rows else row ∷ rows)
              (last_end at (if fixed then row ∷ leading rows else []))
    cases true (fixed_at start width es ew) more =
        let (there, sized, plain) = fixed-parts row width ew in
        let size = row_end-fixed row start width es ew in
        let step : arm_fits_from at (row ∷ rows) bits
            ≡ arm_fits_from (add_u64 start width) rows bits =
          rw (arm_fits_from, es, there, plain, sized) in
        let whole = step ∙ ap (λ (k : ℕ). arm_fits_from k rows bits) (sym size) in
        rw whole (more (row_end row))
    cases false (no_start es) more = rw (arm_fits_from, es) (λ h. inr (omega arith), λ h. refl)
    cases false (no_width start es ew) more =
        behind start es row.when_present refl (is_fill row.span) refl ew

abbrev pub Fits : ℕ → ArmDef → Type 0
Fits bits arm = FitsBehind bits (beyond arm.segments) (last_end 0 (leading arm.segments))

-- `arms_fit` holds exactly when each arm fits: where the table fixes all the rows of the arm, the last
-- one ends where the container does; where the first row that it does not fix is always there and
-- takes what is left, that row starts in the container, or at a place read from the wire; and every
-- other arm fits. The end of a row wraps around at 64 bits.
pub arms_fit_iff :
    (arms : List ArmDef) (bits : ℕ) → (arms_fit arms bits ≡ true) ↔ All (Fits bits) arms
unfolding arms_fit arm_fits
arms_fit_iff [] bits = (λ e. tt, λ e. refl)
arms_fit_iff (arm ∷ arms) bits =
    both (arms_fit_iff arms bits) (arm_fits_from-leading 0 arm.segments bits)
      (Bool-cases (arm_fits_from 0 arm.segments bits))
  where
    both :
        (arms_fit arms bits ≡ true) ↔ All (Fits bits) arms
        → (arm_fits_from 0 arm.segments bits ≡ true) ↔ Fits bits arm
        → (arm_fits_from 0 arm.segments bits ≡ true) ⊎ (arm_fits_from 0 arm.segments bits ≡ false)
        → ((if not (arm_fits_from 0 arm.segments bits) then false else arms_fit arms bits) ≡ true)
          ↔ Fits bits arm × All (Fits bits) arms
    both more one (inl fit) = rw fit (λ h. (one.0 fit, more.0 h), λ h. more.1 h.1)
    both more one (inr wide) =
        rw wide
          (λ h. absurd (let e : false ≡ true = h in cc), λ h. absurd (let e = one.1 h.0 in cc))
