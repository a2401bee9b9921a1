-- ===== src/Bound/Fits.antt =====
-- `fits_in_field` of crates/layline-core/src/bound.rs tells the range of a field.
use layline.Prelude.{
  ℕ, ◌+◌, ◌*◌, ◌-◌, ◌/◌, ◌%◌, ◌^◌, ◌≤◌, ◌<◌, Bool, true, false, not, leb, ltb, ◌==◌, ◌||◌,
  if◌then◌else◌, bit_and, bit_or,
}
use layline.Prelude.{
  ◌≡◌, refl, ap, sym, ◌∙◌, ◌↔◌, ◌⊎◌, inl, inr, arith, Bool-cases, ==_iff, ltb→lt, ltb→le, lt→ltb,
  le→ltb, pow_pos, div-mod, two-pow-le, div_of_sum,
}
use layline.Prelude.Int.{ℤ, pos, negsuc, IsSigned, as_u64, as_i64}
use layline.Prelude.BitOps.{bit_and_mask, bit_and_one, bit_or_fields_low}
use native.Mathlib.Nat.{mod-eq_of_lt, div-eq_of_lt}
use layline.Int.{to_raw_i}
use layline.Int.Unsigned.{IsWidth, mask64-pow}
use layline.Int.Signed.{signed, to_raw_i-low, signed-IsSigned, signed-to_raw_i, whole, double}
use layline.Bound.{WireInt, int_eq, is_negative, stored, fits_in_field}

int_eq_iff : (a b : ℤ) → (int_eq a b ≡ true) ↔ (a ≡ b)
unfolding int_eq
int_eq_iff (pos a) (pos b) = (λ h. ap pos ((==_iff a b).0 h), λ e. (==_iff a b).1 (ap number e))
  where
    number : ℤ → ℕ
    number (pos n) = n
    number (negsuc n) = n
int_eq_iff (pos a) (negsuc b) = (λ h. cc, λ e. cc)
int_eq_iff (negsuc a) (pos b) = (λ h. cc, λ e. cc)
int_eq_iff (negsuc a) (negsuc b) =
    (λ h. ap negsuc ((==_iff a b).0 h), λ e. (==_iff a b).1 (ap number e))
  where
    number : ℤ → ℕ
    number (pos n) = n
    number (negsuc n) = n

-- The integers of a field of `width` bits, of less than the width of `i64`.
abbrev pub InField : Bool → ℕ → ℤ → Type 0
InField true width v = IsSigned width v
InField false width (pos n) = n < 2 ^ width
InField false width (negsuc n) = ⊥

module _ (w : ℕ) (width : IsWidth w) (narrow : w < 64) where
  abbrev raw : ℤ → ℕ
  raw v = as_u64 v % 2 ^ w

  raw-lt : (v : ℤ) → raw v < 2 ^ w
  raw-lt v = (div-mod (as_u64 v) (2 ^ w) (pow_pos w)).1

  below_half : (r : ℕ) → r < 2 ^ w → as_i64 r ≡ pos r
  below_half r h =
      let small : r < 2 ^ 63 = omega (arith, two-pow-le w 63 (omega arith)) in
      rw (lt→ltb r (2 ^ 63) small) refl

  stored_unsigned : (v : ℤ) → stored false v w ≡ pos (raw v)
  unfolding stored
  stored_unsigned v =
      rw (mask64-pow w (width.1), bit_and_mask w (as_u64 v)) (below_half (raw v) (raw-lt v))

  low_bit : (r : ℕ) → r < 2 ^ (w - 1) → bit_and (r / 2 ^ (w - 1)) 1 ≡ 0
  low_bit r h = bit_and_one (r / 2 ^ (w - 1)) ∙ ap (λ (k : ℕ). k % 2) (div-eq_of_lt h)

  high_bit : (r : ℕ) → r < 2 ^ w → 2 ^ (w - 1) ≤ r → bit_and (r / 2 ^ (w - 1)) 1 ≡ 1
  high_bit r h le =
      let low = r - 2 ^ (w - 1) in
      let sum : r ≡ 1 * 2 ^ (w - 1) + low = omega arith in
      let small : low < 2 ^ (w - 1) = omega (arith, double w width) in
      bit_and_one (r / 2 ^ (w - 1))
      ∙ ap (λ (k : ℕ). k % 2)
          (ap (λ (k : ℕ). k / 2 ^ (w - 1)) sum ∙ div_of_sum (2 ^ (w - 1)) 1 low small)

  extended :
      (r : ℕ) → r < 2 ^ w → as_i64 (bit_or r (2 ^ 64 - 1 - (2 ^ w - 1))) ≡ negsuc (2 ^ w - 1 - r)
  extended r h =
      let s = 64 - w in
      let less : 2 ^ s - 1 + 1 ≡ 2 ^ s = omega (arith, pow_pos s) in
      let ones : 2 ^ 64 - 1 - (2 ^ w - 1) ≡ (2 ^ s - 1) * 2 ^ w =
        omega (arith, whole w width, pow_pos w, ap (λ (k : ℕ). k * 2 ^ w) less) in
      let sum = bit_or_fields_low w (2 ^ s - 1) r h in
      let wide = two-pow-le w 63 (omega arith) in
      let large : 2 ^ 63 ≤ r + (2 ^ s - 1) * 2 ^ w = omega (arith, ones, wide) in
      rw (ones, sum, le→ltb (r + (2 ^ s - 1) * 2 ^ w) (2 ^ 63) large)
        (ap negsuc (omega (arith, ones, wide)))

  stored-signed : (v : ℤ) → stored true v w ≡ signed w (raw v)
  unfolding stored
  stored-signed v =
      let r = raw v in
      let lt = raw-lt v in
      rw (mask64-pow w (width.1), bit_and_mask w (as_u64 v))
        (elim (Bool-cases (ltb r (2 ^ (w - 1)))) [
          | inl low ↦ rw (low, low_bit r (ltb→lt _ _ low)) (below_half r lt)
          | inr high ↦ rw (high, high_bit r lt (ltb→le _ _ high)) (extended r lt)
        ])

  stored_range_iff : (v : ℤ) → (stored true v w ≡ v) ↔ IsSigned w v
  stored_range_iff v =
      let read = stored-signed v in
      let same = to_raw_i-low w v width in
      let inside = signed-IsSigned w (raw v) width (raw-lt v) in
      let again : to_raw_i w v % 2 ^ w ≡ raw v =
        ap (λ (k : ℕ). k % 2 ^ w) same ∙ mod-eq_of_lt (raw-lt v) in
      (
        λ e. (let back = sym read ∙ e in rw back at inside),
        λ h. read ∙ ap (signed w) (sym again) ∙ signed-to_raw_i w width v h,
      )

  stored_unsigned_range_iff : (v : ℤ) → (stored false v w ≡ v) ↔ InField false w v
  stored_unsigned_range_iff (pos n) =
      let read = stored_unsigned (pos n) in
      let lt = raw-lt (pos n) in
      (
        λ e. (let same = ap number (sym read ∙ e) in omega (arith, same, lt)),
        λ h.
            (let whole : n % 2 ^ 64 ≡ n = omega (arith, two-pow-le w 63 (omega arith)) in
              read ∙ ap pos (ap (λ (k : ℕ). k % 2 ^ w) whole ∙ mod-eq_of_lt h)),
      )
    where
      number : ℤ → ℕ
      number (pos n) = n
      number (negsuc n) = n
  stored_unsigned_range_iff (negsuc n) =
      let read = stored_unsigned (negsuc n) in (λ e. (let same = sym read ∙ e in cc), λ h. absurd h)

  stored_iff : (sign : Bool) (v : ℤ) → (stored sign v w ≡ v) ↔ InField sign w v
  stored_iff true v = stored_range_iff v
  stored_iff false v = stored_unsigned_range_iff v

-- The integers of a field, of which 0 bits and 64 or more are the full width of the type.
abbrev pub InWidth : Bool → ℕ → ℤ → Type 0
InWidth sign width v = if (width == 0) || leb 64 width then Unit {0} else InField sign width v

-- `fits_in_field` holds exactly when the type keeps the value and the value is in the range of the
-- field: that of two's complement if the type has negative values, and that of unsigned numbers if not.
pub fits_in_field_iff :
    {T : Type 0} (int : WireInt T) (value : ℤ) (width : ℕ)
    → (fits_in_field int value width ≡ true)
      ↔ (int.to_i64 (int.from_i64 value) ≡ value)
        × InWidth (is_negative (int.to_i64 (int.from_i64 (negsuc 0)))) width value
unfolding fits_in_field
fits_in_field_iff int value width =
    both (is_negative (int.to_i64 (int.from_i64 (negsuc 0))))
      (int_eq_iff (int.to_i64 (int.from_i64 value)) value)
      (Bool-cases (int_eq (int.to_i64 (int.from_i64 value)) value))
      (Bool-cases ((width == 0) || leb 64 width))
  where
    both :
        (sign : Bool)
        → (int_eq (int.to_i64 (int.from_i64 value)) value ≡ true)
          ↔ (int.to_i64 (int.from_i64 value) ≡ value)
        → (int_eq (int.to_i64 (int.from_i64 value)) value ≡ true)
          ⊎ (int_eq (int.to_i64 (int.from_i64 value)) value ≡ false)
        → (((width == 0) || leb 64 width) ≡ true) ⊎ (((width == 0) || leb 64 width) ≡ false)
        → ((if not (int_eq (int.to_i64 (int.from_i64 value)) value)
              then false
              else (if (width == 0) || leb 64 width
                  then true
                  else int_eq (stored sign value width) value))
            ≡ true)
          ↔ (int.to_i64 (int.from_i64 value) ≡ value) × InWidth sign width value
    both sign kept (inr lost) any =
        rw lost
          (λ h. absurd (let e : false ≡ true = h in cc), λ h. absurd (let e = kept.1 h.0 in cc))
    both sign kept (inl same) (inl full) = rw (same, full) (λ h. (kept.0 same, tt), λ h. refl)
    both sign kept (inl same) (inr part) =
        let narrow : (1 ≤ width) × (width < 64) = ground (arith, part) in
        let field = stored_iff width (narrow.0, omega arith) narrow.1 sign value in
        rw (same, part)
          (
            λ h. (kept.0 same, field.0 ((int_eq_iff (stored sign value width) value).0 h)),
            λ h. (int_eq_iff (stored sign value width) value).1 (field.1 h.1),
          )
