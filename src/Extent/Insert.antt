-- ===== src/Extent/Insert.antt =====
-- `extract_wide` and `insert_wide` of crates/layline-core/src/extent.rs undo each other, and leave
-- other fields alone.
use layline.Prelude.{
  ℕ, ◌+◌, ◌*◌, ◌-◌, ◌/◌, ◌%◌, ◌^◌, ◌≤◌, ◌<◌, ◌≡◌, refl, ap, sym, ◌∙◌, arith, ◌⊎◌, inl, inr,
}
use layline.Prelude.{leb, Bool-cases, leb→le, bit_or, div-mod, pow_pos, two-pow-add, two-pow-le}
use layline.Prelude.{div_of_sum, mod_of_sum, low_field, shift_down, div_div_pow}
use layline.Prelude.BitOps.{bit_and_mask, bit_and_hole, bit_or_hole}
use native.Mathlib.Nat.{mod-eq_of_lt, div-lt_iff_lt-mul}
use layline.Extent.{Extent, mask128, mask_wide, extract_wide, insert_wide, extract, insert}

-- An extent in a `u128` container, of at least one bit.
abbrev pub IsIn : Extent → Type 0
IsIn e = (1 ≤ e.width) × (e.start + e.width ≤ 128)

-- Two extents have no bit in common.
abbrev pub Disjoint : Extent → Extent → Type 0
Disjoint e f = (f.start + f.width ≤ e.start) ⊎ (e.start + e.width ≤ f.start)

pub mask128-pow : (w : ℕ) → w ≤ 128 → mask128 w ≡ 2 ^ w - 1
unfolding mask128
mask128-pow w le = elim (Bool-cases (leb 128 w)) [
  | inl full ↦
      rw full
        (let e : w ≡ 128 = omega (arith, leb→le _ _ full) in ap (λ (k : ℕ). 2 ^ k - 1) (sym e))
  | inr part ↦ rw part refl
]

fill_lt : (q h n r : ℕ) → q < h → r < n → q * n + r < h * n
fill_lt q h n r hq hr = grind arith

module _ (e : Extent) (e_in : IsIn e) where
  abbrev s : ℕ
  s = e.start

  abbrev w : ℕ
  w = e.width

  mask_wide-pow : mask_wide e ≡ 2 ^ w - 1
  unfolding mask_wide
  mask_wide-pow = mask128-pow w (omega (arith, e_in))

  pub extract_wide-field : (bits : ℕ) → extract_wide e bits ≡ bits / 2 ^ s % 2 ^ w
  unfolding extract_wide
  extract_wide-field bits = rw mask_wide-pow (bit_and_mask w (bits / 2 ^ s))

  -- The container with the field's bits replaced.
  abbrev replaced : ℕ → ℕ → ℕ
  replaced bits value = (bits / 2 ^ (s + w) * 2 ^ w + value % 2 ^ w) * 2 ^ s + bits % 2 ^ s

  no_carry : (x : ℕ) → x < 2 ^ w → x * 2 ^ s < 2 ^ 128
  no_carry x lt = grind (arith, two-pow-le (w + s) 128 (omega (arith, e_in)), two-pow-add w s)

  insert_wide-replaced :
      (bits value : ℕ) → bits < 2 ^ 128 → insert_wide e bits value ≡ replaced bits value
  unfolding insert_wide
  insert_wide-replaced bits value lt =
      let h = 128 - (s + w) in
      let whole : h + (s + w) ≡ 128 = omega (arith, e_in) in
      let mask_lt : 2 ^ w - 1 < 2 ^ w = omega (arith, pow_pos w) in
      let shifted : (2 ^ w - 1) * 2 ^ s % 2 ^ 128 ≡ (2 ^ w - 1) * 2 ^ s =
        mod-eq_of_lt (no_carry (2 ^ w - 1) mask_lt) in
      let p128 : 2 ^ 128 ≡ 2 ^ h * 2 ^ (s + w) = rw whole at (two-pow-add h (s + w)) in
      let hole : 2 ^ 128 - 1 - (2 ^ w - 1) * 2 ^ s ≡ (2 ^ h - 1) * 2 ^ (s + w) + (2 ^ s - 1) =
        omega (
          arith,
          p128,
          pow_pos s,
          one_less (2 ^ w) (2 ^ s) (pow_pos w),
          one_less (2 ^ h) (2 ^ (s + w)) (pow_pos h),
          two-pow-add s w,
          two-pow-le s (s + w) (omega arith),
          two-pow-le (s + w) 128 (omega (arith, e_in)),
        ) in
      let small = (div-mod value (2 ^ w) (pow_pos w)).1 in
      rw
        (
          mask_wide-pow,
          shifted,
          hole,
          bit_and_mask w value,
          mod-eq_of_lt (no_carry (value % 2 ^ w) small),
        )
        (ap (λ (x : ℕ). bit_or x (value % 2 ^ w * 2 ^ s)) (bit_and_hole h s w bits (rw whole lt))
          ∙ bit_or_hole s w (bits / 2 ^ (s + w)) (value % 2 ^ w) (bits % 2 ^ s) small
              (div-mod bits (2 ^ s) (pow_pos s)).1)
    where
      one_less : (a b : ℕ) → 1 ≤ a → (a - 1) * b + b ≡ a * b
      one_less a b pos =
          let e : a - 1 + 1 ≡ a = omega arith in omega (arith, ap (λ (k : ℕ). k * b) e)

  abbrev low_part : ℕ → ℕ → ℕ
  low_part bits value = value % 2 ^ w * 2 ^ s + bits % 2 ^ s

  low_part-lt : (bits value : ℕ) → low_part bits value < 2 ^ (s + w)
  low_part-lt bits value =
      let low = (div-mod bits (2 ^ s) (pow_pos s)).1 in
      let small = (div-mod value (2 ^ w) (pow_pos w)).1 in rw two-pow-add (grind arith)

  regroup :
      (bits value : ℕ)
      → replaced bits value ≡ bits / 2 ^ (s + w) * 2 ^ (s + w) + low_part bits value
  regroup bits value = omega (arith, ap (λ (k : ℕ). bits / 2 ^ (s + w) * k) (two-pow-add s w))

  replaced-lt : (bits value : ℕ) → bits < 2 ^ 128 → replaced bits value < 2 ^ 128
  replaced-lt bits value lt =
      let h = 128 - (s + w) in
      let whole : h + (s + w) ≡ 128 = omega (arith, e_in) in
      let p128 : 2 ^ 128 ≡ 2 ^ h * 2 ^ (s + w) = rw whole at (two-pow-add h (s + w)) in
      let low = low_part-lt bits value in
      let high = (div-lt_iff_lt-mul (pow_pos (s + w))).1 (rw p128 at lt) in
      rw (regroup bits value, p128)
        (fill_lt (bits / 2 ^ (s + w)) (2 ^ h) (2 ^ (s + w)) (low_part bits value) high low)

  replaced-here : (bits value : ℕ) → replaced bits value / 2 ^ s % 2 ^ w ≡ value % 2 ^ w
  replaced-here bits value =
      ap (λ (x : ℕ). x % 2 ^ w)
        (div_of_sum (2 ^ s) (bits / 2 ^ (s + w) * 2 ^ w + value % 2 ^ w) (bits % 2 ^ s)
          (div-mod bits (2 ^ s) (pow_pos s)).1)
      ∙ mod_of_sum (2 ^ w) (bits / 2 ^ (s + w)) (value % 2 ^ w)
          (div-mod value (2 ^ w) (pow_pos w)).1

  replaced-elsewhere :
      (f : Extent) (bits value : ℕ)
      → Disjoint e f
      → replaced bits value / 2 ^ f.start % 2 ^ f.width ≡ bits / 2 ^ f.start % 2 ^ f.width
  replaced-elsewhere f bits value (inl below) =
      sym (low_field (replaced bits value) s f.start f.width below)
      ∙ ap (λ (x : ℕ). x / 2 ^ f.start % 2 ^ f.width)
          (mod_of_sum (2 ^ s) (bits / 2 ^ (s + w) * 2 ^ w + value % 2 ^ w) (bits % 2 ^ s)
            (div-mod bits (2 ^ s) (pow_pos s)).1)
      ∙ low_field bits s f.start f.width below
  replaced-elsewhere f bits value (inr above) =
      let j = f.start - (s + w) in
      let up : s + w + j ≡ f.start = omega arith in
      ap (λ (x : ℕ). x / 2 ^ f.start % 2 ^ f.width) (regroup bits value)
      ∙ ap
          (λ (k : ℕ).
            (bits / 2 ^ (s + w) * 2 ^ (s + w) + low_part bits value) / 2 ^ k % 2 ^ f.width)
          (sym up)
      ∙ ap (λ (x : ℕ). x % 2 ^ f.width)
          (shift_down (s + w) j (bits / 2 ^ (s + w)) (low_part bits value) (low_part-lt bits value)
            ∙ div_div_pow bits (s + w) j)
      ∙ ap (λ (k : ℕ). bits / 2 ^ k % 2 ^ f.width) up

-- Writing a field into a `u128` container gives a `u128` in which that field reads as the low bits
-- of the value, and a field that has no bit in common with it reads as before.
pub extract_wide-insert_wide :
    (e f : Extent) (bits value : ℕ)
    → IsIn e
    → IsIn f
    → Disjoint e f
    → bits < 2 ^ 128
    → (insert_wide e bits value < 2 ^ 128)
      × (extract_wide e (insert_wide e bits value) ≡ value % 2 ^ e.width)
      × (extract_wide f (insert_wide e bits value) ≡ extract_wide f bits)
extract_wide-insert_wide e f bits value e_in f_in apart lt =
    let number = insert_wide-replaced e e_in bits value lt in
    (
      rw number (replaced-lt e e_in bits value lt),
      rw number (
          extract_wide-field e e_in (replaced e e_in bits value) ∙ replaced-here e e_in bits value),
      rw number (
          extract_wide-field f f_in (replaced e e_in bits value)
          ∙ replaced-elsewhere e e_in f bits value apart
          ∙ sym (extract_wide-field f f_in bits)),
    )

-- Writing back what a field of up to 64 bits reads as changes nothing.
pub insert-extract :
    (e : Extent) (bits : ℕ)
    → IsIn e
    → e.width ≤ 64
    → bits < 2 ^ 128
    → insert e bits (extract e bits) ≡ bits
unfolding insert extract
insert-extract e bits e_in narrow lt =
    let x = bits / 2 ^ e.start % 2 ^ e.width in
    let x_lt = (div-mod (bits / 2 ^ e.start) (2 ^ e.width) (pow_pos e.width)).1 in
    let fits : x < 2 ^ 64 = omega (arith, two-pow-le e.width 64 narrow) in
    let value : extract_wide e bits % 2 ^ 64 ≡ x =
      ap (λ (k : ℕ). k % 2 ^ 64) (extract_wide-field e e_in bits) ∙ mod-eq_of_lt fits in
    let high = div-mod (bits / 2 ^ e.start) (2 ^ e.width) (pow_pos e.width) in
    let low = div-mod bits (2 ^ e.start) (pow_pos e.start) in
    let back = sym (div_div_pow bits e.start e.width) in
    rw value (
      insert_wide-replaced e e_in bits x lt
      ∙ (λ i. (back i * 2 ^ e.width + mod-eq_of_lt x_lt i) * 2 ^ e.start + bits % 2 ^ e.start)
      ∙ ap (λ (k : ℕ). k * 2 ^ e.start + bits % 2 ^ e.start) high.0
      ∙ low.0)
