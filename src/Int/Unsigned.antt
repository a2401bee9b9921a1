-- ===== src/Int/Unsigned.antt =====
-- `U<N>` of crates/layline-core/src/int.rs.
use layline.Prelude.{
  ℕ, ◌-◌, ◌%◌, ◌^◌, ◌≤◌, ◌≡◌, refl, ap, sym, ◌∙◌, arith, leb, ltb, if◌then◌else◌, none, some,
}
use layline.Prelude.{Bool-cases, inl, inr, leb→le, lt→leb, le→leb, ltb→lt, ltb→le, pow_pos, div-mod}
use layline.Prelude.BitOps.{bit_and_mask}
use native.Mathlib.Nat.{mod-eq_of_lt}
use layline.Extent.{mask64}
use layline.Int.{new_u, from_raw_u, to_raw_u}

-- A width that `checked_width` lets pass.
abbrev pub IsWidth : ℕ → Type 0
IsWidth w = (1 ≤ w) × (w ≤ 64)

pub mask64-pow : (w : ℕ) → w ≤ 64 → mask64 w ≡ 2 ^ w - 1
unfolding mask64
mask64-pow w le = elim (Bool-cases (leb 64 w)) [
  | inl full ↦
      rw full (let e : w ≡ 64 = omega (arith, leb→le _ _ full) in ap (λ (k : ℕ). 2 ^ k - 1) (sym e))
  | inr part ↦ rw part refl
]

-- For a width of 1 to 64 bits `U::new` takes the values below `2 ^ w` and no other, `from_raw` keeps
-- the low `w` bits of any raw value, and a value that fits is what its raw value reads as.
pub new_u-from_raw_u :
    (w value raw : ℕ)
    → IsWidth w
    → (new_u w value ≡ (if ltb value (2 ^ w) then some value else none))
      × (to_raw_u (from_raw_u w raw) ≡ raw % 2 ^ w)
      × (from_raw_u w (to_raw_u (raw % 2 ^ w)) ≡ raw % 2 ^ w)
unfolding new_u from_raw_u to_raw_u
new_u-from_raw_u w value raw (pos, le) =
    let pow = mask64-pow w le in
    (
      elim (Bool-cases (ltb value (2 ^ w))) [
        | inl fits ↦ rw (pow, fits, le→leb value (2 ^ w - 1) (omega (arith, ltb→lt _ _ fits)))
        | inr over ↦
            rw (pow, over, lt→leb value (2 ^ w - 1) (omega (arith, ltb→le _ _ over, pow_pos w)))
      ],
      rw pow (bit_and_mask w raw),
      rw pow (bit_and_mask w (raw % 2 ^ w) ∙ mod-eq_of_lt (div-mod raw (2 ^ w) (pow_pos w)).1),
    )
