-- ===== src/Layout/Solve/Mirror.antt =====
-- `Container::physical` of crates/layline-codegen/src/model/layout.rs as a mirror of single bits.
use layline.Prelude.{
  ℕ, ◌+◌, ◌-◌, ◌%◌, ◌^◌, ◌≤◌, ◌<◌, Bool, true, false, ◌==◌, leb, ltb, ◌&&◌, ◌≡◌, refl, sym, ◌∙◌,
  arith, Bool-cases, inl, inr, ==_iff, ◌⊎◌, ◌↔◌,
}
use native.Mathlib.Nat.{mod-eq_of_lt}
use layline.Layout.{
  Container, word, in_bytes, in_words, BitOrder, lsb, msb, container_bits, physical, physical_in,
  is_packed,
}
use layline.Layout.Fields.{Kind, width}

-- The declared place of a physical bit. Under `msb` the bits of a word, or of the container, stand in
-- reverse.
abbrev pub mirror : Container → ℕ → ℕ
mirror (word n _ _ _ msb) x = n - 1 - x
mirror (in_words _ _ msb) x = x - x % 16 + (15 - x % 16)
mirror _ x = x

-- A bit in a run of `w` bits at `start`.
abbrev pub inside : ℕ → ℕ → ℕ → Bool
inside start w x = leb start x && ltb x (start + w)

abbrev IsInside : ℕ → ℕ → ℕ → Type 0
IsInside start w x = (start ≤ x) × (x < start + w)

inside_iff : (start w x : ℕ) → (inside start w x ≡ true) ↔ IsInside start w x
inside_iff start w x = (λ h. ground (arith, h), λ h. ground (arith, h.0, h.1))

same_inside :
    (s t w x y : ℕ)
    → (IsInside s w x → IsInside t w y)
    → (IsInside t w y → IsInside s w x)
    → inside s w x ≡ inside t w y
same_inside s t w x y f g = elim (Bool-cases (inside s w x)) [
  | inl within ↦ within ∙ sym ((inside_iff t w y).1 (f ((inside_iff s w x).0 within)))
  | inr beyond ↦ elim (Bool-cases (inside t w y)) [
    | inl within ↦ (inside_iff s w x).1 (g ((inside_iff t w y).0 within)) ∙ sym within
    | inr out ↦ beyond ∙ sym out
  ]
]

-- A packed field in a region under `msb`.
module _ (k : Kind) (start w : ℕ) (packed : is_packed k ≡ true) (wide : width k ≡ w)
    (small : start + w < 2 ^ 63) where
  physical_in-word :
      (n : ℕ) → n < 2 ^ 63 → start < n → start + w ≤ n → physical_in n msb k start ≡ n - (start + w)
  unfolding physical_in
  physical_in-word n le lt fits =
      let whole : start % n ≡ start = mod-eq_of_lt lt in
      let some : (n == 0) ≡ false = ground arith in rw (packed, some, whole, wide) (omega arith)

  physical_in-words :
      start % 16 + w ≤ 16
      → physical_in 16 msb k start ≡ start - start % 16 + (16 - (start % 16 + w))
  unfolding physical_in
  physical_in-words fits = rw (packed, wide) (omega arith)

physical_in-lsb : (n : ℕ) (k : Kind) (start : ℕ) → physical_in n lsb k start ≡ start
unfolding physical_in
physical_in-lsb n k start = refl

physical_in-unpacked :
    (n : ℕ) (o : BitOrder) (k : Kind) (start : ℕ)
    → is_packed k ≡ false
    → physical_in n o k start ≡ start
unfolding physical_in
physical_in-unpacked n lsb k start e = refl
physical_in-unpacked n msb k start e = rw e refl

-- What the mirror needs of a field: in a container it is packed, and in words it stands in one word,
-- or is not packed and takes whole words.
abbrev pub IsPlaced : Container → Kind → ℕ → ℕ → Type 0
IsPlaced (word n _ _ _ msb) k start w = (is_packed k ≡ true) × (start + w ≤ n) × (n < 2 ^ 63)
IsPlaced (in_words _ _ msb) k start w =
    ((is_packed k ≡ true) × (start % 16 + w ≤ 16))
    ⊎ ((is_packed k ≡ false) × (start % 16 ≡ 0) × (w % 16 ≡ 0))
IsPlaced _ k start w = Unit {0}

none-inside : (s t x y : ℕ) → inside s 0 x ≡ inside t 0 y
none-inside s t x y = same_inside s t 0 x y (λ h. absurd (omega arith)) (λ h. absurd (omega arith))

-- A physical bit is in the physical run of a field if its declared place is in the declared run.
pub inside-mirror :
    (c : Container) (k : Kind) (start w x : ℕ)
    → width k ≡ w
    → start + w < 2 ^ 63
    → x < container_bits c
    → IsPlaced c k start w
    → inside (physical c k start) w x ≡ inside start w (mirror c x)
unfolding physical container_bits
inside-mirror (word n p v e lsb) k start w x wide small lt placed = refl
inside-mirror (in_bytes n e) k start w x wide small lt placed = refl
inside-mirror (in_words n e lsb) k start w x wide small lt placed = refl
inside-mirror (in_words n e msb) k start w x wide small lt (inl (packed, fits)) =
    rw (physical_in-words k start w packed wide small fits) (
      same_inside (start - start % 16 + (16 - (start % 16 + w))) start w x
        (x - x % 16 + (15 - x % 16)) (λ h. (omega arith, omega arith))
        (λ h. (omega arith, omega arith)))
inside-mirror (in_words n e msb) k start w x wide small lt (inr (plain, whole, even)) =
    rw (physical_in-unpacked 16 msb k start plain) (
      same_inside start start w x (x - x % 16 + (15 - x % 16)) (λ h. (omega arith, omega arith))
        (λ h. (omega arith, omega arith)))
inside-mirror (word n p v e msb) k start w x wide small lt (packed, fits, narrow) =
    elim (Bool-cases (w == 0)) [
      | inl empty ↦ empty_run ((==_iff w 0).0 empty)
      | inr more ↦
          let pos : 1 ≤ w = ground (arith, more) in
          rw (physical_in-word k start w packed wide small n narrow (omega arith) fits) (
            same_inside (n - (start + w)) start w x (n - 1 - x) (λ h. (omega arith, omega arith))
              (λ h. (omega arith, omega arith)))
    ]
  where
    empty_run : w ≡ 0 → inside (physical_in n msb k start) w x ≡ inside start w (n - 1 - x)
    empty_run e' = rw e' (none-inside (physical_in n msb k start) start x (n - 1 - x))
