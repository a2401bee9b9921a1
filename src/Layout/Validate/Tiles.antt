-- ===== src/Layout/Validate/Tiles.antt =====
-- A layout that crates/layline-codegen/src/validate/layout.rs accepts: its fields and its container.
use Prim.Native.String.{String}
use layline.Prelude.{
  ℕ, ◌+◌, ◌%◌, ◌^◌, ◌≤◌, ◌<◌, List, [], ◌∷◌, true, false, ◌==◌, leb, ltb, ◌&&◌, ◌||◌, not,
  if◌then◌else◌, ◌≡◌, refl, arith, inl, inr, leb→lt, All, ◌⊎◌,
}
use layline.Layout.{
  Container, word, in_bytes, in_words, lsb, msb, add_u64, container_bits, field_bits, prefix,
  physical, is_packed, Positioned, positioned, positioned_from,
}
use layline.Layout.Fields.{Field, width}
use layline.Layout.Invalid.{
  pass, for_each, refuse_if, other, container_width, prefix_width, Syntax, ident, field_names,
  tiling,
}
use layline.Layout.Solve.Mirror.{mirror, inside, inside-mirror, IsPlaced}
use layline.Layout.Solve.Tiles.{counts, mirror-lt}
use layline.Layout.Validate.{
  validate_layout, validate_container, covered_bits, in_one_word, at_stated, placed_as_stated,
  prefix_value_fits, admits, assertions,
}
use layline.Layout.Validate.Passes.{pass-in_turn, pass-for_each, pass-refuse_if}

-- The number of fields that a bit of the container is in.
abbrev pub holders : ℕ → List Positioned → ℕ
holders x [] = 0
holders x (p ∷ ps) = (if inside p.phys_bit (width p.field.kind) x then 1 else 0) + holders x ps

abbrev pub total_width : List Field → ℕ
total_width [] = 0
total_width (f ∷ fs) = width f.kind + total_width fs

-- In a container mirrored as one word every field is a packed one, which `physical` mirrors. In
-- mirrored words a field is packed, or starts at a word and is of whole words.
abbrev pub IsMirrored : Container → Positioned → Type 0
IsMirrored (word _ _ _ _ msb) p = is_packed p.field.kind ≡ true
IsMirrored (in_words _ _ msb) p =
    (is_packed p.field.kind ≡ true)
    ⊎ ((is_packed p.field.kind ≡ false) × (p.declared % 16 ≡ 0) × (width p.field.kind % 16 ≡ 0))
IsMirrored _ p = Unit {0}

covered_bits-total : (fs : List Field) → total_width fs < 2 ^ 63 → covered_bits fs ≡ total_width fs
unfolding covered_bits
covered_bits-total [] small = refl
covered_bits-total (f ∷ fs) small = rw (covered_bits-total fs (omega arith)) (omega arith)

in_one_word-IsPlaced :
    (c : Container) (p : Positioned)
    → p.declared + width p.field.kind ≤ container_bits c
    → container_bits c < 2 ^ 32
    → IsMirrored c p
    → in_one_word c p ≡ pass tt
    → IsPlaced c p.field.kind p.declared (width p.field.kind)
unfolding in_one_word container_bits
in_one_word-IsPlaced (in_bytes n e) p fits narrow whole ok = tt
in_one_word-IsPlaced (word n q v e lsb) p fits narrow whole ok = tt
in_one_word-IsPlaced (in_words n e lsb) p fits narrow whole ok = tt
in_one_word-IsPlaced (word n q v e msb) p fits narrow whole ok = (whole, fits, omega arith)
in_one_word-IsPlaced (in_words n e msb) p fits narrow (inr plain) ok = inr plain
in_one_word-IsPlaced (in_words n e msb) p fits narrow (inl packed) ok =
    let w = width p.field.kind in
    let b =
      pass-refuse_if (is_packed p.field.kind && (ltb 16 w || ltb 16 (p.declared % 16 + w))) _ ok in
    inl (packed, ground (arith, b, packed))

container-prefix :
    (c : Container)
    → container_bits c < 2 ^ 32
    → validate_container c ≡ pass tt
    → prefix c + field_bits c ≡ container_bits c
unfolding validate_container prefix field_bits container_bits
container-prefix (in_bytes n e) narrow ok = omega arith
container-prefix (in_words n e o) narrow ok = omega arith
container-prefix (word n q v e o) narrow ok =
    let rules =
      refuse_if ((n == 0) || not (n % 8 == 0)) (other (container_width n))
      ∷ refuse_if (leb n q) (other (prefix_width q))
      ∷ prefix_value_fits q v
      ∷ [] in
    let (_, (below, _)) = pass-in_turn rules ok in
    omega (arith, leb→lt _ _ (pass-refuse_if (leb n q) _ below))

-- What the rules for a whole layout are made of, as far as the fields' places depend on them.
validate_layout-parts :
    (syntax : Syntax) (name : String) (c : Container) (fs : List Field)
    → validate_layout syntax name c fs ≡ pass tt
    → (validate_container c ≡ pass tt)
      × (covered_bits fs ≡ field_bits c)
      × All (λ p. placed_as_stated c p ≡ pass tt) (positioned fs c)
unfolding validate_layout
validate_layout-parts syntax name c fs ok =
    let rules =
      ident syntax "layout" name
      ∷ for_each fs (field_names syntax)
      ∷ validate_container c
      ∷ refuse_if (not (covered_bits fs == field_bits c)) (tiling (covered_bits fs) (field_bits c))
      ∷ for_each (positioned fs c) (placed_as_stated c)
      ∷ for_each fs (λ f. admits c f.name f.kind)
      ∷ assertions syntax c fs
      ∷ [] in
    let (_, (_, (container_ok, (sum, (each, _))))) = pass-in_turn rules ok in
    let same_sum = pass-refuse_if (not (covered_bits fs == field_bits c)) _ sum in
    (
      container_ok,
      ground (arith, same_sum),
      pass-for_each (positioned fs c) (placed_as_stated c) each,
    )

in_words-pass :
    (c : Container) (ps : List Positioned)
    → All (λ p. placed_as_stated c p ≡ pass tt) ps
    → All (λ p. in_one_word c p ≡ pass tt) ps
unfolding placed_as_stated
in_words-pass c [] ok = tt
in_words-pass c (p ∷ ps) (ok, oks) =
    ((pass-in_turn (in_one_word c p ∷ at_stated c p ∷ []) ok).0, in_words-pass c ps oks)

module _ (c : Container) (x : ℕ) (bit : x < container_bits c)
    (narrow : container_bits c < 2 ^ 32) where
  holders-positioned :
      (at : ℕ) (fs : List Field)
      → at + total_width fs ≡ container_bits c
      → All (IsMirrored c) (positioned_from c at fs)
      → All (λ p. in_one_word c p ≡ pass tt) (positioned_from c at fs)
      → holders x (positioned_from c at fs) ≡ (if leb at (mirror c x) then 1 else 0)
  unfolding positioned_from
  holders-positioned at [] sum whole ok =
      let lt = mirror-lt c x bit narrow in ground (arith, lt, sum)
  holders-positioned at (f ∷ fs) sum (whole, wholes) (ok, oks) =
      let w = width f.kind in
      let p : Positioned = record { field = f; declared = at; phys_bit = physical c f.kind at } in
      let exact : add_u64 at w ≡ at + w = omega (arith, sum) in
      let placed = in_one_word-IsPlaced c p (omega (arith, sum)) narrow whole ok in
      let here = inside-mirror c f.kind at w x refl (omega (arith, sum)) bit placed in
      let rest =
        holders-positioned (at + w) fs (omega (arith, sum)) (rw exact at wholes)
          (rw exact at oks) in
      rw (exact, here, rest) (counts at w (mirror c x))

  -- In a container of fewer than 2 ^ 32 bits, with fields of fewer than 2 ^ 63 bits in all, a layout
  -- that passes puts each bit of the container in one field, or in none if the bit is of the prefix,
  -- where every field of a container mirrored as one word is packed, and every field in mirrored words
  -- is packed or made of whole words from a word boundary on. Without mirroring this is of any fields.
  pub validate_layout-tiles :
      (syntax : Syntax) (name : String) (fs : List Field)
      → total_width fs < 2 ^ 63
      → All (IsMirrored c) (positioned fs c)
      → validate_layout syntax name c fs ≡ pass tt
      → holders x (positioned fs c) ≡ (if leb (prefix c) (mirror c x) then 1 else 0)
  unfolding positioned
  validate_layout-tiles syntax name fs small whole ok =
      let (container_ok, sum, each) = validate_layout-parts syntax name c fs ok in
      let total = covered_bits-total fs small in
      let fills = container-prefix c narrow container_ok in
      holders-positioned (prefix c) fs (omega (arith, total, fills, sum)) whole
        (in_words-pass c (positioned fs c) each)
