-- ===== src/Layout/Validate.antt =====
-- crates/layline-codegen/src/validate/layout.rs, and `Container::admits` of model/layout.rs: the rules
-- for a fixed layout. The crate `syn` and the classes of characters are a parameter.
pub mod Checksums
pub mod Passes
pub mod Tiles
pub mod Covers
mod Runs
use Prim.Native.String.{String}
use layline.Prelude.{
  ℕ, suc, ◌+◌, ◌*◌, ◌/◌, ◌%◌, ◌^◌, List, [], ◌∷◌, Bool, true, false, leb, ltb, ◌==◌, ◌&&◌, ◌||◌,
  not, if◌then◌else◌, Option, none, some, same, any, map, index_of, length,
}
use layline.Layout.{
  Container, word, in_bytes, in_words, add_u64, field_bits, is_bit_addressed, is_packed,
  check_stated, Positioned, positioned,
}
use layline.Layout.Fields.{
  Scalar, u, i, f32, f64, bool, byte_bool, scalar_bits, Kind, scalar, array, codec, nested,
  nested_array, var, msg, checksum, text, width, Stated, Range, Field, Coverage,
}
use layline.Layout.Covered.{Covered, resolve, runs}
use layline.Layout.Invalid.{
  Checked, pass, refuse, ◌>>=◌, ◌>>◌, Verdict, refuse_if, for_each, in_turn, Invalid, tiling,
  crosses_word, stated, field, other, Syntax, ident, field_names, no_dimensions, bool_in_bytes,
  text_in_bytes, byte_bool_in_bits, array_in_words, float_in_word, nested_in_word, unsized_in_word,
  container_width, prefix_width, prefix_missing, prefix_value_wide, range_wide, range_kind,
  magic_kind, bit_addressed_bytes, off_bytes, magic_size, covers_later,
}
use Checksums.{check_value, coverage}

-- `Container::admits`.
has_dimensions : Kind → Bool
has_dimensions (array _ []) = false
has_dimensions _ = true

pub admits : Container → String → Kind → Verdict
unfolding has_dimensions
admits c name kind = do
  refuse_if (not (has_dimensions kind)) (field name no_dimensions)
  in_container c kind
  where
    in_container : Container → Kind → Verdict
    in_container (in_bytes _ _) (scalar bool) = refuse (field name bool_in_bytes)
    in_container (in_bytes _ _) (text _ _) = refuse (field name text_in_bytes)
    in_container (in_bytes _ _) _ = pass tt
    in_container (in_words _ _ _) (scalar byte_bool) = refuse (field name byte_bool_in_bits)
    in_container (word _ _ _ _ _) (scalar byte_bool) = refuse (field name byte_bool_in_bits)
    in_container (in_words _ _ _) (array (u n) _) =
        refuse_if (not ((n == 8) || (n == 16))) (field name array_in_words)
    in_container (in_words _ _ _) (array _ _) = refuse (field name array_in_words)
    in_container (in_words _ _ _) _ = pass tt
    in_container (word _ _ _ _ _) (scalar f32) = refuse (field name float_in_word)
    in_container (word _ _ _ _ _) (scalar f64) = refuse (field name float_in_word)
    in_container (word _ _ _ _ _) (nested _ _) = refuse (field name nested_in_word)
    in_container (word _ _ _ _ _) (nested_array _ _ _) = refuse (field name nested_in_word)
    in_container (word _ _ _ _ _) (text _ _) = refuse (field name unsized_in_word)
    in_container (word _ _ _ _ _) (var _) = refuse (field name unsized_in_word)
    in_container (word _ _ _ _ _) (msg _ _ _) = refuse (field name unsized_in_word)
    in_container (word _ _ _ _ _) _ = pass tt

-- `validate_container`.
pub prefix_value_fits : ℕ → Option ℕ → Verdict
prefix_value_fits prefix none = pass tt
prefix_value_fits prefix (some v) = do
  refuse_if (prefix == 0) (other prefix_missing)
  refuse_if (ltb prefix 128 && leb (2 ^ prefix) v) (other (prefix_value_wide v prefix))

unfoldable pub validate_container : Container → Verdict
unfolding prefix_value_fits
validate_container (word bits prefix value _ _) = in_turn (
    refuse_if ((bits == 0) || not (bits % 8 == 0)) (other (container_width bits))
    ∷ refuse_if (leb bits prefix) (other (prefix_width prefix))
    ∷ prefix_value_fits prefix value
    ∷ [])
validate_container _ = pass tt

-- The sum of the widths, as `u64`.
unfoldable pub covered_bits : List Field → ℕ
covered_bits [] = 0
covered_bits (f ∷ fs) = add_u64 (width f.kind) (covered_bits fs)

-- The rule of words mode for one field: a scalar or a codec field stands in one word.
is_words : Container → Bool
is_words (in_words _ _ _) = true
is_words _ = false

unfoldable pub in_one_word : Container → Positioned → Verdict
unfolding is_words
in_one_word c p =
    refuse_if
      (is_words c
        && is_packed p.field.kind
        && (ltb 16 (width p.field.kind) || ltb 16 (p.declared % 16 + width p.field.kind)))
      (crosses_word p.field.name)

unfoldable pub at_stated : Container → Positioned → Verdict
at_stated c p = elim p.field.stated [
  | none ↦ pass tt
  | some s ↦ elim (check_stated c p.field.kind s p.declared) [
    | none ↦ pass tt
    | some why ↦ refuse (stated why)
  ]
]

-- The round of `validate_layout` for a placed field.
unfoldable pub placed_as_stated : Container → Positioned → Verdict
unfolding in_one_word at_stated
placed_as_stated c p = in_turn (in_one_word c p ∷ at_stated c p ∷ [])

-- `assertions`: a field with `#[magic]` or a checksum.
is_checksum : Kind → Bool
is_checksum (checksum _ _ _) = true
is_checksum _ = false

is_some : {A : Type 0} → Option A → Bool
is_some none = false
is_some (some a) = true

pub asserts : Field → Bool
unfolding is_checksum is_some
asserts f = is_some f.magic || is_checksum f.kind

pub range_of : String → Option Range → Kind → Verdict
range_of name none kind = pass tt
range_of name (some r) (scalar (u n)) = refuse_if (ltb 64 n) (field name (range_wide n))
range_of name (some r) (scalar (i n)) = refuse_if (ltb 64 n) (field name (range_wide n))
range_of name (some r) kind = refuse (field name (range_kind kind))

first_assert : List Field → Verdict
unfolding asserts
first_assert [] = pass tt
first_assert (f ∷ fs) =
    if asserts f then refuse (field f.name bit_addressed_bytes) else first_assert fs

-- Such a field takes whole bytes.
pub whole_bytes : Positioned → Verdict
unfolding asserts
whole_bytes p =
    let bits = width p.field.kind in
    refuse_if (asserts p.field && (not (p.phys_bit % 8 == 0) || not (bits % 8 == 0)))
      (other (off_bytes p.field.name p.phys_bit (add_u64 p.phys_bit bits)))

-- The bytes of each field, by name, and the first field of a name.
abbrev pub Extents : Type 0
Extents = List (String × (ℕ × ℕ))

pub extents : List Positioned → Extents
extents [] = []
extents (p ∷ ps) =
    (p.field.name, (p.phys_bit / 8, add_u64 p.phys_bit (width p.field.kind) / 8)) ∷ extents ps

pub extent_of : Extents → String → Option (ℕ × ℕ)
extent_of [] name = none
extent_of ((n, e) ∷ es) name = if same n name then some e else extent_of es name

abbrev names : List Field → List String
names fs = map (λ (f : Field). f.name) fs

-- `order(&f.name) > order(own)`, where a name that is not there is the least.
later : Option ℕ → Option ℕ → Bool
later (some a) (some b) = ltb b a
later (some a) none = true
later none b = false

-- `later_checksum`.
covers_field : List (ℕ × ℕ) → ℕ × ℕ → Bool
covers_field covered (a, b) = any (λ (x, y). leb x a && leb b y) covered

pub later_field : Extents → List String → String → List (ℕ × ℕ) → Field → Verdict
unfolding is_checksum later covers_field extent_of
later_field es places own covered f =
    if same f.name own || not (is_checksum f.kind) then pass tt else (elim (extent_of es f.name) [
      | none ↦ pass tt
      | some e ↦
          refuse_if (covers_field covered e && later (index_of f.name places) (index_of own places))
            (field own (covers_later f.name))
    ])

pub later_checksum : List Field → Extents → String → Coverage → Verdict
unfolding later_field extent_of
later_checksum fs es own over = elim (extent_of es own) [
  | none ↦ pass tt
  | some own_at ↦ elim (resolve over own_at (extent_of es)) [
    | none ↦ pass tt
    | some c ↦ for_each fs (later_field es (map (λ (e : String × (ℕ × ℕ)). e.0) es) own (runs c))
  ]
]

-- The rules for a `#[magic]` constant, and for a checksum.
takes_magic : Kind → Bool
takes_magic (scalar (u _)) = true
takes_magic (scalar (i _)) = true
takes_magic (array (u n) _) = n == 8
takes_magic _ = false

pub magic_of : Field → Option (List ℕ) → Verdict
unfolding takes_magic
magic_of f none = pass tt
magic_of f (some constant) = do
  refuse_if (not (takes_magic f.kind)) (field f.name (magic_kind f.kind))
  refuse_if ((length constant == 0) || not (length constant * 8 == width f.kind))
      (field f.name (magic_size (length constant) (width f.kind / 8)))

pub checksum_of : Syntax → List Field → Extents → String → Kind → Verdict
unfolding later_checksum
checksum_of syntax fs es own (checksum repr algorithm over) = do
  check_value syntax own repr algorithm
  coverage (names fs) [] own over
  later_checksum fs es own over
checksum_of syntax fs es own _ = pass tt

pub assertions : Syntax → Container → List Field → Verdict
unfolding range_of first_assert whole_bytes extents magic_of checksum_of
assertions syntax c fs = do
  for_each fs (λ f. range_of f.name f.range f.kind)
  if is_bit_addressed c then first_assert fs else pass tt
  let places = positioned fs c
  for_each places whole_bytes
  for_each fs (λ f. do magic_of f f.magic; checksum_of syntax fs (extents places) f.name f.kind)

-- `validate_layout`, of a name, a container and fields.
unfoldable pub validate_layout : Syntax → String → Container → List Field → Verdict
unfolding validate_container covered_bits placed_as_stated admits assertions
validate_layout syntax name c fs = in_turn (
    ident syntax "layout" name
    ∷ for_each fs (field_names syntax)
    ∷ validate_container c
    ∷ refuse_if (not (covered_bits fs == field_bits c)) (tiling (covered_bits fs) (field_bits c))
    ∷ for_each (positioned fs c) (placed_as_stated c)
    ∷ for_each fs (λ f. admits c f.name f.kind)
    ∷ assertions syntax c fs
    ∷ [])
