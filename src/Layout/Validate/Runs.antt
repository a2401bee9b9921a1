-- ===== src/Layout/Validate/Runs.antt =====
-- The rules for layouts of crates/layline-codegen/src/validate at concrete layouts.
use Prim.Native.String.{String}
use layline.Prelude.{
  List, [], ◌∷◌, true, none, arith, ◌≡◌, refl, inl, inr, leb, if◌then◌else◌, any, ◌↔◌, ◌⊎◌, ◌<◌,
  ◌≤◌,
}
use layline.Layout.{
  Container, word, in_words, le, msb, prefix, container_bits, positioned, field_bits, physical,
  is_packed, is_bit_addressed,
}
use layline.Layout.Fields.{
  Field, Kind, scalar, u, i, array, width, Coverage, start, here, before, from_field,
}
use layline.Layout.Covered.{Covered, runs, in_run, in_run_iff, IsBetween}
use layline.Layout.Invalid.{pass, refuse, tiling, Syntax, ident, field_names}
use layline.Layout.Solve.Mirror.{mirror}
use layline.Layout.Validate.{validate_layout}
use layline.Layout.Validate.Checksums.{coverage}
use layline.Layout.Validate.Covers.{IsCovering, coverage-IsCovering}
use layline.Layout.Validate.Tiles.{holders, validate_layout-tiles}

-- Letters and digits of ASCII, and any path.
abbrev ascii : Syntax
ascii = record {
  is_alphabetic = λ c. leb 97 c;
  is_alphanumeric = λ c. leb 48 c;
  is_whitespace = λ c. leb c 32;
  is_type_path = λ ty. true;
  is_visibility = λ vis. true;
}

abbrev a_field : String → Kind → Field
a_field name kind = record {
  name = name;
  kind = kind;
  stated = none;
  magic = none;
  range = none;
  visibility = none;
}

abbrev two_words : Container
two_words = in_words 2 le msb

abbrev fields : List Field
fields =
    a_field "kind" (scalar (u 4))
    ∷ a_field "delta" (scalar (i 12))
    ∷ a_field "rest" (array (u 16) (1 ∷ []))
    ∷ []

fields_pass : validate_layout ascii "frame" two_words fields ≡ pass tt
unfolding validate_layout ident field_names width field_bits positioned is_packed prefix
    is_bit_addressed
fields_pass = refl

validate_layout-tiles_example :
    holders 13 (positioned fields two_words)
    ≡ (if leb (prefix two_words) (mirror two_words 13) then 1 else 0)
unfolding container_bits width positioned is_packed prefix
validate_layout-tiles_example =
    validate_layout-tiles two_words 13 (omega arith) (omega arith) ascii "frame" fields
      (omega arith) (inl refl, (inl refl, (inr (refl, refl, refl), tt))) fields_pass

-- An array in a container mirrored as one word is not mirrored: the scalar behind it lands on it.
abbrev unmirrored : List Field
unmirrored = a_field "pair" (array (u 16) (1 ∷ [])) ∷ a_field "last" (scalar (u 16)) ∷ []

abbrev one_word : Container
one_word = word 32 0 none le msb

unmirrored_pass : validate_layout ascii "frame" one_word unmirrored ≡ pass tt
unfolding validate_layout ident field_names width field_bits positioned is_packed prefix
    is_bit_addressed
unmirrored_pass = refl

unmirrored_overlap : holders 3 (positioned unmirrored one_word) ≡ 2
unfolding width positioned is_packed prefix physical
unmirrored_overlap = refl

fields_short : validate_layout ascii "frame" (in_words 3 le msb) fields ≡ refuse (tiling 32 48)
unfolding validate_layout ident field_names width field_bits
fields_short = refl

-- The bytes from a field to the checksum behind it.
abbrev names : List String
names = "head" ∷ "body" ∷ "crc" ∷ []

abbrev from_body : Coverage
from_body = record { from = from_field "body"; to = here }

from_body_passes : coverage names [] "crc" from_body ≡ pass tt
unfolding coverage
from_body_passes = refl

coverage-IsCovering_example : IsCovering names "crc" from_body
coverage-IsCovering_example = coverage-IsCovering names [] "crc" from_body from_body_passes

-- A checksum that is the first field, over the fields before the second: no byte is covered.
empty_range_passes :
    coverage ("crc" ∷ "body" ∷ []) [] "crc" (record { from = start; to = before "body" }) ≡ pass tt
unfolding coverage
empty_range_passes = refl

empty_range_runs :
    runs (record { from = 0; to = 4; own_start = 0; own_end = 4 }) ≡ (0, 0) ∷ (4, 4) ∷ []
unfolding runs
empty_range_runs = refl

-- A range around its checksum.
abbrev around : Covered
around = record { from = 0; to = 12; own_start = 4; own_end = 8 }

around_itself : (any (in_run 9) (runs around) ≡ true) ↔ (IsBetween 0 9 12 × ((9 < 4) ⊎ (8 ≤ 9)))
around_itself = in_run_iff around 9 (omega arith) (inl (omega arith)) (inr (omega arith))
