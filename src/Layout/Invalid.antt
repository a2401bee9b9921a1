-- ===== src/Layout/Invalid.antt =====
-- `Invalid` of crates/layline-codegen/src/validate.rs, and the names and widths that every rule checks.
use Prim.Native.String.{String}
use layline.Prelude.{
  ℕ, List, [], ◌∷◌, Bool, false, leb, ◌==◌, ◌&&◌, ◌||◌, not, if◌then◌else◌, Option, none, some,
  same, codes, all, any,
}
use layline.Layout.{Misplaced}
use layline.Layout.Fields.{
  Scalar, u, i, scalar_bits, Kind, scalar, codec, nested, nested_array, var, msg, checksum, text,
  Field,
}

-- The reason that a diagnostic gives, with what its text shows.
pub data Why : Type 0 where
  not_identifier : (what name : String) → Why
  not_type_path : (what ty : String) → Why
  not_visibility : String → Why
  int_width : ℕ → Why
  container_width prefix_width : (n : ℕ) → Why
  prefix_missing : Why
  prefix_value_wide : (value prefix : ℕ) → Why
  no_dimensions bool_in_bytes text_in_bytes byte_bool_in_bits array_in_words : Why
  float_in_word nested_in_word unsized_in_word : Why
  range_wide : ℕ → Why
  range_kind magic_kind : Kind → Why
  bit_addressed_bytes : Why
  off_bytes : (name : String) (from to : ℕ) → Why
  magic_size : (constant field : ℕ) → Why
  no_algorithm : Why
  checksum_repr : Scalar → Why
  covers_start_self covers_through_self covers_to_self : Why
  covers_nothing : (end : String) → Why
  covers_reversed : (start end : String) (through : Bool) → Why
  sometimes_present : String → Why
  covers_later : String → Why
  cover_each_other : (names : List String) → Why

-- The variants that the rules of a layout give.
pub data Invalid : Type 0 where
  tiling : (covered_bits declared_bits : ℕ) → Invalid
  crosses_word : String → Invalid
  stated : Misplaced → Invalid
  unknown_reference : String → Invalid
  field : (at : String) (why : Why) → Invalid
  other : Why → Invalid

-- `Result<A, Invalid>`.
pub data Checked {ℓ} (A : Type ℓ) : Type ℓ where
  pass : A → Checked A
  refuse : Invalid → Checked A

infixl 5 ◌>>=◌ ◌>>◌
abbrev pub ◌>>=◌ {ℓ κ} : {A : Type ℓ} {B : Type κ} → Checked A → (A → Checked B) → Checked B
pass a >>= f = f a
refuse e >>= f = refuse e

abbrev pub ◌>>◌ {ℓ} : {B : Type ℓ} → Checked (Unit {0}) → Checked B → Checked B
m >> k = m >>= λ _. k

abbrev pub Verdict : Type 0
Verdict = Checked (Unit {0})

-- `return Err(..)` under a condition.
abbrev pub refuse_if : Bool → Invalid → Verdict
refuse_if c e = if c then refuse e else pass tt

-- A rule for each element of a list, in order.
abbrev pub for_each {ℓ} : {A : Type ℓ} → List A → (A → Verdict) → Verdict
for_each [] rule = pass tt
for_each (x ∷ xs) rule = rule x >> for_each xs rule

-- Rules one after the other.
abbrev pub in_turn : List Verdict → Verdict
in_turn [] = pass tt
in_turn (v ∷ vs) = v >> in_turn vs

-- The classes of characters of the language, and the parsers of the crate `syn`.
pub record Syntax : Type 0 where
  pub is_alphabetic : ℕ → Bool
  pub is_alphanumeric : ℕ → Bool
  pub is_whitespace : ℕ → Bool
  pub is_type_path : String → Bool
  pub is_visibility : String → Bool

module _ (syntax : Syntax) where
  open syntax use {is_alphabetic, is_alphanumeric, is_whitespace, is_type_path, is_visibility}

  -- `is_ident`.
  unfoldable pub is_ident : String → Bool
  is_ident name = elim (codes name) [
    | [] ↦ false
    | c ∷ cs ↦
        (is_alphabetic c || (c == b'_'))
        && all (λ k. is_alphanumeric k || (k == b'_')) cs
        && not (any (same name) ("_" ∷ "self" ∷ "Self" ∷ "super" ∷ "crate" ∷ []))
  ]

  -- `str::trim` leaves nothing.
  abbrev pub is_blank : String → Bool
  is_blank name = all is_whitespace (codes name)

  -- `ident`, `type_path` and `kind_paths`.
  unfoldable pub ident : String → String → Verdict
  unfolding is_ident
  ident what name = refuse_if (not (is_ident name)) (other (not_identifier what name))

  unfoldable pub type_path : String → String → String → Verdict
  type_path at what ty = refuse_if (not (is_type_path ty)) (field at (not_type_path what ty))

  unfoldable pub kind_paths : String → Kind → Verdict
  unfolding type_path
  kind_paths at (codec ty _) = type_path at "the codec type" ty
  kind_paths at (nested ty _) = type_path at "the nested layout" ty
  kind_paths at (nested_array ty _ _) = type_path at "the nested layout" ty
  kind_paths at (var ty) = type_path at "the `VarCodec` type" ty
  kind_paths at (msg ty _ _) = type_path at "the nested message" ty
  kind_paths at (checksum _ algorithm _) =
      if is_blank algorithm then pass tt else type_path at "the checksum algorithm" algorithm
  kind_paths at (text _ (some ty)) = type_path at "the `TextCodec` type" ty
  kind_paths at _ = pass tt

  -- `field_names`: the name, the width of an integer, the visibility and the type paths.
  integer_width : String → Kind → Verdict
  unfolding scalar_bits
  integer_width at (scalar (u n)) = refuse_if (not (leb 1 n && leb n 128)) (field at (int_width n))
  integer_width at (scalar (i n)) = refuse_if (not (leb 1 n && leb n 128)) (field at (int_width n))
  integer_width at _ = pass tt

  visible : String → Option String → Verdict
  visible at none = pass tt
  visible at (some vis) = refuse_if (not (is_visibility vis)) (field at (not_visibility vis))

  unfoldable pub field_names : Field → Verdict
  unfolding ident kind_paths integer_width visible
  field_names f = do
    ident "field" f.name
    integer_width f.name f.kind
    visible f.name f.visibility
    kind_paths f.name f.kind
