-- ===== src/Layout/Validate/Checksums.antt =====
-- crates/layline-codegen/src/validate/coverage.rs: the rules for one checksum and the fields it covers.
use Prim.Native.String.{String}
use layline.Prelude.{
  ℕ, suc, zero, List, [], ◌∷◌, Bool, true, false, ltb, ◌==◌, ◌&&◌, not, if◌then◌else◌, Option, none,
  some, same, any, index_of,
}
use layline.Layout.Fields.{
  Scalar, u, i, Coverage, CoverFrom, CoverTo, start, from_field, here, before, after,
}
use layline.Layout.Invalid.{
  Checked, pass, refuse, ◌>>=◌, ◌>>◌, Verdict, refuse_if, field, other, unknown_reference,
  no_algorithm, checksum_repr, covers_start_self, covers_through_self, covers_to_self,
  covers_nothing, covers_reversed, sometimes_present, Syntax, is_blank, type_path,
}

-- The integers that a checksum is stored as.
is_repr : Scalar → Bool
is_repr (u n) = any (λ k. k == n) (8 ∷ 16 ∷ 32 ∷ 64 ∷ [])
is_repr (i n) = any (λ k. k == n) (8 ∷ 16 ∷ 32 ∷ 64 ∷ [])
is_repr _ = false

unfoldable pub check_value : Syntax → String → Scalar → String → Verdict
unfolding is_repr
check_value syntax name repr algorithm = do
  refuse_if (is_blank syntax algorithm) (field name no_algorithm)
  type_path syntax name "the checksum algorithm" algorithm
  refuse_if (not (is_repr repr)) (field name (checksum_repr repr))

-- `end_of`: the name that a range ends at, and whether the range includes that field.
unfoldable pub end_of : CoverTo → String → String × Bool
end_of here own = (own, false)
end_of (before f) own = (f, false)
end_of (after f) own = (f, true)

-- `place_of`.
unfoldable pub place_of : List String → List String → String → Checked ℕ
place_of places optional name = elim (index_of name places) [
  | some k ↦ pass k
  | none ↦
      if any (same name) optional
      then refuse (other (sometimes_present name))
      else refuse (unknown_reference name)
]

-- The parts of `coverage`: the first field of the range, and its last.
unfoldable pub cover_start : List String → List String → String → CoverFrom → Checked (Option ℕ)
unfolding place_of
cover_start places optional own start = pass none
cover_start places optional own (from_field f) = do
  refuse_if (same f own) (field own covers_start_self)
  k ← place_of places optional f
  pass (some k)

unfoldable pub is_before : CoverTo → Bool
is_before (before f) = true
is_before _ = false

unfoldable pub cover_last : String → String → Bool → ℕ → Checked ℕ
cover_last own end true to = pass to
cover_last own end false zero = refuse (field own (covers_nothing end))
cover_last own end false (suc last) = pass last

unfoldable pub start_name : CoverFrom → String
start_name start = ""
start_name (from_field f) = f

-- The range is not reversed.
unfoldable pub cover_order : String → String → CoverFrom → Bool → Option ℕ → ℕ → Verdict
unfolding start_name
cover_order own end from through none last = pass tt
cover_order own end from through (some first) last =
    refuse_if (ltb last first) (field own (covers_reversed (start_name from) end through))

-- `coverage`, from its end back: with both ends and the checksum placed; with the end of the range;
-- and with its start.
unfoldable pub with_own : String → Coverage → Option ℕ → ℕ → ℕ → Verdict
unfolding end_of is_before cover_last cover_order
with_own own over first to ck = do
  let (end, through) = end_of over.to own
  refuse_if (is_before over.to && (to == ck)) (field own covers_to_self)
  cover_last own end through to >>= cover_order own end over.from through first

unfoldable pub with_end : List String → List String → String → Coverage → Option ℕ → ℕ → Verdict
unfolding place_of with_own
with_end places optional own over first to =
    place_of places optional own >>= with_own own over first to

unfoldable pub with_start : List String → List String → String → Coverage → Option ℕ → Verdict
unfolding end_of place_of with_end
with_start places optional own over first = do
  let (end, through) = end_of over.to own
  refuse_if (same end own && through) (field own covers_through_self)
  place_of places optional end >>= with_end places optional own over first

unfoldable pub coverage : List String → List String → String → Coverage → Verdict
unfolding cover_start with_start
coverage places optional own over =
    cover_start places optional own over.from >>= with_start places optional own over
