-- ===== src/Stamping/Runs.antt =====
-- The order of checksums of crates/layline-codegen/src/validate/coverage.rs at concrete messages.
use layline.Prelude.{ℕ, List, [], ◌∷◌, none, ◌≡◌, ◌↔◌, refl}
use layline.Layout.Fields.{u, scalar, start, from_field, here, after}
use layline.Layout.Invalid.{pass, refuse, other, cover_each_other}
use layline.Message.{Segment, block, checksum}
use layline.Stamping.{stampable, row_names, checks_of}
use layline.Stamping.Orders.{stampable_iff}
use layline.Stamping.Waits.{IsStampOrder}

abbrev body : Segment
body = block (
    record {
      name = "body";
      kind = scalar (u 32);
      stated = none;
      magic = none;
      range = none;
      visibility = none;
    }
    ∷ [])

-- An outer checksum of all before it, with an inner one of the body.
abbrev nested : List Segment
nested =
    checksum "outer" none (u 16) "Crc" (record { from = start; to = after "inner" })
    ∷ body
    ∷ checksum "inner" none (u 8) "Sum" (record { from = from_field "body"; to = here })
    ∷ []

stampable_iff_example :
    (stampable nested ≡ pass tt)
    ↔ ((order : List ℕ) × IsStampOrder (row_names nested) (checks_of nested) order)
stampable_iff_example = stampable_iff nested

nested_passes : stampable nested ≡ pass tt
unfolding stampable
nested_passes = refl

-- Two checksums that cover each other.
crossed_refused :
    stampable (
      checksum "a" none (u 16) "Crc" (record { from = start; to = after "b" })
      ∷ checksum "b" none (u 16) "Crc" (record { from = start; to = here })
      ∷ [])
    ≡ refuse (other (cover_each_other ("a" ∷ "b" ∷ [])))
unfolding stampable
crossed_refused = refl
