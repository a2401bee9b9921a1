-- ===== src/Layout/Solve/Runs.antt =====
-- The solver of crates/layline-derive/src/layout/solve.rs at concrete layouts.
use layline.Prelude.{map, List, [], ◌∷◌, none, arith, ◌≡◌, refl}
use layline.Layout.{
  Container, in_words, le, msb, prefix, positioned, container_bits, interior_boundary, physical,
}
use layline.Layout.Solve.{
  packed, repeat, int, uint, native_of, Item, solved, solve, decided, check_placement, check_at,
  kind, body_width, element_bits,
}
use layline.Layout.Solve.Agrees.{IsAgreed, as_field, solve-positioned}
use layline.Layout.Solve.Tiles.{IsSolve, solve_lem}

abbrev two_words : Container
two_words = in_words 2 le msb

abbrev fields : List Item
fields =
    record { ident = "kind"; stated = none; body = packed "u8" (uint 8) 4 }
    ∷ record { ident = "delta"; stated = none; body = packed "i16" int 12 }
    ∷ record { ident = "rest"; stated = none; body = repeat (packed "u16" native_of 16) 1 }
    ∷ []

fields_placed :
    solve two_words 32 fields
    ≡ solved (
        record { phys_bit = 12; bits = 4 }
        ∷ record { phys_bit = 0; bits = 12 }
        ∷ record { phys_bit = 16; bits = 16 }
        ∷ [])
unfolding solve decided check_placement interior_boundary prefix check_at physical kind
fields_placed = refl

solve_lem_example :
    IsSolve two_words
      (prefix two_words)
      fields
      13
      (solve two_words (container_bits two_words) fields)
unfolding container_bits prefix body_width element_bits
solve_lem_example =
    solve_lem two_words 13 (omega arith) (omega arith) fields (omega arith)
      ((tt, omega arith), ((tt, omega arith), (((omega arith, refl), omega arith), tt)))

solve-positioned_example :
    IsAgreed (positioned (map as_field fields) two_words) (solve two_words 32 fields)
solve-positioned_example = solve-positioned two_words 32 fields

-- Bytes in mirrored words: a byte and a bit field of the same word are put in the same place.
abbrev bytes_in_words : List Item
bytes_in_words =
    record { ident = "byte"; stated = none; body = repeat (packed "u8" native_of 8) 1 }
    ∷ record { ident = "bits"; stated = none; body = packed "u8" (uint 8) 8 }
    ∷ []

bytes_together :
    solve (in_words 1 le msb) 16 bytes_in_words
    ≡ solved (record { phys_bit = 0; bits = 8 } ∷ record { phys_bit = 0; bits = 8 } ∷ [])
unfolding solve decided check_placement interior_boundary prefix check_at physical kind
bytes_together = refl
