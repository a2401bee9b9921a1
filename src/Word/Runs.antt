-- ===== src/Word/Runs.antt =====
-- `BitWord` of crates/layline-core/src/word.rs at a concrete input.
use layline.Prelude.{ℕ, List, [], ◌∷◌, ◌≡◌, arith}
use layline.Bits.Number.{big_endian, little_endian}
use layline.Word.{from_wire, from_wire_be, to_wire, to_wire_be}
use layline.Word.Wire.{to_wire-from_wire}

abbrev nine : List ℕ
nine = 0xA5 ∷ 1 ∷ 2 ∷ 3 ∷ 4 ∷ 5 ∷ 6 ∷ 7 ∷ 0xFF ∷ []

to_wire-from_wire_example :
    ((from_wire 9 nine).bits ≡ little_endian nine)
    × ((from_wire_be 9 nine).bits ≡ big_endian nine)
    × (to_wire 9 (from_wire 9 nine) ≡ nine)
    × (to_wire_be 9 (from_wire_be 9 nine) ≡ nine)
to_wire-from_wire_example =
    to_wire-from_wire nine
      (
        omega arith,
        (
          omega arith,
          (
            omega arith,
            (
              omega arith,
              (omega arith, (omega arith, (omega arith, (omega arith, (omega arith, tt))))),
            ),
          ),
        ),
      )
      (omega arith)
