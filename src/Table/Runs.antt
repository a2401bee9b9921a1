-- ===== src/Table/Runs.antt =====
-- The tables of crates/layline-core/src/field.rs at concrete inputs.
use layline.Prelude.{List, [], ◌∷◌, ◌≡◌, refl, ltb, if◌then◌else◌, ◌↔◌, true, false}
use layline.Extent.{end_of}
use layline.Table.{FieldDef, TypeDef, Str, covers, check_layout, field_width, type_is, str_eq}
use layline.Table.Covers.{IsReport, check_layout-IsReport, owners, check_layout-owners}
use layline.Table.Names.{IsFound, field_width-type_is}

-- Three fields over 70 bits, named by one letter each.
abbrev three_fields : List FieldDef
three_fields =
    record { name = 97 ∷ []; extent = record { start = 0; width = 2 } }
    ∷ record { name = 98 ∷ []; extent = record { start = 2; width = 5 } }
    ∷ record { name = 99 ∷ []; extent = record { start = 7; width = 63 } }
    ∷ []

abbrev two_types : List TypeDef
two_types =
    record { field = 97 ∷ []; ty = 117 ∷ 56 ∷ [] } ∷ record { field = 98 ∷ []; ty = 98 ∷ [] } ∷ []

three_fields-covers : check_layout three_fields 70 ≡ covers
unfolding check_layout end_of
three_fields-covers = refl

check_layout-IsReport_example : IsReport 0 0 three_fields 72 (check_layout three_fields 72)
check_layout-IsReport_example = check_layout-IsReport three_fields 72

check_layout-owners_example : owners three_fields 9 ≡ (if ltb 9 70 then 1 else 0)
check_layout-owners_example = check_layout-owners three_fields 70 9 three_fields-covers

field_width-type_is_example :
    IsFound
      (λ f. f.name)
      (λ f. f.extent.width)
      0
      three_fields
      (98 ∷ [])
      (field_width three_fields (98 ∷ []))
    × IsFound
        (λ t. t.field)
        (λ t. str_eq t.ty (98 ∷ []))
        false
        two_types
        (98 ∷ [])
        (type_is two_types (98 ∷ []) (98 ∷ []))
    × ((str_eq (98 ∷ []) (98 ∷ []) ≡ true) ↔ (◌≡◌ {A = Str} (98 ∷ []) (98 ∷ [])))
field_width-type_is_example = field_width-type_is three_fields two_types (98 ∷ []) (98 ∷ [])
