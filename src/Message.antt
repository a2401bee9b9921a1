-- ===== src/Message.antt =====
-- crates/layline-codegen/src/model/message.rs: the segments of a message, without their
-- documentation, which no rule reads. `Discriminant` is of model/choice.rs.
use Prim.Native.String.{String}
use layline.Prelude.{ℕ, List, [], ◌∷◌, Option, none, some, map}
use layline.Layout.Fields.{Stated, By, Len, Scalar, Kind, Coverage, Field}

-- `Count`, how many elements a collection has.
pub data Count : Type 0 where
  field squared : (by : By) (cap : Option ℕ) → Count
  strided : (by : By) (cap : Option ℕ) (stride : By) → Count
  window : Len → Count
  terminated : (mask : ℕ) → Count
  fill : (cap : Option ℕ) → Count

-- `Presence`, when an optional field is there.
pub data Presence : Type 0 where
  mask mask_clear : (field : String) (mask : ℕ) → Presence
  flag flag_clear : (field : String) → Presence
  bit remaining : Presence

-- `Absence`, `Collection` and `Discriminant`.
pub data Absence : Type 0 where
  zero_offset : Absence
  zero_length : (by : String) (align : Option ℕ) → Absence

pub data Collection : Type 0 where
  vec boxed borrowed borrowed_array : Collection

pub data Discriminant : Type 0 where
  value_of : (field : String) → Discriminant
  body_length : Discriminant

-- `Segment`.
pub data Segment : Type 0 where
  block : List Field → Segment
  value : (name : String) (stated : Option Stated) (kind : Kind) → Segment
  repeat :
      (name : String) (stated : Option Stated) (element : Kind) (count : Count) (at : Option String)
      (collection : Collection)
      → Segment
  placed :
      (name : String) (stated : Option Stated) (kind : Kind) (at : String) (absent : Option Absence)
      → Segment
  switch :
      (name : String) (stated : Option Stated) (on : Discriminant) (choice : String)
      (window : Option Len)
      → Segment
  opt : (when : Presence) (field : Field) → Segment
  checksum :
      (name : String) (stated : Option Stated) (repr : Scalar) (algorithm : String)
      (over : Coverage)
      → Segment

-- `Segment::places`.
unfoldable pub places : Segment → List String
places (block fields) = map (λ f. f.name) fields
places (value name _ _) = name ∷ []
places (repeat name _ _ _ _ _) = name ∷ []
places (placed name _ _ _ none) = name ∷ []
places (placed name _ _ _ (some absent)) = []
places (switch name _ _ _ _) = name ∷ []
places (opt _ _) = []
places (checksum name _ _ _ _) = name ∷ []
