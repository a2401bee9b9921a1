-- ===== src/Table/Covers.antt =====
-- `check_layout` of crates/layline-core/src/field.rs: which tables it passes, and what it reports.
use layline.Prelude.{
  ℕ, suc, ◌+◌, ◌≤◌, List, [], ◌∷◌, ◌++◌, false, ◌==◌, leb, ltb, ◌&&◌, if◌then◌else◌,
}
use layline.Prelude.{length, arith, ◌≡◌, ◌≢◌, refl, ap, ◌∙◌, Bool-cases, inl, inr, ==_iff}
use layline.Extent.{Extent, end_of}
use layline.Table.{FieldDef, gap, short_of, Checked, covers, refused, check_from, check_layout}

-- The fields lie end to end from bit `at` to bit `to`.
abbrev pub Tiles : ℕ → List FieldDef → ℕ → Type 0
Tiles at [] to = at ≡ to
Tiles at (f ∷ fs) to = (f.extent.start ≡ at) × Tiles (at + f.extent.width) fs to

-- The fields up to the one that does not start where the one before it ends.
pub record GapAt (at : ℕ) (fields : List FieldDef) (index expected actual : ℕ) : Type 0 where
  pub front : List FieldDef
  pub field : FieldDef
  pub back : List FieldDef
  pub splits : fields ≡ front ++ (field ∷ back)
  pub here : length front ≡ index
  pub tiled : Tiles at front expected
  pub starts : field.extent.start ≡ actual
  pub differs : actual ≢ expected

-- What a report says of the fields.
abbrev pub IsReport : ℕ → ℕ → List FieldDef → ℕ → Checked → Type 0
IsReport i at fields total covers = Tiles at fields total
IsReport i at fields total (refused (gap index expected actual)) =
    (k : ℕ) × (index ≡ i + k) × GapAt at fields k expected actual
IsReport i at fields total (refused (short_of end whole)) =
    Tiles at fields end × (whole ≡ total) × (end ≢ total)

end_of-width : (e : Extent) → end_of e ≡ e.start + e.width
unfolding end_of
end_of-width e = refl

IsReport-cons :
    (i at next : ℕ) (f : FieldDef) (fs : List FieldDef) (total : ℕ) (out : Checked)
    → f.extent.start ≡ at
    → next ≡ at + f.extent.width
    → IsReport (suc i) next fs total out
    → IsReport i at (f ∷ fs) total out
IsReport-cons i at next f fs total covers e e' h = (e, rw e' at h)
IsReport-cons i at next f fs total (refused (gap index expected actual)) e e' (k, here, g) = (
  suc k,
  omega (arith, here),
  record {
    front = f ∷ g.front;
    field = g.field;
    back = g.back;
    splits = ap (λ (l : List FieldDef). f ∷ l) g.splits;
    here = ap suc g.here;
    tiled = (e, rw e' at g.tiled);
    starts = g.starts;
    differs = g.differs;
  },
)
IsReport-cons i at next f fs total (refused (short_of end whole)) e e' (h, w, d) =
    ((e, rw e' at h), w, d)

not_same : (a b : ℕ) → (a == b) ≡ false → a ≢ b
not_same a b h e = ground arith

check_from-IsReport :
    (i at : ℕ) (fields : List FieldDef) (total : ℕ)
    → IsReport i at fields total (check_from i at fields total)
unfolding check_from
check_from-IsReport i at [] total = elim (Bool-cases (at == total)) [
  | inl same ↦ rw same ((==_iff at total).0 same)
  | inr other ↦ rw other (refl, refl, not_same at total other)
]
check_from-IsReport i at (f ∷ fs) total = elim (Bool-cases (f.extent.start == at)) [
  | inl same ↦ rw same (
      let start = (==_iff f.extent.start at).0 same in
      let next : end_of f.extent ≡ at + f.extent.width =
        end_of-width f.extent ∙ ap (λ (k : ℕ). k + f.extent.width) start in
      IsReport-cons i at (end_of f.extent) f fs total _ start next
        (check_from-IsReport (suc i) (end_of f.extent) fs total))
  | inr other ↦ rw other (
    0,
    omega arith,
    record {
      front = [];
      field = f;
      back = fs;
      splits = refl;
      here = refl;
      tiled = refl;
      starts = refl;
      differs = not_same f.extent.start at other;
    },
  )
]

-- `check_layout` passes a table exactly when its fields lie end to end from bit 0 to the last bit.
-- A gap that it reports is at the first field that does not start where the one before it ends,
-- and a short table is one whose fields lie end to end to another bit than the last.
pub check_layout-IsReport :
    (fields : List FieldDef) (total : ℕ) → IsReport 0 0 fields total (check_layout fields total)
unfolding check_layout
check_layout-IsReport fields total = check_from-IsReport 0 0 fields total

-- How many of the fields have a bit.
abbrev pub owners : List FieldDef → ℕ → ℕ
owners [] b = 0
owners (f ∷ fs) b =
    (if leb f.extent.start b && ltb b (f.extent.start + f.extent.width) then 1 else 0) + owners fs b

Tiles-le : (at : ℕ) (fields : List FieldDef) (to : ℕ) → Tiles at fields to → at ≤ to
Tiles-le at [] to e = omega arith
Tiles-le at (f ∷ fs) to (e, h) = omega (arith, Tiles-le (at + f.extent.width) fs to h)

Tiles-owners :
    (at : ℕ) (fields : List FieldDef) (to b : ℕ)
    → Tiles at fields to
    → owners fields b ≡ (if leb at b && ltb b to then 1 else 0)
Tiles-owners at [] to b e = ground arith
Tiles-owners at (f ∷ fs) to b (e, h) =
    let rest = Tiles-owners (at + f.extent.width) fs to b h in
    let le = Tiles-le (at + f.extent.width) fs to h in rw (e, rest) (ground arith)

-- In a table that `check_layout` passes each bit of the container is in one field, and no field
-- has a bit past the container.
pub check_layout-owners :
    (fields : List FieldDef) (total b : ℕ)
    → check_layout fields total ≡ covers
    → owners fields b ≡ (if ltb b total then 1 else 0)
check_layout-owners fields total b passed =
    let tiles : Tiles 0 fields total = rw passed at (check_layout-IsReport fields total) in
    Tiles-owners 0 fields total b tiles ∙ from_zero
  where
    from_zero : ◌≡◌ {A = ℕ} (if leb 0 b && ltb b total then 1 else 0) (if ltb b total then 1 else 0)
    from_zero = ground arith
