-- ===== src/Table/Names.antt =====
-- The look-ups by name of crates/layline-core/src/field.rs.
use layline.Prelude.{List, [], ◌∷◌, ◌++◌, true, false, ◌==◌, if◌then◌else◌, length}
use layline.Prelude.{arith, ◌≡◌, ◌≢◌, ◌↔◌, refl, ap, ◌⊎◌, Bool-cases, inl, inr, ==_iff}
use layline.Table.{Str, FieldDef, TypeDef, bytes_eq, str_eq, field_width, type_is}

bytes_eq_sound : (a b : Str) → length a ≡ length b → bytes_eq a b ≡ true → a ≡ b
unfolding bytes_eq
bytes_eq_sound [] [] len h = refl
bytes_eq_sound [] (b ∷ ys) len h = absurd (omega arith)
bytes_eq_sound (a ∷ xs) [] len h = absurd (omega arith)
bytes_eq_sound (a ∷ xs) (b ∷ ys) len h = elim (Bool-cases (a == b)) [
  | inl same ↦
      let e = (==_iff a b).0 same in
      (λ i. e i ∷ bytes_eq_sound xs ys (omega arith) (rw same at h) i)
  | inr other ↦ absurd (false≢true (rw other at h))
]
  where
    false≢true : false ≢ true
    false≢true e = cc

bytes_eq_refl : (a : Str) → bytes_eq a a ≡ true
unfolding bytes_eq
bytes_eq_refl [] = refl
bytes_eq_refl (a ∷ xs) = rw ((==_iff a a).1 refl) (bytes_eq_refl xs)

-- `str_eq` tells equal strings.
pub str_eq_iff : (a b : Str) → (str_eq a b ≡ true) ↔ (a ≡ b)
unfolding str_eq
str_eq_iff a b = (sound (Bool-cases (length a == length b)), λ e. rw e complete)
  where
    sound :
        ((length a == length b) ≡ true) ⊎ ((length a == length b) ≡ false)
        → (if length a == length b then bytes_eq a b else false) ≡ true
        → a ≡ b
    sound (inl same) h = bytes_eq_sound a b ((==_iff (length a) (length b)).0 same) (rw same at h)
    sound (inr other) h = absurd (cc (rw other at h))

    complete : (if length b == length b then bytes_eq b b else false) ≡ true
    complete = rw ((==_iff (length b) (length b)).1 refl) (bytes_eq_refl b)

-- The first of the rows with a name, or that there is none.
abbrev pub NoneNamed {ℓ} : {R : Type ℓ} → (R → Str) → Str → List R → Type 0
NoneNamed name_of name [] = Unit
NoneNamed name_of name (r ∷ rs) = (name_of r ≢ name) × NoneNamed name_of name rs

pub record FirstNamed {ℓ} {R : Type ℓ} (name_of : R → Str) (name : Str) (rows : List R) (row : R)
    : Type ℓ where
  pub front : List R
  pub back : List R
  pub splits : rows ≡ front ++ (row ∷ back)
  pub before : NoneNamed name_of name front
  pub named : name_of row ≡ name

FirstNamed-cons {ℓ} :
    {R : Type ℓ} (name_of : R → Str) (name : Str) (r row : R) (rows : List R)
    → name_of r ≢ name
    → FirstNamed name_of name rows row
    → FirstNamed name_of name (r ∷ rows) row
FirstNamed-cons name_of name r row rows ne h = record {
  front = r ∷ h.front;
  back = h.back;
  splits = ap (λ l. r ∷ l) h.splits;
  before = (ne, h.before);
  named = h.named;
}

first_row {ℓ} :
    {R : Type ℓ} (name_of : R → Str) (name : Str) (r : R) (rows : List R)
    → name_of r ≡ name
    → FirstNamed name_of name (r ∷ rows) r
first_row name_of name r rows e = record {
  front = [];
  back = rows;
  splits = refl;
  before = tt;
  named = e;
}

-- What a look-up of a name finds: the value of the first row that has it, or a default if none has.
abbrev pub IsFound {ℓ κ} :
    {R : Type ℓ} {V : Type κ} → (R → Str) → (R → V) → V → List R → Str → V → Type (ℓ ⊔ κ)
IsFound {R = R} name_of value_of absent rows name v =
    (NoneNamed name_of name rows × (v ≡ absent))
    ⊎ ((row : R) × FirstNamed name_of name rows row × (v ≡ value_of row))

unequal : (a b : Str) → str_eq a b ≡ false → a ≢ b
unequal a b h e = let same = (str_eq_iff a b).1 e in cc

field_width-IsFound :
    (fields : List FieldDef) (name : Str)
    → IsFound (λ f. f.name) (λ f. f.extent.width) 0 fields name (field_width fields name)
unfolding field_width
field_width-IsFound [] name = inl (tt, refl)
field_width-IsFound (f ∷ fs) name = elim (Bool-cases (str_eq f.name name)) [
  | inl same ↦
      rw same (inr (f, first_row (λ f. f.name) name f fs ((str_eq_iff f.name name).0 same), refl))
  | inr other ↦ rw other (later (unequal f.name name other) (field_width-IsFound fs name))
]
  where
    later :
        f.name ≢ name
        → IsFound (λ f. f.name) (λ f. f.extent.width) 0 fs name (field_width fs name)
        → IsFound (λ f. f.name) (λ f. f.extent.width) 0 (f ∷ fs) name (field_width fs name)
    later ne (inl (none, e)) = inl ((ne, none), e)
    later ne (inr (row, first, e)) =
        inr (row, FirstNamed-cons (λ f. f.name) name f row fs ne first, e)

type_is-IsFound :
    (types : List TypeDef) (name ty : Str)
    → IsFound (λ t. t.field) (λ t. str_eq t.ty ty) false types name (type_is types name ty)
unfolding type_is
type_is-IsFound [] name ty = inl (tt, refl)
type_is-IsFound (t ∷ ts) name ty = elim (Bool-cases (str_eq t.field name)) [
  | inl same ↦
      rw same (inr (t, first_row (λ t. t.field) name t ts ((str_eq_iff t.field name).0 same), refl))
  | inr other ↦ rw other (later (unequal t.field name other) (type_is-IsFound ts name ty))
]
  where
    later :
        t.field ≢ name
        → IsFound (λ t. t.field) (λ t. str_eq t.ty ty) false ts name (type_is ts name ty)
        → IsFound (λ t. t.field) (λ t. str_eq t.ty ty) false (t ∷ ts) name (type_is ts name ty)
    later ne (inl (none, e)) = inl ((ne, none), e)
    later ne (inr (row, first, e)) =
        inr (row, FirstNamed-cons (λ t. t.field) name t row ts ne first, e)

-- `field_width` is the width of the first field with the name, and 0 if no field has it; `type_is`
-- compares, byte for byte, the type of the first row with the name, and is false if no row has it.
pub field_width-type_is :
    (fields : List FieldDef) (types : List TypeDef) (name ty : Str)
    → IsFound (λ f. f.name) (λ f. f.extent.width) 0 fields name (field_width fields name)
      × IsFound (λ t. t.field) (λ t. str_eq t.ty ty) false types name (type_is types name ty)
      × ((str_eq name ty ≡ true) ↔ (name ≡ ty))
field_width-type_is fields types name ty =
    (field_width-IsFound fields name, type_is-IsFound types name ty, str_eq_iff name ty)
