-- ===== src/Layout/Solve/Placed.antt =====
-- The placement check of crates/layline-derive/src/layout/solve.rs gives what the mirror needs.
use Prim.Native.String.{String}
use layline.Prelude.{
  ℕ, ◌+◌, ◌%◌, ◌^◌, ◌≤◌, ◌<◌, List, [], ◌∷◌, ◌++◌, Bool, true, false, ◌==◌, ltb, ◌&&◌, not, min,
  if◌then◌else◌, none, some, ◌≡◌, refl, arith, inl, inr, ==_iff, ltb→le,
}
use layline.Layout.{
  Container, Endian, word, in_bytes, in_words, lsb, msb, add_u64, is_packed, container_bits,
  interior_boundary,
}
use layline.Layout.Solve.{
  Body, packed, layout, repeat, Reading, body_width, element_bits, kind_under, kind, kind_of_scalar,
  uint, int, bool, codec_of, native_of, Item, Refused, crosses, unaligned, check_body,
  check_placement,
}
use layline.Layout.Solve.Mirror.{IsPlaced}

kind-is_packed : (ty : String) (r : Reading) (n : ℕ) → is_packed (kind (packed ty r n)) ≡ true
unfolding kind kind_under kind_of_scalar is_packed
kind-is_packed ty int n = refl
kind-is_packed ty codec_of n = refl
kind-is_packed ty (uint k) n = refl
kind-is_packed ty bool n = refl
kind-is_packed ty native_of n = refl

repeated-is_packed :
    (d : ℕ) (dims : List ℕ) (b : Body) → is_packed (kind_under (d ∷ dims) b) ≡ false
unfolding kind_under is_packed
repeated-is_packed d dims (packed ty r n) = refl
repeated-is_packed d dims (layout ty size) = refl
repeated-is_packed d dims (repeat b len) = repeated-is_packed d (dims ++ (len ∷ [])) b

-- In a container mirrored as one word every field is a bit field. In mirrored words an array or a
-- nested layout is of whole words, with elements of at least a word. The derive admits other fields
-- there too, such as arrays of bytes, which are not mirrored and may overlap those that are.
abbrev pub IsMirrored : Container → Body → Type 0
IsMirrored (word _ _ _ _ msb) (packed _ _ _) = Unit {0}
IsMirrored (word _ _ _ _ msb) b = ⊥
IsMirrored (in_words _ _ msb) (packed _ _ _) = Unit {0}
IsMirrored (in_words _ _ msb) b = (16 ≤ element_bits b) × (body_width b % 16 ≡ 0)
IsMirrored _ _ = Unit {0}

accepted : (b : Bool) (why : Refused) → (if b then some why else none) ≡ none → b ≡ false
accepted true why e = absurd cc
accepted false why e = refl

whole_words :
    (ident : String) (at align : ℕ)
    → (if not (align == 0) && not (at % align == 0) then some (unaligned ident at align) else none)
      ≡ none
    → align ≡ 16
    → at % 16 ≡ 0
whole_words ident at align e a =
    let b = accepted (not (align == 0) && not (at % align == 0)) (unaligned ident at align) e in
    (==_iff (at % 16) 0).0 (ground (arith, rw a at b))

check_body-IsPlaced :
    (ident : String) (n : ℕ) (e : Endian) (at : ℕ) (body : Body)
    → body_width body < 2 ^ 62
    → IsMirrored (in_words n e msb) body
    → check_body ident at 16 body ≡ none
    → IsPlaced (in_words n e msb) (kind body) at (body_width body)
unfolding check_body body_width kind is_packed
check_body-IsPlaced ident n e at (packed ty r w) small planned ok =
    let b = accepted (ltb 16 (add_u64 (at % 16) w)) (crosses ident at (add_u64 at w)) ok in
    inl (kind-is_packed ty r w, omega (arith, ltb→le _ _ b))
check_body-IsPlaced ident n e at (layout ty size) small (wide, even) ok =
    let align : min 16 (element_bits (layout ty size)) ≡ 16 = omega arith in
    inr (refl, whole_words ident at (min 16 (element_bits (layout ty size))) ok align, even)
check_body-IsPlaced ident n e at (repeat body len) small (wide, even) ok =
    let align : min 16 (element_bits (repeat body len)) ≡ 16 = omega arith in
    inr (
      repeated-is_packed len [] body,
      whole_words ident at (min 16 (element_bits (repeat body len))) ok align,
      even,
    )

-- An item that passes the check is placed as the mirror needs it.
pub check_placement-IsPlaced :
    (grid : Container) (item : Item) (at : ℕ)
    → body_width item.body < 2 ^ 62
    → at + body_width item.body ≤ container_bits grid
    → container_bits grid < 2 ^ 32
    → IsMirrored grid item.body
    → check_placement grid item at ≡ none
    → IsPlaced grid (kind item.body) at (body_width item.body)
unfolding check_placement interior_boundary container_bits
check_placement-IsPlaced (in_bytes n e) item at small fits total planned ok = tt
check_placement-IsPlaced (word n p v e lsb) item at small fits total planned ok = tt
check_placement-IsPlaced (in_words n e lsb) item at small fits total planned ok = tt
check_placement-IsPlaced (in_words n e msb) item at small fits total planned ok =
    check_body-IsPlaced item.ident n e at item.body small planned ok
check_placement-IsPlaced (word n p v e msb) item at small fits total planned ok =
    (bit_field item.body planned, fits, omega arith)
  where
    bit_field : (b : Body) → IsMirrored (word n p v e msb) b → is_packed (kind b) ≡ true
    bit_field (packed ty r w) h = kind-is_packed ty r w
    bit_field (layout ty size) h = absurd h
    bit_field (repeat b len) h = absurd h
