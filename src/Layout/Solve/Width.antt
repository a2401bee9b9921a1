-- ===== src/Layout/Solve/Width.antt =====
-- The width of a `Body` of crates/layline-derive/src/layout/mod.rs is that of its `Kind`.
use layline.Prelude.{
  ℕ, ◌+◌, ◌*◌, ◌/◌, ◌%◌, ◌^◌, List, [], ◌∷◌, ◌++◌, ◌≡◌, refl, ap, sym, ◌∙◌, arith, div-mod,
}
use native.Mathlib.Nat.{add-mul-mod_self_left}
use layline.Layout.Fields.{mul_u64, product, width}
use layline.Layout.Solve.{
  Body, packed, layout, repeat, body_width, kind_under, kind, kind_of_scalar, element_scalar, uint,
  int, bool, codec_of, native_of,
}

-- The wrap of a factor does not change the wrap of a product.
mul_u64-mod : (a b : ℕ) → a % 2 ^ 64 * b % 2 ^ 64 ≡ a * b % 2 ^ 64
mul_u64-mod a b =
    let m = 2 ^ 64 in
    let parts = (div-mod a m (omega arith)).0 in
    let whole : a * b ≡ a % m * b + m * (a / m * b) = omega (arith, ap (λ (k : ℕ). k * b) parts) in
    sym (ap (λ (k : ℕ). k % m) whole ∙ add-mul-mod_self_left (a % m * b) m (a / m * b))

mul_u64_comm : (a b : ℕ) → mul_u64 a b ≡ mul_u64 b a
mul_u64_comm a b = ap (λ (k : ℕ). k % 2 ^ 64) (omega arith)

mul_u64_assoc : (a b c : ℕ) → mul_u64 (mul_u64 a b) c ≡ mul_u64 a (mul_u64 b c)
mul_u64_assoc a b c =
    mul_u64-mod (a * b) c
    ∙ ap (λ (k : ℕ). k % 2 ^ 64) (omega arith)
    ∙ sym (mul_u64-mod (b * c) a)
    ∙ mul_u64_comm (mul_u64 b c) a

mul_u64_one : (a b : ℕ) → mul_u64 (mul_u64 a 1) b ≡ mul_u64 a b
mul_u64_one a b = mul_u64-mod (a * 1) b ∙ ap (λ (k : ℕ). k * b % 2 ^ 64) (omega arith)

product-snoc : (dims : List ℕ) (len : ℕ) → product (dims ++ (len ∷ [])) ≡ mul_u64 (product dims) len
unfolding product
product-snoc [] len = mul_u64_comm len 1
product-snoc (d ∷ dims) len =
    ap (mul_u64 d) (product-snoc dims len) ∙ sym (mul_u64_assoc d (product dims) len)

-- A width repeated along `dims`.
abbrev times : List ℕ → ℕ → ℕ
times [] w = w
times (d ∷ dims) w = mul_u64 w (product (d ∷ dims))

times-snoc : (dims : List ℕ) (len w : ℕ) → times dims (mul_u64 w len) ≡ times (dims ++ (len ∷ [])) w
unfolding product
times-snoc [] len w =
    let one : w * len ≡ w * len * 1 = omega arith in
    ap (λ (k : ℕ). k % 2 ^ 64) one ∙ sym (mul_u64-mod (w * len) 1) ∙ mul_u64_assoc w len 1
times-snoc (d ∷ dims) len w =
    let p = product (d ∷ dims) in
    mul_u64_assoc w len p ∙ ap (mul_u64 w) (mul_u64_comm len p ∙ sym (product-snoc (d ∷ dims) len))

width-kind_under :
    (dims : List ℕ) (body : Body) → width (kind_under dims body) ≡ times dims (body_width body)
unfolding width kind_under body_width kind_of_scalar element_scalar
width-kind_under [] (packed ty int n) = refl
width-kind_under [] (packed ty codec_of n) = refl
width-kind_under [] (packed ty (uint k) n) = refl
width-kind_under [] (packed ty bool n) = refl
width-kind_under [] (packed ty native_of n) = refl
width-kind_under (d ∷ dims) (packed ty int n) = refl
width-kind_under (d ∷ dims) (packed ty codec_of n) = refl
width-kind_under (d ∷ dims) (packed ty (uint k) n) = refl
width-kind_under (d ∷ dims) (packed ty bool n) = refl
width-kind_under (d ∷ dims) (packed ty native_of n) = refl
width-kind_under [] (layout ty size) = refl
width-kind_under (d ∷ dims) (layout ty size) =
    let p = product (d ∷ dims) in
    mul_u64_assoc size p 8 ∙ ap (mul_u64 size) (mul_u64_comm p 8) ∙ sym (mul_u64_assoc size 8 p)
width-kind_under [] (repeat body len) =
    width-kind_under (len ∷ []) body ∙ sym (times-snoc [] len (body_width body))
width-kind_under (d ∷ dims) (repeat body len) =
    width-kind_under ((d ∷ dims) ++ (len ∷ [])) body
    ∙ sym (times-snoc (d ∷ dims) len (body_width body))

-- The kind that the solver places has the width that it counts.
pub width-kind : (body : Body) → width (kind body) ≡ body_width body
unfolding kind
width-kind body = width-kind_under [] body
