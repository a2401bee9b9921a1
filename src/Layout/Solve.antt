-- ===== src/Layout/Solve.antt =====
-- crates/layline-derive/src/layout/solve.rs, and `Body` of layout/mod.rs: the solver of the derive
-- macro, which places the fields of a layout and refuses those that do not cover it.
pub mod Width
pub mod Mirror
pub mod Placed
pub mod Tiles
pub mod Agrees
mod Runs
use Prim.Native.String.{String}
use layline.Prelude.{
  ℕ, ◌+◌, ◌-◌, ◌*◌, ◌%◌, ◌^◌, ◌/◌, List, [], ◌∷◌, ◌++◌, Bool, true, false, ◌==◌, ltb, ◌&&◌, not,
  min, if◌then◌else◌, Option, none, some,
}
use layline.Layout.{
  Container, add_u64, prefix, physical, interior_boundary, check_stated, Misplaced,
}
use layline.Layout.Fields.{
  Kind, Scalar, u, i, scalar, codec, nested, array, nested_array, product, mul_u64, Stated,
}

-- `Reading`. The scalar of `Native` is not read here.
pub data Reading : Type 0 where
  uint : (primitive : ℕ) → Reading
  int bool codec_of native_of : Reading

-- `Body`, with the type of a field as its text.
pub data Body : Type 0 where
  packed : (ty : String) (reading : Reading) (bits : ℕ) → Body
  layout : (ty : String) (bytes : ℕ) → Body
  repeat : Body → (len : ℕ) → Body

-- `Body::width` and `element_bits`.
unfoldable pub body_width : Body → ℕ
body_width (packed ty reading n) = n
body_width (layout ty size) = mul_u64 size 8
body_width (repeat body len) = mul_u64 (body_width body) len

unfoldable pub element_bits : Body → ℕ
unfolding body_width
element_bits (repeat body len) = body_width body
element_bits body = body_width body

-- The kind of a body below repeats of the lengths `dims`, outermost first.
unfoldable pub kind_of_scalar : String → Reading → ℕ → Kind
kind_of_scalar ty int n = scalar (i n)
kind_of_scalar ty codec_of n = codec ty n
kind_of_scalar ty _ n = scalar (u n)

unfoldable pub element_scalar : Reading → ℕ → Scalar
element_scalar int n = i n
element_scalar _ n = u n

pub kind_under : List ℕ → Body → Kind
unfolding kind_of_scalar element_scalar
kind_under [] (packed ty reading n) = kind_of_scalar ty reading n
kind_under dims (packed ty reading n) = array (element_scalar reading n) dims
kind_under [] (layout ty size) = nested ty size
kind_under dims (layout ty size) = nested_array ty size (product dims)
kind_under dims (repeat body len) = kind_under (dims ++ (len ∷ [])) body

-- `Body::kind`.
unfoldable pub kind : Body → Kind
unfolding kind_under
kind body = kind_under [] body

-- The parts of an `Item` that the solver reads.
pub record Item : Type 0 where
  pub ident : String
  pub stated : Option Stated
  pub body : Body

-- Why `solve` refuses a layout.
pub data Refused : Type 0 where
  crosses : (ident : String) (from to : ℕ) → Refused
  unaligned : (ident : String) (at align : ℕ) → Refused
  overflows : (ident : String) (from to : ℕ) → Refused
  misplaced : (ident : String) → Misplaced → Refused
  shortfall : (at total : ℕ) → Refused

-- `check_placement`, without a result where it accepts: a body at bit `at` of words of `region` bits.
pub check_body : String → ℕ → ℕ → Body → Option Refused
unfolding element_bits body_width
check_body ident at region (packed ty reading n) =
    if ltb region (add_u64 (at % region) n) then some (crosses ident at (add_u64 at n)) else none
check_body ident at region body =
    let align = min region (element_bits body) in
    if not (align == 0) && not (at % align == 0) then some (unaligned ident at align) else none

pub check_placement : Container → Item → ℕ → Option Refused
unfolding check_body
check_placement grid item at = elim (interior_boundary grid) [
  | none ↦ none
  | some region ↦ check_body item.ident at region item.body
]

-- A solved item: its place and its width.
pub record Solved : Type 0 where
  pub phys_bit : ℕ
  pub bits : ℕ

pub data Outcome : Type 0 where
  solved : List Solved → Outcome
  refused : Refused → Outcome

pub with_first : Solved → Outcome → Outcome
with_first s (solved rest) = solved (s ∷ rest)
with_first s (refused why) = refused why

-- The check of an `#[at]`.
pub check_at : Container → Item → ℕ → Option Refused
check_at grid item at = elim item.stated [
  | none ↦ none
  | some s ↦ elim (check_stated grid (kind item.body) s at) [
    | none ↦ none
    | some why ↦ some (misplaced item.ident why)
  ]
]

-- What a round makes of its checks, in their order: the placement, the end of the field, which
-- `over` says is beyond the layout, and the stated position.
pub decided :
    (placement : Option Refused) (over : Bool) (stated : Option Refused)
    → Refused
    → Solved
    → Outcome
    → Outcome
unfolding with_first
decided (some why) over stated beyond here rest = refused why
decided none true stated beyond here rest = refused beyond
decided none false (some why) beyond here rest = refused why
decided none false none beyond here rest = with_first here rest

-- `Plan::solve`, from bit `at` on; `total` is `Plan::bits`.
pub solve_from : Container → ℕ → ℕ → List Item → Outcome
solve_from grid total at [] = if at == total then solved [] else refused (shortfall at total)
solve_from grid total at (item ∷ items) =
    let end = add_u64 at (body_width item.body) in
    let rest = solve_from grid total end items in
    let here : Solved = record {
      phys_bit = physical grid (kind item.body) at;
      bits = body_width item.body;
    } in
    decided (check_placement grid item at) (ltb total end) (check_at grid item at)
      (overflows item.ident at end) here rest

pub solve : Container → ℕ → List Item → Outcome
unfolding solve_from
solve grid total items = solve_from grid total (prefix grid) items
