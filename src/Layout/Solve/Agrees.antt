-- ===== src/Layout/Solve/Agrees.antt =====
-- The solver of crates/layline-derive/src/layout/solve.rs against `positioned` of
-- crates/layline-codegen/src/model/layout.rs, which places the fields for the generated tables.
use layline.Prelude.{
  ℕ, List, [], ◌∷◌, Bool, true, false, ◌==◌, Option, none, some, map, ◌≡◌, refl, ap, Bool-cases,
  inl, inr,
}
use layline.Layout.{Container, add_u64, prefix, physical, Positioned, positioned, positioned_from}
use layline.Layout.Fields.{Field}
use layline.Layout.Solve.{
  body_width, kind, Item, Refused, check_placement, check_at, Solved, Outcome, solved, refused,
  with_first, decided, solve_from, solve,
}
use layline.Layout.Solve.Width.{width-kind}

-- The field of the generator's model that an item of the derive stands for.
abbrev pub as_field : Item → Field
as_field item = record {
  name = item.ident;
  kind = kind item.body;
  stated = item.stated;
  magic = none;
  range = none;
  visibility = none;
}

-- An accepted layout has the places that `positioned` gives.
abbrev pub IsAgreed : List Positioned → Outcome → Type 0
IsAgreed places (solved out) =
    map (λ (s : Solved). s.phys_bit) out ≡ map (λ (p : Positioned). p.phys_bit) places
IsAgreed places (refused why) = Unit {0}

decided-IsAgreed :
    (p s : Option Refused) (over : Bool) (beyond : Refused) (here : Solved) (rest : Outcome)
    (first : Positioned) (places : List Positioned)
    → here.phys_bit ≡ first.phys_bit
    → IsAgreed places rest
    → IsAgreed (first ∷ places) (decided p over s beyond here rest)
unfolding decided with_first
decided-IsAgreed (some why) s over beyond here rest first places e h = tt
decided-IsAgreed none s true beyond here rest first places e h = tt
decided-IsAgreed none (some why) false beyond here rest first places e h = tt
decided-IsAgreed none none false beyond here (refused why) first places e h = tt
decided-IsAgreed none none false beyond here (solved out) first places e h = λ i. e i ∷ h i

solve_from-IsAgreed :
    (grid : Container) (total at : ℕ) (items : List Item)
    → IsAgreed (positioned_from grid at (map as_field items)) (solve_from grid total at items)
unfolding solve_from positioned_from
solve_from-IsAgreed grid total at [] = elim (Bool-cases (at == total)) [
  | inl full ↦ rw full refl
  | inr part ↦ rw part tt
]
solve_from-IsAgreed grid total at (item ∷ items) =
    let first : Positioned = record {
      field = as_field item;
      declared = at;
      phys_bit = physical grid (kind item.body) at;
    } in
    let next = ap (add_u64 at) (width-kind item.body) in
    decided-IsAgreed (check_placement grid item at) (check_at grid item at) _ _ _ _ first _ refl
      (rw next (solve_from-IsAgreed grid total (add_u64 at (body_width item.body)) items))

-- The derive and the generator put the fields of an accepted layout in the same places.
pub solve-positioned :
    (grid : Container) (total : ℕ) (items : List Item)
    → IsAgreed (positioned (map as_field items) grid) (solve grid total items)
unfolding solve positioned
solve-positioned grid total items = solve_from-IsAgreed grid total (prefix grid) items
