-- ===== src/Layout/Validate/Passes.antt =====
-- What it takes for the rules of crates/layline-codegen/src/validate.rs to pass, one after the other.
use layline.Prelude.{List, [], ◌∷◌, Bool, true, false, ◌≡◌, refl, All}
use layline.Layout.Invalid.{
  Checked, pass, refuse, ◌>>=◌, ◌>>◌, Verdict, refuse_if, for_each, in_turn, Invalid,
}

pub pass-bind :
    {A B : Type 0} (m : Checked A) (k : A → Checked B) (b : B)
    → (m >>= k) ≡ pass b
    → (a : A) × (m ≡ pass a) × (k a ≡ pass b)
pass-bind (pass a) k b e = (a, refl, e)
pass-bind (refuse why) k b e = absurd cc

pub pass-then :
    {B : Type 0} (m : Verdict) (k : Checked B) (b : B)
    → (m >> k) ≡ pass b
    → (m ≡ pass tt) × (k ≡ pass b)
pass-then (pass a) k b e = (refl, e)
pass-then (refuse why) k b e = absurd cc

pub pass-for_each :
    {A : Type 0} (xs : List A) (rule : A → Verdict)
    → for_each xs rule ≡ pass tt
    → All (λ x. rule x ≡ pass tt) xs
pass-for_each [] rule e = tt
pass-for_each (x ∷ xs) rule e =
    let (first, rest) = pass-then (rule x) (for_each xs rule) tt e in
    (first, pass-for_each xs rule rest)

pub pass-refuse_if : (c : Bool) (why : Invalid) → refuse_if c why ≡ pass tt → c ≡ false
pass-refuse_if true why e = absurd cc
pass-refuse_if false why e = refl

pub pass-in_turn : (vs : List Verdict) → in_turn vs ≡ pass tt → All (λ v. v ≡ pass tt) vs
pass-in_turn [] e = tt
pass-in_turn (v ∷ vs) e =
    let (first, rest) = pass-then v (in_turn vs) tt e in (first, pass-in_turn vs rest)
