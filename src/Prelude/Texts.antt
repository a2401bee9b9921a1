-- ===== src/Prelude/Texts.antt =====
-- Names as native strings: tests of equality, and lists of names.
use Prim.Native.Char.{code}
use Prim.Native.Nat.{ℕ, suc}
use Prim.Native.String.{String}
use mathlib.Core.Bool.{Bool, true, false}
use mathlib.Core.Option.{Option, none, some}
use mathlib.Core.List.{List, [], ◌∷◌}
use text.Mathlib.Text.{◌==◌}
use layline.Prelude.Tests.{if◌then◌else◌}

abbrev pub same : String → String → Bool
same a b = a == b

-- The code points of a text.
abbrev pub codes : String → List ℕ
codes String.[] = []
codes (String.◌∷◌ c s) = code c ∷ codes s

-- `iter().position(..)`, `iter().any(..)` and `iter().all(..)`.
abbrev pub index_of : String → List String → Option ℕ
index_of name [] = none
index_of name (n ∷ names) =
    if same n name
    then some 0
    else (elim (index_of name names) [ none ↦ none | some k ↦ some (suc k) ])

abbrev pub any {ℓ} : {A : Type ℓ} → (A → Bool) → List A → Bool
any f [] = false
any f (x ∷ xs) = if f x then true else any f xs

abbrev pub all {ℓ} : {A : Type ℓ} → (A → Bool) → List A → Bool
all f [] = true
all f (x ∷ xs) = if f x then all f xs else false
