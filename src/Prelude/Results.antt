-- ===== src/Prelude/Results.antt =====
-- `Result<A, ParseError>` of a Rust function, with a third outcome for a panic.
mod Errors
pub use Errors.*
use mathlib.Core.Path.{◌≡◌, refl}
use mathlib.Core.Bool.{Bool, true, false}
use mathlib.Core.Option.{Option, none, some}

pub data Res {ℓ} (A : Type ℓ) : Type ℓ where
  ok : A → Res A
  err : ParseError → Res A
  -- The Rust code would panic here, or a loop of the model would be out of fuel.
  panic : Res A

infixl 5 ◌>>=◌ ◌>>◌
abbrev pub ◌>>=◌ {ℓ κ} : {A : Type ℓ} {B : Type κ} → Res A → (A → Res B) → Res B
ok a >>= f = f a
err e >>= f = err e
panic >>= f = panic

abbrev pub ◌>>◌ {ℓ} : {B : Type ℓ} → Res (Unit {0}) → Res B → Res B
m >> k = m >>= λ _. k

-- An index or an `expect` that must hold.
abbrev pub expect {ℓ} : {A : Type ℓ} → Option A → Res A
expect none = panic
expect (some a) = ok a
