-- ===== src/Nested.antt =====
-- crates/layline-core/src/message.rs: an error of a nested decode, moved to its place in the outer
-- message. The error type is in Prelude/Results/Errors.
mod Runs
use layline.Prelude.{ℕ, zero, suc, ◌+◌, Option, none, some, ◌≡◌, refl, ap, arith}
use layline.Prelude.{ParseError, short, malformed, checksum, prefix, out_of_range, magic, too_deep}

-- `MAX_NESTING_DEPTH`.
abbrev pub max_nesting_depth : ℕ
max_nesting_depth = 128

-- `ParseError::rebased`.
pub rebased : ℕ → ParseError → ParseError
rebased base (short need_bytes got_bytes at) = short need_bytes got_bytes (at + base)
rebased base (malformed field at) = malformed field (at + base)
rebased base (magic field expected at) = magic field expected (at + base)
rebased base (checksum field expected actual) = checksum field expected actual
rebased base (prefix expected got) = prefix expected got
rebased base (out_of_range field value lo hi) = out_of_range field value lo hi
rebased base (too_deep limit) = too_deep limit

-- The position that an error has, if it has one.
abbrev pub position_of : ParseError → Option ℕ
position_of (short need_bytes got_bytes at) = some at
position_of (malformed field at) = some at
position_of (magic field expected at) = some at
position_of (checksum field expected actual) = none
position_of (prefix expected got) = none
position_of (out_of_range field value lo hi) = none
position_of (too_deep limit) = none

abbrev pub moved : ℕ → Option ℕ → Option ℕ
moved base none = none
moved base (some at) = some (at + base)

-- Moving an error shifts the position of every error that has one, and moving it out of two
-- messages, one in the other, is moving it by both their places.
pub rebased-rebased :
    (inner outer : ℕ) (e : ParseError)
    → (position_of (rebased outer e) ≡ moved outer (position_of e))
      × (rebased outer (rebased inner e) ≡ rebased (inner + outer) e)
unfolding rebased
rebased-rebased inner outer (short need_bytes got_bytes at) =
    (refl, ap (λ (k : ℕ). short need_bytes got_bytes k) (omega arith))
rebased-rebased inner outer (malformed field at) =
    (refl, ap (λ (k : ℕ). malformed field k) (omega arith))
rebased-rebased inner outer (magic field expected at) =
    (refl, ap (λ (k : ℕ). magic field expected k) (omega arith))
rebased-rebased inner outer (checksum field expected actual) = (refl, refl)
rebased-rebased inner outer (prefix expected got) = (refl, refl)
rebased-rebased inner outer (out_of_range field value lo hi) = (refl, refl)
rebased-rebased inner outer (too_deep limit) = (refl, refl)
