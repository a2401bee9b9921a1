-- ===== src/Prelude/Results/Errors.antt =====
-- The decode error of crates/layline-core/src/message.rs.
use Prim.Native.Nat.{ℕ}
use Prim.Native.String.{String}
use mathlib.Core.List.{List}
use layline.Prelude.Int.{ℤ}

pub data ParseError : Type 0 where
  -- need_bytes, got_bytes, at
  short : ℕ → ℕ → ℕ → ParseError
  -- field, at
  malformed : String → ℕ → ParseError
  -- field, expected, actual
  checksum : String → ℤ → ℤ → ParseError
  -- expected, got
  prefix : ℕ → ℕ → ParseError
  -- field, value, lo, hi
  out_of_range : String → ℤ → ℤ → ℤ → ParseError
  -- field, expected, at
  magic : String → List ℕ → ℕ → ParseError
  -- limit
  too_deep : ℕ → ParseError
