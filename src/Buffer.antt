-- ===== src/Buffer.antt =====
-- crates/layline-core/src/buffer.rs: the output buffers of encode. `Buffer` is the trait, with what
-- its documentation promises; `Buffer/Vector` and `Buffer/Fixed` implement it.
pub mod Vector
pub mod Fixed
pub mod Pad
mod Runs
use layline.Prelude.{ℕ, zero, suc, ◌+◌, ◌-◌, ◌≤◌, min, List, [], ◌∷◌, ◌++◌, Bool, true, false, ◌≡◌}
use layline.Prelude.{length, take, replicate, if◌then◌else◌}

-- How a write ends. `stuck` is a panic of the Rust code, or a loop of the model out of fuel.
pub data Status : Type 0 where
  done overflow stuck : Status

-- `?` on the result of a write, with the buffer passed along.
infixl 5 ◌>>=◌
abbrev pub ◌>>=◌ {ℓ} : {S : Type ℓ} → S × Status → (S → S × Status) → S × Status
(s, done) >>= more = more s
(s, overflow) >>= more = (s, overflow)
(s, stuck) >>= more = (s, stuck)

-- What a push promises: the bytes appended, or an overflow that changes nothing.
abbrev pub IsPush : {B : Type 0} → (B → Type 0) → (B → List ℕ) → List ℕ → B → B × Status → Type 0
IsPush IsValid written bytes b (b', done) = (written b' ≡ written b ++ bytes) × IsValid b'
IsPush IsValid written bytes b (b', overflow) = b' ≡ b
IsPush IsValid written bytes b (b', stuck) = ⊥

-- `Buffer`. `overwrite` stands for a change of the bytes through `written_mut`.
pub record Buffer (B : Type 0) : Type 1 where
  pub IsValid : B → Type 0
  pub push : List ℕ → B → B × Status
  pub written : B → List ℕ
  pub overwrite : List ℕ → B → B
  pub rewind : ℕ → B → B
  pub push-cases :
      (bytes : List ℕ) (b : B) → IsValid b → IsPush IsValid written bytes b (push bytes b)
  pub overwrite-written :
      (bytes : List ℕ) (b : B)
      → IsValid b
      → length bytes ≡ length (written b)
      → (written (overwrite bytes b) ≡ bytes) × IsValid (overwrite bytes b)
  pub rewind-written :
      (to : ℕ) (b : B)
      → IsValid b
      → (written (rewind to b) ≡ take to (written b)) × IsValid (rewind to b)

-- `ZEROS`, cut to a length.
abbrev pub zeros : ℕ → List ℕ
zeros n = replicate n 0

-- The trait's own methods.
module _ {B : Type 0} (buffer : Buffer B) where
  open buffer use {push, written}

  -- `len`, and `is_empty`.
  pub len : B → ℕ
  len b = length (written b)

  -- `pad`: zeros, in pieces of up to 64.
  pub pad_loop : ℕ → ℕ → B → B × Status
  pad_loop fuel zero b = (b, done)
  pad_loop zero (suc left) b = (b, stuck)
  pad_loop (suc fuel) (suc left) b =
      let taken = min (suc left) 64 in push (zeros taken) b >>= pad_loop fuel (suc left - taken)

  pub pad : ℕ → B → B × Status
  unfolding pad_loop
  pad n b = pad_loop n n b
