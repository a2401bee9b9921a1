-- ===== src/Buffer/Vector.antt =====
-- `Buffer for Vec<u8>` of crates/layline-core/src/buffer.rs: it grows, and never overflows.
use layline.Prelude.{ℕ, List, ◌++◌, ◌≡◌, refl, take}
use layline.Buffer.{Status, done, Buffer, IsPush}

pub push : List ℕ → List ℕ → List ℕ × Status
push bytes v = (v ++ bytes, done)

-- `truncate`.
pub rewind : ℕ → List ℕ → List ℕ
rewind to v = take to v

pub vec_push-cases : (bytes v : List ℕ) → IsPush (λ v. Unit {0}) (λ v. v) bytes v (push bytes v)
unfolding push
vec_push-cases bytes v = (refl, tt)

pub rewind-take : (to : ℕ) (v : List ℕ) → rewind to v ≡ take to v
unfolding rewind
rewind-take to v = refl

abbrev pub vec : Buffer (List ℕ)
vec = record {
  IsValid = λ v. Unit {0};
  push = push;
  written = λ v. v;
  overwrite = λ bytes v. bytes;
  rewind = rewind;
  push-cases = λ bytes v h. vec_push-cases bytes v;
  overwrite-written = λ bytes v h e. (refl, tt);
  rewind-written = λ to v h. (rewind-take to v, tt);
}
