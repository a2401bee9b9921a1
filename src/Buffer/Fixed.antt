-- ===== src/Buffer/Fixed.antt =====
-- `Fixed` of crates/layline-core/src/buffer.rs: a buffer over a caller's slice, with no allocator.
use layline.Prelude.{
  ℕ, zero, suc, ◌+◌, ◌-◌, ◌≤◌, min, [], ◌∷◌, List, ◌++◌, ◌≡◌, refl, length, take, drop, ltb,
  if◌then◌else◌,
}
use layline.Prelude.{
  arith, ltb→le, Bool-cases, inl, inr, length-append, length-take, length-drop, sym, ap,
}
use layline.Prelude.{take-append, append_assoc}
use layline.Buffer.{Status, done, overflow, Buffer, IsPush}

pub record Fixed : Type 0 where
  pub room : List ℕ
  pub at : ℕ

-- `Fixed::new`.
pub new : List ℕ → Fixed
new room = record { room = room; at = 0 }

-- What the constructor and the methods keep.
abbrev pub IsValid : Fixed → Type 0
IsValid b = b.at ≤ length b.room

-- `written`, and `into_written`.
pub written : Fixed → List ℕ
written b = take b.at b.room

-- `push`. The sum of two lengths of slices does not overflow a `usize`.
pub push : List ℕ → Fixed → Fixed × Status
push bytes b =
    let end = b.at + length bytes in
    if ltb (length b.room) end
    then (b, overflow)
    else (record { room = take b.at b.room ++ (bytes ++ drop end b.room); at = end }, done)

-- A change of the first `at` bytes through `written_mut`.
pub overwrite : List ℕ → Fixed → Fixed
overwrite bytes b = record b { room = bytes ++ drop b.at b.room }

pub rewind : ℕ → Fixed → Fixed
rewind to b = record b { at = min b.at to }

-- `push` fits exactly when the slice has room for the bytes.
pub push-cases :
    (bytes : List ℕ) (b : Fixed) → IsValid b → IsPush IsValid written bytes b (push bytes b)
unfolding push written
push-cases bytes b v = elim (Bool-cases (ltb (length b.room) (b.at + length bytes))) [
  | inl full ↦ rw full refl
  | inr fits ↦ rw fits (at_end, omega (arith, ltb→le _ _ fits, whole))
]
  where
    front : List ℕ
    front = take b.at b.room ++ bytes

    front_len : length front ≡ b.at + length bytes
    front_len = omega (arith, length-append (take b.at b.room) bytes, length-take b.at b.room)

    at_end :
        take
          (b.at + length bytes)
          (take b.at b.room ++ (bytes ++ drop (b.at + length bytes) b.room))
        ≡ take b.at b.room ++ bytes
    at_end = rw (append_assoc, front_len) at (take-append front (drop (b.at + length bytes) b.room))

    whole :
        length (take b.at b.room ++ (bytes ++ drop (b.at + length bytes) b.room))
        ≡ b.at + length bytes + (length b.room - (b.at + length bytes))
    whole = omega (
      arith,
      length-append (take b.at b.room) (bytes ++ drop (b.at + length bytes) b.room),
      length-append bytes (drop (b.at + length bytes) b.room),
      length-take b.at b.room,
      length-drop (b.at + length bytes) b.room,
    )

pub overwrite-written :
    (bytes : List ℕ) (b : Fixed)
    → IsValid b
    → length bytes ≡ length (written b)
    → (written (overwrite bytes b) ≡ bytes) × IsValid (overwrite bytes b)
unfolding written overwrite
overwrite-written bytes b v e =
    let at : length bytes ≡ b.at = omega (arith, e, length-take b.at b.room) in
    (
      rw at at (take-append bytes (drop b.at b.room)),
      omega (arith, at, length-append bytes (drop b.at b.room)),
    )

min-cases : (a b : ℕ) (xs : List ℕ) → take (min a b) xs ≡ take b (take a xs)
min-cases zero b xs = let e : min 0 b ≡ 0 = omega arith in rw e (sym (take-nil b))
  where
    take-nil : (b : ℕ) → take {A = ℕ} b [] ≡ []
    take-nil zero = refl
    take-nil (suc b) = refl
min-cases (suc a) zero xs = let e : min (suc a) 0 ≡ 0 = omega arith in rw e
min-cases (suc a) (suc b) [] = let e : min (suc a) (suc b) ≡ suc (min a b) = omega arith in rw e
min-cases (suc a) (suc b) (x ∷ xs) =
    let e : min (suc a) (suc b) ≡ suc (min a b) = omega arith in
    rw e (ap (λ l. x ∷ l) (min-cases a b xs))

pub rewind-written :
    (to : ℕ) (b : Fixed)
    → IsValid b
    → (written (rewind to b) ≡ take to (written b)) × IsValid (rewind to b)
unfolding written rewind
rewind-written to b v = (min-cases b.at to b.room, omega arith)

abbrev pub fixed : Buffer Fixed
fixed = record {
  IsValid = IsValid;
  push = push;
  written = written;
  overwrite = overwrite;
  rewind = rewind;
  push-cases = push-cases;
  overwrite-written = overwrite-written;
  rewind-written = rewind-written;
}
