-- ===== src/Buffer/Pad.antt =====
-- `pad` of crates/layline-core/src/buffer.rs on every buffer.
use layline.Prelude.{ℕ, zero, suc, ◌+◌, ◌-◌, ◌≤◌, ◌<◌, min, List, ◌∷◌, ◌++◌, ◌≡◌, ap, sym}
use layline.Prelude.{arith, append-nil, append_assoc}
use layline.Buffer.{zeros, Status, done, overflow, stuck, Buffer, IsPush, ◌>>=◌, pad_loop, pad}

zeros-add : (a b : ℕ) → zeros (a + b) ≡ zeros a ++ zeros b
zeros-add zero b = let e : 0 + b ≡ b = omega arith in rw e
zeros-add (suc a) b =
    let e : suc a + b ≡ suc (a + b) = omega arith in
    rw e (ap (λ (l : List ℕ). 0 ∷ l) (zeros-add a b))

module _ {B : Type 0} (buffer : Buffer B) where
  open buffer use {IsValid, push, written, push-cases}

  -- What `pad` promises: `n` zeros appended, or an overflow after fewer.
  abbrev pub IsPad : ℕ → B → B × Status → Type 0
  IsPad n b (b', done) = (written b' ≡ written b ++ zeros n) × IsValid b'
  IsPad n b (b', overflow) = (k : ℕ) × (k < n) × (written b' ≡ written b ++ zeros k) × IsValid b'
  IsPad n b (b', stuck) = ⊥

  IsPad-more :
      (k n m : ℕ) (b c : B) (out : B × Status)
      → k + n ≡ m
      → written c ≡ written b ++ zeros k
      → IsPad n c out
      → IsPad m b out
  IsPad-more k n m b c (b', done) e h (w, v) = (rw (← e, zeros-add, ← append_assoc, ← h) w, v)
  IsPad-more k n m b c (b', overflow) e h (j, lt, w, v) =
      (k + j, omega arith, rw (zeros-add, ← append_assoc, ← h) w, v)
  IsPad-more k n m b c (b', stuck) e h p = p

  pad_loop-IsPad :
      (fuel left : ℕ) (b : B) → left ≤ fuel → IsValid b → IsPad left b (pad_loop buffer fuel left b)
  unfolding pad_loop
  pad_loop-IsPad zero zero b le v = (sym (append-nil (written b)), v)
  pad_loop-IsPad (suc fuel) zero b le v = (sym (append-nil (written b)), v)
  pad_loop-IsPad zero (suc left) b le v = absurd (omega arith)
  pad_loop-IsPad (suc fuel) (suc left) b le v =
      let k = min (suc left) 64 in
      step (push (zeros k) b) (push-cases (zeros k) b v)
        (λ c v'. pad_loop-IsPad fuel (suc left - k) c (omega arith) v')
    where
      step :
          (out : B × Status)
          → IsPush IsValid written (zeros (min (suc left) 64)) b out
          → ((c : B)
              → IsValid c
              → IsPad
                  (suc left - min (suc left) 64)
                  c
                  (pad_loop buffer fuel (suc left - min (suc left) 64) c))
          → IsPad (suc left) b (out >>= pad_loop buffer fuel (suc left - min (suc left) 64))
      step (c, done) (w, v') ih =
          IsPad-more (min (suc left) 64) (suc left - min (suc left) 64) (suc left) b c _
            (omega arith) w (ih c v')
      step (c, overflow) same ih =
          (0, omega arith, rw same (sym (append-nil (written b))), rw same v)
      step (c, stuck) p ih = p

  -- On any buffer `pad` returns: it appends `n` zeros, or overflows after fewer than `n` of them,
  -- and keeps the buffer valid.
  pub pad_lem : (n : ℕ) (b : B) → IsValid b → IsPad n b (pad buffer n b)
  unfolding pad
  pad_lem n b v = pad_loop-IsPad n n b (omega arith) v
