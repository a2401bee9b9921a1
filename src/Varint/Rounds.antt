-- ===== src/Varint/Rounds.antt =====
-- One round of the encodes of crates/layline-core/src/num/varint.rs: a byte pushed, and an end or
-- another round.
use layline.Prelude.{
  ℕ, List, [], ◌∷◌, ◌++◌, Bool, true, false, if◌then◌else◌, ◌≡◌, refl, ap, sym, ◌∙◌, Bool-cases,
  inl, inr, append_assoc, append-nil, ◌⊎◌,
}
use layline.Buffer.{Buffer, Status, done, overflow, stuck, IsPush, ◌>>=◌}

module _ {B : Type 0} (buffer : Buffer B) where
  open buffer use {IsValid, push, written, push-cases}

  -- How an encode ends: with all the bytes appended, or with the first of them.
  abbrev pub IsEncode : List ℕ → B → B × Status → Type 0
  IsEncode bytes b (b', done) = (written b' ≡ written b ++ bytes) × IsValid b'
  IsEncode bytes b (b', overflow) =
      (front back : List ℕ) × (bytes ≡ front ++ back)
      × (written b' ≡ written b ++ front)
      × IsValid b'
  IsEncode bytes b (b', stuck) = ⊥

  IsEncode-cons :
      (x : ℕ) (bytes : List ℕ) (b c : B) (out : B × Status)
      → written c ≡ written b ++ (x ∷ [])
      → IsEncode bytes c out
      → IsEncode (x ∷ bytes) b out
  IsEncode-cons x bytes b c (b', done) e (w, v) =
      (w ∙ ap (λ (l : List ℕ). l ++ bytes) e ∙ append_assoc (written b) (x ∷ []) bytes, v)
  IsEncode-cons x bytes b c (b', overflow) e (front, back, splits, w, v) = (
    x ∷ front,
    back,
    ap (λ (l : List ℕ). x ∷ l) splits,
    w ∙ ap (λ (l : List ℕ). l ++ front) e ∙ append_assoc (written b) (x ∷ []) front,
    v,
  )
  IsEncode-cons x bytes b c (b', stuck) e h = h

  -- The byte `x`, and if it is not the last one what `again` appends.
  module _ (x : ℕ) (last : Bool) (bytes : List ℕ) (again : B → B × Status) (b : B) (v : IsValid b)
      (rest : (c : B) → IsValid c → last ≡ false → IsEncode bytes c (again c)) where
    abbrev all_bytes : List ℕ
    all_bytes = if last then x ∷ [] else x ∷ bytes

    abbrev next : B → B × Status
    next c = if last then (c, done) else again c

    after :
        (c : B)
        → written c ≡ written b ++ (x ∷ [])
        → IsValid c
        → (last ≡ true) ⊎ (last ≡ false)
        → IsEncode all_bytes b (next c)
    after c w vc (inl ends) = rw ends (w, vc)
    after c w vc (inr more) = rw more (IsEncode-cons x bytes b c _ w (rest c vc more))

    pushed :
        (out : B × Status)
        → IsPush IsValid written (x ∷ []) b out
        → IsEncode all_bytes b (out >>= next)
    pushed (c, done) (w, vc) = after c w vc (Bool-cases last)
    pushed (c, overflow) same =
        ([], all_bytes, refl, rw same (sym (append-nil (written b))), rw same v)
    pushed (c, stuck) h = h

    pub round-IsEncode : IsEncode all_bytes b (push (x ∷ []) b >>= next)
    round-IsEncode = pushed (push (x ∷ []) b) (push-cases (x ∷ []) b v)
