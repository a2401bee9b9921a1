-- ===== src/Frame/Scan.antt =====
-- The two scanning loops of crates/layline-core/src/frame.rs, `parse` and `complete_frame_beyond`:
-- where they stop, and that they pass over nothing.
use layline.Prelude.{ℕ, zero, suc, ◌+◌, ◌≤◌, ◌<◌, List, [], ◌∷◌, true, false}
use layline.Prelude.{some, ltb, leb, length, drop, ◌≡◌}
use layline.Prelude.{lt→leb, lt→ltb, ltb→lt, ltb→le, arith, inl, inr, Bool-cases}
use layline.Frame.{FrameSpec, IsSpec}
use layline.Frame.{Found}
use layline.Frame.{
  at, missing, first_candidate, complete_here, complete_from, complete_frame_beyond,
}

module _ (s : FrameSpec) where
  -- Nothing among the first `k` positions of `buf` is a candidate.
  abbrev pub NoneBelow : List ℕ → ℕ → Type 0
  NoneBelow buf k = (j : ℕ) → j < k → s.candidate (drop j buf) ≡ false

  NoneBelow-suc :
      (b : ℕ) (bs : List ℕ) (k : ℕ)
      → s.candidate (b ∷ bs) ≡ false
      → NoneBelow bs k
      → NoneBelow (b ∷ bs) (suc k)
  NoneBelow-suc b bs k h none_below zero lt = h
  NoneBelow-suc b bs k h none_below (suc j) lt = none_below j (omega arith)

  -- Where the first loop stops, started at position `i` with `buf` to go: `k` positions on.
  abbrev pub IsFound : ℕ → List ℕ → Found → Type 0
  IsFound i buf (at j) =
      (k : ℕ) × (j ≡ i + k)
      × (k + s.candidate_len ≤ length buf)
      × (s.candidate (drop k buf) ≡ true)
      × NoneBelow buf k
  IsFound i buf (missing j) =
      (k : ℕ) × (j ≡ i + k)
      × (k ≤ length buf)
      × (length buf < k + s.candidate_len)
      × NoneBelow buf k

  IsFound-cons :
      (i b : ℕ) (bs : List ℕ) (f : Found)
      → s.candidate (b ∷ bs) ≡ false
      → IsFound (i + 1) bs f
      → IsFound i (b ∷ bs) f
  IsFound-cons i b bs (at j) h (k, e, fits, yes_at, below) =
      (suc k, omega arith, omega arith, yes_at, NoneBelow-suc b bs k h below)
  IsFound-cons i b bs (missing j) h (k, e, le, short, below) =
      (suc k, omega arith, omega arith, omega arith, NoneBelow-suc b bs k h below)

  IsFound-here :
      (i : ℕ) (buf : List ℕ)
      → s.candidate buf ≡ true
      → s.candidate_len ≤ length buf
      → IsFound i buf (at i)
  IsFound-here i buf h le = (0, omega arith, omega arith, h, λ j lt. absurd (omega arith))

  IsFound-short : (i : ℕ) (buf : List ℕ) → length buf < s.candidate_len → IsFound i buf (missing i)
  IsFound-short i buf lt = (0, omega arith, omega arith, omega arith, λ j l. absurd (omega arith))

  module _ (sound : IsSpec s) where
    pub first_candidate-IsFound : (i : ℕ) (buf : List ℕ) → IsFound i buf (first_candidate s i buf)
    unfolding first_candidate
    first_candidate-IsFound i [] =
        rw (lt→ltb 0 s.candidate_len sound.candidate_pos) (IsFound-short i [] sound.candidate_pos)
    first_candidate-IsFound i (b ∷ bs) = elim (Bool-cases (ltb (length (b ∷ bs)) s.candidate_len)) [
      | inl short ↦ rw short (IsFound-short i (b ∷ bs) (ltb→lt _ _ short))
      | inr long ↦ rw long (elim (Bool-cases (s.candidate (b ∷ bs))) [
        | inl here ↦ rw here (IsFound-here i (b ∷ bs) here (ltb→le _ _ long))
        | inr on ↦ rw on (
            IsFound-cons i b bs (first_candidate s (i + 1) bs) on
              (first_candidate-IsFound (i + 1) bs))
      ])
    ]

  -- Whether the second loop would stop at this position.
  abbrev pub IsSkipped : List ℕ → ℕ → Type 0
  IsSkipped buf k = (j : ℕ) → j < k → complete_here s (drop j buf) ≡ false

  pub complete_from-cases :
      (i : ℕ) (buf : List ℕ) (j : ℕ)
      → 1 ≤ s.candidate_len
      → complete_from s i buf ≡ some j
      → (k : ℕ) × (j ≡ i + k) × (k < length buf) × IsSkipped buf k
  unfolding complete_from
  complete_from-cases i [] j pos h = cc (rw (lt→leb s.candidate_len 0 pos) at h)
  complete_from-cases i (b ∷ bs) j pos h =
      elim (Bool-cases (leb s.candidate_len (length (b ∷ bs)))) [
        | inl long ↦ elim (Bool-cases (complete_here s (b ∷ bs))) [
          | inl here ↦ (0, ground arith, omega arith, λ k lt. absurd (omega arith))
          | inr on ↦
              let rest = complete_from-cases (i + 1) bs j pos (rw (long, on) at h) in
              (suc rest.0, omega (arith, rest), omega (arith, rest), skip rest.0 on rest.3)
        ]
        | inr short ↦ cc (rw short at h)
      ]
    where
      skip :
          (k : ℕ) → complete_here s (b ∷ bs) ≡ false → IsSkipped bs k → IsSkipped (b ∷ bs) (suc k)
      skip k e sk zero lt = e
      skip k e sk (suc m) lt = sk m (omega arith)

  -- The scan past an incomplete frame stops inside the buffer.
  pub beyond-cases :
      (buf : List ℕ) (j : ℕ)
      → 1 ≤ s.candidate_len
      → complete_frame_beyond s buf ≡ some j
      → (1 ≤ j)
        × (j < length buf)
        × ((k : ℕ) → 1 ≤ k → k < j → complete_here s (drop k buf) ≡ false)
  unfolding complete_frame_beyond
  beyond-cases [] j pos h = cc
  beyond-cases (b ∷ bs) j pos h =
      let found = complete_from-cases 1 bs j pos h in
      (omega (arith, found), omega (arith, found), λ k one lt. skip found k one lt)
    where
      skip :
          (k : ℕ) × (j ≡ 1 + k) × (k < length bs) × IsSkipped bs k
          → (k : ℕ) → 1 ≤ k
          → k < j
          → complete_here s (drop k (b ∷ bs)) ≡ false
      skip f zero one lt = absurd (omega arith)
      skip f (suc k) one lt = f.3 k (omega (arith, f))
