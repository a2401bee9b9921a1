-- ===== src/ExpGolomb/Split.antt =====
-- `ExpGolomb::split` of crates/layline-core/src/num/expgolomb.rs: the zero bits and the suffix of a value.
use layline.Prelude.{
  ℕ, zero, suc, ◌+◌, ◌/◌, ◌^◌, ◌≤◌, ◌<◌, ◌==◌, u64_max, ◌≡◌, arith, Bool-cases, leb, leb→le, leb→lt,
  inl, inr, ==_iff, two-pow-add, two-pow-suc, two-pow-le,
}
use layline.ExpGolomb.{ilog2_from, ilog2, split}
use layline.ExpGolomb.Decode.{IsWord}

-- `2 ^ k` is the largest power of two that is not above `n`.
abbrev pub IsLog : ℕ → ℕ → Type 0
IsLog n k = (2 ^ k ≤ n) × (n < 2 ^ (k + 1))

ilog2_from-IsLog : (fuel n : ℕ) → 1 ≤ n → n < 2 ^ suc fuel → IsLog n (ilog2_from fuel n)
unfolding ilog2_from
ilog2_from-IsLog zero n pos lt = (pos, lt)
ilog2_from-IsLog (suc fuel) n pos lt = elim (Bool-cases (n / 2 == 0)) [
  | inl one ↦ let none = (==_iff (n / 2) 0).0 one in rw one (omega arith, omega arith)
  | inr more ↦
      let k = ilog2_from fuel (n / 2) in
      let (above, below) =
        ilog2_from-IsLog fuel (n / 2) (ground (arith, more))
          (omega (arith, two-pow-suc (suc fuel))) in
      rw more (
        omega (arith, two-pow-suc k),
        omega (arith, two-pow-add k 1, two-pow-add (suc k) 1, two-pow-suc k),
      )
]

-- The zero bits that `split` counts and the suffix that it gives make the code word of the value.
pub split-IsWord :
    (value : ℕ)
    → value < 2 ^ 64
    → IsWord (split value).0 value × (2 ^ (split value).0 + (split value).1 ≡ value + 1)
unfolding split ilog2
split-IsWord value lt = elim (Bool-cases (value == u64_max)) [
  | inl top ↦
      let e : value ≡ u64_max = (==_iff value u64_max).0 top in
      rw top ((omega arith, omega arith, omega arith, lt), omega arith)
  | inr below ↦
      let less : value + 1 < 2 ^ 64 = ground (arith, below) in
      let k = ilog2_from 64 (value + 1) in
      let (above, under) = ilog2_from-IsLog 64 (value + 1) (omega arith) (omega arith) in
      let narrow : k ≤ 64 = elim (Bool-cases (leb 64 k)) [
        | inl wide ↦
            let over = two-pow-le 64 k (leb→le _ _ wide) in
            absurd (omega (arith, above, over, less))
        | inr fits ↦ omega (arith, leb→lt _ _ fits)
      ] in
      rw below ((narrow, above, under, lt), omega arith)
]
