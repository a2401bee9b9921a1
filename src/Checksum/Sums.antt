-- ===== src/Checksum/Sums.antt =====
-- `Sum16Neg` of crates/layline-core/src/checksum.rs: runs of bytes, and the sum that it negates.
use layline.Prelude.{
  ℕ, ◌+◌, ◌-◌, ◌%◌, ◌^◌, ◌<◌, List, [], ◌∷◌, ◌++◌, Bool, ◌≡◌, refl, ap, sym, ◌∙◌, arith, Option,
  none, some,
}
use layline.Checksum.{
  Checksum, Sum16State, wrapping_add, wrapping_neg, pair, feed_words, sum16_feed, sum16_close,
  sum16_init, compute,
}

-- The bytes that a state holds back.
abbrev held_back : Option ℕ → List ℕ
held_back none = []
held_back (some b) = b ∷ []

sum16_feed-words :
    (be : Bool) (sum : ℕ) (half : Option ℕ) (bytes : List ℕ)
    → sum16_feed be (record { sum = sum; half = half }) bytes
      ≡ feed_words be sum (held_back half ++ bytes)
unfolding sum16_feed feed_words
sum16_feed-words be sum none bytes = refl
sum16_feed-words be sum (some b) [] = refl
sum16_feed-words be sum (some b) (x ∷ xs) = refl

feed_words-append :
    (be : Bool) (sum : ℕ) (xs ys : List ℕ)
    → sum16_feed be (feed_words be sum xs) ys ≡ feed_words be sum (xs ++ ys)
unfolding feed_words
feed_words-append be sum [] ys = sum16_feed-words be sum none ys
feed_words-append be sum (x ∷ []) ys = sum16_feed-words be sum (some x) ys
feed_words-append be sum (x ∷ (y ∷ xs)) ys =
    feed_words-append be (wrapping_add sum (pair be x y)) xs ys

pub sum16_feed-append :
    (be : Bool) (s : Sum16State) (xs ys : List ℕ)
    → sum16_feed be (sum16_feed be s xs) ys ≡ sum16_feed be s (xs ++ ys)
sum16_feed-append be s xs ys =
    ap (λ (t : Sum16State). sum16_feed be t ys) (sum16_feed-words be s.sum s.half xs)
    ∙ feed_words-append be s.sum (held_back s.half ++ xs) ys
    ∙ assoc s.half
    ∙ sym (sum16_feed-words be s.sum s.half (xs ++ ys))
  where
    assoc :
        (half : Option ℕ)
        → feed_words be s.sum (held_back half ++ xs ++ ys)
          ≡ feed_words be s.sum (held_back half ++ (xs ++ ys))
    assoc none = refl
    assoc (some b) = refl

-- `Sum16Neg` is a `Checksum`.
abbrev pub sum16_neg : Bool → Checksum Sum16State ℕ
sum16_neg be = record {
  init = sum16_init;
  update = sum16_feed be;
  finish = sum16_close be;
  update-append = sum16_feed-append be;
}

-- The sum of the words of a byte string, an odd last byte padded with zero.
abbrev pub word_sum : Bool → List ℕ → ℕ
word_sum be [] = 0
word_sum be (last ∷ []) = pair be last 0
word_sum be (lo ∷ (hi ∷ rest)) = pair be lo hi + word_sum be rest

close-words :
    (be : Bool) (sum : ℕ) (bytes : List ℕ)
    → sum < 2 ^ 16
    → sum16_close be (feed_words be sum bytes) ≡ wrapping_neg ((sum + word_sum be bytes) % 2 ^ 16)
unfolding sum16_close feed_words
close-words be sum [] lt = ap (λ (k : ℕ). (2 ^ 16 - k) % 2 ^ 16) (omega arith)
close-words be sum (last ∷ []) lt = refl
close-words be sum (lo ∷ (hi ∷ rest)) lt =
    close-words be (wrapping_add sum (pair be lo hi)) rest (omega arith)
    ∙ ap (λ (k : ℕ). (2 ^ 16 - k) % 2 ^ 16) (omega arith)

-- The check value of a byte string in one run, or in runs split anywhere, makes the 16-bit sum of
-- its words and the check value zero.
pub compute-word_sum :
    (be : Bool) (xs ys : List ℕ)
    → ((word_sum be (xs ++ ys) + compute (sum16_neg be) (xs ++ ys)) % 2 ^ 16 ≡ 0)
      × (sum16_close be (sum16_feed be (sum16_feed be sum16_init xs) ys)
          ≡ compute (sum16_neg be) (xs ++ ys))
unfolding compute sum16_init
compute-word_sum be xs ys = (
  rw (sum16_feed-words be 0 none (xs ++ ys), close-words be 0 (xs ++ ys) (omega arith))
      (omega arith),
  ap (sum16_close be) (sum16_feed-append be sum16_init xs ys),
)
