-- ===== src/ExpGolomb/RoundTrip.antt =====
-- `ExpGolomb::encode` of crates/layline-core/src/num/expgolomb.rs on any buffer, and its decode.
use layline.Prelude.{
  ℕ, ◌+◌, ◌*◌, ◌-◌, ◌/◌, ◌%◌, ◌^◌, ◌≤◌, ◌<◌, List, true, u64_max, ok, ◌≡◌, refl, ap, ◌∙◌, arith,
  two-pow-add, pow_pos, div_of_sum,
}
use native.Mathlib.Nat.{mod-eq_of_lt, div-eq_of_lt}
use layline.Buffer.{Buffer, Status, done, overflow, stuck, ◌>>=◌}
use layline.Bits.Number.{field}
use layline.Bits.RoundTrip.{region, region-bytes}
use layline.Bits.Writer.{BitWriter, write, bit}
use layline.Bits.Writer.Holds.{joined, Holds-field, part-joined_new}
use layline.Bits.Writer.Rounds.{IsWriter}
use layline.Bits.Writer.Write.{IsWrite, write_lem, bit_lem}
use layline.ExpGolomb.{split, decode}
use layline.ExpGolomb.Encode.{encode}
use layline.ExpGolomb.Decode.{IsWord, decode_of_word}
use layline.ExpGolomb.Split.{split-IsWord}

-- The number of a code word, and its first bits.
module _ (p n z suffix value : ℕ) (small : suffix < 2 ^ z) (word : 2 ^ z + suffix ≡ value + 1) where
  twice : 2 ^ (2 * z + 1) ≡ 2 ^ z * 2 * 2 ^ z
  twice =
      let e : 2 * z + 1 ≡ z + 1 + z = omega arith in
      rw (e, two-pow-add (z + 1) z, two-pow-add z 1) refl

  no_bits : 0 % 2 ^ z ≡ 0
  no_bits = mod-eq_of_lt (pow_pos z)

  first_zeros : joined true p n 0 z ≡ joined true p n ((value + 1) / 2 ^ (2 * z + 1 - z)) z
  first_zeros =
      let e : 2 * z + 1 - z ≡ z + 1 = omega arith in
      let less : value + 1 < 2 ^ (z + 1) = omega (arith, small, word, two-pow-add z 1) in
      let none : (value + 1) / 2 ^ (z + 1) ≡ 0 = div-eq_of_lt less in rw (e, none) refl

  with_one :
      joined true (p + z) (joined true p n 0 z) 1 1
      ≡ joined true p n ((value + 1) / 2 ^ (2 * z + 1 - (z + 1))) (z + 1)
  with_one =
      let e : 2 * z + 1 - (z + 1) ≡ z = omega arith in
      let one_part : value + 1 ≡ 1 * 2 ^ z + suffix = omega (arith, word) in
      let one : (value + 1) / 2 ^ z ≡ 1 =
        ap (λ (k : ℕ). k / 2 ^ z) one_part ∙ div_of_sum (2 ^ z) 1 suffix small in
      let low : 1 % 2 ^ (z + 1) ≡ 1 = mod-eq_of_lt (omega (arith, two-pow-add z 1, pow_pos z)) in
      rw (e, one, low, no_bits) (omega (arith, ap (λ (k : ℕ). n * k) (two-pow-add z 1)))

  word_fits : value + 1 < 2 ^ (2 * z + 1)
  word_fits = rw twice (grind (arith, small, word, pow_pos z))

  whole_word :
      joined true (p + z + 1) (joined true (p + z) (joined true p n 0 z) 1 1) suffix z
      ≡ joined true p n (value + 1) (2 * z + 1)
  whole_word =
      rw (no_bits, mod-eq_of_lt small, mod-eq_of_lt word_fits)
        (omega (arith, word, ap (λ (k : ℕ). n * k) twice))

module _ {B : Type 0} (buffer : Buffer B) (pre : List ℕ) (p n : ℕ) where
  -- How an encode of `value` ends, on a writer that held `p` bits: with the bits of its code word
  -- appended, which decode to it and are used up, or with the first of them appended.
  abbrev pub ReadsBack : ℕ → BitWriter B × Status → Type 0
  ReadsBack value (w, done) =
      (z : ℕ) × IsWord z value
      × IsWriter buffer true pre w (p + (2 * z + 1)) (joined true p n (value + 1) (2 * z + 1))
      × (decode (region buffer true pre w) p ≡ ok (value, 2 * z + 1))
  ReadsBack value (w, overflow) =
      (z : ℕ) × IsWord z value
      × ((k : ℕ) × (k ≤ 2 * z + 1)
          × IsWriter buffer true pre w (p + k)
              (joined true p n ((value + 1) / 2 ^ (2 * z + 1 - k)) k))
  ReadsBack value (w, stuck) = ⊥

  module _ (value z suffix : ℕ) (word : IsWord z value) (sum : 2 ^ z + suffix ≡ value + 1)
      (room : p + 129 ≤ u64_max) (bound : n < 2 ^ p) where
    small : suffix < 2 ^ z
    small = omega (arith, word.2, two-pow-add z 1)

    word-decode :
        (w : BitWriter B)
        → IsWriter buffer true pre w (p + (2 * z + 1)) (joined true p n (value + 1) (2 * z + 1))
        → decode (region buffer true pre w) p ≡ ok (value, 2 * z + 1)
    word-decode w h =
        let total = p + (2 * z + 1) in
        let m = joined true p n (value + 1) (2 * z + 1) in
        let number : field true h.bytes p (2 * z + 1) ≡ value + 1 =
          Holds-field true h.bytes total m p (2 * z + 1) h.holds (omega arith)
          ∙ part-joined_new true p n (value + 1) (2 * z + 1) bound
          ∙ mod-eq_of_lt (word_fits p n z suffix value small sum) in
        rw (region-bytes buffer true pre w total m h) (
          decode_of_word h.bytes p h.holds.are_bytes room z value word (omega (arith, h.holds.size))
            number)

    after_suffix :
        (out : BitWriter B × Status)
        → IsWrite buffer true pre suffix z
            (p + z + 1)
            (joined true (p + z) (joined true p n 0 z) 1 1)
            out
        → ReadsBack value out
    after_suffix (w, done) h =
        let e : p + z + 1 + z ≡ p + (2 * z + 1) = omega arith in
        let h' = rw (e, whole_word p n z suffix value small sum) at h in
        (z, word, h', word-decode w h')
    after_suffix (w, overflow) h =
        let e : p + z + 1 ≡ p + (z + 1) = omega arith in
        (z, word, (z + 1, omega arith, rw (e, with_one p n z suffix value small sum) at h))
    after_suffix (w, stuck) h = h

    after_one :
        (out : BitWriter B × Status)
        → IsWrite buffer true pre 1 1 (p + z) (joined true p n 0 z) out
        → ReadsBack value (out >>= write buffer true suffix z)
    after_one (w, done) h =
        after_suffix (write buffer true suffix z w)
          (write_lem buffer true pre suffix z w (p + z + 1) _ word.0 h)
    after_one (w, overflow) h =
        (z, word, (z, omega arith, rw (first_zeros p n z suffix value small sum) at h))
    after_one (w, stuck) h = h

    after_zeros :
        (out : BitWriter B × Status)
        → IsWrite buffer true pre 0 z p n out
        → ReadsBack value (out >>= λ w. bit buffer true true w >>= write buffer true suffix z)
    after_zeros (w, done) h =
        after_one (bit buffer true true w) (bit_lem buffer true pre true w (p + z) _ h)
    after_zeros (w, overflow) h =
        let none : p + 0 ≡ p = omega arith in
        let same : joined true p n ((value + 1) / 2 ^ (2 * z + 1 - 0)) 0 ≡ n =
          let z0 : (value + 1) / 2 ^ (2 * z + 1 - 0) % 2 ^ 0 ≡ 0 = omega arith in omega arith in
        (z, word, (0, omega arith, rw (none, same) h))
    after_zeros (w, stuck) h = h

  -- On any buffer the encode of a `u64` to a writer that holds `p` bits, where 129 more are at
  -- positions that fit a `u64`, returns: it appends the code
  -- word, which decodes to the value at bit `p` and is used up, or it overflows behind the first bits
  -- of the code word. The bits before it stay in both cases.
  pub encode-decode :
      (value : ℕ) (w : BitWriter B)
      → value < 2 ^ 64
      → p + 129 ≤ u64_max
      → IsWriter buffer true pre w p n
      → ReadsBack value (encode buffer value w)
  unfolding encode
  encode-decode value w lt room h =
      let (word, sum) = split-IsWord value lt in
      after_zeros value (split value).0 (split value).1 word sum room h.holds.bound _
        (write_lem buffer true pre 0 (split value).0 w p n word.0 h)
