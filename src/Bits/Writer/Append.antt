-- ===== src/Bits/Writer/Append.antt =====
-- The loop of `append` of crates/layline-core/src/bits.rs on every buffer: a round opens a byte
-- where the last one is full, and puts a chunk into it.
use layline.Prelude.{
  ℕ, ◌+◌, ◌*◌, ◌-◌, ◌/◌, ◌%◌, ◌^◌, ◌≤◌, ◌<◌, List, [], ◌∷◌, ◌++◌, Bool, true, false,
}
use layline.Prelude.{length, arith, ◌≡◌, refl, ap, sym, ◌∙◌, length-append, some}
use layline.Prelude.{two-pow-add, pow_pos, div-mod, mod_pow_split, div_div_pow}
use native.Mathlib.Nat.{mod-eq_of_lt}
use layline.Bits.Number.{big_endian-snoc, little_endian-snoc, All-front}
use layline.Bits.Writer.{change_last}
use layline.Bits.Writer.Holds.{Holds, joined}
use layline.Bits.Writer.Chunk.{IsOpen, taken_bits}

-- The bits of `value` that are in place when `d` of its `bits` bits are.
abbrev pub done_bits : Bool → ℕ → ℕ → ℕ → ℕ
done_bits true value bits d = value / 2 ^ (bits - d)
done_bits false value bits d = value

pub joined-joined :
    (msb : Bool) (p n value bits d t : ℕ)
    → d + t ≤ bits
    → joined msb
        (p + d)
        (joined msb p n (done_bits msb value bits d) d)
        (taken_bits msb value bits (bits - d) t)
        t
      ≡ joined msb p n (done_bits msb value bits (d + t)) (d + t)
joined-joined true p n value bits d t le =
    let a = value / 2 ^ (bits - (d + t)) in
    let whole : bits - (d + t) + t ≡ bits - d = omega arith in
    let here : bits - d - t ≡ bits - (d + t) = omega arith in
    let down : a / 2 ^ t ≡ value / 2 ^ (bits - d) =
      rw whole at (div_div_pow value (bits - (d + t)) t) in
    let swap : t + d ≡ d + t = omega arith in
    let split : a % 2 ^ (d + t) ≡ value / 2 ^ (bits - d) % 2 ^ d * 2 ^ t + a % 2 ^ t =
      rw (swap, down) at (mod_pow_split a t d) in
    let small : a % 2 ^ t % 2 ^ t ≡ a % 2 ^ t = mod-eq_of_lt (div-mod a (2 ^ t) (pow_pos t)).1 in
    rw (here, small) (omega (arith, split, ap (λ (k : ℕ). n * k) (two-pow-add d t)))
joined-joined false p n value bits d t le =
    let c = value / 2 ^ d % 2 ^ t in
    let here : bits - (bits - d) ≡ d = omega arith in
    let small : c % 2 ^ t ≡ c = mod-eq_of_lt (div-mod (value / 2 ^ d) (2 ^ t) (pow_pos t)).1 in
    rw (here, small)
      (omega (
        arith,
        ap (λ (k : ℕ). k * 2 ^ p) (mod_pow_split value d t),
        ap (λ (k : ℕ). c * k) (two-pow-add p d),
      ))

-- A byte string that is not empty has a last byte.
pub snoc-cases : (xs : List ℕ) → 1 ≤ length xs → (init : List ℕ) × (b : ℕ) × (xs ≡ init ++ (b ∷ []))
snoc-cases [] h = absurd (omega arith)
snoc-cases (x ∷ []) h = ([], x, refl)
snoc-cases (x ∷ (y ∷ ys)) h =
    let (init, b, e) = snoc-cases (y ∷ ys) (omega arith) in
    (x ∷ init, b, ap (λ (l : List ℕ). x ∷ l) e)

pub change_last-snoc :
    (f : ℕ → ℕ) (xs : List ℕ) (b : ℕ) → change_last f (xs ++ (b ∷ [])) ≡ some (xs ++ (f b ∷ []))
unfolding change_last
change_last-snoc f [] b = refl
change_last-snoc f (x ∷ []) b = refl
change_last-snoc f (x ∷ (y ∷ ys)) b = rw (change_last-snoc f (y ∷ ys) b)

-- A zero byte behind full bytes has room for the next bit.
pub zero_byte-IsOpen :
    (msb : Bool) (bytes : List ℕ) (p n : ℕ)
    → p % 8 ≡ 0
    → Holds msb bytes p n
    → IsOpen msb bytes 0 p n
zero_byte-IsOpen true bytes p n full h = record {
  are_bytes = h.are_bytes;
  is_byte = omega arith;
  size = omega (arith, h.size);
  bound = h.bound;
  stands =
      let none : 8 * length bytes - p ≡ 0 = omega (arith, h.size) in
      let one : 8 * length (bytes ++ (0 ∷ [])) - p ≡ 8 =
        omega (arith, h.size, length-append bytes (0 ∷ [])) in
      big_endian-snoc bytes 0
      ∙ omega (arith, h.stands ∙ ap (λ (k : ℕ). n * 2 ^ k) none)
      ∙ ap (λ (k : ℕ). n * 2 ^ k) (sym one);
}
zero_byte-IsOpen false bytes p n full h = record {
  are_bytes = h.are_bytes;
  is_byte = omega arith;
  size = omega (arith, h.size);
  bound = h.bound;
  stands = little_endian-snoc bytes 0 ∙ omega (arith, h.stands);
}

pub last_byte-IsOpen :
    (msb : Bool) (init : List ℕ) (b p n : ℕ)
    → 0 < p % 8
    → Holds msb (init ++ (b ∷ [])) p n
    → IsOpen msb init b p n
last_byte-IsOpen msb init b p n part h = record {
  are_bytes = (All-front init b h.are_bytes).0;
  is_byte = (All-front init b h.are_bytes).1;
  size = omega (arith, h.size, length-append init (b ∷ []));
  bound = h.bound;
  stands = h.stands;
}
