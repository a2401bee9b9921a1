-- ===== src/Bits/Writer/PatchBytes.antt =====
-- One round of `patch` of crates/layline-core/src/bits.rs: a field of one byte replaced.
use layline.Prelude.{
  ℕ, zero, suc, ◌+◌, ◌*◌, ◌-◌, ◌/◌, ◌%◌, ◌^◌, ◌≤◌, ◌<◌, List, [], ◌∷◌, ◌++◌, Bool, true, false,
}
use layline.Prelude.{
  length, All, set, get_or, arith, ◌≡◌, refl, ap, sym, ◌∙◌, length-append, bit_or, two-pow-add,
  two-pow-le, pow_pos, length-set,
}
use layline.Prelude.BitOps.{bit_and_hole, bit_or_hole}
use native.Mathlib.Nat.{mod-eq_of_lt}
use layline.Bits.{as_u8, shl_u8, chunk_mask}
use layline.Bits.Number.{
  IsByte, big_endian, little_endian, big_endian-append, little_endian-append, big_endian-lt,
  little_endian-lt, big_endian-get, little_endian-get,
}
use layline.Bits.Put.{put, build, put_of, put-put, put-lt, put-shift, low-lt}
use layline.Bits.Writer.{hole_mask, patched_byte}
use layline.Bits.Writer.Holds.{Holds, Stands}
use layline.Bits.Writer.Chunk.{shifted_fits}

-- Where the field of a round stands in its byte, counted from the lowest bit.
abbrev pub shift : Bool → ℕ → ℕ → ℕ
shift true used t = 8 - used - t
shift false used t = used

mask-shift : (t k : ℕ) → t + k ≤ 8 → shl_u8 (as_u8 (chunk_mask t)) k ≡ (2 ^ t - 1) * 2 ^ k
mask-shift t k le =
    let lt : 2 ^ t - 1 < 2 ^ t = omega (arith, pow_pos t) in
    let byte : 2 ^ t - 1 < 2 ^ 8 = omega (arith, lt, two-pow-le t 8 (omega arith)) in
    rw (mod-eq_of_lt byte) (mod-eq_of_lt (shifted_fits (2 ^ t - 1) t k lt le))

one_less : (a b : ℕ) → 1 ≤ a → (a - 1) * b + b ≡ a * b
one_less a b pos = let e : a - 1 + 1 ≡ a = omega arith in omega (arith, ap (λ (k : ℕ). k * b) e)

pub hole_mask-shift :
    (msb : Bool) (used t : ℕ)
    → used + t ≤ 8
    → hole_mask msb used t ≡ (2 ^ t - 1) * 2 ^ shift msb used t
unfolding hole_mask
hole_mask-shift true used t le = mask-shift t (8 - used - t) (omega arith)
hole_mask-shift false used t le = mask-shift t used (omega arith)

pub patched_byte-put :
    (b s t v : ℕ)
    → b < 2 ^ 8
    → s + t ≤ 8
    → patched_byte b ((2 ^ t - 1) * 2 ^ s) (v % 2 ^ t * 2 ^ s) ≡ put b s t v
unfolding patched_byte
patched_byte-put b s t v lt le =
    let h = 8 - (s + t) in
    let whole : h + (s + t) ≡ 8 = omega arith in
    let p8 : 2 ^ 8 ≡ 2 ^ h * 2 ^ (s + t) = rw whole at (two-pow-add h (s + t)) in
    let hole : 0xFF - (2 ^ t - 1) * 2 ^ s ≡ (2 ^ h - 1) * 2 ^ (s + t) + (2 ^ s - 1) = omega (
      arith,
      p8,
      pow_pos s,
      one_less (2 ^ t) (2 ^ s) (pow_pos t),
      one_less (2 ^ h) (2 ^ (s + t)) (pow_pos h),
      two-pow-add s t,
      two-pow-le s (s + t) (omega arith),
      two-pow-le (s + t) 8 le,
    ) in
    rw hole (
      ap (λ (x : ℕ). bit_or x (v % 2 ^ t * 2 ^ s)) (bit_and_hole h s t b (rw whole lt))
      ∙ bit_or_hole s t (b / 2 ^ (s + t)) (v % 2 ^ t) (b % 2 ^ s) (low-lt v t) (low-lt b s))

-- The byte at an index, with what stands before and behind it.
split_at :
    (xs : List ℕ) (i y : ℕ)
    → i < length xs
    → (front : List ℕ) × (b : ℕ) × (back : List ℕ) × (xs ≡ front ++ (b ∷ back))
      × (length front ≡ i)
      × (set xs i y ≡ front ++ (y ∷ back))
split_at [] i y lt = absurd (omega arith)
split_at (x ∷ xs) zero y lt = ([], x, xs, refl, refl, refl)
split_at (x ∷ xs) (suc i) y lt =
    let (front, b, back, e, len, e') = split_at xs i y (omega arith) in
    (x ∷ front, b, back, ap (λ (l : List ℕ). x ∷ l) e, ap suc len, ap (λ (l : List ℕ). x ∷ l) e')

All-set : (xs : List ℕ) (i y : ℕ) → All IsByte xs → IsByte y → All IsByte (set xs i y)
All-set [] i y h hy = tt
All-set (x ∷ xs) zero y (hx, h) hy = (hy, h)
All-set (x ∷ xs) (suc i) y (hx, h) hy = (hx, All-set xs i y h hy)

All-parts :
    (front back : List ℕ) (b : ℕ)
    → All IsByte (front ++ (b ∷ back))
    → All IsByte front × IsByte b × All IsByte back
All-parts [] back b (hb, h) = (tt, hb, h)
All-parts (x ∷ front) back b (hx, h) =
    let (hf, hb, hk) = All-parts front back b h in ((hx, hf), hb, hk)

-- The number of the bytes with one of them replaced.
build-be :
    (front back : List ℕ) (b : ℕ)
    → big_endian (front ++ (b ∷ back))
      ≡ build (8 * length back) 8 (big_endian front) b (big_endian back)
unfolding big_endian
build-be front back b =
    let e : 8 * suc (length back) ≡ 8 * length back + 8 = omega arith in
    big_endian-append front (b ∷ back) ∙ rw (e, two-pow-add) (omega arith)

build-le :
    (front back : List ℕ) (b : ℕ)
    → little_endian (front ++ (b ∷ back))
      ≡ build (8 * length front) 8 (little_endian back) b (little_endian front)
unfolding little_endian
build-le front back b = little_endian-append front (b ∷ back)

replaced_byte :
    (n a q m r y : ℕ)
    → n ≡ build a 8 q m r
    → m < 2 ^ 8
    → r < 2 ^ a
    → y < 2 ^ 8
    → build a 8 q y r ≡ put n a 8 y
replaced_byte n a q m r y e hm hr hy =
    ap (λ (k : ℕ). build a 8 q k r) (sym (mod-eq_of_lt hy)) ∙ sym (put_of n a 8 q m r y e hm hr)

pub big_endian-set :
    (xs : List ℕ) (i y : ℕ)
    → All IsByte xs
    → i < length xs
    → IsByte y
    → big_endian (set xs i y) ≡ put (big_endian xs) (8 * (length xs - 1 - i)) 8 y
big_endian-set xs i y h lt hy =
    let (front, b, back, e, len, e') = split_at xs i y lt in
    let (hf, hb, hk) = All-parts front back b (rw e at h) in
    let size = ap (λ (l : List ℕ). length l) e ∙ length-append front (b ∷ back) in
    let place : 8 * (length xs - 1 - i) ≡ 8 * length back = omega (arith, size, len) in
    ap big_endian e'
    ∙ build-be front back y
    ∙ replaced_byte (big_endian xs) (8 * length back) (big_endian front) b (big_endian back) y
        (ap big_endian e ∙ build-be front back b) hb (big_endian-lt back hk) hy
    ∙ ap (λ (k : ℕ). put (big_endian xs) k 8 y) (sym place)

pub little_endian-set :
    (xs : List ℕ) (i y : ℕ)
    → All IsByte xs
    → i < length xs
    → IsByte y
    → little_endian (set xs i y) ≡ put (little_endian xs) (8 * i) 8 y
little_endian-set xs i y h lt hy =
    let (front, b, back, e, len, e') = split_at xs i y lt in
    let (hf, hb, hk) = All-parts front back b (rw e at h) in
    let place : 8 * length front ≡ 8 * i = omega (arith, len) in
    ap little_endian e'
    ∙ build-le front back y
    ∙ replaced_byte (little_endian xs) (8 * length front) (little_endian back) b
        (little_endian front) y (ap little_endian e ∙ build-le front back b) hb
        (little_endian-lt front hf) hy
    ∙ ap (λ (k : ℕ). put (little_endian xs) k 8 y) place

pub get_or-IsByte : (xs : List ℕ) (i : ℕ) → All IsByte xs → IsByte (get_or xs i 0)
get_or-IsByte [] i h = omega arith
get_or-IsByte (x ∷ xs) zero (hx, h) = hx
get_or-IsByte (x ∷ xs) (suc i) (hx, h) = get_or-IsByte xs i h

-- A field of `t` bits at bit `at` of `p` bits, in one byte; where it stands in their number.
abbrev pub low_end : Bool → ℕ → ℕ → ℕ → ℕ
low_end true p at t = p - (at + t)
low_end false p at t = at

module _ (bytes : List ℕ) (p n at t v : ℕ) (inside : at + t ≤ p) (one_byte : at % 8 + t ≤ 8)
    (pos : 1 ≤ t) where
  abbrev byte : ℕ
  byte = get_or bytes (at / 8) 0

  abbrev next : Bool → ℕ
  next msb = put byte (shift msb (at % 8) t) t v

  shift-le : (msb : Bool) → shift msb (at % 8) t + t ≤ 8
  shift-le true = omega (arith, one_byte)
  shift-le false = omega (arith, one_byte)

  pub set-Holds :
      (msb : Bool)
      → Holds msb bytes p n
      → Holds msb (set bytes (at / 8) (next msb)) p (put n (low_end msb p at t) t v)
  set-Holds msb h = record {
    are_bytes = All-set bytes (at / 8) (next msb) h.are_bytes small;
    size = length-set bytes (at / 8) (next msb) ∙ h.size;
    bound = put-lt n p (low_end msb p at t) t v (low_end-le msb) h.bound;
    stands = stands msb h small;
  }
    where
      small : next msb < 2 ^ 8
      small =
          put-lt byte 8 (shift msb (at % 8) t) t v (shift-le msb)
            (get_or-IsByte bytes (at / 8) h.are_bytes)

      low_end-le : (msb : Bool) → low_end msb p at t + t ≤ p
      low_end-le true = omega (arith, inside)
      low_end-le false = omega (arith, inside)

      stands :
          (msb : Bool)
          → Holds msb bytes p n
          → next msb < 2 ^ 8
          → Stands msb (set bytes (at / 8) (next msb)) p (put n (low_end msb p at t) t v)
      stands true h small =
          let len = length bytes in
          let spare = 8 * len - p in
          let low = p - (at + t) in
          let place = 8 * (len - 1 - at / 8) in
          let index : at / 8 < len = omega (arith, h.size, inside, pos) in
          let there : place + shift true (at % 8) t ≡ spare + low =
            omega (arith, h.size, inside, pos, one_byte) in
          let same : length (set bytes (at / 8) (next true)) ≡ len =
            length-set bytes (at / 8) (next true) in
          big_endian-set bytes (at / 8) (next true) h.are_bytes index small
          ∙ ap (λ (b : ℕ). put (big_endian bytes) place 8 (put b (shift true (at % 8) t) t v))
              (big_endian-get bytes (at / 8) h.are_bytes index)
          ∙ put-put (big_endian bytes) place 8 (shift true (at % 8) t) t v (shift-le true)
          ∙ (λ i. put (h.stands i) (there i) t v)
          ∙ put-shift n spare low t v
          ∙ ap (λ (k : ℕ). put n low t v * 2 ^ (8 * k - p)) (sym same)
      stands false h small =
          let index : at / 8 < length bytes = omega (arith, h.size, inside, pos) in
          let there : 8 * (at / 8) + at % 8 ≡ at = omega arith in
          little_endian-set bytes (at / 8) (next false) h.are_bytes index small
          ∙ ap (λ (b : ℕ). put (little_endian bytes) (8 * (at / 8)) 8 (put b (at % 8) t v))
              (little_endian-get bytes (at / 8) h.are_bytes index)
          ∙ put-put (little_endian bytes) (8 * (at / 8)) 8 (at % 8) t v (shift-le false)
          ∙ (λ i. put (h.stands i) (there i) t v)
