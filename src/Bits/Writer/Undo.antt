-- ===== src/Bits/Writer/Undo.antt =====
-- What `write` of crates/layline-core/src/bits.rs takes back after a failed `append`: bytes cut
-- off, and the last byte masked, leave the bits that were held before.
use layline.Prelude.{ℕ, ◌+◌, ◌*◌, ◌-◌, ◌/◌, ◌%◌, ◌^◌, ◌<◌, List, [], ◌∷◌, ◌++◌, Bool, true, false}
use layline.Prelude.{
  length, take, drop, All, arith, ◌≡◌, ap, sym, ◌∙◌, length-append, length-take, length-drop,
  bit_and,
}
use layline.Prelude.{
  two-pow-add, pow_pos, div_of_sum, mod_of_sum, div-mod, mod_pow_split, mod_mod_pow, div_div_pow,
  take-append-drop,
}
use layline.Prelude.BitOps.{bit_and_mask, bit_and_hole}
use native.Mathlib.Nat.{mod-eq_of_lt}
use layline.Bits.{bytes_for}
use layline.Bits.Number.{
  IsByte, big_endian, little_endian, big_endian-snoc, little_endian-snoc, All-snoc,
  big_endian-append, little_endian-append, big_endian-lt, little_endian-lt,
}
use layline.Bits.Writer.{keep_mask}
use layline.Bits.Writer.Holds.{Stands, Holds, joined}

All-split : (xs ys : List ℕ) → All IsByte (xs ++ ys) → All IsByte xs × All IsByte ys
All-split [] ys h = (tt, h)
All-split (x ∷ xs) ys (hx, h) = let (front, back) = All-split xs ys h in ((hx, front), back)

pub All-take : (k : ℕ) (bs : List ℕ) → All IsByte bs → All IsByte (take k bs)
All-take k bs h = (All-split (take k bs) (drop k bs) (rw (take-append-drop k bs) h)).0

-- The first bytes, from the number of them all.
big_endian-take :
    (k : ℕ) (bs : List ℕ)
    → All IsByte bs
    → big_endian (take k bs) ≡ big_endian bs / 2 ^ (8 * length (drop k bs))
big_endian-take k bs h =
    let tail = (All-split (take k bs) (drop k bs) (rw (take-append-drop k bs) h)).1 in
    sym (
      div_of_sum (2 ^ (8 * length (drop k bs))) (big_endian (take k bs)) (big_endian (drop k bs))
        (big_endian-lt (drop k bs) tail))
    ∙ ap (λ (x : ℕ). x / 2 ^ (8 * length (drop k bs)))
        (sym (big_endian-append (take k bs) (drop k bs)) ∙ ap big_endian (take-append-drop k bs))

little_endian-take :
    (k : ℕ) (bs : List ℕ)
    → All IsByte bs
    → little_endian (take k bs) ≡ little_endian bs % 2 ^ (8 * length (take k bs))
little_endian-take k bs h =
    sym (
      mod_of_sum (2 ^ (8 * length (take k bs))) (little_endian (drop k bs))
        (little_endian (take k bs)) (little_endian-lt (take k bs) (All-take k bs h)))
    ∙ ap (λ (x : ℕ). x % 2 ^ (8 * length (take k bs)))
        (sym (little_endian-append (take k bs) (drop k bs))
          ∙ ap little_endian (take-append-drop k bs))

-- What the kept bytes still tell of the `p` bits: `n` above `s` more bits, or below them.
abbrev pub Keeps : Bool → ℕ → ℕ → ℕ → ℕ → Type 0
Keeps true p n s m = m / 2 ^ s ≡ n
Keeps false p n s m = m % 2 ^ p ≡ n

abbrev pub number_of : Bool → List ℕ → ℕ
number_of true bytes = big_endian bytes
number_of false bytes = little_endian bytes

pub take-Keeps :
    (msb : Bool) (bytes : List ℕ) (p n v d : ℕ)
    → n < 2 ^ p
    → (p + d) % 8 ≡ 0
    → Holds msb bytes (p + d) (joined msb p n v d)
    → Keeps msb p n (8 * bytes_for p - p) (number_of msb (take (bytes_for p) bytes))
take-Keeps true bytes p n v d lt full h =
    let k = bytes_for p in
    let s = 8 * k - p in
    let spare : 8 * length (drop k bytes) + s ≡ d = omega (arith, h.size, length-drop k bytes) in
    let none : 8 * length bytes - (p + d) ≡ 0 = omega (arith, h.size) in
    ap (λ (x : ℕ). x / 2 ^ s) (big_endian-take k bytes h.are_bytes)
    ∙ div_div_pow (big_endian bytes) (8 * length (drop k bytes)) s
    ∙ ap (λ (e : ℕ). big_endian bytes / 2 ^ e) spare
    ∙ ap (λ (x : ℕ). x / 2 ^ d)
        (h.stands ∙ ap (λ (e : ℕ). (n * 2 ^ d + v % 2 ^ d) * 2 ^ e) none ∙ omega arith)
    ∙ div_of_sum (2 ^ d) n (v % 2 ^ d) (div-mod v (2 ^ d) (pow_pos d)).1
take-Keeps false bytes p n v d lt full h =
    let k = bytes_for p in
    let s = 8 * k - p in
    let wide : 8 * length (take k bytes) ≡ p + s = omega (arith, h.size, length-take k bytes) in
    let swap : n + v % 2 ^ d * 2 ^ p ≡ v % 2 ^ d * 2 ^ p + n = omega arith in
    ap (λ (x : ℕ). x % 2 ^ p)
      (little_endian-take k bytes h.are_bytes ∙ ap (λ (e : ℕ). little_endian bytes % 2 ^ e) wide)
    ∙ mod_mod_pow (little_endian bytes) p s
    ∙ ap (λ (x : ℕ). x % 2 ^ p) (h.stands ∙ swap)
    ∙ mod_of_sum (2 ^ p) (v % 2 ^ d) n lt

-- Whole bytes.
pub whole-Holds :
    (msb : Bool) (bytes : List ℕ) (p n : ℕ)
    → p % 8 ≡ 0
    → All IsByte bytes
    → length bytes ≡ bytes_for p
    → n < 2 ^ p
    → Keeps msb p n (8 * bytes_for p - p) (number_of msb bytes)
    → Holds msb bytes p n
whole-Holds true bytes p n full are_bytes size lt keeps = record {
  are_bytes = are_bytes;
  size = size;
  bound = lt;
  stands =
      let none : 8 * bytes_for p - p ≡ 0 = omega arith in
      let none' : 8 * length bytes - p ≡ 0 = omega (arith, size) in
      rw none' (omega (arith, rw none at keeps));
}
whole-Holds false bytes p n full are_bytes size lt keeps = record {
  are_bytes = are_bytes;
  size = size;
  bound = lt;
  stands =
      let e : 8 * length bytes ≡ p = omega (arith, size) in
      sym (mod-eq_of_lt (rw e at (little_endian-lt bytes are_bytes))) ∙ keeps;
}

-- The mask keeps the bits in use.
keep-msb :
    (used x : ℕ)
    → used < 8
    → x < 2 ^ 8
    → bit_and x (keep_mask true used) ≡ x / 2 ^ (8 - used) * 2 ^ (8 - used)
unfolding keep_mask
keep-msb used x fits byte =
    let s = 8 - used in
    let pow : 2 ^ 8 ≡ 2 ^ used * 2 ^ s =
      let e : 8 ≡ used + s = omega arith in rw (← two-pow-add used s, ← e) in
    let width : used + (0 + s) ≡ 8 = omega arith in
    let whole : 0 + s ≡ s = omega arith in
    let hole = rw whole at (bit_and_hole used 0 s x (rw width byte)) in
    let less : 2 ^ used - 1 + 1 ≡ 2 ^ used = omega (arith, pow_pos used) in
    let kept = ap (λ (k : ℕ). k * 2 ^ s) less in
    let sum : 0xFF * 2 ^ s ≡ (2 ^ s - 1) * 2 ^ 8 + (2 ^ used - 1) * 2 ^ s =
      omega (arith, pow, pow_pos s, kept) in
    let fits : (2 ^ used - 1) * 2 ^ s < 2 ^ 8 = omega (arith, pow, pow_pos s, kept) in
    let mask : 0xFF * 2 ^ s % 2 ^ 8 ≡ (2 ^ used - 1) * 2 ^ s + (2 ^ 0 - 1) =
      ap (λ (y : ℕ). y % 2 ^ 8) sum
      ∙ mod_of_sum (2 ^ 8) (2 ^ s - 1) ((2 ^ used - 1) * 2 ^ s) fits
      ∙ omega arith in
    ap (λ (y : ℕ). bit_and x y) mask ∙ hole ∙ omega arith

keep-lsb : (used x : ℕ) → bit_and x (keep_mask false used) ≡ x % 2 ^ used
unfolding keep_mask
keep-lsb used x = bit_and_mask used x

-- A last byte that the bits held end in.
module _ (init : List ℕ) (x p n : ℕ) (partial : 0 < p % 8) (size : length init ≡ p / 8)
    (byte : x < 2 ^ 8) where
  abbrev masked : Bool → List ℕ
  masked msb = init ++ (bit_and x (keep_mask msb (p % 8)) ∷ [])

  length-masked : (y : ℕ) → length (init ++ (y ∷ [])) ≡ p / 8 + 1
  length-masked y = omega (arith, size, length-append init (y ∷ []))

  masked-Stands-msb :
      Keeps true p n (8 * bytes_for p - p) (big_endian (init ++ (x ∷ [])))
      → Stands true (masked true) p n
  masked-Stands-msb keeps =
      let used = p % 8 in
      let s = 8 - used in
      let e : 8 * bytes_for p - p ≡ s = omega arith in
      let e' : 8 * length (masked true) - p ≡ s =
        omega (arith, length-masked (bit_and x (keep_mask true used))) in
      let pow : 2 ^ 8 ≡ 2 ^ used * 2 ^ s =
        let w : 8 ≡ used + s = omega arith in rw (← two-pow-add used s, ← w) in
      let parts = div-mod x (2 ^ s) (pow_pos s) in
      let whole : big_endian (init ++ (x ∷ []))
          ≡ (big_endian init * 2 ^ used + x / 2 ^ s) * 2 ^ s + x % 2 ^ s =
        big_endian-snoc init x ∙ omega (arith, parts, ap (λ (k : ℕ). big_endian init * k) pow) in
      let high : big_endian init * 2 ^ used + x / 2 ^ s ≡ n =
        sym (div_of_sum (2 ^ s) (big_endian init * 2 ^ used + x / 2 ^ s) (x % 2 ^ s) parts.1)
        ∙ ap (λ (k : ℕ). k / 2 ^ s) (sym whole)
        ∙ rw e at keeps in
      big_endian-snoc init (bit_and x (keep_mask true used))
      ∙ ap (λ (y : ℕ). big_endian init * 2 ^ 8 + y) (keep-msb used x (omega arith) byte)
      ∙ omega (arith, ap (λ (k : ℕ). big_endian init * k) pow, ap (λ (k : ℕ). k * 2 ^ s) high)
      ∙ ap (λ (k : ℕ). n * 2 ^ k) (sym e')

  masked-Stands-lsb :
      All IsByte init
      → Keeps false p n (8 * bytes_for p - p) (little_endian (init ++ (x ∷ [])))
      → Stands false (masked false) p n
  masked-Stands-lsb are_bytes keeps =
      let used = p % 8 in
      let low = 8 * length init in
      let cut : low + used ≡ p = omega (arith, size) in
      let whole : little_endian (init ++ (x ∷ [])) ≡ x * 2 ^ low + little_endian init =
        little_endian-snoc init x ∙ omega arith in
      let small = little_endian-lt init are_bytes in
      let high = sym (div_of_sum (2 ^ low) x (little_endian init) small) in
      let low_part = sym (mod_of_sum (2 ^ low) x (little_endian init) small) in
      let back = sym whole in
      let split = mod_pow_split (x * 2 ^ low + little_endian init) low used in
      little_endian-snoc init (bit_and x (keep_mask false used))
      ∙ ap (λ (y : ℕ). little_endian init + y * 2 ^ low) (keep-lsb used x)
      ∙ omega arith
      ∙ (λ i. high i % 2 ^ used * 2 ^ low + low_part i)
      ∙ sym split
      ∙ (λ i. back i % 2 ^ cut i)
      ∙ keeps

  pub masked-Holds :
      (msb : Bool)
      → All IsByte init
      → n < 2 ^ p
      → Keeps msb p n (8 * bytes_for p - p) (number_of msb (init ++ (x ∷ [])))
      → Holds msb (masked msb) p n
  masked-Holds true are_bytes lt keeps = record {
    are_bytes = All-snoc init _ are_bytes (
        rw (keep-msb (p % 8) x (omega arith) byte)
          (omega (arith, div-mod x (2 ^ (8 - p % 8)) (pow_pos (8 - p % 8)))));
    size = omega (arith, length-masked (bit_and x (keep_mask true (p % 8))));
    bound = lt;
    stands = masked-Stands-msb keeps;
  }
  masked-Holds false are_bytes lt keeps = record {
    are_bytes =
        All-snoc init _ are_bytes
          (rw (keep-lsb (p % 8) x) (omega (arith, div-mod x (2 ^ (p % 8)) (pow_pos (p % 8)))));
    size = omega (arith, length-masked (bit_and x (keep_mask false (p % 8))));
    bound = lt;
    stands = masked-Stands-lsb are_bytes keeps;
  }
