-- ===== src/Bits/Writer/Chunk.antt =====
-- One round of the writer of crates/layline-core/src/bits.rs: a chunk put into the last byte.
use layline.Prelude.{
  ℕ, ◌+◌, ◌*◌, ◌-◌, ◌/◌, ◌%◌, ◌^◌, ◌≤◌, ◌<◌, List, [], ◌∷◌, ◌++◌, Bool, true, false,
}
use layline.Prelude.{length, All, arith, ◌≡◌, ap, sym, ◌∙◌, length-append, bit_or, bit_and}
use layline.Prelude.{two-pow-add, two-pow-le, pow_pos, mod_of_sum, div-mod}
use layline.Prelude.BitOps.{bit_and_mask, bit_or_fields, bit_or_fields_low}
use native.Mathlib.Nat.{mod-eq_of_lt}
use layline.Bits.{as_u8, shl_u8, chunk_mask}
use layline.Bits.Number.{
  IsByte, big_endian, little_endian, big_endian-snoc, little_endian-snoc, All-snoc,
}
use layline.Bits.Writer.{write_chunk}
use layline.Bits.Writer.Holds.{Stands, Holds, joined}

-- What a chunk of `t` bits standing for `c` is shifted to in a byte of which `used` bits are in use.
abbrev pub placed : Bool → ℕ → ℕ → ℕ → ℕ
placed true used t c = c * 2 ^ (8 - used - t)
placed false used t c = c * 2 ^ used

-- The bits of `value` that a round takes.
abbrev pub taken_bits : Bool → ℕ → ℕ → ℕ → ℕ → ℕ
taken_bits true value bits left t = value / 2 ^ (left - t) % 2 ^ t
taken_bits false value bits left t = value / 2 ^ (bits - left) % 2 ^ t

pub taken_bits-lt : (msb : Bool) (value bits left t : ℕ) → taken_bits msb value bits left t < 2 ^ t
taken_bits-lt true value bits left t = (div-mod _ (2 ^ t) (pow_pos t)).1
taken_bits-lt false value bits left t = (div-mod _ (2 ^ t) (pow_pos t)).1

pub shifted_fits : (c t k : ℕ) → c < 2 ^ t → t + k ≤ 8 → c * 2 ^ k < 2 ^ 8
shifted_fits c t k lt le = grind (arith, two-pow-le (t + k) 8 le, two-pow-add t k)

chunk-placed :
    (x t k : ℕ) → t + k ≤ 8 → shl_u8 (as_u8 (bit_and x (chunk_mask t))) k ≡ x % 2 ^ t * 2 ^ k
chunk-placed x t k le =
    let small = (div-mod x (2 ^ t) (pow_pos t)).1 in
    let byte : x % 2 ^ t < 2 ^ 8 = omega (arith, two-pow-le t 8 (omega arith)) in
    let fits = shifted_fits (x % 2 ^ t) t k small le in
    rw (bit_and_mask t x, mod-eq_of_lt byte) (mod-eq_of_lt fits)

pub write_chunk-placed :
    (msb : Bool) (value bits left used t : ℕ)
    → used + t ≤ 8
    → write_chunk msb value bits left used t ≡ placed msb used t (taken_bits msb value bits left t)
unfolding write_chunk
write_chunk-placed true value bits left used t le =
    chunk-placed (value / 2 ^ (left - t)) t (8 - used - t) (omega arith)
write_chunk-placed false value bits left used t le =
    chunk-placed (value / 2 ^ (bits - left)) t used (omega arith)

-- A byte string with room for the next bit in its last byte `b`.
pub record IsOpen (msb : Bool) (init : List ℕ) (b p n : ℕ) : Type 0 where
  pub are_bytes : All IsByte init
  pub is_byte : IsByte b
  pub size : length init ≡ p / 8
  pub bound : n < 2 ^ p
  pub stands : Stands msb (init ++ (b ∷ [])) p n

joined-lt : (msb : Bool) (p n c t : ℕ) → n < 2 ^ p → joined msb p n c t < 2 ^ (p + t)
joined-lt true p n c t h =
    let small = (div-mod c (2 ^ t) (pow_pos t)).1 in grind (arith, two-pow-add p t)
joined-lt false p n c t h =
    let small = (div-mod c (2 ^ t) (pow_pos t)).1 in grind (arith, two-pow-add p t)

module _ (init : List ℕ) (b p n c t : ℕ) (pos : 1 ≤ t) (fits : p % 8 + t ≤ 8)
    (small : c < 2 ^ t) where
  abbrev used : ℕ
  used = p % 8

  abbrev last : Bool → ℕ
  last msb = bit_or b (placed msb used t c)

  length-open : (x : ℕ) → length init ≡ p / 8 → length (init ++ (x ∷ [])) ≡ p / 8 + 1
  length-open x e = omega (arith, length-append init (x ∷ []))

  -- Most significant first: the bits of the last byte that are not in use are zero.
  module _ (o : IsOpen true init b p n) where
    abbrev free : ℕ
    free = 8 - used

    number-msb : big_endian init * 2 ^ 8 + b ≡ n * 2 ^ free
    number-msb =
        let e : 8 * length (init ++ (b ∷ [])) - p ≡ free = omega (arith, length-open b o.size) in
        sym (big_endian-snoc init b) ∙ o.stands ∙ ap (λ (k : ℕ). n * 2 ^ k) e

    pow-byte : 2 ^ 8 ≡ 2 ^ used * 2 ^ free
    pow-byte = let e : 8 ≡ used + free = omega arith in rw (← two-pow-add used free, ← e)

    unused : b % 2 ^ free ≡ 0
    unused =
        let parts = div-mod b (2 ^ free) (pow_pos free) in
        let q = big_endian init * 2 ^ used + b / 2 ^ free in
        let whole : q * 2 ^ free + b % 2 ^ free ≡ n * 2 ^ free + 0 =
          omega (arith, number-msb, parts, ap (λ (k : ℕ). big_endian init * k) pow-byte) in
        sym (mod_of_sum (2 ^ free) q (b % 2 ^ free) parts.1)
        ∙ ap (λ (k : ℕ). k % 2 ^ free) whole
        ∙ mod_of_sum (2 ^ free) n 0 (pow_pos free)

    chunk-lt : c * 2 ^ (free - t) < 2 ^ free
    chunk-lt =
        let e : t + (free - t) ≡ free = omega arith in
        let p2 : 2 ^ free ≡ 2 ^ t * 2 ^ (free - t) = rw e at (two-pow-add t (free - t)) in
        grind (arith, p2, pow_pos (free - t))

    last-msb : last true ≡ b + c * 2 ^ (free - t)
    last-msb =
        let parts = div-mod b (2 ^ free) (pow_pos free) in
        let high : b ≡ b / 2 ^ free * 2 ^ free = omega (arith, parts, unused) in
        let sum = bit_or_fields free (b / 2 ^ free) (c * 2 ^ (free - t)) chunk-lt in
        rw (← high) at sum

    last-IsByte-msb : last true < 2 ^ 8
    last-IsByte-msb =
        let parts = div-mod b (2 ^ free) (pow_pos free) in
        rw last-msb (grind (arith, pow-byte, parts, unused, chunk-lt, o.is_byte))

    Stands-msb : Stands true (init ++ (last true ∷ [])) (p + t) (joined true p n c t)
    Stands-msb =
        let e : 8 * length (init ++ (last true ∷ [])) - (p + t) ≡ free - t =
          omega (arith, length-open (last true) o.size) in
        let e' : t + (free - t) ≡ free = omega arith in
        let p2 : 2 ^ free ≡ 2 ^ t * 2 ^ (free - t) = rw e' at (two-pow-add t (free - t)) in
        let exact : c % 2 ^ t ≡ c = mod-eq_of_lt small in
        big_endian-snoc init (last true)
        ∙ omega (arith, last-msb, number-msb, ap (λ (k : ℕ). n * k) p2)
        ∙ (λ i. (n * 2 ^ t + sym exact i) * 2 ^ (sym e i))

  -- Least significant first: the last byte holds the top bits of the number.
  module _ (o : IsOpen false init b p n) where
    number-lsb : little_endian init + b * 2 ^ (8 * (p / 8)) ≡ n
    number-lsb =
        ap (λ (k : ℕ). little_endian init + b * 2 ^ (8 * k)) (sym o.size)
        ∙ sym (little_endian-snoc init b)
        ∙ o.stands

    pow-cursor : 2 ^ p ≡ 2 ^ (8 * (p / 8)) * 2 ^ used
    pow-cursor =
        let e : 8 * (p / 8) + used ≡ p = omega arith in rw e at (two-pow-add (8 * (p / 8)) used)

    last-lt : b < 2 ^ used
    last-lt = grind (arith, number-lsb, pow-cursor, o.bound, pow_pos (8 * (p / 8)))

    last-lsb : last false ≡ b + c * 2 ^ used
    last-lsb = bit_or_fields_low used c b last-lt

    last-IsByte-lsb : last false < 2 ^ 8
    last-IsByte-lsb =
        rw last-lsb
          (grind (arith, last-lt, small, two-pow-add used t, two-pow-le (used + t) 8 fits))

    Stands-lsb : Stands false (init ++ (last false ∷ [])) (p + t) (joined false p n c t)
    Stands-lsb =
        let exact : c % 2 ^ t ≡ c = mod-eq_of_lt small in
        little_endian-snoc init (last false)
        ∙ ap (λ (k : ℕ). little_endian init + last false * 2 ^ (8 * k)) o.size
        ∙ omega (
          arith,
          ap (λ (k : ℕ). k * 2 ^ (8 * (p / 8))) last-lsb,
          number-lsb,
          ap (λ (k : ℕ). c * k) pow-cursor,
        )
        ∙ ap (λ (k : ℕ). n + k * 2 ^ p) (sym exact)

-- The last byte with a chunk in it.
pub chunk-Holds :
    (msb : Bool) (init : List ℕ) (b p n c t : ℕ)
    → 1 ≤ t
    → p % 8 + t ≤ 8
    → c < 2 ^ t
    → IsOpen msb init b p n
    → Holds msb (init ++ (bit_or b (placed msb (p % 8) t c) ∷ [])) (p + t) (joined msb p n c t)
chunk-Holds true init b p n c t pos fits small o = record {
  are_bytes = All-snoc init _ o.are_bytes (last-IsByte-msb init b p n c t pos fits small o);
  size = omega (arith, o.size, length-append init (last init b p n c t pos fits small true ∷ []));
  bound = joined-lt true p n c t o.bound;
  stands = Stands-msb init b p n c t pos fits small o;
}
chunk-Holds false init b p n c t pos fits small o = record {
  are_bytes = All-snoc init _ o.are_bytes (last-IsByte-lsb init b p n c t pos fits small o);
  size = omega (arith, o.size, length-append init (last init b p n c t pos fits small false ∷ []));
  bound = joined-lt false p n c t o.bound;
  stands = Stands-lsb init b p n c t pos fits small o;
}
