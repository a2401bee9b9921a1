-- ===== src/Bits/Number.antt =====
-- A byte string as one number, most or least significant byte first, and the fields of its bits.
-- This is the independent description that the cursors of crates/layline-core/src/bits.rs are held to.
use layline.Prelude.{ℕ, zero, suc, ◌+◌, ◌*◌, ◌-◌, ◌/◌, ◌%◌, ◌^◌, ◌<◌, List, [], ◌∷◌, ◌++◌}
use layline.Prelude.{Bool, true, false, length, get_or, All, arith, ◌≡◌, refl, ap, sym, ◌∙◌}
use layline.Prelude.{two-pow-add, low_field, div_div_pow, div_of_sum, mod_of_sum, length-append}

abbrev pub IsByte : ℕ → Type 0
IsByte b = b < 2 ^ 8

unfoldable pub big_endian : List ℕ → ℕ
big_endian [] = 0
big_endian (b ∷ bs) = b * 2 ^ (8 * length bs) + big_endian bs

unfoldable pub little_endian : List ℕ → ℕ
little_endian [] = 0
little_endian (b ∷ bs) = little_endian bs * 2 ^ 8 + b

-- The `bits` bits from bit `at` on, as the number that they stand for in either order.
unfoldable pub field : Bool → List ℕ → ℕ → ℕ → ℕ
field true bytes at bits = big_endian bytes / 2 ^ (8 * length bytes - (at + bits)) % 2 ^ bits
field false bytes at bits = little_endian bytes / 2 ^ at % 2 ^ bits

pub big_endian-lt : (bs : List ℕ) → All IsByte bs → big_endian bs < 2 ^ (8 * length bs)
unfolding big_endian
big_endian-lt [] h = omega arith
big_endian-lt (b ∷ bs) (hb, h) =
    let e : 8 * suc (length bs) ≡ 8 + 8 * length bs = omega arith in
    rw (e, two-pow-add) (grind (arith, big_endian-lt bs h))

pub little_endian-lt : (bs : List ℕ) → All IsByte bs → little_endian bs < 2 ^ (8 * length bs)
unfolding little_endian
little_endian-lt [] h = omega arith
little_endian-lt (b ∷ bs) (hb, h) =
    let e : 8 * suc (length bs) ≡ 8 * length bs + 8 = omega arith in
    rw (e, two-pow-add) (omega (arith, little_endian-lt bs h))

-- The byte at an index, from the number.
pub big_endian-get :
    (bs : List ℕ) (i : ℕ)
    → All IsByte bs
    → i < length bs
    → get_or bs i 0 ≡ big_endian bs / 2 ^ (8 * (length bs - 1 - i)) % 2 ^ 8
unfolding big_endian
big_endian-get [] i h lt = absurd (omega arith)
big_endian-get (b ∷ bs) zero (hb, h) lt =
    let e : 8 * (suc (length bs) - 1 - 0) ≡ 8 * length bs = omega arith in
    rw (e, div_of_sum (2 ^ (8 * length bs)) b (big_endian bs) (big_endian-lt bs h)) (omega arith)
big_endian-get (b ∷ bs) (suc i) (hb, h) lt =
    let n = 8 * length bs in
    let m = 8 * (length bs - 1 - i) in
    let e : 8 * (suc (length bs) - 1 - suc i) ≡ m = omega arith in
    let low = low_field (b * 2 ^ n + big_endian bs) n m 8 (omega arith) in
    rw (e, ← low, mod_of_sum (2 ^ n) b (big_endian bs) (big_endian-lt bs h))
      (big_endian-get bs i h (omega arith))

pub little_endian-get :
    (bs : List ℕ) (i : ℕ)
    → All IsByte bs
    → i < length bs
    → get_or bs i 0 ≡ little_endian bs / 2 ^ (8 * i) % 2 ^ 8
unfolding little_endian
little_endian-get [] i h lt = absurd (omega arith)
little_endian-get (b ∷ bs) zero (hb, h) lt = omega arith
little_endian-get (b ∷ bs) (suc i) (hb, h) lt =
    let e : 8 * suc i ≡ 8 + 8 * i = omega arith in
    let tail : (little_endian bs * 2 ^ 8 + b) / 2 ^ 8 ≡ little_endian bs = omega arith in
    rw (e, ← div_div_pow, tail) (little_endian-get bs i h (omega arith))

-- One more byte at the end.
pub big_endian-snoc :
    (bs : List ℕ) (b : ℕ) → big_endian (bs ++ (b ∷ [])) ≡ big_endian bs * 2 ^ 8 + b
unfolding big_endian
big_endian-snoc [] b = omega arith
big_endian-snoc (x ∷ bs) b =
    let e : 8 * length (bs ++ (b ∷ [])) ≡ 8 * length bs + 8 =
      omega (arith, length-append bs (b ∷ [])) in
    rw (e, two-pow-add) (omega (arith, big_endian-snoc bs b))

pub little_endian-snoc :
    (bs : List ℕ) (b : ℕ)
    → little_endian (bs ++ (b ∷ [])) ≡ little_endian bs + b * 2 ^ (8 * length bs)
unfolding little_endian
little_endian-snoc [] b = omega arith
little_endian-snoc (x ∷ bs) b =
    let e : 8 * suc (length bs) ≡ 8 * length bs + 8 = omega arith in
    rw (e, two-pow-add) (omega (arith, little_endian-snoc bs b))

pub All-snoc : (bs : List ℕ) (b : ℕ) → All IsByte bs → IsByte b → All IsByte (bs ++ (b ∷ []))
All-snoc [] b h hb = (hb, tt)
All-snoc (x ∷ bs) b (hx, h) hb = (hx, All-snoc bs b h hb)

pub All-front : (bs : List ℕ) (b : ℕ) → All IsByte (bs ++ (b ∷ [])) → All IsByte bs × IsByte b
All-front [] b (hb, h) = (tt, hb)
All-front (x ∷ bs) b (hx, h) = let (front, last) = All-front bs b h in ((hx, front), last)

pub big_endian-append :
    (xs ys : List ℕ) → big_endian (xs ++ ys) ≡ big_endian xs * 2 ^ (8 * length ys) + big_endian ys
unfolding big_endian
big_endian-append [] ys = omega arith
big_endian-append (x ∷ xs) ys =
    let e : 8 * length (xs ++ ys) ≡ 8 * length xs + 8 * length ys =
      omega (arith, length-append xs ys) in
    rw (e, two-pow-add) (omega (arith, big_endian-append xs ys))

pub little_endian-append :
    (xs ys : List ℕ)
    → little_endian (xs ++ ys) ≡ little_endian ys * 2 ^ (8 * length xs) + little_endian xs
unfolding little_endian
little_endian-append [] ys = omega arith
little_endian-append (x ∷ xs) ys =
    let e : 8 * suc (length xs) ≡ 8 * length xs + 8 = omega arith in
    rw (e, two-pow-add) (omega (arith, little_endian-append xs ys))

-- Byte strings of one length with one number are the same.
same_head :
    (k x y a b : ℕ) → a < 2 ^ k → b < 2 ^ k → x * 2 ^ k + a ≡ y * 2 ^ k + b → (x ≡ y) × (a ≡ b)
same_head k x y a b ha hb e = (
  sym (div_of_sum (2 ^ k) x a ha) ∙ ap (λ (z : ℕ). z / 2 ^ k) e ∙ div_of_sum (2 ^ k) y b hb,
  sym (mod_of_sum (2 ^ k) x a ha) ∙ ap (λ (z : ℕ). z % 2 ^ k) e ∙ mod_of_sum (2 ^ k) y b hb,
)

pub big_endian_inj :
    (xs ys : List ℕ)
    → All IsByte xs
    → All IsByte ys
    → length xs ≡ length ys
    → big_endian xs ≡ big_endian ys
    → xs ≡ ys
unfolding big_endian
big_endian_inj [] [] hx hy len e = refl
big_endian_inj [] (y ∷ ys) hx hy len e = absurd (omega arith)
big_endian_inj (x ∷ xs) [] hx hy len e = absurd (omega arith)
big_endian_inj (x ∷ xs) (y ∷ ys) (hx, hxs) (hy, hys) len e =
    let len' : length xs ≡ length ys = omega arith in
    let same =
      same_head (8 * length ys) x y (big_endian xs) (big_endian ys)
        (rw len' at (big_endian-lt xs hxs)) (big_endian-lt ys hys) (rw len' at e) in
    (λ i. same.0 i ∷ big_endian_inj xs ys hxs hys len' same.1 i)

pub little_endian_inj :
    (xs ys : List ℕ)
    → All IsByte xs
    → All IsByte ys
    → length xs ≡ length ys
    → little_endian xs ≡ little_endian ys
    → xs ≡ ys
unfolding little_endian
little_endian_inj [] [] hx hy len e = refl
little_endian_inj [] (y ∷ ys) hx hy len e = absurd (omega arith)
little_endian_inj (x ∷ xs) [] hx hy len e = absurd (omega arith)
little_endian_inj (x ∷ xs) (y ∷ ys) (hx, hxs) (hy, hys) len e =
    let same = same_head 8 (little_endian xs) (little_endian ys) x y hx hy e in
    (λ i. same.1 i ∷ little_endian_inj xs ys hxs hys (omega arith) same.0 i)
