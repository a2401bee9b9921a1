-- ===== src/Bits/Put.antt =====
-- A field of a number, replaced: what `BitWriter::patch` of crates/layline-core/src/bits.rs does to
-- the number that the bytes stand for.
use layline.Prelude.{
  ℕ, ◌+◌, ◌*◌, ◌-◌, ◌/◌, ◌%◌, ◌^◌, ◌≤◌, ◌<◌, ◌≡◌, ap, sym, ◌∙◌, arith, ◌⊎◌, inl, inr,
}
use layline.Prelude.{
  two-pow-add, pow_pos, div-mod, div_of_sum, mod_of_sum, div_div_pow, mod_pow_split, low_field,
}
use native.Mathlib.Nat.{mod-eq_of_lt, div-lt_iff_lt-mul}

-- `n` with the `t` bits from bit `a` on replaced by the low bits of `v`.
abbrev pub put : ℕ → ℕ → ℕ → ℕ → ℕ
put n a t v = (n / 2 ^ (a + t) * 2 ^ t + v % 2 ^ t) * 2 ^ a + n % 2 ^ a

-- The number with a high part, `t` bits and `a` bits.
abbrev pub build : ℕ → ℕ → ℕ → ℕ → ℕ → ℕ
build a t q m r = (q * 2 ^ t + m) * 2 ^ a + r

pub build-parts : (n a t : ℕ) → n ≡ build a t (n / 2 ^ (a + t)) (n / 2 ^ a % 2 ^ t) (n % 2 ^ a)
build-parts n a t =
    let low = (div-mod n (2 ^ a) (pow_pos a)).0 in
    let high = (div-mod (n / 2 ^ a) (2 ^ t) (pow_pos t)).0 in
    rw (← div_div_pow n a t, high) (sym low)

pub put-build :
    (a t q m r v : ℕ)
    → m < 2 ^ t
    → r < 2 ^ a
    → put (build a t q m r) a t v ≡ build a t q (v % 2 ^ t) r
put-build a t q m r v hm hr =
    let high : build a t q m r / 2 ^ (a + t) ≡ q =
      sym (div_div_pow (build a t q m r) a t)
      ∙ ap (λ (k : ℕ). k / 2 ^ t) (div_of_sum (2 ^ a) (q * 2 ^ t + m) r hr)
      ∙ div_of_sum (2 ^ t) q m hm in
    let low = mod_of_sum (2 ^ a) (q * 2 ^ t + m) r hr in
    λ i. (high i * 2 ^ t + v % 2 ^ t) * 2 ^ a + low i

pub low-lt : (n t : ℕ) → n % 2 ^ t < 2 ^ t
low-lt n t = (div-mod n (2 ^ t) (pow_pos t)).1

join_lt : (m r a t : ℕ) → m < 2 ^ t → r < 2 ^ a → m * 2 ^ a + r < 2 ^ (t + a)
join_lt m r a t hm hr = rw two-pow-add (grind arith)

pub put_of :
    (n a t q m r v : ℕ)
    → n ≡ build a t q m r
    → m < 2 ^ t
    → r < 2 ^ a
    → put n a t v ≡ build a t q (v % 2 ^ t) r
put_of n a t q m r v e hm hr = ap (λ (k : ℕ). put k a t v) e ∙ put-build a t q m r v hm hr

-- The middle part in two, cut off below or above.
build-high :
    (a t d q m1 m0 r : ℕ)
    → build a (t + d) q (m1 * 2 ^ t + m0) r ≡ build (a + t) d q m1 (m0 * 2 ^ a + r)
build-high a t d q m1 m0 r = rw (two-pow-add t d, two-pow-add a t) (omega arith)

build-low :
    (a t d q m1 m0 r : ℕ) → build (a + t) d q m1 (m0 * 2 ^ a + r) ≡ build a t (q * 2 ^ d + m1) m0 r
build-low a t d q m1 m0 r = rw (two-pow-add a t) (omega arith)

middle :
    (n a t d : ℕ)
    → n
      ≡ build a
          (t + d)
          (n / 2 ^ (a + (t + d)))
          (n / 2 ^ a / 2 ^ t % 2 ^ d * 2 ^ t + n / 2 ^ a % 2 ^ t)
          (n % 2 ^ a)
middle n a t d =
    build-parts n a (t + d)
    ∙ ap (λ (m : ℕ). build a (t + d) (n / 2 ^ (a + (t + d))) m (n % 2 ^ a))
        (mod_pow_split (n / 2 ^ a) t d)

-- A field put in two parts, the high bits first, or the low bits first.
module _ (n a t d v : ℕ) where
  abbrev q : ℕ
  q = n / 2 ^ (a + (t + d))

  abbrev m1 : ℕ
  m1 = n / 2 ^ a / 2 ^ t % 2 ^ d

  abbrev m0 : ℕ
  m0 = n / 2 ^ a % 2 ^ t

  abbrev r : ℕ
  r = n % 2 ^ a

  whole-put : put n a (t + d) v ≡ build a (t + d) q (v / 2 ^ t % 2 ^ d * 2 ^ t + v % 2 ^ t) r
  whole-put = ap (λ (m : ℕ). build a (t + d) q m r) (mod_pow_split v t d)

  below-lt : (x : ℕ) → x < 2 ^ t → x * 2 ^ a + r < 2 ^ (a + t)
  below-lt x lt =
      let swap : t + a ≡ a + t = omega arith in rw swap at (join_lt x r a t lt (low-lt n a))

  pub put-high : put (put n (a + t) d (v / 2 ^ t)) a t v ≡ put n a (t + d) v
  put-high =
      let first =
        put_of n (a + t) d q m1 (m0 * 2 ^ a + r) (v / 2 ^ t)
          (middle n a t d ∙ build-high a t d q m1 m0 r) (low-lt (n / 2 ^ a / 2 ^ t) d)
          (below-lt m0 (low-lt (n / 2 ^ a) t)) in
      let v1 = v / 2 ^ t % 2 ^ d in
      put_of (put n (a + t) d (v / 2 ^ t)) a t (q * 2 ^ d + v1) m0 r v
        (first ∙ build-low a t d q v1 m0 r) (low-lt (n / 2 ^ a) t) (low-lt n a)
      ∙ sym (whole-put ∙ build-high a t d q v1 (v % 2 ^ t) r ∙ build-low a t d q v1 (v % 2 ^ t) r)

  pub put-low : put (put n a t v) (a + t) d (v / 2 ^ t) ≡ put n a (t + d) v
  put-low =
      let first =
        put_of n a t (q * 2 ^ d + m1) m0 r v
          (middle n a t d ∙ build-high a t d q m1 m0 r ∙ build-low a t d q m1 m0 r)
          (low-lt (n / 2 ^ a) t) (low-lt n a) in
      put_of (put n a t v) (a + t) d q m1 (v % 2 ^ t * 2 ^ a + r) (v / 2 ^ t)
        (first ∙ sym (build-low a t d q m1 (v % 2 ^ t) r)) (low-lt (n / 2 ^ a / 2 ^ t) d)
        (below-lt (v % 2 ^ t) (low-lt v t))
      ∙ sym (whole-put ∙ build-high a t d q (v / 2 ^ t % 2 ^ d) (v % 2 ^ t) r)

pub put-lt : (n p a t v : ℕ) → a + t ≤ p → n < 2 ^ p → put n a t v < 2 ^ p
put-lt n p a t v le lt =
    let h = p - (a + t) in
    let whole : h + (a + t) ≡ p = omega arith in
    let swap : t + a ≡ a + t = omega arith in
    let pp : 2 ^ p ≡ 2 ^ h * 2 ^ (a + t) = rw whole at (two-pow-add h (a + t)) in
    let q = n / 2 ^ (a + t) in
    let low = v % 2 ^ t * 2 ^ a + n % 2 ^ a in
    let high = (div-lt_iff_lt-mul (pow_pos (a + t))).1 (rw pp at lt) in
    let small = rw swap at (join_lt (v % 2 ^ t) (n % 2 ^ a) a t (low-lt v t) (low-lt n a)) in
    let regroup : put n a t v ≡ q * 2 ^ (a + t) + low = rw (two-pow-add a t) (omega arith) in
    rw (regroup, ← whole) (join_lt q low (a + t) h high small)

-- A field of a field.
build-nest :
    (a w s t q qb m rb r : ℕ)
    → s + t ≤ w
    → build a w q (build s t qb m rb) r
      ≡ build (a + s) t (q * 2 ^ (w - (s + t)) + qb) m (rb * 2 ^ a + r)
build-nest a w s t q qb m rb r le =
    let u = w - (s + t) in
    let whole : u + (s + t) ≡ w = omega arith in
    let pw : 2 ^ w ≡ 2 ^ u * (2 ^ s * 2 ^ t) =
      rw (whole, two-pow-add s t) at (two-pow-add u (s + t)) in
    rw (pw, two-pow-add a s) (omega arith)

pub put-put :
    (n a w s t v : ℕ) → s + t ≤ w → put n a w (put (n / 2 ^ a % 2 ^ w) s t v) ≡ put n (a + s) t v
put-put n a w s t v le =
    let b = n / 2 ^ a % 2 ^ w in
    let q = n / 2 ^ (a + w) in
    let r = n % 2 ^ a in
    let qb = b / 2 ^ (s + t) in
    let rb = b % 2 ^ s in
    let exact : put b s t v % 2 ^ w ≡ put b s t v =
      mod-eq_of_lt (put-lt b w s t v le (low-lt (n / 2 ^ a) w)) in
    let swap : s + a ≡ a + s = omega arith in
    let parts : n
        ≡ build (a + s) t (q * 2 ^ (w - (s + t)) + qb) (b / 2 ^ s % 2 ^ t) (rb * 2 ^ a + r) =
      build-parts n a w
      ∙ ap (λ (m : ℕ). build a w q m r) (build-parts b s t)
      ∙ build-nest a w s t q qb (b / 2 ^ s % 2 ^ t) rb r le in
    ap (λ (m : ℕ). build a w q m r) exact
    ∙ build-nest a w s t q qb (v % 2 ^ t) rb r le
    ∙ sym (
        put_of n (a + s) t (q * 2 ^ (w - (s + t)) + qb) (b / 2 ^ s % 2 ^ t) (rb * 2 ^ a + r) v parts
          (low-lt (b / 2 ^ s) t) (rw swap at (join_lt rb r a s (low-lt b s) (low-lt n a))))

-- Zero bits below stay.
build-shift : (k a t q m r : ℕ) → build (k + a) t q m (r * 2 ^ k) ≡ build a t q m r * 2 ^ k
build-shift k a t q m r = rw (two-pow-add k a) (omega arith)

pub put-shift : (n k a t v : ℕ) → put (n * 2 ^ k) (k + a) t v ≡ put n a t v * 2 ^ k
put-shift n k a t v =
    let q = n / 2 ^ (a + t) in
    let m = n / 2 ^ a % 2 ^ t in
    let r = n % 2 ^ a in
    let low : r * 2 ^ k < 2 ^ (k + a) =
      rw two-pow-add (let lt = low-lt n a in grind (arith, lt, pow_pos k)) in
    put_of (n * 2 ^ k) (k + a) t q m (r * 2 ^ k) v
      (ap (λ (x : ℕ). x * 2 ^ k) (build-parts n a t) ∙ sym (build-shift k a t q m r))
      (low-lt (n / 2 ^ a) t) low
    ∙ build-shift k a t q (v % 2 ^ t) r

-- The field put, and a field that has no bit in common with it.
pub put-here : (n a t v : ℕ) → put n a t v / 2 ^ a % 2 ^ t ≡ v % 2 ^ t
put-here n a t v =
    ap (λ (x : ℕ). x % 2 ^ t)
      (div_of_sum (2 ^ a) (n / 2 ^ (a + t) * 2 ^ t + v % 2 ^ t) (n % 2 ^ a) (low-lt n a))
    ∙ mod_of_sum (2 ^ t) (n / 2 ^ (a + t)) (v % 2 ^ t) (low-lt v t)

pub put-elsewhere :
    (n a t v b u : ℕ) → (b + u ≤ a) ⊎ (a + t ≤ b) → put n a t v / 2 ^ b % 2 ^ u ≡ n / 2 ^ b % 2 ^ u
put-elsewhere n a t v b u (inl below) =
    sym (low_field (put n a t v) a b u below)
    ∙ ap (λ (x : ℕ). x / 2 ^ b % 2 ^ u)
        (mod_of_sum (2 ^ a) (n / 2 ^ (a + t) * 2 ^ t + v % 2 ^ t) (n % 2 ^ a) (low-lt n a))
    ∙ low_field n a b u below
put-elsewhere n a t v b u (inr above) =
    let q = n / 2 ^ (a + t) in
    let high : put n a t v / 2 ^ (a + t) ≡ q =
      sym (div_div_pow (put n a t v) a t)
      ∙ ap (λ (x : ℕ). x / 2 ^ t)
          (div_of_sum (2 ^ a) (q * 2 ^ t + v % 2 ^ t) (n % 2 ^ a) (low-lt n a))
      ∙ div_of_sum (2 ^ t) q (v % 2 ^ t) (low-lt v t) in
    let up : a + t + (b - (a + t)) ≡ b = omega arith in
    ap (λ (k : ℕ). put n a t v / 2 ^ k % 2 ^ u) (sym up)
    ∙ ap (λ (x : ℕ). x % 2 ^ u)
        (sym (div_div_pow (put n a t v) (a + t) (b - (a + t)))
          ∙ ap (λ (x : ℕ). x / 2 ^ (b - (a + t))) high
          ∙ div_div_pow n (a + t) (b - (a + t)))
    ∙ ap (λ (k : ℕ). n / 2 ^ k % 2 ^ u) up
