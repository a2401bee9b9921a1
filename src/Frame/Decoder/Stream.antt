-- ===== src/Frame/Decoder/Stream.antt =====
-- The decoder of crates/layline-core/src/frame.rs as a queue of bytes: what `push` adds to it and
-- what `pop` takes from it.
use layline.Prelude.{ℕ, zero, ◌+◌, ◌-◌, ◌≤◌, List}
use layline.Prelude.{ltb, length, take, drop, u64_max}
use layline.Prelude.{arith, ◌≡◌, refl, ap, sym, inl, inr, Bool-cases}
use layline.Prelude.{length-append, length-take, length-drop, take-append}
use layline.Prelude.{length-replicate, ltb→le}
use layline.Frame.Decoder.{Decoder, new, buffered, consume, release}

-- The bytes in use, the frame returned last included.
abbrev pub contents : Decoder → List ℕ
contents d = take d.len d.buf

-- The bytes that no `pop` has returned or discarded.
abbrev pub pending : Decoder → List ℕ
pending d = drop d.spent (contents d)

pub record IsValid (n : ℕ) (d : Decoder) : Type 0 where
  pub array : length d.buf ≡ n
  pub fits : d.len ≤ n
  pub within : d.spent ≤ d.len
  pub counter : d.stats.bytes_discarded ≤ u64_max

pub length-contents : {n : ℕ} (d : Decoder) → IsValid n d → length (contents d) ≡ d.len
length-contents d v = omega (arith, length-take d.len d.buf)

pub length-pending : {n : ℕ} (d : Decoder) → IsValid n d → length (pending d) ≡ buffered d
unfolding buffered
length-pending d v = omega (arith, length-contents d v, length-drop d.spent (contents d))

-- `new` is valid, and holds nothing.
pub new-IsValid : (n : ℕ) → IsValid n (new n)
unfolding new
new-IsValid n = omega (arith, length-replicate n (zero))

pub contents-consume :
    {n : ℕ} (k : ℕ) (d : Decoder)
    → IsValid n d
    → k ≤ d.len
    → contents (consume k d) ≡ drop k (contents d)
unfolding consume
contents-consume k d v le =
    let e : length (drop k (contents d)) ≡ d.len - k =
      omega (arith, length-contents d v, length-drop k (contents d)) in
    rw e at (take-append (drop k (contents d)) (drop (d.len - k) d.buf))

pub consume-shape :
    {n : ℕ} (k : ℕ) (d : Decoder)
    → IsValid n d
    → k ≤ d.len
    → (length (consume k d).buf ≡ n)
      × ((consume k d).len ≡ d.len - k)
      × ((consume k d).spent ≡ d.spent)
      × ((consume k d).stats ≡ d.stats)
unfolding consume
consume-shape k d v le = (
  omega (
    arith,
    length-append (drop k (contents d)) (drop (d.len - k) d.buf),
    length-drop k (contents d),
    length-contents d v,
    length-drop (d.len - k) d.buf,
  ),
  refl,
  refl,
  refl,
)

pub consume-IsValid :
    {n : ℕ} (k : ℕ) (d : Decoder)
    → IsValid n d
    → k ≤ d.len
    → d.spent + k ≤ d.len
    → IsValid n (consume k d)
consume-IsValid k d v le spare =
    let sh = consume-shape k d v le in
    record {
      array = sh.0;
      fits = omega (arith, sh, v);
      within = omega (arith, sh);
      counter = rw sh.3 v.counter;
    }

-- What `release` leaves.
pub record IsReleased (n : ℕ) (d r : Decoder) : Type 0 where
  pub valid : IsValid n r
  pub unspent : r.spent ≡ 0
  pub same_bytes : contents r ≡ pending d
  pub same_stats : r.stats ≡ d.stats

pub release-IsReleased : {n : ℕ} (d : Decoder) → IsValid n d → IsReleased n d (release d)
unfolding release
release-IsReleased {n} d v = elim (Bool-cases (ltb 0 d.spent)) [
  | inl some_spent ↦
      let sh = consume-shape d.spent d v v.within in
      rw some_spent (record {
        valid = record {
          array = sh.0;
          fits = omega (arith, sh, v);
          within = omega arith;
          counter = v.counter;
        };
        unspent = refl;
        same_bytes = contents-consume d.spent d v v.within;
        same_stats = (consume-shape d.spent d v v.within).3;
      })
  | inr none_spent ↦
      let zero_spent : d.spent ≡ 0 = omega (arith, ltb→le _ _ none_spent) in
      rw none_spent (record {
        valid = v;
        unspent = zero_spent;
        same_bytes = ap (λ k. drop k (contents d)) (sym zero_spent);
        same_stats = refl;
      })
]
