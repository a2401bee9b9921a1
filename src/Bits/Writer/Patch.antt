-- ===== src/Bits/Writer/Patch.antt =====
-- `patch` of crates/layline-core/src/bits.rs on every buffer: its rounds, and the field it leaves.
use layline.Prelude.{
  ℕ, zero, suc, ◌+◌, ◌*◌, ◌-◌, ◌/◌, ◌%◌, ◌^◌, ◌≤◌, ◌<◌, min, List, [], ◌∷◌, ◌++◌, Bool, true, false,
}
use layline.Prelude.{
  length, set, get_elem?, get_or, some, arith, ◌≡◌, refl, ap, sym, ◌∙◌, get_elem?-eq-get_or,
  length-append, div_div_pow, div-mod, pow_pos,
}
use layline.Buffer.{Buffer}
use layline.Bits.Put.{put, put-high, put-low}
use layline.Bits.Writer.{BitWriter, patch, patch_loop, hole_mask, patched_byte, write_chunk}
use layline.Bits.Writer.Holds.{Holds}
use layline.Bits.Writer.Chunk.{write_chunk-placed}
use layline.Bits.Writer.PatchBytes.{
  shift, hole_mask-shift, patched_byte-put, low_end, set-Holds, get_or-IsByte,
}
use layline.Bits.Writer.Rounds.{IsWriter}

suc_plus : (n i : ℕ) → suc n + i ≡ suc (n + i)
suc_plus n i = omega arith

get_elem?-behind :
    (pre body : List ℕ) (i : ℕ) → get_elem? (pre ++ body) (length pre + i) ≡ get_elem? body i
get_elem?-behind [] body i = ap (λ (k : ℕ). get_elem? body k) (omega arith)
get_elem?-behind (x ∷ pre) body i = rw (suc_plus (length pre) i) (get_elem?-behind pre body i)

set-behind :
    (pre body : List ℕ) (i y : ℕ) → set (pre ++ body) (length pre + i) y ≡ pre ++ set body i y
set-behind [] body i y = ap (λ (k : ℕ). set body k y) (omega arith)
set-behind (x ∷ pre) body i y =
    rw (suc_plus (length pre) i) (ap (λ (l : List ℕ). x ∷ l) (set-behind pre body i y))

-- What a round takes of the value, with the bits above it.
abbrev rest_of : Bool → ℕ → ℕ → ℕ → ℕ → ℕ
rest_of true value bits left t = value / 2 ^ (left - t)
rest_of false value bits left t = value / 2 ^ (bits - left)

-- The byte after a round is the field put into it.
round_byte :
    (msb : Bool) (b value bits left used t : ℕ)
    → b < 2 ^ 8
    → used + t ≤ 8
    → patched_byte b (hole_mask msb used t) (write_chunk msb value bits left used t)
      ≡ put b (shift msb used t) t (rest_of msb value bits left t)
round_byte true b value bits left used t lt le =
    (λ i.
      patched_byte b (hole_mask-shift true used t le i)
        (write_chunk-placed true value bits left used t le i))
    ∙ patched_byte-put b (8 - used - t) t (value / 2 ^ (left - t)) lt (omega arith)
round_byte false b value bits left used t lt le =
    (λ i.
      patched_byte b (hole_mask-shift false used t le i)
        (write_chunk-placed false value bits left used t le i))
    ∙ patched_byte-put b used t (value / 2 ^ (bits - left)) lt le

-- The number once the first `d` bits of the field are in place.
abbrev so_far : Bool → ℕ → ℕ → ℕ → ℕ → ℕ → ℕ → ℕ
so_far true p n start bits value d = put n (p - (start + d)) d (value / 2 ^ (bits - d))
so_far false p n start bits value d = put n start d value

put-nothing : (n a v : ℕ) → put n a 0 v ≡ n
put-nothing n a v =
    let e : a + 0 ≡ a = omega arith in
    let same : n / 2 ^ a * 2 ^ 0 ≡ n / 2 ^ a = omega arith in
    let none : v % 2 ^ 0 ≡ 0 = omega arith in
    rw (e, same, none) (omega (arith, div-mod n (2 ^ a) (pow_pos a)))

module _ (p n start bits value : ℕ) (inside : start + bits ≤ p) where
  so_far-zero : (msb : Bool) → so_far msb p n start bits value 0 ≡ n
  so_far-zero true = put-nothing n (p - (start + 0)) (value / 2 ^ (bits - 0))
  so_far-zero false = put-nothing n start value

  so_far-all :
      (msb : Bool)
      → so_far msb p n start bits value bits ≡ put n (low_end msb p start bits) bits value
  so_far-all true =
      let none : bits - bits ≡ 0 = omega arith in
      let same : value / 2 ^ 0 ≡ value = omega arith in rw (none, same)
  so_far-all false = refl

  so_far-round :
      (msb : Bool) (d t : ℕ)
      → d + t ≤ bits
      → put
          (so_far msb p n start bits value d)
          (low_end msb p (start + d) t)
          t
          (rest_of msb value bits (bits - d) t)
        ≡ so_far msb p n start bits value (d + t)
  so_far-round true d t le =
      let a = p - (start + (d + t)) in
      let v = value / 2 ^ (bits - (d + t)) in
      let above : p - (start + d) ≡ a + t = omega (arith, inside) in
      let here : p - (start + d + t) ≡ a = omega arith in
      let rest : bits - d - t ≡ bits - (d + t) = omega arith in
      let high : value / 2 ^ (bits - d) ≡ v / 2 ^ t =
        let e : bits - (d + t) + t ≡ bits - d = omega arith in
        sym (div_div_pow value (bits - (d + t)) t ∙ ap (λ (k : ℕ). value / 2 ^ k) e) in
      let swap : t + d ≡ d + t = omega arith in
      (λ i. put (put n (above i) d (high i)) (here i) t (value / 2 ^ rest i))
      ∙ put-high n a t d v
      ∙ ap (λ (k : ℕ). put n a k v) swap
  so_far-round false d t le =
      let there : bits - (bits - d) ≡ d = omega arith in
      ap (λ (k : ℕ). put (put n start d value) (start + d) t (value / 2 ^ k)) there
      ∙ put-low n start d t value

  -- The rounds from `left` bits before the end.
  patch_loop-Holds :
      (msb : Bool) (pre : List ℕ) (fuel left d : ℕ) (body : List ℕ)
      → left ≤ fuel
      → d + left ≡ bits
      → Holds msb body p (so_far msb p n start bits value d)
      → (body' : List ℕ) × (patch_loop msb fuel
            (length pre)
            value
            bits
            left
            (start + d)
            (pre ++ body)
          ≡ some (pre ++ body'))
        × Holds msb body' p (so_far msb p n start bits value bits)
  unfolding patch_loop
  patch_loop-Holds msb pre zero zero d body enough e h =
      let all : d ≡ bits = omega arith in (body, refl, rw all at h)
  patch_loop-Holds msb pre (suc fuel) zero d body enough e h =
      let all : d ≡ bits = omega arith in (body, refl, rw all at h)
  patch_loop-Holds msb pre zero (suc left) d body enough e h = absurd (omega arith)
  patch_loop-Holds msb pre (suc fuel) (suc left) d body enough e h =
      let at = start + d in
      let used = at % 8 in
      let t = min (suc left) (8 - used) in
      let v = rest_of msb value bits (suc left) t in
      let index : at / 8 < length body = omega (arith, h.size, inside) in
      let b = get_or body (at / 8) 0 in
      let found = get_elem?-behind pre body (at / 8) ∙ get_elem?-eq-get_or body (at / 8) 0 index in
      let byte =
        round_byte msb b value bits (suc left) used t (get_or-IsByte body (at / 8) h.are_bytes)
          (omega arith) in
      let next =
        set-Holds body p (so_far msb p n start bits value d) at t v (omega (arith, inside))
          (omega arith) (omega arith) msb h in
      let there : bits - d ≡ suc left = omega arith in
      let number = rw there at (so_far-round msb d t (omega arith)) in
      let regroup : start + d + t ≡ start + (d + t) = omega arith in
      let more =
        patch_loop-Holds msb pre fuel (suc left - t) (d + t)
          (set body (at / 8) (put b (shift msb used t) t v)) (omega arith) (omega arith)
          (rw number at next) in
      rw
        (
          found,
          patch_loop,
          byte,
          set-behind pre body (at / 8) (put b (shift msb used t) t v),
          regroup,
        )
        more

-- A writer on any buffer after a patch of a field inside the bits it holds.
module _ {B : Type 0} (buffer : Buffer B) (msb : Bool) (pre : List ℕ) where
  open buffer use {written, overwrite, overwrite-written}

  pub patch-IsWriter :
      (w : BitWriter B) (p n at bits value : ℕ)
      → IsWriter buffer msb pre w p n
      → at + bits ≤ p
      → (w' : BitWriter B) × (patch buffer msb at bits value w ≡ some w')
        × IsWriter buffer msb pre w' p (put n (low_end msb p at bits) bits value)
  unfolding patch
  patch-IsWriter w p n at bits value h inside =
      let start = so_far-zero p n at bits value inside msb in
      let (body, runs, holds) =
        patch_loop-Holds p n at bits value inside msb pre bits bits 0 h.bytes (omega arith)
          (omega arith) (rw start h.holds) in
      let none : at + 0 ≡ at = omega arith in
      let all = so_far-all p n at bits value inside msb in
      let same : length (pre ++ body) ≡ length (written w.out) =
        length-append pre body
        ∙ omega (arith, holds.size, h.holds.size)
        ∙ sym (ap (λ (l : List ℕ). length l) h.splits ∙ length-append pre h.bytes) in
      let looped : patch_loop msb bits w.base value bits bits at (written w.out)
          ≡ some (pre ++ body) =
        (λ i. patch_loop msb bits (h.start i) value bits bits (sym none i) (h.splits i)) ∙ runs in
      let (now, valid) = overwrite-written (pre ++ body) w.out h.valid same in
      (
        record w { out = overwrite (pre ++ body) w.out },
        rw (patch, looped),
        record {
          valid = valid;
          bytes = body;
          splits = now;
          holds = rw all at holds;
          cursor = h.cursor;
          start = h.start;
        },
      )
