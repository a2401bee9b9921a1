-- ===== src/Bits/Writer/Write.antt =====
-- `BitWriter::write` of crates/layline-core/src/bits.rs on every buffer.
use layline.Prelude.{
  if◌then◌else◌, ℕ, ◌+◌, ◌*◌, ◌-◌, ◌/◌, ◌%◌, ◌^◌, ◌≤◌, ◌<◌, List, [], ◌∷◌, ◌++◌, Bool, true, false,
}
use layline.Prelude.{length, arith, ◌≡◌, refl, ap, sym, ◌∙◌, length-append}
use layline.Prelude.{
  take, length-take, take-append_add, ltb, ltb→lt, ltb→le, bit_and, All, append_assoc, Bool-cases,
  inl, inr,
}
use layline.Buffer.{Buffer, Status, done, overflow, stuck}
use layline.Bits.Writer.{BitWriter, on_last, settle, roll_back, write, bit}
use layline.Bits.{bytes_for}
use layline.Bits.Number.{IsByte, All-front}
use layline.Bits.Writer.{keep_mask}
use layline.Bits.Writer.Undo.{Keeps, number_of, All-take, take-Keeps, whole-Holds, masked-Holds}
use layline.Bits.Writer.Holds.{joined}
use layline.Bits.Writer.Append.{done_bits, snoc-cases}
use layline.Bits.Writer.Rounds.{IsWriter, on_last-snoc, IsAppend, append_loop-IsAppend}

module _ {B : Type 0} (buffer : Buffer B) (msb : Bool) (pre : List ℕ) where
  open buffer use {IsValid, written, overwrite, rewind, overwrite-written, rewind-written}

  -- The cut of a failed write.
  cut-written :
      (w : BitWriter B) (p n p' n' : ℕ) (h : IsWriter buffer msb pre w p' n')
      → p ≤ p'
      → (written (rewind (length pre + bytes_for p) w.out) ≡ pre ++ take (bytes_for p) h.bytes)
        × IsValid (rewind (length pre + bytes_for p) w.out)
  cut-written w p n p' n' h le =
      let cut = rewind-written (length pre + bytes_for p) w.out h.valid in
      (
        cut.0
            ∙ ap (λ (l : List ℕ). take (length pre + bytes_for p) l) h.splits
            ∙ take-append_add pre h.bytes (bytes_for p),
        cut.1,
      )

  roll_back-IsWriter :
      (w : BitWriter B) (p n v d : ℕ)
      → n < 2 ^ p
      → (p + d) % 8 ≡ 0
      → IsWriter buffer msb pre w (p + d) (joined msb p n v d)
      → IsWriter buffer msb pre (roll_back buffer msb (length pre + bytes_for p) (p % 8) w) p n
  unfolding roll_back
  roll_back-IsWriter w p n v d lt full h = elim (Bool-cases (ltb 0 (p % 8))) [
    | inr whole ↦ rw whole (record {
      valid = cut.1;
      bytes = first;
      splits = cut.0;
      holds = whole-Holds msb first p n (omega (arith, ltb→le _ _ whole)) are_bytes size lt keeps;
      cursor = refl;
      start = h.start;
    })
    | inl partial ↦ rw partial (
        masked_back (ltb→lt _ _ partial)
          (snoc-cases first (omega (arith, ltb→lt _ _ partial, size))))
  ]
    where
      cut :
          (written (rewind (length pre + bytes_for p) w.out) ≡ pre ++ take (bytes_for p) h.bytes)
          × IsValid (rewind (length pre + bytes_for p) w.out)
      cut = cut-written w p n (p + d) (joined msb p n v d) h (omega arith)

      first : List ℕ
      first = take (bytes_for p) h.bytes

      are_bytes : All IsByte first
      are_bytes = All-take (bytes_for p) h.bytes h.holds.are_bytes

      size : length first ≡ bytes_for p
      size = omega (arith, length-take (bytes_for p) h.bytes, h.holds.size)

      keeps : Keeps msb p n (8 * bytes_for p - p) (number_of msb first)
      keeps = take-Keeps msb h.bytes p n v d lt full h.holds

      short : BitWriter B
      short = record w { out = rewind (length pre + bytes_for p) w.out; used = p % 8 }

      masked_back :
          0 < p % 8
          → (init : List ℕ) × (b : ℕ) × (first ≡ init ++ (b ∷ []))
          → IsWriter buffer msb pre
              ((on_last buffer (λ last. bit_and last (keep_mask msb (p % 8))) short done).0)
              p
              n
      masked_back partial (init, b, e) =
          let y = bit_and b (keep_mask msb (p % 8)) in
          let split =
            cut.0 ∙ ap (λ (l : List ℕ). pre ++ l) e ∙ sym (append_assoc pre init (b ∷ [])) in
          let bytes = All-front init b (rw e at are_bytes) in
          let len = ap (λ (l : List ℕ). length l) e in
          let init_len : length init ≡ p / 8 =
            omega (arith, len, size, length-append init (b ∷ [])) in
          let changed = overwrite-written (pre ++ init ++ (y ∷ [])) short.out cut.1 (
            omega (
              arith,
              ap (λ (l : List ℕ). length l) split,
              length-append (pre ++ init) (y ∷ []),
              length-append (pre ++ init) (b ∷ []),
            )) in
          rw
            (on_last-snoc buffer msb pre (λ last. bit_and last (keep_mask msb (p % 8))) short
              (pre ++ init) b done split)
            (record {
              valid = changed.1;
              bytes = init ++ (y ∷ []);
              splits = changed.0 ∙ append_assoc pre init (y ∷ []);
              holds =
                  masked-Holds init b p n partial init_len bytes.1 msb bytes.0 lt (rw e at keeps);
              cursor = refl;
              start = h.start;
            })

  -- How a write ends: with `bits` bits more, or with the bits that were held before it.
  abbrev pub IsWrite : ℕ → ℕ → ℕ → ℕ → BitWriter B × Status → Type 0
  IsWrite value bits p n (w, done) =
      IsWriter buffer msb pre w (p + bits) (joined msb p n value bits)
  IsWrite value bits p n (w, overflow) = IsWriter buffer msb pre w p n
  IsWrite value bits p n (w, stuck) = ⊥

  settle-IsWrite :
      (value bits p n : ℕ) (len used : ℕ) (out : BitWriter B × Status)
      → n < 2 ^ p
      → len ≡ length pre + bytes_for p
      → used ≡ p % 8
      → IsAppend buffer msb pre value bits p n out
      → IsWrite value bits p n (settle buffer msb len used out)
  unfolding settle
  settle-IsWrite value bits p n len used (w, done) lt el eu h = rw all at h
    where
      joined_all :
          (msb : Bool)
          → joined msb p n (done_bits msb value bits bits) bits ≡ joined msb p n value bits
      joined_all true =
          let none : bits - bits ≡ 0 = omega arith in
          let whole : value / 2 ^ 0 ≡ value = omega arith in rw (none, whole)
      joined_all false = refl

      all : joined msb p n (done_bits msb value bits bits) bits ≡ joined msb p n value bits
      all = joined_all msb
  settle-IsWrite value bits p n len used (w, overflow) lt el eu (d, le, full, h) =
      rw (el, eu) (roll_back-IsWriter w p n (done_bits msb value bits d) d lt full h)
  settle-IsWrite value bits p n len used (w, stuck) lt el eu h = h

  -- A write of up to 64 bits to a writer that holds `p` bits, standing for `n`, returns: it appends
  -- the low bits of the value behind them, in the writer's bit order, or overflows and leaves a
  -- writer that holds the same bits at the same position. The bytes before it stay in both cases.
  pub write_lem :
      (value bits : ℕ) (w : BitWriter B) (p n : ℕ)
      → bits ≤ 64
      → IsWriter buffer msb pre w p n
      → IsWrite value bits p n (write buffer msb value bits w)
  unfolding write
  write_lem value bits w p n narrow h =
      settle-IsWrite value bits p n (length (written w.out)) w.used _ h.holds.bound
        (ap (λ (l : List ℕ). length l) h.splits
          ∙ length-append pre h.bytes
          ∙ ap (λ (k : ℕ). length pre + k) h.holds.size)
        h.cursor
        (append_loop-IsAppend buffer msb pre value bits p n bits bits (omega arith) 0 w
          (omega arith) (rw (none_yet, number) h))
    where
      none_yet : p + 0 ≡ p
      none_yet = omega arith

      joined_none : (msb : Bool) (v : ℕ) → joined msb p n v 0 ≡ n
      joined_none true v = omega arith
      joined_none false v = let none : v % 2 ^ 0 ≡ 0 = omega arith in rw none (omega arith)

      number : joined msb p n (done_bits msb value bits 0) 0 ≡ n
      number = joined_none msb (done_bits msb value bits 0)

  -- `bit` appends one bit in the same way.
  pub bit_lem :
      (set : Bool) (w : BitWriter B) (p n : ℕ)
      → IsWriter buffer msb pre w p n
      → IsWrite (if set then 1 else 0) 1 p n (bit buffer msb set w)
  unfolding bit
  bit_lem set w p n h = write_lem (if set then 1 else 0) 1 w p n (omega arith) h
