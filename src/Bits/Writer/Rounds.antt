-- ===== src/Bits/Writer/Rounds.antt =====
-- The rounds of `append` of crates/layline-core/src/bits.rs on every buffer, from where a writer stands.
use layline.Prelude.{
  ℕ, zero, suc, ◌+◌, ◌-◌, ◌%◌, ◌^◌, ◌≤◌, ◌<◌, min, List, [], ◌∷◌, ◌++◌, Bool, false,
}
use layline.Prelude.{length, arith, ◌≡◌, ap, sym, ◌∙◌, length-append, bit_or, ◌==◌}
use layline.Prelude.{append_assoc, Bool-cases, inl, inr, ==_iff}
use layline.Buffer.{Buffer, Status, done, overflow, stuck, IsPush, ◌>>=◌}
use layline.Bits.Writer.{BitWriter, on_last, open_byte, append_loop, write_chunk}
use layline.Bits.Writer.Holds.{Holds, joined}
use layline.Bits.Writer.Chunk.{
  IsOpen, placed, taken_bits, write_chunk-placed, chunk-Holds, taken_bits-lt,
}
use layline.Bits.Writer.Append.{
  done_bits, joined-joined, snoc-cases, change_last-snoc, zero_byte-IsOpen, last_byte-IsOpen,
}

module _ {B : Type 0} (buffer : Buffer B) (msb : Bool) (pre : List ℕ) where
  open buffer use {
    IsValid, push, written, overwrite, rewind, push-cases, overwrite-written, rewind-written,
  }

  -- A writer that holds `p` bits, standing for `n`, behind the bytes `pre` that it began at.
  pub record IsWriter (w : BitWriter B) (p n : ℕ) : Type 0 where
    pub valid : IsValid w.out
    pub bytes : List ℕ
    pub splits : written w.out ≡ pre ++ bytes
    pub holds : Holds msb bytes p n
    pub cursor : w.used ≡ p % 8
    pub start : w.base ≡ length pre

  -- A writer with room for the next bit in its last byte.
  pub record IsReady (w : BitWriter B) (p n : ℕ) : Type 0 where
    pub valid : IsValid w.out
    pub init : List ℕ
    pub last : ℕ
    pub splits : written w.out ≡ pre ++ init ++ (last ∷ [])
    pub opened : IsOpen msb init last p n
    pub cursor : w.used ≡ p % 8
    pub start : w.base ≡ length pre

  -- How the opening of a byte ends.
  abbrev pub IsOpened : BitWriter B → ℕ → ℕ → BitWriter B × Status → Type 0
  IsOpened w p n (w', done) = IsReady w' p n
  IsOpened w p n (w', overflow) = (w' ≡ w) × (p % 8 ≡ 0)
  IsOpened w p n (w', stuck) = ⊥

  open_byte-IsOpened :
      (w : BitWriter B) (p n : ℕ) → IsWriter w p n → IsOpened w p n (open_byte buffer w)
  unfolding open_byte
  open_byte-IsOpened w p n h = elim (Bool-cases (w.used == 0)) [
    | inl full ↦ rw full (
        pushed ((==_iff w.used 0).0 full) (push (0 ∷ []) w.out) (push-cases (0 ∷ []) w.out h.valid))
    | inr partial ↦ rw partial (kept partial)
  ]
    where
      pushed :
          w.used ≡ 0
          → (out : B × Status) → IsPush IsValid written (0 ∷ []) w.out out
          → IsOpened w p n (record w { out = out.0 }, out.1)
      pushed full (out, done) (more, v) = record {
        valid = v;
        init = h.bytes;
        last = 0;
        splits = more ∙ ap (λ (l : List ℕ). l ++ (0 ∷ [])) h.splits;
        opened = zero_byte-IsOpen msb h.bytes p n (sym h.cursor ∙ full) h.holds;
        cursor = h.cursor;
        start = h.start;
      }
      pushed full (out, overflow) same =
          (ap (λ (out : B). record w { out = out }) same, sym h.cursor ∙ full)
      pushed full (out, stuck) e = e

      kept : (w.used == 0) ≡ false → IsReady w p n
      kept partial =
          let some_bits : 0 < p % 8 = ground (arith, h.cursor) in
          let (init, b, e) = snoc-cases h.bytes (omega (arith, h.holds.size)) in
          record {
            valid = h.valid;
            init = init;
            last = b;
            splits =
                h.splits ∙ ap (λ (l : List ℕ). pre ++ l) e ∙ sym (append_assoc pre init (b ∷ []));
            opened = last_byte-IsOpen msb init b p n some_bits (rw e at h.holds);
            cursor = h.cursor;
            start = h.start;
          }

  pub on_last-snoc :
      (f : ℕ → ℕ) (w : BitWriter B) (xs : List ℕ) (b : ℕ) (otherwise : Status)
      → written w.out ≡ xs ++ (b ∷ [])
      → on_last buffer f w otherwise ≡ (record w { out = overwrite (xs ++ (f b ∷ [])) w.out }, done)
  unfolding on_last
  on_last-snoc f w xs b otherwise e = rw (on_last, e, change_last-snoc f xs b)

  -- A chunk in an open byte.
  chunk-IsWriter :
      (w : BitWriter B) (p n c t x : ℕ) (r : IsReady w p n)
      → 1 ≤ t
      → p % 8 + t ≤ 8
      → c < 2 ^ t
      → x ≡ placed msb (p % 8) t c
      → IsWriter
          (record w {
            out = overwrite (pre ++ r.init ++ (bit_or r.last x ∷ [])) w.out;
            used = (w.used + t) % 8;
          })
          (p + t)
          (joined msb p n c t)
  chunk-IsWriter w p n c t x r pos fits small here =
      let same_len : length (pre ++ r.init ++ (bit_or r.last x ∷ [])) ≡ length (written w.out) =
        omega (
          arith,
          ap (λ (l : List ℕ). length l) r.splits,
          length-append (pre ++ r.init) (bit_or r.last x ∷ []),
          length-append (pre ++ r.init) (r.last ∷ []),
        ) in
      let changed =
        overwrite-written (pre ++ r.init ++ (bit_or r.last x ∷ [])) w.out r.valid same_len in
      record {
        valid = changed.1;
        bytes = r.init ++ (bit_or r.last (placed msb (p % 8) t c) ∷ []);
        splits =
            changed.0
            ∙ append_assoc pre r.init (bit_or r.last x ∷ [])
            ∙ ap (λ (y : ℕ). pre ++ (r.init ++ (bit_or r.last y ∷ []))) here;
        holds = chunk-Holds msb r.init r.last p n c t pos fits small r.opened;
        cursor = omega (arith, r.cursor);
        start = r.start;
      }

  module _ (value bits p n : ℕ) where
    -- The number once `d` bits of the value are in place.
    abbrev pub grown : ℕ → ℕ
    grown d = joined msb p n (done_bits msb value bits d) d

    -- How the loop ends: with all the bits, or with some of them where the buffer was full.
    abbrev pub IsAppend : BitWriter B × Status → Type 0
    IsAppend (w, done) = IsWriter w (p + bits) (grown bits)
    IsAppend (w, overflow) = (d : ℕ) × (d ≤ bits) × ((p + d) % 8 ≡ 0) × IsWriter w (p + d) (grown d)
    IsAppend (w, stuck) = ⊥

    -- The round of the loop that has `left` bits to go, on an open byte, and what follows it.
    abbrev round : ℕ → ℕ → BitWriter B → BitWriter B × Status
    round fuel left opened =
        on_last buffer
          (λ last.
            bit_or last (write_chunk msb value bits left opened.used (min left (8 - opened.used))))
          opened stuck
        >>= λ changed.
            append_loop buffer msb fuel value bits (left - min left (8 - opened.used))
              (record changed { used = (changed.used + min left (8 - opened.used)) % 8 })

    -- The loop from `left` bits before the end.
    abbrev Appends : ℕ → ℕ → Type 0
    Appends fuel left =
        (d : ℕ) (w : BitWriter B)
        → d + left ≡ bits
        → IsWriter w (p + d) (grown d)
        → IsAppend (append_loop buffer msb fuel value bits left w)

    round-IsAppend :
        (fuel left d : ℕ) (o : BitWriter B)
        → 1 ≤ left
        → d + left ≡ bits
        → ((t : ℕ) → 1 ≤ t → Appends fuel (left - t))
        → IsReady o (p + d) (grown d)
        → IsAppend (round fuel left o)
    round-IsAppend fuel left d o pos e more r =
        let t = min left (8 - o.used) in
        let there : bits - d ≡ left = omega arith in
        let x = write_chunk msb value bits left o.used t in
        let c = taken_bits msb value bits left t in
        let cursor = r.cursor in
        let here : x ≡ placed msb ((p + d) % 8) t c =
          write_chunk-placed msb value bits left o.used t (omega arith)
          ∙ ap (λ (u : ℕ). placed msb u t c) cursor in
        let next =
          chunk-IsWriter o (p + d) (grown d) c t x r (omega arith) (omega arith)
            (taken_bits-lt msb value bits left t) here in
        let regroup : p + d + t ≡ p + (d + t) = omega arith in
        let number = rw there at (joined-joined msb p n value bits d t (omega arith)) in
        rw (on_last-snoc (λ last. bit_or last x) o (pre ++ r.init) r.last stuck r.splits)
          (more t (omega arith) (d + t) _ (omega arith) (rw (number, regroup) at next))

    pub append_loop-IsAppend : (fuel left : ℕ) → left ≤ fuel → Appends fuel left
    unfolding append_loop
    append_loop-IsAppend zero zero enough d w e h = let all : d ≡ bits = omega arith in rw all at h
    append_loop-IsAppend (suc fuel) zero enough d w e h =
        let all : d ≡ bits = omega arith in rw all at h
    append_loop-IsAppend zero (suc left) enough d w e h = absurd (omega arith)
    append_loop-IsAppend (suc fuel) (suc left) enough d w e h =
        after (open_byte buffer w) (open_byte-IsOpened w (p + d) (grown d) h) (λ o r.
          round-IsAppend fuel (suc left) d o (omega arith) e
            (λ t pos. append_loop-IsAppend fuel (suc left - t) (omega arith)) r)
      where
        after :
            (out : BitWriter B × Status)
            → IsOpened w (p + d) (grown d) out
            → ((o : BitWriter B) → IsReady o (p + d) (grown d) → IsAppend (round fuel (suc left) o))
            → IsAppend (out >>= round fuel (suc left))
        after (o, done) r more = more o r
        after (o, overflow) (same, full) more = (d, omega arith, full, rw same h)
        after (o, stuck) r more = r
