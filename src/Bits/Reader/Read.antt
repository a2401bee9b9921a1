-- ===== src/Bits/Reader/Read.antt =====
-- `BitReader::read` of crates/layline-core/src/bits.rs gives the field at the cursor, in both orders.
use layline.Prelude.{
  ℕ, zero, suc, ◌+◌, ◌*◌, ◌-◌, ◌/◌, ◌%◌, ◌^◌, ◌≤◌, ◌<◌, min, List, Bool, true, false,
}
use layline.Prelude.{
  if◌then◌else◌, length, get_or, get_elem?, All, bit_and, u64_max, saturating_add,
}
use layline.Prelude.{ok, err, short, arith, ◌≡◌, refl, ap, sym, ◌∙◌, some}
use layline.Prelude.{
  get_elem?-eq-get_or, mod_pow_split, div_div_pow, sub_field, two-pow-le, two-pow-add, pow_pos,
  div-mod,
}
use layline.Prelude.{not, ◌==◌, Bool-cases, inl, inr, leb, leb→le, leb→lt, lt→ltb, le→ltb}
use layline.Prelude.BitOps.{bit_and_mask, bit_or_fields, bit_or_fields_low}
use layline.Bits.{shl_u64, shr, chunk_mask, bytes_for}
use layline.Bits.Number.{
  IsByte, big_endian, little_endian, field, big_endian-get, little_endian-get,
}
use layline.Bits.Reader.{BitReader, read_chunk, read_loop, read, bit}

field-lt : (msb : Bool) (bytes : List ℕ) (at bits : ℕ) → field msb bytes at bits < 2 ^ bits
unfolding field
field-lt true bytes at bits = (div-mod _ (2 ^ bits) (pow_pos bits)).1
field-lt false bytes at bits = (div-mod _ (2 ^ bits) (pow_pos bits)).1

-- A number of `k` bits moved up by `t` stays in a `u64` if `k + t` is at most 64.
shl_u64_of_lt : (v k t : ℕ) → v < 2 ^ k → k + t ≤ 64 → shl_u64 v t ≡ v * 2 ^ t
shl_u64_of_lt v k t h le =
    let fits : v * 2 ^ t < 2 ^ 64 = grind (arith, two-pow-le (k + t) 64 le, two-pow-add k t) in
    omega arith

-- The bits of a chunk, taken from the byte.
chunk-field :
    (byte free taken : ℕ)
    → bit_and (shr byte (free - taken)) (chunk_mask taken) ≡ byte / 2 ^ (free - taken) % 2 ^ taken
chunk-field byte free taken = bit_and_mask taken (byte / 2 ^ (free - taken))

-- One round: the value of `done` bits becomes that of `done + taken` bits.
module _ (bytes : List ℕ) (p done taken : ℕ) (are_bytes : All IsByte bytes)
    (in_bounds : p + done + taken ≤ 8 * length bytes) (pos : 1 ≤ taken)
    (one_byte : (p + done) % 8 + taken ≤ 8) (narrow : done + taken ≤ 64) where
  abbrev cursor : ℕ
  cursor = p + done

  abbrev byte : ℕ
  byte = get_or bytes (cursor / 8) 0

  -- The number that the bytes stand for in each order.
  abbrev be : ℕ
  be = big_endian bytes

  abbrev le : ℕ
  le = little_endian bytes

  -- Where the chunk's last bit stands, counted from the end.
  abbrev low : ℕ
  low = 8 * length bytes - (p + (done + taken))

  chunk-msb :
      bit_and (shr byte (8 - cursor % 8 - taken)) (chunk_mask taken) ≡ be / 2 ^ low % 2 ^ taken
  chunk-msb =
      let spare = 8 - cursor % 8 - taken in
      let from_end = 8 * (length bytes - 1 - cursor / 8) in
      let here : from_end + spare ≡ low = omega arith in
      chunk-field byte (8 - cursor % 8) taken
      ∙ ap (λ (b : ℕ). b / 2 ^ spare % 2 ^ taken)
          (big_endian-get bytes (cursor / 8) are_bytes (omega arith))
      ∙ sub_field be from_end 8 spare taken (omega arith)
      ∙ ap (λ (e : ℕ). be / 2 ^ e % 2 ^ taken) here

  value-msb :
      be / 2 ^ (8 * length bytes - (p + done)) % 2 ^ done ≡ be / 2 ^ low / 2 ^ taken % 2 ^ done
  value-msb =
      let above : 8 * length bytes - (p + done) ≡ low + taken = omega arith in
      ap (λ (e : ℕ). be / 2 ^ e % 2 ^ done) above
      ∙ ap (λ (y : ℕ). y % 2 ^ done) (sym (div_div_pow be low taken))

  read_chunk-msb :
      read_chunk true byte (8 - cursor % 8) taken done (field true bytes p done)
      ≡ field true bytes p (done + taken)
  unfolding read_chunk field
  read_chunk-msb =
      let v = field true bytes p done in
      let swap : taken + done ≡ done + taken = omega arith in
      rw (
        chunk-msb,
        value-msb,
        shl_u64_of_lt (be / 2 ^ low / 2 ^ taken % 2 ^ done) done taken
            (div-mod _ (2 ^ done) (pow_pos done)).1 narrow,
        bit_or_fields taken (be / 2 ^ low / 2 ^ taken % 2 ^ done) (be / 2 ^ low % 2 ^ taken)
            (div-mod _ (2 ^ taken) (pow_pos taken)).1,
        ← mod_pow_split (be / 2 ^ low) taken done,
        swap,
      )

  chunk-lsb :
      bit_and (shr byte (8 - (8 - cursor % 8))) (chunk_mask taken)
      ≡ le / 2 ^ p / 2 ^ done % 2 ^ taken
  chunk-lsb =
      let used = 8 - (8 - cursor % 8) in
      let here : 8 * (cursor / 8) + used ≡ p + done = omega arith in
      bit_and_mask taken (byte / 2 ^ used)
      ∙ ap (λ (b : ℕ). b / 2 ^ used % 2 ^ taken)
          (little_endian-get bytes (cursor / 8) are_bytes (omega arith))
      ∙ sub_field le (8 * (cursor / 8)) 8 used taken (omega arith)
      ∙ ap (λ (e : ℕ). le / 2 ^ e % 2 ^ taken) here
      ∙ ap (λ (y : ℕ). y % 2 ^ taken) (sym (div_div_pow le p done))

  read_chunk-lsb :
      read_chunk false byte (8 - cursor % 8) taken done (field false bytes p done)
      ≡ field false bytes p (done + taken)
  unfolding read_chunk field
  read_chunk-lsb =
      rw
        (
          chunk-lsb,
          shl_u64_of_lt (le / 2 ^ p / 2 ^ done % 2 ^ taken) taken done
              (div-mod _ (2 ^ taken) (pow_pos taken)).1 (omega arith),
          bit_or_fields_low done (le / 2 ^ p / 2 ^ done % 2 ^ taken) (le / 2 ^ p % 2 ^ done)
              (div-mod _ (2 ^ done) (pow_pos done)).1,
          mod_pow_split (le / 2 ^ p) done taken,
        )
        (omega arith)

  read_chunk-field :
      (msb : Bool)
      → read_chunk msb byte (8 - cursor % 8) taken done (field msb bytes p done)
        ≡ field msb bytes p (done + taken)
  read_chunk-field true = read_chunk-msb
  read_chunk-field false = read_chunk-lsb

module _ (msb : Bool) (bytes : List ℕ) (p bits : ℕ) (are_bytes : All IsByte bytes)
    (in_bounds : p + bits ≤ 8 * length bytes) (narrow : bits ≤ 64) where
  abbrev stand : ℕ → BitReader
  stand done = record { bytes = bytes; at = p + done }

  abbrev chunk_len : ℕ → ℕ → ℕ
  chunk_len left done = min left (8 - (p + done) % 8)

  -- One round, on a byte that is there.
  read_loop-suc :
      (fuel left done byte : ℕ)
      → done + suc left ≡ bits
      → get_elem? bytes ((p + done) / 8) ≡ some byte
      → read_loop msb (suc fuel) bits (suc left) (field msb bytes p done) (stand done)
        ≡ read_loop msb fuel bits
            (suc left - chunk_len (suc left) done)
            (read_chunk msb byte
              (8 - (p + done) % 8)
              (chunk_len (suc left) done)
              done
              (field msb bytes p done))
            (record { bytes = bytes; at = p + done + chunk_len (suc left) done })
  unfolding read_loop
  read_loop-suc fuel left done byte e there =
      let before : bits - suc left ≡ done = omega arith in rw (there, before)

  -- The loop, with `left` bits to go.
  read_loop-field :
      (fuel left done : ℕ)
      → left ≤ fuel
      → done + left ≡ bits
      → read_loop msb fuel bits left (field msb bytes p done) (stand done)
        ≡ ok (field msb bytes p bits, record { bytes = bytes; at = p + bits })
  read_loop-field fuel zero done enough e =
      let all_done : done ≡ bits = omega arith in rw all_done (ended fuel)
    where
      ended :
          (fuel : ℕ)
          → read_loop msb fuel bits zero (field msb bytes p bits) (stand bits)
            ≡ ok (field msb bytes p bits, stand bits)
      ended zero = unfold read_loop in refl
      ended (suc fuel) = unfold read_loop in refl
  read_loop-field zero (suc left) done enough e = absurd (omega arith)
  read_loop-field (suc fuel) (suc left) done enough e =
      let taken = chunk_len (suc left) done in
      let there = get_elem?-eq-get_or bytes ((p + done) / 8) 0 (omega arith) in
      let chunk =
        read_chunk-field bytes p done taken are_bytes (omega arith) (omega arith) (omega arith)
          (omega arith) msb in
      let regroup : p + done + taken ≡ p + (done + taken) = omega arith in
      read_loop-suc fuel left done (get_or bytes ((p + done) / 8) 0) e there
      ∙ (λ i.
          read_loop msb fuel bits (suc left - taken) (chunk i)
            (record { bytes = bytes; at = regroup i }))
      ∙ read_loop-field fuel (suc left - taken) (done + taken) (omega arith) (omega arith)

pub read_of_le :
    (msb : Bool) (bits : ℕ) (r : BitReader)
    → All IsByte r.bytes
    → bits ≤ 64
    → r.at + bits ≤ u64_max
    → r.at + bits ≤ 8 * length r.bytes
    → read msb bits r ≡ ok (field msb r.bytes r.at bits, record r { at = r.at + bits })
unfolding read
read_of_le msb bits r are_bytes narrow small fits =
    let exact : saturating_add r.at bits ≡ r.at + bits = omega arith in
    let at_start : r.at + 0 ≡ r.at = omega arith in
    let start : read_loop msb bits bits bits 0 r
        ≡ read_loop msb bits bits bits (field msb r.bytes r.at 0)
            (record { bytes = r.bytes; at = r.at + 0 }) =
      rw (at_start, field-none msb r.bytes r.at) in
    rw (exact, le→ltb (length r.bytes) (bytes_for (r.at + bits)) (omega arith))
      (start
        ∙ read_loop-field msb r.bytes r.at bits are_bytes fits narrow bits bits 0 (omega arith)
            (omega arith))
  where
    field-none : (msb : Bool) (bytes : List ℕ) (at : ℕ) → field msb bytes at 0 ≡ 0
    field-none msb bytes at = let lt = field-lt msb bytes at 0 in omega arith

-- `read` of up to 64 bits, from a position that with them fits a `u64`: where the bytes hold the
-- bits it gives the field there and moves on by its width, and where they do not it fails with
-- `Short`, at the field's first byte. It never panics.
pub read_lem :
    (msb : Bool) (bits : ℕ) (r : BitReader)
    → All IsByte r.bytes
    → bits ≤ 64
    → r.at + bits ≤ u64_max
    → read msb bits r ≡ (
        if leb (r.at + bits) (8 * length r.bytes)
        then ok (field msb r.bytes r.at bits, record r { at = r.at + bits })
        else err (short (bytes_for (r.at + bits)) (length r.bytes) (r.at / 8)))
unfolding read
read_lem msb bits r are_bytes narrow small =
    elim (Bool-cases (leb (r.at + bits) (8 * length r.bytes))) [
      | inl fits ↦ rw fits (read_of_le msb bits r are_bytes narrow small (leb→le _ _ fits))
      | inr over ↦
          let exact : saturating_add r.at bits ≡ r.at + bits = omega arith in
          let short_by : length r.bytes < bytes_for (r.at + bits) =
            omega (arith, leb→lt _ _ over) in
          rw (over, exact, lt→ltb (length r.bytes) (bytes_for (r.at + bits)) short_by)
    ]

-- `bit`: whether the field of one bit at the cursor is set.
pub bit_lem :
    (r : BitReader)
    → All IsByte r.bytes
    → r.at + 1 ≤ u64_max
    → bit true r ≡ (
        if leb (r.at + 1) (8 * length r.bytes)
        then ok (not (field true r.bytes r.at 1 == 0), record r { at = r.at + 1 })
        else err (short (bytes_for (r.at + 1)) (length r.bytes) (r.at / 8)))
unfolding bit
bit_lem r are_bytes small = elim (Bool-cases (leb (r.at + 1) (8 * length r.bytes))) [
  | inl fits ↦ rw (read_lem true 1 r are_bytes (omega arith) small, fits) refl
  | inr over ↦ rw (read_lem true 1 r are_bytes (omega arith) small, over) refl
]
