-- ===== src/Bits/Writer.antt =====
-- `BitWriter` of crates/layline-core/src/bits.rs, over any buffer.
pub mod Holds
pub mod Chunk
pub mod Append
pub mod Undo
pub mod Rounds
pub mod Write
pub mod Position
pub mod PatchBytes
pub mod Patch
use layline.Prelude.{
  ℕ, zero, suc, ◌+◌, ◌*◌, ◌-◌, ◌/◌, ◌%◌, ◌^◌, min, List, [], ◌∷◌, Bool, true, false,
}
use layline.Prelude.{
  ltb, ◌==◌, if◌then◌else◌, length, get_elem?, set, bit_and, bit_or, Option, none, some,
}
use layline.Buffer.{Buffer, Status, done, overflow, stuck, ◌>>=◌}
use layline.Bits.{as_u8, shl_u8, shr, chunk_mask}

-- `BitWriter { out, base, used }`.
pub record BitWriter (B : Type 0) : Type 0 where
  pub out : B
  pub base : ℕ
  pub used : ℕ

-- The chunk that a round puts into the last byte: `taken` of the `left` bits to go.
pub write_chunk : Bool → ℕ → ℕ → ℕ → ℕ → ℕ → ℕ
write_chunk true value bits left used taken =
    shl_u8 (as_u8 (bit_and (shr value (left - taken)) (chunk_mask taken))) (8 - used - taken)
write_chunk false value bits left used taken =
    shl_u8 (as_u8 (bit_and (shr value (bits - left)) (chunk_mask taken))) used

-- The bits of the last byte that were in use before a failed `append`.
pub keep_mask : Bool → ℕ → ℕ
keep_mask true used = shl_u8 0xFF (8 - used)
keep_mask false used = 2 ^ used - 1

-- The bits of a byte that a round of `patch` replaces, and the byte after it.
pub hole_mask : Bool → ℕ → ℕ → ℕ
hole_mask true used taken = shl_u8 (as_u8 (chunk_mask taken)) (8 - used - taken)
hole_mask false used taken = shl_u8 (as_u8 (chunk_mask taken)) used

pub patched_byte : ℕ → ℕ → ℕ → ℕ
patched_byte byte hole chunk = bit_or (bit_and byte (0xFF - hole)) chunk

-- The loop of `patch` on the bytes written, with `left` of the `bits` bits to go, from bit `at` on,
-- and fuel for its rounds. There is no result where an index is out of range.
pub patch_loop : Bool → ℕ → ℕ → ℕ → ℕ → ℕ → ℕ → List ℕ → Option (List ℕ)
unfolding write_chunk hole_mask patched_byte
patch_loop msb fuel base value bits zero at bytes = some bytes
patch_loop msb zero base value bits (suc left) at bytes = none
patch_loop msb (suc fuel) base value bits (suc left) at bytes =
    let used = at % 8 in
    let taken = min (suc left) (8 - used) in
    elim (get_elem? bytes (base + at / 8)) [
      | none ↦ none
      | some byte ↦ patch_loop msb fuel base value bits (suc left - taken) (at + taken) (
          set bytes (base + at / 8) (
            patched_byte byte (hole_mask msb used taken)
              (write_chunk msb value bits (suc left) used taken)))
    ]

-- A change of the last byte, if there is one.
pub change_last : (ℕ → ℕ) → List ℕ → Option (List ℕ)
change_last f [] = none
change_last f (b ∷ []) = some (f b ∷ [])
change_last f (b ∷ (c ∷ bs)) = elim (change_last f (c ∷ bs)) [
  | none ↦ none
  | some rest ↦ some (b ∷ rest)
]

module _ {B : Type 0} (buffer : Buffer B) where
  open buffer use {push, written, overwrite, rewind}

  -- `BitWriter::new`.
  pub new : B → BitWriter B
  new out = record { out = out; base = length (written out); used = 0 }

  -- `written_mut().last_mut()` changed by `f`, with what stands in its place if there is none.
  pub on_last : (ℕ → ℕ) → BitWriter B → Status → BitWriter B × Status
  on_last f w otherwise = elim (change_last f (written w.out)) [
    | some bytes ↦ (record w { out = overwrite bytes w.out }, done)
    | none ↦ (w, otherwise)
  ]

  -- A zero byte is pushed where the last byte is full.
  pub open_byte : BitWriter B → BitWriter B × Status
  open_byte w =
      if w.used == 0
      then (let (out, status) = push (0 ∷ []) w.out in (record w { out = out }, status))
      else (w, done)

  module _ (msb : Bool) where
    -- The loop of `append`, with `left` of the `bits` bits to go and fuel for its rounds.
    pub append_loop : ℕ → ℕ → ℕ → ℕ → BitWriter B → BitWriter B × Status
    append_loop fuel value bits zero w = (w, done)
    append_loop zero value bits (suc left) w = (w, stuck)
    append_loop (suc fuel) value bits (suc left) w = do
      opened ← open_byte w
      let taken = min (suc left) (8 - opened.used)
      changed ←
          on_last (λ last. bit_or last (write_chunk msb value bits (suc left) opened.used taken))
            opened stuck
      append_loop fuel value bits (suc left - taken)
          (record changed { used = (changed.used + taken) % 8 })

    -- What `write` does after a failed `append`: the length and the last byte as they were.
    pub roll_back : ℕ → ℕ → BitWriter B → BitWriter B
    roll_back len used w =
        let cut = record w { out = rewind len w.out; used = used } in
        if ltb 0 used then (on_last (λ last. bit_and last (keep_mask msb used)) cut done).0 else cut

    -- The end of `write`, by how `append` ended.
    pub settle : ℕ → ℕ → BitWriter B × Status → BitWriter B × Status
    settle len used (w, done) = (w, done)
    settle len used (w, overflow) = (roll_back len used w, overflow)
    settle len used (w, stuck) = (w, stuck)

    -- `write`.
    pub write : ℕ → ℕ → BitWriter B → BitWriter B × Status
    unfolding append_loop roll_back settle
    write value bits w = settle (length (written w.out)) w.used (append_loop bits value bits bits w)

    -- `bit`.
    pub bit : Bool → BitWriter B → BitWriter B × Status
    unfolding write
    bit set w = write (if set then 1 else 0) 1 w

  -- `patch`.
  pub patch : Bool → ℕ → ℕ → ℕ → BitWriter B → Option (BitWriter B)
  unfolding patch_loop
  patch msb at_bit bits value w =
      elim (patch_loop msb bits w.base value bits bits at_bit (written w.out)) [
        | none ↦ none
        | some bytes ↦ some (record w { out = overwrite bytes w.out })
      ]

  -- `position`.
  pub position : BitWriter B → ℕ
  position w = (length (written w.out) - w.base) * 8 - (if w.used == 0 then 0 else 8 - w.used)
