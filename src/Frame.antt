-- ===== src/Frame.antt =====
-- crates/layline-core/src/frame.rs: how a protocol is framed, and `parse`, which frames one message
-- at the start of a buffer. The decoder that drives it is in Frame/Decoder.
pub mod Scan
pub mod Parse
pub mod Discard
pub mod Decoder
use layline.Prelude.{ℕ, ◌+◌, ◌-◌, ◌≤◌, ◌<◌, max, List, [], ◌∷◌, Bool, true, false, ◌&&◌, ◌||◌}
use layline.Prelude.{Option, none, some, ltb, leb, if◌then◌else◌, length, take, drop}

-- `Measure`: what a spec learned from the bytes so far.
pub data Measure : Type 0 where
  frame : ℕ → Measure
  more : ℕ → Measure
  reject unmeasurable : Measure

-- `CorruptPolicy`.
pub data CorruptPolicy : Type 0 where
  resync consume : CorruptPolicy

-- `Integrity`.
pub data Integrity : Type 0 where
  verified corrupt : Integrity

-- `DesyncCause`.
pub data DesyncCause : Type 0 where
  no_candidate bad_header checksum too_large unmeasurable unbounded : DesyncCause

-- A `Range<usize>`.
pub record Range : Type 0 where
  pub start : ℕ
  pub end : ℕ

-- The trait `FrameSpec`, which each protocol implements: any constants and functions.
pub record FrameSpec : Type 0 where
  pub candidate_len : ℕ
  pub header_len : ℕ
  pub max_frame : ℕ
  pub on_corrupt : CorruptPolicy
  pub scan_past_incomplete : Bool
  pub candidate : List ℕ → Bool
  pub measure : List ℕ → Measure
  pub verify : List ℕ → Bool
  pub body : List ℕ → Range

-- The default `measure` of a spec that gives `frame_len` on a header of fixed size.
pub default_measure : ℕ → (List ℕ → Option ℕ) → List ℕ → Measure
default_measure header_len frame_len bytes =
    if ltb (length bytes) header_len
    then more (header_len - length bytes)
    else elim (frame_len (take header_len bytes)) [ some total ↦ frame total | none ↦ reject ]

-- `Parsed`, the result of one `parse`.
pub data Parsed : Type 0 where
  -- consumed, body, integrity
  frame : ℕ → Range → Integrity → Parsed
  -- need
  incomplete : ℕ → Parsed
  -- discard, cause
  desync : ℕ → DesyncCause → Parsed

-- The outcome of the first loop of `parse`: the position of a candidate, or where the loop stopped.
pub data Found : Type 0 where
  at : ℕ → Found
  missing : ℕ → Found

module _ (s : FrameSpec) where
  -- The loop, at position `i`; the list is `buf[i..]`.
  pub first_candidate : ℕ → List ℕ → Found
  first_candidate i [] =
      if ltb 0 s.candidate_len
      then missing i
      else (if s.candidate [] then at i else missing (i + 1))
  first_candidate i (b ∷ bs) =
      let rest = first_candidate (i + 1) bs in
      if ltb (length (b ∷ bs)) s.candidate_len
      then missing i
      else (if s.candidate (b ∷ bs) then at i else rest)

  -- The tests of `complete_frame_beyond` at one position; the list is `buf[i..]`.
  pub complete_here : List ℕ → Bool
  complete_here rest = s.candidate rest && elim (s.measure rest) [
    | frame total ↦
        (leb s.header_len total && leb total s.max_frame)
        && (leb total (length rest) && s.verify (take total rest))
    | _ ↦ false
  ]

  -- `complete_frame_beyond` from position `i` on.
  pub complete_from : ℕ → List ℕ → Option ℕ
  complete_from i [] =
      if leb s.candidate_len 0 then (if complete_here [] then some i else none) else none
  complete_from i (b ∷ bs) =
      let rest = complete_from (i + 1) bs in
      if leb s.candidate_len (length (b ∷ bs))
      then (if complete_here (b ∷ bs) then some i else rest)
      else none

  pub complete_frame_beyond : List ℕ → Option ℕ
  complete_frame_beyond [] = none
  complete_frame_beyond (b ∷ bs) = complete_from 1 bs

  -- An incomplete frame: `parse` may look further on for a complete one.
  pub wait : List ℕ → ℕ → Parsed
  wait buf need =
      if s.scan_past_incomplete
      then elim (complete_frame_beyond buf) [
        | some i ↦ desync i no_candidate
        | none ↦ incomplete need
      ]
      else incomplete need

  -- A complete frame of `total` bytes: its body range and its checks.
  pub settle : List ℕ → ℕ → Parsed
  settle buf total =
      let body = s.body (take total buf) in
      if ltb body.end body.start || ltb total body.end
      then desync 1 bad_header
      else (if s.verify (take total buf) then frame total body verified else elim s.on_corrupt [
        | resync ↦ desync 1 checksum
        | consume ↦ frame total body corrupt
      ])

  -- A frame of `total` bytes by its header.
  pub sized : List ℕ → ℕ → Parsed
  sized buf total =
      if ltb s.max_frame total
      then desync 1 too_large
      else (if ltb total s.header_len
          then desync 1 bad_header
          else (if ltb (length buf) total then wait buf (total - length buf) else settle buf total))

  -- What `parse` does with the answer of `measure`.
  pub measured : List ℕ → Measure → Parsed
  measured buf (frame total) = sized buf total
  measured buf reject = desync 1 bad_header
  measured buf unmeasurable = desync 1 unmeasurable
  measured buf (more need) =
      if leb s.max_frame (length buf) then desync 1 unbounded else wait buf (max need 1)

  pub located : List ℕ → Found → Parsed
  located buf (at i) = if ltb 0 i then desync i no_candidate else measured buf (s.measure buf)
  located buf (missing i) =
      if ltb 0 i then desync i no_candidate else incomplete (s.candidate_len - length buf)

  -- `parse`.
  pub parse : List ℕ → Parsed
  unfolding located measured sized settle wait complete_frame_beyond complete_from complete_here
      first_candidate
  parse buf = located buf (first_candidate 0 buf)

-- The conditions under which `Decoder::new` compiles, but for the buffer's size.
pub record IsSpec (s : FrameSpec) : Type 0 where
  pub candidate_pos : 1 ≤ s.candidate_len
  pub candidate_header : s.candidate_len ≤ s.header_len
  pub header_max : s.header_len ≤ s.max_frame
