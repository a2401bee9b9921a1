-- ===== src/Frame/Discard.antt =====
-- What `parse` of crates/layline-core/src/frame.rs discards.
use layline.Prelude.{ℕ, zero, suc, ◌-◌, ◌≤◌, ◌<◌, max, List, true}
use layline.Prelude.{some, length, drop, ◌≡◌}
use layline.Prelude.{le→leb, arith, ◌⊎◌, inl, inr}
use layline.Frame.{FrameSpec, IsSpec, Measure, more}
use layline.Frame.{DesyncCause, Range, desync, Found}
use layline.Frame.{at, missing, first_candidate, complete_here, complete_frame_beyond}
use layline.Frame.{wait, settle, sized, measured, located, parse}
use layline.Frame.Scan.{IsFound, first_candidate-IsFound, beyond-cases}
use layline.Frame.Parse.{IsFrame, parse-verified_iff, parse-IsAnswer}

module _ (s : FrameSpec) where
  wait-discard :
      (buf : List ℕ) (need d : ℕ) (c : DesyncCause)
      → wait s buf need ≡ desync d c
      → complete_frame_beyond s buf ≡ some d
  unfolding wait
  wait-discard buf need d c h = ground arith

  settle-discard : (buf : List ℕ) (n d : ℕ) (c : DesyncCause) → settle s buf n ≡ desync d c → d ≡ 1
  unfolding settle
  settle-discard buf n d c h = ground arith

  measured-discard :
      (buf : List ℕ) (m : Measure) (d : ℕ) (c : DesyncCause)
      → measured s buf m ≡ desync d c
      → (d ≡ 1) ⊎ (complete_frame_beyond s buf ≡ some d)
  unfolding measured sized
  measured-discard buf (Measure.frame n) d c h =
      ground (arith, settle-discard buf n d c, wait-discard buf (n - length buf) d c)
  measured-discard buf (more need) d c h = ground (arith, wait-discard buf (max need 1) d c)
  measured-discard buf m d c h = ground arith

  -- A frame passes the tests of `complete_frame_beyond`.
  complete_here_of_frame :
      (buf : List ℕ) (n : ℕ) (r : Range) → IsFrame s buf n r → complete_here s buf ≡ true
  unfolding complete_here
  complete_here_of_frame buf n r (f, v) =
      rw (f.starts, f.sized, le→leb _ _ f.header, le→leb _ _ f.limit, le→leb _ _ f.arrived, v)

  module _ (sound : IsSpec s) where
    located-skips :
        (buf : List ℕ) (f : Found) (d : ℕ) (c : DesyncCause)
        → IsFound s 0 buf f
        → located s buf f ≡ desync d c
        → (j n : ℕ) (r : Range) → 1 ≤ j
        → j < d
        → ¬ IsFrame s (drop j buf) n r
    unfolding located
    located-skips buf (at zero) d c found e j n r one lt frame =
        elim (measured-discard buf (s.measure buf) d c e) [
          | inl single ↦ absurd (omega arith)
          | inr beyond ↦ cc (
            complete_here_of_frame (drop j buf) n r frame,
            (beyond-cases s buf d sound.candidate_pos beyond).2 j one lt,
          )
        ]
    located-skips buf (at (suc i)) d c (k, e', fits, yes_at, below) e j n r one lt frame =
        let same : d ≡ k = ground arith in cc (frame.0.starts, below j (omega arith))
    located-skips buf (missing zero) d c found e j n r one lt frame = cc
    located-skips buf (missing (suc i)) d c (k, e', le, short, below) e j n r one lt frame =
        let same : d ≡ k = ground arith in cc (frame.0.starts, below j (omega arith))

    desync-range :
        (buf : List ℕ) (d : ℕ) (c : DesyncCause)
        → parse s buf ≡ desync d c
        → (1 ≤ d) × (d ≤ length buf)
    desync-range buf d c e = rw e at (parse-IsAnswer s sound buf)

    -- `parse` discards at least one byte and no more than it holds, and no position that it
    -- discards is the start of a complete verified frame.
    pub parse_discards_safely :
        (buf : List ℕ) (d : ℕ) (c : DesyncCause)
        → parse s buf ≡ desync d c
        → (1 ≤ d)
          × (d ≤ length buf)
          × ((j n : ℕ) (r : Range) → j < d → ¬ IsFrame s (drop j buf) n r)
    unfolding parse
    parse_discards_safely buf d c e =
        let range = desync-range buf d c e in (range.0, range.1, skips)
      where
        skips : (j n : ℕ) (r : Range) → j < d → ¬ IsFrame s (drop j buf) n r
        skips zero n r lt frame = cc (e, (parse-verified_iff s sound buf n r).1 frame)
        skips (suc j) n r lt frame =
            located-skips buf (first_candidate s 0 buf) d c (first_candidate-IsFound s sound 0 buf)
              e (suc j) n r (omega arith) lt frame
