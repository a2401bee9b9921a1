-- ===== src/Frame/Decoder.antt =====
-- `Decoder` of crates/layline-core/src/frame.rs: a buffer of fixed size that bytes are pushed to and
-- frames are popped from. `Decoder/Stream` has the abstract view, a queue of bytes.
pub mod Stream
pub mod Push
pub mod Pop
pub mod Run
mod Runs
use layline.Prelude.{ℕ, zero, suc, ◌+◌, ◌-◌, ◌≤◌, ◌<◌, min, max, List, [], ◌++◌, Bool, true, false}
use layline.Prelude.{
  Option, none, some, ltb, if◌then◌else◌, length, take, drop, replicate, saturating_add,
}
use layline.Frame.{
  FrameSpec, Integrity, verified, corrupt, DesyncCause, Range, Parsed, incomplete, desync,
}
use layline.Frame.{no_candidate, bad_header, too_large, unbounded, parse}

-- `Stats`, of `u64` counters that saturate.
pub record Stats : Type 0 where
  pub frames : ℕ
  pub bytes_discarded : ℕ
  pub checksum_errors : ℕ
  pub bytes_refused : ℕ
  pub unmeasurable : ℕ

-- `Decoder<S, N>`: `buf` is the whole array, of which the first `len` bytes are in use.
pub record Decoder : Type 0 where
  pub buf : List ℕ
  pub len : ℕ
  pub spent : ℕ
  pub stats : Stats

-- `Popped`: the frame, its body and whether it passed verification.
pub record Popped : Type 0 where
  pub frame : List ℕ
  pub body : List ℕ
  pub integrity : Integrity

abbrev pub no_stats : Stats
no_stats = record {
  frames = 0;
  bytes_discarded = 0;
  checksum_errors = 0;
  bytes_refused = 0;
  unmeasurable = 0;
}

-- `Decoder::new` at `N = n`.
pub new : ℕ → Decoder
new n = record { buf = replicate n 0; len = 0; spent = 0; stats = no_stats }

-- `buffered`.
pub buffered : Decoder → ℕ
buffered d = d.len - d.spent

-- `consume`: `copy_within(n..len, 0)`, then `len -= n`.
pub consume : ℕ → Decoder → Decoder
consume n d = record d {
  buf = drop n (take d.len d.buf) ++ drop (d.len - n) d.buf;
  len = d.len - n;
}

-- `release`: drop the frame that the last `pop` returned.
pub release : Decoder → Decoder
unfolding consume
release d = if ltb 0 d.spent then record (consume d.spent d) { spent = 0 } else d

-- `push`: append as many bytes as fit, and return how many were taken.
pub push : ℕ → List ℕ → Decoder → Decoder × ℕ
unfolding release
push n bytes d =
    let r = release d in
    let taken = min (n - r.len) (length bytes) in
    (
      record r {
        buf = take r.len r.buf ++ (take taken bytes ++ drop (r.len + taken) r.buf);
        len = r.len + taken;
        stats = record (r.stats) {
          bytes_refused = saturating_add r.stats.bytes_refused (length bytes - taken);
        };
      },
      taken,
    )

-- The counter that a cause has to itself. `unbounded` is a fault of the spec, not a link error.
pub count_cause : DesyncCause → Stats → Stats
count_cause DesyncCause.checksum stats = record stats {
  checksum_errors = saturating_add stats.checksum_errors 1;
}
count_cause DesyncCause.unmeasurable stats = record stats {
  unmeasurable = saturating_add stats.unmeasurable 1;
}
count_cause cause stats = stats

-- The counters after `discard` bytes were dropped for `cause`.
pub count_desync : ℕ → DesyncCause → Stats → Stats
unfolding count_cause
count_desync discard cause stats =
    count_cause cause
      (record stats { bytes_discarded = saturating_add stats.bytes_discarded discard })

-- The counters after a frame was returned.
pub count_frame : Integrity → Stats → Stats
count_frame verified stats = record stats { frames = saturating_add stats.frames 1 }
count_frame corrupt stats = record stats {
  frames = saturating_add stats.frames 1;
  checksum_errors = saturating_add stats.checksum_errors 1;
}

-- A round of the loop of `pop` on the answer of `parse`; `again` is the next round.
pub pop_round :
    (Decoder → Option (Decoder × Option Popped))
    → Decoder
    → Parsed
    → Option (Decoder × Option Popped)
pop_round again d (desync discard cause) =
    let n = min (max discard 1) d.len in
    again (consume n (record d { stats = count_desync n cause d.stats }))
pop_round again d (incomplete need) = some (d, none)
pop_round again d (Parsed.frame consumed body integrity) = some (
  record d { spent = consumed; stats = count_frame integrity d.stats },
  some (record {
    frame = take consumed d.buf;
    body = take (body.end - body.start) (drop body.start d.buf);
    integrity = integrity;
  }),
)

module _ (s : FrameSpec) where
  -- The loop of `pop`, with fuel for its rounds. `none` means that the fuel ran out.
  pub pop_loop : ℕ → Decoder → Option (Decoder × Option Popped)
  unfolding pop_round
  pop_loop zero d = none
  pop_loop (suc fuel) d = pop_round (pop_loop fuel) d (parse s (take d.len d.buf))

  -- `pop`. Each round of its loop drops a byte or returns.
  pub pop : Decoder → Option (Decoder × Option Popped)
  unfolding pop_loop release
  pop d = let r = release d in pop_loop (suc r.len) r
