-- ===== src/Buffer/Runs.antt =====
-- The buffers of crates/layline-core/src/buffer.rs at concrete inputs.
use layline.Prelude.{[], ◌∷◌, arith}
use layline.Buffer.{pad}
use layline.Buffer.Fixed.{Fixed, fixed}
use layline.Buffer.Pad.{IsPad, pad_lem}

-- A slice of three bytes, one of them in use.
abbrev two_free : Fixed
two_free = record { room = 7 ∷ 8 ∷ 9 ∷ []; at = 1 }

pad_lem_example : IsPad fixed 2 two_free (pad fixed 2 two_free)
pad_lem_example = pad_lem fixed 2 two_free (omega arith)
