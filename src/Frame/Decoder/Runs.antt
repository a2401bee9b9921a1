-- ===== src/Frame/Decoder/Runs.antt =====
-- Concrete frames of crates/layline-core/src/frame.rs, and the theorems at concrete inputs: a sync
-- byte, a length of the body and the body, whose last byte is not 0xFF.
use layline.Prelude.{ℕ, ◌+◌, ◌-◌, ◌≤◌, ◌<◌, List, [], ◌∷◌, true, not}
use layline.Prelude.{Option, none, some, ltb, ◌==◌, if◌then◌else◌, length, drop, get_or}
use mathlib.Core.Option
use layline.Prelude.{arith, ◌≡◌, refl, ◌↔◌}
use layline.Frame.{FrameSpec, IsSpec, resync, verified, default_measure, Range, Parsed}
use layline.Frame.{desync, no_candidate}
use layline.Frame.{parse}
use layline.Frame.Parse.{IsFrame, parse-IsAnswer, parse-verified_iff}
use layline.Frame.Discard.{parse_discards_safely}
use layline.Frame.Decoder.{Decoder, Popped, new, push, pop}
use layline.Frame.Decoder.{count_desync, count_frame}
use layline.Frame.Decoder.Stream.{IsValid, pending, new-IsValid}
use layline.Frame.Decoder.Push.{push_lem}
use layline.Frame.Decoder.Pop.{IsPopped, pop_lem}
use layline.Frame.Decoder.Run.{Run, start, pushed, Balanced, Run-Balanced, pop-push_progress}

abbrev body_len : List ℕ → Option ℕ
body_len header = if ltb 8 (get_or header 1 0) then none else some (get_or header 1 0 + 2)

abbrev demo : FrameSpec
demo = record {
  candidate_len = 1;
  header_len = 2;
  max_frame = 10;
  on_corrupt = resync;
  scan_past_incomplete = true;
  candidate = λ bytes. get_or bytes 0 0 == 0x7E;
  measure = default_measure 2 body_len;
  verify = λ frame. not (get_or frame (length frame - 1) 0 == 0xFF);
  body = λ frame. record { start = 2; end = length frame };
}

abbrev noise : List ℕ
noise = 1 ∷ 2 ∷ 0x7E ∷ 2 ∷ 5 ∷ 6 ∷ 0x7E ∷ []

demo-IsSpec : IsSpec demo
demo-IsSpec = omega arith

parse-noise : parse demo noise ≡ desync 2 no_candidate
unfolding parse
parse-noise = refl

parse_frame : parse demo (drop 2 noise) ≡ Parsed.frame 4 (record { start = 2; end = 4 }) verified
unfolding parse default_measure
parse_frame = refl

parse-IsAnswer_example : (1 ≤ 2) × (2 ≤ 7)
unfolding parse
parse-IsAnswer_example = parse-IsAnswer demo demo-IsSpec noise

parse-verified_iff_example :
    (parse demo (drop 2 noise) ≡ Parsed.frame 4 (record { start = 2; end = 4 }) verified)
    ↔ IsFrame demo (drop 2 noise) 4 (record { start = 2; end = 4 })
parse-verified_iff_example =
    parse-verified_iff demo demo-IsSpec (drop 2 noise) 4 (record { start = 2; end = 4 })

parse_discards_safely_example :
    (1 ≤ 2) × (2 ≤ 7) × ((j n : ℕ) (r : Range) → j < 2 → ¬ IsFrame demo (drop j noise) n r)
parse_discards_safely_example =
    parse_discards_safely demo demo-IsSpec noise 2 no_candidate parse-noise

push_lem_example :
    let (d', taken) = push 10 noise (new 10) in
    (taken ≡ 7)
    × (pending d' ≡ noise)
    × (d'.stats.bytes_refused ≡ 0)
    × (d'.stats.bytes_discarded ≡ 0)
    × IsValid 10 d'
unfolding new push
push_lem_example = push_lem noise (new 10) (new-IsValid 10)

-- The decoder after that push.
abbrev fed : Decoder
fed = (push 10 noise (new 10)).0

fed-IsValid : IsValid 10 fed
fed-IsValid = (push_lem noise (new 10) (new-IsValid 10)).4

pop_lem_example :
    (out : Decoder × Option Popped) × (pop demo fed ≡ some out)
    × IsPopped demo 10 (pending fed) fed.stats out
pop_lem_example = pop_lem demo demo-IsSpec fed fed-IsValid

abbrev reply : Option Popped
reply = some (record { frame = 0x7E ∷ 2 ∷ 5 ∷ 6 ∷ []; body = 5 ∷ 6 ∷ []; integrity = verified })

pop-fed : Option.map (λ (o : Decoder × Option Popped). o.1) (pop demo fed) ≡ some reply
unfolding pop parse push new default_measure count_desync count_frame
pop-fed = refl

Run-fed : Run demo 10 noise [] fed
unfolding push new
Run-fed = pushed (start refl) noise 7 refl refl

Run-Balanced_example : Balanced demo 10 demo-IsSpec noise [] fed
Run-Balanced_example = Run-Balanced demo 10 demo-IsSpec Run-fed (omega arith)

pop_empty : pop demo (new 10) ≡ some (new 10, none)
unfolding pop parse new
pop_empty = refl

pop-push_progress_example : 0 < (push 10 (5 ∷ 6 ∷ []) (new 10)).1
pop-push_progress_example =
    pop-push_progress demo 10 demo-IsSpec (new 10) (new 10) 5 (6 ∷ []) (new-IsValid 10)
      (omega arith) pop_empty
