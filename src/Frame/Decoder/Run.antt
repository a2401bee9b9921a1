-- ===== src/Frame/Decoder/Run.antt =====
-- Sequences of `push` and `pop` on one decoder of crates/layline-core/src/frame.rs.
use layline.Prelude.{ℕ, ◌+◌, ◌≤◌, ◌<◌, List, [], ◌∷◌, ◌++◌}
use layline.Prelude.{Option, none, some, length, take, u64_max}
use layline.Prelude.{arith, ◌≡◌, refl, ap}
use mathlib.Core.Path.{subst}
use layline.Prelude.{length-append, length-take, length-drop}
use layline.Frame.{FrameSpec, IsSpec}
use layline.Frame.Parse.{parse-IsAnswer}
use layline.Frame.Decoder.{Decoder, Popped, new, push}
use layline.Frame.Decoder.{pop}
use layline.Frame.Decoder.Stream.{contents, pending, IsValid, length-contents}
use layline.Frame.Decoder.Stream.{new-IsValid}
use layline.Frame.Decoder.Push.{push_lem}
use layline.Frame.Decoder.Pop.{IsPopped, pop_lem}

-- The calls on a decoder made by `new`: `fed` is what the pushes took, `out` the frames returned,
-- one after the other.
pub data Run (s : FrameSpec) (n : ℕ) : List ℕ → List ℕ → Decoder → Type 0 where
  start : {d : Decoder} → d ≡ new n → Run s n [] [] d
  pushed :
      {fed fed' out : List ℕ} {d d' : Decoder}
      → Run s n fed out d
      → (bytes : List ℕ) (taken : ℕ) → push n bytes d ≡ (d', taken)
      → fed' ≡ fed ++ take taken bytes
      → Run s n fed' out d'
  waited :
      {fed out : List ℕ} {d d' : Decoder}
      → Run s n fed out d
      → pop s d ≡ some (d', none)
      → Run s n fed out d'
  framed :
      {fed out out' : List ℕ} {d d' : Decoder}
      → Run s n fed out d
      → (p : Popped) → pop s d ≡ some (d', some p)
      → out' ≡ out ++ p.frame
      → Run s n fed out' d'

module _ (s : FrameSpec) (n : ℕ) (sound : IsSpec s) where
  -- Every byte taken is returned in a frame, counted as discarded, or still pending.
  pub record Balanced (fed out : List ℕ) (d : Decoder) : Type 0 where
    pub valid : IsValid n d
    pub balance : length fed ≡ length out + d.stats.bytes_discarded + length (pending d)

  pop-IsPopped :
      (d d' : Decoder) (p : Option Popped)
      → IsValid n d
      → pop s d ≡ some (d', p)
      → IsPopped s n (pending d) d.stats (d', p)
  pop-IsPopped d d' p v e =
      let (out, returns, popped) = pop_lem s sound d v in
      let same : out ≡ (d', p) = cc (returns, e) in
      subst (λ o. IsPopped s n (pending d) d.stats o) same popped

  Balanced-waited :
      (fed out : List ℕ) (d d' : Decoder)
      → length fed ≤ u64_max
      → Balanced fed out d
      → pop s d ≡ some (d', none)
      → Balanced fed out d'
  Balanced-waited fed out d d' small b e =
      let p = pop-IsPopped d d' none b.valid e in
      record {
        valid = p.valid;
        balance = omega (
          arith,
          b.balance,
          ap length p.split,
          length-append p.gone (contents d'),
          length-drop d'.spent (contents d'),
          p.reply.0,
          p.counted,
        );
      }

  Balanced-framed :
      (fed out : List ℕ) (d d' : Decoder) (f : Popped)
      → length fed ≤ u64_max
      → Balanced fed out d
      → pop s d ≡ some (d', some f)
      → Balanced fed (out ++ f.frame) d'
  Balanced-framed fed out d d' f small b e =
      let p = pop-IsPopped d d' (some f) b.valid e in
      record {
        valid = p.valid;
        balance = omega (
          arith,
          b.balance,
          ap length p.split,
          length-append p.gone (contents d'),
          length-append out f.frame,
          length-drop d'.spent (contents d'),
          ap length p.reply.2,
          length-take d'.spent (contents d'),
          length-contents d' p.valid,
          p.valid,
          p.counted,
        );
      }

  Balanced-pushed :
      (fed out bytes : List ℕ) (d d' : Decoder) (taken : ℕ)
      → Balanced fed out d
      → push n bytes d ≡ (d', taken)
      → Balanced (fed ++ take taken bytes) out d'
  Balanced-pushed fed out bytes d d' taken b e =
      let (t, queue, refused, discarded, valid) = push_lem bytes d b.valid in
      subst (λ (x : Decoder × ℕ). Balanced (fed ++ take x.1 bytes) out x.0) e
        (record {
          valid = valid;
          balance = omega (
            arith,
            b.balance,
            length-append fed (take (push n bytes d).1 bytes),
            ap length queue,
            length-append (pending d) (take (push n bytes d).1 bytes),
            discarded,
          );
        })

  Balanced-new : Balanced [] [] (new n)
  unfolding new
  Balanced-new = record { valid = new-IsValid n; balance = refl }

  -- From a new decoder on, the bytes that the pushes took are, in number, those in the frames
  -- returned, those counted as discarded and those still pending, as long as they are no more than
  -- the 64-bit counter holds; and the decoder stays valid.
  pub Run-Balanced :
      {fed out : List ℕ} {d : Decoder}
      → Run s n fed out d
      → length fed ≤ u64_max
      → Balanced fed out d
  Run-Balanced (start e) small = rw e Balanced-new
  Run-Balanced (pushed {fed = fed} {out = out} {d = d} {d' = d'} r bytes taken e e') small = rw e' (
      Balanced-pushed fed out bytes d d' taken
        (Run-Balanced r (omega (arith, ap length e', length-append fed (take taken bytes)))) e)
  Run-Balanced (waited {fed = fed} {out = out} {d = d} {d' = d'} r e) small =
      Balanced-waited fed out d d' small (Run-Balanced r small) e
  Run-Balanced (framed {fed = fed} {out = out} {d = d} {d' = d'} r p e e') small =
      rw e' (Balanced-framed fed out d d' p small (Run-Balanced r small) e)

  -- When `pop` has nothing to return, the buffer has room: a `push` of some bytes takes some.
  pub pop-push_progress :
      (d d' : Decoder) (b : ℕ) (bytes : List ℕ)
      → IsValid n d
      → s.max_frame ≤ n
      → pop s d ≡ some (d', none)
      → 0 < (push n (b ∷ bytes) d').1
  pop-push_progress d d' b bytes v room e =
      let p = pop-IsPopped d d' none v e in
      let (unspent, waits) = p.reply in
      let answer = rw waits.1 at (parse-IsAnswer s sound (contents d')) in
      omega (arith, push_lem (b ∷ bytes) d' p.valid, answer, length-drop d'.spent (contents d'))
