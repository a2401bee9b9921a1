-- ===== src/Frame/Decoder/Pop.antt =====
-- `pop` of crates/layline-core/src/frame.rs against the queue of pending bytes: it returns, and what
-- it drops and hands out stands at the front of the queue.
use layline.Prelude.{ℕ, zero, suc, ◌+◌, ◌-◌, ◌≤◌, ◌<◌, min, max, List, [], ◌∷◌, ◌++◌}
use layline.Prelude.{Option, none, some, length, take, drop, saturating_add}
use native.Mathlib.Decide.{dec_lt}
use layline.Prelude.{arith, ◌≡◌, refl, ap, sym, ◌∙◌, append_assoc}
use mathlib.Core.Path.{subst₂}
use layline.Prelude.{length-append, length-take, take-take, drop-drop}
use layline.Prelude.{take-append-drop}
use layline.Frame.{FrameSpec, IsSpec, Integrity, verified, corrupt, DesyncCause, Range, Parsed}
use layline.Frame.{incomplete, desync, parse}
use layline.Frame.Parse.{IsFrame, parse-IsAnswer}
use layline.Frame.Discard.{parse_discards_safely}
use layline.Frame.Decoder.{Decoder, Stats, Popped, consume, release}
use layline.Frame.Decoder.{count_desync, count_frame, pop_round, pop_loop, pop}
use layline.Frame.Decoder.Stream.{
  contents, contents-consume, consume-shape, consume-IsValid, pending, IsValid, length-contents,
  release-IsReleased,
}

count_desync-discarded :
    (k : ℕ) (c : DesyncCause) (st : Stats)
    → (count_desync k c st).bytes_discarded ≡ saturating_add st.bytes_discarded k
unfolding count_desync
count_desync-discarded k DesyncCause.checksum st = refl
count_desync-discarded k c st = refl

count_frame-discarded :
    (i : Integrity) (st : Stats) → (count_frame i st).bytes_discarded ≡ st.bytes_discarded
unfolding count_frame
count_frame-discarded verified st = refl
count_frame-discarded corrupt st = refl

-- A range of a prefix is the range of the whole.
take-drop-take :
    (k m n : ℕ) (xs : List ℕ) → k + m ≤ n → take m (drop k (take n xs)) ≡ take m (drop k xs)
take-drop-take zero m n xs h = take-take m n xs (omega arith)
take-drop-take (suc k) m zero xs h = absurd (omega arith)
take-drop-take (suc k) m (suc n) [] h = refl
take-drop-take (suc k) m (suc n) (x ∷ xs) h = take-drop-take k m n xs (omega arith)

module _ (s : FrameSpec) where
  -- What `pop` answers, by the bytes `rest` that are left: nothing while they are the start of a
  -- frame, or the frame at their front, which stays until the next call.
  abbrev pub IsReply : List ℕ → ℕ → Option Popped → Type 0
  IsReply rest spent none = (spent ≡ 0) × ((need : ℕ) × (parse s rest ≡ incomplete need))
  IsReply rest spent (some p) =
      (r : Range) × (parse s rest ≡ Parsed.frame spent r p.integrity)
      × (p.frame ≡ take spent rest)
      × (p.body ≡ take (r.end - r.start) (drop r.start p.frame))

  -- No complete verified frame starts at one of the first `k` positions.
  abbrev pub NoFrameBelow : List ℕ → ℕ → Type 0
  NoFrameBelow buf k = (j m : ℕ) (r : Range) → j < k → ¬ IsFrame s (drop j buf) m r

  -- How a decoder stands after `pop`, against the queue `queue` and the counters before.
  pub record IsPopped (n : ℕ) (queue : List ℕ) (stats : Stats) (out : Decoder × Option Popped)
      : Type 0 where
    pub gone : List ℕ
    pub split : queue ≡ gone ++ contents out.0
    pub counted : out.0.stats.bytes_discarded ≡ saturating_add stats.bytes_discarded (length gone)
    pub skipped : NoFrameBelow queue (length gone)
    pub reply : IsReply (contents out.0) out.0.spent out.1
    pub valid : IsValid n out.0

  -- `pop` returns, and does as `IsPopped` says.
  abbrev pub Pops : ℕ → List ℕ → Stats → Option (Decoder × Option Popped) → Type 0
  Pops n queue stats none = ⊥
  Pops n queue stats (some out) = IsPopped n queue stats out

  NoFrameBelow-append :
      (buf : List ℕ) (k l : ℕ)
      → NoFrameBelow buf k
      → NoFrameBelow (drop k buf) l
      → NoFrameBelow buf (k + l)
  NoFrameBelow-append buf k l first then_ j m r lt frame = elim (dec_lt j k) [
    | yes below ↦ first j m r below frame
    | no above ↦
        let e : k + (j - k) ≡ j = omega arith in
        then_ (j - k) m r (omega arith) (rw (drop-drop, e) frame)
  ]

  -- A round that drops `k` bytes, before the rounds that follow.
  Pops-round :
      (n k : ℕ) (queue : List ℕ) (stats next : Stats) (out : Option (Decoder × Option Popped))
      → k ≤ length queue
      → next.bytes_discarded ≡ saturating_add stats.bytes_discarded k
      → NoFrameBelow queue k
      → Pops n (drop k queue) next out
      → Pops n queue stats out
  Pops-round n k queue stats next none le c skip p = p
  Pops-round n k queue stats next (some out) le c skip p =
      let sum : length (take k queue ++ p.gone) ≡ k + length p.gone =
        omega (arith, length-append (take k queue) p.gone, length-take k queue) in
      record {
        gone = take k queue ++ p.gone;
        split =
            sym (take-append-drop k queue)
            ∙ ap (λ l. take k queue ++ l) p.split
            ∙ sym (append_assoc (take k queue) p.gone (contents out.0));
        counted = omega (arith, p.counted, c, sum);
        skipped = rw sum (NoFrameBelow-append queue k (length p.gone) skip p.skipped);
        reply = p.reply;
        valid = p.valid;
      }

  module _ (sound : IsSpec s) where
    frame-range :
        (buf : List ℕ) (k : ℕ) (r : Range) (i : Integrity)
        → parse s buf ≡ Parsed.frame k r i
        → (k ≤ length buf) × (r.start ≤ r.end) × (r.end ≤ k)
    frame-range buf k r verified e =
        let c = rw e at (parse-IsAnswer s sound buf) in (c.0.arrived, c.0.ordered, c.0.inside)
    frame-range buf k r corrupt e =
        let c = rw e at (parse-IsAnswer s sound buf) in (c.0.arrived, c.0.ordered, c.0.inside)

    -- A round keeps what the next rounds promise.
    pop_round-Pops :
        (n fuel : ℕ) (again : Decoder → Option (Decoder × Option Popped)) (d : Decoder) (p : Parsed)
        → parse s (contents d) ≡ p
        → IsValid n d
        → d.spent ≡ 0
        → d.len ≤ fuel
        → ((e : Decoder)
            → IsValid n e
            → e.spent ≡ 0
            → e.len < fuel
            → Pops n (contents e) e.stats (again e))
        → Pops n (contents d) d.stats (pop_round again d p)
    unfolding pop_round
    pop_round-Pops n fuel again d (desync k c) e v unspent le next =
        let (one, fits, skip) = parse_discards_safely s sound (contents d) k c e in
        let whole : min (max k 1) d.len ≡ k = omega (arith, length-contents d v) in
        let counted = count_desync-discarded k c d.stats in
        let d' = record d { stats = count_desync k c d.stats } in
        let v' : IsValid n d' = record {
          array = v.array;
          fits = v.fits;
          within = v.within;
          counter = omega (arith, counted);
        } in
        let short : k ≤ d.len = omega (arith, length-contents d v) in
        let sh = consume-shape k d' v' short in
        rw whole (
          Pops-round n k (contents d) d.stats d'.stats (again (consume k d')) fits counted skip (
            subst₂ (λ q st. Pops n q st (again (consume k d'))) (contents-consume k d' v' short)
              sh.3
              (next (consume k d') (consume-IsValid k d' v' short (omega arith)) (sh.2 ∙ unspent)
                (omega (arith, sh)))))
    pop_round-Pops n fuel again d (incomplete need) e v unspent le next = record {
      gone = [];
      split = refl;
      counted = omega (arith, v.counter);
      skipped = λ j m r lt frame. absurd (omega arith);
      reply = (unspent, (need, e));
      valid = v;
    }
    pop_round-Pops n fuel again d (Parsed.frame k r i) e v unspent le next =
        let (fits, ordered, inside) = frame-range (contents d) k r i e in
        let short : k ≤ d.len = omega (arith, length-contents d v) in
        record {
          gone = [];
          split = refl;
          counted = omega (arith, count_frame-discarded i d.stats, v.counter);
          skipped = λ j m r lt frame. absurd (omega arith);
          reply = (
            r,
            e,
            sym (take-take k d.len d.buf short),
            sym (take-drop-take r.start (r.end - r.start) k d.buf (omega arith)),
          );
          valid = record {
            array = v.array;
            fits = v.fits;
            within = short;
            counter = omega (arith, count_frame-discarded i d.stats, v.counter);
          };
        }

    pop_loop-Pops :
        (fuel n : ℕ) (d : Decoder)
        → IsValid n d
        → d.spent ≡ 0
        → d.len < fuel
        → Pops n (contents d) d.stats (pop_loop s fuel d)
    unfolding pop_loop
    pop_loop-Pops zero n d v unspent lt = absurd (omega arith)
    pop_loop-Pops (suc fuel) n d v unspent lt =
        pop_round-Pops n fuel (pop_loop s fuel) d (parse s (contents d)) refl v unspent
          (omega arith) (pop_loop-Pops fuel n)

    pop-Pops : {n : ℕ} (d : Decoder) → IsValid n d → Pops n (pending d) d.stats (pop s d)
    unfolding pop
    pop-Pops {n} d v =
        let rel = release-IsReleased d v in
        subst₂ (λ q st. Pops n q st (pop s d)) rel.same_bytes rel.same_stats
          (pop_loop-Pops (suc (release d).len) n (release d) rel.valid rel.unspent (omega arith))

    Pops-some :
        (n : ℕ) (q : List ℕ) (st : Stats) (out : Option (Decoder × Option Popped))
        → Pops n q st out
        → (o : Decoder × Option Popped) × (out ≡ some o) × IsPopped n q st o
    Pops-some n q st none p = absurd p
    Pops-some n q st (some o) p = (o, refl, p)

    -- For a sound spec and a valid decoder, `pop` returns. It drops bytes from the front of the
    -- pending ones, none of which starts a complete verified frame, and counts them as discarded.
    -- It answers with the frame that `parse` finds at the front of the rest, its bytes and its body,
    -- or with nothing if `parse` waits for more there, and leaves the decoder valid.
    pub pop_lem :
        {n : ℕ} (d : Decoder)
        → IsValid n d
        → (out : Decoder × Option Popped) × (pop s d ≡ some out)
          × IsPopped n (pending d) d.stats out
    pop_lem {n} d v = Pops-some n (pending d) d.stats (pop s d) (pop-Pops d v)
