-- ===== src/Frame/Parse.antt =====
-- What `parse` of crates/layline-core/src/frame.rs answers on any buffer.
use layline.Prelude.{ℕ, zero, suc, ◌-◌, ◌≤◌, ◌<◌, max, List, true, false}
use layline.Prelude.{ltb, leb, length, take, ◌≡◌, refl, ◌↔◌}
use layline.Prelude.{
  le→ltb, ◌||◌, leb→lt, ltb→lt, ltb→le, arith, inl, inr, Option-cases, Bool-cases, ◌∙◌,
}
use layline.Frame.{
  FrameSpec, IsSpec, Measure, more, reject, unmeasurable, CorruptPolicy, resync, consume,
}
use layline.Frame.{verified, corrupt, DesyncCause, Range, Parsed, incomplete, desync, Found}
use layline.Frame.{at, missing, first_candidate, complete_frame_beyond}
use layline.Frame.{wait, settle, sized, measured, located, parse}
use layline.Frame.Scan.{IsFound, first_candidate-IsFound, beyond-cases}

module _ (s : FrameSpec) where
  -- A complete frame of `n` bytes with its body range stands at the front of the buffer, and passes
  -- every check of the spec but `verify`.
  pub record IsComplete (buf : List ℕ) (n : ℕ) (r : Range) : Type 0 where
    pub starts : s.candidate buf ≡ true
    pub long_enough : s.candidate_len ≤ length buf
    pub sized : s.measure buf ≡ Measure.frame n
    pub header : s.header_len ≤ n
    pub limit : n ≤ s.max_frame
    pub arrived : n ≤ length buf
    pub body_is : r ≡ s.body (take n buf)
    pub ordered : r.start ≤ r.end
    pub inside : r.end ≤ n

  abbrev body_of : List ℕ → ℕ → Range
  body_of buf n = s.body (take n buf)

  -- What `parse` promises of its answer.
  abbrev pub IsAnswer : List ℕ → Parsed → Type 0
  IsAnswer buf (Parsed.frame n r verified) = IsComplete buf n r × (s.verify (take n buf) ≡ true)
  IsAnswer buf (Parsed.frame n r corrupt) =
      IsComplete buf n r × (s.verify (take n buf) ≡ false) × (s.on_corrupt ≡ consume)
  IsAnswer buf (incomplete need) = (1 ≤ need) × (length buf < s.max_frame)
  IsAnswer buf (desync d c) = (1 ≤ d) × (d ≤ length buf)

  module _ (sound : IsSpec s) where
    wait-IsAnswer :
        (buf : List ℕ) (need : ℕ)
        → 1 ≤ need
        → length buf < s.max_frame
        → IsAnswer buf (wait s buf need)
    unfolding wait
    wait-IsAnswer buf need pos lt = elim (Bool-cases s.scan_past_incomplete) [
      | inl on ↦ simp on (elim (Option-cases (complete_frame_beyond s buf)) [
        | inl stop ↦ rw stop (pos, lt)
        | inr (j, e) ↦ let b = beyond-cases s buf j sound.candidate_pos e in rw e (omega (arith, b))
      ])
      | inr off ↦ simp off (pos, lt)
    ]

    damaged-IsAnswer :
        (buf : List ℕ) (n : ℕ)
        → IsComplete buf n (body_of buf n)
        → s.verify (take n buf) ≡ false
        → 1 ≤ length buf
        → (p : CorruptPolicy) → s.on_corrupt ≡ p
        → IsAnswer buf (elim p [
          | resync ↦ desync 1 DesyncCause.checksum
          | consume ↦ Parsed.frame n (body_of buf n) corrupt
        ])
    damaged-IsAnswer buf n c f some_byte resync e = omega arith
    damaged-IsAnswer buf n c f some_byte consume e = (c, f, e)

    settle-IsAnswer :
        (buf : List ℕ) (n : ℕ)
        → ((body_of buf n).start ≤ (body_of buf n).end
            → (body_of buf n).end ≤ n
            → IsComplete buf n (body_of buf n))
        → 1 ≤ length buf
        → IsAnswer buf (settle s buf n)
    unfolding settle
    settle-IsAnswer buf n complete some_byte =
        elim (Bool-cases
          (ltb (body_of buf n).end (body_of buf n).start || ltb n (body_of buf n).end)) [
            | inl bad ↦ rw bad (omega arith)
            | inr good ↦
                let c : IsComplete buf n (body_of buf n) = complete (ground arith) (ground arith) in
                rw good (elim (Bool-cases (s.verify (take n buf))) [
                  | inl v ↦ rw v (c, v)
                  | inr f ↦ rw f (damaged-IsAnswer buf n c f some_byte s.on_corrupt refl)
                ])
          ]

    sized-IsAnswer :
        (buf : List ℕ) (n : ℕ)
        → s.candidate buf ≡ true
        → s.candidate_len ≤ length buf
        → s.measure buf ≡ Measure.frame n
        → IsAnswer buf (sized s buf n)
    unfolding sized
    sized-IsAnswer buf n starts long m =
        let some_byte : 1 ≤ length buf = omega (arith, sound.candidate_pos) in
        elim (Bool-cases (ltb s.max_frame n)) [
          | inl big ↦ rw big (omega arith)
          | inr fits ↦ rw fits (elim (Bool-cases (ltb n s.header_len)) [
            | inl small ↦ rw small (omega arith)
            | inr enough ↦ rw enough (elim (Bool-cases (ltb (length buf) n)) [
              | inl partial ↦
                  let lt = ltb→lt _ _ partial in
                  rw partial (
                    wait-IsAnswer buf (n - length buf) (omega arith)
                      (omega (arith, ltb→le _ _ fits)))
              | inr whole ↦ rw whole (
                  settle-IsAnswer buf n
                    (λ o i. record {
                      starts = starts;
                      long_enough = long;
                      sized = m;
                      header = ltb→le _ _ enough;
                      limit = ltb→le _ _ fits;
                      arrived = ltb→le _ _ whole;
                      body_is = refl;
                      ordered = o;
                      inside = i;
                    })
                    some_byte)
            ])
          ])
        ]

    measured-IsAnswer :
        (buf : List ℕ) (m : Measure)
        → s.candidate buf ≡ true
        → s.candidate_len ≤ length buf
        → s.measure buf ≡ m
        → IsAnswer buf (measured s buf m)
    unfolding measured
    measured-IsAnswer buf (Measure.frame n) starts long e = sized-IsAnswer buf n starts long e
    measured-IsAnswer buf reject starts long e = omega (arith, sound.candidate_pos)
    measured-IsAnswer buf unmeasurable starts long e = omega (arith, sound.candidate_pos)
    measured-IsAnswer buf (more need) starts long e =
        elim (Bool-cases (leb s.max_frame (length buf))) [
          | inl full ↦ rw full (omega (arith, sound.candidate_pos))
          | inr room ↦ rw room (wait-IsAnswer buf (max need 1) (omega arith) (leb→lt _ _ room))
        ]

    located-IsAnswer :
        (buf : List ℕ) (f : Found) → IsFound s 0 buf f → IsAnswer buf (located s buf f)
    unfolding located
    located-IsAnswer buf (at zero) (k, e, fits, yes_at, below) =
        let k0 : k ≡ 0 = omega arith in
        measured-IsAnswer buf (s.measure buf) (rw k0 at yes_at) (omega arith) refl
    located-IsAnswer buf (at (suc i)) (k, e, fits, yes_at, below) =
        ground (arith, sound.candidate_pos)
    located-IsAnswer buf (missing zero) (k, e, le, short, below) = omega (arith, sound)
    located-IsAnswer buf (missing (suc i)) (k, e, le, short, below) = ground arith

    -- Every answer of `parse` is in range.
    pub parse-IsAnswer : (buf : List ℕ) → IsAnswer buf (parse s buf)
    unfolding parse
    parse-IsAnswer buf =
        located-IsAnswer buf (first_candidate s 0 buf) (first_candidate-IsFound s sound 0 buf)

  -- The body that the spec gives lies in the frame.
  abbrev pub IsFrame : List ℕ → ℕ → Range → Type 0
  IsFrame buf n r = IsComplete buf n r × (s.verify (take n buf) ≡ true)

  module _ (sound : IsSpec s) where
    first_at_zero :
        (buf : List ℕ) (f : Found)
        → IsFound s 0 buf f
        → s.candidate buf ≡ true
        → s.candidate_len ≤ length buf
        → f ≡ at 0
    first_at_zero buf (at zero) found c le = refl
    first_at_zero buf (at (suc j)) (k, e, fits, yes_at, below) c le = cc (below 0 (omega arith))
    first_at_zero buf (missing zero) (k, e, fits, short, below) c le = absurd (omega arith)
    first_at_zero buf (missing (suc j)) (k, e, fits, short, below) c le = cc (below 0 (omega arith))

    parse-measured :
        (buf : List ℕ)
        → s.candidate buf ≡ true
        → s.candidate_len ≤ length buf
        → parse s buf ≡ measured s buf (s.measure buf)
    unfolding parse located
    parse-measured buf c le =
        rw
          (first_at_zero buf (first_candidate s 0 buf) (first_candidate-IsFound s sound 0 buf) c le)

    sized-settle :
        (buf : List ℕ) (n : ℕ) (r : Range) → IsComplete buf n r → sized s buf n ≡ settle s buf n
    unfolding sized
    sized-settle buf n r c = rw (
      le→ltb s.max_frame n c.limit,
      le→ltb n s.header_len c.header,
      le→ltb (length buf) n c.arrived,
    )

    -- The answer on a complete frame, by the outcome of `verify`.
    parse-settle :
        (buf : List ℕ) (n : ℕ) (r : Range) → IsComplete buf n r → parse s buf ≡ settle s buf n
    parse-settle buf n r c =
        parse-measured buf c.starts c.long_enough
        ∙ rw c.sized (unfold measured in sized-settle buf n r c)

    settle-verified :
        (buf : List ℕ) (n : ℕ) (r : Range)
        → IsFrame buf n r
        → settle s buf n ≡ Parsed.frame n r verified
    unfolding settle
    settle-verified buf n r (c, v) =
        rw (← c.body_is, le→ltb r.end r.start c.ordered, le→ltb n r.end c.inside, v)

    parse_of_frame :
        (buf : List ℕ) (n : ℕ) (r : Range)
        → IsFrame buf n r
        → parse s buf ≡ Parsed.frame n r verified
    parse_of_frame buf n r f = parse-settle buf n r f.0 ∙ settle-verified buf n r f

    -- For a sound spec, `parse` answers with a verified frame exactly when a complete frame stands
    -- at the front of the buffer and passes every check of the spec.
    pub parse-verified_iff :
        (buf : List ℕ) (n : ℕ) (r : Range)
        → (parse s buf ≡ Parsed.frame n r verified) ↔ IsFrame buf n r
    parse-verified_iff buf n r = (λ e. rw e at (parse-IsAnswer sound buf), parse_of_frame buf n r)
