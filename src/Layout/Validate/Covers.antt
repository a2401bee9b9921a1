-- ===== src/Layout/Validate/Covers.antt =====
-- What the rules of crates/layline-codegen/src/validate/coverage.rs make sure of: the fields that a
-- checksum covers.
use Prim.Native.String.{String}
use text.Mathlib.TextEquality.{eq_iff}
use layline.Prelude.{
  ℕ, zero, suc, ◌≤◌, ◌<◌, List, [], ◌∷◌, Bool, true, false, ◌==◌, ltb, leb, ◌&&◌, if◌then◌else◌,
  Option, none, some, same, any, index_of, ◌≡◌, ◌≢◌, refl, ap, sym, ◌∙◌, arith, inl, inr, ◌⊎◌,
  Bool-cases, ==_iff, ltb→le, leb→le, leb→lt,
}
use layline.Layout.Fields.{Coverage, CoverFrom, CoverTo, start, from_field, here, before, after}
use layline.Layout.Covered.{Covered, resolve, start_of, stop_of, runs, in_run, in_run_iff}
use layline.Layout.Invalid.{
  pass, refuse, ◌>>=◌, refuse_if, Invalid, field, other, sometimes_present, unknown_reference,
  covers_start_self, covers_through_self, covers_to_self, covers_reversed,
}
use layline.Layout.Validate.Checksums.{
  coverage, cover_start, cover_last, cover_order, end_of, place_of, with_own, with_end, with_start,
  is_before, start_name,
}
use layline.Layout.Validate.Passes.{pass-bind, pass-then, pass-refuse_if}

pass_inj : {A : Type 0} (a b : A) → pass a ≡ pass b → a ≡ b
pass_inj a b e = cc

some_inj : (a b : ℕ) → some a ≡ some b → a ≡ b
some_inj a b e = cc

and_true : (b : Bool) → (b && true) ≡ false → b ≡ false
and_true true e = absurd cc
and_true false e = refl

placed :
    (r : Option ℕ) (b : Bool) (x y : Invalid) (k : ℕ)
    → (elim r [ some j ↦ pass j | none ↦ if b then refuse x else refuse y ]) ≡ pass k
    → r ≡ some k
placed (some j) b x y k e = ap some (pass_inj j k e)
placed none true x y k e = absurd cc
placed none false x y k e = absurd cc

place_of-index_of :
    (places optional : List String) (name : String) (k : ℕ)
    → place_of places optional name ≡ pass k
    → index_of name places ≡ some k
unfolding place_of
place_of-index_of places optional name k e =
    placed (index_of name places) (any (same name) optional) (other (sometimes_present name))
      (unknown_reference name) k e

-- The places of two names in a list, by whether its first name is the one or the other.
same_place :
    (sa sb : Bool) (a b : Option ℕ) (k : ℕ)
    → (if sa then some 0 else (elim a [ none ↦ none | some j ↦ some (suc j) ])) ≡ some k
    → (if sb then some 0 else (elim b [ none ↦ none | some j ↦ some (suc j) ])) ≡ some k
    → ((sa ≡ true) × (sb ≡ true)) ⊎ ((j : ℕ) × (a ≡ some j) × (b ≡ some j))
same_place true true a b k ea eb = inl (refl, refl)
same_place true false a none k ea eb = absurd cc
same_place true false a (some j) k ea eb = absurd cc
same_place false true none b k ea eb = absurd cc
same_place false true (some j) b k ea eb = absurd cc
same_place false false none b k ea eb = absurd cc
same_place false false (some i) none k ea eb = absurd cc
same_place false false (some i) (some j) k ea eb = inr (i, refl, cc)

-- Two names in one place are the same.
index_of_inj :
    (a b : String) (places : List String) (k : ℕ)
    → index_of a places ≡ some k
    → index_of b places ≡ some k
    → a ≡ b
index_of_inj a b [] k ea eb = absurd cc
index_of_inj a b (n ∷ places) k ea eb =
    elim (same_place (same n a) (same n b) (index_of a places) (index_of b places) k ea eb) [
      | inl (sa, sb) ↦ sym ((eq_iff n a).0 sa) ∙ (eq_iff n b).0 sb
      | inr (j, ja, jb) ↦ index_of_inj a b places j ja jb
    ]

-- The place of a field in the list of names, as a range of one.
abbrev pub at_place : List String → String → Option (ℕ × ℕ)
at_place places name = elim (index_of name places) [ none ↦ none | some k ↦ some (k, suc k) ]

-- The fields that a checksum covers: there is one, unless the checksum is the first field and the
-- range is from the start to before the second.
abbrev pub IsCovering : List String → String → Coverage → Type 0
IsCovering places own over =
    (ck : ℕ) × (index_of own places ≡ some ck)
    × ((c : Covered) × (resolve over (ck, suc ck) (at_place places) ≡ some c)
        × (c.from < c.to)
        × (((x : ℕ) × (any (in_run x) (runs c) ≡ true)) ⊎ ((c.from ≡ 0) × (ck ≡ 0) × (c.to ≡ 1))))

apart : (a b : ℕ) → (a ≤ b) ⊎ (suc b ≤ a)
apart a b = elim (Bool-cases (leb a b)) [
  | inl le ↦ inl (leb→le a b le)
  | inr gt ↦ inr (leb→lt a b gt)
]

-- A field of the range that is not the checksum is covered.
other_field :
    (from to ck x : ℕ)
    → from ≤ x
    → x < to
    → x ≢ ck
    → any (in_run x) (runs (record { from = from; to = to; own_start = ck; own_end = suc ck }))
      ≡ true
other_field from to ck x lo hi ne =
    let c : Covered = record { from = from; to = to; own_start = ck; own_end = suc ck } in
    (in_run_iff c x (omega arith) (apart from ck) (apart to ck)).1 ((lo, hi), side (apart x ck))
  where
    side : (x ≤ ck) ⊎ (suc ck ≤ x) → (x < ck) ⊎ (suc ck ≤ x)
    side (inr gt) = inr gt
    side (inl le) = elim (Bool-cases (x == ck)) [
      | inl same_place ↦ absurd (ne ((==_iff x ck).0 same_place))
      | inr differs ↦ inl (ground (arith, le, differs))
    ]

module _ (places optional : List String) (own : String) where
  abbrev end : CoverTo → String
  end to = (end_of to own).0

  abbrev through : CoverTo → Bool
  through to = (end_of to own).1

  -- What an accepted coverage passes.
  record Passes (from : CoverFrom) (to : CoverTo) : Type 0 where
    first : Option ℕ
    at_end : ℕ
    ck : ℕ
    last : ℕ
    starts : cover_start places optional own from ≡ pass first
    not_through : (same (end to) own && through to) ≡ false
    ends : index_of (end to) places ≡ some at_end
    stands : index_of own places ≡ some ck
    not_before : (is_before to && (at_end == ck)) ≡ false
    lasts : cover_last own (end to) (through to) at_end ≡ pass last
    ordered : cover_order own (end to) from (through to) first last ≡ pass tt

  passes :
      (from : CoverFrom) (to : CoverTo)
      → coverage places optional own (record { from = from; to = to }) ≡ pass tt
      → Passes from to
  unfolding coverage with_start with_end with_own
  passes from to ok =
      let over : Coverage = record { from = from; to = to } in
      let (first, starts, ok1) =
        pass-bind (cover_start places optional own from) (with_start places optional own over) tt
          ok in
      let (not_through, ok2) =
        pass-then (refuse_if (same (end to) own && through to) (field own covers_through_self))
          (place_of places optional (end to) >>= with_end places optional own over first) tt ok1 in
      let (at_end, ends, ok3) =
        pass-bind (place_of places optional (end to)) (with_end places optional own over first) tt
          ok2 in
      let (ck, stands, ok4) =
        pass-bind (place_of places optional own) (with_own own over first at_end) tt ok3 in
      let (not_before, ok5) =
        pass-then (refuse_if (is_before to && (at_end == ck)) (field own covers_to_self))
          (cover_last own (end to) (through to) at_end
            >>= cover_order own (end to) from (through to) first)
          tt ok4 in
      let (last, lasts, ordered) =
        pass-bind (cover_last own (end to) (through to) at_end)
          (cover_order own (end to) from (through to) first) tt ok5 in
      record {
        first = first;
        at_end = at_end;
        ck = ck;
        last = last;
        starts = starts;
        not_through = pass-refuse_if _ _ not_through;
        ends = place_of-index_of places optional (end to) at_end ends;
        stands = place_of-index_of places optional own ck stands;
        not_before = pass-refuse_if _ _ not_before;
        lasts = lasts;
        ordered = ordered;
      }

  -- The end of the range in fields.
  abbrev stop : CoverTo → ℕ → ℕ
  stop (after f) k = suc k
  stop _ k = k

  last-stop :
      (to : CoverTo) (k last : ℕ)
      → cover_last own (end to) (through to) k ≡ pass last
      → suc last ≡ stop to k
  unfolding cover_last end_of
  last-stop here zero last e = absurd cc
  last-stop here (suc k) last e = ap suc (sym (pass_inj k last e))
  last-stop (before f) zero last e = absurd cc
  last-stop (before f) (suc k) last e = ap suc (sym (pass_inj k last e))
  last-stop (after f) k last e = ap suc (sym (pass_inj k last e))

  -- The first field of a range that starts at a field.
  started :
      (g : String) (first : Option ℕ)
      → cover_start places optional own (from_field g) ≡ pass first
      → (k : ℕ) × (first ≡ some k) × (index_of g places ≡ some k) × (same g own ≡ false)
  unfolding cover_start
  started g first e =
      let (apart_from, e1) =
        pass-then (refuse_if (same g own) (field own covers_start_self))
          (place_of places optional g >>= λ k. pass (some k)) first e in
      let (k, placed_at, e2) =
        pass-bind (place_of places optional g) (λ k. pass (some k)) first e1 in
      (
        k,
        sym (pass_inj (some k) first e2),
        place_of-index_of places optional g k placed_at,
        pass-refuse_if _ _ apart_from,
      )

  -- Names that differ are in different places.
  differ :
      (g : String) (k ck : ℕ)
      → index_of g places ≡ some k
      → index_of own places ≡ some ck
      → same g own ≡ false
      → k ≢ ck
  differ g k ck eg eo other_name e =
      let one = index_of_inj g own places ck (eg ∙ ap some e) eo in
      let eq = (eq_iff g own).1 one in cc

  stop_of-stop :
      (to : CoverTo) (k ck : ℕ)
      → index_of (end to) places ≡ some k
      → index_of own places ≡ some ck
      → stop_of to ck (at_place places) ≡ some (stop to k)
  unfolding stop_of end_of
  stop_of-stop here k ck ek eo = sym eo ∙ ek
  stop_of-stop (before f) k ck ek eo = rw (ek, stop_of) refl
  stop_of-stop (after f) k ck ek eo = rw (ek, stop_of) refl

  -- Where the range is from the start, a field of it that is not the checksum.
  from_start :
      (to : CoverTo) (k ck : ℕ)
      → index_of (end to) places ≡ some k
      → index_of own places ≡ some ck
      → (same (end to) own && through to) ≡ false
      → (is_before to && (k == ck)) ≡ false
      → 0 < stop to k
      → ((x : ℕ) × (x < stop to k) × (x ≢ ck)) ⊎ ((ck ≡ 0) × (stop to k ≡ 1))
  unfolding end_of is_before
  from_start here k zero ek eo nt nb pos =
      let zero_end : 0 ≡ k = some_inj 0 k (sym eo ∙ ek) in absurd (omega arith)
  from_start to k (suc ck) ek eo nt nb pos = inl (0, pos, λ e. ground (arith, e))
  from_start (before f) k zero ek eo nt nb pos = elim (Bool-cases (k == 1)) [
    | inl one ↦ inr (refl, (==_iff k 1).0 one)
    | inr more ↦ inl (1, ground (arith, pos, more), λ e. omega arith)
  ]
  from_start (after f) k zero ek eo nt nb pos =
      inl (k, omega arith, differ f k zero ek eo (and_true (same f own) nt))

  order-le :
      (name : String) (from : CoverFrom) (through_end : Bool) (k last : ℕ)
      → cover_order own name from through_end (some k) last ≡ pass tt
      → k ≤ last
  unfolding cover_order
  order-le name from through_end k last e = ltb→le last k (
      pass-refuse_if (ltb last k) (field own (covers_reversed (start_name from) name through_end))
        e)

  covers_from :
      (from : CoverFrom) (to : CoverTo)
      → Passes from to
      → IsCovering places own (record { from = from; to = to })
  unfolding resolve start_of
  covers_from start to p =
      let stops = stop_of-stop to p.at_end p.ck p.ends p.stands in
      let last = last-stop to p.at_end p.last p.lasts in
      let c : Covered = record {
        from = 0;
        to = stop to p.at_end;
        own_start = p.ck;
        own_end = suc p.ck;
      } in
      (
        p.ck,
        p.stands,
        (
          c,
          rw (resolve, start_of, stops) refl,
          omega (arith, last),
          elim (from_start to p.at_end p.ck p.ends p.stands p.not_through p.not_before
              (omega (arith, last))) [
                | inl (x, lt, ne) ↦
                    inl (x, other_field 0 (stop to p.at_end) p.ck x (omega arith) lt ne)
                | inr (first, one) ↦ inr (refl, first, one)
              ],
        ),
      )
  covers_from (from_field g) to p =
      let stops = stop_of-stop to p.at_end p.ck p.ends p.stands in
      let last = last-stop to p.at_end p.last p.lasts in
      let (k, first, stands_at, other_name) = started g p.first p.starts in
      let ne = differ g k p.ck stands_at p.stands other_name in
      let le = order-le (end to) (from_field g) (through to) k p.last (rw first at p.ordered) in
      let lt : k < stop to p.at_end = omega (arith, last, le) in
      let c : Covered = record {
        from = k;
        to = stop to p.at_end;
        own_start = p.ck;
        own_end = suc p.ck;
      } in
      (
        p.ck,
        p.stands,
        (
          c,
          rw (resolve, start_of, stands_at, stops) refl,
          lt,
          inl (k, other_field k (stop to p.at_end) p.ck k (omega arith) lt ne),
        ),
      )

  -- A coverage that passes resolves, by the places of the fields, to a range that is not empty; it
  -- covers a field that is not the checksum, unless the checksum is the first field and the range is
  -- from the start to before the second.
  pub coverage-IsCovering :
      (over : Coverage) → coverage places optional own over ≡ pass tt → IsCovering places own over
  coverage-IsCovering over ok = covers_from over.from over.to (passes over.from over.to ok)
