-- ===== src/Stamping/Orders.antt =====
-- When `stampable` of crates/layline-codegen/src/validate/coverage.rs accepts the checksums of a
-- message.
use Prim.Native.String.{String}
use layline.Prelude.{
  ℕ, zero, suc, ◌+◌, ◌<◌, List, [], ◌∷◌, Bool, true, false, Option, none, some, length, get_or, set,
  replicate, ◌≡◌, refl, ap, ◌∙◌, ◌↔◌, arith, ◌⊎◌, inl, inr, length-set, length-replicate,
}
use layline.Layout.Invalid.{pass}
use layline.Message.{Segment}
use layline.Stamping.{row_names, checks_of, Check, count_up, find, is_next, stamp_loop, stampable}
use layline.Stamping.Waits.{
  InOrder, IsStampOrder, waiting, is_next-waits, is_next-stamped, some-get_elem?,
}
use layline.Stamping.Rounds.{
  Among, count_up-Among, Among-count_up, find-some, find-none, stamps, stamps-set, stamps-full,
  stamps-all, stamps-none, get_or-set, none_stamped,
}

Option-cases : (o : Option ℕ) → (o ≡ none) ⊎ ((i : ℕ) × (o ≡ some i))
Option-cases none = inl refl
Option-cases (some i) = inr (i, refl)

module _ (names : List String) (checks : List Check) where
  -- What an accepting loop stamps from some checksums on, in the order of its rounds.
  stamp_loop-InOrder :
      (rounds : ℕ) (stamped : List Bool) (before : List ℕ)
      → length stamped ≡ length checks
      → stamps stamped + rounds ≡ length checks
      → ((j : ℕ) → get_or stamped j false ≡ true → Among j before)
      → stamp_loop checks (waiting names checks) rounds stamped ≡ pass tt
      → (rest : List ℕ) × InOrder names checks before rest
        × ((i : ℕ) → i < length checks → Among i before ⊎ Among i rest)
  unfolding stamp_loop
  stamp_loop-InOrder zero stamped before size count known e =
      let full = stamps-full stamped (omega (arith, size, count)) in
      ([], tt, λ i lt. inl (known i (full i (omega (arith, size)))))
  stamp_loop-InOrder (suc rounds) stamped before size count known e =
      elim (Option-cases
        (find (is_next (waiting names checks) stamped) (count_up 0 (length checks)))) [
          | inl stuck ↦ absurd (let e' = rw (stamp_loop, stuck) at e in cc)
          | inr (i, found) ↦
              let (there, next) =
                find-some (is_next (waiting names checks) stamped) (count_up 0 (length checks)) i
                  found in
              let (new, met) = is_next-waits names checks stamped i next in
              let inside : i < length stamped =
                omega (arith, size, Among-count_up 0 (length checks) i there) in
              let known' : (j : ℕ)
                  → get_or (set stamped i true) j false ≡ true
                  → Among j (i ∷ before) =
                λ j h. elim (get_or-set stamped i j h) [
                  | inl here ↦ inl here
                  | inr old ↦ inr (known j old)
                ] in
              let (rest, ordered, all_there) =
                stamp_loop-InOrder rounds (set stamped i true) (i ∷ before)
                  (length-set stamped i true ∙ size)
                  (omega (arith, count, stamps-set stamped i inside new)) known'
                  (rw (stamp_loop, found) at e) in
              (
                i ∷ rest,
                (λ c d j ei ej w. known j (met c d j ei ej w), ordered),
                λ k lt. regroup k i before rest (all_there k lt),
              )
        ]
    where
      regroup :
          (k i : ℕ) (before rest : List ℕ)
          → Among k (i ∷ before) ⊎ Among k rest
          → Among k before ⊎ Among k (i ∷ rest)
      regroup k i before rest (inl (inl here)) = inr (inl here)
      regroup k i before rest (inl (inr old)) = inl old
      regroup k i before rest (inr later) = inr (inr later)

  -- Where no checksum is next, all that stand in an order are stamped.
  stuck-stamped :
      (stamped : List Bool) (before rest : List ℕ)
      → find (is_next (waiting names checks) stamped) (count_up 0 (length checks)) ≡ none
      → InOrder names checks before rest
      → ((j : ℕ) → j < length checks → Among j before → get_or stamped j false ≡ true)
      → (i : ℕ) → i < length checks
      → Among i rest
      → get_or stamped i false ≡ true
  stuck-stamped stamped before [] stuck ordered known i lt m = elim m [ ]
  stuck-stamped stamped before (k ∷ rest) stuck (after, ordered) known i lt m =
      let first : k < length checks → get_or stamped k false ≡ true = λ inside.
        is_next-stamped names checks stamped k inside
          (find-none (is_next (waiting names checks) stamped) (count_up 0 (length checks)) stuck k
            (count_up-Among 0 (length checks) k (omega arith) (omega (arith, inside))))
          (λ c d j ei ej w. known j (some-get_elem? checks j d ej) (after c d j ei ej w)) in
      elim m [
        | inl here ↦ ap (λ (j : ℕ). get_or stamped j false) here ∙ first (omega (arith, lt, here))
        | inr later ↦
            stuck-stamped stamped (k ∷ before) rest stuck ordered
              (λ j inside n. elim n [
                | inl same ↦
                    ap (λ (l : ℕ). get_or stamped l false) same
                    ∙ first (omega (arith, inside, same))
                | inr old ↦ known j inside old
              ])
              i lt later
      ]

  stamp_loop-pass :
      (order : List ℕ) (rounds : ℕ) (stamped : List Bool)
      → IsStampOrder names checks order
      → length stamped ≡ length checks
      → stamps stamped + rounds ≡ length checks
      → stamp_loop checks (waiting names checks) rounds stamped ≡ pass tt
  unfolding stamp_loop
  stamp_loop-pass order zero stamped h size count = refl
  stamp_loop-pass order (suc rounds) stamped h size count =
      elim (Option-cases
        (find (is_next (waiting names checks) stamped) (count_up 0 (length checks)))) [
          | inl stuck ↦
              let all_stamped = stamps-all stamped (λ i lt.
                let inside : i < length checks = omega (arith, lt, size) in
                stuck-stamped stamped [] order stuck h.0 (λ j l m. elim m [ ]) i inside
                  (h.1 i inside)) in
              absurd (omega (arith, all_stamped, size, count))
          | inr (i, found) ↦
              let (there, next) =
                find-some (is_next (waiting names checks) stamped) (count_up 0 (length checks)) i
                  found in
              let (new, met) = is_next-waits names checks stamped i next in
              let inside : i < length stamped =
                omega (arith, size, Among-count_up 0 (length checks) i there) in
              rw (stamp_loop, found)
                (stamp_loop-pass order rounds (set stamped i true) h
                  (length-set stamped i true ∙ size)
                  (omega (arith, count, stamps-set stamped i inside new)))
        ]

-- `stampable` accepts segments exactly if there is an order of their checksums in which each comes
-- after those that it waits on: the others whose rows are in its range.
pub stampable_iff :
    (segments : List Segment)
    → (stampable segments ≡ pass tt)
      ↔ ((order : List ℕ) × IsStampOrder (row_names segments) (checks_of segments) order)
unfolding stampable
stampable_iff segments =
    let names = row_names segments in
    let checks = checks_of segments in
    let n = length checks in
    let none_yet = replicate n false in
    let size = length-replicate n false in
    let count : stamps none_yet + n ≡ n = omega (arith, stamps-none n) in
    (
      λ e.
          let (order, ordered, everywhere) =
            stamp_loop-InOrder names checks n none_yet [] size count
              (λ j h. absurd (let e' = none_stamped n j in cc)) e in
          (order, (ordered, λ i lt. elim (everywhere i lt) [ inl m ↦ elim m [ ] | inr m ↦ m ])),
      λ (order, h). stamp_loop-pass names checks order n none_yet h size count,
    )
