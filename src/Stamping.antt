-- ===== src/Stamping.antt =====
-- `stampable` of crates/layline-codegen/src/validate/coverage.rs: the order in which the checksums of
-- a message are computed.
pub mod Rounds
pub mod Waits
pub mod Orders
mod Runs
use Prim.Native.String.{String}
use layline.Prelude.{
  ℕ, zero, suc, ◌+◌, List, [], ◌∷◌, ◌++◌, Bool, true, false, not, ◌&&◌, if◌then◌else◌, Option, none,
  some, map, any, all, same, index_of, length, get_elem?, get_or, set, replicate,
}
use layline.Layout.Fields.{Coverage}
use layline.Message.{Segment, checksum, places}
use layline.Layout.Covered.{resolve, runs, in_run}
use layline.Layout.Invalid.{Verdict, pass, refuse, other, cover_each_other}

-- The name and the coverage of a checksum.
abbrev pub Check : Type 0
Check = String × Coverage

-- The names that the segments always write, and the checksums among them.
pub row_names : List Segment → List String
unfolding places
row_names [] = []
row_names (segment ∷ segments) = places segment ++ row_names segments

pub checks_of : List Segment → List Check
checks_of [] = []
checks_of (checksum name _ _ _ over ∷ segments) = (name, over) ∷ checks_of segments
checks_of (_ ∷ segments) = checks_of segments

-- `0..n` from `start` on, and `filter` and `find` of an iterator.
abbrev pub count_up : ℕ → ℕ → List ℕ
count_up start zero = []
count_up start (suc n) = start ∷ count_up (suc start) n

abbrev pub filter : (ℕ → Bool) → List ℕ → List ℕ
filter p [] = []
filter p (k ∷ ks) = if p k then k ∷ filter p ks else filter p ks

abbrev pub find : (ℕ → Bool) → List ℕ → Option ℕ
find p [] = none
find p (k ∷ ks) = if p k then some k else find p ks

-- The place of a segment in the order of segments, one row long.
row_place : List String → String → Option (ℕ × ℕ)
row_place names name = elim (index_of name names) [ none ↦ none | some k ↦ some (k, k + 1) ]

-- The closure `covers`.
pub covers : List String → Coverage → String → String → Bool
unfolding row_place resolve runs
covers names over own row = elim (index_of own names) [
  | none ↦ false
  | some o ↦ elim (index_of row names) [
    | none ↦ false
    | some t ↦ elim (resolve over (o, o + 1) (row_place names)) [
      | none ↦ false
      | some c ↦ any (in_run t) (runs c)
    ]
  ]
]

-- Whether one checksum waits on another, and the checksums that one waits on.
pub waits : List String → Check → Check → Bool
unfolding covers
waits names (own, over) (row, _) = not (same row own) && covers names over own row

pub waits_on : List String → List Check → Check → List ℕ
unfolding waits
waits_on names checks check =
    filter (λ j. elim (get_elem? checks j) [ none ↦ false | some c ↦ waits names check c ])
      (count_up 0 (length checks))

-- A checksum that is not stamped and waits on none that is not.
abbrev pub is_stamped : List Bool → ℕ → Bool
is_stamped stamped j = get_or stamped j false

pub is_next : List (List ℕ) → List Bool → ℕ → Bool
is_next waiting stamped i =
    not (is_stamped stamped i) && all (is_stamped stamped) (get_or waiting i [])

-- The names of the checksums that are left.
pub left_over : List Check → List Bool → List String
left_over checks stamped =
    map (λ i. elim (get_elem? checks i) [ none ↦ "" | some (name, _) ↦ name ])
      (filter (λ i. not (is_stamped stamped i)) (count_up 0 (length checks)))

-- The loop, with the rounds to go.
pub stamp_loop : List Check → List (List ℕ) → ℕ → List Bool → Verdict
unfolding is_next left_over
stamp_loop checks waiting zero stamped = pass tt
stamp_loop checks waiting (suc rounds) stamped =
    elim (find (is_next waiting stamped) (count_up 0 (length checks))) [
      | none ↦ refuse (other (cover_each_other (left_over checks stamped)))
      | some i ↦ stamp_loop checks waiting rounds (set stamped i true)
    ]

-- `stampable`.
pub stampable : List Segment → Verdict
unfolding row_names checks_of waits_on stamp_loop
stampable segments =
    let checks = checks_of segments in
    stamp_loop checks (map (waits_on (row_names segments) checks) checks) (length checks)
      (replicate (length checks) false)
