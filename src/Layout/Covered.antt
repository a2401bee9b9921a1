-- ===== src/Layout/Covered.antt =====
-- crates/layline-codegen/src/model/coverage.rs: the bytes that a checksum covers.
use Prim.Native.String.{String}
use layline.Prelude.{
  ℕ, ◌≤◌, ◌<◌, List, [], ◌∷◌, Bool, true, leb, ltb, ◌&&◌, if◌then◌else◌, any, Option, none, some,
  ◌≡◌, ◌↔◌, ◌⊎◌, arith,
}
use layline.Layout.Fields.{Coverage, CoverFrom, CoverTo, start, from_field, here, before, after}

-- `Covered`; the checksum's own place is a pair.
pub record Covered : Type 0 where
  pub from : ℕ
  pub to : ℕ
  pub own_start : ℕ
  pub own_end : ℕ

-- `Covered::excises` and `runs`.
unfoldable pub excises : Covered → Bool
excises c = leb c.from c.own_start && ltb c.own_start c.to

unfoldable pub runs : Covered → List (ℕ × ℕ)
unfolding excises
runs c = if excises c then (c.from, c.own_start) ∷ (c.own_end, c.to) ∷ [] else (c.from, c.to) ∷ []

-- The ends of the range, by the places of the fields.
unfoldable pub start_of : CoverFrom → (String → Option (ℕ × ℕ)) → Option ℕ
start_of start at = some 0
start_of (from_field f) at = elim (at f) [ none ↦ none | some (a, b) ↦ some a ]

unfoldable pub stop_of : CoverTo → ℕ → (String → Option (ℕ × ℕ)) → Option ℕ
stop_of here own_start at = some own_start
stop_of (before f) own_start at = elim (at f) [ none ↦ none | some (a, b) ↦ some a ]
stop_of (after f) own_start at = elim (at f) [ none ↦ none | some (a, b) ↦ some b ]

-- `Coverage::resolve`.
unfoldable pub resolve : Coverage → ℕ × ℕ → (String → Option (ℕ × ℕ)) → Option Covered
unfolding start_of stop_of
resolve over (own_start, own_end) at = elim (start_of over.from at) [
  | none ↦ none
  | some from ↦ elim (stop_of over.to own_start at) [
    | none ↦ none
    | some to ↦ some (record { from = from; to = to; own_start = own_start; own_end = own_end })
  ]
]

-- A byte in a run.
abbrev pub in_run : ℕ → ℕ × ℕ → Bool
in_run x (a, b) = leb a x && ltb x b

-- A byte in a range of bytes.
abbrev pub IsBetween : ℕ → ℕ → ℕ → Type 0
IsBetween a x b = (a ≤ x) × (x < b)

-- Where the ends of the range do not part the checksum, the runs are the bytes of the range that are
-- not the checksum's own.
pub in_run_iff :
    (c : Covered) (x : ℕ)
    → c.own_start < c.own_end
    → (c.from ≤ c.own_start) ⊎ (c.own_end ≤ c.from)
    → (c.to ≤ c.own_start) ⊎ (c.own_end ≤ c.to)
    → (any (in_run x) (runs c) ≡ true)
      ↔ (IsBetween c.from x c.to × ((x < c.own_start) ⊎ (c.own_end ≤ x)))
unfolding runs excises
in_run_iff c x own lo hi =
    (λ h. ground (arith, own, lo, hi, h), λ h. ground (arith, own, lo, hi, h.0, h.1))
