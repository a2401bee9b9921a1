-- ===== src/Layout/Solve/Tiles.antt =====
-- `Plan::solve` of crates/layline-derive/src/layout/solve.rs: when it accepts, and how the fields of an
-- accepted layout lie in its container.
use layline.Prelude.{
  ℕ, ◌+◌, ◌^◌, ◌≤◌, ◌<◌, List, [], ◌∷◌, Bool, true, false, ◌==◌, leb, ltb, if◌then◌else◌, Option,
  none, some, ◌≡◌, refl, arith, Bool-cases, inl, inr, ==_iff, ltb→le, ltb→lt, All,
}
use layline.Layout.{
  Container, word, in_bytes, in_words, lsb, msb, add_u64, container_bits, prefix, physical,
}
use layline.Layout.Solve.{
  body_width, kind, Item, Refused, check_placement, check_at, Solved, Outcome, solved, refused,
  with_first, decided, solve_from, solve,
}
use layline.Layout.Solve.Width.{width-kind}
use layline.Layout.Solve.Mirror.{mirror, inside, inside-mirror}
use layline.Layout.Solve.Placed.{IsMirrored, check_placement-IsPlaced}

-- The number of fields that a bit of the container is in.
abbrev pub holders : ℕ → List Solved → ℕ
holders x [] = 0
holders x (s ∷ rest) = (if inside s.phys_bit s.bits x then 1 else 0) + holders x rest

abbrev pub total_width : List Item → ℕ
total_width [] = 0
total_width (item ∷ items) = body_width item.body + total_width items

-- Every field passes the check of its placement and of its stated position, where the widths of the
-- fields before it put it.
abbrev pub AllPass : Container → ℕ → List Item → Type 0
AllPass grid at [] = Unit {0}
AllPass grid at (item ∷ items) =
    (check_placement grid item at ≡ none)
    × (check_at grid item at ≡ none)
    × AllPass grid (at + body_width item.body) items

-- A field that the mirroring of the container fits, of fewer than 2 ^ 62 bits.
abbrev pub IsField : Container → Item → Type 0
IsField grid item = IsMirrored grid item.body × (body_width item.body < 2 ^ 62)

-- What the solver makes of fields from bit `at` on, for each bit `x` of the container: where it
-- accepts, the bit is in one field, or in none if its declared place is before `at`.
abbrev pub IsSolve : Container → ℕ → List Item → ℕ → Outcome → Type 0
IsSolve grid at items x (solved out) =
    (at + total_width items ≡ container_bits grid)
    × AllPass grid at items
    × (holders x out ≡ (if leb at (mirror grid x) then 1 else 0))
IsSolve grid at items x (refused why) =
    ¬ ((at + total_width items ≡ container_bits grid) × AllPass grid at items)

pub mirror-lt :
    (grid : Container) (x : ℕ)
    → x < container_bits grid
    → container_bits grid < 2 ^ 32
    → mirror grid x < container_bits grid
unfolding container_bits
mirror-lt (word n p v e lsb) x lt small = lt
mirror-lt (word n p v e msb) x lt small = omega arith
mirror-lt (in_bytes n e) x lt small = lt
mirror-lt (in_words n e lsb) x lt small = lt
mirror-lt (in_words n e msb) x lt small = omega arith

pub counts :
    (at w m : ℕ)
    → (if inside at w m then 1 else 0) + (if leb (at + w) m then 1 else 0)
      ≡ (if leb at m then 1 else 0)
counts at w m = ground arith

module _ (grid : Container) (x : ℕ) (bit : x < container_bits grid)
    (narrow : container_bits grid < 2 ^ 32) where
  -- A round, by the rounds after it.
  module _ (at : ℕ) (item : Item) (items : List Item) (small : at < 2 ^ 32)
      (field : IsField grid item) where
    abbrev w : ℕ
    w = body_width item.body

    end : at + w < 2 ^ 63
    end = omega (arith, field.1)

    joins :
        check_placement grid item at ≡ none
        → check_at grid item at ≡ none
        → at + w ≤ container_bits grid
        → (rest : Outcome) → IsSolve grid (at + w) items x rest
        → IsSolve grid at
            (item ∷ items)
            x
            (with_first (record { phys_bit = physical grid (kind item.body) at; bits = w }) rest)
    unfolding with_first
    joins p s fits (refused why) h = λ (e, (_, _, pass)). h (omega (arith, e), pass)
    joins p s fits (solved out) (sum, pass, held) =
        let placed = check_placement-IsPlaced grid item at field.1 fits narrow field.0 p in
        let here =
          inside-mirror grid (kind item.body) at w x (width-kind item.body) end bit placed in
        (omega (arith, sum), (p, s, pass), rw (here, held) (counts at w (mirror grid x)))

    decided-IsSolve :
        (p s : Option Refused) (over : Bool) (beyond : Refused) (rest : Outcome)
        → check_placement grid item at ≡ p
        → check_at grid item at ≡ s
        → ltb (container_bits grid) (at + w) ≡ over
        → (at + w ≤ container_bits grid → IsSolve grid (at + w) items x rest)
        → IsSolve grid at (item ∷ items) x (
            decided p over s beyond
              (record { phys_bit = physical grid (kind item.body) at; bits = w })
              rest)
    unfolding decided
    decided-IsSolve (some why) s over beyond rest ep es eo h = λ (e, (pass, _, _)). cc
    decided-IsSolve none s true beyond rest ep es eo h =
        let past = ltb→lt _ _ eo in λ (e, _). omega (arith, e)
    decided-IsSolve none (some why) false beyond rest ep es eo h = λ (e, (_, pass, _)). cc
    decided-IsSolve none none false beyond rest ep es eo h =
        joins ep es (ltb→le _ _ eo) rest (h (ltb→le _ _ eo))

  solve_from-IsSolve :
      (at : ℕ) (items : List Item)
      → at < 2 ^ 32
      → All (IsField grid) items
      → IsSolve grid at items x (solve_from grid (container_bits grid) at items)
  unfolding solve_from
  solve_from-IsSolve at [] small fields = elim (Bool-cases (at == container_bits grid)) [
    | inl full ↦
        let e = (==_iff at (container_bits grid)).0 full in
        let lt = mirror-lt grid x bit narrow in rw full (omega arith, tt, ground (arith, e, lt))
    | inr part ↦ rw part (λ h. ground (arith, part, h.0))
  ]
  solve_from-IsSolve at (item ∷ items) small (here, fields) =
      let exact : add_u64 at (body_width item.body) ≡ at + body_width item.body =
        omega (arith, here.1) in
      rw exact (
        decided-IsSolve at item items small here (check_placement grid item at)
          (check_at grid item at) _ _
          (solve_from grid (container_bits grid) (at + body_width item.body) items) refl refl refl
          (λ fits. solve_from-IsSolve (at + body_width item.body) items (omega arith) fields))

  -- In a container of fewer than 2 ^ 32 bits with fields of fewer than 2 ^ 62 bits each, the solver
  -- accepts fields exactly when their widths make up the container behind its prefix and each passes
  -- the checks at its place. It then puts each bit of the container in one field, or in none if the
  -- bit is of the prefix. This is of any fields where the container is not mirrored; in one mirrored as
  -- one word they are bit fields, and in mirrored words bit fields, or arrays and nested layouts of
  -- whole words whose elements have at least 16 bits.
  pub solve_lem :
      (items : List Item)
      → prefix grid < 2 ^ 32
      → All (IsField grid) items
      → IsSolve grid (prefix grid) items x (solve grid (container_bits grid) items)
  unfolding solve
  solve_lem items small fields = solve_from-IsSolve (prefix grid) items small fields
