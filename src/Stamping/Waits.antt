-- ===== src/Stamping/Waits.antt =====
-- Which checksums may come next in `stampable` of crates/layline-codegen/src/validate/coverage.rs.
use Prim.Native.String.{String}
use layline.Prelude.{
  ℕ, zero, suc, ◌<◌, List, [], ◌∷◌, Bool, true, false, none, some, map, all, length, get_elem?,
  get_or, ◌≡◌, refl, ap, arith, inl, inr, Bool-cases,
}
use layline.Stamping.{Check, count_up, waits, waits_on, is_stamped, is_next}
use layline.Stamping.Rounds.{Among, count_up-Among, Among-count_up, all-filter, all-filter_of}

pub get_elem?-some :
    (checks : List Check) (i : ℕ) → i < length checks → (c : Check) × (get_elem? checks i ≡ some c)
get_elem?-some [] i lt = absurd (omega arith)
get_elem?-some (c ∷ checks) zero lt = (c, refl)
get_elem?-some (c ∷ checks) (suc i) lt = get_elem?-some checks i (omega arith)

pub some-get_elem? :
    (checks : List Check) (i : ℕ) (c : Check) → get_elem? checks i ≡ some c → i < length checks
some-get_elem? [] i c e = absurd cc
some-get_elem? (d ∷ checks) zero c e = omega arith
some-get_elem? (d ∷ checks) (suc i) c e = let lt = some-get_elem? checks i c e in omega arith

get_or-map :
    (f : Check → List ℕ) (checks : List Check) (i : ℕ) (c : Check)
    → get_elem? checks i ≡ some c
    → get_or (map f checks) i [] ≡ f c
get_or-map f [] i c e = absurd cc
get_or-map f (d ∷ checks) zero c e = let same : d ≡ c = cc in ap f same
get_or-map f (d ∷ checks) (suc i) c e = get_or-map f checks i c e

module _ (names : List String) (checks : List Check) where
  -- The checksums that `checks[i]` waits on are among `before`.
  abbrev pub IsAfter : List ℕ → ℕ → Type 0
  IsAfter before i =
      (c d : Check) (j : ℕ)
      → get_elem? checks i ≡ some c
      → get_elem? checks j ≡ some d
      → waits names c d ≡ true
      → Among j before

  -- Each index comes after those that it waits on.
  abbrev pub InOrder : List ℕ → List ℕ → Type 0
  InOrder before [] = Unit
  InOrder before (i ∷ rest) = IsAfter before i × InOrder (i ∷ before) rest

  -- An order of all the checksums in which each comes after those that it waits on.
  abbrev pub IsStampOrder : List ℕ → Type 0
  IsStampOrder order = InOrder [] order × ((i : ℕ) → i < length checks → Among i order)

  abbrev pub waiting : List (List ℕ)
  waiting = map (waits_on names checks) checks

  abbrev waits_at : Check → ℕ → Bool
  waits_at c j = elim (get_elem? checks j) [ none ↦ false | some d ↦ waits names c d ]

  -- A checksum that is next, and one that is not though what it waits on is stamped.
  pub is_next-waits :
      (stamped : List Bool) (i : ℕ)
      → is_next waiting stamped i ≡ true
      → (get_or stamped i false ≡ false)
        × ((c d : Check) (j : ℕ)
            → get_elem? checks i ≡ some c
            → get_elem? checks j ≡ some d
            → waits names c d ≡ true
            → get_or stamped j false ≡ true)
  unfolding is_next waits_on
  is_next-waits stamped i e = elim (Bool-cases (get_or stamped i false)) [
    | inl old ↦ absurd (let e' : false ≡ true = rw old at e in cc)
    | inr new ↦
        let met : all (is_stamped stamped) (get_or waiting i []) ≡ true = rw new at e in
        (
          new,
          λ c d j ei ej w.
              all-filter (is_stamped stamped) (waits_at c) (count_up 0 (length checks))
                (rw (get_or-map (waits_on names checks) checks i c ei) at met) j
                (count_up-Among 0 (length checks) j (omega arith)
                  (let lt = some-get_elem? checks j d ej in omega arith))
                (rw (waits_at, ej) w),
        )
  ]

  pub is_next-stamped :
      (stamped : List Bool) (i : ℕ)
      → i < length checks
      → is_next waiting stamped i ≡ false
      → ((c d : Check) (j : ℕ)
          → get_elem? checks i ≡ some c
          → get_elem? checks j ≡ some d
          → waits names c d ≡ true
          → get_or stamped j false ≡ true)
      → get_or stamped i false ≡ true
  unfolding is_next waits_on
  is_next-stamped stamped i lt e met = elim (Bool-cases (get_or stamped i false)) [
    | inl old ↦ old
    | inr new ↦
        let (c, ei) = get_elem?-some checks i lt in
        let all_met =
          all-filter_of (is_stamped stamped) (waits_at c) (count_up 0 (length checks)) (λ j there w.
            let (d, ej) =
              get_elem?-some checks j (omega (arith, Among-count_up 0 (length checks) j there)) in
            met c d j ei ej (rw (waits_at, ej) at w)) in
        let e' : all (is_stamped stamped) (get_or waiting i []) ≡ false = rw new at e in
        absurd (let e'' = rw (get_or-map (waits_on names checks) checks i c ei) at e' in cc)
  ]
