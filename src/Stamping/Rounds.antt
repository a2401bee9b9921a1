-- ===== src/Stamping/Rounds.antt =====
-- Lists of indices, and one round of `stampable` of crates/layline-codegen/src/validate/coverage.rs.
use layline.Prelude.{
  ℕ, zero, suc, ◌+◌, ◌≤◌, ◌<◌, List, [], ◌∷◌, Bool, true, false, if◌then◌else◌, none, some, all,
  length, get_or, set, replicate, ◌≡◌, refl, ap, sym, ◌∙◌, arith, ◌⊎◌, inl, inr, Bool-cases,
}
use layline.Stamping.{count_up, filter, find}

-- An index in a list of them.
abbrev pub Among : ℕ → List ℕ → Type 0
Among i [] = ⊥
Among i (k ∷ ks) = (i ≡ k) ⊎ Among i ks

pub count_up-Among : (start n i : ℕ) → start ≤ i → i < start + n → Among i (count_up start n)
count_up-Among start zero i lo hi = absurd (omega arith)
count_up-Among start (suc n) i lo hi = elim (cases start i lo) [
  | inl here ↦ inl here
  | inr later ↦ inr (count_up-Among (suc start) n i later (omega arith))
]
  where
    cases : (start i : ℕ) → start ≤ i → (i ≡ start) ⊎ (suc start ≤ i)
    cases start i lo = ground arith

pub Among-count_up : (start n i : ℕ) → Among i (count_up start n) → i < start + n
Among-count_up start zero i h = elim h [ ]
Among-count_up start (suc n) i (inl here) = omega (arith, here)
Among-count_up start (suc n) i (inr later) =
    let lt = Among-count_up (suc start) n i later in omega (arith, lt)

-- What `find` finds, and what it says where it finds nothing.
pub find-some :
    (p : ℕ → Bool) (ks : List ℕ) (i : ℕ) → find p ks ≡ some i → Among i ks × (p i ≡ true)
find-some p [] i e = absurd cc
find-some p (k ∷ ks) i e = elim (Bool-cases (p k)) [
  | inl found ↦
      let same : some k ≡ some i = rw found at e in
      let here : i ≡ k = cc in (inl here, ap p here ∙ found)
  | inr next ↦ let (there, holds) = find-some p ks i (rw next at e) in (inr there, holds)
]

pub find-none : (p : ℕ → Bool) (ks : List ℕ) → find p ks ≡ none → (i : ℕ) → Among i ks → p i ≡ false
find-none p [] e i m = elim m [ ]
find-none p (k ∷ ks) e i (inl here) = elim (Bool-cases (p k)) [
  | inl found ↦ absurd (let e' : some k ≡ none = rw found at e in cc)
  | inr next ↦ ap p here ∙ next
]
find-none p (k ∷ ks) e i (inr later) = elim (Bool-cases (p k)) [
  | inl found ↦ absurd (let e' : some k ≡ none = rw found at e in cc)
  | inr next ↦ find-none p ks (rw next at e) i later
]

-- A test of all that a filter leaves.
pub all-filter :
    (p q : ℕ → Bool) (ks : List ℕ)
    → all p (filter q ks) ≡ true
    → (j : ℕ) → Among j ks
    → q j ≡ true
    → p j ≡ true
all-filter p q [] e j m held = elim m [ ]
all-filter p q (k ∷ ks) e j (inl here) held =
    let keeps : q k ≡ true = sym (ap q here) ∙ held in
    let e' : all p (k ∷ filter q ks) ≡ true = rw keeps at e in
    ap p here ∙ elim (Bool-cases (p k)) [
      | inl good ↦ good
      | inr bad ↦ absurd (let e'' : false ≡ true = rw bad at e' in cc)
    ]
all-filter p q (k ∷ ks) e j (inr later) held = elim (Bool-cases (q k)) [
  | inl kept ↦
      let e' : all p (k ∷ filter q ks) ≡ true = rw kept at e in
      elim (Bool-cases (p k)) [
        | inl good ↦ all-filter p q ks (rw good at e') j later held
        | inr bad ↦ absurd (let e'' : false ≡ true = rw bad at e' in cc)
      ]
  | inr dropped ↦ all-filter p q ks (rw dropped at e) j later held
]

pub all-filter_of :
    (p q : ℕ → Bool) (ks : List ℕ)
    → ((j : ℕ) → Among j ks → q j ≡ true → p j ≡ true)
    → all p (filter q ks) ≡ true
all-filter_of p q [] h = refl
all-filter_of p q (k ∷ ks) h = elim (Bool-cases (q k)) [
  | inl kept ↦ rw (kept, h k (inl refl) kept) (all-filter_of p q ks (λ j m. h j (inr m)))
  | inr dropped ↦ rw dropped (all-filter_of p q ks (λ j m. h j (inr m)))
]

-- What is stamped, and how many are.
abbrev pub stamps : List Bool → ℕ
stamps [] = 0
stamps (b ∷ bs) = if b then suc (stamps bs) else stamps bs

pub stamps-set :
    (bs : List Bool) (i : ℕ)
    → i < length bs
    → get_or bs i false ≡ false
    → stamps (set bs i true) ≡ suc (stamps bs)
stamps-set [] i lt e = absurd (omega arith)
stamps-set (true ∷ bs) zero lt e = absurd cc
stamps-set (false ∷ bs) zero lt e = refl
stamps-set (true ∷ bs) (suc i) lt e = ap suc (stamps-set bs i (omega arith) e)
stamps-set (false ∷ bs) (suc i) lt e = stamps-set bs i (omega arith) e

stamps-le : (bs : List Bool) → stamps bs ≤ length bs
stamps-le [] = omega arith
stamps-le (true ∷ bs) = let le = stamps-le bs in omega arith
stamps-le (false ∷ bs) = let le = stamps-le bs in omega arith

pub stamps-full :
    (bs : List Bool) → stamps bs ≡ length bs → (i : ℕ) → i < length bs → get_or bs i false ≡ true
stamps-full [] e i lt = absurd (omega arith)
stamps-full (true ∷ bs) e zero lt = refl
stamps-full (true ∷ bs) e (suc i) lt = stamps-full bs (omega arith) i (omega arith)
stamps-full (false ∷ bs) e i lt = absurd (let le = stamps-le bs in omega arith)

pub stamps-all :
    (bs : List Bool) → ((i : ℕ) → i < length bs → get_or bs i false ≡ true) → stamps bs ≡ length bs
stamps-all [] h = refl
stamps-all (true ∷ bs) h = ap suc (stamps-all bs (λ i lt. h (suc i) (omega arith)))
stamps-all (false ∷ bs) h = absurd (let e = h 0 (omega arith) in cc)

pub stamps-none : (n : ℕ) → stamps (replicate n false) ≡ 0
stamps-none zero = refl
stamps-none (suc n) = stamps-none n

-- What is stamped after a round: what was, and the one.
pub get_or-set :
    (bs : List Bool) (i j : ℕ)
    → get_or (set bs i true) j false ≡ true
    → (j ≡ i) ⊎ (get_or bs j false ≡ true)
get_or-set [] i j e = inr e
get_or-set (b ∷ bs) zero zero e = inl refl
get_or-set (b ∷ bs) zero (suc j) e = inr e
get_or-set (b ∷ bs) (suc i) zero e = inr e
get_or-set (b ∷ bs) (suc i) (suc j) e = elim (get_or-set bs i j e) [
  | inl here ↦ inl (ap suc here)
  | inr there ↦ inr there
]

pub none_stamped : (n j : ℕ) → get_or (replicate n false) j false ≡ false
none_stamped zero j = refl
none_stamped (suc n) zero = refl
none_stamped (suc n) (suc j) = none_stamped n j
