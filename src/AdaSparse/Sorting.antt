-- ===== src/AdaSparse/Sorting.antt =====
-- federatedscope/contrib/common/adasparse_lora_utils.py: the sort of the pairs of a position and its
-- global index, and the selection of components by positions.
use fed_lo_ra_public.Prelude.{
  ℕ, suc, ◌≤◌, ◌≡◌, refl, ap, ◌∙◌, List, [], ◌∷◌, map, length, All, arith, ltb, inl, inr,
  Bool-cases, ok, Result-cases,
}
use fed_lo_ra_public.AdaSparse.Indices.{get_item, index_select, insert_pair, sorted_pairs}

-- No index is above a later one.
abbrev pub IsAscending : List ℕ → Type 0
IsAscending [] = Unit
IsAscending (x ∷ xs) = All (λ y. x ≤ y) xs × IsAscending xs

-- A pair of a position and the index at it.
abbrev Reads : List ℕ → ℕ × ℕ → Type 0
Reads old x = get_item old x.0 ≡ ok x.1

Reads-insert_pair :
    (old : List ℕ) (p i : ℕ) (ps : List (ℕ × ℕ))
    → get_item old p ≡ ok i
    → All (Reads old) ps
    → All (Reads old) (insert_pair p i ps)
unfolding insert_pair
Reads-insert_pair old p i [] here rest = (here, tt)
Reads-insert_pair old p i ((q, j) ∷ ps) here rest = elim (Bool-cases (ltb j i)) [
  | inl before ↦ rw before (rest.0, Reads-insert_pair old p i ps here rest.1)
  | inr after ↦ rw after (here, rest)
]

above-insert_pair :
    (k p i : ℕ) (ps : List (ℕ × ℕ))
    → k ≤ i
    → All (λ y. k ≤ y) (map (λ x. x.1) ps)
    → All (λ y. k ≤ y) (map (λ x. x.1) (insert_pair p i ps))
unfolding insert_pair
above-insert_pair k p i [] low rest = (low, tt)
above-insert_pair k p i ((q, j) ∷ ps) low rest = elim (Bool-cases (ltb j i)) [
  | inl before ↦ rw before (rest.0, above-insert_pair k p i ps low rest.1)
  | inr after ↦ rw after (low, rest)
]

above_trans : (a b : ℕ) (xs : List ℕ) → a ≤ b → All (λ y. b ≤ y) xs → All (λ y. a ≤ y) xs
above_trans a b [] h all = tt
above_trans a b (x ∷ xs) h all = (omega (arith, all.0), above_trans a b xs h all.1)

insert_pair-IsAscending :
    (p i : ℕ) (ps : List (ℕ × ℕ))
    → IsAscending (map (λ x. x.1) ps)
    → IsAscending (map (λ x. x.1) (insert_pair p i ps))
unfolding insert_pair
insert_pair-IsAscending p i [] rest = (tt, tt)
insert_pair-IsAscending p i ((q, j) ∷ ps) rest = elim (Bool-cases (ltb j i)) [
  | inl before ↦ rw before (
    above-insert_pair j p i ps (ground (arith, before)) rest.0,
    insert_pair-IsAscending p i ps rest.1,
  )
  | inr after ↦ rw after (
    (ground (arith, after), above_trans i j (map (λ x. x.1) ps) (ground (arith, after)) rest.0),
    rest,
  )
]

length-insert_pair :
    (p i : ℕ) (ps : List (ℕ × ℕ))
    → length (map (λ x. x.1) (insert_pair p i ps)) ≡ suc (length (map (λ x. x.1) ps))
unfolding insert_pair
length-insert_pair p i [] = refl
length-insert_pair p i ((q, j) ∷ ps) = elim (Bool-cases (ltb j i)) [
  | inl before ↦ rw before (ap suc (length-insert_pair p i ps))
  | inr after ↦ rw after refl
]

pub sorted_pairs-IsAscending : (ps is : List ℕ) → IsAscending (map (λ x. x.1) (sorted_pairs ps is))
unfolding sorted_pairs
sorted_pairs-IsAscending [] is = tt
sorted_pairs-IsAscending (p ∷ ps) [] = tt
sorted_pairs-IsAscending (p ∷ ps) (i ∷ is) =
    insert_pair-IsAscending p i (sorted_pairs ps is) (sorted_pairs-IsAscending ps is)

-- A selection that succeeds, split at its first position.
select-cons :
    {A : Type 0} (xs : List A) (p : ℕ) (ps : List ℕ) (us : List A)
    → index_select xs (p ∷ ps) ≡ ok us
    → (u : A) × (vs : List A) × (us ≡ u ∷ vs)
      × (get_item xs p ≡ ok u)
      × (index_select xs ps ≡ ok vs)
unfolding index_select
select-cons xs p ps us e = elim (Result-cases (get_item xs p)) [
  | inr (x, bad) ↦ absurd (ground (arith, e, bad))
  | inl (u, here) ↦ elim (Result-cases (index_select xs ps)) [
    | inr (x, bad) ↦ absurd (ground (arith, e, here, bad))
    | inl (vs, rest) ↦ (u, vs, ground (arith, e, here, rest), here, rest)
  ]
]

-- The pairs that are sorted read the positions at their indices.
pub sorted_pairs-Reads :
    (old ps us : List ℕ) → index_select old ps ≡ ok us → All (Reads old) (sorted_pairs ps us)
unfolding sorted_pairs
sorted_pairs-Reads old [] us e = tt
sorted_pairs-Reads old (p ∷ ps) [] e = tt
sorted_pairs-Reads old (p ∷ ps) (i ∷ is) e =
    let (u, vs, shape, here, rest) = select-cons old p ps (i ∷ is) e in
    let head : u ≡ i = cc shape in
    let tail : vs ≡ is = cc shape in
    Reads-insert_pair old p i (sorted_pairs ps is) (here ∙ ap ok head)
      (sorted_pairs-Reads old ps is (rest ∙ ap ok tail))

pub length-index_select :
    {A : Type 0} (xs : List A) (ps : List ℕ) (us : List A)
    → index_select xs ps ≡ ok us
    → length us ≡ length ps
unfolding index_select
length-index_select xs [] us e = ground (arith, e)
length-index_select xs (p ∷ ps) us e =
    let (u, vs, shape, here, rest) = select-cons xs p ps us e in
    ap length shape ∙ ap suc (length-index_select xs ps vs rest)

pub length-sorted_pairs :
    (ps us : List ℕ)
    → length us ≡ length ps
    → length (map (λ x. x.1) (sorted_pairs ps us)) ≡ length ps
unfolding sorted_pairs
length-sorted_pairs [] us e = refl
length-sorted_pairs (p ∷ ps) [] e = absurd (omega (arith, e))
length-sorted_pairs (p ∷ ps) (i ∷ is) e =
    length-insert_pair p i (sorted_pairs ps is)
    ∙ ap suc (length-sorted_pairs ps is (omega (arith, e)))

-- To read the pairs one by one is to select their positions.
pub select-Reads :
    (old : List ℕ) (ps : List (ℕ × ℕ))
    → All (Reads old) ps
    → index_select old (map (λ x. x.0) ps) ≡ ok (map (λ x. x.1) ps)
unfolding index_select
select-Reads old [] all = refl
select-Reads old ((p, i) ∷ ps) all = rw (all.0, select-Reads old ps all.1) refl
