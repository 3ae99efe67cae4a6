-- ===== src/AdaSparse/Validation.antt =====
-- federatedscope/contrib/common/adasparse_lora_utils.py: what the validations of the indices accept,
-- and what is left of the residuals when components are pruned.
use fed_lo_ra_public.Prelude.{
  ℕ, ◌<◌, ◌≡◌, ◌⊎◌, ℤ, pos, negsuc, integer_beq, integer_beq_iff, ◌↔◌, refl, ap, true, List, [],
  ◌∷◌, arith, ◌==◌, ==_iff, Elem, Distinct, All, inl, inr, Dict, nat_eq, lookup, none, ok, raise,
  value_error, if◌then◌else◌, Bool-cases,
}
use fed_lo_ra_public.AdaSparse.Indices.{
  contains, contains_integer, is_in_range, has_no_duplicates, in_range, validate_indices,
  validate_subset,
}
use fed_lo_ra_public.AdaSparse.Budget.{prune_residual_buffers}

pub contains_iff : (i : ℕ) (xs : List ℕ) → (contains i xs ≡ true) ↔ Elem i xs
unfolding contains
contains_iff i [] = (λ e. absurd (ground (arith, e)), λ m. absurd m)
contains_iff i (x ∷ xs) = elim (Bool-cases (i == x)) [
  | inl same ↦ rw same (λ e. inl ((==_iff i x).0 same), λ m. refl)
  | inr other ↦ rw other (
    λ e. inr ((contains_iff i xs).0 e),
    λ m. elim m [ inl e ↦ absurd (ground (arith, other, e)) | inr t ↦ (contains_iff i xs).1 t ],
  )
]

-- A natural number below max_rank.
abbrev pub IsIndex : ℕ → ℤ → Type 0
IsIndex max_rank i = (n : ℕ) × (i ≡ pos n) × (n < max_rank)

is_in_range_iff : (max_rank : ℕ) (i : ℤ) → (is_in_range i max_rank ≡ true) ↔ IsIndex max_rank i
unfolding is_in_range
is_in_range_iff max_rank (pos i) =
    (λ low. (i, refl, ground (arith, low)), λ h. ground (arith, h.1, h.2))
is_in_range_iff max_rank (negsuc i) = (λ low. cc, λ h. absurd (cc (h.1)))

contains_integer_iff : (i : ℤ) (xs : List ℤ) → (contains_integer i xs ≡ true) ↔ Elem i xs
unfolding contains_integer
contains_integer_iff i [] = (λ e. absurd (ground (arith, e)), λ m. absurd m)
contains_integer_iff i (x ∷ xs) = elim (Bool-cases (integer_beq i x)) [
  | inl same ↦ rw same (λ e. inl ((integer_beq_iff i x).0 same), λ m. refl)
  | inr other ↦ rw other (
    λ e. inr ((contains_integer_iff i xs).0 e),
    λ m. elim m [
      | inl e ↦ absurd (ground (arith, other, (integer_beq_iff i x).1 e))
      | inr t ↦ (contains_integer_iff i xs).1 t
    ],
  )
]

has_no_duplicates_iff : (xs : List ℤ) → (has_no_duplicates xs ≡ true) ↔ Distinct xs
unfolding has_no_duplicates
has_no_duplicates_iff [] = (λ e. tt, λ d. refl)
has_no_duplicates_iff (x ∷ xs) = elim (Bool-cases (contains_integer x xs)) [
  | inl there ↦
      rw there
        (λ e. absurd (ground (arith, e)), λ d. absurd (d.0 ((contains_integer_iff x xs).0 there)))
  | inr absent ↦ rw absent (
    λ e. (
      λ m. absurd (ground (arith, absent, (contains_integer_iff x xs).1 m)),
      (has_no_duplicates_iff xs).0 e,
    ),
    λ d. (has_no_duplicates_iff xs).1 d.1,
  )
]

in_range_iff :
    (max_rank : ℕ) (xs : List ℤ) → (in_range max_rank xs ≡ ok true) ↔ All (IsIndex max_rank) xs
unfolding in_range
in_range_iff max_rank [] = (λ e. tt, λ a. refl)
in_range_iff max_rank (x ∷ xs) = elim (Bool-cases (is_in_range x max_rank)) [
  | inl low ↦ rw low (
    λ e. ((is_in_range_iff max_rank x).0 low, (in_range_iff max_rank xs).0 e),
    λ a. (in_range_iff max_rank xs).1 a.1,
  )
  | inr high ↦ rw high (
    λ e. absurd (ground (arith, e)),
    λ a. absurd (ground (arith, high, (is_in_range_iff max_rank x).1 a.0)),
  )
]

in_range-cases :
    (max_rank : ℕ) (xs : List ℤ)
    → (in_range max_rank xs ≡ ok true) ⊎ (in_range max_rank xs ≡ raise value_error)
unfolding in_range
in_range-cases max_rank [] = inl refl
in_range-cases max_rank (x ∷ xs) = elim (Bool-cases (is_in_range x max_rank)) [
  | inl low ↦ rw low (in_range-cases max_rank xs)
  | inr high ↦ rw high (inr refl)
]

-- The validation of a list of indices returns exactly where they are distinct, not negative and below max_rank;
-- it raises a ValueError in every other case.
pub validate_indices_iff :
    (indices : List ℤ) (max_rank : ℕ)
    → ((validate_indices indices max_rank ≡ ok true)
        ↔ Distinct indices × All (IsIndex max_rank) indices)
      × ((validate_indices indices max_rank ≡ ok true)
          ⊎ (validate_indices indices max_rank ≡ raise value_error))
unfolding validate_indices
validate_indices_iff indices max_rank = elim (Bool-cases (has_no_duplicates indices)) [
  | inl single ↦ rw single (
    (
      λ e. ((has_no_duplicates_iff indices).0 single, (in_range_iff max_rank indices).0 e),
      λ h. (in_range_iff max_rank indices).1 h.1,
    ),
    in_range-cases max_rank indices,
  )
  | inr double ↦ rw double (
    (
      λ e. absurd (ground (arith, e)),
      λ h. absurd (ground (arith, double, (has_no_duplicates_iff indices).1 h.0)),
    ),
    inr refl,
  )
]

-- An upload or a download is accepted exactly where each of its indices is a survivor; every other
-- one raises a ValueError.
pub validate_subset_iff :
    (indices survivors : List ℕ)
    → ((validate_subset indices survivors ≡ ok true) ↔ All (λ i. Elem i survivors) indices)
      × ((validate_subset indices survivors ≡ ok true)
          ⊎ (validate_subset indices survivors ≡ raise value_error))
unfolding validate_subset
validate_subset_iff [] survivors = ((λ e. tt, λ a. refl), inl refl)
validate_subset_iff (i ∷ is) survivors =
    let ih = validate_subset_iff is survivors in
    elim (Bool-cases (contains i survivors)) [
      | inl there ↦
          rw there ((λ e. ((contains_iff i survivors).0 there, ih.0.0 e), λ a. ih.0.1 a.1), ih.1)
      | inr absent ↦ rw absent (
        (
          λ e. absurd (ground (arith, e)),
          λ a. absurd (ground (arith, absent, (contains_iff i survivors).1 a.0)),
        ),
        inr refl,
      )
    ]

-- After components are pruned, a component has its residual as before where it is not pruned, and
-- none where it is.
pub lookup-prune_residual_buffers :
    {V : Type 0} (d : Dict ℕ V) (pruned : List ℕ) (g : ℕ)
    → lookup g (prune_residual_buffers d pruned) ≡ (if contains g pruned then none else lookup g d)
unfolding prune_residual_buffers lookup
lookup-prune_residual_buffers [] pruned g = ground arith
lookup-prune_residual_buffers ((h, v) ∷ d) pruned g =
    let ih = lookup-prune_residual_buffers d pruned g in
    elim (Bool-cases (h == g)) [
      | inl same ↦
          let at : contains h pruned ≡ contains g pruned =
            ap (λ x. contains x pruned) ((==_iff h g).0 same) in
          ground (arith, same, at, ih)
      | inr elsewhere ↦ ground (arith, elsewhere, ih)
    ]
