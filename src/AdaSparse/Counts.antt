-- ===== src/AdaSparse/Counts.antt =====
-- How many components the pruning of federatedscope/contrib/worker/methods/adasparse_lora_client.py
-- keeps, and what the sort of federatedscope/contrib/common/adasparse_lora_utils.py does to them.
use fed_lo_ra_public.Prelude.{
  ℕ, suc, ◌+◌, ◌≤◌, ◌<◌, ◌≡◌, refl, Bool, not, List, [], ◌∷◌, length, arith, ◌==◌, ==_iff, Elem,
  Distinct, inl, inr, if◌then◌else◌, Bool-cases, ok,
}
use mathlib.Core.Path.{subst}
use fed_lo_ra_public.AdaSparse.Indices.{contains, get_item}
use fed_lo_ra_public.AdaSparse.Client.{keep_positions}

unfoldable pub count : (ℕ → Bool) → List ℕ → ℕ
count f [] = 0
count f (x ∷ xs) = if f x then suc (count f xs) else count f xs

-- The indices that are not in `pruned`.
abbrev pub survives : List ℕ → ℕ → Bool
survives pruned g = not (contains g pruned)

count_step :
    (p : ℕ) (pruned xs : List ℕ)
    → count (survives pruned) xs ≤ count (survives (p ∷ pruned)) xs + count (λ x. x == p) xs
unfolding count contains
count_step p pruned [] = omega arith
count_step p pruned (x ∷ xs) = ground (arith, count_step p pruned xs)

count_absent : (p : ℕ) (xs : List ℕ) → (Elem p xs → ⊥) → count (λ x. x == p) xs ≡ 0
unfolding count
count_absent p [] absent = refl
count_absent p (x ∷ xs) absent =
    ground (arith, count_absent p xs (λ m. absent (inr m)), λ (e : p ≡ x). absent (inl e))

count_once : (p : ℕ) (xs : List ℕ) → Distinct xs → count (λ x. x == p) xs ≤ 1
unfolding count
count_once p [] d = omega arith
count_once p (x ∷ xs) d = elim (Bool-cases (x == p)) [
  | inl same ↦
      let none_left =
        subst (λ q. count (λ y. y == q) xs ≡ 0) ((==_iff x p).0 same) (count_absent x xs d.0) in
      rw same (omega (arith, none_left))
  | inr other ↦ rw other (count_once p xs d.1)
]

-- Distinct indices lose at most one for each index that is pruned.
pub count_kept :
    (pruned xs : List ℕ) → Distinct xs → length xs ≤ count (survives pruned) xs + length pruned
unfolding count contains
count_kept [] [] d = omega arith
count_kept [] (x ∷ xs) d = ground (arith, count_kept [] xs d.1)
count_kept (p ∷ pruned) xs d =
    omega (arith, count_kept pruned xs d, count_step p pruned xs, count_once p xs d)

-- The positions that are kept of a list, read at an offset of `before`.
pub length-keep_positions :
    (before pruned : List ℕ) (a : ℕ) (ys : List ℕ)
    → ((i : ℕ) → i < length ys → get_item before (a + i) ≡ get_item ys i)
    → (keep : List ℕ) × (keep_positions before pruned a (length ys) ≡ ok keep)
      × (length keep ≡ count (survives pruned) ys)
unfolding keep_positions count get_item
length-keep_positions before pruned a [] same = ([], refl, refl)
length-keep_positions before pruned a (y ∷ ys) same =
    let next : (i : ℕ) → i < length ys → get_item before (a + 1 + i) ≡ get_item ys i = λ i low.
      let shift : a + suc i ≡ a + 1 + i = omega arith in
      subst (λ n. get_item before n ≡ get_item ys i) shift (same (suc i) (omega arith)) in
    let (keep, e, size) = length-keep_positions before pruned (a + 1) ys next in
    let first : get_item before a ≡ ok y =
      let start : a + 0 ≡ a = omega arith in
      subst (λ n. get_item before n ≡ ok y) start (same 0 (omega arith)) in
    elim (Bool-cases (contains y pruned)) [
      | inl gone ↦ (keep, ground (arith, first, e, gone), ground (arith, size, gone))
      | inr stays ↦ (a ∷ keep, ground (arith, first, e, stays), ground (arith, size, stays))
    ]
