-- ===== src/AdaSparse/RankUtils.antt =====
-- federatedscope/contrib/common/rank_utils.py: the helpers on ranks and component indices. An index
-- is a natural number, and a rank config is a dictionary from modules to ranks.
use Prim.Native.String.{String}
use fed_lo_ra_public.Prelude.{
  ℕ, ◌≤◌, Bool, true, false, ◌≡◌, ◌≢◌, refl, ap, ◌∙◌, List, [], ◌∷◌, Option, none, some, ltb,
  if◌then◌else◌, Dict, Result, ok, raise, runtime_error, Elem, Distinct, All, inl, inr, arith,
}
use fed_lo_ra_public.AdaSparse.Indices.{contains}
use fed_lo_ra_public.AdaSparse.Client.{range_from}
use fed_lo_ra_public.AdaSparse.Sorting.{IsAscending}

-- The loop of `normalize_indices`; `seen` is the set of the indices met.
unfoldable pub cleaned : Bool → List ℕ → List ℕ → List ℕ
cleaned unique seen [] = []
cleaned unique seen (idx ∷ indices) =
    let rest = cleaned unique (idx ∷ seen) indices in
    let skipped = cleaned unique seen indices in
    if unique then (if contains idx seen then skipped else idx ∷ rest) else idx ∷ skipped

-- list.sort() of numbers
unfoldable pub insert_sorted : ℕ → List ℕ → List ℕ
insert_sorted x [] = x ∷ []
insert_sorted x (y ∷ ys) = if ltb y x then y ∷ insert_sorted x ys else x ∷ y ∷ ys

unfoldable pub sorted_values : List ℕ → List ℕ
sorted_values [] = []
sorted_values (x ∷ xs) = insert_sorted x (sorted_values xs)

unfoldable pub normalize_indices : Bool → Bool → Option (List ℕ) → List ℕ
normalize_indices unique sort_values none = []
normalize_indices unique sort_values (some indices) =
    if sort_values then sorted_values (cleaned unique [] indices) else cleaned unique [] indices

unfoldable pub indices_from_rank : ℕ → List ℕ
indices_from_rank rank = range_from 0 rank

unfoldable pub infer_rank_from_client_rank_config : Option (Dict String ℕ) → Option ℕ → Option ℕ
infer_rank_from_client_rank_config none default = default
infer_rank_from_client_rank_config (some []) default = default
infer_rank_from_client_rank_config (some ((name, rank) ∷ rest)) default = some rank

unfoldable pub validate_nonempty_indices : Option (List ℕ) → Bool → Result (List ℕ)
validate_nonempty_indices indices allow_empty = elim (normalize_indices true true indices) [
  | [] ↦ if allow_empty then ok [] else raise runtime_error
  | x ∷ xs ↦ ok (x ∷ xs)
]

insert_sorted-IsAscending :
    (x : ℕ) (ys : List ℕ) → All (λ y. x ≤ y) ys → insert_sorted x ys ≡ x ∷ ys
unfolding insert_sorted
insert_sorted-IsAscending x [] h = refl
insert_sorted-IsAscending x (y ∷ ys) h = ground (arith, h.0)

sorted_values-IsAscending : (xs : List ℕ) → IsAscending xs → sorted_values xs ≡ xs
unfolding sorted_values
sorted_values-IsAscending [] h = refl
sorted_values-IsAscending (x ∷ xs) h =
    ap (insert_sorted x) (sorted_values-IsAscending xs h.1) ∙ insert_sorted-IsAscending x xs h.0

contains-Elem : (x : ℕ) (xs : List ℕ) → (Elem x xs → ⊥) → contains x xs ≡ false
unfolding contains
contains-Elem x [] absent = refl
contains-Elem x (y ∷ xs) absent =
    let differ : x ≢ y = λ e. absent (inl e) in
    ground (arith, differ, contains-Elem x xs (λ m. absent (inr m)))

cleaned-Distinct :
    (seen xs : List ℕ)
    → Distinct xs
    → ((x : ℕ) → Elem x xs → Elem x seen → ⊥)
    → cleaned true seen xs ≡ xs
unfolding cleaned
cleaned-Distinct seen [] h apart = refl
cleaned-Distinct seen (x ∷ xs) h apart =
    let fresh = contains-Elem x seen (apart x (inl refl)) in
    let apart' : (y : ℕ) → Elem y xs → Elem y (x ∷ seen) → ⊥ =
      λ y m n. elim n [ inl e ↦ h.0 (rw (← e) m) | inr before ↦ apart y (inr m) before ] in
    ground (arith, fresh, cleaned-Distinct (x ∷ seen) xs h.1 apart')

-- Indices in ascending order without duplicates are normal.
pub normalize_indices-IsAscending :
    (xs : List ℕ) → IsAscending xs → Distinct xs → normalize_indices true true (some xs) ≡ xs
unfolding normalize_indices
normalize_indices-IsAscending xs up distinct =
    ap sorted_values (cleaned-Distinct [] xs distinct (λ x m n. n))
    ∙ sorted_values-IsAscending xs up
