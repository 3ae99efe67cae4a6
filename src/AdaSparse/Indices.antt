-- ===== src/AdaSparse/Indices.antt =====
-- federatedscope/contrib/common/adasparse_lora_utils.py: the operations on component indices. A LoRA
-- tensor is the list of its components: the rows of an A (`lora_A` in its key), the columns of a B
-- (`lora_B` in its key); any other value of a state dict is kept as it is. The order of
-- torch.argsort is a parameter, a list of places.
use Prim.Native.String.{String}
use fed_lo_ra_public.Prelude.{
  ℕ, zero, suc, ◌-◌, Bool, true, false, ◌&&◌, ◌||◌, not, List, [], ◌∷◌, map, take, length, ltb,
  ◌==◌, nat_eq, ℤ, pos, negsuc, integer_eq, Result, ok, raise, ◌>>=◌, index_error, value_error,
  if◌then◌else◌, max,
}

-- idx in indices
unfoldable pub contains : ℕ → List ℕ → Bool
contains i [] = false
contains i (x ∷ xs) = (i == x) || contains i xs

-- len(indices) == len(set(indices))
unfoldable pub contains_integer : ℤ → List ℤ → Bool
contains_integer i [] = false
contains_integer i (x ∷ xs) = integer_eq.beq i x || contains_integer i xs

unfoldable pub has_no_duplicates : List ℤ → Bool
has_no_duplicates [] = true
has_no_duplicates (x ∷ xs) = not (contains_integer x xs) && has_no_duplicates xs

-- 0 <= idx < max_rank
unfoldable pub is_in_range : ℤ → ℕ → Bool
is_in_range (pos i) max_rank = ltb i max_rank
is_in_range (negsuc i) max_rank = false

unfoldable pub in_range : ℕ → List ℤ → Result Bool
in_range max_rank [] = ok true
in_range max_rank (i ∷ is) =
    if is_in_range i max_rank then in_range max_rank is else raise value_error

-- The indices of `validate_indices` are any integers.
unfoldable pub validate_indices : List ℤ → ℕ → Result Bool
validate_indices indices max_rank =
    if has_no_duplicates indices then in_range max_rank indices else raise value_error

-- The common body of `validate_upload_subset` and `validate_download_subset`.
unfoldable pub validate_subset : List ℕ → List ℕ → Result Bool
unfolding contains
validate_subset [] survivor_indices = ok true
validate_subset (i ∷ is) survivor_indices =
    if contains i survivor_indices then validate_subset is survivor_indices else raise value_error

-- l[i] of a list, for an i that is not negative.
unfoldable pub get_item {ℓ} : {A : Type ℓ} → List A → ℕ → Result A
get_item [] i = raise index_error
get_item (x ∷ xs) zero = ok x
get_item (x ∷ xs) (suc i) = get_item xs i

-- [l[p] for p in positions], and torch's index_select.
unfoldable pub index_select {ℓ} : {A : Type ℓ} → List A → List ℕ → Result (List A)
index_select xs [] = ok []
index_select xs (p ∷ ps) = get_item xs p >>= λ x. index_select xs ps >>= λ ys. ok (x ∷ ys)

-- The values of a state dict.
pub data Part (Row Other : Type 0) : Type 0 where
  lora_a lora_b : List Row → Part Row Other
  other : Other → Part Row Other

-- `compute_lowset_and_score` without the score, which its caller drops: `decay r` is int(r * gamma).
unfoldable pub compute_lowset :
    {Float : Type 0} → (List Float → List ℕ) → (ℕ → ℕ) → ℕ → List Float → List ℕ
compute_lowset argsort decay rank_min scores =
    take (length scores - max rank_min (decay (length scores))) (argsort scores)

-- Pairs of a position and its global index, sorted by the index; Python's sort is stable.
unfoldable pub insert_pair : ℕ → ℕ → List (ℕ × ℕ) → List (ℕ × ℕ)
insert_pair p i [] = (p, i) ∷ []
insert_pair p i ((q, j) ∷ ps) =
    if ltb j i then (q, j) ∷ insert_pair p i ps else (p, i) ∷ (q, j) ∷ ps

unfoldable pub sorted_pairs : List ℕ → List ℕ → List (ℕ × ℕ)
sorted_pairs [] is = []
sorted_pairs (p ∷ ps) [] = []
sorted_pairs (p ∷ ps) (i ∷ is) = insert_pair p i (sorted_pairs ps is)

module _ {Row Other : Type 0} where
  unfoldable pub slice_part : List ℕ → Part Row Other → Result (Part Row Other)
  slice_part reorder (lora_a rows) = index_select rows reorder >>= λ r. ok (lora_a r)
  slice_part reorder (lora_b cols) = index_select cols reorder >>= λ c. ok (lora_b c)
  slice_part reorder (other o) = ok (other o)

  unfoldable pub slice_parts :
      List ℕ → List (String × Part Row Other) → Result (List (String × Part Row Other))
  slice_parts reorder [] = ok []
  slice_parts reorder ((key, part) ∷ rest) =
      slice_part reorder part >>= λ p. slice_parts reorder rest >>= λ ps. ok ((key, p) ∷ ps)

  unfoldable pub slice_update_by_keep_positions :
      List (String × Part Row Other)
      → List ℕ
      → List ℕ
      → Result (List (String × Part Row Other) × List ℕ)
  slice_update_by_keep_positions state_dict old_indices keep_positions =
      index_select old_indices keep_positions >>= λ unsorted.
      slice_parts (map (λ x. x.0) (sorted_pairs keep_positions unsorted)) state_dict >>= λ result.
      ok (result, map (λ x. x.1) (sorted_pairs keep_positions unsorted))
