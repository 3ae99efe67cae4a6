-- ===== src/AdaSparse/Expand.antt =====
-- federatedscope/contrib/common/adasparse_lora_utils.py: from the components of a client to the
-- global ones and back, `expand_client_update_to_global` and `distribute_weights_by_indices`.
use Prim.Native.String.{String}
use fed_lo_ra_public.Prelude.{
  ℕ, zero, suc, List, [], ◌∷◌, ◌++◌, length, ◌==◌, Result, ok, raise, ◌>>=◌, index_error,
  if◌then◌else◌,
}
use fed_lo_ra_public.AdaSparse.Indices.{Part, lora_a, lora_b, other, index_select}

-- l[i] = x
unfoldable pub set_item {ℓ} : {A : Type ℓ} → List A → ℕ → A → Result (List A)
set_item [] i x = raise index_error
set_item (y ∷ ys) zero x = ok (x ∷ ys)
set_item (y ∷ ys) (suc i) x = set_item ys i x >>= λ zs. ok (y ∷ zs)

unfoldable pub zeros {ℓ} : {A : Type ℓ} → A → ℕ → List A
zeros z zero = []
zeros z (suc n) = z ∷ zeros z n

-- The loop `for local_pos, global_idx in enumerate(client_indices)` over the components of a tensor.
unfoldable pub place {ℓ} : {A : Type ℓ} → List A → List ℕ → List A → Result (List A)
place expanded [] rows = ok expanded
place expanded (g ∷ gs) [] = ok expanded
place expanded (g ∷ gs) (x ∷ rows) = set_item expanded g x >>= λ next. place next gs rows

module _ {Row Other : Type 0} where
  -- `zero_of` is the component of zeros of the size that a tensor's components have.
  unfoldable pub expand_part :
      (List Row → Row) → List ℕ → ℕ → Part Row Other → Result (Part Row Other)
  expand_part zero_of client_indices max_rank (lora_a rows) =
      place (zeros (zero_of rows) max_rank) client_indices rows >>= λ r. ok (lora_a r)
  expand_part zero_of client_indices max_rank (lora_b cols) =
      place (zeros (zero_of cols) max_rank) client_indices cols >>= λ c. ok (lora_b c)
  expand_part zero_of client_indices max_rank (other o) = ok (other o)

  unfoldable pub expand_client_update_to_global :
      (List Row → Row)
      → List (String × Part Row Other)
      → List ℕ
      → ℕ
      → Result (List (String × Part Row Other))
  expand_client_update_to_global zero_of [] client_indices max_rank = ok []
  expand_client_update_to_global zero_of ((key, part) ∷ rest) client_indices max_rank =
      expand_part zero_of client_indices max_rank part >>= λ p.
      expand_client_update_to_global zero_of rest client_indices max_rank >>= λ ps.
      ok ((key, p) ∷ ps)

  -- One tensor of the server in `distribute_weights_by_indices`, under its new key; a tensor whose
  -- rank is not `max_rank` is left out, and so is what is no LoRA tensor. The new keys of a model are
  -- distinct, so that the dictionary of the results is the list of them.
  unfoldable pub distribute_part :
      (String → String)
      → List ℕ
      → ℕ
      → String
      → Part Row Other
      → Result (List (String × Part Row Other))
  distribute_part dist_key client_indices max_rank key (lora_a rows) =
      if length rows == max_rank
      then (index_select rows client_indices >>= λ r. ok ((dist_key key, lora_a r) ∷ []))
      else ok []
  distribute_part dist_key client_indices max_rank key (lora_b cols) =
      if length cols == max_rank
      then (index_select cols client_indices >>= λ c. ok ((dist_key key, lora_b c) ∷ []))
      else ok []
  distribute_part dist_key client_indices max_rank key (other o) = ok []

  unfoldable pub distribute_parts :
      (String → String)
      → List ℕ
      → ℕ
      → List (String × Part Row Other)
      → Result (List (String × Part Row Other))
  distribute_parts dist_key client_indices max_rank [] = ok []
  distribute_parts dist_key client_indices max_rank ((key, part) ∷ rest) =
      distribute_part dist_key client_indices max_rank key part >>= λ p.
      distribute_parts dist_key client_indices max_rank rest >>= λ ps. ok (p ++ ps)

  -- `dist_key key` is f"{_canonical_lora_key(key)}.{client_rank}".
  unfoldable pub distribute_weights_by_indices :
      (String → ℕ → String)
      → List (String × Part Row Other)
      → List ℕ
      → ℕ
      → Result (List (String × Part Row Other))
  distribute_weights_by_indices dist_key server_lora_dict [] max_rank = ok []
  distribute_weights_by_indices dist_key server_lora_dict (g ∷ gs) max_rank =
      distribute_parts (λ key. dist_key key (length (g ∷ gs))) (g ∷ gs) max_rank server_lora_dict
