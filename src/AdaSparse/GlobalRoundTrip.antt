-- ===== src/AdaSparse/GlobalRoundTrip.antt =====
-- federatedscope/contrib/common/adasparse_lora_utils.py: what the server distributes of an expanded
-- update is the update of the client.
use Prim.Native.String.{String}
use fed_lo_ra_public.Prelude.{
  ℕ, ◌<◌, ◌≡◌, refl, ◌∙◌, true, List, [], ◌∷◌, length, arith, Distinct, All, ◌==◌, ==_iff, ok,
}
use fed_lo_ra_public.AdaSparse.Indices.{Part, lora_a, lora_b, other}
use fed_lo_ra_public.AdaSparse.Expand.{
  expand_part, expand_client_update_to_global, distribute_part, distribute_parts,
  distribute_weights_by_indices,
}
use fed_lo_ra_public.AdaSparse.Placing.{place_lem}

module _ {Row Other : Type 0} where
  -- A LoRA tensor with `n` components.
  abbrev pub HasRank : ℕ → Part Row Other → Type 0
  HasRank n (lora_a rows) = length rows ≡ n
  HasRank n (lora_b cols) = length cols ≡ n
  HasRank n (other o) = Unit

  -- The LoRA tensors of an update under the keys of the distribution.
  pub distributed :
      (String → String) → List (String × Part Row Other) → List (String × Part Row Other)
  distributed dist_key [] = []
  distributed dist_key ((key, lora_a rows) ∷ rest) =
      (dist_key key, lora_a rows) ∷ distributed dist_key rest
  distributed dist_key ((key, lora_b cols) ∷ rest) =
      (dist_key key, lora_b cols) ∷ distributed dist_key rest
  distributed dist_key ((key, other o) ∷ rest) = distributed dist_key rest

  module _ (zero_of : List Row → Row) (indices : List ℕ) (max_rank : ℕ)
      (distinct : Distinct indices) (low : All (λ g. g < max_rank) indices) where
    distribute-expand_parts :
        (dist_key : String → String) (update : List (String × Part Row Other))
        → All (λ x. HasRank (length indices) x.1) update
        → (global_ : List (String × Part Row Other)) × (expand_client_update_to_global zero_of
              update indices max_rank
            ≡ ok global_)
          × (distribute_parts dist_key indices max_rank global_ ≡ ok (distributed dist_key update))
    unfolding expand_client_update_to_global distribute_parts expand_part distribute_part
        distributed
    distribute-expand_parts dist_key [] ranks = ([], refl, refl)
    distribute-expand_parts dist_key ((key, lora_a rows) ∷ rest) ranks =
        let (g, made, sent) = distribute-expand_parts dist_key rest ranks.1 in
        let (out, placed, size, read, away) =
          place_lem (zero_of rows) max_rank indices rows distinct low ranks.0 in
        let full : (length out == max_rank) ≡ true = (==_iff (length out) max_rank).1 size in
        ((key, lora_a out) ∷ g, rw (placed, made) refl, rw (full, read, sent) refl)
    distribute-expand_parts dist_key ((key, lora_b cols) ∷ rest) ranks =
        let (g, made, sent) = distribute-expand_parts dist_key rest ranks.1 in
        let (out, placed, size, read, away) =
          place_lem (zero_of cols) max_rank indices cols distinct low ranks.0 in
        let full : (length out == max_rank) ≡ true = (==_iff (length out) max_rank).1 size in
        ((key, lora_b out) ∷ g, rw (placed, made) refl, rw (full, read, sent) refl)
    distribute-expand_parts dist_key ((key, other o) ∷ rest) ranks =
        let (g, made, sent) = distribute-expand_parts dist_key rest ranks.1 in
        ((key, other o) ∷ g, rw made refl, rw sent refl)

    weights :
        (dist_key : String → ℕ → String) (gs : List ℕ) (g : List (String × Part Row Other))
        → 0 < length gs
        → distribute_weights_by_indices dist_key g gs max_rank
          ≡ distribute_parts (λ key. dist_key key (length gs)) gs max_rank g
    unfolding distribute_weights_by_indices
    weights dist_key [] g some_index = absurd (omega arith)
    weights dist_key (i ∷ gs) g some_index = refl

    -- An update whose LoRA tensors have a component for each of the client's indices, which are
    -- distinct, below max_rank and not none: its expansion to the global positions raises nothing,
    -- and the server's distribution of it at these indices has the tensors of the update, under the
    -- keys of the distribution, and nothing else.
    pub distribute-expand :
        (dist_key : String → ℕ → String) (update : List (String × Part Row Other))
        → 0 < length indices
        → All (λ x. HasRank (length indices) x.1) update
        → (global_ : List (String × Part Row Other)) × (expand_client_update_to_global zero_of
              update indices max_rank
            ≡ ok global_)
          × (distribute_weights_by_indices dist_key global_ indices max_rank
              ≡ ok (distributed (λ key. dist_key key (length indices)) update))
    distribute-expand dist_key update some_index ranks =
        let (g, made, sent) =
          distribute-expand_parts (λ key. dist_key key (length indices)) update ranks in
        (g, made, weights dist_key indices g some_index ∙ sent)
