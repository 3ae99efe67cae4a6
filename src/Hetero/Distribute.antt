-- ===== src/Hetero/Distribute.antt =====
-- distribute_weight_fast in federatedscope/contrib/common/heterolora_utils.py. A tensor is the list
-- of its components along the rank, and the size of its other dimension. `Name` is the type of the
-- keys of config_local, which are strings, as the docstring says, and `is_client` says that one has
-- the text 'Client' in it.
use Prim.Native.String.{String}
use fed_lo_ra_public.Prelude.{
  ℕ, Bool, ◌||◌, List, [], ◌∷◌, take, length, Option, none, some, if◌then◌else◌, ltb, ◌==◌, Dict,
  Eq, lookup_or, insert, Result, ok, raise, value_error,
}
use fed_lo_ra_public.Hetero.Keys.{
  Key, key_eq, canonical_lora_key, dist_key, get_rank_for_param, is_lora,
}

pub record Tensor (Row : Type 0) : Type 0 where
  pub features : ℕ
  pub components : List Row

-- The values of a state dict.
pub data Value (Row : Type 0) : Type 0 where
  tensor : Tensor Row → Value Row
  other : Value Row

-- What one client is sent.
abbrev pub Weights : Type 0 → Type 0
Weights Row = Dict Key (Tensor Row)

abbrev pub RankConfig : Type 0
RankConfig = Dict String ℕ

unfoldable pub truncated : {Row : Type 0} → ℕ → Tensor Row → Tensor Row
truncated rank t = record { features = t.features; components = take rank t.components }

module _ (in_key : String → Key → Bool) (len : String → ℕ) where
  -- The rank that is distributed for a parameter, if one is.
  unfoldable pub usable_rank : ℕ → Key → RankConfig → Option ℕ
  usable_rank max_rank base_key rank_config =
      elim (get_rank_for_param in_key len base_key rank_config) [
        | none ↦ none
        | some rank ↦ if (rank == 0) || ltb max_rank rank then none else some rank
      ]

  module _ {Row : Type 0} where
    -- What one aggregated weight adds to the weights of a client.
    unfoldable pub add_weight : ℕ → Key → Tensor Row → RankConfig → Weights Row → Weights Row
    add_weight max_rank base_key t rank_config weights =
        elim (usable_rank max_rank base_key rank_config) [
          | none ↦ weights
          | some rank ↦ insert (dist_key base_key rank) (truncated rank t) weights
        ]

    -- The weights of one client, without the other clients.
    unfoldable pub weights_for : ℕ → RankConfig → Dict Key (Value Row) → Weights Row → Weights Row
    weights_for max_rank rank_config [] sent = sent
    weights_for max_rank rank_config ((orig_key, other) ∷ weights) sent =
        weights_for max_rank rank_config weights sent
    weights_for max_rank rank_config ((orig_key, tensor t) ∷ weights) sent =
        weights_for max_rank rank_config weights (
          if is_lora in_key orig_key
          then add_weight max_rank (canonical_lora_key orig_key) t rank_config sent
          else sent)

module _ (in_key : String → Key → Bool) (len : String → ℕ) {Name Row : Type 0} ⦃e : Eq Name⦄
    (is_client : Name → Bool) where
  -- One turn of the loop over config_local. A client is in the result once it has a weight.
  unfoldable pub to_client :
      ℕ → Key → Tensor Row → Name → RankConfig → Dict Name (Weights Row) → Dict Name (Weights Row)
  to_client max_rank base_key t client_id rank_config distributed =
      if is_client client_id
      then elim (usable_rank in_key len max_rank base_key rank_config) [
        | none ↦ distributed
        | some rank ↦
            insert client_id
              (insert (dist_key base_key rank) (truncated rank t)
                (lookup_or [] client_id distributed))
              distributed
      ]
      else distributed

  unfoldable pub to_clients :
      ℕ
      → Key
      → Tensor Row
      → Dict Name RankConfig
      → Dict Name (Weights Row)
      → Dict Name (Weights Row)
  to_clients max_rank base_key t [] distributed = distributed
  to_clients max_rank base_key t ((client_id, rank_config) ∷ config_local) distributed =
      to_clients max_rank base_key t config_local
        (to_client max_rank base_key t client_id rank_config distributed)

  unfoldable pub distribute_all :
      ℕ
      → Dict Name RankConfig
      → Dict Key (Value Row)
      → Dict Name (Weights Row)
      → Result (Dict Name (Weights Row))
  distribute_all max_rank config_local [] distributed = ok distributed
  distribute_all max_rank config_local ((orig_key, other) ∷ weights) distributed =
      distribute_all max_rank config_local weights distributed
  distribute_all max_rank config_local ((orig_key, tensor t) ∷ weights) distributed =
      let rest =
        distribute_all max_rank config_local weights
          (to_clients max_rank (canonical_lora_key orig_key) t config_local distributed) in
      let skipped = distribute_all max_rank config_local weights distributed in
      if is_lora in_key orig_key
      then if length t.components == max_rank then rest else raise value_error
      else skipped

  unfoldable pub distribute_weight_fast :
      Dict Key (Value Row) → Dict Name RankConfig → Option ℕ → Result (Dict Name (Weights Row))
  distribute_weight_fast weights config_local none = raise value_error
  distribute_weight_fast weights config_local (some max_rank) =
      distribute_all max_rank config_local weights []
