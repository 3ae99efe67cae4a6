-- ===== src/HetLora/Weighted.antt =====
-- What federatedscope/core/aggregators/hetlora_aggregator.py aggregates, and that the head of the model
-- does not touch it.
use Prim.Native.String.{String}
use fed_lo_ra_public.Prelude.{Bool, true, false, ◌≡◌, List, [], ◌∷◌, map, none, some, Dict}
use fed_lo_ra_public.Prelude.Floats.{FloatOps}
use fed_lo_ra_public.Hetero.Keys.{Key, is_lora}
use fed_lo_ra_public.Hetero.Distribute.{Value, Weights}
use fed_lo_ra_public.Hetero.Aggregate.{both_tensors, lora_pairs}
use fed_lo_ra_public.Hetero.Average.{Weighting, Feedback}
use fed_lo_ra_public.Hetero.Aggregation.{by_share}
use fed_lo_ra_public.HetLora.Sparsity.{TensorOps}

module _ (ops : FloatOps) {Row : Type 0} (t_ops : TensorOps ops Row) (in_key : String → Key → Bool)
    (b_of : Key → Key) where
  -- The squares of the norms of a client's pairs of tensors, and their sum from `acc` on.
  abbrev pub pair_norms : Dict Key (Value Row) → List (Key × Key) → List ops.Float
  pair_norms model [] = []
  pair_norms model ((a, b) ∷ pairs) = elim (both_tensors a b model) [
    | none ↦ pair_norms model pairs
    | some ab ↦ t_ops.norm_sq ab.0 ab.1 ∷ pair_norms model pairs
  ]

  abbrev pub total_from : ops.Float → List ops.Float → ops.Float
  total_from acc [] = acc
  total_from acc (x ∷ xs) = total_from (ops.add acc x) xs

  -- The norm of a client's update, and the models with their norms over the sum of all norms and
  -- epsilon.
  abbrev pub norm_of : Dict Key (Value Row) → ops.Float
  norm_of model =
      t_ops.sqrt (total_from (ops.of_nat 0) (pair_norms model (lora_pairs in_key b_of model model)))

  abbrev pub by_norm : Feedback Row → List (ops.Float × Dict Key (Value Row))
  by_norm feedback =
      let all = ops.add (t_ops.total (map (λ m. norm_of m.1) feedback)) t_ops.epsilon in
      map (λ m. (ops.div (norm_of m.1) all, m.1)) feedback

  -- No key is a LoRA key.
  abbrev IsHead : Weights Row → Type 0
  IsHead [] = Unit {0}
  IsHead ((k, t) ∷ head) = (is_lora in_key k ≡ false) × IsHead head

  -- The models with the weights of the mode.
  abbrev pub weighted_by :
      Bool → Weighting ops.Float → Feedback Row → List (ops.Float × Dict Key (Value Row))
  weighted_by true w models = by_norm models
  weighted_by false w models = by_share w models
