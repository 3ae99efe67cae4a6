-- ===== src/HetLora/Sparsity.antt =====
-- federatedscope/core/aggregators/hetlora_aggregator.py: the aggregation by the norms of the clients'
-- updates. `norm_sq` is the sum over (B^T B) * (A A^T) of a pair, `total` Python's sum of a list,
-- `scale_tensor` and `add_tensor` are torch's operations on tensors of the head; the rest is as in
-- Hetero.Aggregate and Hetero.Average.
use Prim.Native.String.{String}
use fed_lo_ra_public.Prelude.{
  Result, ok, ◌>>=◌, ℕ, Bool, ◌||◌, List, [], ◌∷◌, length, Option, none, some, if◌then◌else◌, ◌==◌,
  Dict, lookup, insert,
}
use fed_lo_ra_public.Prelude.Floats.{FloatOps}
use fed_lo_ra_public.Hetero.Keys.{Key, key_eq}
use fed_lo_ra_public.Hetero.Distribute.{Tensor, Value, tensor, other, Weights}
use fed_lo_ra_public.Hetero.Aggregate.{both_tensors, lora_pairs}
use fed_lo_ra_public.Hetero.Average.{
  Weighting, Feedback, training_set_size, weighted_sums, hetero_lora_weighted_avg,
  verify_and_fix_shapes, current_max_rank,
}

-- What torch and Python compute here.
pub record TensorOps (ops : FloatOps) (Row : Type 0) : Type 0 where
  pub norm_sq : Tensor Row → Tensor Row → ops.Float
  pub sqrt : ops.Float → ops.Float
  pub total : List ops.Float → ops.Float
  pub epsilon : ops.Float
  pub zeros : ℕ → Row
  pub scale : Row → ops.Float → Row
  pub add : Row → Row → Row
  pub scale_tensor : Tensor Row → ops.Float → Tensor Row
  -- of tensors whose shapes may not fit
  pub add_tensor : Tensor Row → Tensor Row → Result (Tensor Row)

-- result.update(head)
unfoldable pub update : {V : Type 0} → Dict Key V → Dict Key V → Dict Key V
update result [] = result
update result ((key, v) ∷ head) = update (insert key v result) head

module _ (ops : FloatOps) {Row : Type 0} (t_ops : TensorOps ops Row) (in_key : String → Key → Bool)
    (b_of : Key → Key) where
  unfoldable pub add_norms : Dict Key (Value Row) → List (Key × Key) → ops.Float → ops.Float
  add_norms local_model [] acc = acc
  add_norms local_model ((a_key, b_key) ∷ pairs) acc =
      add_norms local_model pairs (elim (both_tensors a_key b_key local_model) [
        | none ↦ acc
        | some (a, b) ↦ ops.add acc (t_ops.norm_sq a b)
      ])

  unfoldable pub sparsity_norm : Dict Key (Value Row) → ops.Float
  sparsity_norm local_model =
      t_ops.sqrt
        (add_norms local_model (lora_pairs in_key b_of local_model local_model) (ops.of_nat 0))

  unfoldable pub norms_of : Feedback Row → List ops.Float
  norms_of [] = []
  norms_of ((sample_size, local_model) ∷ models) = sparsity_norm local_model ∷ norms_of models

  unfoldable pub weigh_by : ops.Float → Feedback Row → List (ops.Float × Dict Key (Value Row))
  weigh_by total_norm [] = []
  weigh_by total_norm ((sample_size, local_model) ∷ models) =
      (ops.div (sparsity_norm local_model) total_norm, local_model) ∷ weigh_by total_norm models

  -- The models with their weights, s_k / (sum of all s + epsilon).
  unfoldable pub sparsity_weighted : Feedback Row → List (ops.Float × Dict Key (Value Row))
  sparsity_weighted models = weigh_by (ops.add (t_ops.total (norms_of models)) t_ops.epsilon) models

  unfoldable pub sparsity_weighted_aggregate : ℕ → Feedback Row → Result (Weights Row)
  sparsity_weighted_aggregate max_rank [] = ok []
  sparsity_weighted_aggregate max_rank ((sample_size, reference_model) ∷ models) =
      weighted_sums in_key b_of t_ops.zeros t_ops.scale t_ops.add max_rank
        (sparsity_weighted ((sample_size, reference_model) ∷ models)) reference_model

  -- The weighted sum of a parameter over the clients that have it as a tensor.
  unfoldable pub head_sum :
      (ℕ → ops.Float) → Key → Feedback Row → Option (Tensor Row) → Result (Option (Tensor Row))
  head_sum weight k [] acc = ok acc
  head_sum weight k ((ss, mp) ∷ models) acc = elim (lookup k mp) [
    | none ↦ head_sum weight k models acc
    | some other ↦ head_sum weight k models acc
    | some (tensor t) ↦ elim acc [
      | none ↦ head_sum weight k models (some (t_ops.scale_tensor t (weight ss)))
      | some sum_ ↦ t_ops.add_tensor sum_ (t_ops.scale_tensor t (weight ss)) >>= λ next.
          head_sum weight k models (some next)
    ]
  ]

  -- out[k] = acc, if there is one.
  unfoldable pub with_average : Key → Option (Tensor Row) → Weights Row → Weights Row
  with_average k none rest = rest
  with_average k (some acc) rest = (k, acc) ∷ rest

  -- The averages of the keys of the first model that are no LoRA keys.
  unfoldable pub head_averages :
      (ℕ → ops.Float) → Feedback Row → Dict Key (Value Row) → Result (Weights Row)
  head_averages weight models [] = ok []
  head_averages weight models ((k, v) ∷ ref) =
      let rest = head_averages weight models ref in
      if in_key "lora_A" k || in_key "lora_B" k
      then rest
      else head_sum weight k models none >>= λ acc. rest >>= λ out. ok (with_average k acc out)

  unfoldable pub average_non_lora_trainable :
      Weighting ops.Float → Feedback Row → Result (Weights Row)
  average_non_lora_trainable w [] = ok []
  average_non_lora_trainable w ((size, ref) ∷ models) =
      let all_models = (size, ref) ∷ models in
      let total =
        if training_set_size all_models == 0
        then length all_models
        else training_set_size all_models in
      head_averages (λ ss. w.share ss total) all_models ref

  -- An empty result is returned as it is.
  unfoldable pub finish_aggregate :
      Weighting ops.Float → ℕ → Feedback Row → Weights Row → Result (Weights Row)
  finish_aggregate w max_rank models [] = ok []
  finish_aggregate w max_rank models (entry ∷ result) =
      average_non_lora_trainable w models >>= λ head.
      ok (update (verify_and_fix_shapes in_key t_ops.zeros max_rank (entry ∷ result)) head)

  -- The new max_rank, and the result or the error of torch; `by_sparsity` is
  -- mode == 'sparsity_weighted'.
  unfoldable pub aggregate_hetlora :
      Option ℕ
      → Option ℕ
      → Bool
      → Weighting ops.Float
      → Feedback Row
      → Option ℕ × Result (Weights Row)
  aggregate_hetlora own configured by_sparsity w [] = (own, ok [])
  aggregate_hetlora own configured by_sparsity w (m ∷ models) =
      let max_rank = current_max_rank own configured in
      let by_norms = sparsity_weighted_aggregate max_rank (m ∷ models) in
      let by_size =
        hetero_lora_weighted_avg in_key b_of t_ops.zeros t_ops.scale t_ops.add max_rank w
          (m ∷ models) in
      (
        some max_rank,
        (if by_sparsity then by_norms else by_size) >>= finish_aggregate w max_rank (m ∷ models),
      )
