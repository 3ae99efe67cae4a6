-- ===== src/Hetero/Unchecked.antt =====
-- The sums of federatedscope/core/aggregators/heterolora_aggregator.py without the errors of torch,
-- which they equal where the tensors fit.
use Prim.Native.String.{String}
use fed_lo_ra_public.Prelude.{
  ℕ, List, [], ◌∷◌, length, none, some, if◌then◌else◌, ◌==◌, Dict, lookup, insert, min, Bool,
}
use fed_lo_ra_public.Hetero.Keys.{Key, key_eq}
use fed_lo_ra_public.Hetero.Distribute.{Tensor, Value, Weights}
use fed_lo_ra_public.Hetero.Aggregate.{
  both_tensors, add_rows, capped_rank, lora_pairs, valid_pairs, initial,
}

module _ {Row Float : Type 0} (scale : Row → Float → Row) (add : Row → Row → Row) where
  unfoldable pub added : ℕ → Float → Tensor Row → Tensor Row → Tensor Row
  added n weight local t = record {
    features = t.features;
    components = add_rows scale add n weight local.components t.components;
  }

  unfoldable pub added_at : Key → ℕ → Float → Tensor Row → Weights Row → Weights Row
  added_at key n weight local aggregated = elim (lookup key aggregated) [
    | none ↦ aggregated
    | some t ↦ insert key (added n weight local t) aggregated
  ]

  module _ (max_rank : ℕ) where
    unfoldable pub added_pair : Float → Dict Key (Value Row) → Key → Key → Weights Row → Weights Row
    added_pair weight local_model a_key b_key aggregated =
        elim (both_tensors a_key b_key local_model) [
          | none ↦ aggregated
          | some ab ↦
              if min (length ab.0.components) (length ab.1.components) == 0
              then aggregated
              else added_at b_key (capped_rank max_rank ab.0 ab.1) weight ab.1
                  (added_at a_key (capped_rank max_rank ab.0 ab.1) weight ab.0 aggregated)
        ]

    unfoldable pub added_pairs :
        Float → Dict Key (Value Row) → List (Key × Key) → Weights Row → Weights Row
    added_pairs weight local_model [] aggregated = aggregated
    added_pairs weight local_model ((a_key, b_key) ∷ pairs) aggregated =
        added_pairs weight local_model pairs (added_pair weight local_model a_key b_key aggregated)

    unfoldable pub added_models :
        List (Key × Key) → List (Float × Dict Key (Value Row)) → Weights Row → Weights Row
    added_models pairs [] aggregated = aggregated
    added_models pairs ((weight, local_model) ∷ models) aggregated =
        added_models pairs models (added_pairs weight local_model pairs aggregated)

    unfoldable pub added_sums :
        (String → Key → Bool)
        → (Key → Key)
        → (ℕ → Row)
        → List (Float × Dict Key (Value Row))
        → Dict Key (Value Row)
        → Weights Row
    added_sums in_key b_of zeros weighted reference_model =
        let pairs = lora_pairs in_key b_of reference_model reference_model in
        added_models (valid_pairs reference_model pairs) weighted
          (initial zeros max_rank reference_model pairs [])
