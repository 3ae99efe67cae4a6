-- ===== src/Hetero/Average.antt =====
-- The weighted average of federatedscope/core/aggregators/heterolora_aggregator.py as a whole, from
-- the clients' models to the tensors of max_rank components. The floats are parameters: `uniform` is
-- 1.0 / len(models), and `share` is local_sample_size / training_set_size.
use Prim.Native.String.{String}
use fed_lo_ra_public.Prelude.{
  ℕ, Bool, ◌||◌, List, [], ◌∷◌, length, take, ◌++◌, drop, Option, none, some, if◌then◌else◌, ltb,
  ◌==◌, Dict, ◌+◌, Result, ok, ◌>>=◌,
}
use fed_lo_ra_public.Hetero.Keys.{Key, key_eq, is_lora}
use fed_lo_ra_public.Hetero.Distribute.{Tensor, Value, Weights}
use fed_lo_ra_public.Hetero.Aggregate.{lora_pairs, valid_pairs, zero_rows, initial, add_models}

pub record Weighting (Float : Type 0) : Type 0 where
  pub ignore_weight : Bool
  pub uniform : ℕ → Float
  pub share : ℕ → ℕ → Float

-- What a client sends back: the size of its data and its model.
abbrev pub Feedback : Type 0 → Type 0
Feedback Row = List (ℕ × Dict Key (Value Row))

unfoldable pub training_set_size : {Row : Type 0} → Feedback Row → ℕ
training_set_size [] = 0
training_set_size ((sample_size, model) ∷ models) = sample_size + training_set_size models

-- A tensor of another size than max_rank is cut or padded with zeros.
unfoldable pub fix_shape : {Row : Type 0} → (ℕ → Row) → ℕ → Tensor Row → Tensor Row
fix_shape zeros max_rank t =
    if length t.components == max_rank
    then t
    else if ltb (length t.components) max_rank
    then record t {
      components = t.components ++ drop (length t.components) (zero_rows zeros max_rank t.features);
    }
    else record t { components = take max_rank t.components }

unfoldable pub verify_and_fix_shapes :
    {Row : Type 0} → (String → Key → Bool) → (ℕ → Row) → ℕ → Weights Row → Weights Row
verify_and_fix_shapes in_key zeros max_rank [] = []
verify_and_fix_shapes in_key zeros max_rank ((key, t) ∷ result) =
    (key, if is_lora in_key key then fix_shape zeros max_rank t else t)
    ∷ verify_and_fix_shapes in_key zeros max_rank result

module _ {Row Float : Type 0} where
  unfoldable pub weigh :
      Weighting Float → ℕ → ℕ → Feedback Row → List (Float × Dict Key (Value Row))
  weigh w total n [] = []
  weigh w total n ((sample_size, model) ∷ models) =
      ((if w.ignore_weight || (total == 0) then w.uniform n else w.share sample_size total), model)
      ∷ weigh w total n models

  module _ (in_key : String → Key → Bool) (b_of : Key → Key) (zeros : ℕ → Row)
      (scale : Row → Float → Row) (add : Row → Row → Row) (max_rank : ℕ) where
    -- The sums over the pairs of the first model, with no result if there is none.
    unfoldable pub weighted_sums :
        List (Float × Dict Key (Value Row)) → Dict Key (Value Row) → Result (Weights Row)
    weighted_sums weighted reference_model =
        let pairs = lora_pairs in_key b_of reference_model reference_model in
        add_models scale add max_rank (valid_pairs reference_model pairs) weighted
          (initial zeros max_rank reference_model pairs [])

    unfoldable pub hetero_lora_weighted_avg : Weighting Float → Feedback Row → Result (Weights Row)
    hetero_lora_weighted_avg w [] = ok []
    hetero_lora_weighted_avg w ((sample_size, reference_model) ∷ models) =
        let all_models = (sample_size, reference_model) ∷ models in
        weighted_sums (weigh w (training_set_size all_models) (length all_models) all_models)
          reference_model
        >>= λ sums. ok (verify_and_fix_shapes in_key zeros max_rank sums)

-- The rank that an aggregation runs at, from the aggregator's and the configuration's.
unfoldable pub current_max_rank : Option ℕ → Option ℕ → ℕ
current_max_rank own none = elim own [ none ↦ 64 | some r ↦ if r == 0 then 64 else r ]
current_max_rank own (some r) = if r == 0 then 64 else r

-- `aggregate`: the new max_rank of the aggregator, and the result or the error of torch.
unfoldable pub aggregate :
    {Row Float : Type 0}
    → (String → Key → Bool)
    → (Key → Key)
    → (ℕ → Row)
    → (Row → Float → Row)
    → (Row → Row → Row)
    → Option ℕ
    → Option ℕ
    → Weighting Float
    → Feedback Row
    → Option ℕ × Result (Weights Row)
aggregate in_key b_of zeros scale add own configured w [] = (own, ok [])
aggregate in_key b_of zeros scale add own configured w (m ∷ models) =
    let max_rank = current_max_rank own configured in
    let result = hetero_lora_weighted_avg in_key b_of zeros scale add max_rank w (m ∷ models) in
    (some max_rank, result >>= λ r. ok (verify_and_fix_shapes in_key zeros max_rank r))
