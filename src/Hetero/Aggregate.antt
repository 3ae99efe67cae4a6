-- ===== src/Hetero/Aggregate.antt =====
-- federatedscope/core/aggregators/heterolora_aggregator.py. A value of a client's state dict is what
-- param2tensor makes of it. `scale` multiplies a component by a weight, `add` adds two components,
-- `zeros` is the component of zeros of a size, and `b_of` is key.replace('lora_A', 'lora_B').
use Prim.Native.String.{String}
use fed_lo_ra_public.Prelude.{
  ℕ, zero, suc, Bool, ◌&&◌, not, List, [], ◌∷◌, length, Option, none, some, if◌then◌else◌, ◌==◌,
  Dict, ◌||◌, Result, ok, raise, ◌>>=◌, runtime_error, key_error, lookup, has_key, insert, min,
}
use fed_lo_ra_public.Hetero.Keys.{Key, key_eq}
use fed_lo_ra_public.Hetero.Distribute.{Tensor, Value, tensor, other, Weights}

-- Both values of a pair, when both are tensors.
unfoldable pub both_tensors :
    {Row : Type 0} → Key → Key → Dict Key (Value Row) → Option (Tensor Row × Tensor Row)
both_tensors a_key b_key model = elim (lookup a_key model) [
  | none ↦ none
  | some other ↦ none
  | some (tensor a) ↦ elim (lookup b_key model) [
    | none ↦ none
    | some other ↦ none
    | some (tensor b) ↦ some (a, b)
  ]
]

module _ {Row : Type 0} (in_key : String → Key → Bool) (b_of : Key → Key) where
  -- The pairs of an A and a B among the keys of the first client's model.
  unfoldable pub lora_pairs : Dict Key (Value Row) → Dict Key (Value Row) → List (Key × Key)
  lora_pairs reference_model [] = []
  lora_pairs reference_model ((key, v) ∷ rest) =
      let pairs = lora_pairs reference_model rest in
      if (in_key "lora_A" key && not (in_key "lora_B" key)) && has_key (b_of key) reference_model
      then (key, b_of key) ∷ pairs
      else pairs

-- The pairs of which both reference values are tensors.
unfoldable pub valid_pairs :
    {Row : Type 0} → Dict Key (Value Row) → List (Key × Key) → List (Key × Key)
valid_pairs reference_model [] = []
valid_pairs reference_model ((a_key, b_key) ∷ pairs) =
    elim (both_tensors a_key b_key reference_model) [
      | none ↦ valid_pairs reference_model pairs
      | some ab ↦ (a_key, b_key) ∷ valid_pairs reference_model pairs
    ]

unfoldable pub zero_rows : {Row : Type 0} → (ℕ → Row) → ℕ → ℕ → List Row
zero_rows zeros zero features = []
zero_rows zeros (suc n) features = zeros features ∷ zero_rows zeros n features

module _ {Row : Type 0} (zeros : ℕ → Row) (max_rank : ℕ) where
  -- torch.zeros(max_rank, features)
  unfoldable pub zero_tensor : ℕ → Tensor Row
  zero_tensor features = record {
    features = features;
    components = zero_rows zeros max_rank features;
  }

  unfoldable pub initial : Dict Key (Value Row) → List (Key × Key) → Weights Row → Weights Row
  initial reference_model [] aggregated = aggregated
  initial reference_model ((a_key, b_key) ∷ pairs) aggregated =
      elim (both_tensors a_key b_key reference_model) [
        | none ↦ initial reference_model pairs aggregated
        | some ab ↦ initial reference_model pairs (
            insert b_key (zero_tensor ab.1.features)
              (insert a_key (zero_tensor ab.0.features) aggregated))
      ]

-- The rank that a pair is added at.
unfoldable pub capped_rank : {Row : Type 0} → ℕ → Tensor Row → Tensor Row → ℕ
capped_rank max_rank a b = min (min (length a.components) (length b.components)) max_rank

-- Torch adds a dimension of the same size, and one of size 1 to any.
unfoldable pub fits : ℕ → ℕ → Bool
fits local_features features = (local_features == features) || (local_features == 1)

module _ {Row Float : Type 0} (scale : Row → Float → Row) (add : Row → Row → Row) where
  -- rows[:n] += local[:n] * weight
  unfoldable pub add_rows : ℕ → Float → List Row → List Row → List Row
  add_rows zero weight local rows = rows
  add_rows (suc n) weight local [] = []
  add_rows (suc n) weight [] (row ∷ rows) = row ∷ rows
  add_rows (suc n) weight (x ∷ local) (row ∷ rows) =
      add row (scale x weight) ∷ add_rows n weight local rows

  unfoldable pub add_tensor : ℕ → Float → Tensor Row → Tensor Row → Result (Tensor Row)
  add_tensor n weight local t =
      if fits local.features t.features
        && fits (min n (length local.components)) (min n (length t.components))
      then ok (record {
        features = t.features;
        components = add_rows n weight local.components t.components;
      })
      else raise runtime_error

  unfoldable pub add_at : Key → ℕ → Float → Tensor Row → Weights Row → Result (Weights Row)
  add_at key n weight local aggregated = elim (lookup key aggregated) [
    | none ↦ raise key_error
    | some t ↦ add_tensor n weight local t >>= λ u. ok (insert key u aggregated)
  ]

  module _ (max_rank : ℕ) where
    unfoldable pub add_pair :
        Float → Dict Key (Value Row) → Key → Key → Weights Row → Result (Weights Row)
    add_pair weight local_model a_key b_key aggregated =
        elim (both_tensors a_key b_key local_model) [
          | none ↦ ok aggregated
          | some ab ↦
              if min (length ab.0.components) (length ab.1.components) == 0
              then ok aggregated
              else add_at a_key (capped_rank max_rank ab.0 ab.1) weight ab.0 aggregated
                >>= add_at b_key (capped_rank max_rank ab.0 ab.1) weight ab.1
        ]

    unfoldable pub add_pairs :
        Float → Dict Key (Value Row) → List (Key × Key) → Weights Row → Result (Weights Row)
    add_pairs weight local_model [] aggregated = ok aggregated
    add_pairs weight local_model ((a_key, b_key) ∷ pairs) aggregated =
        add_pair weight local_model a_key b_key aggregated >>= add_pairs weight local_model pairs

    unfoldable pub add_models :
        List (Key × Key) → List (Float × Dict Key (Value Row)) → Weights Row → Result (Weights Row)
    add_models pairs [] aggregated = ok aggregated
    add_models pairs ((weight, local_model) ∷ models) aggregated =
        add_pairs weight local_model pairs aggregated >>= add_models pairs models
