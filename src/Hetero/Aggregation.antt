-- ===== src/Hetero/Aggregation.antt =====
-- What federatedscope/core/aggregators/heterolora_aggregator.py aggregates.
use Prim.Native.String.{String}
use fed_lo_ra_public.Prelude.{
  ◌+◌, ℕ, Bool, true, false, ◌≡◌, ◌<◌, refl, ap, ◌∙◌, List, [], ◌∷◌, map, sum, length, get_elem?,
  Option, none, some, ◌==◌, ◌||◌, if◌then◌else◌, Dict, lookup, lookup_all, Elem, Distinct, ok,
  raise, ◌>>=◌, runtime_error,
}
use fed_lo_ra_public.Hetero.Keys.{Key, key_eq}
use fed_lo_ra_public.Hetero.Distribute.{Tensor, Value, Weights}
use fed_lo_ra_public.Hetero.Aggregate.{
  both_tensors, lora_pairs, valid_pairs, zero_tensor, zero_rows, initial,
}
use fed_lo_ra_public.Hetero.Average.{
  Weighting, Feedback, training_set_size, weigh, weighted_sums, hetero_lora_weighted_avg,
  verify_and_fix_shapes, current_max_rank, aggregate,
}
use fed_lo_ra_public.Hetero.Unchecked.{added_sums}
use fed_lo_ra_public.Hetero.Averaging.{pair_keys, own_sum, added_models-own}
use fed_lo_ra_public.Hetero.Initial.{valid-Elem, valid-Distinct, valid-Both, initial-own}
use fed_lo_ra_public.Hetero.Found.{IsPair, found}
use fed_lo_ra_public.Hetero.Shapes.{
  length-zero_rows, IsShaped, initial-IsShaped, verify-IsShaped, added_models-IsShaped,
  zero_rows-at,
}
use fed_lo_ra_public.Hetero.Totals.{all_fit, row_total, own_sum-row}
use fed_lo_ra_public.Hetero.Checked.{shape, checked, add_models-checked, make-IsFeatured}

-- The weights of the clients by their sizes: 1 / n each where weights are ignored or no client has
-- data, and else the client's share of all the data.
abbrev pub by_share :
    {Row Float : Type 0} → Weighting Float → Feedback Row → List (Float × Dict Key (Value Row))
by_share w feedback =
    let all = sum (map (λ m. m.0) feedback) in
    map
      (λ m. (
        (if w.ignore_weight || (all == 0) then w.uniform (length feedback) else w.share m.0 all),
        m.1,
      ))
      feedback

-- The tensor under a key of the result: max_rank rows, each the total of the clients' rows.
abbrev pub IsTotal :
    {Row Float : Type 0}
    → (ℕ → Row)
    → (Row → Float → Row)
    → (Row → Row → Row)
    → ℕ
    → List (Float × Dict Key (Value Row))
    → Key
    → Key
    → Bool
    → ℕ
    → Weights Row
    → Type 0
IsTotal {Row} zeros scale add max_rank weighted a b side features result =
    (t : Tensor Row) × (lookup (if side then a else b) result ≡ some t)
    × (length t.components ≡ max_rank)
    × ((j : ℕ)
        → j < max_rank
        → get_elem? t.components j
          ≡ some (row_total scale add side j a b (zeros features) weighted))

sizes_lem :
    {Row : Type 0} (feedback : Feedback Row)
    → training_set_size feedback ≡ sum (map (λ m. m.0) feedback)
unfolding training_set_size
sizes_lem [] = refl
sizes_lem ((size, model) ∷ feedback) = ap (λ n. size + n) (sizes_lem feedback)

weigh_lem :
    {Row Float : Type 0} (w : Weighting Float) (total n : ℕ) (feedback : Feedback Row)
    → weigh w total n feedback
      ≡ map
          (λ m. ((if w.ignore_weight || (total == 0) then w.uniform n else w.share m.0 total), m.1))
          feedback
unfolding weigh
weigh_lem w total n [] = refl
weigh_lem w total n ((size, model) ∷ feedback) =
    ap
      (λ rest.
        ((if w.ignore_weight || (total == 0) then w.uniform n else w.share size total), model)
        ∷ rest)
      (weigh_lem w total n feedback)

pub by_share_lem :
    {Row Float : Type 0} (w : Weighting Float) (feedback : Feedback Row)
    → weigh w (training_set_size feedback) (length feedback) feedback ≡ by_share w feedback
by_share_lem w feedback =
    weigh_lem w (training_set_size feedback) (length feedback) feedback
    ∙ ap
        (λ all.
          map
            (λ m. (
              (if w.ignore_weight || (all == 0)
                  then w.uniform (length feedback)
                  else w.share m.0 all),
              m.1,
            ))
            feedback)
        (sizes_lem feedback)

module _ {Row Float : Type 0} (in_key : String → Key → Bool) (b_of : Key → Key) (zeros : ℕ → Row)
    (scale : Row → Float → Row) (add : Row → Row → Row) where
  pub added_sums-IsShaped :
      (max_rank : ℕ) (weighted : List (Float × Dict Key (Value Row)))
      (reference : Dict Key (Value Row))
      → IsShaped max_rank (added_sums scale add max_rank in_key b_of zeros weighted reference)
  unfolding added_sums
  added_sums-IsShaped max_rank weighted reference =
      let pairs = lora_pairs in_key b_of reference reference in
      added_models-IsShaped max_rank scale add (valid_pairs reference pairs) weighted
        (initial zeros max_rank reference pairs [])
        (initial-IsShaped max_rank zeros reference pairs [] tt)

  pub added_sums-own :
      (max_rank : ℕ) (weighted : List (Float × Dict Key (Value Row)))
      (reference : Dict Key (Value Row)) (a b : Key) (ab : Tensor Row × Tensor Row)
      → Distinct (pair_keys (lora_pairs in_key b_of reference reference))
      → Elem (a, b) (lora_pairs in_key b_of reference reference)
      → both_tensors a b reference ≡ some ab
      → let result = added_sums scale add max_rank in_key b_of zeros weighted reference in
        (lookup a result
          ≡ some (
              own_sum scale add max_rank true a b weighted
                (zero_tensor zeros max_rank ab.0.features)))
        × (lookup b result
            ≡ some (
                own_sum scale add max_rank false a b weighted
                  (zero_tensor zeros max_rank ab.1.features)))
  unfolding added_sums
  added_sums-own max_rank weighted reference a b ab distinct m both =
      let pairs = lora_pairs in_key b_of reference reference in
      let start = initial zeros max_rank reference pairs [] in
      let (fa, fb) = initial-own reference zeros max_rank pairs a b ab [] distinct m both in
      added_models-own scale add max_rank weighted (valid_pairs reference pairs) a b start
        (zero_tensor zeros max_rank ab.0.features) (zero_tensor zeros max_rank ab.1.features)
        (valid-Distinct reference pairs distinct) (valid-Elem reference pairs a b ab m both) fa fb

  -- Where the clients' tensors fit, the sums are made without an error.
  pub weighted_sums-checked :
      (max_rank : ℕ) (weighted : List (Float × Dict Key (Value Row)))
      (reference : Dict Key (Value Row))
      → let pairs = lora_pairs in_key b_of reference reference in
        Distinct (pair_keys pairs)
        → weighted_sums in_key b_of zeros scale add max_rank weighted reference
          ≡ checked
              (all_fit reference (valid_pairs reference pairs) weighted)
              (added_sums scale add max_rank in_key b_of zeros weighted reference)
  unfolding weighted_sums added_sums zero_tensor
  weighted_sums-checked max_rank weighted reference distinct =
      let pairs = lora_pairs in_key b_of reference reference in
      let start = initial zeros max_rank reference pairs [] in
      add_models-checked scale add max_rank reference (valid_pairs reference pairs) weighted start (
        make-IsFeatured scale add max_rank reference (valid_pairs reference pairs) start (λ a b m.
          let (listed, (ab, both)) = valid-Both reference pairs a b m in
          let (fa, fb) =
            initial-own reference zeros max_rank pairs a b ab [] distinct listed both in
          let shape_of = λ (o : Option (Tensor Row)). elim o as (λ x. Option (ℕ × ℕ)) [
            | none ↦ none
            | some t ↦ some (shape t)
          ] in
          let size : (n : ℕ) → length (zero_rows zeros max_rank n) ≡ max_rank =
            length-zero_rows max_rank zeros max_rank in
          (
            ab,
            both,
            ap shape_of fa ∙ ap (λ n. some (ab.0.features, n)) (size ab.0.features),
            ap shape_of fb ∙ ap (λ n. some (ab.1.features, n)) (size ab.1.features),
          )))

  pub added_sums-IsTotal :
      (max_rank : ℕ) (weighted : List (Float × Dict Key (Value Row)))
      (reference : Dict Key (Value Row)) (a b : Key) (ab : Tensor Row × Tensor Row)
      → Distinct (pair_keys (lora_pairs in_key b_of reference reference))
      → Elem (a, b) (lora_pairs in_key b_of reference reference)
      → both_tensors a b reference ≡ some ab
      → let result = added_sums scale add max_rank in_key b_of zeros weighted reference in
        IsTotal zeros scale add max_rank weighted a b true ab.0.features result
        × IsTotal zeros scale add max_rank weighted a b false ab.1.features result
  unfolding zero_tensor
  added_sums-IsTotal max_rank weighted reference a b ab distinct m both =
      let result = added_sums scale add max_rank in_key b_of zeros weighted reference in
      let shaped = added_sums-IsShaped max_rank weighted reference in
      let (fa, fb) = added_sums-own max_rank weighted reference a b ab distinct m both in
      let size : (key : Key) (t : Tensor Row)
          → lookup key result ≡ some t
          → length t.components ≡ max_rank =
        λ key t found.
          lookup_all (λ k (u : Tensor Row). length u.components ≡ max_rank) result key t shaped
            found in
      let row : (side : Bool) (features j : ℕ)
          → j < max_rank
          → get_elem?
              (own_sum scale add max_rank side a b weighted
                (zero_tensor zeros max_rank features)).components
              j
            ≡ some (row_total scale add side j a b (zeros features) weighted) =
        λ side features j below.
          own_sum-row scale add max_rank side j a b weighted (zero_tensor zeros max_rank features)
            (zeros features) below (zero_rows-at max_rank zeros max_rank features j below) in
      (
        (
          own_sum scale add max_rank true a b weighted (zero_tensor zeros max_rank ab.0.features),
          fa,
          size a _ fa,
          row true ab.0.features,
        ),
        (
          own_sum scale add max_rank false a b weighted (zero_tensor zeros max_rank ab.1.features),
          fb,
          size b _ fb,
          row false ab.1.features,
        ),
      )

  -- The checks of the shapes change nothing.
  pub verify-checked :
      (max_rank : ℕ) (fit : Bool) (weighted : List (Float × Dict Key (Value Row)))
      (reference : Dict Key (Value Row))
      → let sums = added_sums scale add max_rank in_key b_of zeros weighted reference in
        (checked fit sums >>= λ s. ok (verify_and_fix_shapes in_key zeros max_rank s))
        ≡ checked fit sums
  verify-checked max_rank true weighted reference = ap ok (
      verify-IsShaped max_rank zeros in_key
        (added_sums scale add max_rank in_key b_of zeros weighted reference)
        (added_sums-IsShaped max_rank weighted reference))
  verify-checked max_rank false weighted reference = refl

  pub average-checked :
      (max_rank : ℕ) (w : Weighting Float) (size : ℕ) (reference : Dict Key (Value Row))
      (models : Feedback Row)
      → let pairs = lora_pairs in_key b_of reference reference in
        let weighted = by_share w ((size, reference) ∷ models) in
        Distinct (pair_keys pairs)
        → hetero_lora_weighted_avg in_key b_of zeros scale add max_rank w
            ((size, reference) ∷ models)
          ≡ checked
              (all_fit reference (valid_pairs reference pairs) weighted)
              (added_sums scale add max_rank in_key b_of zeros weighted reference)
  unfolding hetero_lora_weighted_avg
  average-checked max_rank w size reference models distinct =
      let feedback : Feedback Row = (size, reference) ∷ models in
      let weighted = by_share w feedback in
      let verify = λ (s : Weights Row). ok (verify_and_fix_shapes in_key zeros max_rank s) in
      ap (λ ws. weighted_sums in_key b_of zeros scale add max_rank ws reference >>= verify)
        (by_share_lem w feedback)
      ∙ ap (λ r. r >>= verify) (weighted_sums-checked max_rank weighted reference distinct)
      ∙ verify-checked max_rank
          (all_fit reference (valid_pairs reference (lora_pairs in_key b_of reference reference))
            weighted)
          weighted reference

  -- For a lora_A of the first client's model and its partner, both of them tensors, where the keys of
  -- the pairs are distinct. Where
  -- the tensors of every client fit those of the first in their other dimension, the aggregate has
  -- max_rank rows under both keys: row j is the sum, from zeros, over the clients that have a row j in
  -- both tensors, of that row times the client's weight, its share of the data, or 1 / n where weights
  -- are ignored or there is no data. Where some do not fit, torch's error is raised.
  pub aggregate_lem :
      (own configured : Option ℕ) (w : Weighting Float) (size : ℕ)
      (reference : Dict Key (Value Row)) (models : Feedback Row) (a b : Key)
      (ab : Tensor Row × Tensor Row)
      → Distinct (pair_keys (lora_pairs in_key b_of reference reference))
      → IsPair in_key b_of reference a b ab
      → let max_rank = current_max_rank own configured in
        let feedback : Feedback Row = (size, reference) ∷ models in
        let weighted = by_share w feedback in
        let pairs = valid_pairs reference (lora_pairs in_key b_of reference reference) in
        let outcome = (aggregate in_key b_of zeros scale add own configured w feedback).1 in
        (all_fit reference pairs weighted ≡ true
          → (result : Weights Row) × (outcome ≡ ok result)
            × IsTotal zeros scale add max_rank weighted a b true ab.0.features result
            × IsTotal zeros scale add max_rank weighted a b false ab.1.features result)
        × (all_fit reference pairs weighted ≡ false → outcome ≡ raise runtime_error)
  unfolding aggregate
  aggregate_lem own configured w size reference models a b ab distinct pair =
      let (m, both) = found in_key b_of reference a b ab pair in
      let max_rank = current_max_rank own configured in
      let feedback : Feedback Row = (size, reference) ∷ models in
      let weighted = by_share w feedback in
      let fit =
        all_fit reference (valid_pairs reference (lora_pairs in_key b_of reference reference))
          weighted in
      let sums = added_sums scale add max_rank in_key b_of zeros weighted reference in
      let (total_a, total_b) =
        added_sums-IsTotal max_rank weighted reference a b ab distinct m both in
      let verify = λ (s : Weights Row). ok (verify_and_fix_shapes in_key zeros max_rank s) in
      let made =
        ap (λ r. r >>= verify) (average-checked max_rank w size reference models distinct)
        ∙ verify-checked max_rank fit weighted reference in
      (
        λ good. (sums, made ∙ ap (λ p. checked p sums) good, total_a, total_b),
        λ bad. made ∙ ap (λ p. checked p sums) bad,
      )
