-- ===== src/AdaSparse/Tests.antt =====
-- The index operations of federatedscope/contrib/common/adasparse_lora_utils.py and the pruning of
-- federatedscope/contrib/worker/methods/adasparse_lora_client.py on concrete components.
use Prim.Native.String.{String}
use fed_lo_ra_public.Prelude.{
  ℤ, pos, negsuc, ℕ, ◌+◌, ◌-◌, ◌*◌, ◌/◌, ◌<◌, ◌≤◌, ◌≡◌, ◌⊎◌, ◌↔◌, refl, true, List, [], ◌∷◌, map,
  sum, length, arith, ltb, false, none, some, Dict, nat_eq, lookup, lookup_or, Elem, Distinct, All,
  ok, raise, value_error,
}
use fed_lo_ra_public.Prelude.Floats.{FloatOps}
use fed_lo_ra_public.AdaSparse.Indices.{
  Part, lora_a, lora_b, contains, validate_indices, validate_subset, get_item, index_select,
}
use fed_lo_ra_public.AdaSparse.Client.{
  Client, decreased, global_indices, pruned_indices, record_lowset_before, prune_and_prepare_upload,
}
use fed_lo_ra_public.AdaSparse.Exact.{prune_exact_lem}
use fed_lo_ra_public.AdaSparse.Pruning.{IsPruned, prune_round_lem}
use fed_lo_ra_public.AdaSparse.Expand.{
  zeros, place, expand_client_update_to_global, distribute_weights_by_indices,
}
use fed_lo_ra_public.AdaSparse.Placing.{place_lem}
use fed_lo_ra_public.AdaSparse.GlobalRoundTrip.{distributed, distribute-expand}
use fed_lo_ra_public.AdaSparse.Budget.{greedy_select_by_score_cost_ratio}
use fed_lo_ra_public.AdaSparse.Select.{greedy_select_lem}
use fed_lo_ra_public.AdaSparse.Validation.{IsIndex, validate_indices_iff, validate_subset_iff}

abbrev nat_ops : FloatOps
nat_ops = record {
  Float = ℕ;
  of_nat = λ n. n;
  add = λ a b. a + b;
  sub = λ a b. a - b;
  mul = λ a b. a * b;
  div = λ a b. a / b;
  lt = ltb;
  round_nat = λ n. n;
}

abbrev three : List ℕ
three = 4 ∷ 1 ∷ 6 ∷ []

three-Distinct : Distinct three
three-Distinct = (λ m. ground (arith, m), (λ m. ground (arith, m), (λ m. m, tt)))

-- The places in their order, which is an order of the scores 1, 2, 3.
abbrev first_places : List ℕ → List ℕ
first_places xs = 0 ∷ 1 ∷ 2 ∷ []

abbrev client : Client nat_ops ℕ ℕ first_places
client = record {
  enabled = true;
  pruning_enabled = true;
  rank_min = 1;
  decay = λ r. 1;
  indices_current = three;
  low_positions_before = none;
  scores_before_low = [];
  indices_before = none;
}

abbrev update : List (String × Part ℕ ℕ)
update = ("q.lora_A", lora_a (40 ∷ 10 ∷ 60 ∷ [])) ∷ ("q.lora_B", lora_b (41 ∷ 11 ∷ 61 ∷ [])) ∷ []

prune_round_lem_example : IsPruned nat_ops ℕ ℕ first_places client update (
    prune_and_prepare_upload nat_ops ℕ ℕ first_places
      (record_lowset_before nat_ops ℕ ℕ first_places client (ok (1 ∷ 2 ∷ 3 ∷ [])))
      update
      (ok (0 ∷ 5 ∷ 3 ∷ [])))
prune_round_lem_example =
    prune_round_lem nat_ops ℕ ℕ first_places client update (ok (1 ∷ 2 ∷ 3 ∷ []))
      (ok (0 ∷ 5 ∷ 3 ∷ [])) three-Distinct

below_eight : All (λ g. g < 8) three
below_eight = (omega arith, (omega arith, (omega arith, tt)))

place_lem_example :
    (out : List ℕ) × (place (zeros 0 8) three (40 ∷ 10 ∷ 60 ∷ []) ≡ ok out)
    × (length out ≡ 8)
    × (index_select out three ≡ ok (40 ∷ 10 ∷ 60 ∷ []))
    × ((k : ℕ) → k < 8 → (Elem k three → ⊥) → get_item out k ≡ ok 0)
place_lem_example = place_lem 0 8 three (40 ∷ 10 ∷ 60 ∷ []) three-Distinct below_eight refl

distribute-expand_example :
    (global_ : List (String × Part ℕ ℕ)) × (expand_client_update_to_global
        (λ rows. 0)
        update
        three
        8
      ≡ ok global_)
    × (distribute_weights_by_indices (λ key rank. key) global_ three 8
        ≡ ok (distributed (λ key. key) update))
distribute-expand_example =
    distribute-expand (λ rows. 0) three 8 three-Distinct below_eight (λ key rank. key) update
      (omega arith) (refl, (refl, tt))

abbrev costs : Dict ℕ ℕ
costs = (4, 5) ∷ (1, 3) ∷ (6, 9) ∷ []

abbrev scores : Dict ℕ ℕ
scores = (4, 50) ∷ (1, 12) ∷ (6, 90) ∷ []

greedy_select_lem_example :
    (sum (
        map
          (λ g. lookup_or 1 g costs)
          (greedy_select_by_score_cost_ratio nat_ops 1000 scores costs 10 three))
      ≤ 10)
    × ((k : ℕ)
        → Elem k (greedy_select_by_score_cost_ratio nat_ops 1000 scores costs 10 three)
        → Elem k three)
    × ((k : ℕ)
        → Elem k three
        → Elem k (greedy_select_by_score_cost_ratio nat_ops 1000 scores costs 10 three)
          ⊎ (10
              < sum (
                  map
                    (λ g. lookup_or 1 g costs)
                    (greedy_select_by_score_cost_ratio nat_ops 1000 scores costs 10 three))
                + lookup_or 1 k costs)
          ⊎ ◌≡◌ {A = ℕ} 10 0)
greedy_select_lem_example = greedy_select_lem nat_ops 1000 scores costs 10 three

-- 3 and -1
abbrev mixed : List ℤ
mixed = pos 3 ∷ negsuc 0 ∷ []

validate_indices_iff_example :
    ((validate_indices mixed 8 ≡ ok true) ↔ Distinct mixed × All (IsIndex 8) mixed)
    × ((validate_indices mixed 8 ≡ ok true) ⊎ (validate_indices mixed 8 ≡ raise value_error))
validate_indices_iff_example = validate_indices_iff mixed 8

validate_subset_iff_example :
    ((validate_subset (1 ∷ 2 ∷ []) three ≡ ok true) ↔ All (λ i. Elem i three) (1 ∷ 2 ∷ []))
    × ((validate_subset (1 ∷ 2 ∷ []) three ≡ ok true)
        ⊎ (validate_subset (1 ∷ 2 ∷ []) three ≡ raise value_error))
validate_subset_iff_example = validate_subset_iff (1 ∷ 2 ∷ []) three

-- The client after its scores were recorded, with the first component as the candidate.
abbrev recorded_client : Client nat_ops ℕ ℕ first_places
recorded_client = record client {
  low_positions_before = some (0 ∷ []);
  scores_before_low = (0, 1) ∷ [];
  indices_before = some three;
}

prune_exact_lem_example :
    Elem 1
      (prune_and_prepare_upload nat_ops ℕ ℕ first_places recorded_client update
        (ok (0 ∷ 5 ∷ 3 ∷ []))).0.indices_current
    ↔ Elem 1 three
      × (contains 1 (
            pruned_indices nat_ops ℕ ℕ first_places recorded_client (0 ∷ []) three (0 ∷ 5 ∷ 3 ∷ []))
          ≡ false)
prune_exact_lem_example =
    prune_exact_lem nat_ops ℕ ℕ first_places recorded_client update 0 [] 0 (5 ∷ 3 ∷ []) refl refl
      refl (refl, (refl, tt)) 1

first_pruned :
    pruned_indices nat_ops ℕ ℕ first_places recorded_client (0 ∷ []) three (0 ∷ 5 ∷ 3 ∷ []) ≡ 4 ∷ []
unfolding pruned_indices global_indices decreased get_item lookup
first_pruned = refl
