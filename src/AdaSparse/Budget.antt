-- ===== src/AdaSparse/Budget.antt =====
-- federatedscope/contrib/common/adasparse_lora_utils.py: the upload of AdaSparse-LoRAv2 under a budget
-- of bits: the costs of the components, the selection, and the residuals of what is not sent. Bits
-- are natural numbers: budgets and costs are taken in whole bits, and a budget that is not positive is
-- 0.
use Prim.Native.String.{String}
use fed_lo_ra_public.Prelude.{
  ℕ, ◌+◌, ◌-◌, ◌*◌, List, [], ◌∷◌, leb, ltb, ◌==◌, Dict, nat_eq, lookup_or, insert, if◌then◌else◌,
}
use fed_lo_ra_public.Prelude.Floats.{FloatOps}
use fed_lo_ra_public.AdaSparse.Indices.{Part, lora_a, lora_b, other, contains}

-- {gidx: cost for gidx in survivor_indices}
unfoldable pub costs_of : ℕ → List ℕ → Dict ℕ ℕ → Dict ℕ ℕ
costs_of cost [] d = d
costs_of cost (g ∷ gs) d = costs_of cost gs (insert g cost d)

module _ {Row Other : Type 0} where
  -- `width key part` is the number of parameters of a component of a tensor, shape[1] of an A and
  -- shape[0] of a B.
  unfoldable pub params_per_component :
      (String → Part Row Other → ℕ) → List (String × Part Row Other) → ℕ
  params_per_component width [] = 0
  params_per_component width ((key, lora_a rows) ∷ rest) =
      width key (lora_a rows) + params_per_component width rest
  params_per_component width ((key, lora_b cols) ∷ rest) =
      width key (lora_b cols) + params_per_component width rest
  params_per_component width ((key, other o) ∷ rest) = params_per_component width rest

  -- `compute_component_upload_cost` and `compute_component_downlink_cost`.
  unfoldable pub compute_component_cost :
      (String → Part Row Other → ℕ) → List (String × Part Row Other) → List ℕ → ℕ → ℕ → Dict ℕ ℕ
  compute_component_cost width update survivor_indices q_bits cmeta_bits =
      costs_of (params_per_component width update * q_bits + cmeta_bits) survivor_indices []

-- The greedy loop over the components in their order.
unfoldable pub take_affordable : (ℕ → ℕ) → ℕ → List ℕ → List ℕ
take_affordable cost remaining [] = []
take_affordable cost remaining (g ∷ gs) =
    let fits = leb (cost g) remaining in
    let rest = take_affordable cost (if fits then remaining - cost g else remaining) gs in
    if fits then g ∷ rest else rest

module _ (ops : FloatOps) (infinity : FloatOps.Float ops) where
  open ops use {Float}

  unfoldable pub ratio : Dict ℕ Float → Dict ℕ ℕ → ℕ → Float
  ratio scores costs g =
      let score = lookup_or (ops.of_nat 0) g scores in
      let cost = lookup_or 1 g costs in
      if ltb 0 cost
      then ops.div score (ops.of_nat cost)
      else if ops.lt (ops.of_nat 0) score
      then infinity
      else ops.of_nat 0

  -- `ratios.sort(key=…, reverse=True)`, which keeps the order of equal ratios.
  unfoldable pub insert_falling : (ℕ → Float) → ℕ → List ℕ → List ℕ
  insert_falling key g [] = g ∷ []
  insert_falling key g (h ∷ hs) =
      if ops.lt (key g) (key h) then h ∷ insert_falling key g hs else g ∷ h ∷ hs

  unfoldable pub sort_falling : (ℕ → Float) → List ℕ → List ℕ
  sort_falling key [] = []
  sort_falling key (g ∷ gs) = insert_falling key g (sort_falling key gs)

  unfoldable pub greedy_select_by_score_cost_ratio : Dict ℕ Float → Dict ℕ ℕ → ℕ → List ℕ → List ℕ
  greedy_select_by_score_cost_ratio scores costs budget survivor_indices =
      if budget == 0
      then []
      else take_affordable (λ g. lookup_or 1 g costs) budget
          (sort_falling (ratio scores costs) survivor_indices)

-- {gidx: buffers for gidx, buffers in residual_buffers.items() if gidx not in pruned_set}
unfoldable pub prune_residual_buffers {ℓ} : {V : Type ℓ} → Dict ℕ V → List ℕ → Dict ℕ V
prune_residual_buffers [] pruned_indices = []
prune_residual_buffers ((g, buffers) ∷ rest) pruned_indices =
    let kept = prune_residual_buffers rest pruned_indices in
    if contains g pruned_indices then kept else (g, buffers) ∷ kept
