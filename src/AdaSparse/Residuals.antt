-- ===== src/AdaSparse/Residuals.antt =====
-- federatedscope/contrib/common/adasparse_lora_utils.py: the residuals that are left after an upload,
-- `update_residual_buffers_after_upload`. The copy of a tensor to the CPU is the tensor.
use Prim.Native.String.{String}
use fed_lo_ra_public.Prelude.{
  ℕ, ◌+◌, List, [], ◌∷◌, none, some, Dict, nat_eq, lookup, insert, ok, raise, if◌then◌else◌,
}
use fed_lo_ra_public.AdaSparse.Indices.{Part, lora_a, lora_b, other, contains, get_item}

-- {gidx: i for i, gidx in enumerate(survivor_indices)}, counted from `i`.
unfoldable pub survivor_to_local : ℕ → List ℕ → Dict ℕ ℕ → Dict ℕ ℕ
survivor_to_local i [] d = d
survivor_to_local i (g ∷ gs) d = survivor_to_local (i + 1) gs (insert g i d)

-- `if component_residual: new_residuals[gidx] = component_residual`
unfoldable pub store :
    {Row : Type 0}
    → ℕ
    → List (String × Row)
    → Dict ℕ (List (String × Row))
    → Dict ℕ (List (String × Row))
store g [] d = d
store g (c ∷ cs) d = insert g (c ∷ cs) d

module _ {Row Other : Type 0} where
  -- `component_residual`: the component at a local position of each tensor that has it.
  unfoldable pub component_residual : ℕ → List (String × Part Row Other) → List (String × Row)
  component_residual p [] = []
  component_residual p ((key, lora_a rows) ∷ rest) =
      let tail = component_residual p rest in
      elim (get_item rows p) [ raise e ↦ tail | ok x ↦ (key, x) ∷ tail ]
  component_residual p ((key, lora_b cols) ∷ rest) =
      let tail = component_residual p rest in
      elim (get_item cols p) [ raise e ↦ tail | ok x ↦ (key, x) ∷ tail ]
  component_residual p ((key, other o) ∷ rest) = component_residual p rest

  module _ (effective : List (String × Part Row Other)) (upload_indices : List ℕ)
      (local : Dict ℕ ℕ) where
    -- The body of the loop for one survivor.
    unfoldable pub keep_residual : ℕ → Dict ℕ (List (String × Row)) → Dict ℕ (List (String × Row))
    keep_residual g d = if contains g upload_indices then d else (elim (lookup g local) [
      | none ↦ d
      | some p ↦ store g (component_residual p effective) d
    ])

    unfoldable pub keep_residuals :
        List ℕ → Dict ℕ (List (String × Row)) → Dict ℕ (List (String × Row))
    keep_residuals [] d = d
    keep_residuals (g ∷ gs) d = keep_residuals gs (keep_residual g d)

  unfoldable pub update_residual_buffers_after_upload :
      List (String × Part Row Other) → List ℕ → List ℕ → Dict ℕ (List (String × Row))
  update_residual_buffers_after_upload effective upload_indices survivor_indices =
      keep_residuals effective upload_indices (survivor_to_local 0 survivor_indices [])
        survivor_indices []
