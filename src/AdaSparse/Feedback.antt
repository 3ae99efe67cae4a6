-- ===== src/AdaSparse/Feedback.antt =====
-- The error feedback of federatedscope/contrib/common/adasparse_lora_utils.py: what is not uploaded is
-- kept as a residual, and nothing else is.
use Prim.Native.String.{String}
use fed_lo_ra_public.Prelude.{
  ℕ, List, [], ◌∷◌, Option, none, some, Dict, nat_eq, lookup, if◌then◌else◌,
}
use fed_lo_ra_public.AdaSparse.Indices.{Part, contains}
use fed_lo_ra_public.AdaSparse.Residuals.{component_residual}

module _ {Row : Type 0} where
  -- A component without a tensor has no residual.
  pub stored : List (String × Row) → Option (List (String × Row))
  stored [] = none
  stored (c ∷ cs) = some (c ∷ cs)

module _ {Row Other : Type 0} (effective : List (String × Part Row Other)) (upload : List ℕ)
    (local : Dict ℕ ℕ) where
  -- What the loop stores for a survivor.
  entry : ℕ → Option (List (String × Row))
  entry g = if contains g upload then none else (elim (lookup g local) [
    | none ↦ none
    | some p ↦ stored (component_residual p effective)
  ])
