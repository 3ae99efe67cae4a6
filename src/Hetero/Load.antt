-- ===== src/Hetero/Load.antt =====
-- load_weight_local in federatedscope/contrib/common/heterolora_utils.py. `zero_of` is the component of
-- zeros of the size of another; a device and a dtype are not modelled.
use Prim.Native.String.{String}
use fed_lo_ra_public.Prelude.{
  ℕ, Bool, true, false, ◌&&◌, ◌||◌, List, [], ◌∷◌, ◌++◌, map, take, drop, length, Option, none,
  some, if◌then◌else◌, ltb, ◌==◌, lookup, insert, Result, ok, raise, ◌>>=◌, value_error, key_error,
}
use fed_lo_ra_public.Hetero.Keys.{
  Key, key_eq, canonical_lora_key, dist_key, get_rank_for_param, is_lora, strip_model,
}
use fed_lo_ra_public.Hetero.Distribute.{Tensor, Weights, RankConfig}

pub record Param (Row : Type 0) : Type 0 where
  pub name : Key
  pub requires_grad : Bool
  pub value : Tensor Row

-- What becomes of a parameter: it is passed over, its weight is missing, or it has one.
pub data Loaded (Row : Type 0) : Type 0 where
  skipped missing : Loaded Row
  loaded : Tensor Row → Loaded Row

unfoldable pub is_missing : {Row : Type 0} → Loaded Row → Bool
is_missing skipped = false
is_missing missing = true
is_missing (loaded t) = false

-- The key that a parameter is stored under, of a model with a model inside or without one.
unfoldable pub store_key : Bool → Key → Key
store_key strip_model_prefix name = if strip_model_prefix then strip_model name else name

module _ {Row : Type 0} (zero_of : Row → Row) where
  -- The distributed tensor `t` in the shape of the parameter `p`.
  unfoldable pub adapt : Tensor Row → Tensor Row → Result (Tensor Row)
  adapt t p =
      if t.features == p.features
      then if length t.components == length p.components
        then ok t
        else if ltb (length t.components) (length p.components)
        then ok (record {
          features = p.features;
          components =
              take (length t.components) t.components
              ++ map zero_of (drop (length t.components) p.components);
        })
        else ok
            (record { features = t.features; components = take (length p.components) t.components })
      else raise value_error

  module _ (in_key : String → Key → Bool) (len : String → ℕ) where
    -- One turn of the loop over the parameters.
    unfoldable pub load_one : Weights Row → RankConfig → Param Row → Result (Loaded Row)
    load_one weights rank_config p =
        let base_key = canonical_lora_key p.name in
        if p.requires_grad && is_lora in_key p.name
        then elim (get_rank_for_param in_key len base_key rank_config) [
          | none ↦ ok skipped
          | some rank ↦ elim (lookup (dist_key base_key rank) weights) [
            | none ↦ ok missing
            | some t ↦ adapt t p.value >>= λ new_tensor. ok (loaded new_tensor)
          ]
        ]
        else ok skipped

    module _ (strip_model_prefix : Bool) where
      unfoldable pub store : Key → Loaded Row → Weights Row → Weights Row
      store name skipped weight_dict = weight_dict
      store name missing weight_dict = weight_dict
      store name (loaded t) weight_dict = insert (store_key strip_model_prefix name) t weight_dict

      -- The weights to load, and whether one of them was missing.
      unfoldable pub load_all :
          Weights Row
          → RankConfig
          → List (Param Row)
          → Weights Row
          → Bool
          → Result (Weights Row × Bool)
      load_all weights rank_config [] weight_dict any_missing = ok (weight_dict, any_missing)
      load_all weights rank_config (p ∷ params) weight_dict any_missing =
          load_one weights rank_config p >>= λ o.
          load_all weights rank_config params (store p.name o weight_dict)
            (any_missing || is_missing o)

      unfoldable pub load_weight_local :
          Weights Row → Option RankConfig → List (Param Row) → Result (Weights Row)
      load_weight_local weights none params = raise value_error
      load_weight_local weights (some rank_config) params =
          load_all weights rank_config params [] false >>= λ r.
          if r.1 then raise key_error else ok r.0
