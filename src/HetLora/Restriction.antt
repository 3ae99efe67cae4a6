-- ===== src/HetLora/Restriction.antt =====
-- federatedscope/contrib/common/hetlora_restriction.py. The LoRA weights of a model are a dictionary
-- from the names that `iter_lora_rank_params` yields to their components, the rows of an A and the
-- columns of a B. `zero_of` is the component of zeros of the size of another.
use Prim.Native.String.{String}
use fed_lo_ra_public.Prelude.{
  ℕ, List, [], ◌∷◌, ◌++◌, map, take, drop, Option, none, some, Dict, string_eq, lookup, insert,
}

-- The parameter `mode`: 'cut', 'freeze' or any other text.
pub data Mode : Type 0 where
  cut freeze unrestricted : Mode

abbrev pub Params : Type 0 → Type 0
Params Row = Dict String (List Row)

-- The moments that AdamW keeps of a parameter, exp_avg and exp_avg_sq.
abbrev pub Moments : Type 0 → Type 0
Moments Row = Dict String (List Row × List Row)

module _ {Row : Type 0} where
  -- full[:rank] = p[:rank]
  unfoldable pub overlay : ℕ → List Row → List Row → List Row
  overlay rank p full = take rank p ++ drop rank full

  -- The snapshot that a parameter is captured in, a clone of it on the first call.
  unfoldable pub snapshot_or : List Row → Option (List Row) → List Row
  snapshot_or p none = p
  snapshot_or p (some full) = full

  unfoldable pub capture_active_snapshot : ℕ → Params Row → Params Row → Params Row
  capture_active_snapshot rank [] snapshot = snapshot
  capture_active_snapshot rank ((name, p) ∷ params) snapshot =
      capture_active_snapshot rank params
        (insert name (overlay rank p (snapshot_or p (lookup name snapshot))) snapshot)

  module _ (zero_of : Row → Row) where
    -- t[rank:] = 0
    unfoldable pub zero_tail : ℕ → List Row → List Row
    zero_tail rank p = take rank p ++ map zero_of (drop rank p)

    -- The new value of one parameter.
    unfoldable pub restricted : ℕ → Mode → Option (List Row) → List Row → List Row
    restricted rank cut full p = zero_tail rank p
    restricted rank freeze none p = p
    restricted rank freeze (some full) p = take rank p ++ drop rank full
    restricted rank unrestricted full p = p

    unfoldable pub apply_inactive : ℕ → Mode → Params Row → Params Row → Params Row
    apply_inactive rank mode snapshot [] = []
    apply_inactive rank mode snapshot ((name, p) ∷ params) =
        (name, restricted rank mode (lookup name snapshot) p)
        ∷ apply_inactive rank mode snapshot params

    -- Of the parameters that have a gradient.
    unfoldable pub zero_grad_tails : ℕ → Params Row → Params Row
    zero_grad_tails rank [] = []
    zero_grad_tails rank ((name, g) ∷ grads) = (name, zero_tail rank g) ∷ zero_grad_tails rank grads

    unfoldable pub mask_inactive_grads : ℕ → Mode → Params Row → Params Row
    mask_inactive_grads rank cut grads = zero_grad_tails rank grads
    mask_inactive_grads rank freeze grads = zero_grad_tails rank grads
    mask_inactive_grads rank unrestricted grads = grads

    unfoldable pub zero_moment_tails : ℕ → Moments Row → Moments Row
    zero_moment_tails rank [] = []
    zero_moment_tails rank ((name, (avg, avg_sq)) ∷ state) =
        (name, (zero_tail rank avg, zero_tail rank avg_sq)) ∷ zero_moment_tails rank state

    unfoldable pub clear_optimizer_state_inactive : ℕ → Mode → Moments Row → Moments Row
    clear_optimizer_state_inactive rank cut state = zero_moment_tails rank state
    clear_optimizer_state_inactive rank freeze state = zero_moment_tails rank state
    clear_optimizer_state_inactive rank unrestricted state = state
