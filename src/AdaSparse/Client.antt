-- ===== src/AdaSparse/Client.antt =====
-- federatedscope/contrib/worker/methods/adasparse_lora_client.py: the state of the client and its
-- operations. The scores of the components are those of the model, before and after the training:
-- `compute_component_scores` is a parameter, its result, or the exception that it raises.
use Prim.Native.String.{String}
use fed_lo_ra_public.Prelude.{
  ℕ, zero, suc, ◌+◌, ◌-◌, Bool, ◌&&◌, List, [], ◌∷◌, take, length, Option, none, some, Dict, nat_eq,
  lookup_or, insert, Result, ok, raise, ◌>>=◌, if◌then◌else◌,
}
use fed_lo_ra_public.Prelude.Floats.{FloatOps}
use fed_lo_ra_public.AdaSparse.Indices.{
  Part, contains, get_item, compute_lowset, slice_update_by_keep_positions,
}

-- list(range(a, a + n))
unfoldable pub range_from : ℕ → ℕ → List ℕ
range_from a zero = []
range_from a (suc n) = a ∷ range_from (a + 1) n

unfoldable pub global_indices : List ℕ → List ℕ → List ℕ
global_indices before [] = []
global_indices before (pos ∷ ps) =
    let rest = global_indices before ps in
    elim (get_item before pos) [ raise e ↦ rest | ok g ↦ g ∷ rest ]

-- [pos for pos in range(a, a + n) if before[pos] not in pruned]
unfoldable pub keep_positions : List ℕ → List ℕ → ℕ → ℕ → Result (List ℕ)
keep_positions before pruned a zero = ok []
keep_positions before pruned a (suc n) = get_item before a >>= λ g.
    keep_positions before pruned (a + 1) n >>= λ rest.
    ok (if contains g pruned then rest else a ∷ rest)

module _ (ops : FloatOps) (Row Other : Type 0) (argsort : List (FloatOps.Float ops) → List ℕ) where
  open ops use {Float}

  abbrev pub StateDict : Type 0
  StateDict = List (String × Part Row Other)

  pub record Client : Type 0 where
    pub enabled : Bool
    pub pruning_enabled : Bool
    pub rank_min : ℕ
    -- int(r * gamma)
    pub decay : ℕ → ℕ
    pub indices_current : List ℕ
    pub low_positions_before : Option (List ℕ)
    pub scores_before_low : Dict ℕ Float
    pub indices_before : Option (List ℕ)

  -- {pos: scores[pos].item() for pos in low_positions}, each new position at the end.
  unfoldable pub scores_at : List Float → List ℕ → Dict ℕ Float → Result (Dict ℕ Float)
  scores_at scores [] d = ok d
  scores_at scores (p ∷ ps) d = get_item scores p >>= λ x. scores_at scores ps (insert p x d)

  unfoldable pub recorded : Client → List Float → Result Client
  unfolding scores_at compute_lowset
  recorded s [] = ok (record s {
    low_positions_before = some [];
    scores_before_low = [];
    indices_before = some s.indices_current;
  })
  recorded s (x ∷ xs) =
      let low = compute_lowset argsort s.decay s.rank_min (x ∷ xs) in
      scores_at (x ∷ xs) low [] >>= λ before. ok (record s {
        low_positions_before = some low;
        scores_before_low = before;
        indices_before = some s.indices_current;
      })

  -- What the `except` of `_adasparse_record_lowset_before` leaves.
  unfoldable pub or_failed : Client → Result Client → Client
  or_failed s (ok s') = s'
  or_failed s (raise e) = record s {
    low_positions_before = none;
    scores_before_low = [];
    indices_before = none;
  }

  unfoldable pub record_lowset_before : Client → Result (List Float) → Client
  record_lowset_before s scores =
      if s.enabled && s.pruning_enabled then or_failed s (scores >>= recorded s) else s

  -- The candidates whose score decreased.
  unfoldable pub decreased : List Float → Dict ℕ Float → List ℕ → List ℕ
  decreased after before [] = []
  decreased after before (pos ∷ low) =
      let rest = decreased after before low in
      elim (get_item after pos) [
        | raise e ↦ rest
        | ok a ↦ if ops.lt a (lookup_or (ops.of_nat 0) pos before) then pos ∷ rest else rest
      ]

  -- From the indices that are pruned to the upload.
  unfoldable pub apply_prune : Client → List ℕ → StateDict → List ℕ → Result (Client × StateDict)
  apply_prune s before model_para [] = ok (s, model_para)
  apply_prune s before model_para (g ∷ gs) =
      keep_positions before (g ∷ gs) 0 (length s.indices_current) >>= λ keep.
      slice_update_by_keep_positions model_para s.indices_current keep >>= λ sliced.
      ok (record s { indices_current = sliced.1 }, sliced.0)

  -- At most `r - rank_min` of the components that decreased.
  unfoldable pub pruned_indices : Client → List ℕ → List ℕ → List Float → List ℕ
  pruned_indices s low before after =
      take (length s.indices_current - s.rank_min)
        (global_indices before (decreased after s.scores_before_low low))

  unfoldable pub prune_scored :
      Client → List ℕ → List ℕ → StateDict → List Float → Result (Client × StateDict)
  prune_scored s low before model_para [] = ok (s, model_para)
  prune_scored s low before model_para (x ∷ xs) =
      apply_prune s before model_para (pruned_indices s low before (x ∷ xs))

  -- The `try` block after the checks on the recorded state.
  unfoldable pub prune_low :
      Client → List ℕ → List ℕ → StateDict → Result (List Float) → Result (Client × StateDict)
  prune_low s [] before model_para after = ok (s, model_para)
  prune_low s (p ∷ low) before model_para after =
      after >>= λ scores. prune_scored s (p ∷ low) before model_para scores

  -- What the `except` of `_adasparse_prune_and_prepare_upload` returns.
  unfoldable pub or_unpruned : Client → StateDict → Result (Client × StateDict) → Client × StateDict
  or_unpruned s model_para (ok out) = out
  or_unpruned s model_para (raise e) = (s, model_para)

  unfoldable pub prune_recorded :
      Client
      → Option (List ℕ)
      → Option (List ℕ)
      → StateDict
      → Result (List Float)
      → Client × StateDict
  prune_recorded s none before model_para after = (s, model_para)
  prune_recorded s (some low) none model_para after = (s, model_para)
  prune_recorded s (some low) (some before) model_para after =
      or_unpruned s model_para (prune_low s low before model_para after)

  -- The client and the parameters to upload; the indices that go with them are the client's.
  unfoldable pub prune_and_prepare_upload :
      Client → StateDict → Result (List Float) → Client × StateDict
  prune_and_prepare_upload s model_para after =
      if s.enabled && s.pruning_enabled
      then prune_recorded s s.low_positions_before s.indices_before model_para after
      else (s, model_para)
