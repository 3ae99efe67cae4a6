-- ===== src/AdaSparse/Pruning.antt =====
-- What a round of `_adasparse_record_lowset_before` and `_adasparse_prune_and_prepare_upload` in
-- federatedscope/contrib/worker/methods/adasparse_lora_client.py does to the components.
use Prim.Native.String.{String}
use mathlib.Core.Path.{subst}
use fed_lo_ra_public.Prelude.{
  ℕ, ◌+◌, ◌-◌, ◌≤◌, ◌≡◌, ◌⊎◌, refl, ap, true, ◌&&◌, List, [], ◌∷◌, map, length, length-take, arith,
  Distinct, inl, inr, Bool-cases, Result, ok, raise, ◌>>=◌, Result-cases, some, Dict, Exception,
}
use fed_lo_ra_public.Prelude.Floats.{FloatOps}
use fed_lo_ra_public.AdaSparse.Indices.{
  Part, compute_lowset, get_item, index_select, sorted_pairs, slice_parts,
  slice_update_by_keep_positions,
}
use fed_lo_ra_public.AdaSparse.Client.{
  Client, StateDict, global_indices, decreased, scores_at, recorded, or_failed,
  record_lowset_before, apply_prune, pruned_indices, prune_scored, prune_low, or_unpruned,
  prune_recorded, prune_and_prepare_upload,
}
use fed_lo_ra_public.AdaSparse.Counts.{count_kept, length-keep_positions}
use fed_lo_ra_public.AdaSparse.Sorting.{
  IsAscending, sorted_pairs-IsAscending, sorted_pairs-Reads, length-index_select,
  length-sorted_pairs, select-Reads,
}

module _ (Row Other : Type 0) where
  abbrev Parts : Type 0
  Parts = List (String × Part Row Other)

  -- Indices and parameters that are selected by the same positions, the indices ascending.
  pub record IsSelected (old new : List ℕ) (para para' : Parts) : Type 0 where
    pub positions : List ℕ
    pub indices : index_select old positions ≡ ok new
    pub parts : slice_parts positions para ≡ ok para'
    pub ascending : IsAscending new

  slice-IsSelected :
      (para : Parts) (old keep : List ℕ) (out : Parts × List ℕ)
      → slice_update_by_keep_positions para old keep ≡ ok out
      → IsSelected old out.1 para out.0 × (length out.1 ≡ length keep)
  unfolding slice_update_by_keep_positions
  slice-IsSelected para old keep out e = elim (Result-cases (index_select old keep)) [
    | inr (x, bad) ↦ absurd (ground (arith, e, bad))
    | inl (us, found) ↦
        let pairs = sorted_pairs keep us in
        elim (Result-cases (slice_parts (map (λ x. x.0) pairs) para)) [
          | inr (x, bad) ↦ absurd (ground (arith, e, found, bad))
          | inl (result, sliced) ↦
              let made : (result, map (λ x. x.1) pairs) ≡ out = ground (arith, e, found, sliced) in
              let selected : IsSelected old (map (λ x. x.1) pairs) para result = record {
                positions = map (λ x. x.0) pairs;
                indices = select-Reads old pairs (sorted_pairs-Reads old keep us found);
                parts = sliced;
                ascending = sorted_pairs-IsAscending keep us;
              } in
              subst (λ o. IsSelected old o.1 para o.0 × (length o.1 ≡ length keep)) made
                (selected, length-sorted_pairs keep us (length-index_select old keep us found))
        ]
  ]

shifted : (xs : List ℕ) (i : ℕ) → get_item xs (0 + i) ≡ get_item xs i
shifted xs i = let start : 0 + i ≡ i = omega arith in ap (get_item xs) start

module _ (ops : FloatOps) (Row Other : Type 0) (argsort : List (FloatOps.Float ops) → List ℕ) where
  open ops use {Float}

  -- The client and its parameters as they were, or selected by the same positions, with at least
  -- rank_min components left.
  abbrev pub IsPruned :
      Client ops Row Other argsort
      → StateDict ops Row Other argsort
      → Client ops Row Other argsort × StateDict ops Row Other argsort
      → Type 0
  IsPruned s para out =
      (out.0.indices_current ≡ s.indices_current) × (out.1 ≡ para)
      ⊎ IsSelected Row Other s.indices_current out.0.indices_current para out.1
        × (s.rank_min ≤ length out.0.indices_current)

  apply-IsPruned :
      (s : Client ops Row Other argsort) (para : StateDict ops Row Other argsort) (pruned : List ℕ)
      (out : Client ops Row Other argsort × StateDict ops Row Other argsort)
      → Distinct s.indices_current
      → length pruned ≤ length s.indices_current - s.rank_min
      → apply_prune ops Row Other argsort s s.indices_current para pruned ≡ ok out
      → IsPruned s para out
  unfolding apply_prune
  apply-IsPruned s para [] out distinct few e =
      let same : (s, para) ≡ out = ground (arith, e) in
      subst (IsPruned s para) same (inl (refl, refl))
  apply-IsPruned s para (g ∷ gs) out distinct few e =
      let (keep, found, size) =
        length-keep_positions s.indices_current (g ∷ gs) 0 s.indices_current
          (λ i low. shifted s.indices_current i) in
      let enough = count_kept (g ∷ gs) s.indices_current distinct in
      elim (Result-cases (slice_update_by_keep_positions para s.indices_current keep)) [
        | inr (x, bad) ↦ absurd (ground (arith, e, found, bad))
        | inl (sliced, made) ↦
            let (selected, kept) =
              slice-IsSelected Row Other para s.indices_current keep sliced made in
            let same : (record s { indices_current = sliced.1 }, sliced.0) ≡ out =
              ground (arith, e, found, made) in
            subst (IsPruned s para) same (inr (selected, omega (arith, enough, kept, size, few)))
      ]

  pruned_few :
      (s : Client ops Row Other argsort) (low before : List ℕ) (after : List Float)
      → length (pruned_indices ops Row Other argsort s low before after)
        ≤ length s.indices_current - s.rank_min
  unfolding pruned_indices
  pruned_few s low before after = omega (
    arith,
    length-take (length s.indices_current - s.rank_min)
        (global_indices before (decreased ops Row Other argsort after s.scores_before_low low)),
  )

  recorded-IsPruned :
      (s : Client ops Row Other argsort) (low : List ℕ) (para : StateDict ops Row Other argsort)
      (after : Result (List Float))
      → Distinct s.indices_current
      → IsPruned s para
          (prune_recorded ops Row Other argsort s (some low) (some s.indices_current) para after)
  unfolding prune_recorded or_unpruned prune_low prune_scored
  recorded-IsPruned s [] para after distinct = inl (refl, refl)
  recorded-IsPruned s (p ∷ low) para (raise x) distinct = inl (refl, refl)
  recorded-IsPruned s (p ∷ low) para (ok []) distinct = inl (refl, refl)
  recorded-IsPruned s (p ∷ low) para (ok (a ∷ after)) distinct =
      let pruned = pruned_indices ops Row Other argsort s (p ∷ low) s.indices_current (a ∷ after) in
      elim (Result-cases (apply_prune ops Row Other argsort s s.indices_current para pruned)) [
        | inr (x, bad) ↦ rw bad (inl (refl, refl))
        | inl (out, made) ↦ rw made (
            apply-IsPruned s para pruned out distinct
              (pruned_few s (p ∷ low) s.indices_current (a ∷ after)) made)
      ]

  -- What the client is after a low set was recorded.
  abbrev marked :
      Client ops Row Other argsort → List ℕ → Dict ℕ Float → Client ops Row Other argsort
  marked s low before = record s {
    low_positions_before = some low;
    scores_before_low = before;
    indices_before = some s.indices_current;
  }

  recorded-cases :
      (s : Client ops Row Other argsort) (scores : List Float)
      → ((low : List ℕ) × (before : Dict ℕ Float) × (recorded ops Row Other argsort s scores
            ≡ ok (marked s low before)))
        ⊎ ((x : Exception) × (recorded ops Row Other argsort s scores ≡ raise x))
  unfolding recorded
  recorded-cases s [] = inl ([], [], refl)
  recorded-cases s (x ∷ xs) =
      let low = compute_lowset argsort s.decay s.rank_min (x ∷ xs) in
      elim (Result-cases (scores_at ops Row Other argsort (x ∷ xs) low [])) [
        | inl (before, found) ↦ inl (low, before, ground (arith, found))
        | inr (e, bad) ↦ inr (e, ground (arith, bad))
      ]

  abbrev Round :
      Client ops Row Other argsort
      → Client ops Row Other argsort
      → StateDict ops Row Other argsort
      → Result (List Float)
      → Type 0
  Round s s' para after =
      IsPruned s para (
        prune_recorded ops Row Other argsort s' s'.low_positions_before s'.indices_before para
          after)

  prune-IsPruned :
      (s : Client ops Row Other argsort) (para : StateDict ops Row Other argsort)
      (scores after : Result (List Float))
      → Distinct s.indices_current
      → Round s
          (or_failed ops Row Other argsort s (scores >>= recorded ops Row Other argsort s))
          para
          after
  unfolding or_failed prune_recorded
  prune-IsPruned s para (raise x) after distinct = inl (refl, refl)
  prune-IsPruned s para (ok scores) after distinct = elim (recorded-cases s scores) [
    | inl (low, before, e) ↦ rw e (recorded-IsPruned (marked s low before) low para after distinct)
    | inr (x, bad) ↦ rw bad (inl (refl, refl))
  ]

  -- Recording leaves the switches of the client.
  flags :
      (s : Client ops Row Other argsort) (scores : Result (List Float))
      → let r : Client ops Row Other argsort =
          or_failed ops Row Other argsort s (scores >>= recorded ops Row Other argsort s) in
        (s.enabled && s.pruning_enabled) ≡ true → (r.enabled && r.pruning_enabled) ≡ true
  unfolding or_failed
  flags s (raise x) on = on
  flags s (ok scores) on = elim (recorded-cases s scores) [
    | inl (low, before, e) ↦ rw e on
    | inr (x, bad) ↦ rw bad on
  ]

  -- A round of a client whose indices are distinct, from the scores before the training to the
  -- upload: the indices and the parameters stay as they were, or both are selected by the same
  -- positions, the indices ascending, and at least rank_min components are left. It holds as well
  -- where a score raises, or where the parameters do not have the components that are selected.
  pub prune_round_lem :
      (s : Client ops Row Other argsort) (para : StateDict ops Row Other argsort)
      (scores after : Result (List Float))
      → Distinct s.indices_current
      → IsPruned s para (
          prune_and_prepare_upload ops Row Other argsort
            (record_lowset_before ops Row Other argsort s scores)
            para
            after)
  unfolding record_lowset_before prune_and_prepare_upload
  prune_round_lem s para scores after distinct =
      elim (Bool-cases (s.enabled && s.pruning_enabled)) [
        | inr off ↦ rw (off, off) (inl (refl, refl))
        | inl on ↦ rw (on, flags s scores on) (prune-IsPruned s para scores after distinct)
      ]
