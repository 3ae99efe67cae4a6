-- ===== src/Hetero/Shapes.antt =====
-- The sizes of what federatedscope/core/aggregators/heterolora_aggregator.py aggregates.
use Prim.Native.String.{String}
use fed_lo_ra_public.Prelude.{
  ◌<◌, get_elem?, some, arith, ℕ, zero, suc, Bool, true, ◌≡◌, refl, ◌∙◌, ap, List, [], ◌∷◌, length,
  ◌==◌, ==_iff, Dict, lookup, insert, All, inl, inr, Bool-cases, Option-cases, min, lookup_all,
}
use fed_lo_ra_public.Hetero.Keys.{Key, key_eq, is_lora}
use fed_lo_ra_public.Hetero.Distribute.{Tensor, Value, Weights}
use fed_lo_ra_public.Hetero.Aggregate.{
  both_tensors, zero_tensor, zero_rows, initial, add_rows, capped_rank,
}
use fed_lo_ra_public.Hetero.Unchecked.{added, added_at, added_pair, added_pairs, added_models}
use fed_lo_ra_public.Hetero.Average.{fix_shape, verify_and_fix_shapes}

-- Every tensor has `max_rank` components.
abbrev pub IsShaped : {Row : Type 0} → ℕ → Weights Row → Type 0
IsShaped {Row} max_rank agg = All (λ (en : Key × Tensor Row). length en.1.components ≡ max_rank) agg

module _ {Row : Type 0} (max_rank : ℕ) where
  insert-IsShaped :
      (key : Key) (t : Tensor Row) (agg : Weights Row)
      → length t.components ≡ max_rank
      → IsShaped max_rank agg
      → IsShaped max_rank (insert key t agg)
  unfolding insert
  insert-IsShaped key t [] size h = (size, tt)
  insert-IsShaped key t ((j, u) ∷ agg) size h =
      let rest = insert-IsShaped key t agg size h.1 in
      elim (Bool-cases (key_eq.beq j key)) [
        | inl same ↦ rw same (size, h.1)
        | inr differ ↦ rw differ (h.0, rest)
      ]

  module _ (zeros : ℕ → Row) where
    pub zero_rows-at :
        (n features j : ℕ)
        → j < n
        → get_elem? (zero_rows zeros n features) j ≡ some (zeros features)
    unfolding zero_rows
    zero_rows-at zero features j h = absurd (omega (arith, h))
    zero_rows-at (suc n) features zero h = refl
    zero_rows-at (suc n) features (suc j) h = zero_rows-at n features j (omega (arith, h))

    pub length-zero_rows : (n features : ℕ) → length (zero_rows zeros n features) ≡ n
    unfolding zero_rows
    length-zero_rows zero features = refl
    length-zero_rows (suc n) features = ap suc (length-zero_rows n features)

    pub initial-IsShaped :
        (reference : Dict Key (Value Row)) (pairs : List (Key × Key)) (agg : Weights Row)
        → IsShaped max_rank agg
        → IsShaped max_rank (initial zeros max_rank reference pairs agg)
    unfolding initial zero_tensor
    initial-IsShaped reference [] agg h = h
    initial-IsShaped reference ((c, d) ∷ pairs) agg h =
        elim (Option-cases (both_tensors c d reference)) [
          | inl absent ↦ rw (initial, absent) (initial-IsShaped reference pairs agg h)
          | inr (cd, found) ↦
              let za = zero_tensor zeros max_rank cd.0.features in
              let zb = zero_tensor zeros max_rank cd.1.features in
              let with_a = insert-IsShaped c za agg (length-zero_rows max_rank cd.0.features) h in
              let with_b =
                insert-IsShaped d zb (insert c za agg) (length-zero_rows max_rank cd.1.features)
                  with_a in
              rw (initial, found)
                (initial-IsShaped reference pairs (insert d zb (insert c za agg)) with_b)
        ]

    pub verify-IsShaped :
        (in_key : String → Key → Bool) (agg : Weights Row)
        → IsShaped max_rank agg
        → verify_and_fix_shapes in_key zeros max_rank agg ≡ agg
    unfolding verify_and_fix_shapes fix_shape
    verify-IsShaped in_key [] h = refl
    verify-IsShaped in_key ((key, t) ∷ agg) h =
        let rest = verify-IsShaped in_key agg h.1 in
        let same : (length t.components == max_rank) ≡ true =
          (==_iff (length t.components) max_rank).1 h.0 in
        elim (Bool-cases (is_lora in_key key)) [
          | inl lora ↦ rw (lora, same, rest) refl
          | inr no_lora ↦ rw (no_lora, rest) refl
        ]

  module _ {Float : Type 0} (scale : Row → Float → Row) (add : Row → Row → Row) where
    pub length-add_rows :
        (n : ℕ) (weight : Float) (local rows : List Row)
        → length (add_rows scale add n weight local rows) ≡ length rows
    unfolding add_rows
    length-add_rows zero weight local rows = refl
    length-add_rows (suc n) weight local [] = refl
    length-add_rows (suc n) weight [] (row ∷ rows) = refl
    length-add_rows (suc n) weight (x ∷ local) (row ∷ rows) =
        ap suc (length-add_rows n weight local rows)

    added_at-IsShaped :
        (key : Key) (n : ℕ) (weight : Float) (local : Tensor Row) (agg : Weights Row)
        → IsShaped max_rank agg
        → IsShaped max_rank (added_at scale add key n weight local agg)
    unfolding added_at added
    added_at-IsShaped key n weight local agg h = elim (Option-cases (lookup key agg)) [
      | inl absent ↦ rw (added_at, absent) h
      | inr (t, found) ↦
          let new = added scale add n weight local t in
          let size : length t.components ≡ max_rank =
            lookup_all (λ k (u : Tensor Row). length u.components ≡ max_rank) agg key t h found in
          let size' : length new.components ≡ max_rank =
            length-add_rows n weight local.components t.components ∙ size in
          rw (added_at, found) (insert-IsShaped key new agg size' h)
    ]

    added_pair-IsShaped :
        (weight : Float) (model : Dict Key (Value Row)) (a b : Key) (agg : Weights Row)
        → IsShaped max_rank agg
        → IsShaped max_rank (added_pair scale add max_rank weight model a b agg)
    unfolding added_pair
    added_pair-IsShaped weight model a b agg h = elim (Option-cases (both_tensors a b model)) [
      | inl absent ↦ rw (added_pair, absent) h
      | inr (ab, found) ↦
          let n = capped_rank max_rank ab.0 ab.1 in
          let first = added_at scale add a n weight ab.0 agg in
          let done =
            added_at-IsShaped b n weight ab.1 first (added_at-IsShaped a n weight ab.0 agg h) in
          elim (Bool-cases (min (length ab.0.components) (length ab.1.components) == 0)) [
            | inl bare ↦ rw (added_pair, found, bare) h
            | inr ranked ↦ rw (added_pair, found, ranked) done
          ]
    ]

    added_pairs-IsShaped :
        (weight : Float) (model : Dict Key (Value Row)) (pairs : List (Key × Key))
        (agg : Weights Row)
        → IsShaped max_rank agg
        → IsShaped max_rank (added_pairs scale add max_rank weight model pairs agg)
    unfolding added_pairs
    added_pairs-IsShaped weight model [] agg h = h
    added_pairs-IsShaped weight model ((a, b) ∷ pairs) agg h =
        added_pairs-IsShaped weight model pairs (added_pair scale add max_rank weight model a b agg)
          (added_pair-IsShaped weight model a b agg h)

    pub added_models-IsShaped :
        (pairs : List (Key × Key)) (models : List (Float × Dict Key (Value Row)))
        (agg : Weights Row)
        → IsShaped max_rank agg
        → IsShaped max_rank (added_models scale add max_rank pairs models agg)
    unfolding added_models
    added_models-IsShaped pairs [] agg h = h
    added_models-IsShaped pairs ((weight, model) ∷ models) agg h =
        added_models-IsShaped pairs models (added_pairs scale add max_rank weight model pairs agg)
          (added_pairs-IsShaped weight model pairs agg h)
