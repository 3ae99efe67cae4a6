-- ===== src/Hetero/Checked.antt =====
-- federatedscope/core/aggregators/heterolora_aggregator.py: where the tensors of the clients fit those of
-- the first, torch adds them without an error, and else it raises one.
use fed_lo_ra_public.Prelude.{
  Elem, ℕ, ◌≤◌, ◌≡◌, refl, ap, sym, ◌∙◌, Bool, true, false, ◌&&◌, List, [], ◌∷◌, length, Option,
  none, some, ◌==◌, Dict, lookup, lookup-insert, min, arith, Bool-cases, Option-cases, inl, inr,
  Result, ok, raise, ◌>>=◌, runtime_error,
}
use fed_lo_ra_public.Hetero.Keys.{Key, key_eq}
use fed_lo_ra_public.Hetero.Distribute.{Tensor, Value, Weights}
use fed_lo_ra_public.Hetero.Aggregate.{
  both_tensors, fits, capped_rank, add_tensor, add_at, add_pair, add_pairs, add_models,
}
use fed_lo_ra_public.Hetero.Unchecked.{added, added_at, added_pair, added_pairs, added_models}
use fed_lo_ra_public.Hetero.Shapes.{length-add_rows}
use fed_lo_ra_public.Hetero.Totals.{pair_fits, model_fits, all_fit}

-- The other dimension of an aggregated tensor and its number of components.
abbrev pub shape : {Row : Type 0} → Tensor Row → ℕ × ℕ
shape t = (t.features, length t.components)

abbrev pub shape_at : {Row : Type 0} → Key → Weights Row → Option (ℕ × ℕ)
shape_at key agg = elim (lookup key agg) [ none ↦ none | some t ↦ some (shape t) ]

slices_fit : (n size own : ℕ) → n ≤ own → n ≤ size → fits (min n own) (min n size) ≡ true
unfolding fits
slices_fit n size own low high = ground (arith, low, high)

capped-low :
    {Row : Type 0} (max_rank : ℕ) (a b : Tensor Row)
    → (capped_rank max_rank a b ≤ length a.components)
      × (capped_rank max_rank a b ≤ length b.components)
      × (capped_rank max_rank a b ≤ max_rank)
unfolding capped_rank
capped-low max_rank a b = (ground arith, ground arith, ground arith)

-- A result that is there under a condition, and else torch's error.
abbrev pub checked : {A : Type 0} → Bool → A → Result A
checked true x = ok x
checked false x = raise runtime_error

checked->>= :
    {A : Type 0} (p q : Bool) (x y : A) (f : A → Result A)
    → f x ≡ checked q y
    → (checked p x >>= f) ≡ checked (p && q) y
checked->>= true q x y f e = e
checked->>= false q x y f e = refl

module _ {Row Float : Type 0} (scale : Row → Float → Row) (add : Row → Row → Row) where
  add_at-checked :
      (key : Key) (n : ℕ) (weight : Float) (local : Tensor Row) (agg : Weights Row)
      (features size : ℕ)
      → shape_at key agg ≡ some (features, size)
      → n ≤ length local.components
      → n ≤ size
      → add_at scale add key n weight local agg
        ≡ checked (fits local.features features) (added_at scale add key n weight local agg)
  unfolding add_at added_at add_tensor added
  add_at-checked key n weight local agg features size known low high =
      elim (Option-cases (lookup key agg)) [
        | inl absent ↦ absurd (ground (arith, known, absent))
        | inr (t, there) ↦
            let whole : some (shape t) ≡ some (features, size) = ground (arith, known, there) in
            let same : t.features ≡ features =
              ap (λ o. elim o [ none ↦ features | some s ↦ s.0 ]) whole in
            let sized : length t.components ≡ size =
              ap (λ o. elim o [ none ↦ size | some s ↦ s.1 ]) whole in
            let rows : fits (min n (length local.components)) (min n (length t.components)) ≡ true =
              rw sized (slices_fit n size (length local.components) low high) in
            elim (Bool-cases (fits local.features features)) [
              | inl fit ↦ ground (arith, there, same, fit, rows)
              | inr misfit ↦ ground (arith, there, same, misfit, rows)
            ]
      ]

  added_at-shape :
      (key other : Key) (n : ℕ) (weight : Float) (local : Tensor Row) (agg : Weights Row)
      → shape_at other (added_at scale add key n weight local agg) ≡ shape_at other agg
  unfolding added_at added
  added_at-shape key other n weight local agg = elim (Option-cases (lookup key agg)) [
    | inl absent ↦ ground (arith, absent)
    | inr (t, there) ↦ ground (
      arith,
      there,
      length-add_rows n scale add n weight local.components t.components,
      key_eq.beq_iff key other,
      lookup-insert key other (added scale add n weight local t) agg,
    )
  ]

  module _ (max_rank : ℕ) where
    added_pair-shape :
        (weight : Float) (model : Dict Key (Value Row)) (a b key : Key) (agg : Weights Row)
        → shape_at key (added_pair scale add max_rank weight model a b agg) ≡ shape_at key agg
    unfolding added_pair
    added_pair-shape weight model a b key agg = elim (Option-cases (both_tensors a b model)) [
      | inl absent ↦ rw (added_pair, absent) refl
      | inr (ab, found) ↦
          let n = capped_rank max_rank ab.0 ab.1 in
          elim (Bool-cases (min (length ab.0.components) (length ab.1.components) == 0)) [
            | inl bare ↦ rw (added_pair, found, bare) refl
            | inr ranked ↦
                rw (added_pair, found, ranked)
                  (added_at-shape b key n weight ab.1 (added_at scale add a n weight ab.0 agg)
                    ∙ added_at-shape a key n weight ab.0 agg)
          ]
    ]

    add_pair-checked :
        (weight : Float) (model : Dict Key (Value Row)) (a b : Key)
        (first : Tensor Row × Tensor Row) (agg : Weights Row)
        → shape_at a agg ≡ some (first.0.features, max_rank)
        → shape_at b agg ≡ some (first.1.features, max_rank)
        → add_pair scale add max_rank weight model a b agg
          ≡ checked
              (pair_fits first (both_tensors a b model))
              (added_pair scale add max_rank weight model a b agg)
    unfolding add_pair added_pair fits
    add_pair-checked weight model a b first agg fa fb =
        elim (Option-cases (both_tensors a b model)) [
          | inl absent ↦ ground (arith, absent)
          | inr (ab, found) ↦
              let n = capped_rank max_rank ab.0 ab.1 in
              let next = added_at scale add a n weight ab.0 agg in
              let (low_a, low_b, high) = capped-low max_rank ab.0 ab.1 in
              let one =
                add_at-checked a n weight ab.0 agg first.0.features max_rank fa low_a high in
              let two =
                add_at-checked b n weight ab.1 next first.1.features max_rank
                  (added_at-shape a b n weight ab.0 agg ∙ fb) low_b high in
              elim (Bool-cases (min (length ab.0.components) (length ab.1.components) == 0)) [
                | inl bare ↦
                    let fit : pair_fits first (both_tensors a b model) ≡ true =
                      ground (arith, found, bare) in
                    ground (arith, found, bare, fit)
                | inr ranked ↦
                    let fit : pair_fits first (both_tensors a b model) ≡ (
                        fits ab.0.features first.0.features
                        && fits ab.1.features first.1.features) =
                      ground (arith, found, ranked) in
                    let code : add_pair scale add max_rank weight model a b agg ≡ (
                        add_at scale add a n weight ab.0 agg >>= add_at scale add b n weight ab.1) =
                      ground (arith, found, ranked) in
                    let sums : added_at scale add b n weight ab.1 next
                        ≡ added_pair scale add max_rank weight model a b agg =
                      ground (arith, found, ranked) in
                    code
                    ∙ ap (λ r. r >>= add_at scale add b n weight ab.1) one
                    ∙ checked->>= (fits ab.0.features first.0.features)
                        (fits ab.1.features first.1.features) next
                        (added_at scale add b n weight ab.1 next) (add_at scale add b n weight ab.1)
                        two
                    ∙ ap (λ p. checked p (added_at scale add b n weight ab.1 next)) (sym fit)
                    ∙ ap (checked (pair_fits first (both_tensors a b model))) sums
              ]
        ]

    -- Each pair of the list is one of the first client's, and is aggregated with its sizes.
    abbrev pub IsFeatured : Dict Key (Value Row) → List (Key × Key) → Weights Row → Type 0
    IsFeatured reference [] agg = Unit {0}
    IsFeatured reference ((a, b) ∷ pairs) agg =
        ((first : Tensor Row × Tensor Row) × (both_tensors a b reference ≡ some first)
          × (shape_at a agg ≡ some (first.0.features, max_rank))
          × (shape_at b agg ≡ some (first.1.features, max_rank)))
        × IsFeatured reference pairs agg

    pub make-IsFeatured :
        (reference : Dict Key (Value Row)) (pairs : List (Key × Key)) (agg : Weights Row)
        → ((a b : Key)
            → Elem (a, b) pairs
            → (first : Tensor Row × Tensor Row) × (both_tensors a b reference ≡ some first)
              × (shape_at a agg ≡ some (first.0.features, max_rank))
              × (shape_at b agg ≡ some (first.1.features, max_rank)))
        → IsFeatured reference pairs agg
    make-IsFeatured reference [] agg h = tt
    make-IsFeatured reference ((a, b) ∷ pairs) agg h =
        (h a b (inl refl), make-IsFeatured reference pairs agg (λ c d m. h c d (inr m)))

    same-IsFeatured :
        (reference : Dict Key (Value Row)) (pairs : List (Key × Key)) (agg next : Weights Row)
        → ((key : Key) → shape_at key next ≡ shape_at key agg)
        → IsFeatured reference pairs agg
        → IsFeatured reference pairs next
    same-IsFeatured reference [] agg next same h = tt
    same-IsFeatured reference ((a, b) ∷ pairs) agg next same h =
        let (first, both, fa, fb) = h.0 in
        ((first, both, same a ∙ fa, same b ∙ fb), same-IsFeatured reference pairs agg next same h.1)

    added_pairs-shape :
        (weight : Float) (model : Dict Key (Value Row)) (pairs : List (Key × Key)) (key : Key)
        (agg : Weights Row)
        → shape_at key (added_pairs scale add max_rank weight model pairs agg) ≡ shape_at key agg
    unfolding added_pairs
    added_pairs-shape weight model [] key agg = refl
    added_pairs-shape weight model ((a, b) ∷ pairs) key agg =
        added_pairs-shape weight model pairs key
          (added_pair scale add max_rank weight model a b agg)
        ∙ added_pair-shape weight model a b key agg

    add_pairs-checked :
        (weight : Float) (model reference : Dict Key (Value Row)) (pairs : List (Key × Key))
        (agg : Weights Row)
        → IsFeatured reference pairs agg
        → add_pairs scale add max_rank weight model pairs agg
          ≡ checked
              (model_fits reference model pairs)
              (added_pairs scale add max_rank weight model pairs agg)
    unfolding add_pairs added_pairs
    add_pairs-checked weight model reference [] agg h = refl
    add_pairs-checked weight model reference ((a, b) ∷ pairs) agg h =
        let (first, both, fa, fb) = h.0 in
        let next = added_pair scale add max_rank weight model a b agg in
        let rest = add_pairs-checked weight model reference pairs next (
          same-IsFeatured reference pairs agg next
            (λ key. added_pair-shape weight model a b key agg) h.1) in
        ap (λ r. r >>= add_pairs scale add max_rank weight model pairs)
          (add_pair-checked weight model a b first agg fa fb)
        ∙ checked->>= (pair_fits first (both_tensors a b model)) (model_fits reference model pairs)
            next (added_pairs scale add max_rank weight model pairs next)
            (add_pairs scale add max_rank weight model pairs) rest
        ∙ ap
            (λ o.
              checked
                (elim o [ none ↦ true | some r ↦ pair_fits r (both_tensors a b model) ]
                  && model_fits reference model pairs)
                (added_pairs scale add max_rank weight model pairs next))
            (sym both)

    pub add_models-checked :
        (reference : Dict Key (Value Row)) (pairs : List (Key × Key))
        (models : List (Float × Dict Key (Value Row))) (agg : Weights Row)
        → IsFeatured reference pairs agg
        → add_models scale add max_rank pairs models agg
          ≡ checked
              (all_fit reference pairs models)
              (added_models scale add max_rank pairs models agg)
    unfolding add_models added_models
    add_models-checked reference pairs [] agg h = refl
    add_models-checked reference pairs ((weight, model) ∷ models) agg h =
        let next = added_pairs scale add max_rank weight model pairs agg in
        let rest = add_models-checked reference pairs models next (
          same-IsFeatured reference pairs agg next
            (λ key. added_pairs-shape weight model pairs key agg) h) in
        ap (λ r. r >>= add_models scale add max_rank pairs models)
          (add_pairs-checked weight model reference pairs agg h)
        ∙ checked->>= (model_fits reference model pairs) (all_fit reference pairs models) next
            (added_models scale add max_rank pairs models next)
            (add_models scale add max_rank pairs models) rest
