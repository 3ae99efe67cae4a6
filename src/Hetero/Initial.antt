-- ===== src/Hetero/Initial.antt =====
-- The zero tensors that the sums of federatedscope/core/aggregators/heterolora_aggregator.py start
-- from, and the pairs that they are made for.
use mathlib.Core.Path.{subst}
use fed_lo_ra_public.Prelude.{
  ℕ, ◌≡◌, ◌≢◌, refl, sym, ap, List, [], ◌∷◌, none, some, Dict, lookup, insert, lookup-insert,
  beq_refl, Elem, Distinct, inl, inr, ◌⊎◌, arith, Option-cases,
}
use fed_lo_ra_public.Hetero.Keys.{Key, key_eq}
use fed_lo_ra_public.Hetero.Distribute.{Tensor, Value, Weights}
use fed_lo_ra_public.Hetero.Aggregate.{both_tensors, valid_pairs, zero_tensor, initial}
use fed_lo_ra_public.Hetero.Averaging.{pair_keys}

module _ {Row : Type 0} (reference : Dict Key (Value Row)) where
  valid_pairs-cons :
      (c d : Key) (pairs : List (Key × Key))
      → ((both_tensors c d reference ≡ none)
          × (valid_pairs reference ((c, d) ∷ pairs) ≡ valid_pairs reference pairs))
        ⊎ ((cd : Tensor Row × Tensor Row) × (both_tensors c d reference ≡ some cd)
            × (valid_pairs reference ((c, d) ∷ pairs) ≡ (c, d) ∷ valid_pairs reference pairs))
  unfolding valid_pairs
  valid_pairs-cons c d pairs = elim (Option-cases (both_tensors c d reference)) [
    | inl absent ↦ inl (absent, ground (arith, absent))
    | inr (cd, found) ↦ inr (cd, found, ground (arith, found))
  ]

  pub valid-Elem :
      (pairs : List (Key × Key)) (a b : Key) (ab : Tensor Row × Tensor Row)
      → Elem (a, b) pairs
      → both_tensors a b reference ≡ some ab
      → Elem (a, b) (valid_pairs reference pairs)
  valid-Elem [] a b ab m both = absurd m
  valid-Elem ((c, d) ∷ pairs) a b ab (inl e) both =
      let here : both_tensors c d reference ≡ some ab =
        rw (← ap (λ x. x.0) e, ← ap (λ x. x.1) e) both in
      elim (valid_pairs-cons c d pairs) [
        | inl (absent, _) ↦ absurd (ground (arith, here, absent))
        | inr (cd, _, cons) ↦ subst (Elem (a, b)) (sym cons) (inl e)
      ]
  valid-Elem ((c, d) ∷ pairs) a b ab (inr m) both =
      let rest = valid-Elem pairs a b ab m both in
      elim (valid_pairs-cons c d pairs) [
        | inl (_, same) ↦ subst (Elem (a, b)) (sym same) rest
        | inr (cd, _, cons) ↦ subst (Elem (a, b)) (sym cons) (inr rest)
      ]

  pub valid-Both :
      (pairs : List (Key × Key)) (a b : Key)
      → Elem (a, b) (valid_pairs reference pairs)
      → Elem (a, b) pairs
        × ((ab : Tensor Row × Tensor Row) × (both_tensors a b reference ≡ some ab))
  unfolding valid_pairs
  valid-Both [] a b m = absurd m
  valid-Both ((c, d) ∷ pairs) a b m = elim (valid_pairs-cons c d pairs) [
    | inl (_, same) ↦
        let (later, both) = valid-Both pairs a b (subst (Elem (a, b)) same m) in (inr later, both)
    | inr (cd, found, cons) ↦ elim (subst (Elem (a, b)) cons m) [
      | inl e ↦ (inl e, (cd, rw (ap (λ x. x.0) e, ap (λ x. x.1) e) found))
      | inr later ↦ let (m', both) = valid-Both pairs a b later in (inr m', both)
    ]
  ]

  valid-key :
      (pairs : List (Key × Key)) (key : Key)
      → Elem key (pair_keys (valid_pairs reference pairs))
      → Elem key (pair_keys pairs)
  unfolding valid_pairs
  valid-key [] key m = absurd m
  valid-key ((c, d) ∷ pairs) key m = elim (valid_pairs-cons c d pairs) [
    | inl (_, same) ↦ inr (inr (valid-key pairs key (subst (λ x. Elem key (pair_keys x)) same m)))
    | inr (cd, _, cons) ↦ elim (subst (λ x. Elem key (pair_keys x)) cons m) [
      | inl e ↦ inl e
      | inr (inl e) ↦ inr (inl e)
      | inr (inr later) ↦ inr (inr (valid-key pairs key later))
    ]
  ]

  pub valid-Distinct :
      (pairs : List (Key × Key))
      → Distinct (pair_keys pairs)
      → Distinct (pair_keys (valid_pairs reference pairs))
  unfolding valid_pairs
  valid-Distinct [] h = tt
  valid-Distinct ((c, d) ∷ pairs) h =
      let rest = valid-Distinct pairs h.1.1 in
      elim (valid_pairs-cons c d pairs) [
        | inl (_, same) ↦ subst (λ x. Distinct (pair_keys x)) (sym same) rest
        | inr (cd, _, cons) ↦
            let first : Elem c (d ∷ pair_keys (valid_pairs reference pairs)) → ⊥ = λ m. elim m [
              | inl e ↦ h.0 (inl e)
              | inr later ↦ h.0 (inr (valid-key pairs c later))
            ] in
            subst (λ x. Distinct (pair_keys x)) (sym cons)
              (first, ((λ m. h.1.0 (valid-key pairs d m)), rest))
      ]

  module _ (zeros : ℕ → Row) (max_rank : ℕ) where
    initial-other :
        (pairs : List (Key × Key)) (key : Key) (agg : Weights Row)
        → (Elem key (pair_keys pairs) → ⊥)
        → lookup key (initial zeros max_rank reference pairs agg) ≡ lookup key agg
    unfolding initial
    initial-other [] key agg absent = refl
    initial-other ((c, d) ∷ pairs) key agg absent =
        let not_c : c ≢ key = λ e. absent (inl (sym e)) in
        let not_d : d ≢ key = λ e. absent (inr (inl (sym e))) in
        let later = λ (x : Weights Row). initial-other pairs key x (λ m. absent (inr (inr m))) in
        elim (Option-cases (both_tensors c d reference)) [
          | inl none_here ↦ ground (arith, none_here, later agg)
          | inr (cd, found) ↦
              let za = zero_tensor zeros max_rank cd.0.features in
              let zb = zero_tensor zeros max_rank cd.1.features in
              let with_a = insert c za agg in
              ground (
                arith,
                found,
                later (insert d zb with_a),
                lookup-insert d key zb with_a,
                lookup-insert c key za agg,
                key_eq.beq_iff c key,
                key_eq.beq_iff d key,
                not_c,
                not_d,
              )
        ]

    pub initial-own :
        (pairs : List (Key × Key)) (a b : Key) (ab : Tensor Row × Tensor Row) (agg : Weights Row)
        → Distinct (pair_keys pairs)
        → Elem (a, b) pairs
        → both_tensors a b reference ≡ some ab
        → let start = initial zeros max_rank reference pairs agg in
          (lookup a start ≡ some (zero_tensor zeros max_rank ab.0.features))
          × (lookup b start ≡ some (zero_tensor zeros max_rank ab.1.features))
    unfolding initial
    initial-own [] a b ab agg distinct m both = absurd m
    initial-own ((c, d) ∷ pairs) a b ab agg distinct (inl e) both =
        let ea : a ≡ c = ap (λ x. x.0) e in
        let eb : b ≡ d = ap (λ x. x.1) e in
        let here : both_tensors c d reference ≡ some ab = rw (← ea, ← eb) both in
        let za = zero_tensor zeros max_rank ab.0.features in
        let zb = zero_tensor zeros max_rank ab.1.features in
        let with_a = insert c za agg in
        let next = insert d zb with_a in
        let apart : d ≢ c = λ s. distinct.0 (inl (sym s)) in
        let kept_a = initial-other pairs c next (λ m. distinct.0 (inr m)) in
        let kept_b = initial-other pairs d next distinct.1.0 in
        let own_a : lookup c next ≡ some za = ground (
          arith,
          lookup-insert d c zb with_a,
          lookup-insert c c za agg,
          beq_refl c,
          key_eq.beq_iff d c,
          apart,
        ) in
        let own_b : lookup d next ≡ some zb =
          ground (arith, lookup-insert d d zb with_a, beq_refl d) in
        rw (ea, eb) (ground (arith, here, kept_a, kept_b, own_a, own_b))
    initial-own ((c, d) ∷ pairs) a b ab agg distinct (inr m) both =
        elim (Option-cases (both_tensors c d reference)) [
          | inl none_here ↦
              ground (arith, none_here, initial-own pairs a b ab agg distinct.1.1 m both)
          | inr (cd, found) ↦
              let next =
                insert d (zero_tensor zeros max_rank cd.1.features)
                  (insert c (zero_tensor zeros max_rank cd.0.features) agg) in
              ground (arith, found, initial-own pairs a b ab next distinct.1.1 m both)
        ]
