-- ===== src/Hetero/Averaging.antt =====
-- The sums of federatedscope/core/aggregators/heterolora_aggregator.py seen from one pair of LoRA
-- weights: the loops over the clients and over the pairs give it what a loop over the clients gives.
use mathlib.Core.Path.{subst}
use fed_lo_ra_public.Prelude.{
  ℕ, Bool, true, false, ◌≡◌, ◌≢◌, refl, sym, ◌∙◌, ap, List, [], ◌∷◌, length, none, some, ◌==◌, Dict,
  lookup, lookup-insert, beq_refl, Elem, Distinct, inl, inr, arith, Bool-cases, Option-cases, min,
}
use fed_lo_ra_public.Hetero.Keys.{Key, key_eq}
use fed_lo_ra_public.Hetero.Distribute.{Tensor, Value, Weights}
use fed_lo_ra_public.Hetero.Aggregate.{both_tensors, add_rows, capped_rank}
use fed_lo_ra_public.Hetero.Unchecked.{added, added_at, added_pair, added_pairs, added_models}

-- The keys of the pairs.
abbrev pub pair_keys : List (Key × Key) → List Key
pair_keys [] = []
pair_keys ((a, b) ∷ pairs) = a ∷ b ∷ pair_keys pairs

pub pair_keys-a :
    (a b : Key) (pairs : List (Key × Key)) → Elem (a, b) pairs → Elem a (pair_keys pairs)
pair_keys-a a b [] m = absurd m
pair_keys-a a b ((c, d) ∷ pairs) (inl e) = inl (ap (λ x. x.0) e)
pair_keys-a a b ((c, d) ∷ pairs) (inr m) = inr (inr (pair_keys-a a b pairs m))

pub pair_keys-b :
    (a b : Key) (pairs : List (Key × Key)) → Elem (a, b) pairs → Elem b (pair_keys pairs)
pair_keys-b a b [] m = absurd m
pair_keys-b a b ((c, d) ∷ pairs) (inl e) = inr (inl (ap (λ x. x.1) e))
pair_keys-b a b ((c, d) ∷ pairs) (inr m) = inr (inr (pair_keys-b a b pairs m))

-- The A of a pair, or the B.
abbrev pub pick : {Row : Type 0} → Bool → Tensor Row × Tensor Row → Tensor Row
pick true ab = ab.0
pick false ab = ab.1

module _ {Row Float : Type 0} (scale : Row → Float → Row) (add : Row → Row → Row)
    (max_rank : ℕ) where
  -- What one client adds to one tensor of a pair.
  unfoldable pub own_step :
      Bool → Key → Key → Float × Dict Key (Value Row) → Tensor Row → Tensor Row
  own_step side a b (weight, model) t = elim (both_tensors a b model) [
    | none ↦ t
    | some ab ↦ added scale add (capped_rank max_rank ab.0 ab.1) weight (pick side ab) t
  ]

  unfoldable pub own_sum :
      Bool → Key → Key → List (Float × Dict Key (Value Row)) → Tensor Row → Tensor Row
  own_sum side a b [] t = t
  own_sum side a b (m ∷ models) t = own_sum side a b models (own_step side a b m t)

  added_at-own :
      (key : Key) (n : ℕ) (weight : Float) (local t : Tensor Row) (agg : Weights Row)
      → lookup key agg ≡ some t
      → lookup key (added_at scale add key n weight local agg)
        ≡ some (added scale add n weight local t)
  unfolding added_at
  added_at-own key n weight local t agg found =
      ground
        (arith, found, beq_refl key, lookup-insert key key (added scale add n weight local t) agg)

  added_at-other :
      (key other : Key) (n : ℕ) (weight : Float) (local : Tensor Row) (agg : Weights Row)
      → key ≢ other
      → lookup other (added_at scale add key n weight local agg) ≡ lookup other agg
  unfolding added_at
  added_at-other key other n weight local agg differ = elim (Option-cases (lookup key agg)) [
    | inl absent ↦ ground (arith, absent)
    | inr (t, found) ↦ ground (
      arith,
      found,
      key_eq.beq_iff key other,
      differ,
      lookup-insert key other (added scale add n weight local t) agg,
    )
  ]

  added_pair-other :
      (weight : Float) (model : Dict Key (Value Row)) (a b other : Key) (agg : Weights Row)
      → a ≢ other
      → b ≢ other
      → lookup other (added_pair scale add max_rank weight model a b agg) ≡ lookup other agg
  unfolding added_pair
  added_pair-other weight model a b other agg da db = elim (Option-cases (both_tensors a b model)) [
    | inl absent ↦ ground (arith, absent)
    | inr (ab, found) ↦
        let n = capped_rank max_rank ab.0 ab.1 in
        let first = added_at scale add a n weight ab.0 agg in
        ground (
          arith,
          found,
          added_at-other b other n weight ab.1 first db,
          added_at-other a other n weight ab.0 agg da,
        )
  ]

  -- Nothing is added at rank 0.
  added-zero :
      (n : ℕ) (weight : Float) (local t : Tensor Row) → n ≡ 0 → added scale add n weight local t ≡ t
  unfolding added add_rows
  added-zero n weight local t e = rw e refl

  added_pair-own :
      (weight : Float) (model : Dict Key (Value Row)) (a b : Key) (agg : Weights Row)
      (ta tb : Tensor Row)
      → a ≢ b
      → lookup a agg ≡ some ta
      → lookup b agg ≡ some tb
      → let after = added_pair scale add max_rank weight model a b agg in
        (lookup a after ≡ some (own_step true a b (weight, model) ta))
        × (lookup b after ≡ some (own_step false a b (weight, model) tb))
  unfolding added_pair own_step capped_rank
  added_pair-own weight model a b agg ta tb differ fa fb =
      elim (Option-cases (both_tensors a b model)) [
        | inl absent ↦ ground (arith, absent, fa, fb)
        | inr (ab, found) ↦
            let n = capped_rank max_rank ab.0 ab.1 in
            let first = added_at scale add a n weight ab.0 agg in
            let own = added_at-own a n weight ab.0 ta agg fa in
            let kept = added_at-other b a n weight ab.1 first (λ e. differ (sym e)) in
            let fb' : lookup b first ≡ some tb = added_at-other a b n weight ab.0 agg differ ∙ fb in
            let own' = added_at-own b n weight ab.1 tb first fb' in
            elim (Bool-cases (min (length ab.0.components) (length ab.1.components) == 0)) [
              | inr ranked ↦ ground (arith, found, ranked, own, kept, own')
              | inl none_left ↦
                  let bare : n ≡ 0 = ground (arith, none_left) in
                  let same_a = added-zero n weight ab.0 ta bare in
                  let same_b = added-zero n weight ab.1 tb bare in
                  ground (arith, found, none_left, fa, fb, same_a, same_b)
            ]
      ]

  added_pairs-other :
      (weight : Float) (model : Dict Key (Value Row)) (pairs : List (Key × Key)) (key : Key)
      (agg : Weights Row)
      → (Elem key (pair_keys pairs) → ⊥)
      → lookup key (added_pairs scale add max_rank weight model pairs agg) ≡ lookup key agg
  unfolding added_pairs
  added_pairs-other weight model [] key agg absent = refl
  added_pairs-other weight model ((a, b) ∷ pairs) key agg absent =
      added_pairs-other weight model pairs key (added_pair scale add max_rank weight model a b agg)
        (λ m. absent (inr (inr m)))
      ∙ added_pair-other weight model a b key agg (λ e. absent (inl (sym e)))
          (λ e. absent (inr (inl (sym e))))

  added_pairs-own :
      (weight : Float) (model : Dict Key (Value Row)) (pairs : List (Key × Key)) (a b : Key)
      (agg : Weights Row) (ta tb : Tensor Row)
      → Distinct (pair_keys pairs)
      → Elem (a, b) pairs
      → lookup a agg ≡ some ta
      → lookup b agg ≡ some tb
      → let after = added_pairs scale add max_rank weight model pairs agg in
        (lookup a after ≡ some (own_step true a b (weight, model) ta))
        × (lookup b after ≡ some (own_step false a b (weight, model) tb))
  unfolding added_pairs
  added_pairs-own weight model [] a b agg ta tb distinct m fa fb = absurd m
  added_pairs-own weight model ((c, d) ∷ pairs) a b agg ta tb distinct (inl e) fa fb =
      let ea : a ≡ c = ap (λ x. x.0) e in
      let eb : b ≡ d = ap (λ x. x.1) e in
      let differ : a ≢ b = λ s. distinct.0 (inl (sym ea ∙ s ∙ eb)) in
      let absent_a : Elem a (pair_keys pairs) → ⊥ =
        λ m. distinct.0 (inr (subst (λ x. Elem x (pair_keys pairs)) ea m)) in
      let absent_b : Elem b (pair_keys pairs) → ⊥ =
        λ m. distinct.1.0 (subst (λ x. Elem x (pair_keys pairs)) eb m) in
      let first = added_pair scale add max_rank weight model a b agg in
      let (own_a, own_b) = added_pair-own weight model a b agg ta tb differ fa fb in
      rw (← ea, ← eb)
        (
          added_pairs-other weight model pairs a first absent_a ∙ own_a,
          added_pairs-other weight model pairs b first absent_b ∙ own_b,
        )
  added_pairs-own weight model ((c, d) ∷ pairs) a b agg ta tb distinct (inr m) fa fb =
      let in_a = pair_keys-a a b pairs m in
      let in_b = pair_keys-b a b pairs m in
      let apart : (key : Key) → Elem key (pair_keys pairs) → (c ≢ key) × (d ≢ key) = λ key here. (
        (λ e. distinct.0 (inr (subst (λ x. Elem x (pair_keys pairs)) (sym e) here))),
        (λ e. distinct.1.0 (subst (λ x. Elem x (pair_keys pairs)) (sym e) here)),
      ) in
      let kept_a = added_pair-other weight model c d a agg (apart a in_a).0 (apart a in_a).1 in
      let kept_b = added_pair-other weight model c d b agg (apart b in_b).0 (apart b in_b).1 in
      added_pairs-own weight model pairs a b (added_pair scale add max_rank weight model c d agg) ta
        tb distinct.1.1 m (kept_a ∙ fa) (kept_b ∙ fb)

  pub added_models-own :
      (models : List (Float × Dict Key (Value Row))) (pairs : List (Key × Key)) (a b : Key)
      (agg : Weights Row) (ta tb : Tensor Row)
      → Distinct (pair_keys pairs)
      → Elem (a, b) pairs
      → lookup a agg ≡ some ta
      → lookup b agg ≡ some tb
      → let after = added_models scale add max_rank pairs models agg in
        (lookup a after ≡ some (own_sum true a b models ta))
        × (lookup b after ≡ some (own_sum false a b models tb))
  unfolding added_models own_sum
  added_models-own [] pairs a b agg ta tb distinct m fa fb = (fa, fb)
  added_models-own ((weight, model) ∷ models) pairs a b agg ta tb distinct m fa fb =
      let (fa', fb') = added_pairs-own weight model pairs a b agg ta tb distinct m fa fb in
      added_models-own models pairs a b (added_pairs scale add max_rank weight model pairs agg)
        (own_step true a b (weight, model) ta) (own_step false a b (weight, model) tb) distinct m
        fa' fb'
