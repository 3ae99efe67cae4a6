-- ===== src/Hetero/Sent.antt =====
-- What distribute_weight_fast of federatedscope/contrib/common/heterolora_utils.py sends a client of
-- one of the aggregated weights: it stands under the weight's name with the client's rank.
use Prim.Native.String.{String}
use fed_lo_ra_public.Prelude.{
  ℕ, Bool, true, false, ◌≡◌, ◌≢◌, refl, sym, ◌∙◌, ap, List, [], ◌∷◌, some, if◌then◌else◌, Dict,
  lookup, lookup-insert, Elem, Distinct, inl, inr, arith, Bool-cases, Option-cases, beq_refl,
}
use fed_lo_ra_public.Hetero.Keys.{
  Key, key_eq, strip_rank, strip_rank-dist_key, canonical_lora_key, dist_key, is_lora,
}
use fed_lo_ra_public.Hetero.Distribute.{
  Tensor, Value, tensor, other, Weights, RankConfig, truncated, usable_rank, add_weight,
  weights_for,
}

-- The canonical names of the aggregated weights.
abbrev pub canonical_keys : {Row : Type 0} → Dict Key (Value Row) → List Key
canonical_keys [] = []
canonical_keys ((k, v) ∷ weights) = canonical_lora_key k ∷ canonical_keys weights

dist_key-differ : (k j : Key) (r s : ℕ) → k ≢ j → key_eq.beq (dist_key k r) (dist_key j s) ≡ false
dist_key-differ k j r s differ =
    let bases : dist_key k r ≡ dist_key j s → k ≡ j =
      λ e. sym (strip_rank-dist_key k r) ∙ ap strip_rank e ∙ strip_rank-dist_key j s in
    ground (
      arith,
      key_eq.beq_iff (dist_key k r) (dist_key j s),
      λ (e : dist_key k r ≡ dist_key j s). differ (bases e),
    )

module _ (in_key : String → Key → Bool) (len : String → ℕ) {Row : Type 0} where
  add_weight-other :
      (max_rank : ℕ) (k base : Key) (t : Tensor Row) (rc : RankConfig) (sent : Weights Row) (r : ℕ)
      → k ≢ base
      → lookup (dist_key base r) (add_weight in_key len max_rank k t rc sent)
        ≡ lookup (dist_key base r) sent
  unfolding add_weight
  add_weight-other max_rank k base t rc sent r differ =
      elim (Option-cases (usable_rank in_key len max_rank k rc)) [
        | inl absent ↦ ground (arith, absent)
        | inr (s, found) ↦ ground (
          arith,
          found,
          dist_key-differ k base s r differ,
          lookup-insert (dist_key k s) (dist_key base r) (truncated s t) sent,
        )
      ]

  add_weight-own :
      (max_rank : ℕ) (base : Key) (t : Tensor Row) (rc : RankConfig) (sent : Weights Row) (r : ℕ)
      → usable_rank in_key len max_rank base rc ≡ some r
      → lookup (dist_key base r) (add_weight in_key len max_rank base t rc sent)
        ≡ some (truncated r t)
  unfolding add_weight
  add_weight-own max_rank base t rc sent r found = ground (
    arith,
    found,
    beq_refl (dist_key base r),
    lookup-insert (dist_key base r) (dist_key base r) (truncated r t) sent,
  )

  weights_for-other :
      (max_rank : ℕ) (base : Key) (rc : RankConfig) (weights : Dict Key (Value Row))
      (sent : Weights Row) (r : ℕ)
      → (Elem base (canonical_keys weights) → ⊥)
      → lookup (dist_key base r) (weights_for in_key len max_rank rc weights sent)
        ≡ lookup (dist_key base r) sent
  unfolding weights_for
  weights_for-other max_rank base rc [] sent r absent = refl
  weights_for-other max_rank base rc ((k, other) ∷ weights) sent r absent =
      weights_for-other max_rank base rc weights sent r (λ m. absent (inr m))
  weights_for-other max_rank base rc ((k, tensor t) ∷ weights) sent r absent =
      let name = canonical_lora_key k in
      let more = add_weight in_key len max_rank name t rc sent in
      let later =
        λ (d : Weights Row). weights_for-other max_rank base rc weights d r (λ m. absent (inr m)) in
      elim (Bool-cases (is_lora in_key k)) [
        | inr no_lora ↦ rw no_lora (later sent)
        | inl lora ↦ rw lora (
            later more
            ∙ add_weight-other max_rank name base t rc sent r (λ e. absent (inl (sym e))))
      ]

  pub weights_for-own :
      (max_rank : ℕ) (rc : RankConfig) (weights : Dict Key (Value Row)) (sent : Weights Row)
      (k : Key) (t : Tensor Row) (r : ℕ)
      → Distinct (canonical_keys weights)
      → Elem (k, tensor t) weights
      → is_lora in_key k ≡ true
      → usable_rank in_key len max_rank (canonical_lora_key k) rc ≡ some r
      → lookup (dist_key (canonical_lora_key k) r) (weights_for in_key len max_rank rc weights sent)
        ≡ some (truncated r t)
  unfolding weights_for
  weights_for-own max_rank rc [] sent k t r distinct m lora found = absurd m
  weights_for-own max_rank rc ((j, other) ∷ weights) sent k t r distinct (inl e) lora found =
      let clash : tensor t ≡ other = ap (λ x. x.1) e in absurd (ground (arith, clash))
  weights_for-own max_rank rc ((j, other) ∷ weights) sent k t r distinct (inr m) lora found =
      weights_for-own max_rank rc weights sent k t r distinct.1 m lora found
  weights_for-own max_rank rc ((j, tensor u) ∷ weights) sent k t r distinct (inl e) lora found =
      let name = canonical_lora_key k in
      let key : k ≡ j = ap (λ x. x.0) e in
      let value : tensor t ≡ tensor u = ap (λ x. x.1) e in
      let same : t ≡ u = ground (arith, value) in
      let absent : Elem name (canonical_keys weights) → ⊥ = rw key distinct.0 in
      let more = add_weight in_key len max_rank name t rc sent in
      let kept =
        weights_for-other max_rank name rc weights more r absent
        ∙ add_weight-own max_rank name t rc sent r found in
      rw (← key, lora, ← same) kept
  weights_for-own max_rank rc ((j, tensor u) ∷ weights) sent k t r distinct (inr m) lora found =
      weights_for-own max_rank rc weights
        (if is_lora in_key j
          then add_weight in_key len max_rank (canonical_lora_key j) u rc sent
          else sent)
        k t r distinct.1 m lora found
