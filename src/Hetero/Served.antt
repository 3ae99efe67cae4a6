-- ===== src/Hetero/Served.antt =====
-- From the server's aggregated weights to a client's parameters: distribute_weight_fast and
-- load_weight_local of federatedscope/contrib/common/heterolora_utils.py, one after the other.
use Prim.Native.String.{String}
use fed_lo_ra_public.Prelude.{
  ℕ, Bool, true, false, ◌&&◌, ◌≡◌, ap, ◌≤◌, [], ◌∷◌, length, none, some, ==_iff, Dict, lookup, Elem,
  Distinct, inl, inr, ◌⊎◌, arith, Option-cases, ok,
}
use fed_lo_ra_public.Hetero.Keys.{
  Key, key_eq, canonical_lora_key, dist_key, is_lora, get_rank_for_param,
}
use fed_lo_ra_public.Hetero.Distribute.{
  Tensor, Value, tensor, other, RankConfig, truncated, usable_rank, weights_for,
}
use fed_lo_ra_public.Hetero.Load.{Param, loaded, load_one}
use fed_lo_ra_public.Hetero.PerClient.{all_aligned}
use fed_lo_ra_public.Hetero.Fitting.{fitted, adapt-truncated}
use fed_lo_ra_public.Hetero.Sent.{canonical_keys, weights_for-own}

module _ (in_key : String → Key → Bool) (len : String → ℕ) where
  usable-rank :
      (max_rank r : ℕ) (base_key : Key) (rc : RankConfig)
      → usable_rank in_key len max_rank base_key rc ≡ some r
      → (get_rank_for_param in_key len base_key rc ≡ some r) × (r ≤ max_rank)
  unfolding usable_rank
  usable-rank max_rank r base_key rc h =
      elim (Option-cases (get_rank_for_param in_key len base_key rc)) [
        | inl absent ↦ absurd (ground (arith, h, absent))
        | inr (s, found) ↦ ground (arith, h, found)
      ]

module _ (in_key : String → Key → Bool) (len : String → ℕ) {Row : Type 0} where
  aligned-Elem :
      (max_rank : ℕ) (weights : Dict Key (Value Row)) (k : Key) (t : Tensor Row)
      → all_aligned in_key max_rank weights ≡ true
      → Elem (k, tensor t) weights
      → is_lora in_key k ≡ true
      → length t.components ≡ max_rank
  aligned-Elem max_rank [] k t h m lora = absurd m
  aligned-Elem max_rank ((j, other) ∷ weights) k t h (inl e) lora =
      let clash : tensor t ≡ other = ap (λ x. x.1) e in absurd (ground (arith, clash))
  aligned-Elem max_rank ((j, other) ∷ weights) k t h (inr m) lora =
      aligned-Elem max_rank weights k t h m lora
  aligned-Elem max_rank ((j, tensor u) ∷ weights) k t h (inl e) lora =
      let key : k ≡ j = ap (λ x. x.0) e in
      let value : tensor t ≡ tensor u = ap (λ x. x.1) e in
      let same : t ≡ u = ground (arith, value) in
      let sizes : length t.components ≡ length u.components = ap (λ x. length x.components) same in
      let lora' : is_lora in_key j ≡ true = rw (← key) lora in
      ground (arith, h, lora', sizes, ==_iff (length u.components) max_rank)
  aligned-Elem max_rank ((j, tensor u) ∷ weights) k t h (inr m) lora =
      aligned-Elem max_rank weights k t (ground (arith, h)) m lora

  -- A parameter that is served by the weight `t` at the rank `r`.
  abbrev pub IsServedBy :
      ℕ → RankConfig → Dict Key (Value Row) → Param Row → Key → Tensor Row → ℕ → Type 0
  IsServedBy max_rank rc weights p k t r =
      Elem (k, tensor t) weights
      × (is_lora in_key k ≡ true)
      × (canonical_lora_key k ≡ canonical_lora_key p.name)
      × ((p.requires_grad && is_lora in_key p.name) ≡ true)
      × (usable_rank in_key len max_rank (canonical_lora_key k) rc ≡ some r)
      × (t.features ≡ p.value.features)

  -- A parameter that the client need not load, or that an aggregated weight serves.
  abbrev pub IsServed : ℕ → RankConfig → Dict Key (Value Row) → Param Row → Type 0
  IsServed max_rank rc weights p =
      ((p.requires_grad && is_lora in_key p.name) ≡ false)
      ⊎ (get_rank_for_param in_key len (canonical_lora_key p.name) rc ≡ none)
      ⊎ ((k : Key) × (t : Tensor Row) × (r : ℕ) × IsServedBy max_rank rc weights p k t r)

  module _ (zero_of : Row → Row) where
    abbrev pub received : Param Row → Tensor Row → ℕ → Tensor Row
    received p t r = record {
      features = p.value.features;
      components = fitted zero_of r t.components p.value.components;
    }

    pub load_one-IsServedBy :
        (max_rank : ℕ) (rc : RankConfig) (weights : Dict Key (Value Row)) (p : Param Row) (k : Key)
        (t : Tensor Row) (r : ℕ)
        → Distinct (canonical_keys weights)
        → all_aligned in_key max_rank weights ≡ true
        → IsServedBy max_rank rc weights p k t r
        → load_one zero_of in_key len (weights_for in_key len max_rank rc weights []) rc p
          ≡ ok (loaded (received p t r))
    unfolding load_one
    load_one-IsServedBy max_rank rc weights p k t r distinct aligned
          (m, lora, name, trains, found, features) =
        let sent = weights_for-own in_key len max_rank rc weights [] k t r distinct m lora found in
        let sent' : lookup (dist_key (canonical_lora_key p.name) r)
              (weights_for in_key len max_rank rc weights [])
            ≡ some (truncated r t) =
          rw (← name) sent in
        let (rank, le) = usable-rank in_key len max_rank r (canonical_lora_key k) rc found in
        let rank' : get_rank_for_param in_key len (canonical_lora_key p.name) rc ≡ some r =
          rw (← name) rank in
        let size = aligned-Elem max_rank weights k t aligned m lora in
        let fits = adapt-truncated zero_of r t p.value features (omega (arith, size, le)) in
        ground (arith, trains, rank', sent', fits)
