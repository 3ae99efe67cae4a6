-- ===== src/Hetero/Download.antt =====
-- From the server's aggregated weights to a client's parameters: distribute_weight_fast and
-- load_weight_local of federatedscope/contrib/common/heterolora_utils.py, one after the other.
use Prim.Native.String.{String}
use fed_lo_ra_public.Prelude.{
  ℕ, Bool, true, false, ◌&&◌, ◌≡◌, ◌≢◌, refl, ◌∙◌, List, [], ◌∷◌, some, Dict, Eq, keys, lookup,
  lookup_or, insert, lookup-insert, Elem, Distinct, All, inl, inr, ◌⊎◌, arith, Bool-cases, beq_refl,
  ok,
}
use fed_lo_ra_public.Hetero.Keys.{Key, key_eq, is_lora}
use fed_lo_ra_public.Hetero.Distribute.{
  Tensor, Value, Weights, RankConfig, weights_for, distribute_weight_fast,
}
use fed_lo_ra_public.Hetero.Load.{
  Param, skipped, loaded, is_missing, store_key, load_one, store, load_all, load_weight_local,
}
use fed_lo_ra_public.Hetero.PerClient.{all_aligned, distribute_weight_fast_lem}
use fed_lo_ra_public.Hetero.Sent.{canonical_keys}
use fed_lo_ra_public.Hetero.Served.{IsServedBy, IsServed, received, load_one-IsServedBy}

-- The keys that the parameters are stored under.
abbrev pub store_keys : {Row : Type 0} → Bool → List (Param Row) → List Key
store_keys strip [] = []
store_keys strip (p ∷ params) = store_key strip p.name ∷ store_keys strip params

module _ (in_key : String → Key → Bool) (len : String → ℕ) {Row : Type 0}
    (zero_of : Row → Row) where
  -- A parameter that is served is passed over or has a weight.
  load_one-IsServed :
      (max_rank : ℕ) (rc : RankConfig) (weights : Dict Key (Value Row)) (p : Param Row)
      → Distinct (canonical_keys weights)
      → all_aligned in_key max_rank weights ≡ true
      → IsServed in_key len max_rank rc weights p
      → let one =
          load_one zero_of in_key len (weights_for in_key len max_rank rc weights []) rc p in
        (one ≡ ok skipped) ⊎ ((t : Tensor Row) × (one ≡ ok (loaded t)))
  unfolding load_one
  load_one-IsServed max_rank rc weights p distinct aligned (inl frozen) =
      inl (ground (arith, frozen))
  load_one-IsServed max_rank rc weights p distinct aligned (inr (inl absent)) =
      elim (Bool-cases (p.requires_grad && is_lora in_key p.name)) [
        | inl trains ↦ inl (ground (arith, trains, absent))
        | inr frozen ↦ inl (ground (arith, frozen))
      ]
  load_one-IsServed max_rank rc weights p distinct aligned (inr (inr (k, t, r, served))) = inr (
    received in_key len zero_of p t r,
    load_one-IsServedBy in_key len zero_of max_rank rc weights p k t r distinct aligned served,
  )

  module _ (strip : Bool) where
    load_all-other :
        (max_rank : ℕ) (rc : RankConfig) (weights : Dict Key (Value Row))
        (params : List (Param Row)) (acc : Weights Row) (key : Key)
        → Distinct (canonical_keys weights)
        → all_aligned in_key max_rank weights ≡ true
        → All (IsServed in_key len max_rank rc weights) params
        → (Elem key (store_keys strip params) → ⊥)
        → (out : Weights Row) × (load_all zero_of in_key len strip
              (weights_for in_key len max_rank rc weights [])
              rc
              params
              acc
              false
            ≡ ok (out, false))
          × (lookup key out ≡ lookup key acc)
    unfolding load_all store is_missing
    load_all-other max_rank rc weights [] acc key distinct aligned h absent = (acc, refl, refl)
    load_all-other max_rank rc weights (p ∷ params) acc key distinct aligned h absent =
        elim (load_one-IsServed max_rank rc weights p distinct aligned h.0) [
          | inl e ↦
              let (out, good, same) =
                load_all-other max_rank rc weights params acc key distinct aligned h.1
                  (λ m. absent (inr m)) in
              (out, rw e good, same)
          | inr (t, e) ↦
              let stored = store_key strip p.name in
              let (out, good, same) =
                load_all-other max_rank rc weights params (insert stored t acc) key distinct aligned
                  h.1 (λ m. absent (inr m)) in
              let differ : key ≢ stored = λ m. absent (inl m) in
              (
                out,
                rw e good,
                same
                    ∙ ground
                        (arith, lookup-insert stored key t acc, key_eq.beq_iff stored key, differ),
              )
        ]

    load_all-own :
        (max_rank : ℕ) (rc : RankConfig) (weights : Dict Key (Value Row))
        (params : List (Param Row)) (acc : Weights Row) (p : Param Row) (k : Key) (t : Tensor Row)
        (r : ℕ)
        → Distinct (canonical_keys weights)
        → all_aligned in_key max_rank weights ≡ true
        → All (IsServed in_key len max_rank rc weights) params
        → Distinct (store_keys strip params)
        → Elem p params
        → IsServedBy in_key len max_rank rc weights p k t r
        → (out : Weights Row) × (load_all zero_of in_key len strip
              (weights_for in_key len max_rank rc weights [])
              rc
              params
              acc
              false
            ≡ ok (out, false))
          × (lookup (store_key strip p.name) out ≡ some (received in_key len zero_of p t r))
    unfolding load_all store is_missing
    load_all-own max_rank rc weights [] acc p k t r distinct aligned h stores m served = absurd m
    load_all-own max_rank rc weights (q ∷ params) acc p k t r distinct aligned h stores (inl e)
          served =
        let one =
          load_one-IsServedBy in_key len zero_of max_rank rc weights p k t r distinct aligned
            served in
        let new = received in_key len zero_of p t r in
        let stored = store_key strip p.name in
        let absent : Elem stored (store_keys strip params) → ⊥ = rw e stores.0 in
        let (out, good, same) =
          load_all-other max_rank rc weights params (insert stored new acc) stored distinct aligned
            h.1 absent in
        (
          out,
          rw (← e, one) good,
          same ∙ ground (arith, lookup-insert stored stored new acc, beq_refl stored),
        )
    load_all-own max_rank rc weights (q ∷ params) acc p k t r distinct aligned h stores (inr m)
          served =
        elim (load_one-IsServed max_rank rc weights q distinct aligned h.0) [
          | inl e ↦
              let (out, good, found) =
                load_all-own max_rank rc weights params acc p k t r distinct aligned h.1 stores.1 m
                  served in
              (out, rw e good, found)
          | inr (u, e) ↦
              let (out, good, found) =
                load_all-own max_rank rc weights params (insert (store_key strip q.name) u acc) p k
                  t r distinct aligned h.1 stores.1 m served in
              (out, rw e good, found)
        ]

    -- If every aggregated tensor has max_rank components, the canonical names of the weights differ, and
    -- so do the keys that the client stores, the client is in the configuration, and each of its
    -- parameters needs no weight or is served by one: the distribution and the loading succeed, and a
    -- parameter that the weight `t` serves at the rank `r` gets the first r components of `t`, with zeros
    -- up to the size of the parameter, or as many of them as it has.
    pub download_lem :
        {Name : Type 0} ⦃e : Eq Name⦄ (is_client : Name → Bool) (max_rank : ℕ) (c : Name)
        (rc : RankConfig) (config : Dict Name RankConfig) (weights : Dict Key (Value Row))
        (params : List (Param Row)) (p : Param Row) (k : Key) (t : Tensor Row) (r : ℕ)
        → is_client c ≡ true
        → Distinct (keys config)
        → lookup c config ≡ some rc
        → all_aligned in_key max_rank weights ≡ true
        → Distinct (canonical_keys weights)
        → All (IsServed in_key len max_rank rc weights) params
        → Distinct (store_keys strip params)
        → Elem p params
        → IsServedBy in_key len max_rank rc weights p k t r
        → (d : Dict Name (Weights Row)) × (distribute_weight_fast in_key len is_client weights
              config
              (some max_rank)
            ≡ ok d)
          × (out : Weights Row) × (load_weight_local zero_of in_key len strip
                (lookup_or [] c d)
                (some rc)
                params
              ≡ ok out)
          × (lookup (store_key strip p.name) out ≡ some (received in_key len zero_of p t r))
    unfolding load_weight_local
    download_lem is_client max_rank c rc config weights params p k t r named distinct found aligned
          canonical h stores m served =
        elim (distribute_weight_fast_lem in_key len is_client max_rank c rc config weights named
          distinct found) [
            | inl (differ, _) ↦ absurd (ground (arith, differ, aligned))
            | inr (_, d, good, mine) ↦
                let (out, loads, has) =
                  load_all-own max_rank rc weights params [] p k t r canonical aligned h stores m
                    served in
                (d, good, out, rw (mine, loads) refl, has)
          ]
