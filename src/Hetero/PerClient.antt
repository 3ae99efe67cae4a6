-- ===== src/Hetero/PerClient.antt =====
-- distribute_weight_fast of federatedscope/contrib/common/heterolora_utils.py seen by one client: its
-- two loops, over the weights and over the clients, give each client what a loop for it alone gives.
use Prim.Native.String.{String}
use mathlib.Core.Path.{subst}
use fed_lo_ra_public.Prelude.{
  ℕ, Bool, true, false, ◌&&◌, ◌||◌, not, ◌≡◌, refl, sym, ◌∙◌, ap, [], ◌∷◌, length, some, ◌==◌, Dict,
  Eq, keys, lookup, lookup_or, insert, lookup-insert, Result, ok, raise, value_error, Elem,
  Distinct, inl, inr, ◌⊎◌, arith, Bool-cases, Option-cases, beq_refl,
}
use fed_lo_ra_public.Hetero.Keys.{Key, key_eq, canonical_lora_key, dist_key, is_lora}
use fed_lo_ra_public.Hetero.Distribute.{
  Tensor, Value, tensor, other, Weights, RankConfig, truncated, usable_rank, add_weight,
  weights_for, to_client, to_clients, distribute_all, distribute_weight_fast,
}

module _ (in_key : String → Key → Bool) (len : String → ℕ) {Name Row : Type 0} ⦃e : Eq Name⦄
    (is_client : Name → Bool) where
  to_client-other :
      (max_rank : ℕ) (base_key : Key) (t : Tensor Row) (j c : Name) (rank_config : RankConfig)
      (d : Dict Name (Weights Row))
      → e.beq j c ≡ false
      → lookup_or [] c (to_client in_key len is_client max_rank base_key t j rank_config d)
        ≡ lookup_or [] c d
  unfolding to_client
  to_client-other max_rank base_key t j c rank_config d differ = elim (Bool-cases (is_client j)) [
    | inr unnamed ↦ ground (arith, unnamed)
    | inl named ↦ elim (Option-cases (usable_rank in_key len max_rank base_key rank_config)) [
      | inl absent ↦ ground (arith, named, absent)
      | inr (rank, found) ↦
          let kept =
            lookup-insert j c
              (insert (dist_key base_key rank) (truncated rank t) (lookup_or [] j d)) d in
          ground (arith, named, found, kept, differ)
    ]
  ]

  to_client-own :
      (max_rank : ℕ) (base_key : Key) (t : Tensor Row) (c : Name) (rank_config : RankConfig)
      (d : Dict Name (Weights Row))
      → is_client c ≡ true
      → lookup_or [] c (to_client in_key len is_client max_rank base_key t c rank_config d)
        ≡ add_weight in_key len max_rank base_key t rank_config (lookup_or [] c d)
  unfolding to_client add_weight
  to_client-own max_rank base_key t c rank_config d named =
      elim (Option-cases (usable_rank in_key len max_rank base_key rank_config)) [
        | inl absent ↦ ground (arith, named, absent)
        | inr (rank, found) ↦
            let new =
              lookup-insert c c
                (insert (dist_key base_key rank) (truncated rank t) (lookup_or [] c d)) d in
            ground (arith, named, found, new, beq_refl c)
      ]

  to_clients-other :
      (max_rank : ℕ) (base_key : Key) (t : Tensor Row) (c : Name) (config : Dict Name RankConfig)
      (d : Dict Name (Weights Row))
      → (Elem c (keys config) → ⊥)
      → lookup_or [] c (to_clients in_key len is_client max_rank base_key t config d)
        ≡ lookup_or [] c d
  unfolding to_clients
  to_clients-other max_rank base_key t c [] d absent = refl
  to_clients-other max_rank base_key t c ((j, rc) ∷ config) d absent =
      let d' = to_client in_key len is_client max_rank base_key t j rc d in
      let differ : e.beq j c ≡ false =
        ground (arith, e.beq_iff j c, λ (same : c ≡ j). absent (inl same)) in
      to_clients-other max_rank base_key t c config d' (λ m. absent (inr m))
      ∙ to_client-other max_rank base_key t j c rc d differ

  to_clients-own :
      (max_rank : ℕ) (base_key : Key) (t : Tensor Row) (c : Name) (rank_config : RankConfig)
      (config : Dict Name RankConfig) (d : Dict Name (Weights Row))
      → is_client c ≡ true
      → Distinct (keys config)
      → lookup c config ≡ some rank_config
      → lookup_or [] c (to_clients in_key len is_client max_rank base_key t config d)
        ≡ add_weight in_key len max_rank base_key t rank_config (lookup_or [] c d)
  unfolding to_clients lookup
  to_clients-own max_rank base_key t c rank_config [] d named distinct found =
      absurd (ground (arith, found))
  to_clients-own max_rank base_key t c rank_config ((j, rc) ∷ config) d named distinct found =
      let d' = to_client in_key len is_client max_rank base_key t j rc d in
      elim (Bool-cases (e.beq j c)) [
        | inr differ ↦
            to_clients-own max_rank base_key t c rank_config config d' named distinct.1
              (ground (arith, found, differ))
            ∙ ap (add_weight in_key len max_rank base_key t rank_config)
                (to_client-other max_rank base_key t j c rc d differ)
        | inl same ↦
            let name_eq : j ≡ c = (e.beq_iff j c).0 same in
            let value : rc ≡ rank_config = ground (arith, found, same) in
            let absent : Elem c (keys config) → ⊥ =
              λ m. distinct.0 (subst (λ x. Elem x (keys config)) (sym name_eq) m) in
            to_clients-other max_rank base_key t c config d' absent
            ∙ rw (name_eq, value) (to_client-own max_rank base_key t c rank_config d named)
      ]

-- Every LoRA weight is a tensor of `max_rank` components, or no tensor.
abbrev pub all_aligned : {Row : Type 0} → (String → Key → Bool) → ℕ → Dict Key (Value Row) → Bool
all_aligned in_key max_rank [] = true
all_aligned in_key max_rank ((orig_key, other) ∷ weights) = all_aligned in_key max_rank weights
all_aligned in_key max_rank ((orig_key, tensor t) ∷ weights) =
    (not (is_lora in_key orig_key) || (length t.components == max_rank))
    && all_aligned in_key max_rank weights

module _ (in_key : String → Key → Bool) (len : String → ℕ) {Name Row : Type 0} ⦃e : Eq Name⦄
    (is_client : Name → Bool) where
  -- The outcome of a distribution, and what the client `c` has in it.
  abbrev pub IsDistributed :
      ℕ
      → Name
      → RankConfig
      → Dict Key (Value Row)
      → Weights Row
      → Result (Dict Name (Weights Row))
      → Type 0
  IsDistributed max_rank c rank_config weights sent result =
      ((all_aligned in_key max_rank weights ≡ false) × (result ≡ raise value_error))
      ⊎ ((all_aligned in_key max_rank weights ≡ true)
          × (out : Dict Name (Weights Row)) × (result ≡ ok out)
          × (lookup_or [] c out ≡ weights_for in_key len max_rank rank_config weights sent))

  distribute_all_lem :
      (max_rank : ℕ) (c : Name) (rank_config : RankConfig) (config : Dict Name RankConfig)
      (weights : Dict Key (Value Row)) (d : Dict Name (Weights Row))
      → is_client c ≡ true
      → Distinct (keys config)
      → lookup c config ≡ some rank_config
      → IsDistributed max_rank c rank_config weights
          (lookup_or [] c d)
          (distribute_all in_key len is_client max_rank config weights d)
  unfolding distribute_all weights_for
  distribute_all_lem max_rank c rc config [] d named distinct found = inr (refl, d, refl, refl)
  distribute_all_lem max_rank c rc config ((k, other) ∷ weights) d named distinct found =
      distribute_all_lem max_rank c rc config weights d named distinct found
  distribute_all_lem max_rank c rc config ((k, tensor t) ∷ weights) d named distinct found =
      let d' = to_clients in_key len is_client max_rank (canonical_lora_key k) t config d in
      let own =
        to_clients-own in_key len is_client max_rank (canonical_lora_key k) t c rc config d named
          distinct found in
      elim (Bool-cases (is_lora in_key k)) [
        | inr skipped ↦
            rw skipped (distribute_all_lem max_rank c rc config weights d named distinct found)
        | inl lora ↦ elim (Bool-cases (length t.components == max_rank)) [
          | inr differ ↦ rw (lora, differ) (inl (refl, refl))
          | inl same ↦
              rw (lora, same, ← own)
                (distribute_all_lem max_rank c rc config weights d' named distinct found)
        ]
      ]

  -- A distribution raises ValueError exactly if some LoRA tensor has not max_rank components; else
  -- every client of the configuration is sent what the loop over the weights for it alone gives.
  pub distribute_weight_fast_lem :
      (max_rank : ℕ) (c : Name) (rank_config : RankConfig) (config : Dict Name RankConfig)
      (weights : Dict Key (Value Row))
      → is_client c ≡ true
      → Distinct (keys config)
      → lookup c config ≡ some rank_config
      → IsDistributed max_rank c rank_config weights []
          (distribute_weight_fast in_key len is_client weights config (some max_rank))
  unfolding distribute_weight_fast lookup
  distribute_weight_fast_lem max_rank c rc config weights named distinct found =
      distribute_all_lem max_rank c rc config weights [] named distinct found
