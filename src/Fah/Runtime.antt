-- ===== src/Fah/Runtime.antt =====
-- The ranks that the rounds of federatedscope/contrib/worker/methods/fah_qlora_server.py give the
-- clients.
use Prim.Native.String.{String}
use fed_lo_ra_public.Prelude.{
  ℕ, zero, suc, ◌+◌, ◌≤◌, ◌<◌, ◌≡◌, refl, List, [], ◌∷◌, length, Option, none, some, min, max, ◌==◌,
  ==_iff, Dict, nat_eq, lookup, lookup_or, arith, Bool-cases, inl, inr, ◌⊎◌,
}
use mathlib.Core.Path.{subst}
use fed_lo_ra_public.Prelude.Floats.{FloatOps}
use fed_lo_ra_public.Hetero.Config.{module_ranks}
use fed_lo_ra_public.Hetero.Distribute.{RankConfig}
use fed_lo_ra_public.Fah.Scheduler.{Scheduler, get_client_rank_cap}
use fed_lo_ra_public.Fah.Server.{
  FahConfig, FahServer, RoundConfig, client_cap, client_entries, entries_for,
  build_config_local_from_rank_map, build_warmup_config_local, warmup_rank_map, in_warmup,
  configured, configured_by, config_of_pairs, first_ranks, get_runtime_config_local,
}

module _ (ops : FloatOps) (cfg : FahConfig ops) where
  -- The cap of a client by the configuration.
  abbrev pub cap_of : ℕ → ℕ
  cap_of id = max cfg.r_min (min cfg.r_max (lookup_or cfg.r_max id cfg.client_rank_caps))

  -- A client has one rank for all modules, from r_min to its cap.
  abbrev pub IsRankedAt : RoundConfig ops → ℕ → Type 0
  IsRankedAt config id =
      (r : ℕ) × (cfg.r_min ≤ r)
      × (r ≤ cap_of id)
      × (lookup id config.clients ≡ some (module_ranks cfg.target_modules r))

  -- This holds of every client.
  abbrev pub IsRanked : RoundConfig ops → Type 0
  IsRanked config = (id : ℕ) → 1 ≤ id → id ≤ cfg.client_num → IsRankedAt config id

  -- A scheduler that has the bounds and the caps of the configuration.
  abbrev pub IsFor : Scheduler ops → Type 0
  IsFor sch =
      (sch.r_min ≡ cfg.r_min)
      × (sch.r_max ≡ cfg.r_max)
      × (sch.client_rank_caps ≡ cfg.client_rank_caps)

  client_cap-IsFor :
      (sch : Scheduler ops) (id : ℕ) → IsFor sch → client_cap ops cfg (some sch) id ≡ cap_of id
  unfolding client_cap get_client_rank_cap
  client_cap-IsFor sch id h = rw (h.0, h.1, h.2) refl

  lookup-client_entries :
      (sch : Scheduler ops) (rank_map : Dict ℕ ℕ) (first n id : ℕ)
      → IsFor sch
      → first ≤ id
      → id < first + n
      → (r : ℕ) × (cfg.r_min ≤ r)
        × (r ≤ cap_of id)
        × (lookup id (client_entries ops cfg (some sch) rank_map first n)
            ≡ some (module_ranks cfg.target_modules r))
  unfolding client_entries lookup
  lookup-client_entries sch rank_map first zero id h lo hi = absurd (omega (arith, lo, hi))
  lookup-client_entries sch rank_map first (suc n) id h lo hi =
      let rank = lookup_or cfg.init_rank first rank_map in
      let r = max cfg.r_min (min (client_cap ops cfg (some sch) first) rank) in
      let cap = client_cap-IsFor sch first h in
      elim (Bool-cases (first == id)) [
        | inl same ↦
            let e = (==_iff first id).0 same in
            (r, omega arith, subst (λ i. r ≤ cap_of i) e (omega (arith, cap)), rw same refl)
        | inr other ↦
            let differ : (first ≡ id) → ⊥ = λ e. ground (arith, other, (==_iff first id).1 e) in
            let (r', lo', hi', found) =
              lookup-client_entries sch rank_map (suc first) n id h (omega (arith, lo, differ))
                (omega (arith, hi)) in
            (r', lo', hi', rw other found)
      ]

  some_entries :
      (sch : Option (Scheduler ops)) (rank_map : Dict ℕ ℕ) (targets : List String)
      → 0 < length targets
      → entries_for ops cfg sch rank_map targets
        ≡ client_entries ops cfg sch rank_map 1 cfg.client_num
  unfolding entries_for
  some_entries sch rank_map [] more = absurd (omega (arith, more))
  some_entries sch rank_map (t ∷ ts) more = refl

  pub build-IsRanked :
      (sch : Scheduler ops) (rank_map : Dict ℕ ℕ)
      → IsFor sch
      → 0 < length cfg.target_modules
      → IsRanked (build_config_local_from_rank_map ops cfg (some sch) rank_map)
  unfolding build_config_local_from_rank_map
  build-IsRanked sch rank_map h some_module id lo hi =
      let clients =
        lookup-client_entries sch rank_map 1 cfg.client_num id h lo (omega (arith, hi)) in
      rw (some_entries (some sch) rank_map cfg.target_modules some_module) clients

  -- What the rounds keep: the server has a scheduler for the configuration, and the configuration of
  -- the round gives every client its rank.
  pub record IsServing (s : FahServer ops) : Type 0 where
    pub current : Scheduler ops
    pub has_scheduler : s.scheduler ≡ some current
    pub is_for : IsFor current
    pub is_ranked : IsRanked s.round_config_local

  pub warmup-IsRanked :
      (sch : Scheduler ops)
      → IsFor sch
      → 0 < length cfg.target_modules
      → IsRanked (build_warmup_config_local ops cfg (some sch))
  unfolding build_warmup_config_local
  warmup-IsRanked sch h more =
      build-IsRanked sch (warmup_rank_map ops cfg (some sch) 1 cfg.client_num) h more

  configured_same :
      (meta : Dict String ops.Float) (clients : Dict ℕ RankConfig) (config : RoundConfig ops)
      → (configured_by ops meta clients config ≡ none)
        ⊎ (configured_by ops meta clients config ≡ some config)
  unfolding configured_by
  configured_same [] [] config = inl refl
  configured_same [] (entry ∷ clients) config = inr refl
  configured_same (entry ∷ meta) clients config = inr refl

  pairs-IsRanked :
      (sch : Scheduler ops) (pairs : Dict ℕ (ℕ × ℕ))
      → IsFor sch
      → 0 < length cfg.target_modules
      → IsRanked (config_of_pairs ops cfg (some sch) pairs)
  unfolding config_of_pairs
  pairs-IsRanked sch [] h more = warmup-IsRanked sch h more
  pairs-IsRanked sch (pair ∷ pairs) h more =
      build-IsRanked sch (first_ranks ops (pair ∷ pairs)) h more

  pub runtime-IsRanked :
      (s : FahServer ops) (round_idx : ℕ)
      → 0 < length cfg.target_modules
      → IsServing s
      → IsRanked (get_runtime_config_local ops cfg s round_idx)
  unfolding get_runtime_config_local configured
  runtime-IsRanked s round_idx more v = elim (Bool-cases (in_warmup ops s.scheduler round_idx)) [
    | inl warm ↦
        rw (get_runtime_config_local, warm, v.has_scheduler)
          (warmup-IsRanked v.current v.is_for more)
    | inr later ↦
        elim (configured_same s.round_config_local.meta s.round_config_local.clients
          s.round_config_local) [
            | inl nothing ↦
                rw (get_runtime_config_local, later, nothing, v.has_scheduler)
                  (pairs-IsRanked v.current s.client_ranks v.is_for more)
            | inr same ↦ rw (get_runtime_config_local, later, same) v.is_ranked
          ]
  ]
