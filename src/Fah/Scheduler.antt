-- ===== src/Fah/Scheduler.antt =====
-- federatedscope/contrib/worker/methods/fah_rank_scheduler.py: the state of FahRankScheduler, the
-- rank caps and the operations of the warm-up. Ranks are natural numbers: r_min is not negative,
-- so `max(r_min, min(cap, rank - 1))` is the same with the subtraction that stops at 0. r_max and the
-- bandwidths are not zero: the source divides by them.
use fed_lo_ra_public.Prelude.{
  ℕ, ◌-◌, ◌*◌, Bool, List, [], ◌∷◌, map, none, some, min, max, ltb, Dict, nat_eq, keys, lookup,
  lookup_or, insert, sum, length, if◌then◌else◌,
}
use fed_lo_ra_public.Prelude.Floats.{FloatOps}

pub data Units : Type 0 where
  mbps kbit_s : Units

module _ (ops : FloatOps) where
  open ops use {Float}

  pub record Profile : Type 0 where
    pub alpha : Float
    pub t_lora : Float
    pub b_up : Float
    pub b_dn : Float
    pub b_up_units : Units
    pub b_dn_units : Units

  pub record Scheduler : Type 0 where
    pub init_rank : ℕ
    pub r_min : ℕ
    pub r_max : ℕ
    pub lambda_dec : Float
    pub lambda_inc : Float
    pub warmup_rounds : ℕ
    pub client_rank_caps : Dict ℕ ℕ
    -- the histories, oldest first
    pub r_history : List Float
    pub r_hat_history : List Float
    pub f_history : List Float
    pub f_hat_history : List Float
    pub t_history : List Float
    pub t_hat_history : List Float
    pub rate_history : List Float
    pub rate_hat_history : List Float
    pub client_profiles : Dict ℕ Profile
    pub l0_bytes : Float
    pub unit_lora_bytes : Float
    pub current_ranks : Dict ℕ ℕ
    pub current_hat_ranks : Dict ℕ ℕ

  unfoldable pub get_client_rank_cap : Scheduler → ℕ → ℕ
  get_client_rank_cap s client_id =
      max s.r_min (min s.r_max (lookup_or s.r_max client_id s.client_rank_caps))

  -- max(r_min, min(cap, rank - 1))
  unfoldable pub hat_rank : Scheduler → ℕ → ℕ → ℕ
  hat_rank s cap rank = max s.r_min (min cap (rank - 1))

  -- The two assignments `current_ranks[id] = …; current_hat_ranks[id] = …` for a rank.
  unfoldable pub assign : Scheduler → ℕ → ℕ → Scheduler
  unfolding get_client_rank_cap hat_rank
  assign s client_id rank =
      let cap = get_client_rank_cap s client_id in
      let rank_capped = min rank cap in
      record s {
        current_ranks = insert client_id rank_capped s.current_ranks;
        current_hat_ranks = insert client_id (hat_rank s cap rank_capped) s.current_hat_ranks;
      }

  unfoldable pub register_client : Scheduler → ℕ → Profile → Scheduler
  register_client s client_id profile =
      let s' : Scheduler = record s {
        client_profiles = insert client_id profile s.client_profiles;
      } in
      assign s' client_id s.init_rank

  unfoldable pub set_lora_size : Scheduler → Float → Float → Scheduler
  set_lora_size s l0 unit = record s { l0_bytes = l0; unit_lora_bytes = unit }

  unfoldable pub initialize_client_ranks : Scheduler → List ℕ → Scheduler
  initialize_client_ranks s [] = s
  initialize_client_ranks s (client_id ∷ ids) =
      initialize_client_ranks (assign s client_id s.init_rank) ids

  unfoldable pub assign_all : Scheduler → ℕ → List ℕ → Scheduler
  assign_all s rank [] = s
  assign_all s rank (client_id ∷ ids) = assign_all (assign s client_id rank) rank ids

  unfoldable pub set_homogeneous_ranks : Scheduler → ℕ → Scheduler
  set_homogeneous_ranks s rank =
      assign_all s (max s.r_min (min s.r_max rank)) (keys s.client_profiles)

  unfoldable pub is_in_warmup : Scheduler → ℕ → Bool
  is_in_warmup s round_idx = ltb round_idx s.warmup_rounds

  -- The sum, the feasible sum and the feasible average of the ranks of Stage 2.
  unfoldable pub get_feasible_stage2_target : Scheduler → List ℕ → Float → ℕ × ℕ × Float
  get_feasible_stage2_target s client_ids r_i =
      let n = length client_ids in
      let target_sum = ops.round_nat (ops.mul (ops.of_nat n) r_i) in
      let max_sum = sum (map (get_client_rank_cap s) client_ids) in
      let feasible = max (n * s.r_min) (min target_sum max_sum) in
      (
        target_sum,
        feasible,
        elim client_ids [ [] ↦ r_i | c ∷ cs ↦ ops.div (ops.of_nat feasible) (ops.of_nat n) ],
      )

  -- Bytes per second: 125 for each kbit/s, 125000 for each Mbps.
  unfoldable pub bandwidth_bytes : Float → Units → Float
  bandwidth_bytes b kbit_s = ops.mul b (ops.of_nat 125)
  bandwidth_bytes b mbps = ops.mul b (ops.of_nat 125000)

  -- (t_cmp, t_com) of equations (12) to (14).
  unfoldable pub compute_client_time : Scheduler → ℕ → ℕ → Float × Float
  unfolding bandwidth_bytes
  compute_client_time s client_id rank = elim (lookup client_id s.client_profiles) [
    | none ↦ (ops.of_nat 1, ops.of_nat 1)
    | some p ↦ (
      ops.add p.alpha (ops.mul (ops.div (ops.of_nat rank) (ops.of_nat s.r_max)) p.t_lora),
      ops.add (ops.div s.l0_bytes (bandwidth_bytes p.b_dn p.b_dn_units)) (
          ops.div (ops.mul s.unit_lora_bytes (ops.of_nat rank))
            (bandwidth_bytes p.b_up p.b_up_units)),
    )
  ]

  -- t_lora / r_max + unit_lora_bytes / b_up if b_up > 0 else t_lora / r_max
  unfoldable pub latency : Scheduler → Float → Float → Float
  latency s t_lora b_up =
      let base = ops.div t_lora (ops.of_nat s.r_max) in
      if ops.lt (ops.of_nat 0) b_up then ops.add base (ops.div s.unit_lora_bytes b_up) else base

  -- B_n of `_get_time_coefficients`, the latency of one rank unit, for a registered client and for
  -- the defaults of one that is not.
  unfoldable pub latency_coefficient : Scheduler → ℕ → Float
  unfolding bandwidth_bytes latency
  latency_coefficient s client_id = elim (lookup client_id s.client_profiles) [
    | none ↦ latency s (ops.of_nat 1) (bandwidth_bytes (ops.of_nat 10) mbps)
    | some p ↦ latency s p.t_lora (bandwidth_bytes p.b_up p.b_up_units)
  ]
