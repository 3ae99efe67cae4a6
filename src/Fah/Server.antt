-- ===== src/Fah/Server.antt =====
-- The rounds of federatedscope/contrib/worker/methods/fah_qlora_server.py, and the handler of the
-- statistics in federatedscope/core/workers/server.py. What numpy's mean, the convex solver, the size
-- of the LoRA tensors and the shared bandwidth manager return are parameters; an id of a client is
-- its number, also in the keys 'Client_<n>' of a round's configuration.
use Prim.Native.String.{String}
use fed_lo_ra_public.Prelude.{
  ℕ, zero, suc, ◌-◌, Bool, true, false, List, [], ◌∷◌, Option, none, some, min, max, if◌then◌else◌,
  Dict, nat_eq, lookup, lookup_or,
}
use fed_lo_ra_public.Prelude.Floats.{FloatOps}
use fed_lo_ra_public.Hetero.Distribute.{RankConfig}
use fed_lo_ra_public.Hetero.Config.{module_ranks}
use fed_lo_ra_public.Fah.Scheduler.{Scheduler, get_client_rank_cap, hat_rank, is_in_warmup}

module _ (ops : FloatOps) where
  open ops use {Float, of_nat, sub, mul, div}

  pub record FahConfig : Type 0 where
    pub client_num : ℕ
    pub init_rank : ℕ
    pub r_min : ℕ
    pub r_max : ℕ
    pub lambda_dec : Float
    pub lambda_inc : Float
    pub warmup_rounds : ℕ
    pub alpha_fraction : Float
    pub client_rank_caps : Dict ℕ ℕ
    pub target_modules : List String
    -- 'alpha' and 'lora_dropout' of the configuration of the caps, those it has
    pub meta : Dict String Float

  -- The configuration of a round: its two other keys, and the ranks of the clients.
  pub record RoundConfig : Type 0 where
    pub meta : Dict String Float
    pub clients : Dict ℕ RankConfig

  -- The statistics of a client, without the keys that its message lacks.
  pub record Stats : Type 0 where
    pub f_n : Option Float
    pub f_hat_n : Option Float
    pub training_time : Option Float

  pub record FahServer : Type 0 where
    pub enabled : Bool
    pub scheduler : Option (Scheduler ops)
    pub stats_buffer : Dict ℕ (Dict ℕ Stats)
    pub global_loss_history : List Float
    pub rank_history : List Float
    pub client_ranks : Dict ℕ (ℕ × ℕ)
    pub warmup_times : Dict ℕ (List Float)
    pub round_config_local : RoundConfig

  -- FahRankScheduler(...), on caps whose keys are ids
  unfoldable pub new_scheduler : FahConfig → Scheduler ops
  new_scheduler cfg = record {
    init_rank = cfg.init_rank;
    r_min = cfg.r_min;
    r_max = cfg.r_max;
    lambda_dec = cfg.lambda_dec;
    lambda_inc = cfg.lambda_inc;
    warmup_rounds = cfg.warmup_rounds;
    client_rank_caps = cfg.client_rank_caps;
    r_history = of_nat cfg.init_rank ∷ [];
    r_hat_history = of_nat (max cfg.r_min (cfg.init_rank - 1)) ∷ [];
    f_history = [];
    f_hat_history = [];
    t_history = [];
    t_hat_history = [];
    rate_history = [];
    rate_hat_history = [];
    client_profiles = [];
    l0_bytes = of_nat 0;
    unit_lora_bytes = of_nat 0;
    current_ranks = [];
    current_hat_ranks = [];
  }

  -- The cap as the server reads it, with the one for no scheduler.
  unfoldable pub client_cap : FahConfig → Option (Scheduler ops) → ℕ → ℕ
  client_cap cfg (some sch) client_id = get_client_rank_cap ops sch client_id
  client_cap cfg none client_id = lookup_or cfg.r_max client_id cfg.client_rank_caps

  -- for client_id in range(first, first + n)
  unfoldable pub client_entries :
      FahConfig → Option (Scheduler ops) → Dict ℕ ℕ → ℕ → ℕ → Dict ℕ RankConfig
  client_entries cfg sch rank_map first zero = []
  client_entries cfg sch rank_map first (suc n) =
      let rank = lookup_or cfg.init_rank first rank_map in
      let clamped = max cfg.r_min (min (client_cap cfg sch first) rank) in
      (first, module_ranks cfg.target_modules clamped)
      ∷ client_entries cfg sch rank_map (suc first) n

  unfoldable pub entries_for :
      FahConfig → Option (Scheduler ops) → Dict ℕ ℕ → List String → Dict ℕ RankConfig
  entries_for cfg sch rank_map [] = []
  entries_for cfg sch rank_map (target ∷ target_modules) =
      client_entries cfg sch rank_map 1 cfg.client_num

  unfoldable pub build_config_local_from_rank_map :
      FahConfig → Option (Scheduler ops) → Dict ℕ ℕ → RoundConfig
  build_config_local_from_rank_map cfg sch rank_map = record {
    meta = cfg.meta;
    clients = entries_for cfg sch rank_map cfg.target_modules;
  }

  unfoldable pub warmup_rank_map : FahConfig → Option (Scheduler ops) → ℕ → ℕ → Dict ℕ ℕ
  warmup_rank_map cfg sch first zero = []
  warmup_rank_map cfg sch first (suc n) =
      (first, min cfg.init_rank (client_cap cfg sch first)) ∷ warmup_rank_map cfg sch (suc first) n

  unfoldable pub build_warmup_config_local : FahConfig → Option (Scheduler ops) → RoundConfig
  build_warmup_config_local cfg sch =
      build_config_local_from_rank_map cfg sch (warmup_rank_map cfg sch 1 cfg.client_num)

  unfoldable pub in_warmup : Option (Scheduler ops) → ℕ → Bool
  in_warmup none round_idx = false
  in_warmup (some sch) round_idx = is_in_warmup ops sch round_idx

  -- The configuration that a dictionary which is not empty gives.
  unfoldable pub configured_by :
      Dict String Float → Dict ℕ RankConfig → RoundConfig → Option RoundConfig
  configured_by [] [] config = none
  configured_by [] (entry ∷ clients) config = some config
  configured_by (entry ∷ meta) clients config = some config

  unfoldable pub configured : RoundConfig → Option RoundConfig
  configured config = configured_by config.meta config.clients config

  unfoldable pub first_ranks : Dict ℕ (ℕ × ℕ) → Dict ℕ ℕ
  first_ranks [] = []
  first_ranks ((client_id, (r, hat)) ∷ pairs) = (client_id, r) ∷ first_ranks pairs

  unfoldable pub config_of_pairs : FahConfig → Option (Scheduler ops) → Dict ℕ (ℕ × ℕ) → RoundConfig
  config_of_pairs cfg sch [] = build_warmup_config_local cfg sch
  config_of_pairs cfg sch (pair ∷ pairs) =
      build_config_local_from_rank_map cfg sch (first_ranks (pair ∷ pairs))

  unfoldable pub get_runtime_config_local : FahConfig → FahServer → ℕ → RoundConfig
  get_runtime_config_local cfg s round_idx =
      if in_warmup s.scheduler round_idx
      then build_warmup_config_local cfg s.scheduler
      else elim (configured s.round_config_local) [
        | some config ↦ config
        | none ↦ config_of_pairs cfg s.scheduler s.client_ranks
      ]

  unfoldable pub init_client_ranks : FahConfig → Scheduler ops → ℕ → ℕ → Dict ℕ (ℕ × ℕ)
  init_client_ranks cfg sch first zero = []
  init_client_ranks cfg sch first (suc n) =
      let cap = get_client_rank_cap ops sch first in
      let rank = min cfg.init_rank cap in
      (first, (rank, hat_rank ops sch cap rank)) ∷ init_client_ranks cfg sch (suc first) n

  -- `_init_fah_qloRA` on a configuration whose r_max is the max_rank of the adapter.
  unfoldable pub init_fah : FahConfig → Bool → FahServer → FahServer
  init_fah cfg enabled s =
      let sch = new_scheduler cfg in
      if enabled
      then record {
        enabled = true;
        scheduler = some sch;
        stats_buffer = [];
        global_loss_history = [];
        rank_history = [];
        client_ranks = init_client_ranks cfg sch 1 cfg.client_num;
        warmup_times = [];
        round_config_local = build_warmup_config_local cfg (some sch);
      }
      else record s {
        enabled = false;
        scheduler = none;
        stats_buffer = [];
        round_config_local = record { meta = []; clients = [] };
      }

  unfoldable pub get_fah_client_ranks : FahServer → ℕ → Option (ℕ × ℕ)
  get_fah_client_ranks s client_id = if s.enabled then lookup client_id s.client_ranks else none
