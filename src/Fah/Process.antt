-- ===== src/Fah/Process.antt =====
-- `_process_fah_round` and what it calls in federatedscope/contrib/worker/methods/fah_qlora_server.py, and
-- the handler that calls it in federatedscope/core/workers/server.py. The sizes of the LoRA tensors
-- are those of models[0], or the exception of their computation, or nothing where there is no model;
-- init_rank, by which the source divides, is not zero.
use fed_lo_ra_public.Prelude.{
  ℕ, suc, Bool, List, [], ◌∷◌, ◌++◌, map, length, Option, none, some, leb, ◌==◌, if◌then◌else◌,
  Dict, nat_eq, keys, values, lookup_or, insert, Result, ok, raise, runtime_error,
}
use fed_lo_ra_public.Prelude.Floats.{FloatOps}
use fed_lo_ra_public.Fah.Scheduler.{
  Scheduler, Profile, kbit_s, register_client, set_lora_size, is_in_warmup,
}
use fed_lo_ra_public.Fah.Stage1.{last, update_round_stats, update_average_rank}
use fed_lo_ra_public.Fah.Assign.{solve_p1_for_round}
use fed_lo_ra_public.Fah.Server.{FahConfig, FahServer, Stats, build_config_local_from_rank_map}

-- What a round is computed with: numpy's mean, the truth value of a float, the literal 1e-8, argsort,
-- the solver, compute_lora_size, and get_bandwidth_info without and with a round, if there is a
-- manager.
pub record Env (ops : FloatOps) : Type 0 where
  pub mean : List ops.Float → ops.Float
  pub truthy : ops.Float → Bool
  pub eps : ops.Float
  pub argsort : List ops.Float → List ℕ
  pub solver : Scheduler ops → ops.Float → Option (List ops.Float)
  pub lora_size : Option (Result (ops.Float × ops.Float))
  pub bandwidth : Option (ℕ → Option ℕ → Option (ops.Float × ops.Float))

module _ (ops : FloatOps) (cfg : FahConfig ops) (env : Env ops) where
  open ops use {Float, of_nat, sub, mul, div}

  unfoldable pub or_else : Float → Option Float → Float
  or_else default none = default
  or_else default (some x) = x

  unfoldable pub loss_pairs : Dict ℕ (Stats ops) → Dict ℕ (Float × Float)
  loss_pairs [] = []
  loss_pairs ((id, st) ∷ stats) =
      (id, (or_else (of_nat 0) st.f_n, or_else (of_nat 0) st.f_hat_n)) ∷ loss_pairs stats

  -- float(training_time) if training_time else 1.0
  unfoldable pub measured : Dict ℕ (Stats ops) → Dict ℕ Float
  measured [] = []
  measured ((id, st) ∷ stats) =
      (
        id,
        elim st.training_time [ none ↦ of_nat 1 | some t ↦ if env.truthy t then t else of_nat 1 ],
      )
      ∷ measured stats

  unfoldable pub record_times : Dict ℕ (Stats ops) → Dict ℕ (List Float) → Dict ℕ (List Float)
  record_times [] times = times
  record_times ((id, st) ∷ stats) times =
      record_times stats
        (insert id (lookup_or [] id times ++ (or_else (of_nat 1) st.training_time ∷ [])) times)

  unfoldable pub get_client_bandwidth_for_scheduler : ℕ → Result (Float × Float)
  get_client_bandwidth_for_scheduler client_id = elim env.bandwidth [
    | none ↦ raise runtime_error
    | some manager ↦ elim (manager client_id none) [ none ↦ raise runtime_error | some bw ↦ ok bw ]
  ]

  unfoldable pub sync_profiles :
      (ℕ → Option ℕ → Option (Float × Float)) → ℕ → Dict ℕ (Profile ops) → Dict ℕ (Profile ops)
  sync_profiles manager round_idx [] = []
  sync_profiles manager round_idx ((id, p) ∷ profiles) =
      (
        id,
        elim (manager id (some round_idx)) [
          | none ↦ p
          | some (up, dn) ↦ record p {
            b_up = up;
            b_dn = dn;
            b_up_units = kbit_s;
            b_dn_units = kbit_s;
          }
        ],
      )
      ∷ sync_profiles manager round_idx profiles

  unfoldable pub sync_bandwidth_from_manager : ℕ → Scheduler ops → Scheduler ops
  sync_bandwidth_from_manager round_idx sch = elim env.bandwidth [
    | none ↦ sch
    | some manager ↦ record sch {
      client_profiles = sync_profiles manager round_idx sch.client_profiles;
    }
  ]

  -- The profile of a client from its times in the warm-up.
  unfoldable pub profile_of : List Float → Float → Float → Profile ops
  profile_of times up dn =
      let t_train = env.mean times in
      let alpha = mul cfg.alpha_fraction t_train in
      record {
        alpha = alpha;
        t_lora = mul (sub t_train alpha) (div (of_nat cfg.r_max) (of_nat cfg.init_rank));
        b_up = up;
        b_dn = dn;
        b_up_units = kbit_s;
        b_dn_units = kbit_s;
      }

  -- Step 2: the clients before an exception stay registered.
  unfoldable pub register_profiled :
      Dict ℕ (List Float) → Scheduler ops → Scheduler ops × Result (Unit {0})
  register_profiled [] sch = (sch, ok tt)
  register_profiled ((id, []) ∷ times) sch = register_profiled times sch
  register_profiled ((id, t ∷ ts) ∷ times) sch = elim (get_client_bandwidth_for_scheduler id) [
    | raise e ↦ (sch, raise e)
    | ok (up, dn) ↦ register_profiled times (register_client ops sch id (profile_of (t ∷ ts) up dn))
  ]

  -- What `solve_p1_for_round` returns: nothing for no clients, and else the ranks that it keeps.
  unfoldable pub returned_ranks : List ℕ → Dict ℕ ℕ → Dict ℕ ℕ
  returned_ranks [] ranks = []
  returned_ranks (id ∷ ids) ranks = ranks

  -- {cid: (r_per_client[cid], r_hat_per_client[cid])}; both have the same keys.
  unfoldable pub pair_ranks : Dict ℕ ℕ → Dict ℕ ℕ → Dict ℕ (ℕ × ℕ)
  pair_ranks [] hats = []
  pair_ranks ((id, r) ∷ ranks) hats = (id, (r, lookup_or 0 id hats)) ∷ pair_ranks ranks hats

  -- The ranks of Stage 2 at an average, and the configuration that they give.
  unfoldable pub assign_ranks : Float → Scheduler ops → FahServer ops → FahServer ops
  assign_ranks r_i sch s =
      let sch' = solve_p1_for_round ops env.argsort sch (env.solver sch r_i) r_i in
      let ranks = returned_ranks (keys sch.client_profiles) sch'.current_ranks in
      record s {
        scheduler = some sch';
        client_ranks = pair_ranks ranks sch'.current_hat_ranks;
        round_config_local = build_config_local_from_rank_map ops cfg (some sch') ranks;
      }

  unfoldable pub sized : Scheduler ops → Scheduler ops
  sized sch = elim env.lora_size [
    | none ↦ sch
    | some (ok (l0, unit)) ↦ set_lora_size ops sch l0 unit
    | some (raise e) ↦ set_lora_size ops sch (of_nat 50000000) (of_nat 1500000)
  ]

  -- The first ranks after the warm-up, if a client is registered.
  unfoldable pub seed_ranks : List ℕ → Scheduler ops → FahServer ops → FahServer ops
  seed_ranks [] sch s = record s { scheduler = some sch }
  seed_ranks (id ∷ ids) sch s = assign_ranks (last (of_nat sch.init_rank) sch.r_history) sch s

  unfoldable pub finalize_profiling :
      Scheduler ops → FahServer ops → FahServer ops × Result (Unit {0})
  finalize_profiling sch s =
      let (registered, outcome) = register_profiled s.warmup_times (sized sch) in
      elim outcome [
        | raise e ↦ (record s { scheduler = some registered }, raise e)
        | ok u ↦ (seed_ranks (keys registered.client_profiles) registered s, ok tt)
      ]

  -- The mean of the losses joins the history.
  unfoldable pub add_loss : Dict ℕ (Float × Float) → List Float → List Float
  add_loss pairs history = history ++ (env.mean (map (λ p. p.0) (values pairs)) ∷ [])

  unfoldable pub process_warmup :
      ℕ → Dict ℕ (Stats ops) → Scheduler ops → FahServer ops → FahServer ops × Result (Unit {0})
  process_warmup round_idx stats sch s =
      let sch' = sync_bandwidth_from_manager round_idx sch in
      let s' : FahServer ops = record s {
        scheduler = some sch';
        warmup_times = record_times stats s.warmup_times;
        global_loss_history = add_loss (loss_pairs stats) s.global_loss_history;
      } in
      if suc round_idx == sch.warmup_rounds then finalize_profiling sch' s' else (s', ok tt)

  unfoldable pub last_loss : List Float → Option Float
  last_loss [] = none
  last_loss (x ∷ xs) = some (last x xs)

  unfoldable pub process_adaptive :
      ℕ → Dict ℕ (Stats ops) → Scheduler ops → FahServer ops → FahServer ops
  process_adaptive round_idx stats sch s =
      let sch' =
        update_round_stats ops env.mean (sync_bandwidth_from_manager round_idx sch)
          (loss_pairs stats) (some (measured stats)) (last_loss s.global_loss_history) in
      let (averaged, r_i, r_hat_i) = update_average_rank ops env.eps sch' in
      let s' = assign_ranks r_i averaged s in
      record s' {
        global_loss_history = add_loss (loss_pairs stats) s.global_loss_history;
        rank_history = s.rank_history ++ (r_i ∷ []);
      }

  -- A round whose statistics are not empty.
  unfoldable pub process_stats :
      ℕ → Dict ℕ (Stats ops) → FahServer ops → FahServer ops × Result (Unit {0})
  process_stats round_idx [] s = (s, ok tt)
  process_stats round_idx (st ∷ stats) s = elim s.scheduler [
    | none ↦ (s, ok tt)
    | some sch ↦
        if is_in_warmup ops sch round_idx
        then process_warmup round_idx (st ∷ stats) sch s
        else (process_adaptive round_idx (st ∷ stats) sch s, ok tt)
  ]

  unfoldable pub process_fah_round : ℕ → FahServer ops → FahServer ops × Result (Unit {0})
  process_fah_round round_idx s =
      if s.enabled
      then process_stats round_idx (lookup_or [] round_idx s.stats_buffer) s
      else (s, ok tt)

  -- `expected` is the number of the neighbours.
  unfoldable pub callback_funcs_for_fah_stats :
      ℕ → ℕ → ℕ → Stats ops → FahServer ops → FahServer ops × Result (Unit {0})
  callback_funcs_for_fah_stats expected round_idx sender content s =
      let received = insert sender content (lookup_or [] round_idx s.stats_buffer) in
      let s' : FahServer ops = record s {
        stats_buffer = insert round_idx received s.stats_buffer;
      } in
      if s.enabled
      then if leb expected (length received) then process_fah_round round_idx s' else (s', ok tt)
      else (s, ok tt)
