-- ===== src/Fah/Serving.antt =====
-- What the rounds of federatedscope/contrib/worker/methods/fah_qlora_server.py keep: the configuration
-- that serves every client.
use fed_lo_ra_public.Prelude.{
  ℕ, suc, ◌≤◌, ◌<◌, refl, Bool, true, false, List, [], ◌∷◌, length, some, leb, ◌==◌, if◌then◌else◌,
  Dict, nat_eq, keys, lookup_or, insert, Result, ok, Bool-cases, Result-cases, inl, inr,
}
use fed_lo_ra_public.Prelude.Floats.{FloatOps}
use fed_lo_ra_public.Fah.Scheduler.{Scheduler, is_in_warmup}
use fed_lo_ra_public.Fah.Assign.{solve_p1_for_round}
use fed_lo_ra_public.Fah.Server.{
  FahConfig, FahServer, Stats, new_scheduler, get_runtime_config_local, init_fah,
}
use fed_lo_ra_public.Fah.Process.{
  Env, sync_bandwidth_from_manager, register_profiled, assign_ranks, sized, seed_ranks,
  finalize_profiling, process_warmup, process_adaptive, process_stats, process_fah_round,
  callback_funcs_for_fah_stats, returned_ranks, record_times, add_loss, loss_pairs, measured,
  last_loss,
}
use fed_lo_ra_public.Fah.Runtime.{
  IsRankedAt, IsFor, IsServing, build-IsRanked, warmup-IsRanked, runtime-IsRanked,
}
use fed_lo_ra_public.Fah.Kept.{
  sync-IsFor, sized-IsFor, register-IsFor, solve-IsFor, stats-IsFor, stage1_of-IsFor,
}

module _ (ops : FloatOps) (cfg : FahConfig ops) where
  module _ (env : Env ops) where
    assign-IsServing :
        (r_i : ops.Float) (sch : Scheduler ops) (s : FahServer ops)
        → 0 < length cfg.target_modules
        → IsFor ops cfg sch
        → IsServing ops cfg (assign_ranks ops cfg env r_i sch s)
    unfolding assign_ranks solve_p1_for_round
    assign-IsServing r_i sch s more h =
        let sch' = solve_p1_for_round ops env.argsort sch (env.solver sch r_i) r_i in
        let for' =
          solve-IsFor ops cfg env sch (keys sch.client_profiles) (env.solver sch r_i) r_i h in
        record {
          current = sch';
          has_scheduler = refl;
          is_for = for';
          is_ranked =
              build-IsRanked ops cfg sch'
                (returned_ranks ops cfg env (keys sch.client_profiles) sch'.current_ranks) for'
                more;
        }

    -- With the configuration that it has, a server stays serving with another scheduler.
    with-IsServing :
        (s : FahServer ops) (sch : Scheduler ops)
        → IsServing ops cfg s
        → IsFor ops cfg sch
        → IsServing ops cfg (record s { scheduler = some sch })
    with-IsServing s sch v h = record {
      current = sch;
      has_scheduler = refl;
      is_for = h;
      is_ranked = v.is_ranked;
    }

    seed-IsServing :
        (ids : List ℕ) (sch : Scheduler ops) (s : FahServer ops)
        → 0 < length cfg.target_modules
        → IsServing ops cfg s
        → IsFor ops cfg sch
        → IsServing ops cfg (seed_ranks ops cfg env ids sch s)
    unfolding seed_ranks
    seed-IsServing [] sch s more v h = with-IsServing s sch v h
    seed-IsServing (id ∷ ids) sch s more v h = assign-IsServing _ sch s more h

    finalize-IsServing :
        (sch : Scheduler ops) (s : FahServer ops)
        → 0 < length cfg.target_modules
        → IsServing ops cfg s
        → IsFor ops cfg sch
        → IsServing ops cfg (finalize_profiling ops cfg env sch s).0
    unfolding finalize_profiling
    finalize-IsServing sch s more v h =
        let done = register_profiled ops cfg env s.warmup_times (sized ops cfg env sch) in
        let for' =
          register-IsFor ops cfg env s.warmup_times (sized ops cfg env sch)
            (sized-IsFor ops cfg env sch h) in
        elim (Result-cases done.1) [
          | inl (u, e) ↦
              rw (finalize_profiling, e)
                (seed-IsServing (keys done.0.client_profiles) done.0 s more v for')
          | inr (x, e) ↦ rw (finalize_profiling, e) (with-IsServing s done.0 v for')
        ]

    warmup-IsServing :
        (round_idx : ℕ) (stats : Dict ℕ (Stats ops)) (sch : Scheduler ops) (s : FahServer ops)
        → 0 < length cfg.target_modules
        → IsServing ops cfg s
        → IsFor ops cfg sch
        → IsServing ops cfg (process_warmup ops cfg env round_idx stats sch s).0
    unfolding process_warmup
    warmup-IsServing round_idx stats sch s more v h =
        let sch' = sync_bandwidth_from_manager ops cfg env round_idx sch in
        let for' = sync-IsFor ops cfg env round_idx sch h in
        let s' : FahServer ops = record s {
          scheduler = some sch';
          warmup_times = record_times ops cfg env stats s.warmup_times;
          global_loss_history =
              add_loss ops cfg env (loss_pairs ops cfg env stats) s.global_loss_history;
        } in
        let v' : IsServing ops cfg s' = record {
          current = sch';
          has_scheduler = refl;
          is_for = for';
          is_ranked = v.is_ranked;
        } in
        elim (Bool-cases (suc round_idx == sch.warmup_rounds)) [
          | inl last_round ↦
              rw (process_warmup, last_round) (finalize-IsServing sch' s' more v' for')
          | inr sooner ↦ rw (process_warmup, sooner) v'
        ]

    adaptive-IsServing :
        (round_idx : ℕ) (stats : Dict ℕ (Stats ops)) (sch : Scheduler ops) (s : FahServer ops)
        → 0 < length cfg.target_modules
        → IsFor ops cfg sch
        → IsServing ops cfg (process_adaptive ops cfg env round_idx stats sch s)
    unfolding process_adaptive
    adaptive-IsServing round_idx stats sch s more h =
        let for' = stage1_of-IsFor ops cfg env _ (
          stats-IsFor ops cfg env (sync_bandwidth_from_manager ops cfg env round_idx sch)
            (loss_pairs ops cfg env stats) (some (measured ops cfg env stats))
            (last_loss ops cfg env s.global_loss_history)
            (sync-IsFor ops cfg env round_idx sch h)) in
        let v = assign-IsServing _ _ s more for' in
        record {
          current = v.current;
          has_scheduler = v.has_scheduler;
          is_for = v.is_for;
          is_ranked = v.is_ranked;
        }

    stats-IsServing :
        (round_idx : ℕ) (stats : Dict ℕ (Stats ops)) (s : FahServer ops)
        → 0 < length cfg.target_modules
        → IsServing ops cfg s
        → IsServing ops cfg (process_stats ops cfg env round_idx stats s).0
    unfolding process_stats
    stats-IsServing round_idx [] s more v = v
    stats-IsServing round_idx (st ∷ stats) s more v =
        elim (Bool-cases (is_in_warmup ops v.current round_idx)) [
          | inl warm ↦
              rw (process_stats, v.has_scheduler, warm)
                (warmup-IsServing round_idx (st ∷ stats) v.current s more v v.is_for)
          | inr later ↦
              rw (process_stats, v.has_scheduler, later)
                (adaptive-IsServing round_idx (st ∷ stats) v.current s more v.is_for)
        ]

    branch-IsServing :
        (test : Bool) (x y : FahServer ops × Result (Unit {0}))
        → IsServing ops cfg x.0
        → IsServing ops cfg y.0
        → IsServing ops cfg (if test then x else y).0
    branch-IsServing true x y h k = h
    branch-IsServing false x y h k = k

    process-IsServing :
        (round_idx : ℕ) (s : FahServer ops)
        → 0 < length cfg.target_modules
        → IsServing ops cfg s
        → IsServing ops cfg (process_fah_round ops cfg env round_idx s).0
    unfolding process_fah_round
    process-IsServing round_idx s more v =
        branch-IsServing s.enabled
          (process_stats ops cfg env round_idx (lookup_or [] round_idx s.stats_buffer) s) (s, ok tt)
          (stats-IsServing round_idx (lookup_or [] round_idx s.stats_buffer) s more v) v

    pub report-IsServing :
        (expected round_idx sender : ℕ) (content : Stats ops) (s : FahServer ops)
        → 0 < length cfg.target_modules
        → IsServing ops cfg s
        → IsServing ops cfg
            (callback_funcs_for_fah_stats ops cfg env expected round_idx sender content s).0
    unfolding callback_funcs_for_fah_stats
    report-IsServing expected round_idx sender content s more v =
        let received = insert sender content (lookup_or [] round_idx s.stats_buffer) in
        let s' : FahServer ops = record s {
          stats_buffer = insert round_idx received s.stats_buffer;
        } in
        let v' : IsServing ops cfg s' = record {
          current = v.current;
          has_scheduler = v.has_scheduler;
          is_for = v.is_for;
          is_ranked = v.is_ranked;
        } in
        let processed = process_fah_round ops cfg env round_idx s' in
        let complete = leb expected (length received) in
        branch-IsServing s.enabled (if complete then processed else (s', ok tt)) (s, ok tt)
          (branch-IsServing complete processed (s', ok tt) (process-IsServing round_idx s' more v')
            v')
          v

  -- A message with statistics, and what the round that it may complete is computed with.
  pub record Report : Type 0 where
    pub env : Env ops
    pub expected : ℕ
    pub round_idx : ℕ
    pub sender : ℕ
    pub content : Stats ops

  unfoldable pub run_reports : List Report → FahServer ops → FahServer ops
  run_reports [] s = s
  run_reports (m ∷ reports) s =
      run_reports reports
        (callback_funcs_for_fah_stats ops cfg m.env m.expected m.round_idx m.sender m.content s).0

  run-IsServing :
      (reports : List Report) (s : FahServer ops)
      → 0 < length cfg.target_modules
      → IsServing ops cfg s
      → IsServing ops cfg (run_reports reports s)
  unfolding run_reports
  run-IsServing [] s more v = v
  run-IsServing (m ∷ reports) s more v =
      run-IsServing reports
        (callback_funcs_for_fah_stats ops cfg m.env m.expected m.round_idx m.sender m.content s).0
        more (report-IsServing m.env m.expected m.round_idx m.sender m.content s more v)

  init-IsServing :
      (s : FahServer ops)
      → 0 < length cfg.target_modules
      → IsServing ops cfg (init_fah ops cfg true s)
  unfolding init_fah new_scheduler
  init-IsServing s more = record {
    current = new_scheduler ops cfg;
    has_scheduler = refl;
    is_for = (refl, refl, refl);
    is_ranked = warmup-IsRanked ops cfg (new_scheduler ops cfg) (refl, refl, refl) more;
  }

  -- With a target module: after the initialisation and any messages with statistics, in any order,
  -- of any rounds, from any clients, exceptions included, and whatever the solver and the bandwidth
  -- manager return, the configuration of any round gives every client one rank for all the target
  -- modules, between r_min and the cap of the client.
  pub get_runtime_config_local_lem :
      (s : FahServer ops) (reports : List Report) (round_idx id : ℕ)
      → 0 < length cfg.target_modules
      → 1 ≤ id
      → id ≤ cfg.client_num
      → IsRankedAt ops cfg
          (get_runtime_config_local ops cfg
            (run_reports reports (init_fah ops cfg true s))
            round_idx)
          id
  get_runtime_config_local_lem s reports round_idx id more lo hi =
      runtime-IsRanked ops cfg (run_reports reports (init_fah ops cfg true s)) round_idx more
        (run-IsServing reports (init_fah ops cfg true s) more (init-IsServing s more)) id lo hi
