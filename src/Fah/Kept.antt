-- ===== src/Fah/Kept.antt =====
-- What the rounds of federatedscope/contrib/worker/methods/fah_qlora_server.py keep of the scheduler: its
-- bounds and its caps.
use fed_lo_ra_public.Prelude.{
  ℕ, ◌&&◌, List, [], ◌∷◌, Option, none, some, Dict, nat_eq, Bool-cases, Option-cases, Result-cases,
  inl, inr,
}
use fed_lo_ra_public.Prelude.Floats.{FloatOps}
use fed_lo_ra_public.Fah.Scheduler.{Scheduler, register_client, assign, set_lora_size}
use fed_lo_ra_public.Fah.Stage1.{
  update_round_stats, append_rates, update_average_rank, stage1, keep_average, push_average,
}
use fed_lo_ra_public.Fah.Assign.{solve_clients, finish_p1}
use fed_lo_ra_public.Fah.Server.{FahConfig}
use fed_lo_ra_public.Fah.Process.{
  Env, sync_bandwidth_from_manager, register_profiled, get_client_bandwidth_for_scheduler, sized,
  profile_of,
}
use fed_lo_ra_public.Fah.Runtime.{IsFor}

module _ (ops : FloatOps) (cfg : FahConfig ops) (env : Env ops) where
  pub sync-IsFor :
      (round_idx : ℕ) (sch : Scheduler ops)
      → IsFor ops cfg sch
      → IsFor ops cfg (sync_bandwidth_from_manager ops cfg env round_idx sch)
  unfolding sync_bandwidth_from_manager
  sync-IsFor round_idx sch h = elim (Option-cases env.bandwidth) [
    | inl absent ↦ rw (sync_bandwidth_from_manager, absent) h
    | inr (manager, there) ↦ rw (sync_bandwidth_from_manager, there) h
  ]

  pub sized-IsFor :
      (sch : Scheduler ops) → IsFor ops cfg sch → IsFor ops cfg (sized ops cfg env sch)
  unfolding sized set_lora_size
  sized-IsFor sch h = elim (Option-cases env.lora_size) [
    | inl absent ↦ rw (sized, absent) h
    | inr (outcome, there) ↦ elim (Result-cases outcome) [
      | inl (sizes, e) ↦ rw (sized, there, e) h
      | inr (x, e) ↦ rw (sized, there, e) h
    ]
  ]

  pub register-IsFor :
      (times : Dict ℕ (List ops.Float)) (sch : Scheduler ops)
      → IsFor ops cfg sch
      → IsFor ops cfg (register_profiled ops cfg env times sch).0
  unfolding register_profiled register_client assign
  register-IsFor [] sch h = h
  register-IsFor ((id, []) ∷ times) sch h = register-IsFor times sch h
  register-IsFor ((id, t ∷ ts) ∷ times) sch h =
      elim (Result-cases (get_client_bandwidth_for_scheduler ops cfg env id)) [
        | inl (bw, e) ↦
            rw (register_profiled, e)
              (register-IsFor times
                (register_client ops sch id (profile_of ops cfg env (t ∷ ts) bw.0 bw.1)) h)
        | inr (x, e) ↦ rw (register_profiled, e) h
      ]

  pub solve-IsFor :
      (sch : Scheduler ops) (ids : List ℕ) (solver : Option (List ops.Float)) (r_i : ops.Float)
      → IsFor ops cfg sch
      → IsFor ops cfg (solve_clients ops env.argsort sch ids solver r_i)
  unfolding solve_clients finish_p1
  solve-IsFor sch [] solver r_i h = h
  solve-IsFor sch (id ∷ ids) solver r_i h = h

  rates-IsFor :
      (sch : Scheduler ops) (f_i f_hat_i t_i t_hat_i : ops.Float) (previous : Option ops.Float)
      → IsFor ops cfg sch
      → IsFor ops cfg (append_rates ops sch f_i f_hat_i t_i t_hat_i previous)
  unfolding append_rates
  rates-IsFor sch f_i f_hat_i t_i t_hat_i none h = h
  rates-IsFor sch f_i f_hat_i t_i t_hat_i (some previous) h =
      elim (Bool-cases (ops.lt (ops.of_nat 0) t_i && ops.lt (ops.of_nat 0) t_hat_i)) [
        | inl both ↦ rw (append_rates, both) h
        | inr not_both ↦ rw (append_rates, not_both) h
      ]

  pub stats-IsFor :
      (sch : Scheduler ops) (losses : Dict ℕ (ops.Float × ops.Float))
      (times : Option (Dict ℕ ops.Float)) (previous : Option ops.Float)
      → IsFor ops cfg sch
      → IsFor ops cfg (update_round_stats ops env.mean sch losses times previous)
  unfolding update_round_stats
  stats-IsFor sch [] times previous h = h
  stats-IsFor sch (l ∷ losses) times previous h = rates-IsFor _ _ _ _ _ previous h

  stage1-IsFor :
      (sch : Scheduler ops) (rates hats : List ops.Float)
      → IsFor ops cfg sch
      → IsFor ops cfg (stage1 ops env.eps sch rates hats).0
  unfolding stage1 keep_average push_average
  stage1-IsFor sch [] hats h = h
  stage1-IsFor sch (r ∷ rates) [] h = h
  stage1-IsFor sch (r ∷ rates) (q ∷ hats) h = h

  pub stage1_of-IsFor :
      (sch : Scheduler ops)
      → IsFor ops cfg sch
      → IsFor ops cfg (update_average_rank ops env.eps sch).0
  unfolding update_average_rank
  stage1_of-IsFor sch h = stage1-IsFor sch sch.rate_history sch.rate_hat_history h
