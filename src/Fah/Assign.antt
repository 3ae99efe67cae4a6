-- ===== src/Fah/Assign.antt =====
-- federatedscope/contrib/worker/methods/fah_rank_scheduler.py: `_solve_p1_cvxpy` around its solver,
-- `_round_to_valid_integers`, and `solve_p1_for_round`, which calls the solvers.
use fed_lo_ra_public.Prelude.{
  ℕ, zero, suc, ◌+◌, ◌-◌, Bool, List, [], ◌∷◌, map, Option, none, some, min, max, ltb, Dict, nat_eq,
  keys, values, insert, rank_of, sum, if◌then◌else◌,
}
use fed_lo_ra_public.Prelude.Floats.{FloatOps}
use fed_lo_ra_public.Fah.Scheduler.{
  Scheduler, get_client_rank_cap, hat_rank, get_feasible_stage2_target,
}
use fed_lo_ra_public.Fah.Stage2.{
  id_at, map_items, solve_p1_heuristic, clamp_all, redistribute_deficit_under_caps,
}

-- One loop of `_round_to_valid_integers` over the clients in the order of argsort: each is moved by
-- one unit where `can` allows it, until `diff` is 0.
unfoldable pub nudge : (ℕ → ℕ → Bool) → (ℕ → ℕ) → List ℕ → ℕ → Dict ℕ ℕ → Dict ℕ ℕ
nudge can move [] diff r = r
nudge can move (c ∷ order) zero r = r
nudge can move (c ∷ order) (suc diff) r =
    let open_ = can c (rank_of r c) in
    nudge can move order (if open_ then diff else suc diff)
      (if open_ then insert c (move (rank_of r c)) r else r)

module _ (ops : FloatOps) (argsort : List (FloatOps.Float ops) → List ℕ) where
  open ops use {Float}

  -- np.clip(np.round(r_continuous).astype(int), r_min, upper_bounds), by client.
  unfoldable pub rounded : Scheduler ops → List ℕ → List Float → Dict ℕ ℕ
  rounded s [] xs = []
  rounded s (c ∷ cs) [] = []
  rounded s (c ∷ cs) (x ∷ xs) =
      (c, min (max (ops.round_nat x) s.r_min) (get_client_rank_cap ops s c)) ∷ rounded s cs xs

  -- r_continuous - r_int
  unfoldable pub residuals : List Float → List ℕ → List Float
  residuals [] rs = []
  residuals (x ∷ xs) [] = []
  residuals (x ∷ xs) (r ∷ rs) = ops.sub x (ops.of_nat r) ∷ residuals xs rs

  unfoldable pub negate : Float → Float
  negate x = ops.sub (ops.of_nat 0) x

  unfoldable pub round_to_valid_integers : Scheduler ops → List ℕ → List Float → ℕ → Dict ℕ ℕ
  round_to_valid_integers s client_ids xs target_sum =
      let r = rounded s client_ids xs in
      let current_sum = sum (values r) in
      let res = residuals xs (values r) in
      if ltb current_sum target_sum
      then nudge (λ c rank. ltb rank (get_client_rank_cap ops s c)) (λ rank. rank + 1)
          (map (id_at client_ids) (argsort (map negate res))) (target_sum - current_sum) r
      else nudge (λ c rank. ltb s.r_min rank) (λ rank. rank - 1)
          (map (id_at client_ids) (argsort res)) (current_sum - target_sum) r

  -- The ranks of the solver, and those of the heuristic where it returns none.
  unfoldable pub solve_p1 : Scheduler ops → Option (List Float) → Float → List ℕ → ℕ → Dict ℕ ℕ
  solve_p1 s none r_i client_ids target_sum =
      solve_p1_heuristic ops s (ops.round_nat r_i) client_ids target_sum
  solve_p1 s (some xs) r_i client_ids target_sum =
      round_to_valid_integers s client_ids xs target_sum

  -- What `solve_p1_for_round` does with the ranks of a solver.
  unfoldable pub finish_p1 : Scheduler ops → Dict ℕ ℕ → List ℕ → ℕ → Scheduler ops
  finish_p1 s solved client_ids feasible =
      let clamped =
        redistribute_deficit_under_caps ops s (clamp_all ops s solved) client_ids feasible in
      record s {
        current_ranks = clamped;
        current_hat_ranks =
            map_items (λ c rank. hat_rank ops s (get_client_rank_cap ops s c) rank) clamped;
      }

  -- The rest of `solve_p1_for_round` for the ids of the profiles, with its early return.
  unfoldable pub solve_clients :
      Scheduler ops → List ℕ → Option (List Float) → Float → Scheduler ops
  solve_clients s [] solver r_i = s
  solve_clients s (c ∷ cs) solver r_i =
      let (target, feasible, r) = get_feasible_stage2_target ops s (c ∷ cs) r_i in
      finish_p1 s (solve_p1 s solver r (c ∷ cs) feasible) (c ∷ cs) feasible

  unfoldable pub solve_p1_for_round : Scheduler ops → Option (List Float) → Float → Scheduler ops
  solve_p1_for_round s solver r_i = solve_clients s (keys s.client_profiles) solver r_i
