-- ===== src/Fah/Stage1.antt =====
-- federatedscope/contrib/worker/methods/fah_rank_scheduler.py: the statistics of a round and
-- Stage 1, the average rank. `mean` is numpy's mean and `eps` the literal 1e-8.
use fed_lo_ra_public.Prelude.{
  ℕ, ◌-◌, ◌&&◌, List, [], ◌∷◌, ◌++◌, map, Option, none, some, max, Dict, nat_eq, keys, values,
  lookup_or, if◌then◌else◌,
}
use fed_lo_ra_public.Prelude.Floats.{FloatOps, fmax, fmin}
use fed_lo_ra_public.Fah.Scheduler.{Scheduler, compute_client_time}

-- l[-1] of a list that is not empty.
unfoldable pub last {ℓ} : {A : Type ℓ} → A → List A → A
last default [] = default
last default (x ∷ xs) = last x xs

module _ (ops : FloatOps) where
  open ops use {Float, of_nat, add, sub, mul, div, lt}

  -- max(l) if l else 1.0
  unfoldable pub max_or_one : List Float → Float
  max_or_one [] = of_nat 1
  max_or_one (x ∷ []) = x
  max_or_one (x ∷ y ∷ xs) = max_or_one (fmax ops x y ∷ xs)

  unfoldable pub plus : Float × Float → Float
  plus (t_cmp, t_com) = add t_cmp t_com

  -- The rank and the hat rank of a client.
  unfoldable pub rank_in : Scheduler ops → ℕ → ℕ
  rank_in s id = lookup_or s.init_rank id s.current_ranks

  unfoldable pub hat_rank_in : Scheduler ops → ℕ → ℕ
  hat_rank_in s id = lookup_or (max s.r_min (rank_in s id - 1)) id s.current_hat_ranks

  unfoldable pub hat_time : Scheduler ops → ℕ → Float
  hat_time s id = plus (compute_client_time ops s id (hat_rank_in s id))

  unfoldable pub round_time : Scheduler ops → ℕ → Float
  round_time s id = plus (compute_client_time ops s id (rank_in s id))

  -- The measured compute time with the analytic communication time.
  unfoldable pub measured_time : Scheduler ops → ℕ × Float → Float
  measured_time s (id, measured_cmp) =
      add measured_cmp (compute_client_time ops s id (rank_in s id)).1

  unfoldable pub append_rates :
      Scheduler ops → Float → Float → Float → Float → Option Float → Scheduler ops
  append_rates s f_i f_hat_i t_i t_hat_i none = s
  append_rates s f_i f_hat_i t_i t_hat_i (some previous) =
      if lt (of_nat 0) t_i && lt (of_nat 0) t_hat_i
      then record s {
        rate_history = s.rate_history ++ div (sub previous f_i) t_i ∷ [];
        rate_hat_history = s.rate_hat_history ++ div (sub previous f_hat_i) t_hat_i ∷ [];
      }
      else s

  unfoldable pub update_round_stats :
      (List Float → Float)
      → Scheduler ops
      → Dict ℕ (Float × Float)
      → Option (Dict ℕ Float)
      → Option Float
      → Scheduler ops
  update_round_stats mean s [] times previous = s
  update_round_stats mean s (l ∷ losses) times previous =
      let pairs = values (l ∷ losses) in
      let f_i = mean (map (λ p. p.0) pairs) in
      let f_hat_i = mean (map (λ p. p.1) pairs) in
      let t_i = max_or_one (elim times [
        | none ↦ map (round_time s) (keys (l ∷ losses))
        | some ts ↦ map (measured_time s) ts
      ]) in
      let t_hat_i =
        max_or_one
          (map (hat_time s) (elim times [ none ↦ keys (l ∷ losses) | some ts ↦ keys ts ])) in
      let s' : Scheduler ops = record s {
        f_history = s.f_history ++ f_i ∷ [];
        f_hat_history = s.f_hat_history ++ f_hat_i ∷ [];
        t_history = s.t_history ++ t_i ∷ [];
        t_hat_history = s.t_hat_history ++ t_hat_i ∷ [];
      } in
      append_rates s' f_i f_hat_i t_i t_hat_i previous

  -- float(max(r_min, min(r_max, r)))
  unfoldable pub clip : Scheduler ops → Float → Float
  clip s r = fmax ops (of_nat s.r_min) (fmin ops (of_nat s.r_max) r)

  unfoldable pub absf : Float → Float
  absf x = if lt x (of_nat 0) then sub (of_nat 0) x else x

  -- The step of equation (11) by the sign of the gradient; no step where the ranks are too close.
  unfoldable pub step_rank : Float → Scheduler ops → Float → Float → Float → Float → Float
  step_rank eps s rate rate_hat r_prev r_hat_prev =
      let denominator = sub r_prev r_hat_prev in
      let gradient = div (sub rate_hat rate) denominator in
      if lt (absf denominator) eps
      then r_prev
      else if lt (of_nat 0) gradient
      then sub r_prev s.lambda_dec
      else if lt gradient (of_nat 0)
      then add r_prev s.lambda_inc
      else r_prev

  -- No new average: the last ones of the histories, which are never empty.
  unfoldable pub keep_average : Scheduler ops → Scheduler ops × Float × Float
  keep_average s =
      (s, last (of_nat s.init_rank) s.r_history, last (of_nat s.init_rank) s.r_hat_history)

  unfoldable pub push_average : Scheduler ops → Float → Float → Scheduler ops × Float × Float
  push_average s r r_hat = (
    record s { r_history = s.r_history ++ r ∷ []; r_hat_history = s.r_hat_history ++ r_hat ∷ [] },
    r,
    r_hat,
  )

  -- `update_average_rank` on the two histories of rates.
  unfoldable pub stage1 :
      Float → Scheduler ops → List Float → List Float → Scheduler ops × Float × Float
  stage1 eps s [] rate_hats = keep_average s
  stage1 eps s (rate ∷ rates) [] = keep_average s
  stage1 eps s (rate ∷ rates) (rate_hat ∷ rate_hats) =
      let r_prev = last (of_nat s.init_rank) s.r_history in
      let r_hat_prev = last (of_nat s.init_rank) s.r_hat_history in
      let r =
        clip s (step_rank eps s (last rate rates) (last rate_hat rate_hats) r_prev r_hat_prev) in
      push_average s r (fmax ops (of_nat s.r_min) (sub r (of_nat 1)))

  unfoldable pub update_average_rank : Float → Scheduler ops → Scheduler ops × Float × Float
  update_average_rank eps s = stage1 eps s s.rate_history s.rate_hat_history
