-- ===== src/Fah/Tests.antt =====
-- FahRankScheduler of federatedscope/contrib/worker/methods/fah_rank_scheduler.py on two clients,
-- with natural numbers for the floats.
use fed_lo_ra_public.Prelude.{
  ℕ, ◌+◌, ◌-◌, ◌*◌, ◌/◌, ◌<◌, ◌≤◌, ◌≡◌, refl, List, [], ◌∷◌, map, sum, length, arith, ltb, max,
  Option, none, some, Dict, nat_eq, values, lookup, rank_of, Elem, Distinct, inl, inr,
}
use fed_lo_ra_public.Prelude.Floats.{FloatOps}
use fed_lo_ra_public.Fah.Scheduler.{Scheduler, Profile, mbps, get_client_rank_cap}
use fed_lo_ra_public.Fah.Stage2.{solve_p1_heuristic, redistribute_deficit_under_caps}
use fed_lo_ra_public.Fah.Assign.{solve_p1_for_round}
use fed_lo_ra_public.Fah.Feasible.{IsFeasible}
use fed_lo_ra_public.Fah.Heuristic.{solve_p1_heuristic_lem}
use fed_lo_ra_public.Fah.Redistribute.{redistribute_lem}
use fed_lo_ra_public.Fah.Rounds.{ListsPlaces, feasible_sum, IsSolved, solve_p1_for_round_lem}

abbrev nat_ops : FloatOps
nat_ops = record {
  Float = ℕ;
  of_nat = λ n. n;
  add = λ a b. a + b;
  sub = λ a b. a - b;
  mul = λ a b. a * b;
  div = λ a b. a / b;
  lt = ltb;
  round_nat = λ n. n;
}

abbrev profile : ℕ → Profile nat_ops
profile t_lora = record {
  alpha = 1;
  t_lora = t_lora;
  b_up = 10;
  b_dn = 50;
  b_up_units = mbps;
  b_dn_units = mbps;
}

-- Two clients of which the second is slow and capped at 6.
abbrev scheduler : Scheduler nat_ops
scheduler = record {
  init_rank = 8;
  r_min = 2;
  r_max = 16;
  lambda_dec = 1;
  lambda_inc = 1;
  warmup_rounds = 2;
  client_rank_caps = (2, 6) ∷ [];
  r_history = 8 ∷ [];
  r_hat_history = 7 ∷ [];
  f_history = [];
  f_hat_history = [];
  t_history = [];
  t_hat_history = [];
  rate_history = 3 ∷ [];
  rate_hat_history = 5 ∷ [];
  client_profiles = (1, profile 10) ∷ (2, profile 90) ∷ [];
  l0_bytes = 1000;
  unit_lora_bytes = 100;
  current_ranks = [];
  current_hat_ranks = [];
}

abbrev two : List ℕ
two = 1 ∷ 2 ∷ []

two-Distinct : Distinct two
two-Distinct = (λ m. ground (arith, m), (λ m. m, tt))

caps_of_two : sum (map (get_client_rank_cap nat_ops scheduler) two) ≡ 22
unfolding get_client_rank_cap lookup
caps_of_two = refl

cap_of_two : get_client_rank_cap nat_ops scheduler 2 ≡ 6
unfolding get_client_rank_cap lookup
cap_of_two = refl

solve_p1_heuristic_lem_example :
    IsFeasible 2
      (get_client_rank_cap nat_ops scheduler)
      two
      (solve_p1_heuristic nat_ops scheduler 9 two 18)
    × (sum (values (solve_p1_heuristic nat_ops scheduler 9 two 18)) ≡ 18)
solve_p1_heuristic_lem_example =
    solve_p1_heuristic_lem nat_ops scheduler two two-Distinct (omega arith) (omega arith) 9 18
      (omega arith) (omega (arith, caps_of_two))

abbrev low_ranks : Dict ℕ ℕ
low_ranks = (1, 3) ∷ (2, 4) ∷ []

cap_of_one : get_client_rank_cap nat_ops scheduler 1 ≡ 16
unfolding get_client_rank_cap lookup
cap_of_one = refl

low_ranks-at : (rank_of low_ranks 1 ≡ 3) × (rank_of low_ranks 2 ≡ 4)
unfolding rank_of lookup
low_ranks-at = (refl, refl)

low_ranks-IsFeasible : IsFeasible 2 (get_client_rank_cap nat_ops scheduler) two low_ranks
low_ranks-IsFeasible = record {
  same_keys = refl;
  bounds = λ k m. elim m [
    | inl e ↦ rw e (omega (arith, low_ranks-at, cap_of_one))
    | inr t ↦ elim t [ inl e ↦ rw e (omega (arith, low_ranks-at, cap_of_two)) | inr u ↦ absurd u ]
  ];
}

redistribute_lem_example :
    IsFeasible 2
      (get_client_rank_cap nat_ops scheduler)
      two
      (redistribute_deficit_under_caps nat_ops scheduler low_ranks two 18)
    × (sum (values (redistribute_deficit_under_caps nat_ops scheduler low_ranks two 18))
        ≡ max (sum (values low_ranks)) 18)
redistribute_lem_example =
    redistribute_lem nat_ops scheduler two two-Distinct (omega arith) low_ranks 18
      low_ranks-IsFeasible (omega (arith, caps_of_two))

abbrev places_from : ℕ → List ℕ → List ℕ
places_from i [] = []
places_from i (x ∷ xs) = i ∷ places_from (i + 1) xs

places_from-below : (j : ℕ) (xs : List ℕ) (i : ℕ) → Elem i (places_from j xs) → i < j + length xs
places_from-below j [] i m = absurd m
places_from-below j (x ∷ xs) i (inl e) = omega (arith, e)
places_from-below j (x ∷ xs) i (inr m) = omega (arith, places_from-below (j + 1) xs i m)

abbrev in_order : List ℕ → List ℕ
in_order xs = places_from 0 xs

in_order-ListsPlaces : ListsPlaces nat_ops in_order
in_order-ListsPlaces = λ xs i m. omega (arith, places_from-below 0 xs i m)

abbrev solved : Option (List ℕ)
solved = some (20 ∷ 1 ∷ [])

solve_p1_for_round_lem_example :
    IsSolved nat_ops in_order in_order-ListsPlaces scheduler two
      (solve_p1_for_round nat_ops in_order scheduler solved 9)
    × (feasible_sum nat_ops in_order in_order-ListsPlaces scheduler two 9
        ≤ sum (values (solve_p1_for_round nat_ops in_order scheduler solved 9).current_ranks))
    × (solved ≡ none
        → sum (values (solve_p1_for_round nat_ops in_order scheduler solved 9).current_ranks)
          ≡ feasible_sum nat_ops in_order in_order-ListsPlaces scheduler two 9)
solve_p1_for_round_lem_example =
    solve_p1_for_round_lem nat_ops in_order in_order-ListsPlaces scheduler two-Distinct
      (omega arith) (omega arith) solved 9 refl
