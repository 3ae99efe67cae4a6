-- ===== src/Fah/Redistribute.antt =====
-- `_redistribute_deficit_under_caps` in federatedscope/contrib/worker/methods/fah_rank_scheduler.py:
-- the sum of the ranks reaches the feasible sum.
use fed_lo_ra_public.Prelude.{
  ℕ, ◌+◌, ◌-◌, ◌≤◌, ◌≡◌, refl, true, false, List, [], arith, leb, min, max, map, ◌==◌, Dict, nat_eq,
  values, sum, Bool-cases, inl, inr, Elem, Distinct, rank_of,
}
use fed_lo_ra_public.Prelude.Floats.{FloatOps}
use fed_lo_ra_public.Fah.Scheduler.{Scheduler, get_client_rank_cap, latency_coefficient}
use fed_lo_ra_public.Fah.Stage2.{
  Pass, dict_of, passes, latency_order, redistribute_deficit_under_caps,
}
use fed_lo_ra_public.Fah.Orders.{mem-sort_by, rank_of-dict_of, sum-map, sum-dict_of, sum_over_eq}
use fed_lo_ra_public.Fah.Feasible.{IsFeasible, sum_below, total}
use fed_lo_ra_public.Fah.Passes.{IsBalanced, passes_spend}

module _ (ops : FloatOps) (s : Scheduler ops) (ids : List ℕ) (distinct : Distinct ids)
    (ranged : s.r_min ≤ s.r_max) where
  abbrev cap : ℕ → ℕ
  cap = get_client_rank_cap ops s

  order-mem :
      (k : ℕ)
      → (Elem k (latency_order ops s ids) → Elem k ids)
        × (Elem k ids → Elem k (latency_order ops s ids))
  unfolding latency_order
  order-mem k = mem-sort_by ops (latency_coefficient ops s) k ids

  -- What the caps leave of the ranks.
  spare_of : Dict ℕ ℕ → Dict ℕ ℕ
  spare_of r = dict_of (λ c. get_client_rank_cap ops s c - rank_of r c) ids

  pass_of : Dict ℕ ℕ → ℕ → Pass
  pass_of r deficit = record {
    ranks = r;
    spare = spare_of r;
    deficit = deficit;
    progressed = false;
  }

  pass_of-IsBalanced :
      (r : Dict ℕ ℕ) (d : ℕ)
      → IsFeasible s.r_min cap ids r
      → IsBalanced s.r_min cap ids (sum (values r) + d) (pass_of r d)
  unfolding spare_of pass_of
  pass_of-IsBalanced r d f = record {
    same_keys = f.same_keys;
    lower = λ k m. (f.bounds k m).0;
    room = λ k m. omega (
      arith,
      rank_of-dict_of (λ c. get_client_rank_cap ops s c - rank_of r c) ids k m,
      f.bounds k m,
    );
    balance = omega (arith, total ops s ids distinct ranged r f.same_keys);
  }

  balanced-IsFeasible :
      (p : Pass) (whole : ℕ)
      → IsBalanced s.r_min cap ids whole p
      → p.deficit ≡ 0
      → IsFeasible s.r_min cap ids p.ranks × (sum (values p.ranks) ≡ whole)
  balanced-IsFeasible p whole b done = (
    record { same_keys = b.same_keys; bounds = λ k m. (b.lower k m, omega (arith, b.room k m)) },
    omega (arith, b.balance, total ops s ids distinct ranged p.ranks b.same_keys, done),
  )

  spend :
      (r : Dict ℕ ℕ) (d : ℕ)
      → IsFeasible s.r_min cap ids r
      → sum (values r) + d ≤ sum (map cap ids)
      → IsFeasible s.r_min cap ids (passes d (latency_order ops s ids) (pass_of r d)).ranks
        × (sum (values (passes d (latency_order ops s ids) (pass_of r d)).ranks)
            ≡ sum (values r) + d)
  unfolding pass_of
  spend r d f fits =
      let (b, done) =
        passes_spend s.r_min cap ids distinct (sum (values r) + d)
          (omega (arith, fits, sum-map cap ids [])) (latency_order ops s ids) order-mem d
          (pass_of r d) (omega arith) (pass_of-IsBalanced r d f) in
      balanced-IsFeasible _ (sum (values r) + d) b done

  total_spare :
      (r : Dict ℕ ℕ)
      → IsFeasible s.r_min cap ids r
      → sum (values r) + sum (values (spare_of r)) ≡ sum (map cap ids)
  unfolding spare_of
  total_spare r f =
      let spare = λ (c : ℕ). get_client_rank_cap ops s c - rank_of r c in
      let same = sum_over_eq (λ k v. spare k) (λ k v. cap k - v) ids [] r (λ k m. refl) in
      omega (
        arith,
        sum_below ops s ids distinct ranged r f,
        sum-dict_of spare ids,
        sum-map spare ids [],
        same,
      )

  redistribute_met :
      (r : Dict ℕ ℕ) (feasible : ℕ)
      → leb feasible (sum (values r)) ≡ true
      → redistribute_deficit_under_caps ops s r ids feasible ≡ r
  unfolding redistribute_deficit_under_caps
  redistribute_met r feasible met = rw met refl

  redistribute_spends :
      (r : Dict ℕ ℕ) (feasible : ℕ)
      → leb feasible (sum (values r)) ≡ false
      → (sum (values (spare_of r)) == 0) ≡ false
      → redistribute_deficit_under_caps ops s r ids feasible
        ≡ (passes
            (min (feasible - sum (values r)) (sum (values (spare_of r))))
            (latency_order ops s ids)
            (pass_of r (min (feasible - sum (values r)) (sum (values (spare_of r)))))).ranks
  unfolding redistribute_deficit_under_caps spare_of pass_of
  redistribute_spends r feasible short roomy = rw (short, roomy) refl

  -- The redistribution of feasible ranks keeps every client within its bounds and reaches the sum
  -- that it is asked for, which the caps allow; ranks above that sum stay as they are.
  pub redistribute_lem :
      (r : Dict ℕ ℕ) (feasible : ℕ)
      → IsFeasible s.r_min cap ids r
      → feasible ≤ sum (map cap ids)
      → IsFeasible s.r_min cap ids (redistribute_deficit_under_caps ops s r ids feasible)
        × (sum (values (redistribute_deficit_under_caps ops s r ids feasible))
            ≡ max (sum (values r)) feasible)
  redistribute_lem r feasible f fits =
      let whole = total_spare r f in
      let deficit = min (feasible - sum (values r)) (sum (values (spare_of r))) in
      elim (Bool-cases (leb feasible (sum (values r)))) [
        | inl met ↦ rw (redistribute_met r feasible met) (f, ground (arith, met))
        | inr short ↦ elim (Bool-cases (sum (values (spare_of r)) == 0)) [
          | inl tight ↦ absurd (ground (arith, short, tight, whole, fits))
          | inr roomy ↦
              let (g, e) = spend r deficit f (ground (arith, whole)) in
              rw (redistribute_spends r feasible short roomy)
                (g, ground (arith, short, e, whole, fits))
        ]
      ]
