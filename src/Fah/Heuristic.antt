-- ===== src/Fah/Heuristic.antt =====
-- The heuristic of Stage 2 in federatedscope/contrib/worker/methods/fah_rank_scheduler.py meets its
-- target within its bound on the iterations.
use fed_lo_ra_public.Prelude.{
  ℕ, ◌+◌, ◌-◌, ◌*◌, ◌≤◌, ◌<◌, ◌≡◌, sym, ◌∙◌, List, arith, ltb, map, Dict, nat_eq, values, sum,
  Bool-cases, inl, inr, Elem, Distinct, length, has_key_of_Elem,
}
use mathlib.Core.Path.{subst}
use fed_lo_ra_public.Prelude.Floats.{FloatOps}
use fed_lo_ra_public.Fah.Scheduler.{Scheduler, get_client_rank_cap, latency_coefficient}
use fed_lo_ra_public.Fah.Stage2.{
  id_at, adjust, latency_order, max_iterations, seed_ranks, solve_p1_heuristic,
}
use fed_lo_ra_public.Fah.Adjust.{Moves, Visits, adjust_moves, adjust-keys, adjust_keeps}
use fed_lo_ra_public.Fah.Orders.{id_at-mem, id_at-found, length-sort_by, mem-sort_by}
use fed_lo_ra_public.Fah.Feasible.{
  IsFeasible, sum_above, sum_below, budget, clamp-IsFeasible, seed-IsFeasible,
}

raise-Moves : (cap : ℕ → ℕ) → Moves (λ k v. ltb v (cap k)) (λ v. v + 1) (λ k v. cap k - v)
raise-Moves cap = record { can_iff = λ k v. ground arith; takes_one = λ k v h. ground arith }

lower-Moves : (r_min : ℕ) → Moves (λ k v. ltb r_min v) (λ v. v - 1) (λ k v. v - r_min)
lower-Moves r_min = record { can_iff = λ k v. ground arith; takes_one = λ k v h. ground arith }

-- An order with the clients of `ids` visits each of them, read from the front or from the back.
module _ (order ids : List ℕ) (n : ℕ) (size : length order ≡ n) (some_id : 0 < n)
    (members : (k : ℕ) → (Elem k order → Elem k ids) × (Elem k ids → Elem k order)) where
  forward-Visits : Visits (id_at order) n ids
  forward-Visits = record {
    some_id = some_id;
    listed = λ i h. (members (id_at order i)).0 (id_at-mem order i (omega arith));
    found = λ k m. let (i, h, e) = id_at-found order k ((members k).1 m) in (i, omega arith, e);
  }

  backward-Visits : Visits (λ i. id_at order (n - 1 - i)) n ids
  backward-Visits = record {
    some_id = some_id;
    listed =
        λ i h. (members (id_at order (n - 1 - i))).0 (id_at-mem order (n - 1 - i) (omega arith));
    found = λ k m.
        let (i, h, e) = id_at-found order k ((members k).1 m) in
        let back : n - 1 - (n - 1 - i) ≡ i = omega arith in (n - 1 - i, omega arith, rw back e);
  }

module _ (ops : FloatOps) (s : Scheduler ops) (ids : List ℕ) (distinct : Distinct ids)
    (ranged : s.r_min ≤ s.r_max) (some_id : 0 < length ids) where
  abbrev order : List ℕ
  order = latency_order ops s ids

  order-mem : (k : ℕ) → (Elem k order → Elem k ids) × (Elem k ids → Elem k order)
  unfolding latency_order
  order-mem k = mem-sort_by ops (latency_coefficient ops s) k ids

  length-order : length order ≡ length ids
  unfolding latency_order
  length-order = length-sort_by ops (latency_coefficient ops s) ids

  raised : Dict ℕ ℕ → ℕ → Dict ℕ ℕ
  raised r diff =
      adjust (λ c rank. ltb rank (get_client_rank_cap ops s c)) (λ rank. rank + 1) (id_at order)
        (length ids) (max_iterations ops s ids) 0 diff r

  lowered : Dict ℕ ℕ → ℕ → Dict ℕ ℕ
  lowered r diff =
      adjust (λ c rank. ltb s.r_min rank) (λ rank. rank - 1) (λ i. id_at order (length ids - 1 - i))
        (length ids) (max_iterations ops s ids) 0 diff r

  raised-IsFeasible :
      (r : Dict ℕ ℕ) (diff : ℕ)
      → IsFeasible s.r_min (get_client_rank_cap ops s) ids r
      → sum (values r) + diff ≤ sum (map (get_client_rank_cap ops s) ids)
      → IsFeasible s.r_min (get_client_rank_cap ops s) ids (raised r diff)
        × (sum (values (raised r diff)) ≡ sum (values r) + diff)
  unfolding raised
  raised-IsFeasible r diff f fits =
      let visits = forward-Visits order ids (length ids) length-order some_id order-mem in
      let moves = raise-Moves (get_client_rank_cap ops s) in
      let has =
        λ (k : ℕ) (m : Elem k ids). has_key_of_Elem k r (subst (Elem k) (sym f.same_keys) m) in
      let moved =
        adjust_moves _ _ _ moves _ _ ids visits distinct (max_iterations ops s ids) 0 diff 0 r
          (omega arith) (omega arith)
          (omega (
            arith,
            budget ops s ids distinct ranged diff
                (omega (arith, fits, sum_above ops s ids distinct ranged r f)),
          ))
          (omega (arith, sum_below ops s ids distinct ranged r f))
          (λ q a b. absurd (omega arith)) in
      let feasible : IsFeasible s.r_min (get_client_rank_cap ops s) ids (raised r diff) = record {
        same_keys =
            adjust-keys _ _ _ moves _ _ ids visits distinct (max_iterations ops s ids) 0 diff r has
            ∙ f.same_keys;
        bounds =
            adjust_keeps _ _ _ moves _ _ ids visits distinct
              (λ k v. (s.r_min ≤ v) × (v ≤ get_client_rank_cap ops s k))
              (λ k v allowed b. ground arith) (max_iterations ops s ids) 0 diff r f.bounds;
      } in
      (
        feasible,
        omega (
          arith,
          moved,
          sum_below ops s ids distinct ranged r f,
          sum_below ops s ids distinct ranged (raised r diff) feasible,
        ),
      )

  lowered-IsFeasible :
      (r : Dict ℕ ℕ) (diff : ℕ)
      → IsFeasible s.r_min (get_client_rank_cap ops s) ids r
      → diff + length ids * s.r_min ≤ sum (values r)
      → IsFeasible s.r_min (get_client_rank_cap ops s) ids (lowered r diff)
        × (sum (values (lowered r diff)) + diff ≡ sum (values r))
  unfolding lowered
  lowered-IsFeasible r diff f fits =
      let visits = backward-Visits order ids (length ids) length-order some_id order-mem in
      let moves = lower-Moves s.r_min in
      let has =
        λ (k : ℕ) (m : Elem k ids). has_key_of_Elem k r (subst (Elem k) (sym f.same_keys) m) in
      let moved =
        adjust_moves _ _ _ moves _ _ ids visits distinct (max_iterations ops s ids) 0 diff 0 r
          (omega arith) (omega arith)
          (omega (
            arith,
            budget ops s ids distinct ranged diff
                (omega (arith, fits, sum_below ops s ids distinct ranged r f)),
          ))
          (omega (arith, sum_above ops s ids distinct ranged r f))
          (λ q a b. absurd (omega arith)) in
      let feasible : IsFeasible s.r_min (get_client_rank_cap ops s) ids (lowered r diff) = record {
        same_keys =
            adjust-keys _ _ _ moves _ _ ids visits distinct (max_iterations ops s ids) 0 diff r has
            ∙ f.same_keys;
        bounds =
            adjust_keeps _ _ _ moves _ _ ids visits distinct
              (λ k v. (s.r_min ≤ v) × (v ≤ get_client_rank_cap ops s k))
              (λ k v allowed b. ground arith) (max_iterations ops s ids) 0 diff r f.bounds;
      } in
      (
        feasible,
        omega (
          arith,
          moved,
          sum_above ops s ids distinct ranged r f,
          sum_above ops s ids distinct ranged (lowered r diff) feasible,
        ),
      )

  -- For a target that the bounds of the clients allow, any seed and any order of the latencies, the
  -- heuristic ends within its bound on the iterations with the target as the sum of the ranks: each
  -- client has one, between r_min and its cap, for distinct clients of which there is one.
  pub solve_p1_heuristic_lem :
      (seed target : ℕ)
      → length ids * s.r_min ≤ target
      → target ≤ sum (map (get_client_rank_cap ops s) ids)
      → IsFeasible s.r_min
          (get_client_rank_cap ops s)
          ids
          (solve_p1_heuristic ops s seed ids target)
        × (sum (values (solve_p1_heuristic ops s seed ids target)) ≡ target)
  unfolding solve_p1_heuristic raised lowered
  solve_p1_heuristic_lem seed target low high =
      let r = seed_ranks ops s seed ids in
      let start = seed-IsFeasible ops s ids distinct ranged seed in
      elim (Bool-cases (ltb (sum (values r)) target)) [
        | inl short ↦
            let (f, e) =
              raised-IsFeasible r (target - sum (values r)) start (ground (arith, short)) in
            let (g, same) = clamp-IsFeasible ops s ids distinct ranged _ f in
            rw short (g, ground (arith, short, e, same))
        | inr long ↦
            let (f, e) =
              lowered-IsFeasible r (sum (values r) - target) start (ground (arith, long)) in
            let (g, same) = clamp-IsFeasible ops s ids distinct ranged _ f in
            rw long (g, ground (arith, long, e, same))
      ]
