-- ===== src/Fah/Feasible.antt =====
-- federatedscope/contrib/worker/methods/fah_rank_scheduler.py: ranks within their bounds, their sum,
-- and the bound on the iterations of `_solve_p1_heuristic`.
use fed_lo_ra_public.Prelude.{
  ℕ, ◌+◌, ◌-◌, ◌*◌, ◌≤◌, ◌≡◌, ap, sym, ◌∙◌, List, [], ◌∷◌, arith, min, max, map, Dict, nat_eq, keys,
  values, sum, Elem, Distinct, rank_of, length, sum_over, sum-values, sum_over-add,
}
use mathlib.Core.Path.{subst}
use fed_lo_ra_public.Prelude.Floats.{FloatOps}
use fed_lo_ra_public.Fah.Scheduler.{Scheduler, get_client_rank_cap}
use fed_lo_ra_public.Fah.Stage2.{max_iterations, seed_ranks, clamp_all}
use fed_lo_ra_public.Fah.Orders.{
  keys-dict_of, rank_of-dict_of, keys-map_items, rank_of-map_items, sum-map, sum_over_eq,
}

-- Every client has a rank in its bounds, and the dictionary has the clients in their order.
pub record IsFeasible (r_min : ℕ) (cap : ℕ → ℕ) (ids : List ℕ) (r : Dict ℕ ℕ) : Type 0 where
  pub same_keys : keys r ≡ ids
  pub bounds : (k : ℕ) → Elem k ids → (r_min ≤ rank_of r k) × (rank_of r k ≤ cap k)

pub sum_over-same :
    (c : ℕ) (ids : List ℕ) (r : Dict ℕ ℕ) → sum_over (λ k v. c) ids r ≡ length ids * c
unfolding sum_over
sum_over-same c [] r = omega arith
sum_over-same c (k ∷ ids) r = omega (arith, sum_over-same c ids r)

module _ (ops : FloatOps) (s : Scheduler ops) (ids : List ℕ) (distinct : Distinct ids)
    (ranged : s.r_min ≤ s.r_max) where
  abbrev pub cap : ℕ → ℕ
  cap = get_client_rank_cap ops s

  pub cap_bounds : (c : ℕ) → (s.r_min ≤ cap c) × (cap c ≤ s.r_max)
  unfolding get_client_rank_cap
  cap_bounds c = ground arith

  pub seed-IsFeasible : (seed : ℕ) → IsFeasible s.r_min cap ids (seed_ranks ops s seed ids)
  unfolding seed_ranks
  seed-IsFeasible seed = record {
    same_keys = keys-dict_of _ ids;
    bounds = λ k m.
        rw (rank_of-dict_of (λ c. max s.r_min (min (cap c) seed)) ids k m)
          (omega (arith, cap_bounds k));
  }

  pub total : (r : Dict ℕ ℕ) → keys r ≡ ids → sum (values r) ≡ sum_over (λ k v. v) ids r
  total r same =
      let base = sum-values r (subst Distinct (sym same) distinct) in
      base ∙ ap (λ l. sum_over (λ k v. v) l r) same

  -- The sum of the ranks is what is above r_min, and what is below the caps.
  pub sum_above :
      (r : Dict ℕ ℕ)
      → IsFeasible s.r_min cap ids r
      → sum (values r) ≡ sum_over (λ k v. v - s.r_min) ids r + length ids * s.r_min
  sum_above r f =
      let parts =
        sum_over-add (λ k v. v - s.r_min) (λ k v. s.r_min) (λ k v. v) ids r
          (λ k m. omega (arith, f.bounds k m)) in
      omega (arith, parts, total r f.same_keys, sum_over-same s.r_min ids r)

  pub sum_below :
      (r : Dict ℕ ℕ)
      → IsFeasible s.r_min cap ids r
      → sum (values r) + sum_over (λ k v. cap k - v) ids r ≡ sum (map cap ids)
  sum_below r f =
      let parts =
        sum_over-add (λ k v. v) (λ k v. cap k - v) (λ k v. cap k) ids r
          (λ k m. omega (arith, f.bounds k m)) in
      omega (arith, parts, total r f.same_keys, sum-map cap ids r)

  -- Any difference between two feasible sums fits the bound on the iterations.
  pub budget :
      (diff : ℕ)
      → diff + length ids * s.r_min ≤ sum (map cap ids)
      → length ids * diff ≤ max_iterations ops s ids
  unfolding max_iterations
  budget diff h =
      let room = sum (map (λ c. cap c - s.r_min) ids) in
      let parts =
        sum_over-add (λ k v. cap k - s.r_min) (λ k v. s.r_min) (λ k v. cap k) ids []
          (λ k m. omega (arith, cap_bounds k)) in
      let fits : diff ≤ max 1 room = omega (
        arith,
        parts,
        sum_over-same s.r_min ids [],
        sum-map cap ids [],
        sum-map (λ c. cap c - s.r_min) ids [],
      ) in
      grind arith

  -- The last clamp leaves feasible ranks as they are.
  pub clamp-rank_of :
      (r : Dict ℕ ℕ)
      → IsFeasible s.r_min cap ids r
      → (k : ℕ) → Elem k ids
      → rank_of (clamp_all ops s r) k ≡ rank_of r k
  unfolding clamp_all
  clamp-rank_of r f k m =
      let at =
        rank_of-map_items (λ c rank. max s.r_min (min (get_client_rank_cap ops s c) rank)) r k
          (subst (Elem k) (sym f.same_keys) m) in
      omega (arith, at, f.bounds k m)

  pub keys-clamp_all : (r : Dict ℕ ℕ) → keys (clamp_all ops s r) ≡ keys r
  unfolding clamp_all
  keys-clamp_all r = keys-map_items _ r

  pub clamp-IsFeasible :
      (r : Dict ℕ ℕ)
      → IsFeasible s.r_min cap ids r
      → IsFeasible s.r_min cap ids (clamp_all ops s r)
        × (sum (values (clamp_all ops s r)) ≡ sum (values r))
  clamp-IsFeasible r f =
      let same = keys-clamp_all r ∙ f.same_keys in
      let ranks = sum_over_eq (λ k v. v) (λ k v. v) ids (clamp_all ops s r) r (clamp-rank_of r f) in
      (
        record { same_keys = same; bounds = λ k m. rw (clamp-rank_of r f k m) (f.bounds k m) },
        total (clamp_all ops s r) same ∙ ranks ∙ sym (total r f.same_keys),
      )

  -- The floor of all the clients is within their caps.
  pub floor_fits : length ids * s.r_min ≤ sum (map cap ids)
  floor_fits =
      let parts =
        sum_over-add (λ k v. cap k - s.r_min) (λ k v. s.r_min) (λ k v. cap k) ids []
          (λ k m. omega (arith, cap_bounds k)) in
      omega (arith, parts, sum_over-same s.r_min ids [], sum-map cap ids [])

  -- The clamp makes any ranks of the clients feasible.
  pub clamp-makes : (r : Dict ℕ ℕ) → keys r ≡ ids → IsFeasible s.r_min cap ids (clamp_all ops s r)
  unfolding clamp_all
  clamp-makes r same = record {
    same_keys = keys-clamp_all r ∙ same;
    bounds = λ k m.
        rw
          (rank_of-map_items (λ c rank. max s.r_min (min (get_client_rank_cap ops s c) rank)) r k
            (subst (Elem k) (sym same) m))
          (ground (arith, cap_bounds k));
  }
