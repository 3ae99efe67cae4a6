-- ===== src/Fah/Rounds.antt =====
-- `solve_p1_for_round` in federatedscope/contrib/worker/methods/fah_rank_scheduler.py: the ranks of a
-- round, whichever solver made them. The solver returns a rank for each client, and the places that
-- argsort lists are those of its argument.
use fed_lo_ra_public.Prelude.{
  ℕ, zero, suc, ◌-◌, ◌*◌, ◌≤◌, ◌<◌, ◌≡◌, refl, ap, sym, ◌∙◌, Bool, List, [], ◌∷◌, arith, ltb, max,
  map, Option, none, some, Dict, nat_eq, keys, values, sum, insert, Bool-cases, inl, inr, Elem,
  Distinct, rank_of, length, keys-insert_old, has_key_of_Elem,
}
use mathlib.Core.Path.{subst}
use fed_lo_ra_public.Prelude.Floats.{FloatOps}
use fed_lo_ra_public.Fah.Scheduler.{
  Scheduler, get_client_rank_cap, get_feasible_stage2_target, hat_rank,
}
use fed_lo_ra_public.Fah.Stage2.{id_at, clamp_all, redistribute_deficit_under_caps}
use fed_lo_ra_public.Fah.Orders.{id_at-mem, keys-map_items, rank_of-map_items}
use fed_lo_ra_public.Fah.Assign.{
  nudge, rounded, residuals, negate, round_to_valid_integers, solve_p1, finish_p1, solve_clients,
  solve_p1_for_round,
}
use fed_lo_ra_public.Fah.Feasible.{IsFeasible, clamp-makes, clamp-IsFeasible, floor_fits}
use fed_lo_ra_public.Fah.Heuristic.{solve_p1_heuristic_lem}
use fed_lo_ra_public.Fah.Redistribute.{redistribute_lem}

keys-nudge :
    (can : ℕ → ℕ → Bool) (move : ℕ → ℕ) (order : List ℕ) (diff : ℕ) (r : Dict ℕ ℕ)
    → ((k : ℕ) → Elem k order → Elem k (keys r))
    → keys (nudge can move order diff r) ≡ keys r
unfolding nudge
keys-nudge can move [] diff r listed = refl
keys-nudge can move (c ∷ order) zero r listed = refl
keys-nudge can move (c ∷ order) (suc diff) r listed =
    let r' = insert c (move (rank_of r c)) r in
    let same =
      keys-insert_old c (move (rank_of r c)) r (has_key_of_Elem c r (listed c (inl refl))) in
    let moved =
      keys-nudge can move order diff r' (λ k m. subst (Elem k) (sym same) (listed k (inr m))) in
    let unmoved = keys-nudge can move order (suc diff) r (λ k m. listed k (inr m)) in
    ground (arith, same, moved, unmoved)

module _ (ops : FloatOps) (argsort : List (FloatOps.Float ops) → List ℕ) where
  open ops use {Float}

  keys-rounded :
      (s : Scheduler ops) (ids : List ℕ) (xs : List Float)
      → length xs ≡ length ids
      → keys (rounded ops argsort s ids xs) ≡ ids
  unfolding rounded
  keys-rounded s [] xs e = refl
  keys-rounded s (c ∷ cs) [] e = absurd (omega (arith, e))
  keys-rounded s (c ∷ cs) (x ∷ xs) e = ap (◌∷◌ c) (keys-rounded s cs xs (omega (arith, e)))

  length-residuals :
      (xs : List Float) (rs : List ℕ)
      → length xs ≡ length rs
      → length (residuals ops argsort xs rs) ≡ length xs
  unfolding residuals
  length-residuals [] rs e = refl
  length-residuals (x ∷ xs) [] e = absurd (omega (arith, e))
  length-residuals (x ∷ xs) (r ∷ rs) e = ap suc (length-residuals xs rs (omega (arith, e)))

  -- argsort lists places of its argument.
  abbrev pub ListsPlaces : Type 0
  ListsPlaces = (xs : List Float) (i : ℕ) → Elem i (argsort xs) → i < length xs

length-values : (d : Dict ℕ ℕ) → length (values d) ≡ length (keys d)
length-values [] = refl
length-values ((k, v) ∷ d) = ap suc (length-values d)

length-map : {A B : Type 0} → (f : A → B) (xs : List A) → length (map f xs) ≡ length xs
length-map f [] = refl
length-map f (x ∷ xs) = ap suc (length-map f xs)

mem-map_places :
    (ids places : List ℕ) (k : ℕ)
    → ((i : ℕ) → Elem i places → i < length ids)
    → Elem k (map (id_at ids) places)
    → Elem k ids
mem-map_places ids [] k low m = absurd m
mem-map_places ids (i ∷ places) k low (inl e) =
    subst (λ x. Elem x ids) (sym e) (id_at-mem ids i (low i (inl refl)))
mem-map_places ids (i ∷ places) k low (inr m) =
    mem-map_places ids places k (λ j mj. low j (inr mj)) m

module _ (ops : FloatOps) (argsort : List (FloatOps.Float ops) → List ℕ)
    (places : ListsPlaces ops argsort) where
  open ops use {Float}

  order-listed :
      (ids : List ℕ) (r : Dict ℕ ℕ) (ys : List Float)
      → keys r ≡ ids
      → length ys ≡ length ids
      → (k : ℕ) → Elem k (map (id_at ids) (argsort ys))
      → Elem k (keys r)
  order-listed ids r ys same size k m =
      subst (Elem k) (sym same)
        (mem-map_places ids (argsort ys) k (λ i mi. omega (arith, places ys i mi, size)) m)

  keys-round_to_valid_integers :
      (s : Scheduler ops) (ids : List ℕ) (xs : List Float) (target : ℕ)
      → length xs ≡ length ids
      → keys (round_to_valid_integers ops argsort s ids xs target) ≡ ids
  unfolding round_to_valid_integers
  keys-round_to_valid_integers s ids xs target e =
      let r = rounded ops argsort s ids xs in
      let same = keys-rounded ops argsort s ids xs e in
      let res = residuals ops argsort xs (values r) in
      let size : length res ≡ length ids = omega (
        arith,
        e,
        length-values r,
        ap length same,
        length-residuals ops argsort xs (values r)
            (omega (arith, e, length-values r, ap length same)),
      ) in
      let negated : length (map (negate ops argsort) res) ≡ length ids =
        length-map (negate ops argsort) res ∙ size in
      elim (Bool-cases (ltb (sum (values r)) target)) [
        | inl short ↦ rw short (
            keys-nudge _ _ _ (target - sum (values r)) r (order-listed ids r _ same negated) ∙ same)
        | inr long ↦
            rw long
              (keys-nudge _ _ _ (sum (values r) - target) r (order-listed ids r _ same size) ∙ same)
      ]

  -- The solver, where it returns, returns a rank for each client.
  abbrev pub Answers : Option (List Float) → List ℕ → Type 0
  Answers none ids = Unit
  Answers (some xs) ids = length xs ≡ length ids

  -- What the clamp makes of the ranks of either solver.
  clamped-IsFeasible :
      (s : Scheduler ops) (ids : List ℕ) (distinct : Distinct ids) (ranged : s.r_min ≤ s.r_max)
      → 0 < length ids
      → (solver : Option (List Float)) (x : Float) (target : ℕ) → Answers solver ids
      → length ids * s.r_min ≤ target
      → target ≤ sum (map (get_client_rank_cap ops s) ids)
      → IsFeasible s.r_min
          (get_client_rank_cap ops s)
          ids
          (clamp_all ops s (solve_p1 ops argsort s solver x ids target))
        × (solver ≡ none
            → sum (values (clamp_all ops s (solve_p1 ops argsort s solver x ids target))) ≡ target)
  unfolding solve_p1
  clamped-IsFeasible s ids distinct ranged some_id none x target answers low high =
      let (f, e) =
        solve_p1_heuristic_lem ops s ids distinct ranged some_id (ops.round_nat x) target low
          high in
      let (g, same) = clamp-IsFeasible ops s ids distinct ranged _ f in (g, λ no. same ∙ e)
  clamped-IsFeasible s ids distinct ranged some_id (some xs) x target answers low high = (
    clamp-makes ops s ids distinct ranged _ (keys-round_to_valid_integers s ids xs target answers),
    λ no. absurd (ground (arith, no)),
  )

  -- The feasible sum of the ranks that Stage 2 asks for.
  abbrev pub feasible_sum : Scheduler ops → List ℕ → Float → ℕ
  feasible_sum s ids r_i = (get_feasible_stage2_target ops s ids r_i).1

  feasible_bounds :
      (s : Scheduler ops) (ids : List ℕ) (r_i : Float)
      → Distinct ids
      → s.r_min ≤ s.r_max
      → (length ids * s.r_min ≤ feasible_sum s ids r_i)
        × (feasible_sum s ids r_i ≤ sum (map (get_client_rank_cap ops s) ids))
  unfolding get_feasible_stage2_target
  feasible_bounds s ids r_i distinct ranged =
      (ground arith, ground (arith, floor_fits ops s ids distinct ranged))

  -- What the ranks of a round are to be: feasible, with the rank of each client's next-round estimate
  -- between r_min and its rank.
  pub record IsSolved (s : Scheduler ops) (ids : List ℕ) (s' : Scheduler ops) : Type 0 where
    pub ranks : IsFeasible s.r_min (get_client_rank_cap ops s) ids s'.current_ranks
    pub hat_keys : keys s'.current_hat_ranks ≡ ids
    pub hats :
        (k : ℕ)
        → Elem k ids
        → (s.r_min ≤ rank_of s'.current_hat_ranks k)
          × (rank_of s'.current_hat_ranks k ≤ rank_of s'.current_ranks k)

  finish-IsSolved :
      (s : Scheduler ops) (ids : List ℕ) (distinct : Distinct ids) (ranged : s.r_min ≤ s.r_max)
      → (solved : Dict ℕ ℕ) (feasible : ℕ)
      → IsFeasible s.r_min (get_client_rank_cap ops s) ids (clamp_all ops s solved)
      → feasible ≤ sum (map (get_client_rank_cap ops s) ids)
      → IsSolved s ids (finish_p1 ops argsort s solved ids feasible)
        × (sum (values (finish_p1 ops argsort s solved ids feasible).current_ranks)
            ≡ max (sum (values (clamp_all ops s solved))) feasible)
  unfolding finish_p1 hat_rank
  finish-IsSolved s ids distinct ranged solved feasible f high =
      let (g, e) =
        redistribute_lem ops s ids distinct ranged (clamp_all ops s solved) feasible f high in
      let r = redistribute_deficit_under_caps ops s (clamp_all ops s solved) ids feasible in
      (
        record {
          ranks = g;
          hat_keys = keys-map_items _ r ∙ g.same_keys;
          hats = λ k m.
              let at =
                rank_of-map_items (λ c rank. hat_rank ops s (get_client_rank_cap ops s c) rank) r k
                  (subst (Elem k) (sym g.same_keys) m) in
              ground (arith, at, g.bounds k m);
        },
        e,
      )

  solve_clients-IsSolved :
      (s : Scheduler ops) (ids : List ℕ) (distinct : Distinct ids) (ranged : s.r_min ≤ s.r_max)
      → 0 < length ids
      → (solver : Option (List Float)) (r_i : Float) → Answers solver ids
      → IsSolved s ids (solve_clients ops argsort s ids solver r_i)
        × (feasible_sum s ids r_i
            ≤ sum (values (solve_clients ops argsort s ids solver r_i).current_ranks))
        × (solver ≡ none
            → sum (values (solve_clients ops argsort s ids solver r_i).current_ranks)
              ≡ feasible_sum s ids r_i)
  unfolding solve_clients
  solve_clients-IsSolved s [] distinct ranged some_id solver r_i answers = absurd (omega arith)
  solve_clients-IsSolved s (c ∷ cs) distinct ranged some_id solver r_i answers =
      let (target, feasible, x) = get_feasible_stage2_target ops s (c ∷ cs) r_i in
      let (low, high) = feasible_bounds s (c ∷ cs) r_i distinct ranged in
      let (f, exact) =
        clamped-IsFeasible s (c ∷ cs) distinct ranged some_id solver x feasible answers low high in
      let (g, e) =
        finish-IsSolved s (c ∷ cs) distinct ranged
          (solve_p1 ops argsort s solver x (c ∷ cs) feasible) feasible f high in
      (g, omega (arith, e), λ no. omega (arith, e, exact no))

  -- After Stage 2 for distinct clients, of which there is one, and r_min at most r_max: each client
  -- has a rank between r_min and its cap, and an estimate between r_min and that rank; the ranks sum
  -- to the feasible sum at least, and to exactly that sum where the heuristic made them. Where a
  -- solver made them it is asked for one rank for each client, of any value.
  pub solve_p1_for_round_lem :
      (s : Scheduler ops)
      → Distinct (keys s.client_profiles)
      → s.r_min ≤ s.r_max
      → 0 < length (keys s.client_profiles)
      → (solver : Option (List Float)) (r_i : Float) → Answers solver (keys s.client_profiles)
      → IsSolved s (keys s.client_profiles) (solve_p1_for_round ops argsort s solver r_i)
        × (feasible_sum s (keys s.client_profiles) r_i
            ≤ sum (values (solve_p1_for_round ops argsort s solver r_i).current_ranks))
        × (solver ≡ none
            → sum (values (solve_p1_for_round ops argsort s solver r_i).current_ranks)
              ≡ feasible_sum s (keys s.client_profiles) r_i)
  unfolding solve_p1_for_round
  solve_p1_for_round_lem s distinct ranged some_id solver r_i answers =
      solve_clients-IsSolved s (keys s.client_profiles) distinct ranged some_id solver r_i answers
