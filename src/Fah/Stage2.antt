-- ===== src/Fah/Stage2.antt =====
-- federatedscope/contrib/worker/methods/fah_rank_scheduler.py: Stage 2, the ranks of the clients.
-- The solver of cvxpy is a parameter: the continuous ranks that it returns, or nothing where it
-- fails or is not installed; so is the order of numpy's argsort, a list of places.
use fed_lo_ra_public.Prelude.{
  ℕ, zero, suc, ◌+◌, ◌-◌, ◌*◌, ◌%◌, Bool, true, false, ◌&&◌, List, [], ◌∷◌, map, min, max, ltb, leb,
  ◌==◌, Dict, nat_eq, values, insert, rank_of, sum, length, if◌then◌else◌,
}
use fed_lo_ra_public.Prelude.Floats.{FloatOps}
use fed_lo_ra_public.Fah.Scheduler.{Scheduler, get_client_rank_cap, latency_coefficient}

-- l[i], with 0 out of range, which does not occur.
unfoldable pub id_at : List ℕ → ℕ → ℕ
id_at [] i = 0
id_at (x ∷ xs) zero = x
id_at (x ∷ xs) (suc i) = id_at xs i

-- The two `while` loops of `_solve_p1_heuristic`: `idx` counts up to `max_iterations`, here the
-- fuel that is left, and the client at `idx % n` is moved by one unit where `can` allows it, while
-- `diff` is not 0.
unfoldable pub adjust : (ℕ → ℕ → Bool) → (ℕ → ℕ) → (ℕ → ℕ) → ℕ → ℕ → ℕ → ℕ → Dict ℕ ℕ → Dict ℕ ℕ
adjust can move visit n zero idx diff r = r
adjust can move visit n (suc fuel) idx diff r = elim (diff == 0) [
  | true ↦ r
  | false ↦
      let client_id = visit (idx % n) in
      let rank = rank_of r client_id in
      let open_ = can client_id rank in
      adjust can move visit n fuel (idx + 1) (if open_ then diff - 1 else diff)
        (if open_ then insert client_id (move rank) r else r)
]

-- {client_id: f(client_id) for client_id in client_ids}
unfoldable pub dict_of : (ℕ → ℕ) → List ℕ → Dict ℕ ℕ
dict_of f [] = []
dict_of f (c ∷ cs) = (c, f c) ∷ dict_of f cs

-- {cid: f(cid, rank) for cid, rank in d.items()}
unfoldable pub map_items : (ℕ → ℕ → ℕ) → Dict ℕ ℕ → Dict ℕ ℕ
map_items f [] = []
map_items f ((c, r) ∷ d) = (c, f c r) ∷ map_items f d

-- The state of the passes of `_redistribute_deficit_under_caps`.
pub record Pass : Type 0 where
  pub ranks : Dict ℕ ℕ
  pub spare : Dict ℕ ℕ
  pub deficit : ℕ
  pub progressed : Bool

-- The body of the `for` loop of a pass: one unit of the deficit for a client with room.
unfoldable pub give : ℕ → Pass → Pass
give cid p =
    if ltb 0 (rank_of p.spare cid) && ltb 0 p.deficit
    then record {
      ranks = insert cid (rank_of p.ranks cid + 1) p.ranks;
      spare = insert cid (rank_of p.spare cid - 1) p.spare;
      deficit = p.deficit - 1;
      progressed = true;
    }
    else p

-- The `for` loop of one pass; its `break` at deficit 0 skips rounds that change nothing.
unfoldable pub one_pass : List ℕ → Pass → Pass
one_pass [] p = p
one_pass (cid ∷ order) p = one_pass order (give cid p)

-- `while deficit > 0`, with the break of a pass that made no progress.
unfoldable pub passes : ℕ → List ℕ → Pass → Pass
passes zero order p = p
passes (suc fuel) order p = elim (p.deficit == 0) [
  | true ↦ p
  | false ↦
      let p' = one_pass order (record p { progressed = false }) in
      elim p'.progressed [ false ↦ p' | true ↦ passes fuel order p' ]
]

module _ (ops : FloatOps) where
  open ops use {Float, lt}

  -- `latency_coeffs.sort(key=lambda x: x[1])`, a stable sort of the client ids by their latency.
  unfoldable pub insert_by : (ℕ → Float) → ℕ → List ℕ → List ℕ
  insert_by key c [] = c ∷ []
  insert_by key c (d ∷ ds) = if lt (key d) (key c) then d ∷ insert_by key c ds else c ∷ d ∷ ds

  unfoldable pub sort_by : (ℕ → Float) → List ℕ → List ℕ
  sort_by key [] = []
  sort_by key (c ∷ cs) = insert_by key c (sort_by key cs)

  unfoldable pub latency_order : Scheduler ops → List ℕ → List ℕ
  unfolding insert_by sort_by latency_coefficient
  latency_order s client_ids = sort_by (latency_coefficient ops s) client_ids

  -- max(1, sum(client_caps[cid] - self.r_min for cid in client_ids)) * max(1, N)
  unfoldable pub max_iterations : Scheduler ops → List ℕ → ℕ
  max_iterations s client_ids =
      max 1 (sum (map (λ c. get_client_rank_cap ops s c - s.r_min) client_ids))
      * max 1 (length client_ids)

  -- The ranks that the heuristic starts from, all at the seed within the bounds.
  unfoldable pub seed_ranks : Scheduler ops → ℕ → List ℕ → Dict ℕ ℕ
  seed_ranks s seed client_ids =
      dict_of (λ c. max s.r_min (min (get_client_rank_cap ops s c) seed)) client_ids

  -- The last loop of the heuristic, which clamps every rank.
  unfoldable pub clamp_all : Scheduler ops → Dict ℕ ℕ → Dict ℕ ℕ
  clamp_all s r = map_items (λ c rank. max s.r_min (min (get_client_rank_cap ops s c) rank)) r

  -- `_solve_p1_heuristic` for a target and a seed rank, int(round(r_i)).
  unfoldable pub solve_p1_heuristic : Scheduler ops → ℕ → List ℕ → ℕ → Dict ℕ ℕ
  solve_p1_heuristic s seed client_ids target_sum =
      let order = latency_order s client_ids in
      let n = length client_ids in
      let r = seed_ranks s seed client_ids in
      let fuel = max_iterations s client_ids in
      let current_sum = sum (values r) in
      clamp_all s (
        if ltb current_sum target_sum
        then adjust (λ c rank. ltb rank (get_client_rank_cap ops s c)) (λ rank. rank + 1)
            (id_at order) n fuel 0 (target_sum - current_sum) r
        else adjust (λ c rank. ltb s.r_min rank) (λ rank. rank - 1) (λ i. id_at order (n - 1 - i)) n
            fuel 0 (current_sum - target_sum) r)

  unfoldable pub redistribute_deficit_under_caps : Scheduler ops → Dict ℕ ℕ → List ℕ → ℕ → Dict ℕ ℕ
  redistribute_deficit_under_caps s clamped client_ids feasible =
      let current_sum = sum (values clamped) in
      let spare = dict_of (λ c. get_client_rank_cap ops s c - rank_of clamped c) client_ids in
      let total_spare = sum (values spare) in
      if leb feasible current_sum
      then clamped
      else if total_spare == 0
      then clamped
      else (passes (min (feasible - current_sum) total_spare) (latency_order s client_ids) (record {
        ranks = clamped;
        spare = spare;
        deficit = min (feasible - current_sum) total_spare;
        progressed = false;
      })).ranks
