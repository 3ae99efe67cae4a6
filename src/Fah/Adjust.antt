-- ===== src/Fah/Adjust.antt =====
-- The loop of the heuristic of Stage 2 does all the moves that it is asked for: within its bound on
-- the iterations every client is visited often enough.
use fed_lo_ra_public.Prelude.{
  ℕ, zero, suc, ◌+◌, ◌-◌, ◌*◌, ◌%◌, ◌≤◌, ◌<◌, ◌≡◌, refl, Bool, true, false, List, arith, ltb, ◌==◌,
  ==_iff, Dict, nat_eq, keys, insert, has_key, Bool-cases, inl, inr, Elem, Distinct, rank_of,
  rank_of-insert, lookup-insert, sum_over, sum_over-insert, sum_over-zero, window, keys-insert_old,
}
use mathlib.Core.Path.{subst}
use native.Mathlib.Decide.{ℕ_discrete, dec_lt}
use fed_lo_ra_public.Fah.Stage2.{adjust}

-- `slack` counts the moves that are left at a client: a move is allowed while there are some, and
-- takes one. `visit` finds every client of `ids` at a place below `n`, and no other.
pub record Moves (can : ℕ → ℕ → Bool) (move : ℕ → ℕ) (slack : ℕ → ℕ → ℕ) : Type 0 where
  pub can_iff : (k v : ℕ) → can k v ≡ ltb 0 (slack k v)
  pub takes_one : (k v : ℕ) → can k v ≡ true → slack k (move v) + 1 ≡ slack k v

pub record Visits (visit : ℕ → ℕ) (n : ℕ) (ids : List ℕ) : Type 0 where
  pub some_id : 0 < n
  pub listed : (i : ℕ) → i < n → Elem (visit i) ids
  pub found : (k : ℕ) → Elem k ids → (i : ℕ) × (i < n) × (visit i ≡ k)

rank_cases :
    (P : ℕ → ℕ → Type 0) (r : Dict ℕ ℕ) (c v j : ℕ)
    → P c v
    → P j (rank_of r j)
    → P j (rank_of (insert c v r) j)
rank_cases P r c v j here there = rw rank_of-insert (elim (Bool-cases (c == j)) [
  | inl same ↦ rw same (subst (λ x. P x v) ((==_iff c j).0 same) here)
  | inr other ↦ rw other there
])

pub insert_keeps_key :
    (r : Dict ℕ ℕ) (k v j : ℕ) → has_key j r ≡ true → has_key j (insert k v r) ≡ true
insert_keeps_key r k v j h = ground (arith, h, lookup-insert k j v r)

module _ (can : ℕ → ℕ → Bool) (move : ℕ → ℕ) (slack : ℕ → ℕ → ℕ) (moves : Moves can move slack)
    (visit : ℕ → ℕ) (n : ℕ) (ids : List ℕ) (visits : Visits visit n ids)
    (distinct : Distinct ids) where
  -- The clients at the `j` counters before `idx` have no move left.
  abbrev pub Stuck : ℕ → ℕ → Dict ℕ ℕ → Type 0
  Stuck idx j r =
      (q : ℕ) → q < idx → idx ≤ q + j → can (visit (q % n)) (rank_of r (visit (q % n))) ≡ false

  all-Stuck : (idx : ℕ) (r : Dict ℕ ℕ) → n ≤ idx → Stuck idx n r → sum_over slack ids r ≡ 0
  all-Stuck idx r enough stuck = sum_over-zero slack ids r λ k m.
      let (i, low, at) = visits.found k m in
      let (q, after, before, place) = window n (idx - n) i low in
      let none_left = stuck q (omega arith) (omega arith) in
      let here : visit (q % n) ≡ k = rw place at in
      ground (arith, moves.can_iff k (rank_of r k), rw here at none_left)

  -- With every place of the window stuck there is nothing left to do.
  no_room :
      (idx diff j : ℕ) (r : Dict ℕ ℕ)
      → n ≤ j
      → j ≤ idx
      → diff ≤ sum_over slack ids r
      → Stuck idx j r
      → diff ≡ 0
  no_room idx diff j r nj ji room stuck =
      omega (arith, all-Stuck idx r (omega arith) (λ q a b. stuck q a (omega arith)))

  insert_room :
      (idx : ℕ) (r : Dict ℕ ℕ)
      → can (visit (idx % n)) (rank_of r (visit (idx % n))) ≡ true
      → sum_over slack ids (insert (visit (idx % n)) (move (rank_of r (visit (idx % n)))) r) + 1
        ≡ sum_over slack ids r
  insert_room idx r allowed =
      let k = visit (idx % n) in
      let some_id = visits.some_id in
      let changed =
        sum_over-insert slack ids r k (move (rank_of r k)) distinct
          (visits.listed (idx % n) (omega arith)) in
      omega (arith, changed, moves.takes_one k (rank_of r k) allowed)

  Stuck-next :
      (idx j : ℕ) (r : Dict ℕ ℕ)
      → Stuck idx j r
      → can (visit (idx % n)) (rank_of r (visit (idx % n))) ≡ false
      → Stuck (idx + 1) (j + 1) r
  Stuck-next idx j r stuck closed q before after = elim (ℕ_discrete q idx) [
    | yes at ↦ rw at closed
    | no away ↦ stuck q (omega arith) (omega arith)
  ]

  pub adjust_moves :
      (fuel idx diff j : ℕ) (r : Dict ℕ ℕ)
      → j ≤ n
      → j ≤ idx
      → n * diff ≤ fuel + j
      → diff ≤ sum_over slack ids r
      → Stuck idx j r
      → sum_over slack ids (adjust can move visit n fuel idx diff r) + diff ≡ sum_over slack ids r
  unfolding adjust
  adjust_moves zero idx zero j r jn ji budget room stuck = omega arith
  adjust_moves (suc fuel) idx zero j r jn ji budget room stuck = omega arith
  adjust_moves zero idx (suc d) j r jn ji budget room stuck =
      let some_id = visits.some_id in
      absurd (omega (arith, no_room idx (suc d) j r (omega arith) ji room stuck))
  adjust_moves (suc fuel) idx (suc d) j r jn ji budget room stuck = elim (dec_lt j n) [
    | no full ↦ absurd (omega (arith, no_room idx (suc d) j r (omega arith) ji room stuck))
    | yes more ↦ elim (Bool-cases (can (visit (idx % n)) (rank_of r (visit (idx % n))))) [
      | inl allowed ↦
          let k = visit (idx % n) in
          let r' = insert k (move (rank_of r k)) r in
          let one_less = insert_room idx r allowed in
          let rest =
            adjust_moves fuel (idx + 1) d 0 r' (omega arith) (omega arith) (omega arith)
              (omega (arith, one_less)) (λ q a b. absurd (omega arith)) in
          ground (arith, allowed, one_less, rest)
      | inr closed ↦
          let rest =
            adjust_moves fuel (idx + 1) (suc d) (j + 1) r (omega arith) (omega arith) (omega arith)
              room (Stuck-next idx j r stuck closed) in
          ground (arith, closed, rest)
    ]
  ]

  pub adjust-keys :
      (fuel idx diff : ℕ) (r : Dict ℕ ℕ)
      → ((k : ℕ) → Elem k ids → has_key k r ≡ true)
      → keys (adjust can move visit n fuel idx diff r) ≡ keys r
  unfolding adjust
  adjust-keys zero idx diff r has = refl
  adjust-keys (suc fuel) idx zero r has = refl
  adjust-keys (suc fuel) idx (suc d) r has =
      let k = visit (idx % n) in
      let some_id = visits.some_id in
      let r' = insert k (move (rank_of r k)) r in
      let same =
        keys-insert_old k (move (rank_of r k)) r (has k (visits.listed (idx % n) (omega arith))) in
      let still =
        λ (j : ℕ) (m : Elem j ids). insert_keeps_key r k (move (rank_of r k)) j (has j m) in
      let moved = adjust-keys fuel (idx + 1) d r' still in
      let unmoved = adjust-keys fuel (idx + 1) (suc d) r has in ground (arith, same, moved, unmoved)

  adjust_open :
      (fuel idx d : ℕ) (r : Dict ℕ ℕ)
      → can (visit (idx % n)) (rank_of r (visit (idx % n))) ≡ true
      → adjust can move visit n (suc fuel) idx (suc d) r
        ≡ adjust can move visit n fuel
            (idx + 1)
            d
            (insert (visit (idx % n)) (move (rank_of r (visit (idx % n)))) r)
  unfolding adjust
  adjust_open fuel idx d r allowed = ground (arith, allowed)

  adjust_closed :
      (fuel idx d : ℕ) (r : Dict ℕ ℕ)
      → can (visit (idx % n)) (rank_of r (visit (idx % n))) ≡ false
      → adjust can move visit n (suc fuel) idx (suc d) r
        ≡ adjust can move visit n fuel (idx + 1) (suc d) r
  unfolding adjust
  adjust_closed fuel idx d r closed = ground (arith, closed)

  -- What the moves keep of every client's rank, the loop keeps.
  pub adjust_keeps :
      (P : ℕ → ℕ → Type 0)
      → ((k v : ℕ) → can k v ≡ true → P k v → P k (move v))
      → (fuel idx diff : ℕ) (r : Dict ℕ ℕ) → ((k : ℕ) → Elem k ids → P k (rank_of r k))
      → (k : ℕ) → Elem k ids
      → P k (rank_of (adjust can move visit n fuel idx diff r) k)
  unfolding adjust
  adjust_keeps P keep zero idx diff r h k m = h k m
  adjust_keeps P keep (suc fuel) idx zero r h k m = h k m
  adjust_keeps P keep (suc fuel) idx (suc d) r h k m =
      let c = visit (idx % n) in
      elim (Bool-cases (can c (rank_of r c))) [
        | inl allowed ↦
            let some_id = visits.some_id in
            let here = keep c (rank_of r c) allowed (h c (visits.listed (idx % n) (omega arith))) in
            rw (adjust_open fuel idx d r allowed) (
              adjust_keeps P keep fuel (idx + 1) d (insert c (move (rank_of r c)) r)
                (λ j mj. rank_cases P r c (move (rank_of r c)) j here (h j mj)) k m)
        | inr closed ↦
            rw (adjust_closed fuel idx d r closed)
              (adjust_keeps P keep fuel (idx + 1) (suc d) r h k m)
      ]
