-- ===== src/AdaSparse/Select.antt =====
-- federatedscope/contrib/common/adasparse_lora_utils.py: what `greedy_select_by_score_cost_ratio`
-- selects within its budget.
use fed_lo_ra_public.Prelude.{
  ℕ, ◌+◌, ◌-◌, ◌≤◌, ◌<◌, ◌≡◌, ◌⊎◌, ap, List, [], ◌∷◌, map, sum, arith, leb, ◌==◌, ==_iff, Elem, inl,
  inr, Dict, nat_eq, lookup_or, Bool-cases,
}
use fed_lo_ra_public.Prelude.Floats.{FloatOps}
use fed_lo_ra_public.AdaSparse.Budget.{
  take_affordable, ratio, insert_falling, sort_falling, greedy_select_by_score_cost_ratio,
}

affordable_fits :
    (cost : ℕ → ℕ) (remaining : ℕ) (gs : List ℕ)
    → sum (map cost (take_affordable cost remaining gs)) ≤ remaining
unfolding take_affordable
affordable_fits cost remaining [] = omega arith
affordable_fits cost remaining (g ∷ gs) =
    ground (arith, affordable_fits cost (remaining - cost g) gs, affordable_fits cost remaining gs)

affordable_listed :
    (cost : ℕ → ℕ) (remaining : ℕ) (gs : List ℕ) (k : ℕ)
    → Elem k (take_affordable cost remaining gs)
    → Elem k gs
unfolding take_affordable
affordable_listed cost remaining [] k m = m
affordable_listed cost remaining (g ∷ gs) k m = elim (Bool-cases (leb (cost g) remaining)) [
  | inl fits ↦ elim (rw fits at m) [
    | inl e ↦ inl e
    | inr t ↦ inr (affordable_listed cost (remaining - cost g) gs k t)
  ]
  | inr dear ↦ inr (affordable_listed cost remaining gs k (rw dear at m))
]

-- What is left out costs more than what is left of the budget.
affordable_maximal :
    (cost : ℕ → ℕ) (remaining : ℕ) (gs : List ℕ) (k : ℕ)
    → Elem k gs
    → Elem k (take_affordable cost remaining gs)
      ⊎ (remaining < sum (map cost (take_affordable cost remaining gs)) + cost k)
unfolding take_affordable
affordable_maximal cost remaining [] k m = absurd m
affordable_maximal cost remaining (g ∷ gs) k m = elim (Bool-cases (leb (cost g) remaining)) [
  | inl fits ↦ rw fits (elim m [
    | inl e ↦ inl (inl e)
    | inr t ↦ elim (affordable_maximal cost (remaining - cost g) gs k t) [
      | inl taken ↦ inl (inr taken)
      | inr more ↦ inr (ground (arith, fits, more))
    ]
  ])
  | inr dear ↦ rw dear (elim m [
    | inl e ↦ inr (ground (arith, dear, ap cost e))
    | inr t ↦ affordable_maximal cost remaining gs k t
  ])
]

module _ (ops : FloatOps) (infinity : FloatOps.Float ops) where
  mem-insert_falling :
      (key : ℕ → ops.Float) (k g : ℕ) (hs : List ℕ)
      → (Elem k (insert_falling ops infinity key g hs) → Elem k (g ∷ hs))
        × (Elem k (g ∷ hs) → Elem k (insert_falling ops infinity key g hs))
  unfolding insert_falling
  mem-insert_falling key k g [] = (λ m. m, λ m. m)
  mem-insert_falling key k g (h ∷ hs) =
      let ih = mem-insert_falling key k g hs in
      elim (Bool-cases (ops.lt (key g) (key h))) [
        | inr first ↦ rw first (λ m. m, λ m. m)
        | inl after ↦ rw after (
          λ m. elim m [
            | inl e ↦ inr (inl e)
            | inr t ↦ elim (ih.0 t) [ inl e ↦ inl e | inr u ↦ inr (inr u) ]
          ],
          λ m. elim m [
            | inl e ↦ inr (ih.1 (inl e))
            | inr t ↦ elim t [ inl e ↦ inl e | inr u ↦ inr (ih.1 (inr u)) ]
          ],
        )
      ]

  mem-sort_falling :
      (key : ℕ → ops.Float) (k : ℕ) (gs : List ℕ)
      → (Elem k (sort_falling ops infinity key gs) → Elem k gs)
        × (Elem k gs → Elem k (sort_falling ops infinity key gs))
  unfolding sort_falling
  mem-sort_falling key k [] = (λ m. m, λ m. m)
  mem-sort_falling key k (g ∷ gs) =
      let ih = mem-sort_falling key k gs in
      let at = mem-insert_falling key k g (sort_falling ops infinity key gs) in
      (
        λ m. elim (at.0 m) [ inl e ↦ inl e | inr t ↦ inr (ih.0 t) ],
        λ m. at.1 (elim m [ inl e ↦ inl e | inr t ↦ inr (ih.1 t) ]),
      )

  -- For any scores, costs, budget and survivors: the selected components are survivors, their costs
  -- sum to the budget at most, and, unless the budget is 0, a survivor that is not selected costs
  -- more than what is left of the budget.
  pub greedy_select_lem :
      (scores : Dict ℕ ops.Float) (costs : Dict ℕ ℕ) (budget : ℕ) (survivors : List ℕ)
      → let selected =
          greedy_select_by_score_cost_ratio ops infinity scores costs budget survivors in
        let cost : ℕ → ℕ = λ g. lookup_or 1 g costs in
        (sum (map cost selected) ≤ budget)
        × ((k : ℕ) → Elem k selected → Elem k survivors)
        × ((k : ℕ)
            → Elem k survivors
            → Elem k selected ⊎ (budget < sum (map cost selected) + cost k) ⊎ (budget ≡ 0))
  unfolding greedy_select_by_score_cost_ratio
  greedy_select_lem scores costs budget survivors =
      let cost : ℕ → ℕ = λ g. lookup_or 1 g costs in
      let order = sort_falling ops infinity (ratio ops infinity scores costs) survivors in
      let mem = λ (k : ℕ). mem-sort_falling (ratio ops infinity scores costs) k survivors in
      elim (Bool-cases (budget == 0)) [
        | inl none_left ↦
            rw none_left
              (omega arith, λ k m. absurd m, λ k m. inr (inr ((==_iff budget 0).0 none_left)))
        | inr some_left ↦ rw some_left (
          affordable_fits cost budget order,
          λ k m. (mem k).0 (affordable_listed cost budget order k m),
          λ k m. elim (affordable_maximal cost budget order k ((mem k).1 m)) [
            | inl taken ↦ inl taken
            | inr dear ↦ inr (inl dear)
          ],
        )
      ]
