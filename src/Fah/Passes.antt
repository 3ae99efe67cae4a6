-- ===== src/Fah/Passes.antt =====
-- The passes of `_redistribute_deficit_under_caps` in
-- federatedscope/contrib/worker/methods/fah_rank_scheduler.py spend the whole deficit where the caps
-- leave room for it.
use fed_lo_ra_public.Prelude.{
  ℕ, zero, suc, ◌+◌, ◌-◌, ◌≤◌, ◌<◌, ◌≡◌, ◌⊎◌, refl, sym, ◌∙◌, Bool, true, false, ◌&&◌, List, [],
  ◌∷◌, arith, ltb, ◌==◌, ==_iff, nat_eq, keys, insert, Bool-cases, inl, inr, Elem, Distinct,
  rank_of, rank_of-insert, sum_over, sum_over-insert, keys-insert_old, has_key_of_Elem,
}
use mathlib.Core.Path.{subst}
use fed_lo_ra_public.Fah.Orders.{sum_over_eq}
use fed_lo_ra_public.Fah.Stage2.{Pass, give, one_pass, passes}

-- The passes hand out `whole` units among `ids` under the caps: what is spare is what the caps
-- leave, and no unit is lost.
pub record IsBalanced (r_min : ℕ) (cap : ℕ → ℕ) (ids : List ℕ) (whole : ℕ) (p : Pass) : Type 0 where
  pub same_keys : keys p.ranks ≡ ids
  pub lower : (k : ℕ) → Elem k ids → r_min ≤ rank_of p.ranks k
  pub room : (k : ℕ) → Elem k ids → rank_of p.spare k + rank_of p.ranks k ≡ cap k
  pub balance : sum_over (λ k v. v) ids p.ranks + p.deficit ≡ whole

can_give : ℕ → Pass → Bool
can_give cid p = ltb 0 (rank_of p.spare cid) && ltb 0 p.deficit

given : ℕ → Pass → Pass
given cid p = record {
  ranks = insert cid (rank_of p.ranks cid + 1) p.ranks;
  spare = insert cid (rank_of p.spare cid - 1) p.spare;
  deficit = p.deficit - 1;
  progressed = true;
}

give_open : (cid : ℕ) (p : Pass) → can_give cid p ≡ true → give cid p ≡ given cid p
unfolding give can_give given
give_open cid p h = rw h refl

give_closed : (cid : ℕ) (p : Pass) → can_give cid p ≡ false → give cid p ≡ p
unfolding give can_give
give_closed cid p h = rw h refl

module _ (r_min : ℕ) (cap : ℕ → ℕ) (ids : List ℕ) (distinct : Distinct ids) (whole : ℕ) where
  given-IsBalanced :
      (cid : ℕ) (p : Pass)
      → Elem cid ids
      → can_give cid p ≡ true
      → IsBalanced r_min cap ids whole p
      → IsBalanced r_min cap ids whole (given cid p)
  unfolding given can_give
  given-IsBalanced cid p m h b = record {
    same_keys =
        keys-insert_old cid (rank_of p.ranks cid + 1) p.ranks
          (has_key_of_Elem cid p.ranks (subst (Elem cid) (sym b.same_keys) m))
        ∙ b.same_keys;
    lower = λ k mk. ground (
      arith,
      b.lower k mk,
      b.lower cid m,
      rank_of-insert p.ranks cid (rank_of p.ranks cid + 1) k,
    );
    room = λ k mk. ground (
      arith,
      h,
      b.room k mk,
      b.room cid m,
      ==_iff cid k,
      rank_of-insert p.ranks cid (rank_of p.ranks cid + 1) k,
      rank_of-insert p.spare cid (rank_of p.spare cid - 1) k,
    );
    balance = ground (
      arith,
      h,
      b.balance,
      sum_over-insert (λ k v. v) ids p.ranks cid (rank_of p.ranks cid + 1) distinct m,
    );
  }

  give-IsBalanced :
      (cid : ℕ) (p : Pass)
      → Elem cid ids
      → IsBalanced r_min cap ids whole p
      → IsBalanced r_min cap ids whole (give cid p)
  give-IsBalanced cid p m b = elim (Bool-cases (can_give cid p)) [
    | inl h ↦ rw (give_open cid p h) (given-IsBalanced cid p m h b)
    | inr h ↦ rw (give_closed cid p h) b
  ]

  one_pass-IsBalanced :
      (order : List ℕ) (p : Pass)
      → ((k : ℕ) → Elem k order → Elem k ids)
      → IsBalanced r_min cap ids whole p
      → IsBalanced r_min cap ids whole (one_pass order p)
  unfolding one_pass
  one_pass-IsBalanced [] p listed b = b
  one_pass-IsBalanced (c ∷ order) p listed b =
      one_pass-IsBalanced order (give c p) (λ k m. listed k (inr m))
        (give-IsBalanced c p (listed c (inl refl)) b)

given_takes :
    (c : ℕ) (p : Pass)
    → can_give c p ≡ true
    → ((given c p).deficit + 1 ≡ p.deficit) × ((given c p).progressed ≡ true)
unfolding can_give given
given_takes c p h = (ground (arith, h), refl)

-- A client either gets a unit or leaves everything as it was.
give-cases :
    (c : ℕ) (p : Pass)
    → ((give c p).deficit + 1 ≡ p.deficit) × ((give c p).progressed ≡ true)
      ⊎ (give c p ≡ p) × (can_give c p ≡ false)
give-cases c p = elim (Bool-cases (can_give c p)) [
  | inl h ↦ inl (rw (give_open c p h) (given_takes c p h))
  | inr h ↦ inr (give_closed c p h, h)
]

one_pass_progress :
    (order : List ℕ) (p : Pass)
    → p.progressed ≡ true
    → ((one_pass order p).progressed ≡ true) × ((one_pass order p).deficit ≤ p.deficit)
unfolding one_pass
one_pass_progress [] p h = (h, omega arith)
one_pass_progress (c ∷ order) p h = elim (give-cases c p) [
  | inl (less, went) ↦
      let (done, low) = one_pass_progress order (give c p) went in (done, omega (arith, low, less))
  | inr (same, shut) ↦ rw (one_pass, same) (one_pass_progress order p h)
]

-- A pass spends a unit, or no client of the order could take one.
one_pass-cases :
    (order : List ℕ) (p : Pass)
    → ((one_pass order p).progressed ≡ true) × ((one_pass order p).deficit < p.deficit)
      ⊎ (one_pass order p ≡ p) × ((k : ℕ) → Elem k order → can_give k p ≡ false)
unfolding one_pass
one_pass-cases [] p = inr (refl, λ k m. absurd m)
one_pass-cases (c ∷ order) p = elim (give-cases c p) [
  | inl (less, went) ↦
      let (done, low) = one_pass_progress order (give c p) went in
      inl (done, omega (arith, low, less))
  | inr (same, shut) ↦
      rw (one_pass, same)
        (elim (one_pass-cases order p) [
          | inl moved ↦ inl moved
          | inr (still, none_open) ↦ inr (
            still,
            λ k m. elim m [
              | inl e ↦ subst (λ x. can_give x p ≡ false) (sym e) shut
              | inr t ↦ none_open k t
            ],
          )
        ])
]

module _ (r_min : ℕ) (cap : ℕ → ℕ) (ids : List ℕ) (distinct : Distinct ids) (whole : ℕ)
    (fits : whole ≤ sum_over (λ k v. cap k) ids []) (order : List ℕ)
    (members : (k : ℕ) → (Elem k order → Elem k ids) × (Elem k ids → Elem k order)) where
  -- A deficit within the room of the caps leaves some client that can take a unit.
  someone_open :
      (p : Pass)
      → IsBalanced r_min cap ids whole p
      → ((k : ℕ) → Elem k order → can_give k p ≡ false)
      → p.deficit ≡ 0
  unfolding can_give
  someone_open p b shut = elim (Bool-cases (p.deficit == 0)) [
    | inl none_left ↦ (==_iff p.deficit 0).0 none_left
    | inr left_over ↦
        let full =
          sum_over_eq (λ k v. v) (λ k v. cap k) ids p.ranks []
            λ k m. ground (arith, left_over, shut k ((members k).1 m), b.room k m) in
        omega (arith, full, b.balance, fits)
  ]

  passes_done : (fuel : ℕ) (p : Pass) → (p.deficit == 0) ≡ true → passes (suc fuel) order p ≡ p
  unfolding passes
  passes_done fuel p h = ground (arith, h)

  passes_next :
      (fuel : ℕ) (p : Pass)
      → (p.deficit == 0) ≡ false
      → (one_pass order (record p { progressed = false })).progressed ≡ true
      → passes (suc fuel) order p
        ≡ passes fuel order (one_pass order (record p { progressed = false }))
  unfolding passes
  passes_next fuel p h went = ground (arith, h, went)

  reset-IsBalanced :
      (p : Pass)
      → IsBalanced r_min cap ids whole p
      → IsBalanced r_min cap ids whole (record p { progressed = false })
  reset-IsBalanced p b = record {
    same_keys = b.same_keys;
    lower = b.lower;
    room = b.room;
    balance = b.balance;
  }

  -- With fuel for each unit of the deficit the passes spend all of it.
  pub passes_spend :
      (fuel : ℕ) (p : Pass)
      → p.deficit ≤ fuel
      → IsBalanced r_min cap ids whole p
      → IsBalanced r_min cap ids whole (passes fuel order p) × ((passes fuel order p).deficit ≡ 0)
  unfolding passes
  passes_spend zero p enough b = (b, omega (arith, enough))
  passes_spend (suc fuel) p enough b = elim (Bool-cases (p.deficit == 0)) [
    | inl done ↦ rw (passes_done fuel p done) (b, (==_iff p.deficit 0).0 done)
    | inr more ↦
        let q : Pass = record p { progressed = false } in
        elim (one_pass-cases order q) [
          | inl (went, less) ↦ rw (passes_next fuel p more went) (
              passes_spend fuel (one_pass order q) (omega (arith, less, enough)) (
                one_pass-IsBalanced r_min cap ids distinct whole order q (λ k m. (members k).0 m)
                  (reset-IsBalanced p b)))
          | inr (still, shut) ↦
              absurd (ground (arith, more, someone_open q (reset-IsBalanced p b) shut))
        ]
  ]
