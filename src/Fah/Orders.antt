-- ===== src/Fah/Orders.antt =====
-- Facts on the lists and dictionaries of federatedscope/contrib/worker/methods/fah_rank_scheduler.py:
-- the sorted order of the clients has the same clients, and the dict comprehensions have their keys.
use fed_lo_ra_public.Prelude.{
  ℕ, zero, suc, ◌+◌, ◌<◌, ◌≡◌, ◌↔◌, refl, ap, sym, List, [], ◌∷◌, arith, Dict, nat_eq, keys, values,
  Bool-cases, inl, inr, Elem, rank_of, length, map, sum, sum_over,
}
use fed_lo_ra_public.Prelude.Floats.{FloatOps}
use fed_lo_ra_public.Fah.Stage2.{id_at, dict_of, map_items, insert_by, sort_by}

pub id_at-mem : (xs : List ℕ) (i : ℕ) → i < length xs → Elem (id_at xs i) xs
unfolding id_at
id_at-mem [] i h = absurd (omega arith)
id_at-mem (x ∷ xs) zero h = inl refl
id_at-mem (x ∷ xs) (suc i) h = inr (id_at-mem xs i (omega arith))

pub id_at-found : (xs : List ℕ) (k : ℕ) → Elem k xs → (i : ℕ) × (i < length xs) × (id_at xs i ≡ k)
unfolding id_at
id_at-found [] k m = absurd m
id_at-found (x ∷ xs) k (inl e) = (0, omega arith, sym e)
id_at-found (x ∷ xs) k (inr m) = let (i, h, e) = id_at-found xs k m in (suc i, omega arith, e)

module _ (ops : FloatOps) (key : ℕ → FloatOps.Float ops) where
  length-insert_by : (c : ℕ) (xs : List ℕ) → length (insert_by ops key c xs) ≡ suc (length xs)
  unfolding insert_by
  length-insert_by c [] = refl
  length-insert_by c (x ∷ xs) = ground (arith, length-insert_by c xs)

  pub length-sort_by : (xs : List ℕ) → length (sort_by ops key xs) ≡ length xs
  unfolding sort_by
  length-sort_by [] = refl
  length-sort_by (x ∷ xs) =
      omega (arith, length-insert_by x (sort_by ops key xs), length-sort_by xs)

  mem-insert_by : (k c : ℕ) (xs : List ℕ) → Elem k (insert_by ops key c xs) ↔ Elem k (c ∷ xs)
  unfolding insert_by
  mem-insert_by k c [] = (λ m. m, λ m. m)
  mem-insert_by k c (x ∷ xs) =
      let ih = mem-insert_by k c xs in
      elim (Bool-cases (ops.lt (key x) (key c))) [
        | inl after ↦ rw after (
          λ m. elim m [
            | inl e ↦ inr (inl e)
            | inr t ↦ elim (ih.0 t) [ inl e ↦ inl e | inr u ↦ inr (inr u) ]
          ],
          λ m. elim m [
            | inl e ↦ inr (ih.1 (inl e))
            | inr t ↦ elim t [ inl e ↦ inl e | inr u ↦ inr (ih.1 (inr u)) ]
          ],
        )
        | inr first ↦ rw first (λ m. m, λ m. m)
      ]

  pub mem-sort_by : (k : ℕ) (xs : List ℕ) → Elem k (sort_by ops key xs) ↔ Elem k xs
  unfolding sort_by
  mem-sort_by k [] = (λ m. m, λ m. m)
  mem-sort_by k (x ∷ xs) =
      let ih = mem-sort_by k xs in
      let at = mem-insert_by k x (sort_by ops key xs) in
      (
        λ m. elim (at.0 m) [ inl e ↦ inl e | inr t ↦ inr (ih.0 t) ],
        λ m. at.1 (elim m [ inl e ↦ inl e | inr t ↦ inr (ih.1 t) ]),
      )

pub keys-dict_of : (f : ℕ → ℕ) (ids : List ℕ) → keys (dict_of f ids) ≡ ids
unfolding dict_of
keys-dict_of f [] = refl
keys-dict_of f (c ∷ cs) = ap (◌∷◌ c) (keys-dict_of f cs)

pub rank_of-dict_of :
    (f : ℕ → ℕ) (ids : List ℕ) (k : ℕ) → Elem k ids → rank_of (dict_of f ids) k ≡ f k
unfolding dict_of rank_of
rank_of-dict_of f [] k m = absurd m
rank_of-dict_of f (c ∷ cs) k (inl e) = ground (arith, e)
rank_of-dict_of f (c ∷ cs) k (inr m) = ground (arith, rank_of-dict_of f cs k m)

pub keys-map_items : (f : ℕ → ℕ → ℕ) (d : Dict ℕ ℕ) → keys (map_items f d) ≡ keys d
unfolding map_items
keys-map_items f [] = refl
keys-map_items f ((c, r) ∷ d) = ap (◌∷◌ c) (keys-map_items f d)

pub rank_of-map_items :
    (f : ℕ → ℕ → ℕ) (d : Dict ℕ ℕ) (k : ℕ)
    → Elem k (keys d)
    → rank_of (map_items f d) k ≡ f k (rank_of d k)
unfolding map_items rank_of
rank_of-map_items f [] k m = absurd m
rank_of-map_items f ((c, r) ∷ d) k (inl e) = ground (arith, e)
rank_of-map_items f ((c, r) ∷ d) k (inr m) = ground (arith, rank_of-map_items f d k m)

-- sum(f(c) for c in ids), as a sum over the ids.
pub sum-map :
    (f : ℕ → ℕ) (ids : List ℕ) (d : Dict ℕ ℕ) → sum (map f ids) ≡ sum_over (λ k v. f k) ids d
unfolding sum_over
sum-map f [] d = refl
sum-map f (c ∷ cs) d = ap (λ n. f c + n) (sum-map f cs d)

-- Sums of what is the same at every id.
pub sum_over_eq :
    (f g : ℕ → ℕ → ℕ) (ids : List ℕ) (d e : Dict ℕ ℕ)
    → ((k : ℕ) → Elem k ids → f k (rank_of d k) ≡ g k (rank_of e k))
    → sum_over f ids d ≡ sum_over g ids e
unfolding sum_over
sum_over_eq f g [] d e h = refl
sum_over_eq f g (c ∷ cs) d e h =
    omega (arith, h c (inl refl), sum_over_eq f g cs d e (λ k m. h k (inr m)))

pub sum-dict_of : (f : ℕ → ℕ) (ids : List ℕ) → sum (values (dict_of f ids)) ≡ sum (map f ids)
unfolding dict_of
sum-dict_of f [] = refl
sum-dict_of f (c ∷ cs) = ap (λ n. f c + n) (sum-dict_of f cs)
