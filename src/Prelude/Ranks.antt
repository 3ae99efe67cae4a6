-- ===== src/Prelude/Ranks.antt =====
-- Dictionaries from ids to numbers, read at a list of ids: sums over the ids, and what one
-- assignment changes.
use Prim.Native.Nat.{ℕ, zero, suc, ◌+◌, ◌≤◌, ◌<◌, ◌%◌}
use mathlib.Core.Path.{◌≡◌, refl, subst, ◌∙◌}
use mathlib.Core.Bool.{true}
use mathlib.Core.Logic.{inl, inr, ◌≢◌}
use mathlib.Core.List.{List, [], ◌∷◌}
use native.Mathlib.Omega.{arith}
use native.Mathlib.Nat.{mod-eq_of_lt, add-mod_right}
use native.Mathlib.Decide.{ℕ_discrete}
use fed_lo_ra_public.Prelude.Tests.{◌==◌, if◌then◌else◌}
use fed_lo_ra_public.Prelude.Lists.{Elem, sum}
use fed_lo_ra_public.Prelude.Maps.{
  Dict, nat_eq, keys, values, lookup, lookup_or, has_key, insert, lookup-insert,
}

-- No id stands twice.
abbrev pub Distinct : {A : Type 0} → List A → Type 0
Distinct [] = Unit
Distinct (x ∷ xs) = (Elem x xs → ⊥) × Distinct xs

-- d[k] for a key that is there.
unfoldable pub rank_of : Dict ℕ ℕ → ℕ → ℕ
unfolding lookup
rank_of d k = lookup_or 0 k d

pub rank_of-insert :
    (d : Dict ℕ ℕ) (k v j : ℕ) → rank_of (insert k v d) j ≡ (if k == j then v else rank_of d j)
unfolding rank_of
rank_of-insert d k v j = ground (arith, lookup-insert k j v d)

-- The sum of `f` over the ids, each with its number.
unfoldable pub sum_over : (ℕ → ℕ → ℕ) → List ℕ → Dict ℕ ℕ → ℕ
sum_over f [] d = 0
sum_over f (k ∷ ids) d = f k (rank_of d k) + sum_over f ids d

pub sum_over-insert_new :
    (f : ℕ → ℕ → ℕ) (ids : List ℕ) (d : Dict ℕ ℕ) (k v : ℕ)
    → (Elem k ids → ⊥)
    → sum_over f ids (insert k v d) ≡ sum_over f ids d
unfolding sum_over
sum_over-insert_new f [] d k v absent = refl
sum_over-insert_new f (j ∷ ids) d k v absent =
    let other : k ≢ j = λ e. absent (inl e) in
    ground
      (arith, rank_of-insert d k v j, sum_over-insert_new f ids d k v (λ m. absent (inr m)), other)

-- An assignment changes the sum by what it changes at its key.
pub sum_over-insert :
    (f : ℕ → ℕ → ℕ) (ids : List ℕ) (d : Dict ℕ ℕ) (k v : ℕ)
    → Distinct ids
    → Elem k ids
    → sum_over f ids (insert k v d) + f k (rank_of d k) ≡ sum_over f ids d + f k v
unfolding sum_over
sum_over-insert f [] d k v distinct m = absurd m
sum_over-insert f (j ∷ ids) d k v distinct (inl e) =
    let new = sum_over-insert_new f ids d k v (λ m. distinct.0 (subst (λ x. Elem x ids) e m)) in
    ground (arith, rank_of-insert d k v j, new, e)
sum_over-insert f (j ∷ ids) d k v distinct (inr m) =
    let other : k ≢ j = λ e. distinct.0 (subst (λ x. Elem x ids) e m) in
    ground (arith, rank_of-insert d k v j, sum_over-insert f ids d k v distinct.1 m, other)

-- A sum that is positive has a positive part.
pub sum_over-zero :
    (f : ℕ → ℕ → ℕ) (ids : List ℕ) (d : Dict ℕ ℕ)
    → ((k : ℕ) → Elem k ids → f k (rank_of d k) ≡ 0)
    → sum_over f ids d ≡ 0
unfolding sum_over
sum_over-zero f [] d h = refl
sum_over-zero f (k ∷ ids) d h =
    omega (arith, h k (inl refl), sum_over-zero f ids d (λ j m. h j (inr m)))

pub sum_over-add :
    (f g h : ℕ → ℕ → ℕ) (ids : List ℕ) (d : Dict ℕ ℕ)
    → ((k : ℕ) → Elem k ids → f k (rank_of d k) + g k (rank_of d k) ≡ h k (rank_of d k))
    → sum_over f ids d + sum_over g ids d ≡ sum_over h ids d
unfolding sum_over
sum_over-add f g h [] d e = omega arith
sum_over-add f g h (k ∷ ids) d e =
    omega (arith, e k (inl refl), sum_over-add f g h ids d (λ j m. e j (inr m)))

-- A sum that does not read the dictionary.
pub sum_over-const :
    (f : ℕ → ℕ) (ids : List ℕ) (d e : Dict ℕ ℕ)
    → sum_over (λ k v. f k) ids d ≡ sum_over (λ k v. f k) ids e
unfolding sum_over
sum_over-const f [] d e = refl
sum_over-const f (k ∷ ids) d e = omega (arith, sum_over-const f ids d e)

-- A new entry at the front changes no sum over other ids.
sum_over-cons :
    (f : ℕ → ℕ → ℕ) (ids : List ℕ) (d : Dict ℕ ℕ) (k v : ℕ)
    → (Elem k ids → ⊥)
    → sum_over f ids ((k, v) ∷ d) ≡ sum_over f ids d
unfolding sum_over rank_of
sum_over-cons f [] d k v absent = refl
sum_over-cons f (j ∷ ids) d k v absent =
    let other : k ≢ j = λ e. absent (inl e) in
    ground (arith, other, sum_over-cons f ids d k v (λ m. absent (inr m)))

-- sum(d.values())
pub sum-values :
    (d : Dict ℕ ℕ) → Distinct (keys d) → sum (values d) ≡ sum_over (λ k v. v) (keys d) d
unfolding sum_over rank_of
sum-values [] h = refl
sum-values ((k, v) ∷ d) h =
    ground (arith, sum-values d h.1, sum_over-cons (λ k v. v) (keys d) d k v h.0)

pub has_key_of_Elem : (k : ℕ) (d : Dict ℕ ℕ) → Elem k (keys d) → has_key k d ≡ true
unfolding lookup
has_key_of_Elem k [] m = absurd m
has_key_of_Elem k ((j, v) ∷ d) (inl e) = ground (arith, e)
has_key_of_Elem k ((j, v) ∷ d) (inr m) = ground (arith, has_key_of_Elem k d m)

-- Every place below `n` is met in a window of `n` successive counters.
pub window : (n m p : ℕ) → p < n → (q : ℕ) × (m ≤ q) × (q < m + n) × (q % n ≡ p)
window n zero p h = (p, omega arith, omega arith, mod-eq_of_lt h)
window n (suc m) p h =
    let (q, low, high, e) = window n m p h in
    elim (ℕ_discrete q m) [
      | yes at ↦ (m + n, omega arith, omega arith, add-mod_right m n ∙ rw (← at) e)
      | no away ↦ (q, omega arith, omega arith, e)
    ]
