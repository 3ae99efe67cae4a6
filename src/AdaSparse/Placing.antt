-- ===== src/AdaSparse/Placing.antt =====
-- federatedscope/contrib/common/adasparse_lora_utils.py: what a client's components are at the global
-- positions, and that the server reads them back at the client's indices.
use mathlib.Core.Path.{subst}
use fed_lo_ra_public.Prelude.{
  ℕ, zero, suc, ◌<◌, ◌≡◌, ◌≢◌, refl, ap, sym, ◌∙◌, List, [], ◌∷◌, length, arith, Elem, Distinct,
  inl, inr, All, ok,
}
use fed_lo_ra_public.AdaSparse.Indices.{get_item, index_select}
use fed_lo_ra_public.AdaSparse.Expand.{set_item, zeros, place}

module _ {A : Type 0} where
  item-zero : (ys : List A) (y x : A) (j : ℕ) → 0 ≢ j → get_item (x ∷ ys) j ≡ get_item (y ∷ ys) j
  unfolding get_item
  item-zero ys y x zero other = absurd (other refl)
  item-zero ys y x (suc j) other = refl

  item-suc :
      (i : ℕ) (y : A) (ys zs : List A) (j : ℕ)
      → ((k : ℕ) → i ≢ k → get_item zs k ≡ get_item ys k)
      → suc i ≢ j
      → get_item (y ∷ zs) j ≡ get_item (y ∷ ys) j
  unfolding get_item
  item-suc i y ys zs zero rest other = refl
  item-suc i y ys zs (suc j) rest other = rest j (λ e. other (ap suc e))

  set_item-works :
      (xs : List A) (i : ℕ) (x : A)
      → i < length xs
      → (ys : List A) × (set_item xs i x ≡ ok ys)
        × (length ys ≡ length xs)
        × (get_item ys i ≡ ok x)
        × ((j : ℕ) → i ≢ j → get_item ys j ≡ get_item xs j)
  unfolding set_item get_item
  set_item-works [] i x low = absurd (omega arith)
  set_item-works (y ∷ ys) zero x low =
      (x ∷ ys, refl, refl, refl, λ j other. item-zero ys y x j other)
  set_item-works (y ∷ ys) (suc i) x low =
      let (zs, made, size, here, rest) = set_item-works ys i x (omega arith) in
      (y ∷ zs, rw made refl, ap suc size, here, λ j other. item-suc i y ys zs j rest other)

  length-zeros : (z : A) (n : ℕ) → length (zeros z n) ≡ n
  unfolding zeros
  length-zeros z zero = refl
  length-zeros z (suc n) = ap suc (length-zeros z n)

  get_item-zeros : (z : A) (n i : ℕ) → i < n → get_item (zeros z n) i ≡ ok z
  unfolding zeros get_item
  get_item-zeros z zero i low = absurd (omega arith)
  get_item-zeros z (suc n) zero low = refl
  get_item-zeros z (suc n) (suc i) low = get_item-zeros z n i (omega arith)

  -- What is in the tensor after the loop.
  placed :
      (expanded : List A) (gs : List ℕ) (rows : List A)
      → Distinct gs
      → All (λ g. g < length expanded) gs
      → length rows ≡ length gs
      → (out : List A) × (place expanded gs rows ≡ ok out)
        × (length out ≡ length expanded)
        × (index_select out gs ≡ ok rows)
        × ((k : ℕ) → (Elem k gs → ⊥) → get_item out k ≡ get_item expanded k)
  unfolding place index_select
  placed expanded [] [] distinct low size = (expanded, refl, refl, refl, λ k absent. refl)
  placed expanded [] (x ∷ rows) distinct low size = absurd (omega (arith, size))
  placed expanded (g ∷ gs) [] distinct low size = absurd (omega (arith, size))
  placed expanded (g ∷ gs) (x ∷ rows) distinct low size =
      let (next, set, len, here, rest) = set_item-works expanded g x low.0 in
      let low' = subst (λ n. All (λ g. g < n) gs) (sym len) low.1 in
      let (out, made, len', read, away) =
        placed next gs rows distinct.1 low' (omega (arith, size)) in
      let first : get_item out g ≡ ok x = away g distinct.0 ∙ here in
      (
        out,
        rw set made,
        len' ∙ len,
        rw (first, read) refl,
        λ k absent. away k (λ m. absent (inr m)) ∙ rest k (λ e. absent (inl (sym e))),
      )

  -- Distinct indices below max_rank, with a component for each: the loop ends without an error, the
  -- tensor has max_rank components, those at the indices are the client's, in the client's order,
  -- and any other is zero.
  pub place_lem :
      (z : A) (max_rank : ℕ) (client_indices : List ℕ) (rows : List A)
      → Distinct client_indices
      → All (λ g. g < max_rank) client_indices
      → length rows ≡ length client_indices
      → (out : List A) × (place (zeros z max_rank) client_indices rows ≡ ok out)
        × (length out ≡ max_rank)
        × (index_select out client_indices ≡ ok rows)
        × ((k : ℕ) → k < max_rank → (Elem k client_indices → ⊥) → get_item out k ≡ ok z)
  place_lem z max_rank gs rows distinct low size =
      let low' = subst (λ n. All (λ g. g < n) gs) (sym (length-zeros z max_rank)) low in
      let (out, made, len, read, away) = placed (zeros z max_rank) gs rows distinct low' size in
      (
        out,
        made,
        len ∙ length-zeros z max_rank,
        read,
        λ k below absent. away k absent ∙ get_item-zeros z max_rank k below,
      )
