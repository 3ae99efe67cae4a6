-- ===== src/AdaSparse/Exact.antt =====
-- federatedscope/contrib/worker/methods/adasparse_lora_client.py: a pruning that goes through removes
-- exactly the components that it is to remove.
use Prim.Native.String.{String}
use mathlib.Core.Path.{subst}
use fed_lo_ra_public.Prelude.{
  ℕ, zero, suc, ◌+◌, ◌<◌, ◌≡◌, ◌↔◌, refl, ap, ◌∙◌, true, false, ◌&&◌, List, [], ◌∷◌, map, length,
  arith, Elem, All, inl, inr, ltb, if◌then◌else◌, Bool-cases, ok, Option, some,
}
use fed_lo_ra_public.Prelude.Floats.{FloatOps}
use fed_lo_ra_public.AdaSparse.Indices.{
  Part, lora_a, lora_b, other, contains, get_item, index_select, insert_pair, sorted_pairs,
  slice_part, slice_parts, slice_update_by_keep_positions,
}
use fed_lo_ra_public.AdaSparse.Client.{
  Client, StateDict, keep_positions, apply_prune, pruned_indices, prune_scored, prune_low,
  or_unpruned, prune_recorded, prune_and_prepare_upload,
}
use fed_lo_ra_public.AdaSparse.Sorting.{length-index_select}
use fed_lo_ra_public.AdaSparse.GlobalRoundTrip.{HasRank}

-- The indices that are not in `pruned`.
pub remaining : List ℕ → List ℕ → List ℕ
remaining pruned [] = []
remaining pruned (y ∷ ys) =
    if contains y pruned then remaining pruned ys else y ∷ remaining pruned ys

remaining-mem :
    (pruned ys : List ℕ) (g : ℕ)
    → Elem g (remaining pruned ys) ↔ Elem g ys × (contains g pruned ≡ false)
unfolding remaining
remaining-mem pruned [] g = (λ m. absurd m, λ h. absurd h.0)
remaining-mem pruned (y ∷ ys) g =
    let ih = remaining-mem pruned ys g in
    elim (Bool-cases (contains y pruned)) [
      | inl gone ↦ rw gone (
        λ m. let (there, stays) = ih.0 m in (inr there, stays),
        λ h. elim h.0 [
          | inl e ↦ absurd (ground (arith, gone, h.1, ap (λ x. contains x pruned) e))
          | inr m ↦ ih.1 (m, h.1)
        ],
      )
      | inr stays ↦ rw stays (
        λ m. elim m [
          | inl e ↦ (inl e, ap (λ x. contains x pruned) e ∙ stays)
          | inr t ↦ let (there, kept) = ih.0 t in (inr there, kept)
        ],
        λ h. elim h.0 [ inl e ↦ inl e | inr m ↦ inr (ih.1 (m, h.1)) ],
      )
    ]

-- The positions that are kept are in range and select what remains.
keep_positions-selects :
    (before pruned : List ℕ) (a : ℕ) (ys : List ℕ)
    → ((i : ℕ) → i < length ys → get_item before (a + i) ≡ get_item ys i)
    → (keep : List ℕ) × (keep_positions before pruned a (length ys) ≡ ok keep)
      × (index_select before keep ≡ ok (remaining pruned ys))
      × ((p : ℕ) → Elem p keep → p < a + length ys)
unfolding keep_positions remaining get_item index_select
keep_positions-selects before pruned a [] same = ([], refl, refl, λ p m. absurd m)
keep_positions-selects before pruned a (y ∷ ys) same =
    let next : (i : ℕ) → i < length ys → get_item before (a + 1 + i) ≡ get_item ys i = λ i low.
      let shift : a + suc i ≡ a + 1 + i = omega arith in
      subst (λ n. get_item before n ≡ get_item ys i) shift (same (suc i) (omega arith)) in
    let (keep, e, read, low) = keep_positions-selects before pruned (a + 1) ys next in
    let first : get_item before a ≡ ok y =
      let start : a + 0 ≡ a = omega arith in
      subst (λ n. get_item before n ≡ ok y) start (same 0 (omega arith)) in
    elim (Bool-cases (contains y pruned)) [
      | inl gone ↦ (
        keep,
        ground (arith, first, e, gone),
        ground (arith, read, gone),
        λ p m. omega (arith, low p m),
      )
      | inr stays ↦ (
        a ∷ keep,
        ground (arith, first, e, stays),
        ground (arith, first, read, stays),
        λ p m. elim m [ inl e ↦ omega (arith, e) | inr t ↦ omega (arith, low p t) ],
      )
    ]

-- The sort keeps the positions and the indices.
insert_pair-mem :
    (f : ℕ × ℕ → ℕ) (g p i : ℕ) (ps : List (ℕ × ℕ))
    → Elem g (map f (insert_pair p i ps)) ↔ Elem g (f (p, i) ∷ map f ps)
unfolding insert_pair
insert_pair-mem f g p i [] = (λ m. m, λ m. m)
insert_pair-mem f g p i ((q, j) ∷ ps) =
    let ih = insert_pair-mem f g p i ps in
    elim (Bool-cases (ltb j i)) [
      | inr first ↦ rw first (λ m. m, λ m. m)
      | inl after ↦ rw after (
        λ m. elim m [
          | inl e ↦ inr (inl e)
          | inr t ↦ elim (ih.0 t) [ inl e ↦ inl e | inr u ↦ inr (inr u) ]
        ],
        λ m. elim m [
          | inl e ↦ inr (ih.1 (inl e))
          | inr t ↦ elim t [ inl e ↦ inl e | inr u ↦ inr (ih.1 (inr u)) ]
        ],
      )
    ]

sorted_pairs-mem :
    (ps is : List ℕ) (g : ℕ)
    → length is ≡ length ps
    → (Elem g (map (λ x. x.1) (sorted_pairs ps is)) ↔ Elem g is)
      × (Elem g (map (λ x. x.0) (sorted_pairs ps is)) → Elem g ps)
unfolding sorted_pairs
sorted_pairs-mem [] [] g e = ((λ m. m, λ m. m), λ m. m)
sorted_pairs-mem [] (i ∷ is) g e = absurd (omega (arith, e))
sorted_pairs-mem (p ∷ ps) [] g e = absurd (omega (arith, e))
sorted_pairs-mem (p ∷ ps) (i ∷ is) g e =
    let ih = sorted_pairs-mem ps is g (omega (arith, e)) in
    let second = insert_pair-mem (λ x. x.1) g p i (sorted_pairs ps is) in
    let first = insert_pair-mem (λ x. x.0) g p i (sorted_pairs ps is) in
    (
      (
        λ m. elim (second.0 m) [ inl e ↦ inl e | inr t ↦ inr (ih.0.0 t) ],
        λ m. second.1 (elim m [ inl e ↦ inl e | inr t ↦ inr (ih.0.1 t) ]),
      ),
      λ m. elim (first.0 m) [ inl e ↦ inl e | inr t ↦ inr (ih.1 t) ],
    )

get_item-total :
    {A : Type 0} (xs : List A) (p : ℕ) → p < length xs → (x : A) × (get_item xs p ≡ ok x)
unfolding get_item
get_item-total [] p low = absurd (omega arith)
get_item-total (x ∷ xs) zero low = (x, refl)
get_item-total (x ∷ xs) (suc p) low = get_item-total xs p (omega arith)

index_select-total :
    {A : Type 0} (xs : List A) (ps : List ℕ)
    → ((p : ℕ) → Elem p ps → p < length xs)
    → (us : List A) × (index_select xs ps ≡ ok us)
unfolding index_select
index_select-total xs [] low = ([], refl)
index_select-total xs (p ∷ ps) low =
    let (x, here) = get_item-total xs p (low p (inl refl)) in
    let (us, rest) = index_select-total xs ps (λ q m. low q (inr m)) in
    (x ∷ us, rw (here, rest) refl)

module _ {Row Other : Type 0} where
  slice_part-total :
      (n : ℕ) (ps : List ℕ) (part : Part Row Other)
      → HasRank n part
      → ((p : ℕ) → Elem p ps → p < n)
      → (out : Part Row Other) × (slice_part ps part ≡ ok out)
  unfolding slice_part
  slice_part-total n ps (lora_a rows) rank low =
      let (us, e) = index_select-total rows ps (λ p m. omega (arith, low p m, rank)) in
      (lora_a us, rw e refl)
  slice_part-total n ps (lora_b cols) rank low =
      let (us, e) = index_select-total cols ps (λ p m. omega (arith, low p m, rank)) in
      (lora_b us, rw e refl)
  slice_part-total n ps (other o) rank low = (other o, refl)

  slice_parts-total :
      (n : ℕ) (ps : List ℕ) (para : List (String × Part Row Other))
      → All (λ x. HasRank n x.1) para
      → ((p : ℕ) → Elem p ps → p < n)
      → (out : List (String × Part Row Other)) × (slice_parts ps para ≡ ok out)
  unfolding slice_parts
  slice_parts-total n ps [] ranks low = ([], refl)
  slice_parts-total n ps ((key, part) ∷ rest) ranks low =
      let (p, here) = slice_part-total n ps part ranks.0 low in
      let (more, there) = slice_parts-total n ps rest ranks.1 low in
      ((key, p) ∷ more, rw (here, there) refl)

  -- A slice at positions in range succeeds, and has the indices that are selected.
  slice-total :
      (para : List (String × Part Row Other)) (old keep us : List ℕ)
      → All (λ x. HasRank (length old) x.1) para
      → ((p : ℕ) → Elem p keep → p < length old)
      → index_select old keep ≡ ok us
      → (out : List (String × Part Row Other) × List ℕ) × (slice_update_by_keep_positions para old
            keep
          ≡ ok out)
        × ((g : ℕ) → Elem g out.1 ↔ Elem g us)
  unfolding slice_update_by_keep_positions
  slice-total para old keep us ranks low read =
      let size = length-index_select old keep us read in
      let positions = map (λ x. x.0) (sorted_pairs keep us) in
      let (result, sliced) =
        slice_parts-total (length old) positions para ranks
          (λ p m. low p ((sorted_pairs-mem keep us p size).1 m)) in
      (
        (result, map (λ x. x.1) (sorted_pairs keep us)),
        rw (read, sliced) refl,
        λ g. (sorted_pairs-mem keep us g size).0,
      )

offset_zero : (xs : List ℕ) (i : ℕ) → get_item xs (0 + i) ≡ get_item xs i
offset_zero xs i = let start : 0 + i ≡ i = omega arith in ap (get_item xs) start

none_pruned : (g : ℕ) → contains g [] ≡ false
unfolding contains
none_pruned g = refl

module _ (ops : FloatOps) (Row Other : Type 0) (argsort : List (FloatOps.Float ops) → List ℕ) where
  open ops use {Float}

  -- What is left of the indices.
  abbrev pub Keeps : List ℕ → List ℕ → List ℕ → Type 0
  Keeps old pruned new = (g : ℕ) → Elem g new ↔ Elem g old × (contains g pruned ≡ false)

  apply-Keeps :
      (s : Client ops Row Other argsort) (para : StateDict ops Row Other argsort) (pruned : List ℕ)
      → All (λ x. HasRank (length s.indices_current) x.1) para
      → (out : Client ops Row Other argsort × StateDict ops Row Other argsort) × (apply_prune ops
            Row Other argsort s s.indices_current para pruned
          ≡ ok out)
        × Keeps s.indices_current pruned out.0.indices_current
  unfolding apply_prune
  apply-Keeps s para [] ranks = ((s, para), refl, λ g. (λ m. (m, none_pruned g), λ h. h.0))
  apply-Keeps s para (p ∷ pruned) ranks =
      let (keep, e, read, low) =
        keep_positions-selects s.indices_current (p ∷ pruned) 0 s.indices_current
          (λ i below. offset_zero s.indices_current i) in
      let (sliced, made, same) =
        slice-total para s.indices_current keep (remaining (p ∷ pruned) s.indices_current) ranks
          (λ q m. omega (arith, low q m)) read in
      let left = remaining-mem (p ∷ pruned) s.indices_current in
      (
        (record s { indices_current = sliced.1 }, sliced.0),
        rw (e, made) refl,
        λ g. (λ m. (left g).0 ((same g).0 m), λ h. (same g).1 ((left g).1 h)),
      )

  recorded-Keeps :
      (s : Client ops Row Other argsort) (para : StateDict ops Row Other argsort)
      (noted noted_indices : Option (List ℕ)) (p : ℕ) (low : List ℕ) (a : Float)
      (after : List Float)
      → noted ≡ some (p ∷ low)
      → noted_indices ≡ some s.indices_current
      → All (λ x. HasRank (length s.indices_current) x.1) para
      → Keeps s.indices_current
          (pruned_indices ops Row Other argsort s (p ∷ low) s.indices_current (a ∷ after))
          (prune_recorded ops Row Other argsort s noted noted_indices para
            (ok (a ∷ after))).0.indices_current
  unfolding prune_recorded prune_low prune_scored or_unpruned
  recorded-Keeps s para noted noted_indices p low a after recorded before ranks =
      let pruned = pruned_indices ops Row Other argsort s (p ∷ low) s.indices_current (a ∷ after) in
      let (out, made, keeps) = apply-Keeps s para pruned ranks in
      rw (recorded, before) (rw made keeps)

  -- A pruning that goes through: the client is switched on, its state is recorded for its current
  -- indices with some candidate, the scores after the training are there, and every LoRA tensor of
  -- the parameters has as many components as there are indices. Then the indices that are left are
  -- those that are not pruned: of the candidates whose score decreased, in their order, as many as
  -- leave rank_min components.
  pub prune_exact_lem :
      (s : Client ops Row Other argsort) (para : StateDict ops Row Other argsort) (p : ℕ)
      (low : List ℕ) (a : Float) (after : List Float)
      → (s.enabled && s.pruning_enabled) ≡ true
      → s.low_positions_before ≡ some (p ∷ low)
      → s.indices_before ≡ some s.indices_current
      → All (λ x. HasRank (length s.indices_current) x.1) para
      → Keeps s.indices_current
          (pruned_indices ops Row Other argsort s (p ∷ low) s.indices_current (a ∷ after))
          (prune_and_prepare_upload ops Row Other argsort s para (ok (a ∷ after))).0.indices_current
  unfolding prune_and_prepare_upload
  prune_exact_lem s para p low a after on recorded before ranks = rw on (
      recorded-Keeps s para s.low_positions_before s.indices_before p low a after recorded before
        ranks)
