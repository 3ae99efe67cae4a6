-- ===== src/Hetero/Totals.antt =====
-- A description of what federatedscope/core/aggregators/heterolora_aggregator.py sums up, row by row
-- and client by client, and when torch can.
use fed_lo_ra_public.Prelude.{
  ℕ, zero, suc, ◌≡◌, ◌⊎◌, ◌<◌, ◌≤◌, refl, ap, ◌∙◌, Bool, true, false, ◌||◌, ◌&&◌, List, [], ◌∷◌,
  length, get_elem?, Option, none, some, if◌then◌else◌, ◌==◌, ltb, Dict, lookup, arith, Bool-cases,
  inl, inr,
}
use fed_lo_ra_public.Hetero.Keys.{Key, key_eq}
use fed_lo_ra_public.Hetero.Distribute.{Tensor, Value, tensor, other}
use fed_lo_ra_public.Hetero.Aggregate.{both_tensors, capped_rank, add_rows}
use fed_lo_ra_public.Hetero.Unchecked.{added}
use fed_lo_ra_public.Hetero.Averaging.{own_step, own_sum, pick}

-- The components of a tensor of a model, none if it has no such tensor.
abbrev pub components_of : {Row : Type 0} → Option (Value Row) → List Row
components_of none = []
components_of (some other) = []
components_of (some (tensor t)) = t.components

abbrev pub components_at : {Row : Type 0} → Key → Dict Key (Value Row) → List Row
components_at key model = components_of (lookup key model)

-- The rows `j` of both tensors, if both have one.
abbrev pub both_rows : {Row : Type 0} → Option Row → Option Row → Option (Row × Row)
both_rows none y = none
both_rows (some x) none = none
both_rows (some x) (some y) = some (x, y)

abbrev pub rows_at : {Row : Type 0} → ℕ → Key → Key → Dict Key (Value Row) → Option (Row × Row)
rows_at j a b model =
    both_rows (get_elem? (components_at a model) j) (get_elem? (components_at b model) j)

-- One client's tensors fit those of the first client in their other dimension, or have size 1 there,
-- or have no rank, so that they are skipped.
abbrev pub pair_fits :
    {Row : Type 0} → Tensor Row × Tensor Row → Option (Tensor Row × Tensor Row) → Bool
pair_fits first none = true
pair_fits first (some own) =
    ((length own.0.components == 0) || (length own.1.components == 0))
    || (((own.0.features == first.0.features) || (own.0.features == 1))
        && ((own.1.features == first.1.features) || (own.1.features == 1)))

abbrev pub model_fits :
    {Row : Type 0} → Dict Key (Value Row) → Dict Key (Value Row) → List (Key × Key) → Bool
model_fits reference model [] = true
model_fits reference model ((a, b) ∷ pairs) =
    elim (both_tensors a b reference) [
      | none ↦ true
      | some first ↦ pair_fits first (both_tensors a b model)
    ]
    && model_fits reference model pairs

abbrev pub all_fit :
    {Row Size : Type 0}
    → Dict Key (Value Row)
    → List (Key × Key)
    → List (Size × Dict Key (Value Row))
    → Bool
all_fit reference pairs [] = true
all_fit reference pairs ((size, model) ∷ models) =
    model_fits reference model pairs && all_fit reference pairs models

module _ {Row Float : Type 0} (scale : Row → Float → Row) (add : Row → Row → Row) where
  -- The row `j` of the sum over the weighted models: each that has the row in both tensors adds its
  -- own, times its weight.
  abbrev pub row_total : Bool → ℕ → Key → Key → Row → List (Float × Dict Key (Value Row)) → Row
  row_total side j a b start [] = start
  row_total side j a b start ((weight, model) ∷ models) =
      row_total side j a b
        (elim (rows_at j a b model) [
          | none ↦ start
          | some rows ↦ add start (scale (if side then rows.0 else rows.1) weight)
        ])
        models

  get-beyond : (xs : List Row) (j : ℕ) → length xs ≤ j → get_elem? xs j ≡ none
  get-beyond [] j h = refl
  get-beyond (x ∷ xs) zero h = absurd (omega (arith, h))
  get-beyond (x ∷ xs) (suc j) h = get-beyond xs j (omega (arith, h))

  get-within : (xs : List Row) (j : ℕ) → j < length xs → (x : Row) × (get_elem? xs j ≡ some x)
  get-within [] j h = absurd (omega (arith, h))
  get-within (x ∷ xs) zero h = (x, refl)
  get-within (x ∷ xs) (suc j) h = get-within xs j (omega (arith, h))

  add_rows-outside :
      (n : ℕ) (weight : Float) (local rows : List Row) (j : ℕ)
      → n ≤ j
      → get_elem? (add_rows scale add n weight local rows) j ≡ get_elem? rows j
  unfolding add_rows
  add_rows-outside zero weight local rows j h = refl
  add_rows-outside (suc n) weight local [] j h = refl
  add_rows-outside (suc n) weight [] (row ∷ rows) j h = refl
  add_rows-outside (suc n) weight (x ∷ local) (row ∷ rows) zero h = absurd (omega (arith, h))
  add_rows-outside (suc n) weight (x ∷ local) (row ∷ rows) (suc j) h =
      add_rows-outside n weight local rows j (omega (arith, h))

  add_rows-inside :
      (n : ℕ) (weight : Float) (local rows : List Row) (j : ℕ) (x row : Row)
      → j < n
      → get_elem? local j ≡ some x
      → get_elem? rows j ≡ some row
      → get_elem? (add_rows scale add n weight local rows) j ≡ some (add row (scale x weight))
  unfolding add_rows
  add_rows-inside zero weight local rows j x row h at_x at_row = absurd (omega (arith, h))
  add_rows-inside (suc n) weight local [] j x row h at_x at_row = absurd (cc at_row)
  add_rows-inside (suc n) weight [] (r ∷ rows) j x row h at_x at_row = absurd (cc at_x)
  add_rows-inside (suc n) weight (y ∷ local) (r ∷ rows) zero x row h at_x at_row = cc (at_x, at_row)
  add_rows-inside (suc n) weight (y ∷ local) (r ∷ rows) (suc j) x row h at_x at_row =
      add_rows-inside n weight local rows j x row (omega (arith, h)) at_x at_row

  both_rows-none : (x : Option Row) → both_rows x none ≡ none
  both_rows-none none = refl
  both_rows-none (some x) = refl

  rows_eq :
      (j : ℕ) (a b : Key) (model : Dict Key (Value Row)) (va vb : Option (Value Row))
      → lookup a model ≡ va
      → lookup b model ≡ vb
      → rows_at j a b model
        ≡ both_rows (get_elem? (components_of va) j) (get_elem? (components_of vb) j)
  rows_eq j a b model va vb ea eb =
      ap (λ v. both_rows (get_elem? (components_of v) j) (get_elem? (components_at b model) j)) ea
      ∙ ap (λ v. both_rows (get_elem? (components_of va) j) (get_elem? (components_of v) j)) eb

  -- What the rows of a client are, by its two values.
  rows_of :
      (j : ℕ) (a b : Key) (model : Dict Key (Value Row)) (va vb : Option (Value Row))
      → lookup a model ≡ va
      → lookup b model ≡ vb
      → ((both_tensors a b model ≡ none) × (rows_at j a b model ≡ none))
        ⊎ ((ab : Tensor Row × Tensor Row) × (both_tensors a b model ≡ some ab)
            × (rows_at j a b model
                ≡ both_rows (get_elem? ab.0.components j) (get_elem? ab.1.components j)))
  unfolding both_tensors
  rows_of j a b model none vb ea eb =
      inl (rw (both_tensors, ea) refl, rows_eq j a b model none vb ea eb)
  rows_of j a b model (some other) vb ea eb =
      inl (rw (both_tensors, ea) refl, rows_eq j a b model (some other) vb ea eb)
  rows_of j a b model (some (tensor t)) none ea eb = inl (
    rw (both_tensors, ea, eb) refl,
    rows_eq j a b model (some (tensor t)) none ea eb ∙ both_rows-none (get_elem? t.components j),
  )
  rows_of j a b model (some (tensor t)) (some other) ea eb = inl (
    rw (both_tensors, ea, eb) refl,
    rows_eq j a b model (some (tensor t)) (some other) ea eb
        ∙ both_rows-none (get_elem? t.components j),
  )
  rows_of j a b model (some (tensor t)) (some (tensor u)) ea eb = inr (
    (t, u),
    rw (both_tensors, ea, eb) refl,
    rows_eq j a b model (some (tensor t)) (some (tensor u)) ea eb,
  )

  module _ (max_rank : ℕ) where
    picked :
        (side : Bool) (ab : Tensor Row × Tensor Row) (j : ℕ) (x y : Row)
        → get_elem? ab.0.components j ≡ some x
        → get_elem? ab.1.components j ≡ some y
        → get_elem? (pick side ab).components j ≡ some (if side then x else y)
    picked true ab j x y at_x at_y = at_x
    picked false ab j x y at_x at_y = at_y

    added_row :
        (side : Bool) (j : ℕ) (weight : Float) (ab : Tensor Row × Tensor Row) (t : Tensor Row)
        (row : Row)
        → j < max_rank
        → get_elem? t.components j ≡ some row
        → get_elem?
            (added scale add (capped_rank max_rank ab.0 ab.1) weight (pick side ab) t).components
            j
          ≡ some (elim (both_rows (get_elem? ab.0.components j) (get_elem? ab.1.components j)) [
            | none ↦ row
            | some rows ↦ add row (scale (if side then rows.0 else rows.1) weight)
          ])
    unfolding added capped_rank
    added_row side j weight ab t row below at_row =
        let n = capped_rank max_rank ab.0 ab.1 in
        elim (Bool-cases (ltb j (length ab.0.components))) [
          | inr no_a ↦
              let low : n ≤ j = ground (arith, no_a) in
              rw (get-beyond ab.0.components j (ground (arith, no_a)))
                (add_rows-outside n weight (pick side ab).components t.components j low ∙ at_row)
          | inl in_a ↦ elim (Bool-cases (ltb j (length ab.1.components))) [
            | inr no_b ↦
                let low : n ≤ j = ground (arith, no_b) in
                rw
                  (
                    get-beyond ab.1.components j (ground (arith, no_b)),
                    both_rows-none (get_elem? ab.0.components j),
                  )
                  (add_rows-outside n weight (pick side ab).components t.components j low ∙ at_row)
            | inl in_b ↦
                let (x, at_x) = get-within ab.0.components j (ground (arith, in_a)) in
                let (y, at_y) = get-within ab.1.components j (ground (arith, in_b)) in
                let high : j < n = ground (arith, in_a, in_b, below) in
                rw (at_x, at_y)
                  (add_rows-inside n weight (pick side ab).components t.components j
                    (if side then x else y) row high (picked side ab j x y at_x at_y) at_row)
          ]
        ]

    own_step-row :
        (side : Bool) (j : ℕ) (a b : Key) (weight : Float) (model : Dict Key (Value Row))
        (t : Tensor Row) (row : Row)
        → j < max_rank
        → get_elem? t.components j ≡ some row
        → get_elem? (own_step scale add max_rank side a b (weight, model) t).components j
          ≡ some (elim (rows_at j a b model) [
            | none ↦ row
            | some rows ↦ add row (scale (if side then rows.0 else rows.1) weight)
          ])
    unfolding own_step added capped_rank
    own_step-row side j a b weight model t row below at_row =
        elim (rows_of j a b model (lookup a model) (lookup b model) refl refl) [
          | inl (absent, bare) ↦ rw (own_step, absent, bare) at_row
          | inr (ab, found, rows) ↦
              rw (own_step, found, rows) (added_row side j weight ab t row below at_row)
        ]

    pub own_sum-row :
        (side : Bool) (j : ℕ) (a b : Key) (models : List (Float × Dict Key (Value Row)))
        (t : Tensor Row) (row : Row)
        → j < max_rank
        → get_elem? t.components j ≡ some row
        → get_elem? (own_sum scale add max_rank side a b models t).components j
          ≡ some (row_total side j a b row models)
    unfolding own_sum
    own_sum-row side j a b [] t row below at_row = at_row
    own_sum-row side j a b ((weight, model) ∷ models) t row below at_row =
        own_sum-row side j a b models (own_step scale add max_rank side a b (weight, model) t) _
          below (own_step-row side j a b weight model t row below at_row)
