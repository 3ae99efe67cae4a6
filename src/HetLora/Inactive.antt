-- ===== src/HetLora/Inactive.antt =====
-- What federatedscope/contrib/common/hetlora_restriction.py keeps of the rows that a client does not
-- federate, over its rounds.
use Prim.Native.String.{String}
use fed_lo_ra_public.Prelude.{
  ℕ, zero, suc, ◌≡◌, refl, sym, ◌∙◌, List, [], ◌∷◌, ◌++◌, take, drop, length, get_elem?, Option,
  none, some, arith, ltb, string_eq, lookup, lookup-nil, All, if◌then◌else◌, inl, inr, ◌⊎◌,
  Option-cases,
}
use fed_lo_ra_public.HetLora.Restriction.{
  Mode, cut, freeze, unrestricted, Params, overlay, snapshot_or, capture_active_snapshot,
  restricted, apply_inactive,
}
use fed_lo_ra_public.HetLora.Frozen.{
  get-overlay, length-overlay, get-zero_tail, length-zero_tail, capture-own, lookup-apply_inactive,
}
use fed_lo_ra_public.HetLora.Rounds.{
  Round, HasTensor, row_of, snapshot_after, trained, trained_in, run_rounds, expected_row,
  last_global, IsRound,
}

module _ {Row : Type 0} where
  get-none :
      (p s : List Row) (j : ℕ) → length p ≡ length s → get_elem? s j ≡ none → get_elem? p j ≡ none
  get-none [] s j e h = refl
  get-none (x ∷ p) [] j e h = absurd (omega (arith, e))
  get-none (x ∷ p) (y ∷ s) zero e h = ground (arith, h)
  get-none (x ∷ p) (y ∷ s) (suc j) e h = get-none p s j (omega (arith, e)) h

  row_of-found :
      (name : String) (j : ℕ) (params : Params Row) (p : List Row)
      → lookup name params ≡ some p
      → row_of name j params ≡ get_elem? p j
  unfolding row_of
  row_of-found name j params p found = rw (row_of, found)

  -- The snapshot of a parameter and the row that is to be held.
  abbrev Holds : String → ℕ → ℕ → Option Row → Params Row → Type 0
  Holds name n j old snapshot =
      (s : List Row) × (lookup name snapshot ≡ some s) × (length s ≡ n) × (get_elem? s j ≡ old)

  -- Before the first round nothing is captured.
  abbrev IsHeld : String → ℕ → ℕ → Option Row → Params Row → Type 0
  IsHeld name n j old snapshot =
      ((lookup name snapshot ≡ none) × (old ≡ none)) ⊎ Holds name n j old snapshot

  -- The row that is to be held after a round.
  unfoldable held_after : String → ℕ → Option Row → Round Row → Option Row
  held_after name j none r = row_of name j r.download
  held_after name j (some row) r = if ltb j r.rank then row_of name j r.download else some row

  capture-Holds :
      (name : String) (n j : ℕ) (old : Option Row) (snapshot : Params Row) (r : Round Row)
      → IsRound name n r
      → IsHeld name n j old snapshot
      → Holds name n j
          (held_after name j old r)
          (capture_active_snapshot r.rank r.download snapshot)
  unfolding held_after overlay snapshot_or
  capture-Holds name n j old snapshot r (distinct, (p, found, size), _) (inl (absent, e)) =
      let own = capture-own r.rank name r.download snapshot p distinct found in
      let first = row_of-found name j r.download p found in
      let whole = get-overlay r.rank p p j refl in
      (
        overlay r.rank p p,
        ground (arith, own, absent),
        length-overlay r.rank p p refl ∙ size,
        ground (arith, whole, first, e),
      )
  capture-Holds name n j old snapshot r (distinct, (p, found, size), _) (inr (s, at, same, e)) =
      let own = capture-own r.rank name r.download snapshot p distinct found in
      let sent = row_of-found name j r.download p found in
      let sizes : length p ≡ length s = size ∙ sym same in
      let whole = get-overlay r.rank p s j sizes in
      let row : get_elem? (take r.rank p ++ drop r.rank s) j ≡ held_after name j old r =
        elim (Option-cases old) [
          | inr (x, e') ↦ ground (arith, whole, sent, e, e')
          | inl e' ↦ ground (arith, whole, sent, e, e', get-none p s j sizes (e ∙ e'))
        ] in
      (overlay r.rank p s, ground (arith, own, at), length-overlay r.rank p s sizes ∙ same, row)

  snapshot-IsHeld :
      (name : String) (n j : ℕ) (old : Option Row) (snapshot : Params Row)
      (rounds : List (Round Row))
      → All (IsRound name n) rounds
      → IsHeld name n j old snapshot
      → IsHeld name n j (last_global name j old rounds) (snapshot_after snapshot rounds)
  unfolding last_global snapshot_after held_after
  snapshot-IsHeld name n j old snapshot [] h held = held
  snapshot-IsHeld name n j none snapshot (r ∷ rounds) h held =
      snapshot-IsHeld name n j (held_after name j none r)
        (capture_active_snapshot r.rank r.download snapshot) rounds h.1
        (inr (capture-Holds name n j none snapshot r h.0 held))
  snapshot-IsHeld name n j (some row) snapshot (r ∷ rounds) h held =
      snapshot-IsHeld name n j (held_after name j (some row) r)
        (capture_active_snapshot r.rank r.download snapshot) rounds h.1
        (inr (capture-Holds name n j (some row) snapshot r h.0 held))

  last_global-append :
      (name : String) (j : ℕ) (old : Option Row) (rounds : List (Round Row)) (r : Round Row)
      → last_global name j old (rounds ++ (r ∷ []))
        ≡ held_after name j (last_global name j old rounds) r
  unfolding last_global held_after
  last_global-append name j none [] r = refl
  last_global-append name j (some row) [] r = refl
  last_global-append name j none (q ∷ rounds) r =
      last_global-append name j (row_of name j q.download) rounds r
  last_global-append name j (some row) (q ∷ rounds) r =
      last_global-append name j (if ltb j q.rank then row_of name j q.download else some row) rounds
        r

  module _ (zero_of : Row → Row) where
    length-restricted :
        (mode : Mode) (rank : ℕ) (s p : List Row)
        → length s ≡ length p
        → length (restricted zero_of rank mode (some s) p) ≡ length p
    unfolding restricted
    length-restricted cut rank s p e = length-zero_tail zero_of rank p
    length-restricted freeze rank s p e = length-overlay rank p s (sym e) ∙ e
    length-restricted unrestricted rank s p e = refl

    get-restricted :
        (mode : Mode) (rank j : ℕ) (s p : List Row)
        → length s ≡ length p
        → get_elem? (restricted zero_of rank mode (some s) p) j
          ≡ expected_row zero_of mode rank j (get_elem? s j) (get_elem? p j)
    unfolding restricted expected_row
    get-restricted cut rank j s p e = get-zero_tail zero_of rank p j
    get-restricted freeze rank j s p e = get-overlay rank p s j (sym e)
    get-restricted unrestricted rank j s p e = ground arith

    module _ (mode : Mode) where
      apply_inactive-HasTensor :
          (rank n : ℕ) (snapshot params : Params Row) (name : String)
          → HasTensor name n snapshot
          → HasTensor name n params
          → HasTensor name n (apply_inactive zero_of rank mode snapshot params)
      apply_inactive-HasTensor rank n snapshot params name (s, at, sizes) (p, found, size) =
          let set = lookup-apply_inactive zero_of rank mode snapshot params name p found in
          (
            restricted zero_of rank mode (some s) p,
            rw (← at) set,
            length-restricted mode rank s p (sizes ∙ sym size) ∙ size,
          )

      trained-HasTensor :
          (rank n : ℕ) (snapshot params : Params Row) (steps : List (Params Row → Params Row))
          (name : String)
          → HasTensor name n snapshot
          → HasTensor name n params
          → All
              (λ (step : Params Row → Params Row).
                (p : Params Row) → HasTensor name n p → HasTensor name n (step p))
              steps
          → HasTensor name n (trained zero_of mode rank snapshot params steps)
      unfolding trained
      trained-HasTensor rank n snapshot params [] name held there h = there
      trained-HasTensor rank n snapshot params (step ∷ steps) name held there h =
          let clamped = apply_inactive zero_of rank mode snapshot params in
          trained-HasTensor rank n snapshot (step clamped) steps name held
            (h.0 clamped (apply_inactive-HasTensor rank n snapshot params name held there)) h.1

      -- After any rounds of a model, whatever the optimizer does in its steps, as long as the tensor
      -- `name` keeps its `n` components: a row of it that is federated has what training left; one that
      -- is not is zero under 'cut', under 'freeze' it is what the server sent in the last round that
      -- federated it, or in the first round, and else what training left.
      pub run_rounds_lem :
          (name : String) (n j : ℕ) (rounds : List (Round Row)) (r : Round Row)
          → All (IsRound name n) rounds
          → IsRound name n r
          → row_of name j (run_rounds zero_of mode rounds r)
            ≡ expected_row zero_of mode r.rank j
                (last_global name j none (rounds ++ (r ∷ [])))
                (row_of name j (trained_in zero_of mode rounds r))
      unfolding run_rounds trained_in
      run_rounds_lem name n j rounds r h (distinct, sent, steps) =
          let before = snapshot_after [] rounds in
          let snapshot = capture_active_snapshot r.rank r.download before in
          let old = last_global name j none rounds in
          let start : IsHeld name n j none [] = inl (lookup-nil name, refl) in
          let held = snapshot-IsHeld name n j none [] rounds h start in
          let (s, at, sizes, row) =
            capture-Holds name n j old before r (distinct, sent, steps) held in
          let (p, found, size) =
            trained-HasTensor r.rank n snapshot r.download r.steps name (s, at, sizes) sent steps in
          let params = trained zero_of mode r.rank snapshot r.download r.steps in
          let set = lookup-apply_inactive zero_of r.rank mode snapshot params name p found in
          let clamped =
            row_of-found name j (apply_inactive zero_of r.rank mode snapshot params)
              (restricted zero_of r.rank mode (some s) p) (rw (← at) set) in
          let left = row_of-found name j params p found in
          let got = get-restricted mode r.rank j s p (sizes ∙ sym size) in
          rw (clamped, left, got, last_global-append name j none rounds r, row) refl
