-- ===== src/HetLora/Frozen.antt =====
-- The rounds of a client under federatedscope/contrib/common/hetlora_restriction.py: the snapshot is
-- taken after the download, and the inactive rows are set after the download and after every step of
-- the optimizer, whatever the optimizer did.
use Prim.Native.String.{String}
use fed_lo_ra_public.Prelude.{
  ℕ, zero, suc, ◌≡◌, ◌≢◌, refl, ap, sym, List, [], ◌∷◌, ◌++◌, map, take, drop, length, get_elem?,
  some, arith, ltb, string_eq, keys, lookup, insert, lookup-insert, lookup-nil, Elem, Distinct, inl,
  inr, if◌then◌else◌, Bool-cases,
}
use mathlib.Core.Path.{subst}
use mathlib.Core.Option.{map as map_option}
use fed_lo_ra_public.HetLora.Restriction.{
  Mode, Params, overlay, snapshot_or, capture_active_snapshot, zero_tail, restricted,
  apply_inactive,
}

module _ {Row : Type 0} where
  get-map :
      (f : Row → Row) (p : List Row) (j : ℕ) → get_elem? (map f p) j ≡ map_option f (get_elem? p j)
  get-map f [] j = refl
  get-map f (x ∷ p) zero = refl
  get-map f (x ∷ p) (suc j) = get-map f p j

  -- A row of what is put together at `k`.
  pub get-overlay :
      (k : ℕ) (p s : List Row) (j : ℕ)
      → length p ≡ length s
      → get_elem? (take k p ++ drop k s) j ≡ (if ltb j k then get_elem? p j else get_elem? s j)
  get-overlay zero p s j e = ground arith
  get-overlay (suc k) [] [] j e = ground arith
  get-overlay (suc k) [] (y ∷ s) j e = absurd (omega (arith, e))
  get-overlay (suc k) (x ∷ p) [] j e = absurd (omega (arith, e))
  get-overlay (suc k) (x ∷ p) (y ∷ s) zero e = ground arith
  get-overlay (suc k) (x ∷ p) (y ∷ s) (suc j) e =
      ground (arith, get-overlay k p s j (omega (arith, e)))

  pub length-overlay :
      (k : ℕ) (p s : List Row) → length p ≡ length s → length (take k p ++ drop k s) ≡ length s
  length-overlay zero p s e = refl
  length-overlay (suc k) [] [] e = refl
  length-overlay (suc k) [] (y ∷ s) e = absurd (omega (arith, e))
  length-overlay (suc k) (x ∷ p) [] e = absurd (omega (arith, e))
  length-overlay (suc k) (x ∷ p) (y ∷ s) e = ap suc (length-overlay k p s (omega (arith, e)))

  -- A row of a tensor whose tail is zeroed.
  pub get-zero_tail :
      (zero_of : Row → Row) (k : ℕ) (p : List Row) (j : ℕ)
      → get_elem? (zero_tail zero_of k p) j
        ≡ (if ltb j k then get_elem? p j else map_option zero_of (get_elem? p j))
  unfolding zero_tail
  get-zero_tail zero_of zero p j = ground (arith, get-map zero_of p j)
  get-zero_tail zero_of (suc k) [] j = ground arith
  get-zero_tail zero_of (suc k) (x ∷ p) zero = ground arith
  get-zero_tail zero_of (suc k) (x ∷ p) (suc j) = ground (arith, get-zero_tail zero_of k p j)

  pub length-zero_tail :
      (zero_of : Row → Row) (k : ℕ) (p : List Row) → length (zero_tail zero_of k p) ≡ length p
  unfolding zero_tail
  length-zero_tail zero_of zero [] = refl
  length-zero_tail zero_of zero (x ∷ p) = ap suc (length-zero_tail zero_of zero p)
  length-zero_tail zero_of (suc k) [] = refl
  length-zero_tail zero_of (suc k) (x ∷ p) = ap suc (length-zero_tail zero_of k p)

  capture-other :
      (rank : ℕ) (name : String) (params snapshot : Params Row)
      → (Elem name (keys params) → ⊥)
      → lookup name (capture_active_snapshot rank params snapshot) ≡ lookup name snapshot
  unfolding capture_active_snapshot
  capture-other rank name [] snapshot absent = refl
  capture-other rank name ((n, p) ∷ params) snapshot absent =
      let full = overlay rank p (snapshot_or p (lookup n snapshot)) in
      let other : n ≢ name = λ e. absent (inl (sym e)) in
      ground (
        arith,
        capture-other rank name params (insert n full snapshot) (λ m. absent (inr m)),
        lookup-insert n name full snapshot,
        other,
        string_eq.beq_iff n name,
      )

  -- What a capture leaves of a parameter of the model.
  pub capture-own :
      (rank : ℕ) (name : String) (params snapshot : Params Row) (p : List Row)
      → Distinct (keys params)
      → lookup name params ≡ some p
      → lookup name (capture_active_snapshot rank params snapshot)
        ≡ some (overlay rank p (snapshot_or p (lookup name snapshot)))
  unfolding capture_active_snapshot lookup
  capture-own rank name [] snapshot p distinct found = absurd (ground (arith, found))
  capture-own rank name ((n, q) ∷ params) snapshot p distinct found =
      let full = overlay rank q (snapshot_or q (lookup n snapshot)) in
      elim (Bool-cases (string_eq.beq n name)) [
        | inl same ↦
            let name_eq = (string_eq.beq_iff n name).0 same in
            let absent : Elem name (keys params) → ⊥ =
              λ m. distinct.0 (subst (λ x. Elem x (keys params)) (sym name_eq) m) in
            let value : q ≡ p = ground (arith, found) in
            let rest = capture-other rank name params (insert n full snapshot) absent in
            ground (arith, rest, lookup-insert n name full snapshot, same, name_eq, value)
        | inr other ↦
            let later : lookup name params ≡ some p = ground (arith, found) in
            let rest = capture-own rank name params (insert n full snapshot) p distinct.1 later in
            ground (arith, rest, lookup-insert n name full snapshot, other)
      ]

  pub lookup-apply_inactive :
      (zero_of : Row → Row) (rank : ℕ) (mode : Mode) (snapshot params : Params Row) (name : String)
      (p : List Row)
      → lookup name params ≡ some p
      → lookup name (apply_inactive zero_of rank mode snapshot params)
        ≡ some (restricted zero_of rank mode (lookup name snapshot) p)
  unfolding apply_inactive lookup
  lookup-apply_inactive zero_of rank mode snapshot [] name p found =
      absurd (ground (arith, found, lookup-nil {K = String} {V = List Row} name))
  lookup-apply_inactive zero_of rank mode snapshot ((n, q) ∷ params) name p found =
      elim (Bool-cases (string_eq.beq n name)) [
        | inl same ↦
            let value : q ≡ p = ground (arith, found) in
            let name_eq = (string_eq.beq_iff n name).0 same in ground (arith, value, name_eq)
        | inr other ↦
            let later =
              lookup-apply_inactive zero_of rank mode snapshot params name p
                (ground (arith, found)) in
            ground (arith, later)
      ]
