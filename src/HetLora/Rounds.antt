-- ===== src/HetLora/Rounds.antt =====
-- The rounds of a client under federatedscope/contrib/common/hetlora_restriction.py: the snapshot is
-- taken after the download, and the inactive rows are set after the download and after every step of
-- the optimizer, whatever the optimizer did.
use Prim.Native.String.{String}
use fed_lo_ra_public.Prelude.{
  ℕ, ◌≡◌, List, [], ◌∷◌, length, get_elem?, Option, none, some, ltb, string_eq, keys, lookup,
  Distinct, All, if◌then◌else◌,
}
use mathlib.Core.Option.{map as map_option}
use fed_lo_ra_public.HetLora.Restriction.{
  Mode, cut, freeze, unrestricted, Params, capture_active_snapshot, apply_inactive,
}

-- A round: the rank that is federated in it, what is downloaded, and the steps of the optimizer.
pub record Round (Row : Type 0) : Type 0 where
  pub rank : ℕ
  pub download : Params Row
  pub steps : List (Params Row → Params Row)

-- The parameter `name` is there, with `n` components.
abbrev pub HasTensor : {Row : Type 0} → String → ℕ → Params Row → Type 0
HasTensor {Row} name n params = (p : List Row) × (lookup name params ≡ some p) × (length p ≡ n)

module _ {Row : Type 0} where
  -- Row `j` of a parameter.
  unfoldable pub row_of : String → ℕ → Params Row → Option Row
  row_of name j params = elim (lookup name params) [ none ↦ none | some p ↦ get_elem? p j ]

  unfoldable pub snapshot_after : Params Row → List (Round Row) → Params Row
  snapshot_after snapshot [] = snapshot
  snapshot_after snapshot (r ∷ rounds) =
      snapshot_after (capture_active_snapshot r.rank r.download snapshot) rounds

  module _ (zero_of : Row → Row) (mode : Mode) where
    -- What the last step leaves, each step from parameters whose inactive rows are set.
    unfoldable pub trained :
        ℕ → Params Row → Params Row → List (Params Row → Params Row) → Params Row
    trained rank snapshot params [] = params
    trained rank snapshot params (step ∷ steps) =
        trained rank snapshot (step (apply_inactive zero_of rank mode snapshot params)) steps

    unfoldable pub trained_in : List (Round Row) → Round Row → Params Row
    trained_in rounds r =
        trained r.rank (capture_active_snapshot r.rank r.download (snapshot_after [] rounds))
          r.download r.steps

    -- The model after the rounds and one more.
    unfoldable pub run_rounds : List (Round Row) → Round Row → Params Row
    run_rounds rounds r =
        apply_inactive zero_of r.rank mode
          (capture_active_snapshot r.rank r.download (snapshot_after [] rounds))
          (trained_in rounds r)

    -- The row that a model is to have after a round.
    unfoldable pub expected_row : ℕ → ℕ → Option Row → Option Row → Option Row
    expected_row rank j held row =
        if ltb j rank
        then row
        else elim mode [ cut ↦ map_option zero_of row | freeze ↦ held | unrestricted ↦ row ]

  -- The row as the server sent it in the last round that federated it, or in the first round.
  unfoldable pub last_global : String → ℕ → Option Row → List (Round Row) → Option Row
  last_global name j old [] = old
  last_global name j none (r ∷ rounds) = last_global name j (row_of name j r.download) rounds
  last_global name j (some row) (r ∷ rounds) =
      last_global name j (if ltb j r.rank then row_of name j r.download else some row) rounds

  -- Rounds of a model whose parameter keeps its size.
  abbrev pub IsRound : String → ℕ → Round Row → Type 0
  IsRound name n r =
      Distinct (keys r.download)
      × HasTensor name n r.download
      × All
          (λ (step : Params Row → Params Row).
            (params : Params Row) → HasTensor name n params → HasTensor name n (step params))
          r.steps
