-- ===== src/Hetero/Fitting.antt =====
-- A distributed tensor in the shape of a parameter, as load_weight_local of
-- federatedscope/contrib/common/heterolora_utils.py puts it there, described row by row.
use fed_lo_ra_public.Prelude.{
  ℕ, zero, suc, ◌≡◌, refl, ◌∙◌, ap, ◌≤◌, List, [], ◌∷◌, ◌++◌, map, take, drop, length, ltb, ◌==◌,
  ok, arith, Bool-cases, length-take, inl, inr,
}
use fed_lo_ra_public.Hetero.Distribute.{Tensor, truncated}
use fed_lo_ra_public.Hetero.Load.{adapt}

module _ {Row : Type 0} (zero_of : Row → Row) where
  -- The first `rank` rows of `t` in place of those of `p`, and zeros below them.
  unfoldable pub fitted : ℕ → List Row → List Row → List Row
  fitted rank t [] = []
  fitted zero t (y ∷ p) = zero_of y ∷ fitted zero t p
  fitted (suc rank) [] (y ∷ p) = zero_of y ∷ fitted rank [] p
  fitted (suc rank) (x ∷ t) (y ∷ p) = x ∷ fitted rank t p

  fitted-zero : (t p : List Row) → map zero_of p ≡ fitted 0 t p
  unfolding fitted
  fitted-zero t [] = refl
  fitted-zero t (y ∷ p) = ap (λ x. zero_of y ∷ x) (fitted-zero t p)

  fitted-exact :
      (rank : ℕ) (t p : List Row)
      → rank ≤ length t
      → rank ≡ length p
      → take rank t ≡ fitted rank t p
  unfolding fitted
  fitted-exact zero t [] le e = refl
  fitted-exact zero t (y ∷ p) le e = absurd (omega (arith, e))
  fitted-exact (suc rank) t [] le e = absurd (omega (arith, e))
  fitted-exact (suc rank) [] (y ∷ p) le e = absurd (omega (arith, le))
  fitted-exact (suc rank) (x ∷ t) (y ∷ p) le e =
      ap (λ r. x ∷ r) (fitted-exact rank t p (omega (arith, le)) (omega (arith, e)))

  fitted-short :
      (rank : ℕ) (t p : List Row)
      → rank ≤ length t
      → rank ≤ length p
      → take rank (take rank t) ++ map zero_of (drop rank p) ≡ fitted rank t p
  unfolding fitted
  fitted-short zero t p le lp = fitted-zero t p
  fitted-short (suc rank) t [] le lp = absurd (omega (arith, lp))
  fitted-short (suc rank) [] (y ∷ p) le lp = absurd (omega (arith, le))
  fitted-short (suc rank) (x ∷ t) (y ∷ p) le lp =
      ap (λ r. x ∷ r) (fitted-short rank t p (omega (arith, le)) (omega (arith, lp)))

  fitted-long :
      (rank : ℕ) (t p : List Row)
      → rank ≤ length t
      → length p ≤ rank
      → take (length p) (take rank t) ≡ fitted rank t p
  unfolding fitted
  fitted-long rank t [] le lp = refl
  fitted-long zero t (y ∷ p) le lp = absurd (omega (arith, lp))
  fitted-long (suc rank) [] (y ∷ p) le lp = absurd (omega (arith, le))
  fitted-long (suc rank) (x ∷ t) (y ∷ p) le lp =
      ap (λ r. x ∷ r) (fitted-long rank t p (omega (arith, le)) (omega (arith, lp)))

  pub adapt-truncated :
      (rank : ℕ) (t p : Tensor Row)
      → t.features ≡ p.features
      → rank ≤ length t.components
      → adapt zero_of (truncated rank t) p
        ≡ ok (record { features = p.features; components = fitted rank t.components p.components })
  unfolding adapt truncated
  adapt-truncated rank t p same le =
      let size : length (take rank t.components) ≡ rank =
        length-take rank t.components ∙ omega (arith, le) in
      let ts = t.components in
      let ps = p.components in
      elim (Bool-cases (rank == length ps)) [
        | inl equal ↦ ground (arith, same, size, fitted-exact rank ts ps le (ground (arith, equal)))
        | inr differ ↦ elim (Bool-cases (ltb rank (length ps))) [
          | inl less ↦ ground (arith, same, size, fitted-short rank ts ps le (ground (arith, less)))
          | inr more ↦ ground (arith, same, size, fitted-long rank ts ps le (ground (arith, more)))
        ]
      ]
