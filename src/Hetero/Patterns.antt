-- ===== src/Hetero/Patterns.antt =====
-- _get_rank_for_param of federatedscope/contrib/common/heterolora_utils.py: the rank of a parameter is
-- that of the longest pattern in its name.
use Prim.Native.String.{String}
use fed_lo_ra_public.Prelude.{
  ℕ, Bool, true, false, ◌&&◌, ◌≡◌, refl, [], ◌∷◌, none, some, ltb, ◌≤◌, Dict, Elem, All, inl, inr,
  ◌⊎◌, arith, Bool-cases,
}
use fed_lo_ra_public.Hetero.Keys.{Key, canonical_lora_key, best_match, get_rank_for_param}

module _ (in_key : String → Key → Bool) (len : String → ℕ) where
  -- No pattern of the name is longer than `l`.
  abbrev pub IsLongest : Key → ℕ → Dict String ℕ → Type 0
  IsLongest name l rank_config =
      All (λ (en : String × ℕ). (in_key en.0 name ≡ false) ⊎ (len en.0 ≤ l)) rank_config

  -- The pattern of the configuration that a match is of, none of its matches being longer.
  abbrev pub IsMatch : Key → Dict String ℕ → String → ℕ → Type 0
  IsMatch name rank_config pattern rank =
      Elem (pattern, rank) rank_config
      × (in_key pattern name ≡ true)
      × IsLongest name (len pattern) rank_config

  best_match-some :
      (name : Key) (rank_config : Dict String ℕ) (l s : ℕ)
      → let result = best_match in_key len name rank_config (some (l, s)) in
        ((result ≡ some (l, s)) × IsLongest name l rank_config)
        ⊎ ((p : String) × (r : ℕ) × (result ≡ some (len p, r))
            × (l ≤ len p)
            × IsMatch name rank_config p r)
  unfolding best_match
  best_match-some name [] l s = inl (refl, tt)
  best_match-some name ((p, r) ∷ rank_config) l s =
      let shorter : ((in_key p name && ltb l (len p)) ≡ false)
          → (in_key p name ≡ false) ⊎ (len p ≤ l) =
        λ no. elim (Bool-cases (in_key p name)) [
          | inl found ↦ inr (ground (arith, no, found))
          | inr absent ↦ inl absent
        ] in
      let longer : (q : String)
          → (l ≤ len q)
          → (in_key p name ≡ false) ⊎ (len p ≤ l)
          → (in_key p name ≡ false) ⊎ (len p ≤ len q) =
        λ q le h. elim h [ inl absent ↦ inl absent | inr le' ↦ inr (omega (arith, le, le')) ] in
      elim (Bool-cases (in_key p name && ltb l (len p))) [
        | inl new ↦
            let found : in_key p name ≡ true = ground (arith, new) in
            let above : l ≤ len p = ground (arith, new) in
            elim (best_match-some name rank_config (len p) r) [
              | inl (e, longest) ↦
                  inr (p, r, rw new e, above, (inl refl, found, (inr (omega arith), longest)))
              | inr (q, t, e, le, (m, here, longest)) ↦
                  inr (q, t, rw new e, omega (arith, above, le), (inr m, here, (inr le, longest)))
            ]
        | inr old ↦ elim (best_match-some name rank_config l s) [
          | inl (e, longest) ↦ inl (rw old e, (shorter old, longest))
          | inr (q, t, e, le, (m, here, longest)) ↦
              inr (q, t, rw old e, le, (inr m, here, (longer q le (shorter old), longest)))
        ]
      ]

  best_match-none :
      (name : Key) (rank_config : Dict String ℕ)
      → let result = best_match in_key len name rank_config none in
        ((result ≡ none) × All (λ (en : String × ℕ). in_key en.0 name ≡ false) rank_config)
        ⊎ ((p : String) × (r : ℕ) × (result ≡ some (len p, r)) × IsMatch name rank_config p r)
  unfolding best_match
  best_match-none name [] = inl (refl, tt)
  best_match-none name ((p, r) ∷ rank_config) = elim (Bool-cases (in_key p name)) [
    | inl found ↦ elim (best_match-some name rank_config (len p) r) [
      | inl (e, longest) ↦ inr (p, r, rw found e, (inl refl, found, (inr (omega arith), longest)))
      | inr (q, t, e, le, (m, here, longest)) ↦
          inr (q, t, rw found e, (inr m, here, (inr le, longest)))
    ]
    | inr absent ↦ elim (best_match-none name rank_config) [
      | inl (e, none_here) ↦ inl (rw absent e, (absent, none_here))
      | inr (q, t, e, (m, here, longest)) ↦
          inr (q, t, rw absent e, (inr m, here, (inl absent, longest)))
    ]
  ]

  -- The rank of a parameter is that of a pattern of the configuration that stands in its canonical
  -- name and that no other such pattern exceeds in length; it has none exactly if no pattern does.
  pub get_rank_for_param_lem :
      (name : Key) (rank_config : Dict String ℕ)
      → let result = get_rank_for_param in_key len name rank_config in
        let canonical = canonical_lora_key name in
        ((result ≡ none) × All (λ (en : String × ℕ). in_key en.0 canonical ≡ false) rank_config)
        ⊎ ((p : String) × (r : ℕ) × (result ≡ some r) × IsMatch canonical rank_config p r)
  unfolding get_rank_for_param
  get_rank_for_param_lem name rank_config =
      elim (best_match-none (canonical_lora_key name) rank_config) [
        | inl (e, none_here) ↦ inl (ground (arith, e), none_here)
        | inr (p, r, e, m) ↦ inr (p, r, ground (arith, e), m)
      ]
