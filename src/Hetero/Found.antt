-- ===== src/Hetero/Found.antt =====
-- The pairs that federatedscope/core/aggregators/heterolora_aggregator.py finds in the first client's
-- model.
use Prim.Native.String.{String}
use fed_lo_ra_public.Prelude.{
  ◌≡◌, refl, ap, ◌∙◌, ◌&&◌, not, Bool, true, false, [], ◌∷◌, none, some, Dict, lookup, has_key,
  Elem, inl, inr, arith, Bool-cases,
}
use mathlib.Core.Path.{subst}
use fed_lo_ra_public.Hetero.Keys.{Key, key_eq}
use fed_lo_ra_public.Hetero.Distribute.{Tensor, Value, tensor}
use fed_lo_ra_public.Hetero.Aggregate.{both_tensors, lora_pairs}

-- The model has a tensor under the key `a` of a lora_A, and one under its partner `b`.
pub record IsPair {Row : Type 0} (in_key : String → Key → Bool) (b_of : Key → Key)
    (model : Dict Key (Value Row)) (a b : Key) (ab : Tensor Row × Tensor Row) : Type 0 where
  pub is_a : in_key "lora_A" a ≡ true
  pub no_b : in_key "lora_B" a ≡ false
  pub has_a : lookup a model ≡ some (tensor ab.0)
  pub partner : b_of a ≡ b
  pub has_b : lookup b model ≡ some (tensor ab.1)

module _ {Row : Type 0} (in_key : String → Key → Bool) (b_of : Key → Key)
    (reference : Dict Key (Value Row)) where
  lora_pairs-Elem :
      (rest : Dict Key (Value Row)) (a : Key) (v : Value Row)
      → in_key "lora_A" a ≡ true
      → in_key "lora_B" a ≡ false
      → has_key (b_of a) reference ≡ true
      → lookup a rest ≡ some v
      → Elem (a, b_of a) (lora_pairs in_key b_of reference rest)
  unfolding lora_pairs lookup
  lora_pairs-Elem [] a v is_a no_b known there = absurd (cc there)
  lora_pairs-Elem ((key, u) ∷ rest) a v is_a no_b known there =
      elim (Bool-cases (key_eq.beq key a)) [
        | inl same ↦
            let e : key ≡ a = (key_eq.beq_iff key a).0 same in rw (e, is_a, no_b, known) (inl refl)
        | inr differ ↦
            let later = lora_pairs-Elem rest a v is_a no_b known (ground (arith, there, differ)) in
            elim (Bool-cases (
              (in_key "lora_A" key && not (in_key "lora_B" key)) && has_key (b_of key) reference)) [
                | inl listed ↦ rw listed (inr later)
                | inr left_out ↦ rw left_out later
              ]
      ]

  pub found :
      (a b : Key) (ab : Tensor Row × Tensor Row)
      → IsPair in_key b_of reference a b ab
      → Elem (a, b) (lora_pairs in_key b_of reference reference)
        × (both_tensors a b reference ≡ some ab)
  unfolding both_tensors
  found a b ab p =
      let known : has_key b reference ≡ true =
        ap (λ o. elim o as (λ x. Bool) [ none ↦ false | some v ↦ true ]) p.has_b in
      let there : has_key (b_of a) reference ≡ true =
        ap (λ k. has_key k reference) p.partner ∙ known in
      (
        subst (λ k. Elem (a, k) (lora_pairs in_key b_of reference reference)) p.partner
            (lora_pairs-Elem reference a (tensor ab.0) p.is_a p.no_b there p.has_a),
        rw (both_tensors, p.has_a, p.has_b) refl,
      )
