-- ===== src/Hetero/Keys.antt =====
-- The names of parameters in federatedscope/contrib/common/heterolora_utils.py. A name is the list of
-- its parts between the dots, and a part for which `isdigit` holds is the number that it writes.
-- `in_key` is Python's `in` on the text of a name, `len` the length of a pattern.
use Prim.Native.String.{String}
use fed_lo_ra_public.Prelude.{
  ℕ, Bool, true, false, ◌&&◌, ◌||◌, ◌≡◌, refl, ap, List, [], ◌∷◌, ◌++◌, Option, none, some, ◌↔◌,
  if◌then◌else◌, ltb, ◌==◌, ==_iff, Dict, Eq, nat_eq, string_eq, arith,
}

pub data Segment : Type 0 where
  word : String → Segment
  number : ℕ → Segment

abbrev pub Key : Type 0
Key = List Segment

unfoldable pub segment_beq : Segment → Segment → Bool
segment_beq (word s) (word t) = string_eq.beq s t
segment_beq (word s) (number n) = false
segment_beq (number m) (word t) = false
segment_beq (number m) (number n) = m == n

pub segment_beq_iff : (s t : Segment) → (segment_beq s t ≡ true) ↔ (s ≡ t)
unfolding segment_beq
segment_beq_iff (word s) (word t) = ground (arith, string_eq.beq_iff s t)
segment_beq_iff (word s) (number n) = ground arith
segment_beq_iff (number m) (word t) = ground arith
segment_beq_iff (number m) (number n) = ground (arith, ==_iff m n)

unfoldable pub key_beq : Key → Key → Bool
key_beq [] [] = true
key_beq [] (t ∷ ts) = false
key_beq (s ∷ ss) [] = false
key_beq (s ∷ ss) (t ∷ ts) = segment_beq s t && key_beq ss ts

pub key_beq_iff : (k j : Key) → (key_beq k j ≡ true) ↔ (k ≡ j)
unfolding key_beq
key_beq_iff [] [] = ground arith
key_beq_iff [] (t ∷ ts) = ground arith
key_beq_iff (s ∷ ss) [] = ground arith
key_beq_iff (s ∷ ss) (t ∷ ts) = ground (arith, segment_beq_iff s t, key_beq_iff ss ts)

instance abbrev pub key_eq : Eq Key
key_eq = record { beq = key_beq; beq_iff = key_beq_iff }

-- Without the last part if it is a number.
unfoldable pub strip_rank : Key → Key
strip_rank [] = []
strip_rank (word s ∷ []) = word s ∷ []
strip_rank (number n ∷ []) = []
strip_rank (s ∷ t ∷ rest) = s ∷ strip_rank (t ∷ rest)

-- Without a leading 'model.'
unfoldable pub strip_model : Key → Key
strip_model [] = []
strip_model (s ∷ []) = s ∷ []
strip_model (word s ∷ t ∷ rest) = if string_eq.beq s "model" then t ∷ rest else word s ∷ t ∷ rest
strip_model (number n ∷ t ∷ rest) = number n ∷ t ∷ rest

unfoldable pub canonical_lora_key : Key → Key
canonical_lora_key name = strip_model (strip_rank name)

-- f"{base}.{rank}"
abbrev pub dist_key : Key → ℕ → Key
dist_key base rank = base ++ (number rank ∷ [])

pub strip_rank-dist_key : (base : Key) (rank : ℕ) → strip_rank (dist_key base rank) ≡ base
unfolding strip_rank
strip_rank-dist_key [] rank = refl
strip_rank-dist_key (s ∷ []) rank = refl
strip_rank-dist_key (s ∷ t ∷ rest) rank = ap (λ x. s ∷ x) (strip_rank-dist_key (t ∷ rest) rank)

-- 'lora_A' in name or 'lora_B' in name
unfoldable pub is_lora : (String → Key → Bool) → Key → Bool
is_lora in_key name = in_key "lora_A" name || in_key "lora_B" name

module _ (in_key : String → Key → Bool) (len : String → ℕ) where
  -- The longest pattern so far, by its length, and its rank.
  abbrev is_longer : String → Option (ℕ × ℕ) → Bool
  is_longer pattern best = elim best [
    | none ↦ true
    | some (best_len, rank) ↦ ltb best_len (len pattern)
  ]

  unfoldable pub best_match : Key → Dict String ℕ → Option (ℕ × ℕ) → Option (ℕ × ℕ)
  best_match canonical [] best = best
  best_match canonical ((pattern, rank) ∷ rank_config) best = best_match canonical rank_config (
      if in_key pattern canonical && is_longer pattern best then some (len pattern, rank) else best)

  unfoldable pub get_rank_for_param : Key → Dict String ℕ → Option ℕ
  get_rank_for_param name rank_config =
      elim (best_match (canonical_lora_key name) rank_config none) [
        | none ↦ none
        | some (best_len, rank) ↦ some rank
      ]
