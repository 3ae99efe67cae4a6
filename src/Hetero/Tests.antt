-- ===== src/Hetero/Tests.antt =====
-- Runs of the code of HeteroLoRA at concrete inputs, and the theorems at them.
use Prim.Native.String.{String, count}
use fed_lo_ra_public.Prelude.{
  raise, runtime_error, ℕ, ◌+◌, ◌-◌, ◌/◌, ltb, sum, ◌*◌, ◌≡◌, ◌≢◌, refl, [], ◌∷◌, Bool, true, false,
  ◌||◌, none, some, ok, lookup, lookup_or, nat_eq, string_eq, length, All, Distinct, inl, inr, ◌⊎◌,
  arith, Dict, if◌then◌else◌,
}
use fed_lo_ra_public.Hetero.Keys.{
  Key, word, number, key_eq, key_beq, segment_beq, canonical_lora_key, strip_rank, strip_model,
  is_lora, best_match, get_rank_for_param,
}
use fed_lo_ra_public.Hetero.Distribute.{
  Tensor, Value, tensor, RankConfig, Weights, usable_rank, distribute_weight_fast,
}
use fed_lo_ra_public.Hetero.Load.{Param, store_key, load_weight_local}
use fed_lo_ra_public.Hetero.Aggregate.{both_tensors, lora_pairs, valid_pairs}
use fed_lo_ra_public.Hetero.Average.{Weighting, Feedback, current_max_rank, aggregate}
use fed_lo_ra_public.Hetero.Averaging.{pair_keys}
use fed_lo_ra_public.Hetero.Found.{IsPair}
use fed_lo_ra_public.Hetero.Totals.{all_fit}
use fed_lo_ra_public.Hetero.Config.{
  ConfigKey, client, config_key_eq, config_key_beq, resolve_client_key, module_ranks, update_key,
  update_hetero_ranks_config,
}
use fed_lo_ra_public.Hetero.Patterns.{IsMatch, get_rank_for_param_lem}
use fed_lo_ra_public.Hetero.PerClient.{IsDistributed, distribute_weight_fast_lem}
use fed_lo_ra_public.Hetero.Served.{IsServedBy, received}
use fed_lo_ra_public.Hetero.Download.{download_lem}
use fed_lo_ra_public.Hetero.Aggregation.{by_share, IsTotal, aggregate_lem}
use fed_lo_ra_public.Prelude.Floats.{FloatOps}
use fed_lo_ra_public.HetLora.Sparsity.{TensorOps}
use fed_lo_ra_public.Hetero.Update.{update_hetero_ranks_config_lem, shared_key}

-- A text stands in a name when it is one of its parts.
abbrev has_part : String → Key → Bool
has_part s [] = false
has_part s (word t ∷ name) = string_eq.beq s t || has_part s name
has_part s (number n ∷ name) = has_part s name

-- 'Client' in a key of config_local
abbrev named : String → Bool
named s = string_eq.beq s "Client_1"

abbrev a_key : Key
a_key = word "q" ∷ word "lora_A" ∷ []

abbrev b_key : Key
b_key = word "q" ∷ word "lora_B" ∷ []

abbrev a_tensor : Tensor ℕ
a_tensor = record { features = 2; components = 1 ∷ 2 ∷ 3 ∷ [] }

abbrev aggregated : Dict Key (Value ℕ)
aggregated = (a_key, tensor a_tensor) ∷ []

abbrev ranks_of_1 : RankConfig
ranks_of_1 = ("q", 2) ∷ []

abbrev config : Dict ConfigKey RankConfig
config = (client 1, ranks_of_1) ∷ []

abbrev named_config : Dict String RankConfig
named_config = ("Client_1", ranks_of_1) ∷ []

abbrev param : Param ℕ
param = record {
  name = word "model" ∷ a_key;
  requires_grad = true;
  value = record { features = 2; components = 7 ∷ 8 ∷ 9 ∷ [] };
}

abbrev zero_row : ℕ → ℕ
zero_row x = 0

get_rank_for_param_lem_example :
    let result = get_rank_for_param has_part count a_key ranks_of_1 in
    let canonical = canonical_lora_key a_key in
    ((result ≡ none) × All (λ (en : String × ℕ). has_part en.0 canonical ≡ false) ranks_of_1)
    ⊎ ((p : String) × (r : ℕ) × (result ≡ some r) × IsMatch has_part count canonical ranks_of_1 p r)
get_rank_for_param_lem_example = get_rank_for_param_lem has_part count a_key ranks_of_1

distribute_weight_fast_lem_example :
    IsDistributed has_part count named 3 "Client_1" ranks_of_1 aggregated []
      (distribute_weight_fast has_part count named aggregated named_config (some 3))
unfolding lookup
distribute_weight_fast_lem_example =
    distribute_weight_fast_lem has_part count named 3 "Client_1" ranks_of_1 named_config aggregated
      refl ((λ m. m), tt) refl

param-IsServedBy : IsServedBy has_part count 3 ranks_of_1 aggregated param a_key a_tensor 2
unfolding canonical_lora_key strip_rank strip_model is_lora usable_rank get_rank_for_param
    best_match
param-IsServedBy = (inl refl, refl, refl, refl, refl, refl)

download_lem_example :
    (d : Dict String (Weights ℕ)) × (distribute_weight_fast has_part count named aggregated
        named_config
        (some 3)
      ≡ ok d)
    × (out : Weights ℕ) × (load_weight_local zero_row has_part count true
          (lookup_or [] "Client_1" d)
          (some ranks_of_1)
          (param ∷ [])
        ≡ ok out)
    × (lookup (store_key true (word "model" ∷ a_key)) out
        ≡ some (received has_part count zero_row param a_tensor 2))
unfolding lookup is_lora
download_lem_example =
    download_lem has_part count zero_row true named 3 "Client_1" ranks_of_1 named_config aggregated
      (param ∷ []) param a_key a_tensor 2 refl ((λ m. m), tt) refl refl ((λ m. m), tt)
      (inr (inr (a_key, a_tensor, 2, param-IsServedBy)), tt) ((λ m. m), tt) (inl refl)
      param-IsServedBy

-- key.replace('lora_A', 'lora_B')
abbrev b_of : Key → Key
b_of [] = []
b_of (word s ∷ name) = (if string_eq.beq s "lora_A" then word "lora_B" else word s) ∷ b_of name
b_of (number n ∷ name) = number n ∷ b_of name

abbrev reference : Dict Key (Value ℕ)
reference =
    (a_key, tensor a_tensor)
    ∷ (b_key, tensor (record { features = 1; components = 4 ∷ 5 ∷ 6 ∷ [] }))
    ∷ []

-- Weights that are sample sizes.
abbrev weighting : Weighting ℕ
weighting = record { ignore_weight = false; uniform = λ n. 1; share = λ size total. size }

-- A client of rank 1.
abbrev smaller : Dict Key (Value ℕ)
smaller =
    (a_key, tensor (record { features = 2; components = 5 ∷ [] }))
    ∷ (b_key, tensor (record { features = 1; components = 6 ∷ [] }))
    ∷ []

abbrev feedback : Feedback ℕ
feedback = (2, reference) ∷ (3, smaller) ∷ []

abbrev zero_of_size : ℕ → ℕ
zero_of_size features = 0

abbrev times : ℕ → ℕ → ℕ
times row weight = row * weight

abbrev row_plus : ℕ → ℕ → ℕ
row_plus a b = a + b

keys_differ : a_key ≢ b_key
unfolding key_beq segment_beq
keys_differ e = absurd (ground (arith, (key_eq.beq_iff a_key b_key).1 e))

pairs_lem : lora_pairs has_part b_of reference reference ≡ (a_key, b_key) ∷ []
unfolding lora_pairs lookup key_beq segment_beq
pairs_lem = refl

pairs-Distinct_of : Distinct (pair_keys ((a_key, b_key) ∷ []))
pairs-Distinct_of =
    ((λ m. elim m [ inl e ↦ keys_differ e | inr none_left ↦ none_left ]), ((λ m. m), tt))

pairs-Distinct : Distinct (pair_keys (lora_pairs has_part b_of reference reference))
pairs-Distinct = rw pairs_lem pairs-Distinct_of

abbrev b_tensor : Tensor ℕ
b_tensor = record { features = 1; components = 4 ∷ 5 ∷ 6 ∷ [] }

reference-IsPair : IsPair has_part b_of reference a_key b_key (a_tensor, b_tensor)
unfolding lookup key_beq segment_beq
reference-IsPair = record { is_a = refl; no_b = refl; has_a = refl; partner = refl; has_b = refl }

feedback_fits :
    all_fit reference
      (valid_pairs reference (lora_pairs has_part b_of reference reference))
      (by_share weighting feedback)
    ≡ true
unfolding valid_pairs lora_pairs both_tensors lookup key_beq segment_beq
feedback_fits = refl

aggregate_lem_example :
    let max_rank = current_max_rank (some 8) (some 2) in
    let weighted = by_share weighting feedback in
    let pairs = valid_pairs reference (lora_pairs has_part b_of reference reference) in
    let outcome =
      (aggregate has_part b_of zero_of_size times row_plus
        (some 8)
        (some 2)
        weighting
        feedback).1 in
    (all_fit reference pairs weighted ≡ true
      → (result : Weights ℕ) × (outcome ≡ ok result)
        × IsTotal zero_of_size times row_plus max_rank weighted a_key b_key true 2 result
        × IsTotal zero_of_size times row_plus max_rank weighted a_key b_key false 1 result)
    × (all_fit reference pairs weighted ≡ false → outcome ≡ raise runtime_error)
aggregate_lem_example =
    aggregate_lem has_part b_of zero_of_size times row_plus (some 8) (some 2) weighting 2 reference
      ((3, smaller) ∷ []) a_key b_key (a_tensor, b_tensor) pairs-Distinct reference-IsPair

abbrev whole : FloatOps
whole = record {
  Float = ℕ;
  of_nat = λ n. n;
  add = λ x y. x + y;
  sub = λ x y. x - y;
  mul = λ x y. x * y;
  div = λ x y. x / y;
  lt = ltb;
  round_nat = λ n. n;
}

abbrev whole_tensors : TensorOps whole ℕ
whole_tensors = record {
  norm_sq = λ x y. length x.components * length y.components;
  sqrt = λ x. x;
  total = sum;
  epsilon = 1;
  zeros = zero_of_size;
  scale = times;
  add = row_plus;
  scale_tensor = λ t weight. t;
  add_tensor = λ t u. ok t;
}

-- The head, the pair, and a client without the pair.
abbrev with_head : Dict Key (Value ℕ)
with_head = (word "classifier" ∷ [], tensor a_tensor) ∷ reference

abbrev with_heads : Feedback ℕ
with_heads = (2, with_head) ∷ (3, smaller) ∷ []

abbrev client_ranks : Dict ℕ ℕ
client_ranks = (1, 4) ∷ []

update_hetero_ranks_config_lem_example :
    let config' = update_hetero_ranks_config (λ s. false) ("q" ∷ []) config client_ranks in
    (resolve_client_key config' 1 ≡ some (client 1))
    × (lookup (client 1) config' ≡ some (module_ranks ("q" ∷ []) 4))
unfolding update_key lookup config_key_beq
update_hetero_ranks_config_lem_example =
    update_hetero_ranks_config_lem (λ s. false) ("q" ∷ []) config client_ranks 1 4 (refl, tt)
      ((λ m. m), tt) refl

-- The clients 1 and 2 with keys that count from 0.
abbrev from_zero : Dict ConfigKey ℕ
from_zero = (client 0, 8) ∷ (client 1, 16) ∷ []

shared_key_example :
    (update_key from_zero 2 ≡ update_key from_zero 1)
    × (resolve_client_key from_zero 2 ≡ resolve_client_key from_zero 1)
unfolding lookup config_key_beq
shared_key_example = shared_key from_zero 1 refl refl
