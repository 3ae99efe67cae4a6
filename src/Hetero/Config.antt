-- ===== src/Hetero/Config.antt =====
-- The keys of clients in config_local: federatedscope/contrib/common/rank_utils.py and
-- `_update_hetero_ranks_config` of federatedscope/contrib/worker/methods/heterolora_server.py. Ids of
-- clients start at 1. `mentions_client` says that a key of another form has the text 'Client_' in it.
use Prim.Native.String.{String}
use fed_lo_ra_public.Prelude.{
  ℕ, ◌-◌, Bool, true, false, ◌≡◌, ◌↔◌, List, [], ◌∷◌, Option, none, some, if◌then◌else◌, ◌==◌,
  ==_iff, Dict, Eq, string_eq, has_key, insert, arith,
}
use fed_lo_ra_public.Hetero.Distribute.{RankConfig}

-- 'Client_<n>', the integer n, the text of n, or anything else.
pub data ConfigKey : Type 0 where
  client integer text : ℕ → ConfigKey
  other : String → ConfigKey

unfoldable pub config_key_beq : ConfigKey → ConfigKey → Bool
config_key_beq (client m) (client n) = m == n
config_key_beq (client m) (integer n) = false
config_key_beq (client m) (text n) = false
config_key_beq (client m) (other t) = false
config_key_beq (integer m) (client n) = false
config_key_beq (integer m) (integer n) = m == n
config_key_beq (integer m) (text n) = false
config_key_beq (integer m) (other t) = false
config_key_beq (text m) (client n) = false
config_key_beq (text m) (integer n) = false
config_key_beq (text m) (text n) = m == n
config_key_beq (text m) (other t) = false
config_key_beq (other s) (client n) = false
config_key_beq (other s) (integer n) = false
config_key_beq (other s) (text n) = false
config_key_beq (other s) (other t) = string_eq.beq s t

pub config_key_beq_iff : (k j : ConfigKey) → (config_key_beq k j ≡ true) ↔ (k ≡ j)
unfolding config_key_beq
config_key_beq_iff (client m) (client n) = ground (arith, ==_iff m n)
config_key_beq_iff (client m) (integer n) = ground arith
config_key_beq_iff (client m) (text n) = ground arith
config_key_beq_iff (client m) (other t) = ground arith
config_key_beq_iff (integer m) (client n) = ground arith
config_key_beq_iff (integer m) (integer n) = ground (arith, ==_iff m n)
config_key_beq_iff (integer m) (text n) = ground arith
config_key_beq_iff (integer m) (other t) = ground arith
config_key_beq_iff (text m) (client n) = ground arith
config_key_beq_iff (text m) (integer n) = ground arith
config_key_beq_iff (text m) (text n) = ground (arith, ==_iff m n)
config_key_beq_iff (text m) (other t) = ground arith
config_key_beq_iff (other s) (client n) = ground arith
config_key_beq_iff (other s) (integer n) = ground arith
config_key_beq_iff (other s) (text n) = ground arith
config_key_beq_iff (other s) (other t) = ground (arith, string_eq.beq_iff s t)

instance abbrev pub config_key_eq : Eq ConfigKey
config_key_eq = record { beq = config_key_beq; beq_iff = config_key_beq_iff }

unfoldable pub first_key : {V : Type 0} → List ConfigKey → Dict ConfigKey V → Option ConfigKey
first_key [] config_local = none
first_key (key ∷ preferred) config_local =
    if has_key key config_local then some key else first_key preferred config_local

unfoldable pub resolve_client_key : {V : Type 0} → Dict ConfigKey V → ℕ → Option ConfigKey
resolve_client_key [] client_id = none
resolve_client_key (entry ∷ rest) client_id =
    first_key
      (client client_id
        ∷ client (client_id - 1)
        ∷ integer client_id
        ∷ text client_id
        ∷ integer (client_id - 1)
        ∷ text (client_id - 1)
        ∷ [])
      (entry ∷ rest)

-- {mod: rank for mod in target_modules}
unfoldable pub module_ranks : List String → ℕ → RankConfig
module_ranks [] rank = []
module_ranks (target ∷ target_modules) rank = insert target rank (module_ranks target_modules rank)

-- The key that a client's ranks are written under.
unfoldable pub update_key : {V : Type 0} → Dict ConfigKey V → ℕ → ConfigKey
update_key current client_id =
    if has_key (client client_id) current
    then client client_id
    else if has_key (client (client_id - 1)) current
    then client (client_id - 1)
    else client client_id

-- The entries that are not a client's.
unfoldable pub kept_entries :
    (String → Bool) → Dict ConfigKey RankConfig → Dict ConfigKey RankConfig
kept_entries mentions_client [] = []
kept_entries mentions_client ((client n, v) ∷ current) = kept_entries mentions_client current
kept_entries mentions_client ((integer n, v) ∷ current) =
    (integer n, v) ∷ kept_entries mentions_client current
kept_entries mentions_client ((text n, v) ∷ current) =
    (text n, v) ∷ kept_entries mentions_client current
kept_entries mentions_client ((other s, v) ∷ current) =
    let rest = kept_entries mentions_client current in
    if mentions_client s then rest else (other s, v) ∷ rest

unfoldable pub write_ranks :
    List String
    → Dict ConfigKey RankConfig
    → Dict ℕ ℕ
    → Dict ConfigKey RankConfig
    → Dict ConfigKey RankConfig
write_ranks target_modules current [] updated = updated
write_ranks target_modules current ((client_id, rank) ∷ r_per_client) updated =
    write_ranks target_modules current r_per_client
      (insert (update_key current client_id) (module_ranks target_modules rank) updated)

-- The new config_local.
unfoldable pub update_hetero_ranks_config :
    (String → Bool) → List String → Dict ConfigKey RankConfig → Dict ℕ ℕ → Dict ConfigKey RankConfig
update_hetero_ranks_config mentions_client target_modules current r_per_client =
    write_ranks target_modules current r_per_client (kept_entries mentions_client current)
