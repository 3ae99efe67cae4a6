-- ===== src/HetLora/Server.antt =====
-- federatedscope/contrib/worker/methods/hetlora_server.py: the ranks that the server keeps of the
-- clients and the handler of 'hetlora_rank'.
use fed_lo_ra_public.Prelude.{
  ℕ, zero, suc, Bool, [], ◌∷◌, if◌then◌else◌, Option, none, some, min, max, Dict, nat_eq, lookup,
  insert,
}
use fed_lo_ra_public.Hetero.Distribute.{RankConfig}
use fed_lo_ra_public.Hetero.Config.{ConfigKey, config_key_eq, resolve_client_key}

pub record Server : Type 0 where
  pub enabled : Bool
  pub fah_enabled : Bool
  pub rank_min : ℕ
  pub rank_max : ℕ
  pub init_rank : ℕ
  pub client_ranks : Dict ℕ ℕ

-- The content of a message: a dict with a 'rank', or anything else.
pub data Content : Type 0 where
  rank : ℕ → Content
  invalid : Content

-- hetlora_client_ranks[client_id] = init_rank for n ids from `first`
unfoldable pub init_ranks : ℕ → ℕ → ℕ → Dict ℕ ℕ → Dict ℕ ℕ
init_ranks init_rank first zero ranks = ranks
init_ranks init_rank first (suc n) ranks =
    init_ranks init_rank (suc first) n (insert first init_rank ranks)

-- The first rank that config_local has for a client.
unfoldable pub configured_rank : Dict ConfigKey RankConfig → ℕ → Option ℕ
configured_rank config_local client_id = elim (resolve_client_key config_local client_id) [
  | none ↦ none
  | some key ↦ elim (lookup key config_local) [
    | none ↦ none
    | some module_ranks ↦ elim module_ranks [ [] ↦ none | en ∷ rest ↦ some en.1 ]
  ]
]

unfoldable pub configure_ranks : Dict ConfigKey RankConfig → ℕ → ℕ → Dict ℕ ℕ → Dict ℕ ℕ
configure_ranks config_local first zero ranks = ranks
configure_ranks config_local first (suc n) ranks =
    configure_ranks config_local (suc first) n
      (elim (configured_rank config_local first) [ none ↦ ranks | some r ↦ insert first r ranks ])

unfoldable pub init_hetlora : Dict ConfigKey RankConfig → ℕ → Server → Server
init_hetlora config_local client_num s = record s {
  client_ranks =
      if s.enabled
      then configure_ranks config_local 1 client_num (init_ranks s.init_rank 1 client_num [])
      else [];
}

-- The dictionary is what `_update_hetero_ranks_config` is called with; none is no call.
unfoldable pub callback_funcs_for_hetlora_rank : ℕ → Content → Server → Server × Option (Dict ℕ ℕ)
callback_funcs_for_hetlora_rank sender invalid s = (s, none)
callback_funcs_for_hetlora_rank sender (rank r) s =
    let ranks = insert sender (max s.rank_min (min s.rank_max r)) s.client_ranks in
    if s.enabled
    then if s.fah_enabled then (s, none) else (record s { client_ranks = ranks }, some ranks)
    else (s, none)
