-- ===== src/AdaSparse/Server.antt =====
-- federatedscope/contrib/worker/methods/adasparse_lora_server.py, and the synchronisation of the client
-- in federatedscope/contrib/worker/methods/adasparse_lora_client.py. `dist_key` is as in Expand,
-- `quantize` and `dequantize` are those of the compression, or nothing where it is off, and
-- `id_of_text` is what int(key.split('_')[1]) gives for a key of another form with 'Client_' in it.
use Prim.Native.String.{String}
use fed_lo_ra_public.Prelude.{
  ℕ, zero, suc, Bool, true, false, ◌&&◌, ◌||◌, not, List, [], ◌∷◌, ◌++◌, length, Option, none, some,
  leb, ◌==◌, if◌then◌else◌, Dict, nat_eq, string_eq, lookup, insert, Result, ok, raise, ◌>>=◌,
  runtime_error,
}
use fed_lo_ra_public.Prelude.Floats.{FloatOps}
use fed_lo_ra_public.Hetero.Distribute.{RankConfig}
use fed_lo_ra_public.Hetero.Config.{ConfigKey, client, integer, text, module_ranks}
use fed_lo_ra_public.AdaSparse.Indices.{Part, lora_a, lora_b, other}
use fed_lo_ra_public.AdaSparse.Expand.{distribute_weights_by_indices}
use fed_lo_ra_public.AdaSparse.Client.{Client, range_from}
use fed_lo_ra_public.AdaSparse.RankUtils.{
  normalize_indices, indices_from_rank, infer_rank_from_client_rank_config,
}

abbrev pub Parts : Type 0 → Type 0 → Type 0
Parts Row Other = List (String × Part Row Other)

-- The content of a message to a client.
pub record Download (Row Other : Type 0) : Type 0 where
  pub model_para : Parts Row Other
  pub client_rank_config : RankConfig
  pub adasparse_indices : List ℕ

pub record Server (Row Other : Type 0) : Type 0 where
  pub enabled : Bool
  pub client_num : ℕ
  -- the round
  pub state : ℕ
  pub client_indices : Dict ℕ (List ℕ)
  pub client_ranks : Dict ℕ ℕ
  pub initial_payloads : Dict ℕ (Download Row Other)

-- The content of a client's message: sample size, model and a list of indices, or a content of
-- fewer than three parts. Contents whose third part is no list are left out.
pub data Upload (Row Other : Type 0) : Type 0 where
  three : ℕ → Parts Row Other → List ℕ → Upload Row Other
  plain : Upload Row Other

-- The client that a key of config_local stands for.
unfoldable pub configured_id : (String → Option ℕ) → ConfigKey → Option ℕ
configured_id id_of_text (client n) = some n
configured_id id_of_text (integer n) = none
configured_id id_of_text (text n) = none
configured_id id_of_text (ConfigKey.other s) = id_of_text s

module _ {Row Other : Type 0} where
  unfoldable pub set_indices : ℕ → List ℕ → Server Row Other → Server Row Other
  set_indices client_id indices s = record s {
    client_indices = insert client_id indices s.client_indices;
    client_ranks = insert client_id (length indices) s.client_ranks;
  }

  -- for client_id in range(first, first + n)
  unfoldable pub init_clients : ℕ → ℕ → ℕ → Server Row Other → Server Row Other
  init_clients init_rank first zero s = s
  init_clients init_rank first (suc n) s = init_clients init_rank (suc first) n (record s {
    client_indices = insert first (range_from 0 init_rank) s.client_indices;
    client_ranks = insert first init_rank s.client_ranks;
  })

  -- for client_key, module_ranks in config_local.items()
  unfoldable pub configure_clients :
      (String → Option ℕ) → List (ConfigKey × RankConfig) → Server Row Other → Server Row Other
  configure_clients id_of_text [] s = s
  configure_clients id_of_text ((client_key, []) ∷ config_local) s =
      configure_clients id_of_text config_local s
  configure_clients id_of_text ((client_key, (name, rank) ∷ ranks) ∷ config_local) s =
      configure_clients id_of_text config_local (elim (configured_id id_of_text client_key) [
        | none ↦ s
        | some n ↦
            if leb 1 n && leb n s.client_num
            then record s {
              client_indices = insert n (range_from 0 rank) s.client_indices;
              client_ranks = insert n rank s.client_ranks;
            }
            else s
      ])

  unfoldable pub init_adasparse_lora :
      (String → Option ℕ) → ℕ → List (ConfigKey × RankConfig) → Server Row Other → Server Row Other
  init_adasparse_lora id_of_text init_rank config_local s =
      let empty : Server Row Other = record s { client_indices = []; client_ranks = [] } in
      if s.enabled
      then configure_clients id_of_text config_local (init_clients init_rank 1 s.client_num empty)
      else empty

  -- The server's state dict in two: what is LoRA, and what is not.
  unfoldable pub lora_only : Parts Row Other → Parts Row Other
  lora_only [] = []
  lora_only ((key, lora_a rows) ∷ rest) = (key, lora_a rows) ∷ lora_only rest
  lora_only ((key, lora_b cols) ∷ rest) = (key, lora_b cols) ∷ lora_only rest
  lora_only ((key, other o) ∷ rest) = lora_only rest

  unfoldable pub filtered_base : Parts Row Other → Parts Row Other
  filtered_base [] = []
  filtered_base ((key, lora_a rows) ∷ rest) = filtered_base rest
  filtered_base ((key, lora_b cols) ∷ rest) = filtered_base rest
  filtered_base ((key, other o) ∷ rest) = (key, other o) ∷ filtered_base rest

  module _ (dist_key : String → ℕ → String) (max_rank : ℕ) (target_modules : List String)
      (server_state : Parts Row Other) where
    -- What a client is sent; the two checks come before the distribution.
    unfoldable pub payload_for : Server Row Other → ℕ → Result (Download Row Other)
    payload_for s client_id = elim (lookup client_id s.client_indices) [
      | none ↦ raise runtime_error
      | some [] ↦ raise runtime_error
      | some (g ∷ gs) ↦
          distribute_weights_by_indices dist_key (lora_only server_state) (g ∷ gs) max_rank
          >>= λ weights. ok (record {
            model_para = filtered_base server_state ++ weights;
            client_rank_config = module_ranks target_modules (length (g ∷ gs));
            adasparse_indices = g ∷ gs;
          })
    ]

    -- The payloads of n clients from `first`; those before an exception stay stored.
    unfoldable pub prepare_from : ℕ → ℕ → Server Row Other → Server Row Other × Result Bool
    prepare_from first zero s = (s, ok true)
    prepare_from first (suc n) s = elim (payload_for s first) [
      | raise e ↦ (s, raise e)
      | ok payload ↦
          prepare_from (suc first) n
            (record s { initial_payloads = insert first payload s.initial_payloads })
    ]

    unfoldable pub prepare_method_initial_payloads :
        Server Row Other → Server Row Other × Result Bool
    prepare_method_initial_payloads s =
        if s.enabled then prepare_from 1 s.client_num s else (s, ok false)

    -- The first round sends the prepared payload, if there is one.
    unfoldable pub content_for : Server Row Other → Bool → ℕ → Result (Download Row Other)
    content_for s is_model_para client_id =
        let fresh = payload_for s client_id in
        if is_model_para && (s.state == 0)
        then elim (lookup client_id s.initial_payloads) [ none ↦ fresh | some payload ↦ ok payload ]
        else fresh

    module _ (quantize : Parts Row Other → Parts Row Other) where
      -- The messages that were sent, and whether the loop ended or raised. The sampler, which is told of
      -- the broadcast after the loop, is no part of the state.
      unfoldable pub send_all :
          Server Row Other → Bool → List ℕ → List (ℕ × Download Row Other) × Result Bool
      send_all s is_model_para [] = ([], ok true)
      send_all s is_model_para (client_id ∷ receiver) =
          let (sent, outcome) = send_all s is_model_para receiver in
          elim (content_for s is_model_para client_id) [
            | raise e ↦ ([], raise e)
            | ok payload ↦ (
              (client_id, record payload { model_para = quantize payload.model_para }) ∷ sent,
              outcome,
            )
          ]

      -- `is_model_para` and `is_evaluate` say which msg_type it is.
      unfoldable pub broadcast_method_model_para :
          Server Row Other
          → Bool
          → Bool
          → Bool
          → List ℕ
          → List (ℕ × Download Row Other) × Result Bool
      broadcast_method_model_para s is_model_para is_evaluate skip_broadcast receiver =
          if s.enabled && ((is_model_para || is_evaluate) && not skip_broadcast)
          then send_all s is_model_para receiver
          else ([], ok false)

  -- The new server, and the content if it was handled, the model as `dequantize` makes it.
  unfoldable pub parse_method_model_para_content :
      (Parts Row Other → Parts Row Other)
      → ℕ
      → Upload Row Other
      → Server Row Other
      → Server Row Other × Option (ℕ × Parts Row Other × List ℕ)
  parse_method_model_para_content dequantize sender plain s = (s, none)
  parse_method_model_para_content dequantize sender (three sample_size model_dict indices) s =
      if s.enabled
      then (set_indices sender indices s, some (sample_size, dequantize model_dict, indices))
      else (s, none)

-- `_sync_adasparse_state_from_message` of the client.
unfoldable pub sync_adasparse_state_from_message :
    {ops : FloatOps} {Row Other : Type 0} {argsort : List (FloatOps.Float ops) → List ℕ}
    → Client ops Row Other argsort
    → Option RankConfig
    → Option (List ℕ)
    → Client ops Row Other argsort
sync_adasparse_state_from_message c client_rank_config adasparse_indices =
    if c.enabled
    then elim adasparse_indices [
      | some indices ↦ record c { indices_current = normalize_indices true true (some indices) }
      | none ↦ elim (infer_rank_from_client_rank_config client_rank_config none) [
        | none ↦ c
        | some rank ↦ record c { indices_current = indices_from_rank rank }
      ]
    ]
    else c
