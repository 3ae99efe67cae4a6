-- ===== src/AdaSparse/ServerTests.antt =====
-- Runs of the server of AdaSparse-LoRA at concrete inputs, and the theorems at them.
use Prim.Native.String.{String}
use fed_lo_ra_public.Prelude.{
  ℕ, ◌≡◌, refl, List, [], ◌∷◌, ◌++◌, length, true, false, Option, none, some, ok, lookup, nat_eq,
  string_eq, arith, ◌+◌, ◌-◌, ◌*◌, ltb, Distinct,
}
use fed_lo_ra_public.Prelude.Floats.{FloatOps}
use fed_lo_ra_public.Hetero.Config.{ConfigKey, client, module_ranks}
use fed_lo_ra_public.Hetero.Distribute.{RankConfig}
use fed_lo_ra_public.AdaSparse.Indices.{lora_a, other, get_item, index_select}
use fed_lo_ra_public.AdaSparse.Expand.{
  distribute_weights_by_indices, distribute_parts, distribute_part,
}
use fed_lo_ra_public.AdaSparse.Client.{Client}
use fed_lo_ra_public.AdaSparse.Server.{
  Parts, Download, Server, Upload, three, plain, init_adasparse_lora, lora_only, filtered_base,
  broadcast_method_model_para, parse_method_model_para_content, sync_adasparse_state_from_message,
}
use fed_lo_ra_public.AdaSparse.Consistent.{rank_of_indices, receive_all, server-IsConsistent}
use fed_lo_ra_public.AdaSparse.Agreement.{
  IsBroadcast, broadcast_method_model_para_lem, upload-broadcast,
}

abbrev ops : FloatOps
ops = record {
  Float = ℕ;
  of_nat = λ n. n;
  add = λ a b. a + b;
  sub = λ a b. a - b;
  mul = λ a b. a * b;
  div = λ a b. a;
  lt = ltb;
  round_nat = λ n. n;
}

abbrev first_place : List ℕ → List ℕ
first_place xs = 0 ∷ []

abbrev worker : Client ops ℕ ℕ first_place
worker = record {
  enabled = true;
  pruning_enabled = true;
  rank_min = 1;
  decay = λ r. 1;
  indices_current = 0 ∷ 1 ∷ 2 ∷ [];
  low_positions_before = none;
  scores_before_low = [];
  indices_before = none;
}

abbrev server : Server ℕ ℕ
server = record {
  enabled = true;
  client_num = 2;
  state = 1;
  client_indices = (1, 0 ∷ 1 ∷ 2 ∷ []) ∷ [];
  client_ranks = (1, 3) ∷ [];
  initial_payloads = [];
}

abbrev model : Parts ℕ ℕ
model = ("q.lora_A", lora_a (5 ∷ 6 ∷ 7 ∷ [])) ∷ ("head", other 9) ∷ []

abbrev dist_key : String → ℕ → String
dist_key key rank = key

abbrev same : Parts ℕ ℕ → Parts ℕ ℕ
same parts = parts

abbrev no_id : String → Option ℕ
no_id s = none

abbrev config : List (ConfigKey × RankConfig)
config = (client 2, ("q", 2) ∷ []) ∷ []

abbrev uploads : List (ℕ × Upload ℕ ℕ)
uploads = (1, three 10 model (0 ∷ 2 ∷ [])) ∷ (2, plain) ∷ []

server-IsConsistent_example :
    let s' = receive_all same uploads (init_adasparse_lora no_id 3 config server) in
    lookup 1 s'.client_ranks ≡ rank_of_indices (lookup 1 s'.client_indices)
server-IsConsistent_example = server-IsConsistent same no_id 3 config uploads server 1

broadcast_method_model_para_lem_example :
    IsBroadcast dist_key 3 ("q" ∷ []) model same same server true (1 ∷ 2 ∷ []) (
      broadcast_method_model_para dist_key 3
        ("q" ∷ [])
        model
        same
        server
        true
        false
        false
        (1 ∷ 2 ∷ []))
broadcast_method_model_para_lem_example =
    broadcast_method_model_para_lem dist_key 3 ("q" ∷ []) model same same server true false
      (1 ∷ 2 ∷ []) refl refl

abbrev pair : List ℕ
pair = 0 ∷ 2 ∷ []

pair-Distinct : Distinct pair
pair-Distinct = (λ m. ground (arith, m), (λ m. m, tt))

distributed :
    distribute_weights_by_indices dist_key (lora_only model) (0 ∷ 2 ∷ []) 3
    ≡ ok (("q.lora_A", lora_a (5 ∷ 7 ∷ [])) ∷ [])
unfolding distribute_weights_by_indices distribute_parts distribute_part lora_only get_item
    index_select
distributed = refl

upload-broadcast_example :
    let s' = (parse_method_model_para_content same 1 (three 10 model (0 ∷ 2 ∷ [])) server).0 in
    let payload : Download ℕ ℕ = record {
      model_para = same (filtered_base model ++ (("q.lora_A", lora_a (5 ∷ 7 ∷ [])) ∷ []));
      client_rank_config = module_ranks ("q" ∷ []) (length pair);
      adasparse_indices = pair;
    } in
    (broadcast_method_model_para dist_key 3 ("q" ∷ []) model same s' true false false (1 ∷ [])
      ≡ ((1, payload) ∷ [], ok true))
    × ((sync_adasparse_state_from_message worker
          (some payload.client_rank_config)
          (some payload.adasparse_indices)).indices_current
        ≡ pair)
upload-broadcast_example =
    upload-broadcast dist_key 3 ("q" ∷ []) model same same server worker 1 10 model 0 (2 ∷ [])
      (("q.lora_A", lora_a (5 ∷ 7 ∷ [])) ∷ []) refl refl refl ((omega arith, tt), (tt, tt))
      pair-Distinct distributed
