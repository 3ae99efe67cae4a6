-- ===== src/HetLora/Client.antt =====
-- federatedscope/contrib/worker/methods/hetlora_client.py and the truncation of an upload in
-- federatedscope/contrib/common/heterolora_utils.py. A score is a float: `lt` compares two of them,
-- `decay r` is int(r * hetlora_decay), `tail_score` is the function of that name on the model as it
-- is when it is called, and `send` is what comm_manager.send returns or raises.
use Prim.Native.String.{String}
use fed_lo_ra_public.Prelude.{
  ℕ, Bool, List, [], ◌∷◌, map, take, length, ltb, ◌==◌, if◌then◌else◌, Option, none, some, min, max,
  Result, ok, raise, ◌>>=◌, attribute_error,
}
use fed_lo_ra_public.AdaSparse.Indices.{Part, lora_a, lora_b, other}

pub record Client (Score : Type 0) : Type 0 where
  pub enabled : Bool
  pub pruning_enabled : Bool
  pub rank_min : ℕ
  pub rank_max : ℕ
  pub init_rank : ℕ
  pub current_rank : Option ℕ
  pub tail_score_before : Option Score
  -- model.hetlora_current_rank
  pub model_rank : Option ℕ

-- What a step leaves: the client, the ranks it sent to the server in 'hetlora_rank' messages, and
-- a value or an exception.
pub record Step (Score A : Type 0) : Type 0 where
  pub client : Client Score
  pub sent : List ℕ
  pub outcome : Result A

abbrev pub StateDict : Type 0 → Type 0 → Type 0
StateDict Row Other = List (String × Part Row Other)

-- One state dict or a list of them.
pub data Payload (Row Other : Type 0) : Type 0 where
  single : StateDict Row Other → Payload Row Other
  several : List (StateDict Row Other) → Payload Row Other

module _ {Row Other : Type 0} where
  unfoldable pub truncate_part : ℕ → Part Row Other → Part Row Other
  truncate_part new_rank (lora_a rows) =
      if ltb new_rank (length rows) then lora_a (take new_rank rows) else lora_a rows
  truncate_part new_rank (lora_b cols) =
      if ltb new_rank (length cols) then lora_b (take new_rank cols) else lora_b cols
  truncate_part new_rank (other o) = other o

  unfoldable pub truncate_client_lora_to_rank : ℕ → StateDict Row Other → StateDict Row Other
  truncate_client_lora_to_rank new_rank [] = []
  truncate_client_lora_to_rank new_rank ((key, value) ∷ rest) =
      (key, truncate_part new_rank value) ∷ truncate_client_lora_to_rank new_rank rest

  unfoldable pub truncate_payload_to_rank : ℕ → Payload Row Other → Payload Row Other
  truncate_payload_to_rank target (single mp) = single (truncate_client_lora_to_rank target mp)
  truncate_payload_to_rank target (several mps) =
      several (map (truncate_client_lora_to_rank target) mps)

  unfoldable pub get_current_lora_rank_from_state_dict : StateDict Row Other → ℕ
  get_current_lora_rank_from_state_dict [] = 0
  get_current_lora_rank_from_state_dict ((key, lora_a rows) ∷ rest) = length rows
  get_current_lora_rank_from_state_dict ((key, lora_b cols) ∷ rest) =
      get_current_lora_rank_from_state_dict rest
  get_current_lora_rank_from_state_dict ((key, other o) ∷ rest) =
      get_current_lora_rank_from_state_dict rest

  -- An empty list has no `items`.
  unfoldable pub inferred_rank : Payload Row Other → Result ℕ
  inferred_rank (single mp) = ok (get_current_lora_rank_from_state_dict mp)
  inferred_rank (several []) = raise attribute_error
  inferred_rank (several (mp ∷ mps)) = ok (get_current_lora_rank_from_state_dict mp)

module _ {Score : Type 0} where
  -- int(max(self.hetlora_rank_min, min(self.hetlora_rank_max, rank)))
  unfoldable pub clamp : Client Score → ℕ → ℕ
  clamp c rank = max c.rank_min (min c.rank_max rank)

  module _ (tail_score : Option ℕ → Result Score) where
    -- `_hetlora_record_tail_score_before`: an exception leaves None.
    unfoldable pub record_tail_score_before : Client Score → Client Score
    record_tail_score_before c =
        if c.enabled
        then if c.pruning_enabled
          then elim (tail_score c.current_rank) [
            | ok score ↦ record c {
              tail_score_before = some score;
              model_rank = elim c.current_rank [ none ↦ c.model_rank | some r ↦ some r ];
            }
            | raise e ↦ record c {
              tail_score_before = none;
              model_rank = elim c.current_rank [ none ↦ c.model_rank | some r ↦ some r ];
            }
          ]
          else c
        else c

  -- The rank that an upload starts from: the client's, or what the payload shows, or the first one.
  unfoldable pub starting_rank : {Row Other : Type 0} → Client Score → Payload Row Other → Result ℕ
  starting_rank c payload = elim c.current_rank [
    | some r ↦ ok (clamp c r)
    | none ↦ inferred_rank payload >>= λ r. ok (clamp c (if r == 0 then c.init_rank else r))
  ]

  unfoldable pub set_rank : ℕ → Client Score → Client Score
  set_rank r c = record c { current_rank = some r; model_rank = some r }

  module _ (lt : Score → Score → Bool) (decay : ℕ → ℕ) (tail_score : Option ℕ → Result Score)
      (send : ℕ → Result (Unit {0})) where
    -- The rank is lowered before the message is sent.
    unfoldable pub prune : Client Score → ℕ → Step Score (Unit {0})
    prune c current =
        let new_rank = max c.rank_min (decay current) in
        if ltb new_rank current
        then elim (send new_rank) [
          | ok u ↦ record { client = set_rank new_rank c; sent = new_rank ∷ []; outcome = ok tt }
          | raise e ↦ record { client = set_rank new_rank c; sent = []; outcome = raise e }
        ]
        else record { client = c; sent = []; outcome = ok tt }

    unfoldable pub decide : Client Score → ℕ → Step Score (Unit {0})
    decide c current =
        if c.pruning_enabled
        then elim c.tail_score_before [
          | none ↦ record { client = c; sent = []; outcome = ok tt }
          | some before ↦ elim (tail_score (some current)) [
            | raise e ↦ record { client = c; sent = []; outcome = raise e }
            | ok after ↦
                if lt after before
                then prune c current
                else record { client = c; sent = []; outcome = ok tt }
          ]
        ]
        else record { client = c; sent = []; outcome = ok tt }

    -- The rank that the upload is cut to, once the decision is made.
    unfoldable pub target_of : Client Score → ℕ → ℕ
    target_of c current = elim c.current_rank [ none ↦ current | some r ↦ clamp c r ]

    unfoldable pub finish :
        {Row Other : Type 0}
        → Step Score (Unit {0})
        → ℕ
        → Payload Row Other
        → Step Score (Payload Row Other)
    finish s current payload = elim s.outcome [
      | raise e ↦ record { client = s.client; sent = s.sent; outcome = ok payload }
      | ok u ↦
          let target = target_of s.client current in
          record {
            client = set_rank target s.client;
            sent = s.sent;
            outcome = ok (truncate_payload_to_rank target payload);
          }
    ]

    -- `_hetlora_prune_and_send_rank`: an exception is caught, and the payload is returned as it came.
    unfoldable pub prune_and_send_rank :
        {Row Other : Type 0} → Client Score → Payload Row Other → Step Score (Payload Row Other)
    prune_and_send_rank c payload =
        if c.enabled
        then elim (starting_rank c payload) [
          | raise e ↦ record { client = c; sent = []; outcome = ok payload }
          | ok current ↦
              let c' : Client Score = record c { model_rank = some current } in
              finish (decide c' current) current payload
        ]
        else record { client = c; sent = []; outcome = ok payload }
