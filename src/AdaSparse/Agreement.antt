-- ===== src/AdaSparse/Agreement.antt =====
-- The indices of a client as federatedscope/contrib/worker/methods/adasparse_lora_server.py and
-- adasparse_lora_client.py keep them, across uploads and broadcasts.
use Prim.Native.String.{String}
use fed_lo_ra_public.Prelude.{
  ℕ, Bool, true, false, ◌||◌, ◌≡◌, refl, ap, sym, List, [], ◌∷◌, ◌++◌, length, some, ◌==◌, nat_eq,
  string_eq, lookup-insert, Result, ok, raise, arith, Result-cases, inl, inr, ◌⊎◌, Exception,
  Distinct, beq_refl,
}
use mathlib.Core.Path.{subst}
use fed_lo_ra_public.Prelude.Floats.{FloatOps}
use fed_lo_ra_public.Hetero.Config.{module_ranks}
use fed_lo_ra_public.AdaSparse.Expand.{distribute_weights_by_indices}
use fed_lo_ra_public.AdaSparse.Client.{Client}
use fed_lo_ra_public.AdaSparse.Sorting.{IsAscending}
use fed_lo_ra_public.AdaSparse.RankUtils.{normalize_indices-IsAscending}
use fed_lo_ra_public.AdaSparse.Server.{
  Parts, Download, Server, three, set_indices, lora_only, filtered_base, payload_for, content_for,
  send_all, broadcast_method_model_para, parse_method_model_para_content,
  sync_adasparse_state_from_message,
}

-- The ids that messages were sent to.
abbrev pub receivers : {Row Other : Type 0} → List (ℕ × Download Row Other) → List ℕ
receivers [] = []
receivers ((id, payload) ∷ sent) = id ∷ receivers sent

module _ {Row Other : Type 0} (dist_key : String → ℕ → String) (max_rank : ℕ)
    (target_modules : List String) (server_state : Parts Row Other)
    (quantize dequantize : Parts Row Other → Parts Row Other) where
  -- One message to each receiver, or an exception at the first whose payload raises.
  abbrev pub IsBroadcast :
      Server Row Other → Bool → List ℕ → List (ℕ × Download Row Other) × Result Bool → Type 0
  IsBroadcast s is_model_para receiver result =
      ((result.1 ≡ ok true) × (receivers result.0 ≡ receiver))
      ⊎ ((e : Exception) × (id : ℕ) × (rest : List ℕ) × (result.1 ≡ raise e)
          × (receivers result.0 ++ (id ∷ rest) ≡ receiver)
          × (content_for dist_key max_rank target_modules server_state s is_model_para id
              ≡ raise e))

  send_all-IsBroadcast :
      (s : Server Row Other) (is_model_para : Bool) (receiver : List ℕ)
      → IsBroadcast s is_model_para receiver
          (send_all dist_key max_rank target_modules server_state quantize s is_model_para receiver)
  unfolding send_all
  send_all-IsBroadcast s is_model_para [] = inl (refl, refl)
  send_all-IsBroadcast s is_model_para (id ∷ receiver) =
      elim (Result-cases
        (content_for dist_key max_rank target_modules server_state s is_model_para id)) [
          | inr (e, bad) ↦ rw (send_all, bad) (inr (e, id, receiver, refl, refl, bad))
          | inl (payload, good) ↦ elim (send_all-IsBroadcast s is_model_para receiver) [
            | inl (done, same) ↦ rw (send_all, good) (inl (done, ap (λ ids. id ∷ ids) same))
            | inr (e, x, rest, failed, parts, bad) ↦
                rw (send_all, good) (inr (e, x, rest, failed, ap (λ ids. id ∷ ids) parts, bad))
          ]
        ]

  -- A broadcast sends one message to each receiver in their order, or raises at the first one whose
  -- payload raises, after the messages to those before it.
  pub broadcast_method_model_para_lem :
      (s : Server Row Other) (is_model_para is_evaluate : Bool) (receiver : List ℕ)
      → s.enabled ≡ true
      → is_model_para || is_evaluate ≡ true
      → IsBroadcast s is_model_para receiver (
          broadcast_method_model_para dist_key max_rank target_modules server_state quantize s
            is_model_para is_evaluate false receiver)
  unfolding broadcast_method_model_para
  broadcast_method_model_para_lem s is_model_para is_evaluate receiver on kind =
      let e : broadcast_method_model_para dist_key max_rank target_modules server_state quantize s
            is_model_para is_evaluate false receiver
          ≡ send_all dist_key max_rank target_modules server_state quantize s is_model_para
              receiver =
        ground (arith, on, kind) in
      subst (IsBroadcast s is_model_para receiver) (sym e)
        (send_all-IsBroadcast s is_model_para receiver)

  -- After an upload with indices that ascend without duplicates and are not empty, in a later round, a
  -- broadcast to the client sends it the tensors at these indices, its rank for every module and
  -- the indices, and its own indices after the synchronisation are those that it uploaded.
  pub upload-broadcast :
      {ops : FloatOps} {argsort : List (FloatOps.Float ops) → List ℕ} (s : Server Row Other)
      (c : Client ops Row Other argsort) (sender size : ℕ) (model : Parts Row Other) (g : ℕ)
      (gs : List ℕ) (weights : Parts Row Other)
      → s.enabled ≡ true
      → c.enabled ≡ true
      → (s.state == 0) ≡ false
      → IsAscending (g ∷ gs)
      → Distinct (g ∷ gs)
      → distribute_weights_by_indices dist_key (lora_only server_state) (g ∷ gs) max_rank
        ≡ ok weights
      → let s' =
          (parse_method_model_para_content dequantize sender (three size model (g ∷ gs)) s).0 in
        let payload : Download Row Other = record {
          model_para = quantize (filtered_base server_state ++ weights);
          client_rank_config = module_ranks target_modules (length (g ∷ gs));
          adasparse_indices = g ∷ gs;
        } in
        (broadcast_method_model_para dist_key max_rank target_modules server_state quantize s' true
            false false
            (sender ∷ [])
          ≡ ((sender, payload) ∷ [], ok true))
        × ((sync_adasparse_state_from_message c
              (some payload.client_rank_config)
              (some payload.adasparse_indices)).indices_current
            ≡ g ∷ gs)
  unfolding broadcast_method_model_para send_all content_for payload_for
      parse_method_model_para_content set_indices sync_adasparse_state_from_message
  upload-broadcast s c sender size model g gs weights on c_on later up distinct good =
      let normal = normalize_indices-IsAscending (g ∷ gs) up distinct in
      let stored = lookup-insert sender sender (g ∷ gs) s.client_indices in
      (ground (arith, on, later, good, stored, beq_refl sender), ground (arith, c_on, normal))
