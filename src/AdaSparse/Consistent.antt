-- ===== src/AdaSparse/Consistent.antt =====
-- The ranks and the indices that federatedscope/contrib/worker/methods/adasparse_lora_server.py keeps
-- of its clients.
use Prim.Native.String.{String}
use fed_lo_ra_public.Prelude.{
  ℕ, zero, suc, ◌+◌, ◌&&◌, ◌≡◌, refl, ap, sym, List, [], ◌∷◌, length, Option, none, some, leb,
  nat_eq, string_eq, lookup, insert, lookup-insert, lookup-nil, arith, Bool-cases, Option-cases,
  inl, inr,
}
use mathlib.Core.Path.{subst}
use fed_lo_ra_public.Hetero.Distribute.{RankConfig}
use fed_lo_ra_public.Hetero.Config.{ConfigKey}
use fed_lo_ra_public.AdaSparse.Client.{range_from}
use fed_lo_ra_public.AdaSparse.Server.{
  Parts, Server, Upload, three, plain, set_indices, init_clients, configured_id, configure_clients,
  init_adasparse_lora, parse_method_model_para_content,
}

-- The rank that indices stand for.
abbrev pub rank_of_indices : Option (List ℕ) → Option ℕ
rank_of_indices none = none
rank_of_indices (some indices) = some (length indices)

length-range_from : (a n : ℕ) → length (range_from a n) ≡ n
unfolding range_from
length-range_from a zero = refl
length-range_from a (suc n) = ap suc (length-range_from (a + 1) n)

module _ {Row Other : Type 0} where
  -- The rank of every client is the number of its indices.
  abbrev pub IsConsistent : Server Row Other → Type 0
  IsConsistent s =
      (id : ℕ) → lookup id s.client_ranks ≡ rank_of_indices (lookup id s.client_indices)

  insert-IsConsistent :
      (s : Server Row Other) (n r : ℕ) (indices : List ℕ)
      → length indices ≡ r
      → IsConsistent s
      → IsConsistent (record s {
        client_indices = insert n indices s.client_indices;
        client_ranks = insert n r s.client_ranks;
      })
  insert-IsConsistent s n r indices size h id = ground (
    arith,
    size,
    h id,
    lookup-insert n id r s.client_ranks,
    lookup-insert n id indices s.client_indices,
  )

  init_clients-IsConsistent :
      (init_rank first n : ℕ) (s : Server Row Other)
      → IsConsistent s
      → IsConsistent (init_clients init_rank first n s)
  unfolding init_clients
  init_clients-IsConsistent init_rank first zero s h = h
  init_clients-IsConsistent init_rank first (suc n) s h =
      init_clients-IsConsistent init_rank (suc first) n
        (record s {
          client_indices = insert first (range_from 0 init_rank) s.client_indices;
          client_ranks = insert first init_rank s.client_ranks;
        })
        (insert-IsConsistent s first init_rank (range_from 0 init_rank)
          (length-range_from 0 init_rank) h)

  -- One entry of config_local.
  configure-IsConsistent :
      (id_of_text : String → Option ℕ) (config_local : List (ConfigKey × RankConfig))
      (s : Server Row Other)
      → IsConsistent s
      → IsConsistent (configure_clients id_of_text config_local s)
  unfolding configure_clients
  configure-IsConsistent id_of_text [] s h = h
  configure-IsConsistent id_of_text ((key, []) ∷ config) s h =
      configure-IsConsistent id_of_text config s h
  configure-IsConsistent id_of_text ((key, (name, rank) ∷ ranks) ∷ config) s h =
      elim (Option-cases (configured_id id_of_text key)) [
        | inl absent ↦ rw (configure_clients, absent) (configure-IsConsistent id_of_text config s h)
        | inr (n, found) ↦
            let next : Server Row Other = record s {
              client_indices = insert n (range_from 0 rank) s.client_indices;
              client_ranks = insert n rank s.client_ranks;
            } in
            let set =
              insert-IsConsistent s n rank (range_from 0 rank) (length-range_from 0 rank) h in
            elim (Bool-cases (leb 1 n && leb n s.client_num)) [
              | inl inside ↦
                  rw (configure_clients, found, inside)
                    (configure-IsConsistent id_of_text config next set)
              | inr outside ↦
                  rw (configure_clients, found, outside)
                    (configure-IsConsistent id_of_text config s h)
            ]
      ]

  init-IsConsistent :
      (id_of_text : String → Option ℕ) (init_rank : ℕ) (config : List (ConfigKey × RankConfig))
      (s : Server Row Other)
      → IsConsistent (init_adasparse_lora id_of_text init_rank config s)
  unfolding init_adasparse_lora
  init-IsConsistent id_of_text init_rank config s =
      let empty : Server Row Other = record s { client_indices = []; client_ranks = [] } in
      let start : IsConsistent empty =
        λ id. ground (arith, lookup-nil {K = ℕ} {V = ℕ} id, lookup-nil {K = ℕ} {V = List ℕ} id) in
      let filled = init_clients init_rank 1 s.client_num empty in
      let done =
        configure-IsConsistent id_of_text config filled
          (init_clients-IsConsistent init_rank 1 s.client_num empty start) in
      elim (Bool-cases s.enabled) [
        | inl on ↦
            let e : init_adasparse_lora id_of_text init_rank config s
                ≡ configure_clients id_of_text config filled =
              ground (arith, on) in
            subst IsConsistent (sym e) done
        | inr off ↦
            let e : init_adasparse_lora id_of_text init_rank config s ≡ empty =
              ground (arith, off) in
            subst IsConsistent (sym e) start
      ]

  -- The uploads of clients, in their order.
  unfoldable pub receive_all :
      (Parts Row Other → Parts Row Other)
      → List (ℕ × Upload Row Other)
      → Server Row Other
      → Server Row Other
  receive_all dequantize [] s = s
  receive_all dequantize ((sender, upload) ∷ uploads) s =
      receive_all dequantize uploads (parse_method_model_para_content dequantize sender upload s).0

  receive_all-IsConsistent :
      (dequantize : Parts Row Other → Parts Row Other) (uploads : List (ℕ × Upload Row Other))
      (s : Server Row Other)
      → IsConsistent s
      → IsConsistent (receive_all dequantize uploads s)
  unfolding receive_all parse_method_model_para_content set_indices
  receive_all-IsConsistent dequantize [] s h = h
  receive_all-IsConsistent dequantize ((sender, plain) ∷ uploads) s h =
      receive_all-IsConsistent dequantize uploads s h
  receive_all-IsConsistent dequantize ((sender, three size model indices) ∷ uploads) s h =
      let after = parse_method_model_para_content dequantize sender (three size model indices) s in
      let kept : IsConsistent after.0 = elim (Bool-cases s.enabled) [
        | inl on ↦
            let e : after.0 ≡ set_indices sender indices s = ground (arith, on) in
            subst IsConsistent (sym e)
              (insert-IsConsistent s sender (length indices) indices refl h)
        | inr off ↦ let e : after.0 ≡ s = ground (arith, off) in subst IsConsistent (sym e) h
      ] in
      receive_all-IsConsistent dequantize uploads after.0 kept

  -- After the initialisation, with any configuration, and any uploads, the rank that the server keeps
  -- of a client is the number of the indices that it keeps of it.
  pub server-IsConsistent :
      (dequantize : Parts Row Other → Parts Row Other) (id_of_text : String → Option ℕ)
      (init_rank : ℕ) (config_local : List (ConfigKey × RankConfig))
      (uploads : List (ℕ × Upload Row Other)) (s : Server Row Other) (id : ℕ)
      → let s' =
          receive_all dequantize uploads
            (init_adasparse_lora id_of_text init_rank config_local s) in
        lookup id s'.client_ranks ≡ rank_of_indices (lookup id s'.client_indices)
  server-IsConsistent dequantize id_of_text init_rank config uploads s =
      receive_all-IsConsistent dequantize uploads
        (init_adasparse_lora id_of_text init_rank config s)
        (init-IsConsistent id_of_text init_rank config s)
