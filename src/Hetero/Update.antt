-- ===== src/Hetero/Update.antt =====
-- What an update of config_local by federatedscope/contrib/worker/methods/heterolora_server.py leaves a
-- client with, when the key is looked up by federatedscope/contrib/common/rank_utils.py.
use Prim.Native.String.{String}
use fed_lo_ra_public.Prelude.{
  ℕ, suc, Bool, true, false, ◌≡◌, ◌≢◌, refl, sym, ◌∙◌, List, [], ◌∷◌, some, ◌==◌, ==_iff, Dict,
  keys, nat_eq, string_eq, has_key, lookup, insert, lookup-insert, lookup-nil, beq_refl, Elem,
  Distinct, All, inl, inr, arith, Bool-cases,
}
use fed_lo_ra_public.Hetero.Distribute.{RankConfig}
use fed_lo_ra_public.Hetero.Config.{
  ConfigKey, client, config_key_eq, first_key, resolve_client_key, module_ranks, update_key,
  kept_entries, write_ranks, update_hetero_ranks_config,
}

-- Each client is written under its own id.
abbrev pub OwnKeys : {V : Type 0} → Dict ConfigKey V → List ℕ → Type 0
OwnKeys current ids = All (λ (n : ℕ). update_key current n ≡ client n) ids

resolve-own :
    {V : Type 0} (config : Dict ConfigKey V) (n : ℕ) (v : V)
    → lookup (client n) config ≡ some v
    → resolve_client_key config n ≡ some (client n)
unfolding resolve_client_key first_key
resolve-own {V} [] n v found =
    absurd (ground (arith, found, lookup-nil {K = ConfigKey} {V = V} (client n)))
resolve-own (entry ∷ rest) n v found = ground (arith, found)

write_ranks-other :
    (modules : List String) (current : Dict ConfigKey RankConfig) (ranks : Dict ℕ ℕ)
    (updated : Dict ConfigKey RankConfig) (n : ℕ)
    → OwnKeys current (keys ranks)
    → (Elem n (keys ranks) → ⊥)
    → lookup (client n) (write_ranks modules current ranks updated) ≡ lookup (client n) updated
unfolding write_ranks
write_ranks-other modules current [] updated n own absent = refl
write_ranks-other modules current ((m, r) ∷ ranks) updated n own absent =
    let key = update_key current m in
    let next = insert key (module_ranks modules r) updated in
    let differ : key ≢ client n =
      λ e. absent (inl (let same : client m ≡ client n = sym own.0 ∙ e in ground (arith, same))) in
    write_ranks-other modules current ranks next n own.1 (λ m'. absent (inr m'))
    ∙ ground (
      arith,
      lookup-insert key (client n) (module_ranks modules r) updated,
      config_key_eq.beq_iff key (client n),
      differ,
    )

write_ranks-own :
    (modules : List String) (current : Dict ConfigKey RankConfig) (ranks : Dict ℕ ℕ)
    (updated : Dict ConfigKey RankConfig) (n r : ℕ)
    → OwnKeys current (keys ranks)
    → Distinct (keys ranks)
    → lookup n ranks ≡ some r
    → lookup (client n) (write_ranks modules current ranks updated) ≡ some (module_ranks modules r)
unfolding write_ranks lookup
write_ranks-own modules current [] updated n r own distinct found = absurd (ground (arith, found))
write_ranks-own modules current ((m, s) ∷ ranks) updated n r own distinct found =
    let key = update_key current m in
    let next = insert key (module_ranks modules s) updated in
    elim (Bool-cases (m == n)) [
      | inr differ ↦
          write_ranks-own modules current ranks next n r own.1 distinct.1
            (ground (arith, found, differ))
      | inl same ↦
          let id : m ≡ n = (==_iff m n).0 same in
          let rank : s ≡ r = ground (arith, found, same) in
          let kept = write_ranks-other modules current ranks next m own.1 distinct.0 in
          let new = lookup-insert key (client m) (module_ranks modules s) updated in
          let here : key ≡ client m = own.0 in
          rw (← id, ← rank) (kept ∙ ground (arith, new, here, beq_refl (client m)))
    ]

-- When the keys of the configuration that stand for the clients are their own ids, every client
-- resolves to its own entry after an update, and the entry has its rank for every target module.
pub update_hetero_ranks_config_lem :
    (mentions_client : String → Bool) (modules : List String) (current : Dict ConfigKey RankConfig)
    (ranks : Dict ℕ ℕ) (n r : ℕ)
    → OwnKeys current (keys ranks)
    → Distinct (keys ranks)
    → lookup n ranks ≡ some r
    → let config = update_hetero_ranks_config mentions_client modules current ranks in
      (resolve_client_key config n ≡ some (client n))
      × (lookup (client n) config ≡ some (module_ranks modules r))
unfolding update_hetero_ranks_config
update_hetero_ranks_config_lem mentions_client modules current ranks n r own distinct found =
    let config = update_hetero_ranks_config mentions_client modules current ranks in
    let entry =
      write_ranks-own modules current ranks (kept_entries mentions_client current) n r own distinct
        found in
    (resolve-own config n (module_ranks modules r) entry, entry)

-- With keys that count the clients from 0, the last client has no key of its own: it is read from
-- and written to the key of the client before it.
pub shared_key :
    {V : Type 0} (current : Dict ConfigKey V) (n : ℕ)
    → has_key (client n) current ≡ true
    → has_key (client (suc n)) current ≡ false
    → (update_key current (suc n) ≡ update_key current n)
      × (resolve_client_key current (suc n) ≡ resolve_client_key current n)
unfolding update_key resolve_client_key first_key lookup
shared_key [] n here none_after = absurd (ground (arith, here))
shared_key (entry ∷ rest) n here none_after = ground (arith, here, none_after)
