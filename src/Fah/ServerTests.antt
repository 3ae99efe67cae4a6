-- ===== src/Fah/ServerTests.antt =====
-- The rounds of federatedscope/contrib/worker/methods/fah_qlora_server.py for two clients, with natural
-- numbers for the floats.
use fed_lo_ra_public.Prelude.{
  ok, ℕ, ◌+◌, ◌-◌, ◌*◌, ◌/◌, ◌≡◌, refl, true, List, [], ◌∷◌, ◌++◌, sum, arith, ltb, Option, none,
  some, Dict, nat_eq, lookup, lookup_or, inl, inr,
}
use fed_lo_ra_public.Prelude.Floats.{FloatOps}
use fed_lo_ra_public.Fah.Server.{FahConfig, FahServer, Stats, get_runtime_config_local, init_fah}
use fed_lo_ra_public.Fah.Process.{Env, process_fah_round, callback_funcs_for_fah_stats}
use fed_lo_ra_public.Fah.Runtime.{IsRankedAt}
use fed_lo_ra_public.Fah.Serving.{Report, run_reports, get_runtime_config_local_lem}
use fed_lo_ra_public.Fah.Collected.{gather, holding, callback_funcs_for_fah_stats_lem}

abbrev naturals : FloatOps
naturals = record {
  Float = ℕ;
  of_nat = λ n. n;
  add = λ a b. a + b;
  sub = λ a b. a - b;
  mul = λ a b. a * b;
  div = λ a b. a / b;
  lt = ltb;
  round_nat = λ n. n;
}

abbrev positions : ℕ → List ℕ → List ℕ
positions i [] = []
positions i (x ∷ xs) = i ∷ positions (i + 1) xs

abbrev fah_cfg : FahConfig naturals
fah_cfg = record {
  client_num = 2;
  init_rank = 8;
  r_min = 2;
  r_max = 16;
  lambda_dec = 1;
  lambda_inc = 1;
  warmup_rounds = 1;
  alpha_fraction = 0;
  client_rank_caps = (2, 6) ∷ [];
  target_modules = "q_proj" ∷ "v_proj" ∷ [];
  meta = ("alpha", 16) ∷ [];
}

abbrev link : ℕ → Option ℕ → Option (ℕ × ℕ)
link id round_idx = some (100, 200)

abbrev fah_env : Env naturals
fah_env = record {
  mean = sum;
  truthy = λ x. ltb 0 x;
  eps = 0;
  argsort = positions 0;
  solver = λ s r. none;
  lora_size = some (ok (1000, 100));
  bandwidth = some link;
}

abbrev before : FahServer naturals
before = record {
  enabled = true;
  scheduler = none;
  stats_buffer = [];
  global_loss_history = [];
  rank_history = [];
  client_ranks = [];
  warmup_times = [];
  round_config_local = record { meta = []; clients = [] };
}

abbrev fah_server : FahServer naturals
fah_server = init_fah naturals fah_cfg true before

abbrev measured_stats : ℕ → Stats naturals
measured_stats t = record { f_n = some 7; f_hat_n = some 8; training_time = some t }

abbrev report : ℕ → ℕ → Report naturals fah_cfg
report round_idx sender = record {
  env = fah_env;
  expected = 2;
  round_idx = round_idx;
  sender = sender;
  content = measured_stats (5 * sender);
}

abbrev reports_of_two_rounds : List (Report naturals fah_cfg)
reports_of_two_rounds = report 0 1 ∷ report 0 2 ∷ report 1 2 ∷ report 1 1 ∷ []

get_runtime_config_local_lem_example :
    IsRankedAt naturals fah_cfg
      (get_runtime_config_local naturals fah_cfg
        (run_reports naturals fah_cfg reports_of_two_rounds fah_server)
        2)
      2
get_runtime_config_local_lem_example =
    get_runtime_config_local_lem naturals fah_cfg before reports_of_two_rounds 2 2 (omega arith)
      (omega arith) (omega arith)

enabled_at_first : fah_server.enabled ≡ true
unfolding init_fah
enabled_at_first = refl

empty_at_first : lookup_or [] 0 fah_server.stats_buffer ≡ []
unfolding init_fah lookup
empty_at_first = refl

abbrev first_stats : Dict ℕ (Stats naturals)
first_stats = (1, measured_stats 5) ∷ []

callback_funcs_for_fah_stats_lem_example :
    (gather naturals fah_cfg fah_env 2 0 first_stats fah_server ≡ record fah_server {
      stats_buffer = (gather naturals fah_cfg fah_env 2 0 first_stats fah_server).stats_buffer;
    })
    × (callback_funcs_for_fah_stats naturals fah_cfg fah_env 2 0 2
          (measured_stats 10)
          (gather naturals fah_cfg fah_env 2 0 first_stats fah_server)
        ≡ process_fah_round naturals fah_cfg fah_env 0 (
            holding naturals fah_cfg fah_env 2 0
              (first_stats ++ ((2, measured_stats 10) ∷ []))
              fah_server))
callback_funcs_for_fah_stats_lem_example =
    callback_funcs_for_fah_stats_lem naturals fah_cfg fah_env 2 0 first_stats 2 (measured_stats 10)
      fah_server enabled_at_first empty_at_first
      ((λ m. m), ((λ m. elim m [ inl e ↦ ground (arith, e) | inr t ↦ t ]), tt)) (omega arith)
