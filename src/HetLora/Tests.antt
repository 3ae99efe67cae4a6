-- ===== src/HetLora/Tests.antt =====
-- Runs of the code of HetLora at concrete inputs, and the theorems at them.
use fed_lo_ra_public.Prelude.{
  ℕ, ◌*◌, ◌/◌, ◌≡◌, refl, [], ◌∷◌, ◌++◌, true, false, Option, none, some, Result, ok, raise,
  runtime_error, ltb, lookup, nat_eq, string_eq, ◌≤◌, arith,
}
use fed_lo_ra_public.AdaSparse.Indices.{lora_a, other}
use fed_lo_ra_public.HetLora.Restriction.{freeze}
use fed_lo_ra_public.HetLora.Rounds.{
  Round, row_of, trained_in, run_rounds, expected_row, last_global, IsRound,
}
use fed_lo_ra_public.HetLora.Inactive.{run_rounds_lem}
use fed_lo_ra_public.HetLora.Client.{Client, Payload, single}
use fed_lo_ra_public.HetLora.Server.{Server}
use fed_lo_ra_public.HetLora.Ranks.{Training, IsTracked, run, run-IsTracked, run-agree}

abbrev zero_row : ℕ → ℕ
zero_row x = 0

-- Two components are federated, then one, and nothing is trained.
abbrev first_round : Round ℕ
first_round = record { rank = 2; download = ("w", 1 ∷ 2 ∷ []) ∷ []; steps = (λ p. p) ∷ [] }

abbrev second_round : Round ℕ
second_round = record { rank = 1; download = ("w", 3 ∷ 4 ∷ []) ∷ []; steps = (λ p. p) ∷ [] }

first-IsRound : IsRound "w" 2 first_round
unfolding lookup
first-IsRound = (((λ m. m), tt), (1 ∷ 2 ∷ [], refl, refl), ((λ p h. h), tt))

second-IsRound : IsRound "w" 2 second_round
unfolding lookup
second-IsRound = (((λ m. m), tt), (3 ∷ 4 ∷ [], refl, refl), ((λ p h. h), tt))

run_rounds_lem_example :
    row_of "w" 1 (run_rounds zero_row freeze (first_round ∷ []) second_round)
    ≡ expected_row zero_row freeze 1 1
        (last_global "w" 1 none ((first_round ∷ []) ++ (second_round ∷ [])))
        (row_of "w" 1 (trained_in zero_row freeze (first_round ∷ []) second_round))
run_rounds_lem_example =
    run_rounds_lem zero_row freeze "w" 2 1 (first_round ∷ []) second_round (first-IsRound, tt)
      second-IsRound

frozen_row : last_global "w" 1 none (first_round ∷ second_round ∷ []) ≡ some 2
unfolding last_global row_of lookup
frozen_row = refl

abbrev client : Client ℕ
client = record {
  enabled = true;
  pruning_enabled = true;
  rank_min = 2;
  rank_max = 64;
  init_rank = 64;
  current_rank = some 10;
  tail_score_before = some 5;
  model_rank = none;
}

abbrev server : Server
server = record {
  enabled = true;
  fah_enabled = false;
  rank_min = 2;
  rank_max = 64;
  init_rank = 64;
  client_ranks = (1, 10) ∷ [];
}

abbrev decay : ℕ → ℕ
decay r = r * 9 / 10

abbrev score : ℕ → Option ℕ → Result ℕ
score s r = ok s

abbrev sends : ℕ → Result (Unit {0})
sends r = ok tt

abbrev fails : ℕ → Result (Unit {0})
fails r = raise runtime_error

abbrev payload : Payload ℕ ℕ
payload = single (("q.lora_A", lora_a (1 ∷ 2 ∷ 3 ∷ [])) ∷ ("head", other 7) ∷ [])

-- A round whose message fails, and one whose message arrives.
abbrev lost_round : Training ℕ ℕ ℕ
lost_round = record { before = score 5; after = score 3; send = fails; payload = payload }

abbrev good_round : Training ℕ ℕ ℕ
good_round = record { before = score 5; after = score 3; send = sends; payload = payload }

tracked : IsTracked 1 client server 10 10
unfolding lookup
tracked = (refl, refl, refl, refl, refl, refl, refl, omega arith, omega arith, omega arith)

run-IsTracked_example :
    let (c', s') = run ltb decay 1 (lost_round ∷ good_round ∷ []) client server in
    (r' : ℕ) × (r' ≤ 10) × (q' : ℕ) × IsTracked 1 c' s' r' q'
run-IsTracked_example =
    run-IsTracked ltb decay 1 (lost_round ∷ good_round ∷ []) client server 10 10 tracked

run-agree_example :
    let (c', s') = run ltb decay 1 (good_round ∷ good_round ∷ []) client server in
    (r' : ℕ) × (c'.current_rank ≡ some r') × (lookup 1 s'.client_ranks ≡ some r')
run-agree_example =
    run-agree ltb decay 1 (good_round ∷ good_round ∷ []) client server 10 tracked
      ((λ n. refl), ((λ n. refl), tt))
