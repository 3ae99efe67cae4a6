-- ===== src/HetLora/Ranks.antt =====
-- The rank of a client of HetLoRA and the server's record of it, over the rounds: the client of
-- federatedscope/contrib/worker/methods/hetlora_client.py and the handler of its messages in
-- federatedscope/contrib/worker/methods/hetlora_server.py.
use mathlib.Core.Path.{subst}
use fed_lo_ra_public.Prelude.{
  ℕ, Bool, true, false, ◌≡◌, refl, sym, ◌∙◌, List, [], ◌∷◌, ◌≤◌, ◌⊎◌, inl, inr, Option, some, min,
  max, Result, ok, raise, arith, Bool-cases, Result-cases, Exception, nat_eq, lookup, insert, All,
  lookup-insert, beq_refl,
}
use fed_lo_ra_public.HetLora.Client.{
  Client, Step, Payload, record_tail_score_before, prune_and_send_rank,
}
use fed_lo_ra_public.HetLora.Server.{Server, rank, callback_funcs_for_hetlora_rank}
use fed_lo_ra_public.HetLora.Pruning.{SameConfig, IsSent, prune_and_send_rank_lem}

-- A round of training: the scores before it and after it, what sending a rank returns or raises, and
-- what is to be uploaded.
pub record Training (Score Row Other : Type 0) : Type 0 where
  pub before : Option ℕ → Result Score
  pub after : Option ℕ → Result Score
  pub send : ℕ → Result (Unit {0})
  pub payload : Payload Row Other

-- The messages of a client reach the server in their order.
unfoldable pub deliver : ℕ → List ℕ → Server → Server
deliver sender [] s = s
deliver sender (r ∷ sent) s =
    deliver sender sent (callback_funcs_for_hetlora_rank sender (rank r) s).0

module _ {Score Row Other : Type 0} (lt : Score → Score → Bool) (decay : ℕ → ℕ) (sender : ℕ) where
  abbrev train : Training Score Row Other → Client Score → Step Score (Payload Row Other)
  train t c =
      prune_and_send_rank lt decay t.after t.send (record_tail_score_before t.before c) t.payload

  unfoldable pub run :
      List (Training Score Row Other) → Client Score → Server → Client Score × Server
  run [] c s = (c, s)
  run (t ∷ ts) c s = run ts (train t c).client (deliver sender (train t c).sent s)

-- The client is in its bounds, which are the server's, and the server's record is not below it.
abbrev pub IsTracked : {Score : Type 0} → ℕ → Client Score → Server → ℕ → ℕ → Type 0
IsTracked sender c s r q =
    (c.enabled ≡ true)
    × (s.enabled ≡ true)
    × (s.fah_enabled ≡ false)
    × (s.rank_min ≡ c.rank_min)
    × (s.rank_max ≡ c.rank_max)
    × (c.current_rank ≡ some r)
    × (lookup sender s.client_ranks ≡ some q)
    × (c.rank_min ≤ r)
    × (r ≤ q)
    × (q ≤ c.rank_max)

deliver-rank :
    (sender r : ℕ) (s : Server)
    → s.enabled ≡ true
    → s.fah_enabled ≡ false
    → s.rank_min ≤ r
    → r ≤ s.rank_max
    → let s' = deliver sender (r ∷ []) s in
      (s'.enabled ≡ true)
      × (s'.fah_enabled ≡ false)
      × (s'.rank_min ≡ s.rank_min)
      × (s'.rank_max ≡ s.rank_max)
      × (lookup sender s'.client_ranks ≡ some r)
unfolding deliver callback_funcs_for_hetlora_rank
deliver-rank sender r s on off low high =
    let same : max s.rank_min (min s.rank_max r) ≡ r = omega (arith, low, high) in
    let e : deliver sender (r ∷ []) s ≡ record s { client_ranks = insert sender r s.client_ranks } =
      ground (arith, on, off, same) in
    let found : lookup sender (insert sender r s.client_ranks) ≡ some r =
      ground (arith, lookup-insert sender sender r s.client_ranks, beq_refl sender) in
    rw e (on, off, refl, refl, found)

record_tail_score_before-rank :
    {Score : Type 0} (tail_score : Option ℕ → Result Score) (c : Client Score)
    → let c' = record_tail_score_before tail_score c in
      (c'.current_rank ≡ c.current_rank) × SameConfig c c'
unfolding record_tail_score_before
record_tail_score_before-rank tail_score c = elim (Bool-cases c.enabled) [
  | inr off ↦ ground (arith, off)
  | inl on ↦ elim (Bool-cases c.pruning_enabled) [
    | inr off ↦ ground (arith, on, off)
    | inl pruning ↦ elim (Result-cases (tail_score c.current_rank)) [
      | inl (score, good) ↦ ground (arith, on, pruning, good)
      | inr (e, bad) ↦ ground (arith, on, pruning, bad)
    ]
  ]
]

-- What the delivery of a round's messages keeps, from the client `c` to `d`.
deliver-IsTracked :
    {Score : Type 0} (sender : ℕ) (send : ℕ → Result (Unit {0})) (c d : Client Score) (s : Server)
    (r q r' : ℕ) (sent : List ℕ)
    → IsTracked sender c s r q
    → SameConfig c d
    → d.current_rank ≡ some r'
    → c.rank_min ≤ r'
    → r' ≤ r
    → IsSent send r r' sent
    → (q' : ℕ) × IsTracked sender d (deliver sender sent s) r' q'
      × ((q' ≡ r') ⊎ ((r' ≡ r) × (q' ≡ q)) ⊎ (e : Exception) × (send r' ≡ raise e))
unfolding deliver
deliver-IsTracked sender send c d s r q r' sent
      (on, server_on, off, min_e, max_e, at, known, low, le, high) (on', _, min_d, max_d) now low'
      le' (inr (inl (less, e))) =
    let low_s : s.rank_min ≤ r' = omega (arith, min_e, low') in
    let high_s : r' ≤ s.rank_max = omega (arith, max_e, le', le, high) in
    let (s_on, s_off, s_min, s_max, found) = deliver-rank sender r' s server_on off low_s high_s in
    rw e (
      r',
      (
        on' ∙ on,
        s_on,
        s_off,
        s_min ∙ min_e ∙ sym min_d,
        s_max ∙ max_e ∙ sym max_d,
        now,
        found,
        omega (arith, min_d, low'),
        omega arith,
        omega (arith, max_d, le', le, high),
      ),
      inl refl,
    )
deliver-IsTracked sender send c d s r q r' sent
      (on, server_on, off, min_e, max_e, at, known, low, le, high) (on', _, min_d, max_d) now low'
      le' (inl (same, e)) =
    rw e (
      q,
      (
        on' ∙ on,
        server_on,
        off,
        min_e ∙ sym min_d,
        max_e ∙ sym max_d,
        now,
        known,
        omega (arith, min_d, low'),
        omega (arith, le', le),
        omega (arith, max_d, high),
      ),
      inr (inl (same, refl)),
    )
deliver-IsTracked sender send c d s r q r' sent
      (on, server_on, off, min_e, max_e, at, known, low, le, high) (on', _, min_d, max_d) now low'
      le' (inr (inr (less, e, x, failed))) =
    rw e (
      q,
      (
        on' ∙ on,
        server_on,
        off,
        min_e ∙ sym min_d,
        max_e ∙ sym max_d,
        now,
        known,
        omega (arith, min_d, low'),
        omega (arith, le', le),
        omega (arith, max_d, high),
      ),
      inr (inr (x, failed)),
    )

module _ {Score Row Other : Type 0} (lt : Score → Score → Bool) (decay : ℕ → ℕ) (sender : ℕ) where
  -- After a round the record is the new rank, or nothing changed, or the message failed.
  step-IsTracked :
      (t : Training Score Row Other) (c : Client Score) (s : Server) (r q : ℕ)
      → IsTracked sender c s r q
      → let step = train lt decay sender t c in
        (r' : ℕ) × (r' ≤ r)
        × (q' : ℕ) × IsTracked sender step.client (deliver sender step.sent s) r' q'
        × ((q' ≡ r') ⊎ ((r' ≡ r) × (q' ≡ q)) ⊎ (e : Exception) × (t.send r' ≡ raise e))
  unfolding deliver
  step-IsTracked t c s r q (on, server_on, off, min_e, max_e, at, known, low, le, high) =
      let (at', same) = record_tail_score_before-rank t.before c in
      let c' = record_tail_score_before t.before c in
      let (r', now, low', le', same', sent, done) =
        prune_and_send_rank_lem lt decay t.after t.send c' t.payload r (same.0 ∙ on) (at' ∙ at)
          (omega (arith, same, low)) (omega (arith, same, le, high)) in
      let step = train lt decay sender t c in
      let kept : SameConfig c step.client =
        (same'.0 ∙ same.0, same'.1 ∙ same.1, same'.2 ∙ same.2, same'.3 ∙ same.3) in
      let (q', h, why) =
        deliver-IsTracked sender t.send c step.client s r q r' step.sent
          (on, server_on, off, min_e, max_e, at, known, low, le, high) kept now
          (omega (arith, same, low')) le' sent in
      (r', le', q', h, why)

  -- Over any rounds of training, on every branch of the upload, exceptions included: the client's rank
  -- never rises and stays in its bounds, and the server's record of it stays in them and never falls
  -- below it, if this holds at first, both have the same bounds and FAH is off.
  pub run-IsTracked :
      (ts : List (Training Score Row Other)) (c : Client Score) (s : Server) (r q : ℕ)
      → IsTracked sender c s r q
      → let (c', s') = run lt decay sender ts c s in
        (r' : ℕ) × (r' ≤ r) × (q' : ℕ) × IsTracked sender c' s' r' q'
  unfolding run
  run-IsTracked [] c s r q h = (r, omega arith, q, h)
  run-IsTracked (t ∷ ts) c s r q h =
      let step = train lt decay sender t c in
      let (r', le, q', h', _) = step-IsTracked t c s r q h in
      let (r'', le', q'', rest) =
        run-IsTracked ts step.client (deliver sender step.sent s) r' q' h' in
      (r'', omega (arith, le, le'), q'', rest)

  -- When no message of the clients fails, the server's record is the client's rank after any rounds,
  -- if it is at first, both have the same bounds and FAH is off.
  pub run-agree :
      (ts : List (Training Score Row Other)) (c : Client Score) (s : Server) (r : ℕ)
      → IsTracked sender c s r r
      → All (λ (t : Training Score Row Other). (n : ℕ) → t.send n ≡ ok tt) ts
      → let (c', s') = run lt decay sender ts c s in
        (r' : ℕ) × (c'.current_rank ≡ some r') × (lookup sender s'.client_ranks ≡ some r')
  unfolding run
  run-agree [] c s r h sends = (r, h.5, h.6)
  run-agree (t ∷ ts) c s r h sends =
      let step = train lt decay sender t c in
      let s' = deliver sender step.sent s in
      let (r', le, q', h', why) = step-IsTracked t c s r r h in
      let e : q' ≡ r' = elim why [
        | inl e ↦ e
        | inr (inl (same, kept)) ↦ kept ∙ sym same
        | inr (inr (x, failed)) ↦ absurd (ground (arith, failed, sends.0 r'))
      ] in
      run-agree ts step.client s' r' (subst (IsTracked sender step.client s' r') e h') sends.1
