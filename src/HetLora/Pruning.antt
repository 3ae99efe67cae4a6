-- ===== src/HetLora/Pruning.antt =====
-- What the upload step of federatedscope/contrib/worker/methods/hetlora_client.py does to the rank
-- of a client, on each of its branches.
use fed_lo_ra_public.Prelude.{
  ℕ, Bool, true, ◌≡◌, refl, sym, List, [], ◌∷◌, ◌≤◌, ◌<◌, ◌⊎◌, inl, inr, ltb, Option, some, max,
  Result, ok, raise, arith, Bool-cases, Option-cases, Result-cases, Exception,
}
use mathlib.Core.Path.{subst}
use fed_lo_ra_public.HetLora.Client.{
  Client, Step, Payload, clamp, starting_rank, set_rank, prune, decide, target_of, finish,
  prune_and_send_rank, truncate_payload_to_rank,
}

-- What is sent of the rank `r'` after `r`: nothing, as it is the same, or the rank, or nothing as
-- the message failed.
abbrev pub IsSent : (ℕ → Result (Unit {0})) → ℕ → ℕ → List ℕ → Type 0
IsSent send r r' sent =
    ((r' ≡ r) × (sent ≡ []))
    ⊎ ((r' < r) × (sent ≡ r' ∷ []))
    ⊎ ((r' < r) × (sent ≡ []) × (e : Exception) × (send r' ≡ raise e))

module _ {Score : Type 0} where
  -- The settings are the same.
  abbrev pub SameConfig : Client Score → Client Score → Type 0
  SameConfig c d =
      (d.enabled ≡ c.enabled)
      × (d.pruning_enabled ≡ c.pruning_enabled)
      × (d.rank_min ≡ c.rank_min)
      × (d.rank_max ≡ c.rank_max)

  -- A step from the rank `r` that leaves a rank not above it, and an outcome that `Q` says.
  abbrev pub IsLowered :
      {A : Type 0}
      → (ℕ → Result (Unit {0}))
      → Client Score
      → ℕ
      → (ℕ → Result A → Type 0)
      → Step Score A
      → Type 0
  IsLowered send c r Q s =
      (r' : ℕ) × (s.client.current_rank ≡ some r')
      × (c.rank_min ≤ r')
      × (r' ≤ r)
      × SameConfig c s.client
      × IsSent send r r' s.sent
      × Q r' s.outcome

  clamp-fixed : (c : Client Score) (r : ℕ) → c.rank_min ≤ r → r ≤ c.rank_max → clamp c r ≡ r
  unfolding clamp
  clamp-fixed c r low high = omega (arith, low, high)

  module _ (lt : Score → Score → Bool) (decay : ℕ → ℕ) (tail_score : Option ℕ → Result Score)
      (send : ℕ → Result (Unit {0})) where
    -- The exceptions that a step from the rank `r` to `r'` may end with.
    abbrev pub IsFailure : ℕ → ℕ → Exception → Type 0
    IsFailure r r' e = (tail_score (some r) ≡ raise e) ⊎ (send r' ≡ raise e)

    abbrev IsDecided : ℕ → ℕ → Result (Unit {0}) → Type 0
    IsDecided r r' out = (out ≡ ok tt) ⊎ ((e : Exception) × (out ≡ raise e) × IsFailure r r' e)

    -- The payload is cut to the new rank, or returned as it came after an exception.
    abbrev pub IsUploaded :
        {Row Other : Type 0} → Payload Row Other → ℕ → ℕ → Result (Payload Row Other) → Type 0
    IsUploaded payload r r' out =
        (out ≡ ok (truncate_payload_to_rank r' payload))
        ⊎ ((out ≡ ok payload) × (e : Exception) × IsFailure r r' e)

    prune-IsLowered :
        (c : Client Score) (r : ℕ)
        → c.current_rank ≡ some r
        → c.rank_min ≤ r
        → IsLowered send c r (IsDecided r) (prune lt decay tail_score send c r)
    unfolding prune set_rank
    prune-IsLowered c r at low =
        let new = max c.rank_min (decay r) in
        elim (Bool-cases (ltb new r)) [
          | inl below ↦ elim (Result-cases (send new)) [
            | inl (u, good) ↦
                rw (prune, below, good)
                  (
                    new,
                    refl,
                    omega arith,
                    ground arith,
                    (refl, refl, refl, refl),
                    inr (inl (ground arith, refl)),
                    inl refl,
                  )
            | inr (e, bad) ↦
                rw (prune, below, bad)
                  (
                    new,
                    refl,
                    omega arith,
                    ground arith,
                    (refl, refl, refl, refl),
                    inr (inr (ground arith, refl, e, bad)),
                    inr (e, refl, inr bad),
                  )
          ]
          | inr above ↦
              rw (prune, above)
                (r, at, low, omega arith, (refl, refl, refl, refl), inl (refl, refl), inl refl)
        ]

    decide-cases :
        (c : Client Score) (r : ℕ)
        → (decide lt decay tail_score send c r ≡ prune lt decay tail_score send c r)
          ⊎ ((out : Result (Unit {0})) × IsDecided r r out
              × (decide lt decay tail_score send c r
                  ≡ record { client = c; sent = []; outcome = out }))
    unfolding decide
    decide-cases c r = elim (Bool-cases c.pruning_enabled) [
      | inr off ↦ inr (ok tt, inl refl, ground (arith, off))
      | inl on ↦ elim (Option-cases c.tail_score_before) [
        | inl unknown ↦ inr (ok tt, inl refl, ground (arith, on, unknown))
        | inr (before, known) ↦ elim (Result-cases (tail_score (some r))) [
          | inr (e, bad) ↦ inr (raise e, inr (e, refl, inl bad), ground (arith, on, known, bad))
          | inl (after, good) ↦ elim (Bool-cases (lt after before)) [
            | inl less ↦ inl (ground (arith, on, known, good, less))
            | inr more ↦ inr (ok tt, inl refl, ground (arith, on, known, good, more))
          ]
        ]
      ]
    ]

    decide-IsLowered :
        (c : Client Score) (r : ℕ)
        → c.current_rank ≡ some r
        → c.rank_min ≤ r
        → IsLowered send c r (IsDecided r) (decide lt decay tail_score send c r)
    decide-IsLowered c r at low = elim (decide-cases c r) [
      | inl e ↦ subst (IsLowered send c r (IsDecided r)) (sym e) (prune-IsLowered c r at low)
      | inr (out, why, e) ↦
          subst (IsLowered send c r (IsDecided r)) (sym e)
            (r, at, low, omega arith, (refl, refl, refl, refl), inl (refl, refl), why)
    ]

    finish-IsLowered :
        {Row Other : Type 0} (c : Client Score) (r : ℕ) (s : Step Score (Unit {0}))
        (payload : Payload Row Other)
        → r ≤ c.rank_max
        → IsLowered send c r (IsDecided r) s
        → IsLowered send c r (IsUploaded payload r) (finish lt decay tail_score send s r payload)
    unfolding finish set_rank target_of
    finish-IsLowered c r s payload high (r', at, low, le, same, sent, inr (e, out, why)) =
        let e' : finish lt decay tail_score send s r payload
            ≡ record { client = s.client; sent = s.sent; outcome = ok payload } =
          ground (arith, out) in
        subst (IsLowered send c r (IsUploaded payload r)) (sym e')
          (r', at, low, le, same, sent, inr (refl, e, why))
    finish-IsLowered c r s payload high (r', at, low, le, same, sent, inl out) =
        let target : target_of lt decay tail_score send s.client r ≡ r' =
          let low' : s.client.rank_min ≤ r' = omega (arith, same, low) in
          let high' : r' ≤ s.client.rank_max = omega (arith, same, le, high) in
          ground (arith, at, clamp-fixed s.client r' low' high') in
        let e' : finish lt decay tail_score send s r payload ≡ record {
          client = set_rank r' s.client;
          sent = s.sent;
          outcome = ok (truncate_payload_to_rank r' payload);
        } =
          ground (arith, out, target) in
        subst (IsLowered send c r (IsUploaded payload r)) (sym e')
          (r', refl, low, le, same, sent, inl refl)

    pub prune_and_send_rank_lem :
        {Row Other : Type 0} (c : Client Score) (payload : Payload Row Other) (r : ℕ)
        → c.enabled ≡ true
        → c.current_rank ≡ some r
        → c.rank_min ≤ r
        → r ≤ c.rank_max
        → IsLowered send c r
            (IsUploaded payload r)
            (prune_and_send_rank lt decay tail_score send c payload)
    unfolding prune_and_send_rank starting_rank
    prune_and_send_rank_lem c payload r on at low high =
        let c' : Client Score = record c { model_rank = some r } in
        let done =
          finish-IsLowered c r (decide lt decay tail_score send c' r) payload high
            (decide-IsLowered c' r at low) in
        let e : prune_and_send_rank lt decay tail_score send c payload
            ≡ finish lt decay tail_score send (decide lt decay tail_score send c' r) r payload =
          ground (arith, on, at, clamp-fixed c r low high) in
        subst (IsLowered send c r (IsUploaded payload r)) (sym e) done
