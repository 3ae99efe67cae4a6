-- ===== src/Fah/Collected.antt =====
-- The collection of the statistics of a round by the handler of federatedscope/core/workers/server.py.
use fed_lo_ra_public.Prelude.{
  ℕ, ◌+◌, ◌≡◌, ◌≢◌, ◌<◌, ◌≤◌, ok, refl, sym, ap, ◌∙◌, Bool, true, false, [], ◌∷◌, ◌++◌, length,
  length-append, Result, leb, if◌then◌else◌, Dict, nat_eq, keys, lookup_or, lookup-insert, insert,
  beq_refl, arith, inl, inr, Elem,
}
use mathlib.Core.List.{append_assoc}
use mathlib.Core.Path.{subst}
use fed_lo_ra_public.Prelude.Floats.{FloatOps}
use fed_lo_ra_public.Fah.Server.{FahConfig, FahServer, Stats}
use fed_lo_ra_public.Fah.Process.{Env, process_fah_round, callback_funcs_for_fah_stats}

if_true {ℓ} : {A : Type ℓ} (b : Bool) (x y : A) → b ≡ true → (if b then x else y) ≡ x
if_true true x y on = refl
if_true false x y on = cc

if_false {ℓ} : {A : Type ℓ} (b : Bool) (x y : A) → b ≡ false → (if b then x else y) ≡ y
if_false true x y off = cc
if_false false x y off = refl

module _ {V : Type 0} where
  insert-new :
      (k : ℕ) (v : V) (d : Dict ℕ V) → (Elem k (keys d) → ⊥) → insert k v d ≡ d ++ ((k, v) ∷ [])
  unfolding insert
  insert-new k v [] absent = refl
  insert-new k v ((j, w) ∷ d) absent =
      let differ : j ≢ k = λ e. absent (inl (sym e)) in
      ground (arith, differ, insert-new k v d (λ m. absent (inr m)))

  insert-insert : (k : ℕ) (v w : V) (d : Dict ℕ V) → insert k v (insert k w d) ≡ insert k v d
  unfolding insert
  insert-insert k v w [] = ground (arith, beq_refl k)
  insert-insert k v w ((j, u) ∷ d) = ground (arith, beq_refl k, insert-insert k v w d)

  lookup_or-insert :
      (default : V) (k : ℕ) (v : V) (d : Dict ℕ V) → lookup_or default k (insert k v d) ≡ v
  lookup_or-insert default k v d = ground (arith, beq_refl k, lookup-insert k k v d)

module _ (ops : FloatOps) (cfg : FahConfig ops) (env : Env ops) (expected round_idx : ℕ) where
  -- The messages of a round, in their order.
  unfoldable pub gather : Dict ℕ (Stats ops) → FahServer ops → FahServer ops
  gather [] s = s
  gather ((sender, content) ∷ reports) s =
      gather reports
        (callback_funcs_for_fah_stats ops cfg env expected round_idx sender content s).0

  -- A server with these statistics of the round.
  abbrev pub holding : Dict ℕ (Stats ops) → FahServer ops → FahServer ops
  holding stats s = record s { stats_buffer = insert round_idx stats s.stats_buffer }

  -- What the handler does with the statistics that the buffer then holds.
  abbrev handled : FahServer ops → Dict ℕ (Stats ops) → FahServer ops × Result (Unit {0})
  handled s received =
      if leb expected (length received)
      then process_fah_round ops cfg env round_idx (holding received s)
      else (holding received s, ok tt)

  received_of :
      (sender : ℕ) (content : Stats ops) (s : FahServer ops) (done : Dict ℕ (Stats ops))
      → lookup_or [] round_idx s.stats_buffer ≡ done
      → (Elem sender (keys done) → ⊥)
      → insert sender content (lookup_or [] round_idx s.stats_buffer)
        ≡ done ++ ((sender, content) ∷ [])
  received_of sender content s done at absent =
      ap (insert sender content) at ∙ insert-new sender content done absent

  callback_waits :
      (sender : ℕ) (content : Stats ops) (s : FahServer ops) (done : Dict ℕ (Stats ops))
      → s.enabled ≡ true
      → lookup_or [] round_idx s.stats_buffer ≡ done
      → (Elem sender (keys done) → ⊥)
      → length done + 1 < expected
      → callback_funcs_for_fah_stats ops cfg env expected round_idx sender content s
        ≡ (holding (done ++ ((sender, content) ∷ [])) s, ok tt)
  unfolding callback_funcs_for_fah_stats
  callback_waits sender content s done on at absent few =
      let received = received_of sender content s done at absent in
      let waiting : leb expected (length (done ++ ((sender, content) ∷ []))) ≡ false =
        ground (arith, length-append done ((sender, content) ∷ []), few) in
      if_true s.enabled _ _ on ∙ (ap (handled s) received ∙ if_false _ _ _ waiting)

  callback_completes :
      (sender : ℕ) (content : Stats ops) (s : FahServer ops) (done : Dict ℕ (Stats ops))
      → s.enabled ≡ true
      → lookup_or [] round_idx s.stats_buffer ≡ done
      → (Elem sender (keys done) → ⊥)
      → expected ≤ length done + 1
      → callback_funcs_for_fah_stats ops cfg env expected round_idx sender content s
        ≡ process_fah_round ops cfg env round_idx (holding (done ++ ((sender, content) ∷ [])) s)
  unfolding callback_funcs_for_fah_stats
  callback_completes sender content s done on at absent enough =
      let received = received_of sender content s done at absent in
      let complete : leb expected (length (done ++ ((sender, content) ∷ []))) ≡ true =
        ground (arith, length-append done ((sender, content) ∷ []), enough) in
      if_true s.enabled _ _ on ∙ (ap (handled s) received ∙ if_true _ _ _ complete)

  -- No message is from a client that sent one before it.
  abbrev pub Apart : Dict ℕ (Stats ops) → Dict ℕ (Stats ops) → Type 0
  Apart done [] = Unit {0}
  Apart done ((id, st) ∷ reports) =
      (Elem id (keys done) → ⊥) × Apart (done ++ ((id, st) ∷ [])) reports

  -- The messages after `done`, and the last one.
  completes_from :
      (reports done : Dict ℕ (Stats ops)) (sender : ℕ) (content : Stats ops) (s : FahServer ops)
      → s.enabled ≡ true
      → lookup_or [] round_idx s.stats_buffer ≡ done
      → Apart done (reports ++ ((sender, content) ∷ []))
      → length done + length reports + 1 ≡ expected
      → callback_funcs_for_fah_stats ops cfg env expected round_idx sender content
          (gather reports s)
        ≡ process_fah_round ops cfg env round_idx
            (holding (done ++ (reports ++ ((sender, content) ∷ []))) s)
  unfolding gather
  completes_from [] done sender content s on at apart size =
      callback_completes sender content s done on at apart.0 (omega (arith, size))
  completes_from ((id, st) ∷ reports) done sender content s on at apart size =
      let next = done ++ ((id, st) ∷ []) in
      let waits = callback_waits id st s done on at apart.0 (omega (arith, size)) in
      let rest =
        completes_from reports next sender content (holding next s) on
          (lookup_or-insert [] round_idx next s.stats_buffer) apart.1
          (omega (arith, size, length-append done ((id, st) ∷ []))) in
      let step : callback_funcs_for_fah_stats ops cfg env expected round_idx sender content
            (gather reports (callback_funcs_for_fah_stats ops cfg env expected round_idx id st s).0)
          ≡ callback_funcs_for_fah_stats ops cfg env expected round_idx sender content
              (gather reports (holding next s)) =
        ap
          (λ r.
            callback_funcs_for_fah_stats ops cfg env expected round_idx sender content
              (gather reports r.0))
          waits in
      let last_of = (sender, content) ∷ [] in
      let same =
        insert-insert round_idx (next ++ (reports ++ last_of)) next s.stats_buffer
        ∙ ap (λ d. insert round_idx d s.stats_buffer)
            (append_assoc done ((id, st) ∷ []) (reports ++ last_of)) in
      step
      ∙ (rest
          ∙ ap (λ b. process_fah_round ops cfg env round_idx (record s { stats_buffer = b })) same)

  -- Fewer messages than the expected ones change nothing but the buffer.
  waits_from :
      (reports done : Dict ℕ (Stats ops)) (s : FahServer ops)
      → s.enabled ≡ true
      → lookup_or [] round_idx s.stats_buffer ≡ done
      → Apart done reports
      → length done + length reports < expected
      → gather reports s ≡ record s { stats_buffer = (gather reports s).stats_buffer }
  unfolding gather
  waits_from [] done s on at apart few = refl
  waits_from ((id, st) ∷ reports) done s on at apart few =
      let next = done ++ ((id, st) ∷ []) in
      let waits = callback_waits id st s done on at apart.0 (omega (arith, few)) in
      let rest =
        waits_from reports next (holding next s) on
          (lookup_or-insert [] round_idx next s.stats_buffer) apart.1
          (omega (arith, few, length-append done ((id, st) ∷ []))) in
      subst (λ (z : FahServer ops). z ≡ record s { stats_buffer = z.stats_buffer })
        (sym (ap (λ r. gather reports r.0) waits)) rest

  Apart-prefix :
      (done reports rest : Dict ℕ (Stats ops)) → Apart done (reports ++ rest) → Apart done reports
  Apart-prefix done [] rest h = tt
  Apart-prefix done ((id, st) ∷ reports) rest h =
      (h.0, Apart-prefix (done ++ ((id, st) ∷ [])) reports rest h.1)

  -- With FAH on and no statistics of the round in the buffer, and messages from different clients, as
  -- many as are expected: those before the last change nothing but the buffer, and at the last the
  -- round is processed on exactly the statistics of all of them, in the order of their arrival.
  pub callback_funcs_for_fah_stats_lem :
      (reports : Dict ℕ (Stats ops)) (sender : ℕ) (content : Stats ops) (s : FahServer ops)
      → s.enabled ≡ true
      → lookup_or [] round_idx s.stats_buffer ≡ []
      → Apart [] (reports ++ ((sender, content) ∷ []))
      → length reports + 1 ≡ expected
      → (gather reports s ≡ record s { stats_buffer = (gather reports s).stats_buffer })
        × (callback_funcs_for_fah_stats ops cfg env expected round_idx sender content
              (gather reports s)
            ≡ process_fah_round ops cfg env round_idx
                (holding (reports ++ ((sender, content) ∷ [])) s))
  callback_funcs_for_fah_stats_lem reports sender content s on empty apart size = (
    waits_from reports [] s on empty (Apart-prefix [] reports ((sender, content) ∷ []) apart)
        (omega (arith, size)),
    completes_from reports [] sender content s on empty apart (omega (arith, size)),
  )
