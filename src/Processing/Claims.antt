-- ===== src/Processing/Claims.antt =====
-- What a successful `claim_run` hands to a worker.
use movie_reservation_agent.Prelude.{
  ℕ, ◌+◌, String, ◌≡◌, refl, ap, sym, ◌∙◌, true, false, Option, some, List, [], ◌∷◌, arith,
  Bool-cases, Option-cases, inl, inr,
}
use movie_reservation_agent.Exec.{ok, ◌>>=◌, ◌>>◌, pure, Exec, Result-cases}
use movie_reservation_agent.Dict.{Uuid, lookup, keys, lookup-insert_self}
use movie_reservation_agent.Contracts.{Timestamp, RunStatus, enqueued, running, is_enqueued}
use movie_reservation_agent.Transitions.Diagram.{allowed}
use movie_reservation_agent.Transitions.{value}
use movie_reservation_agent.Runtime.{Runtime, get_run, put_run, append_event}
use movie_reservation_agent.Runtime.Evolution.{IsSound}
use movie_reservation_agent.Processing.{
  ClaimedRun, lease_time, get_new_expiration_ts, transitioned, for_worker, claim_enqueued,
  claim_found, try_claim, claim_loop, claim_run, expire_loop, set_cancelled_locked,
}
use movie_reservation_agent.Processing.Transition.{transition_locked-allowed}
use movie_reservation_agent.Processing.Soundness.{try_claim-IsSound, expire_loop-IsSound}

-- The run `c` that `worker` got: it is stored as handed over, is RUNNING, belongs to the worker,
-- nobody wants it cancelled, and its lease lasts 30 seconds from a time that `clock` shows.
pub record IsClaim (worker : String) (clock : ℕ → Timestamp) (t : Runtime) (c : ClaimedRun)
    : Type 0 where
  pub stored : lookup c.id t.runs ≡ some c.run_status
  pub is_running : c.run_status.status ≡ running
  pub owner : c.run_status.claimed_worker ≡ some worker
  pub wanted : c.run_status.cancel_requested ≡ false
  pub kind : c.claim_type ≡ "enqueued"
  pub lease : (n : ℕ) × (c.run_status.claim_expiration_unix_ts ≡ some (clock n + 30000000))

-- The clock of a state shows only what `clock` shows.
abbrev IsTimed : (ℕ → Timestamp) → Runtime → Type 0
IsTimed clock s = (n : ℕ) → (m : ℕ) × (s.clock n ≡ clock m)

IsTimed-IsSound :
    (clock : ℕ → Timestamp) {a b : Runtime} → IsSound a b → IsTimed clock a → IsTimed clock b
IsTimed-IsSound clock sound h n = let (m, e) = sound.readings n in let (l, e') = h m in (l, e ∙ e')

-- The run that `claim_enqueued` writes.
abbrev claimed_status : String → Timestamp → RunStatus → RunStatus
claimed_status worker now st =
    transitioned st running
      (record (for_worker worker) { expiration_unix_ts = value (some (now + lease_time)) })

-- The note in the stream and the return of the claim.
abbrev hand_over : String → Uuid → Exec Runtime (Option ClaimedRun)
hand_over worker k = do
  append_event k "claimed" (("worker", worker) ∷ [])
  claimed ← get_run k
  pure (some (record { id = k; claim_type = "enqueued"; run_status = claimed }))

hand_over-IsClaim :
    (worker : String) (k : Uuid) (st : RunStatus) (s : Runtime) {c : ClaimedRun} {t : Runtime}
    → lookup k s.runs ≡ some st
    → hand_over worker k s ≡ (ok (some c), t)
    → (c ≡ record { id = k; claim_type = "enqueued"; run_status = st })
      × (lookup k t.runs ≡ some st)
unfolding append_event
hand_over-IsClaim worker k st s {c} {t} there e =
    elim (Result-cases (append_event k "claimed" (("worker", worker) ∷ []) s).0) [
      | inl (ev, went) ↦ ground arith
      | inr (ex, raised) ↦ ground arith
    ]

module _ (worker : String) (k : Uuid) (st : RunStatus) (s : Runtime)
    (there : lookup k s.runs ≡ some st) (free : st.status ≡ enqueued) where
  claim_enqueued_lem :
      claim_enqueued worker k s
      ≡ hand_over worker k
          (put_run k (claimed_status worker (s.clock 0) st) (get_new_expiration_ts s).1).1
  unfolding claim_enqueued get_new_expiration_ts put_run
  claim_enqueued_lem =
      let edge : allowed st.status running ≡ true = rw free refl in
      rw (transition_locked-allowed k running _ (get_new_expiration_ts s).1 st there edge)

  lookup_claimed :
      lookup k (put_run k (claimed_status worker (s.clock 0) st) (get_new_expiration_ts s).1).1.runs
      ≡ some (claimed_status worker (s.clock 0) st)
  unfolding put_run
  lookup_claimed = lookup-insert_self k _ _

  claim_enqueued-IsClaim :
      (clock : ℕ → Timestamp) {c : ClaimedRun} {t : Runtime}
      → IsTimed clock s
      → st.cancel_requested ≡ false
      → claim_enqueued worker k s ≡ (ok (some c), t)
      → IsClaim worker clock t c
  claim_enqueued-IsClaim from {c} {t} h want e =
      let (handed, stored) =
        hand_over-IsClaim worker k (claimed_status worker (s.clock 0) st) _ lookup_claimed
          (sym claim_enqueued_lem ∙ e) in
      rw handed (record {
        stored = stored;
        is_running = refl;
        owner = refl;
        wanted = want;
        kind = refl;
        lease = ((h 0).0, ap (λ now. some (now + 30000000)) (h 0).1);
      })

module _ (worker : String) (clock : ℕ → Timestamp) where
  try_claim-IsClaim :
      (k : Uuid) (s : Runtime) {c : ClaimedRun} {t : Runtime}
      → IsTimed clock s
      → try_claim worker k s ≡ (ok (some c), t)
      → IsClaim worker clock t c
  unfolding try_claim claim_found
  try_claim-IsClaim k s {c} {t} h e = elim (Option-cases (lookup k s.runs)) [
    | inl absent ↦ absurd (ground (arith, absent, e))
    | inr (st, there) ↦ elim (Bool-cases (is_enqueued st.status)) [
      | inl free ↦ elim (Bool-cases st.cancel_requested) [
        | inl unwanted ↦ elim (Result-cases (set_cancelled_locked k s).0) [
          | inl (_, done) ↦ absurd (ground (arith, there, free, unwanted, done, e))
          | inr (_, raised) ↦ absurd (ground (arith, there, free, unwanted, raised, e))
        ]
        | inr want ↦
            claim_enqueued-IsClaim worker k st s there (ground (arith, free)) clock h want
              (ground (arith, there, free, want, e))
      ]
      | inr taken ↦ absurd (ground (arith, there, taken, e))
    ]
  ]

  claim_loop-IsClaim :
      (ks : List Uuid) (s : Runtime) {c : ClaimedRun} {t : Runtime}
      → IsTimed clock s
      → claim_loop worker ks s ≡ (ok (some c), t)
      → IsClaim worker clock t c
  unfolding claim_loop
  claim_loop-IsClaim [] s h e = absurd (ground (arith, e))
  claim_loop-IsClaim (k ∷ ks) s {c} {t} h e = elim (Result-cases (try_claim worker k s).0) [
    | inr (_, raised) ↦ absurd (ground (arith, raised, e))
    | inl (found, went) ↦ elim (Option-cases found) [
      | inl nothing ↦
          claim_loop-IsClaim ks (try_claim worker k s).1
            (IsTimed-IsSound clock ((try_claim-IsSound worker k).at s) h)
            (ground (arith, went, nothing, e))
      | inr (claim, got) ↦ try_claim-IsClaim k s h (ground (arith, went, got, e))
    ]
  ]

-- A run that `claim_run` returns is stored as it was handed over, is RUNNING, belongs to the
-- worker, has no cancellation requested, and has a lease of 30 seconds from a reading of the clock.
pub claim_run-IsClaim :
    (worker : String) (s : Runtime) {c : ClaimedRun} {t : Runtime}
    → claim_run worker s ≡ (ok (some c), t)
    → IsClaim worker s.clock t c
unfolding claim_run
claim_run-IsClaim worker s {c} {t} e = elim (Result-cases (expire_loop worker (keys s.runs) s).0) [
  | inr (_, raised) ↦ absurd (ground (arith, raised, e))
  | inl (_, went) ↦
      let u = (expire_loop worker (keys s.runs) s).1 in
      claim_loop-IsClaim worker s.clock (keys u.runs) u
        (IsTimed-IsSound s.clock ((expire_loop-IsSound worker (keys s.runs)).at s) (λ n. (n, refl)))
        (ground (arith, went, e))
]
