-- ===== src/Processing/Leases.antt =====
-- A run whose lease has not run out is not taken away from its worker.
use movie_reservation_agent.Prelude.{
  ℕ, zero, suc, ◌≤◌, String, ◌≡◌, refl, ap, ◌∙◌, true, false, none, some, List, [], ◌∷◌, arith,
  Bool-cases, inl, inr, ◌==◌,
}
use movie_reservation_agent.Exec.{ok}
use movie_reservation_agent.Exec.Steps.{Preorder, Steps, Steps-bind, Steps-pure}
use movie_reservation_agent.Dict.{Uuid, lookup, keys}
use movie_reservation_agent.Contracts.{Timestamp, RunStatus, running, is_running, is_enqueued}
use movie_reservation_agent.Runtime.{Runtime, select}
use movie_reservation_agent.Runtime.Evolution.{IsSound}
use movie_reservation_agent.Processing.{
  expired_at, has_claim_expired, expire_found, expire_run, expire_loop, claim_found, try_claim,
  claim_loop, claim_run,
}
use movie_reservation_agent.Processing.Soundness.{expire_run-IsSound, try_claim-IsSound}
use movie_reservation_agent.Processing.Isolation.{expire_run-Others, try_claim-Others}

module _ (k : Uuid) (st : RunStatus) (until : Timestamp) where
  -- The run is stored so, and the clock will not pass `until`.
  record IsLeased (s : Runtime) : Type 0 where
    stored : lookup k s.runs ≡ some st
    early : (n : ℕ) → s.clock n ≤ until

  record KeepsLease (a b : Runtime) : Type 0 where
    kept : IsLeased a → IsLeased b

  KeepsLease-preorder : Preorder KeepsLease
  KeepsLease-preorder = record {
    refl_at = λ a. record { kept = λ h. h };
    trans_at = λ a b c p q. record { kept = λ h. q.kept (p.kept h) };
  }

  -- A sound step that leaves the run alone.
  sound-KeepsLease :
      (a b : Runtime) → IsSound a b → (lookup k b.runs ≡ lookup k a.runs) → KeepsLease a b
  sound-KeepsLease a b sound same = record {
    kept = λ h. record {
      stored = same ∙ h.stored;
      early = λ n. let (m, e) = sound.readings n in rw e (h.early m);
    };
  }

  module _ (run : st.status ≡ running) (lease : st.claim_expiration_unix_ts ≡ some until) where
    not_expired :
        (s : Runtime)
        → ((n : ℕ) → s.clock n ≤ until)
        → ((has_claim_expired st s).0 ≡ ok false) × ((has_claim_expired st s).1.runs ≡ s.runs)
    unfolding has_claim_expired
    not_expired s early = rw lease (go until (early 0))
      where
        go :
            (t : Timestamp)
            → s.clock 0 ≤ t
            → ((expired_at (some t) s).0 ≡ ok false) × ((expired_at (some t) s).1.runs ≡ s.runs)
        go zero h = (refl, refl)
        go (suc t) h = ground (arith, h)

    expire_run_self :
        (worker : String) (s : Runtime) → IsLeased s → (expire_run worker k s).1.runs ≡ s.runs
    unfolding expire_run expire_found
    expire_run_self worker s h =
        let on : is_running st.status ≡ true = rw run refl in
        let fresh = not_expired s h.early in rw (h.stored, select) (rw on (rw fresh.0 fresh.1))

    try_claim_self :
        (worker : String) (s : Runtime) → IsLeased s → (try_claim worker k s).1.runs ≡ s.runs
    unfolding try_claim claim_found
    try_claim_self worker s h =
        let busy : is_enqueued st.status ≡ false = rw run refl in rw (h.stored, select) (rw busy)

    expire_run-KeepsLease : (worker : String) (j : Uuid) → Steps KeepsLease (expire_run worker j)
    expire_run-KeepsLease worker j = record {
      at = λ s. record {
        kept = λ h.
            (sound-KeepsLease s _ ((expire_run-IsSound worker j).at s) (elim (Bool-cases (j == k)) [
              | inl same ↦
                  let jk : j ≡ k = ground arith in
                  rw jk (ap (lookup k) (expire_run_self worker s h))
              | inr other ↦ ((expire_run-Others j worker).at s).same k (ground arith)
            ])).kept
              h;
      };
    }

    try_claim-KeepsLease : (worker : String) (j : Uuid) → Steps KeepsLease (try_claim worker j)
    try_claim-KeepsLease worker j = record {
      at = λ s. record {
        kept = λ h.
            (sound-KeepsLease s _ ((try_claim-IsSound worker j).at s) (elim (Bool-cases (j == k)) [
              | inl same ↦
                  let jk : j ≡ k = ground arith in rw jk (ap (lookup k) (try_claim_self worker s h))
              | inr other ↦ ((try_claim-Others j worker).at s).same k (ground arith)
            ])).kept
              h;
      };
    }

    expire_loop-KeepsLease :
        (worker : String) (ks : List Uuid) → Steps KeepsLease (expire_loop worker ks)
    unfolding expire_loop
    expire_loop-KeepsLease worker [] = Steps-pure KeepsLease-preorder tt
    expire_loop-KeepsLease worker (j ∷ ks) =
        Steps-bind KeepsLease-preorder _ _ (expire_run-KeepsLease worker j)
          (λ _. expire_loop-KeepsLease worker ks)

    claim_loop-KeepsLease :
        (worker : String) (ks : List Uuid) → Steps KeepsLease (claim_loop worker ks)
    unfolding claim_loop
    claim_loop-KeepsLease worker [] = Steps-pure KeepsLease-preorder none
    claim_loop-KeepsLease worker (j ∷ ks) =
        Steps-bind KeepsLease-preorder _ _ (try_claim-KeepsLease worker j) (elim [
          | none ↦ claim_loop-KeepsLease worker ks
          | some claim ↦ Steps-pure KeepsLease-preorder (some claim)
        ])

    claim_run-KeepsLease : (worker : String) → Steps KeepsLease (claim_run worker)
    unfolding claim_run
    claim_run-KeepsLease worker = record {
      at = λ s.
          (Steps-bind KeepsLease-preorder _ _ (expire_loop-KeepsLease worker (keys s.runs))
              (λ _. record { at = λ t. (claim_loop-KeepsLease worker (keys t.runs)).at t })).at
            s;
    }

-- While the clock does not pass the end of its lease, a RUNNING run is left exactly as it is by
-- any `claim_run`, of any worker, whether that returns or raises: no second worker gets it.
pub claim_run_respects_lease :
    (k : Uuid) (worker : String) (st : RunStatus) (until : Timestamp) (s : Runtime)
    → lookup k s.runs ≡ some st
    → st.status ≡ running
    → st.claim_expiration_unix_ts ≡ some until
    → ((n : ℕ) → s.clock n ≤ until)
    → lookup k (claim_run worker s).1.runs ≡ some st
claim_run_respects_lease k worker st until s there run lease early =
    (((claim_run-KeepsLease k st until run lease worker).at s).kept
      (record { stored = there; early = early })).stored
