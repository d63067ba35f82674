-- ===== src/Processing/Moves.antt =====
-- The edges that the methods of the processing store take, whether they return or raise.
use movie_reservation_agent.Prelude.{
  ℕ, zero, suc, String, ◌≡◌, refl, Bool, true, false, Option, none, some, List, [], ◌∷◌, arith,
  Bool-cases, Option-cases, inl, inr, ◌==◌,
}
use movie_reservation_agent.Exec.{Result-cases, ◌>>◌, pure, Exec, lease_lost}
use movie_reservation_agent.Exec.Steps.{Preorder, Steps}
use movie_reservation_agent.Dict.{Uuid, lookup, keys}
use movie_reservation_agent.Value.{Value}
use movie_reservation_agent.Contracts.{
  Timestamp, RunStatus, RunStatusCode, enqueued, running, succeeded, failed, cancelled, is_enqueued,
  is_running,
}
use movie_reservation_agent.Transitions.{TransitionRequestParams}
use movie_reservation_agent.Transitions.Diagram.{◌⟶◌, allowed, allowed-⟶}
use movie_reservation_agent.Runtime.{Runtime, select, put_run, read_clock}
use movie_reservation_agent.Runtime.Moves.{
  Pulled, Pulled-preorder, is_pulled, edge-Pulled, Pulled-Recovers, To, kept, moved, To-preorder,
  Recovers, unlost, Recovers-preorder, Taken, untaken, claimed, dropped, Taken-preorder, Moved,
  same_runs-Moved, Moved-preorder, put_run-Moved, append_event-Moved, raise-Moved, bind-Moved,
  pure-Moved, moved_rules,
}
use movie_reservation_agent.Processing.{
  ClaimedRun, get_new_expiration_ts, expired_at, has_claim_expired, given_request, transitioned,
  transition_locked, set_cancelled_locked, set_cancelled, set_failed, set_succeeded, next_retry,
  recover_expired_runs, recover_if, expire_found, expire_run, expire_loop, claim_enqueued,
  claim_found, try_claim, claim_loop, claim_run, heartbeat, heartbeat_found, is_claimed_by,
}
use movie_reservation_agent.Processing.Transition.{
  transition_locked_missing, transition_locked_refused, transition_locked-allowed,
}
use movie_reservation_agent.Processing.Isolation.{expire_run-Others, try_claim-Others}

module _ {M : RunStatusCode → RunStatusCode → Type 0} (o : Preorder M) where
  transition_locked-Moved :
      (k : Uuid) (target : RunStatusCode) (request : Option TransitionRequestParams)
      → ((a : RunStatusCode) → a ⟶ target → M a target)
      → Steps (Moved M) (transition_locked k target request)
  transition_locked-Moved k target request h = record {
    at = λ s. elim (Option-cases (lookup k s.runs)) [
      | inl absent ↦
          rw (transition_locked_missing k target request s absent) (same_runs-Moved o refl)
      | inr (st, there) ↦ elim (Bool-cases (allowed st.status target)) [
        | inl edge ↦ rw (transition_locked-allowed k target request s st there edge) (
            put_run-Moved o k st (transitioned st target (given_request request)) s there
              (h st.status (allowed-⟶ st.status target edge)))
        | inr no_edge ↦
            rw (transition_locked_refused k target request s st there no_edge)
              (same_runs-Moved o refl)
      ]
    ];
  }

  get_new_expiration_ts-Moved : Steps (Moved M) get_new_expiration_ts
  unfolding get_new_expiration_ts
  get_new_expiration_ts-Moved = search moved_rules

  expired_at-Moved : (t : Option Timestamp) → Steps (Moved M) (expired_at t)
  expired_at-Moved none = search moved_rules
  expired_at-Moved (some zero) = search moved_rules
  expired_at-Moved (some (suc t)) = search moved_rules

  next_retry-Moved : (n : Option ℕ) → Steps (Moved M) (next_retry n)
  next_retry-Moved none = search moved_rules
  next_retry-Moved (some n) = search moved_rules

transition-To :
    (k : Uuid) (target : RunStatusCode) (request : Option TransitionRequestParams)
    → Steps (Moved (To target)) (transition_locked k target request)
transition-To k target request =
    transition_locked-Moved (To-preorder target) k target request (λ a e. moved e)

transition-Pulled :
    (k : Uuid) (target : RunStatusCode) (request : Option TransitionRequestParams)
    → is_pulled target ≡ true
    → Steps (Moved Pulled) (transition_locked k target request)
transition-Pulled k target request h =
    transition_locked-Moved Pulled-preorder k target request (λ a e. edge-Pulled e h)

recover_expired_runs-Moved :
    (k : Uuid) (st : RunStatus) (worker : String)
    → Steps (Moved Pulled) (recover_expired_runs k st worker)
unfolding recover_expired_runs
recover_expired_runs-Moved k st worker = search (moved_rules, transition-Pulled, next_retry-Moved)

recover_if-Moved :
    (b : Bool) (worker : String) (k : Uuid) (st : RunStatus)
    → Steps (Moved Pulled) (recover_if b worker k st)
unfolding recover_if
recover_if-Moved false worker k st = search moved_rules
recover_if-Moved true worker k st = search (moved_rules, recover_expired_runs-Moved)

has_claim_expired-Moved : (st : RunStatus) → Steps (Moved Pulled) (has_claim_expired st)
unfolding has_claim_expired
has_claim_expired-Moved st = expired_at-Moved Pulled-preorder st.claim_expiration_unix_ts

expire_found-Moved :
    (worker : String) (k : Uuid) (st : RunStatus) → Steps (Moved Pulled) (expire_found worker k st)
unfolding expire_found
expire_found-Moved worker k st =
    search (moved_rules, has_claim_expired-Moved, recover_if-Moved) depth 8

-- A run that is not RUNNING is left alone.
expire_found-Recovers :
    (worker : String) (k : Uuid) (st : RunStatus) (s : Runtime)
    → lookup k s.runs ≡ some st
    → (st' : RunStatus) × (lookup k (expire_found worker k st s).1.runs ≡ some st')
      × Recovers st.status st'.status
expire_found-Recovers worker k st s there = elim (Bool-cases (is_running st.status)) [
  | inr idle ↦ (st, unfold expire_found in rw idle there, unlost)
  | inl run ↦
      let (st', now, pulled) = ((expire_found-Moved worker k st).at s).run k st there in
      let at_work : st.status ≡ running = ground (arith, run) in
      (st', now, rw at_work (Pulled-Recovers (rw at_work at pulled)).0)
]

expire_run-Moved : (worker : String) (k : Uuid) → Steps (Moved Recovers) (expire_run worker k)
expire_run-Moved worker k = record {
  at = λ s. record {
    run = λ j st h. elim (Bool-cases (k == j)) [
      | inr other ↦ (st, rw (((expire_run-Others k worker).at s).same j (ground arith)) h, unlost)
      | inl same ↦
          let kj : k ≡ j = ground arith in
          let there : lookup k s.runs ≡ some st = rw kj h in
          rw (← kj)
            (unfold expire_run in rw (there, select) (expire_found-Recovers worker k st s there))
    ];
  };
}

expire_loop-Moved :
    (worker : String) (ks : List Uuid) → Steps (Moved Recovers) (expire_loop worker ks)
unfolding expire_loop
expire_loop-Moved worker [] = search moved_rules
expire_loop-Moved worker (k ∷ ks) =
    bind-Moved Recovers-preorder _ _ (expire_run-Moved worker k) (λ _. expire_loop-Moved worker ks)

set_cancelled_locked-To : (k : Uuid) → Steps (Moved (To cancelled)) (set_cancelled_locked k)
unfolding set_cancelled_locked
set_cancelled_locked-To k = search (moved_rules, transition-To)

claim_enqueued-To :
    (worker : String) (k : Uuid) → Steps (Moved (To running)) (claim_enqueued worker k)
unfolding claim_enqueued
claim_enqueued-To worker k =
    search (moved_rules, transition-To, get_new_expiration_ts-Moved) depth 8

running-Taken : {a b : RunStatusCode} → a ≡ enqueued → To running a b → Taken a b
running-Taken h kept = untaken
running-Taken h (moved e) = claimed h

cancelled-Taken : {a b : RunStatusCode} → a ≡ enqueued → To cancelled a b → Taken a b
cancelled-Taken h kept = untaken
cancelled-Taken h (moved e) = dropped h

-- The branch of a run whose cancellation was requested.
abbrev drop_run : Uuid → Exec Runtime (Option ClaimedRun)
drop_run k = do set_cancelled_locked k; pure none

dropped-To : (k : Uuid) → Steps (Moved (To cancelled)) (drop_run k)
dropped-To k = search (moved_rules, set_cancelled_locked-To)

claim_found-Taken :
    (worker : String) (k : Uuid) (st : RunStatus) (s : Runtime)
    → lookup k s.runs ≡ some st
    → (st' : RunStatus) × (lookup k (claim_found worker k st s).1.runs ≡ some st')
      × Taken st.status st'.status
unfolding claim_found
claim_found-Taken worker k st s there = elim (Bool-cases (is_enqueued st.status)) [
  | inr taken ↦ (st, rw taken there, untaken)
  | inl free ↦
      let waits : st.status ≡ enqueued = ground (arith, free) in
      elim (Bool-cases st.cancel_requested) [
        | inl unwanted ↦
            let (st', now, to) = ((dropped-To k).at s).run k st there in
            (st', rw (free, unwanted) now, cancelled-Taken waits to)
        | inr wanted ↦
            let (st', now, to) = ((claim_enqueued-To worker k).at s).run k st there in
            (st', rw (free, wanted) now, running-Taken waits to)
      ]
]

try_claim-Moved : (worker : String) (k : Uuid) → Steps (Moved Taken) (try_claim worker k)
try_claim-Moved worker k = record {
  at = λ s. record {
    run = λ j st h. elim (Bool-cases (k == j)) [
      | inr other ↦ (st, rw (((try_claim-Others k worker).at s).same j (ground arith)) h, untaken)
      | inl same ↦
          let kj : k ≡ j = ground arith in
          let there : lookup k s.runs ≡ some st = rw kj h in
          rw (← kj) (unfold try_claim in rw (there, select) (claim_found-Taken worker k st s there))
    ];
  };
}

claim_loop-Moved : (worker : String) (ks : List Uuid) → Steps (Moved Taken) (claim_loop worker ks)
unfolding claim_loop
claim_loop-Moved worker [] = search moved_rules
claim_loop-Moved worker (k ∷ ks) = bind-Moved Taken-preorder _ _ (try_claim-Moved worker k) (elim [
  | none ↦ claim_loop-Moved worker ks
  | some given ↦ pure-Moved Taken-preorder (some given)
])

-- `claim_run` recovers runs and then takes some.
pub claim_run_moves :
    (worker : String) (k : Uuid) (st : RunStatus) (s : Runtime)
    → lookup k s.runs ≡ some st
    → (st' : RunStatus) × (lookup k (claim_run worker s).1.runs ≡ some st')
      × ((m : RunStatusCode) × Recovers st.status m × Taken m st'.status)
unfolding claim_run
claim_run_moves worker k st s there =
    let (mid, there', recovered) = ((expire_loop-Moved worker (keys s.runs)).at s).run k st there in
    elim (Result-cases (expire_loop worker (keys s.runs) s).0) [
      | inr (_, raised) ↦ (mid, rw raised there', (mid.status, recovered, untaken))
      | inl (_, went) ↦
          let u = (expire_loop worker (keys s.runs) s).1 in
          let (st', now, taken) = ((claim_loop-Moved worker (keys u.runs)).at u).run k mid there' in
          (st', rw went now, (mid.status, recovered, taken))
    ]

pub set_cancelled-To : (k : Uuid) → Steps (Moved (To cancelled)) (set_cancelled k)
unfolding set_cancelled
set_cancelled-To k = set_cancelled_locked-To k

pub set_failed-To : (k : Uuid) (error : String) → Steps (Moved (To failed)) (set_failed k error)
unfolding set_failed
set_failed-To k error = search (moved_rules, transition-To)

pub set_succeeded-To :
    (k : Uuid) (result : Value) → Steps (Moved (To succeeded)) (set_succeeded k result)
unfolding set_succeeded
set_succeeded-To k result = search (moved_rules, transition-To)

heartbeat_found-Moved :
    (k : Uuid) (worker : String) (st : RunStatus) (s : Runtime)
    → lookup k s.runs ≡ some st
    → Moved (To running) s (heartbeat_found k worker st s).1
unfolding heartbeat_found get_new_expiration_ts put_run read_clock
heartbeat_found-Moved k worker st s there =
    let o = To-preorder running in
    elim (Bool-cases (is_running st.status)) [
      | inr idle ↦ rw idle (same_runs-Moved o refl)
      | inl run ↦ elim (Bool-cases (is_claimed_by worker st.claimed_worker)) [
        | inr other ↦
            rw (run, other)
              ((bind-Moved o _ _ (append_event-Moved o k _ _) (λ _. raise-Moved o lease_lost)).at s)
        | inl own ↦
            rw (run, own)
              (let at_work : st.status ≡ running = ground (arith, run) in
                (Moved-preorder o).trans_at s (read_clock s).1 _ (same_runs-Moved o refl)
                  (put_run-Moved o k st _ (read_clock s).1 there (rw at_work kept)))
      ]
    ]

pub heartbeat-Moved : (k : Uuid) (worker : String) → Steps (Moved (To running)) (heartbeat k worker)
unfolding heartbeat
heartbeat-Moved k worker = record {
  at = λ s. elim (Option-cases (lookup k s.runs)) [
    | inl absent ↦ rw (absent, select) (same_runs-Moved (To-preorder running) refl)
    | inr (st, there) ↦ rw (there, select) (heartbeat_found-Moved k worker st s there)
  ];
}
