-- ===== src/Processing/Isolation.antt =====
-- The methods of the processing store on one run leave every other run alone, and `claim_run`
-- leaves alone what is neither free nor expired.
use movie_reservation_agent.Prelude.{
  ℕ, zero, suc, String, ◌≡◌, ◌≢◌, Bool, true, false, Option, none, some,
}
use movie_reservation_agent.Exec.Steps.{Steps}
use movie_reservation_agent.Dict.{Uuid, lookup}
use movie_reservation_agent.Value.{Value}
use movie_reservation_agent.Contracts.{Timestamp, RunStatus, RunStatusCode}
use movie_reservation_agent.Transitions.{TransitionRequestParams}
use movie_reservation_agent.Runtime.{Runtime}
use movie_reservation_agent.Runtime.Others.{Others, other_rules}
use movie_reservation_agent.Processing.{
  get_new_expiration_ts, expired_at, has_claim_expired, transition_locked, set_cancelled_locked,
  set_cancelled, set_failed, set_succeeded, next_retry, recover_expired_runs, recover_if,
  expire_found, expire_run, claim_enqueued, claim_found, try_claim, heartbeat, heartbeat_found,
}

module _ (k : Uuid) where
  get_new_expiration_ts-Others : Steps (Others k) get_new_expiration_ts
  unfolding get_new_expiration_ts
  get_new_expiration_ts-Others = search other_rules

  expired_at-Others : (o : Option Timestamp) → Steps (Others k) (expired_at o)
  expired_at-Others none = search other_rules
  expired_at-Others (some zero) = search other_rules
  expired_at-Others (some (suc t)) = search other_rules

  has_claim_expired-Others : (st : RunStatus) → Steps (Others k) (has_claim_expired st)
  unfolding has_claim_expired
  has_claim_expired-Others st = expired_at-Others st.claim_expiration_unix_ts

  transition_locked-Others :
      (target : RunStatusCode) (request : Option TransitionRequestParams)
      → Steps (Others k) (transition_locked k target request)
  unfolding transition_locked
  transition_locked-Others target request = search other_rules

  set_cancelled_locked-Others : Steps (Others k) (set_cancelled_locked k)
  unfolding set_cancelled_locked
  set_cancelled_locked-Others = search (other_rules, transition_locked-Others)

  next_retry-Others : (o : Option ℕ) → Steps (Others k) (next_retry o)
  next_retry-Others none = search other_rules
  next_retry-Others (some n) = search other_rules

  recover_expired_runs-Others :
      (st : RunStatus) (worker : String) → Steps (Others k) (recover_expired_runs k st worker)
  unfolding recover_expired_runs
  recover_expired_runs-Others st worker =
      search (other_rules, transition_locked-Others, next_retry-Others)

  recover_if-Others :
      (b : Bool) (worker : String) (st : RunStatus) → Steps (Others k) (recover_if b worker k st)
  unfolding recover_if
  recover_if-Others false worker st = search other_rules
  recover_if-Others true worker st = search (other_rules, recover_expired_runs-Others)

  pub expire_run-Others : (worker : String) → Steps (Others k) (expire_run worker k)
  unfolding expire_run expire_found
  expire_run-Others worker =
      search (other_rules, has_claim_expired-Others, recover_if-Others) depth 8

  claim_enqueued-Others : (worker : String) → Steps (Others k) (claim_enqueued worker k)
  unfolding claim_enqueued
  claim_enqueued-Others worker =
      search (other_rules, transition_locked-Others, get_new_expiration_ts-Others) depth 8

  pub try_claim-Others : (worker : String) → Steps (Others k) (try_claim worker k)
  unfolding try_claim claim_found
  try_claim-Others worker =
      search (other_rules, set_cancelled_locked-Others, claim_enqueued-Others) depth 8

  set_failed-Others : (error : String) → Steps (Others k) (set_failed k error)
  unfolding set_failed
  set_failed-Others error = search (other_rules, transition_locked-Others)

  set_succeeded-Others : (result : Value) → Steps (Others k) (set_succeeded k result)
  unfolding set_succeeded
  set_succeeded-Others result = search (other_rules, transition_locked-Others)

  set_cancelled-Others : Steps (Others k) (set_cancelled k)
  unfolding set_cancelled
  set_cancelled-Others = set_cancelled_locked-Others

  heartbeat-Others : (worker : String) → Steps (Others k) (heartbeat k worker)
  unfolding heartbeat heartbeat_found
  heartbeat-Others worker = search (other_rules, get_new_expiration_ts-Others) depth 8

-- What a worker does to its run, heartbeats and results, leaves every other run as it was,
-- whether the call returns or raises.
pub worker_calls_isolated :
    (k j : Uuid) (worker error : String) (result : Value) (s : Runtime)
    → k ≢ j
    → (lookup j (heartbeat k worker s).1.runs ≡ lookup j s.runs)
      × (lookup j (set_succeeded k result s).1.runs ≡ lookup j s.runs)
      × (lookup j (set_failed k error s).1.runs ≡ lookup j s.runs)
      × (lookup j (set_cancelled k s).1.runs ≡ lookup j s.runs)
worker_calls_isolated k j worker error result s ne = (
  ((heartbeat-Others k worker).at s).same j ne,
  ((set_succeeded-Others k result).at s).same j ne,
  ((set_failed-Others k error).at s).same j ne,
  ((set_cancelled-Others k).at s).same j ne,
)
