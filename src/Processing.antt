-- ===== src/Processing.antt =====
-- InMemoryRunProcessingStore of llm_agent/local_runtime/run_store/processing.py, the store on the
-- side of the workers. It is built with `RunTransitionPolicy()`.
pub mod Transition
pub mod Soundness
pub mod Claims
pub mod Isolation
pub mod Doomed
pub mod Moves
pub mod Exhaustion
pub mod Recovery
pub mod Leases
pub mod Progress
pub mod Outcomes
use movie_reservation_agent.Prelude.{
  ℕ, ◌+◌, zero, suc, String, Bool, true, false, Option, none, some, List, [], ◌∷◌, ltb, str_eq,
  if◌then◌else◌,
}
use movie_reservation_agent.Exec.{
  Exec, Result, ok, err, lease_lost, type_error, key_error, pure, raise, ◌>>=◌, ◌>>◌,
}
use movie_reservation_agent.Dict.{Uuid, lookup, keys}
use movie_reservation_agent.Value.{Value}
use movie_reservation_agent.Contracts.{
  RunStatusCode, Timestamp, RunStatus, enqueued, running, succeeded, failed, cancelled, timed_out,
  retrying, is_enqueued, is_running,
}
use movie_reservation_agent.Transitions.{
  default_policy, validate, Requested, unset, value, TransitionRequestParams, no_changes,
  get_value_or_fallback,
}
use movie_reservation_agent.Runtime.{Runtime, read_clock, if_found, get_run, put_run, append_event}

-- `ClaimedRun`
pub record ClaimedRun : Type 0 where
  pub id : Uuid
  pub claim_type : String
  pub run_status : RunStatus

-- The lease time, 30 seconds.
abbrev pub lease_time : Timestamp
lease_time = 30_000_000

-- `get_new_expiration_ts`
unfoldable pub get_new_expiration_ts : Exec Runtime Timestamp
unfolding read_clock
get_new_expiration_ts = do now ← read_clock; pure (now + lease_time)

-- `has_claim_expired`, by the claim's expiration: `None` and 0 count as no claim.
abbrev expired_at : Option Timestamp → Exec Runtime Bool
expired_at none = pure false
expired_at (some zero) = pure false
expired_at (some (suc t)) = read_clock >>= λ now. pure (ltb (suc t) now)

-- `has_claim_expired`
unfoldable pub has_claim_expired : RunStatus → Exec Runtime Bool
unfolding read_clock
has_claim_expired run_status = expired_at run_status.claim_expiration_unix_ts

-- The run that `_transition_locked` writes.
abbrev pub transitioned : RunStatus → RunStatusCode → TransitionRequestParams → RunStatus
transitioned st target request = record {
  id = st.id;
  status = target;
  result = get_value_or_fallback request.result st.result;
  error = get_value_or_fallback request.error st.error;
  claimed_worker = get_value_or_fallback request.worker_id st.claimed_worker;
  claim_expiration_unix_ts =
      get_value_or_fallback request.expiration_unix_ts st.claim_expiration_unix_ts;
  retry_count = get_value_or_fallback request.retry_count st.retry_count;
  cancel_requested = st.cancel_requested;
}

-- `transition_request or TransitionRequestParams()`
abbrev given_request : Option TransitionRequestParams → TransitionRequestParams
given_request none = no_changes
given_request (some request) = request

-- `_transition_locked`
unfoldable pub transition_locked :
    Uuid → RunStatusCode → Option TransitionRequestParams → Exec Runtime (Unit {0})
transition_locked run_id target_status transition_request = do
  run_status ← get_run run_id
  validate default_policy run_status target_status
  put_run run_id (transitioned run_status target_status (given_request transition_request))

-- `_set_cancelled_locked`
unfoldable pub set_cancelled_locked : Uuid → Exec Runtime (Unit {0})
set_cancelled_locked run_id = do
  transition_locked run_id cancelled (some no_changes)
  append_event run_id "cancelled" []
  pure tt

-- `set_cancelled`
unfoldable pub set_cancelled : Uuid → Exec Runtime (Unit {0})
unfolding set_cancelled_locked
set_cancelled run_id = set_cancelled_locked run_id

-- `set_failed`
unfoldable pub set_failed : Uuid → String → Exec Runtime (Unit {0})
set_failed run_id error = do
  transition_locked run_id failed (some (record no_changes { error = value (some error) }))
  append_event run_id "run_failed" (("error", error) ∷ [])
  pure tt

-- `set_succeeded`
unfoldable pub set_succeeded : Uuid → Value → Exec Runtime (Unit {0})
set_succeeded run_id result = do
  transition_locked run_id succeeded (some (record no_changes { result = value (some result) }))
  append_event run_id "run_succeeded" (("result", "done") ∷ [])
  pure tt

-- `TransitionRequestParams(worker_id=worker_id)`
abbrev for_worker : String → TransitionRequestParams
for_worker worker_id = record no_changes { worker_id = value (some worker_id) }

-- `run_status.retry_count + 1`
abbrev pub next_retry : Option ℕ → Exec Runtime ℕ
next_retry none = raise type_error
next_retry (some n) = pure (n + 1)

-- `recover_expired_runs`
unfoldable pub recover_expired_runs : Uuid → RunStatus → String → Exec Runtime (Unit {0})
recover_expired_runs run_id run_status worker_id = do
  transition_locked run_id timed_out (some (for_worker worker_id))
  retries ← next_retry run_status.retry_count
  transition_locked run_id retrying
      (some (record (for_worker worker_id) { retry_count = value (some retries) }))
  transition_locked run_id enqueued (some (for_worker worker_id))

-- What the first loop of `claim_run` does once it knows whether the claim has expired.
recover_if : Bool → String → Uuid → RunStatus → Exec Runtime (Unit {0})
recover_if false worker_id run_id run_status = pure tt
recover_if true worker_id run_id run_status = do
  append_event run_id "claim_expired" []
  recover_expired_runs run_id run_status worker_id

-- The body of the first loop of `claim_run`, for a run that is there.
unfoldable pub expire_found : String → Uuid → RunStatus → Exec Runtime (Unit {0})
unfolding recover_if
expire_found worker_id run_id run_status =
    if is_running run_status.status
    then (do expired ← has_claim_expired run_status; recover_if expired worker_id run_id run_status)
    else pure tt

-- The body of the first loop of `claim_run`. No run is ever removed, so the key is always there.
unfoldable pub expire_run : String → Uuid → Exec Runtime (Unit {0})
unfolding expire_found
expire_run worker_id run_id = if_found run_id (pure tt) (expire_found worker_id run_id)

-- The first loop of `claim_run`
unfoldable pub expire_loop : String → List Uuid → Exec Runtime (Unit {0})
expire_loop worker_id [] = pure tt
expire_loop worker_id (k ∷ ks) = expire_run worker_id k >> expire_loop worker_id ks

-- What the second loop of `claim_run` does with the first run that is free.
unfoldable pub claim_enqueued : String → Uuid → Exec Runtime (Option ClaimedRun)
claim_enqueued worker_id run_id = do
  expiration_unix_ts ← get_new_expiration_ts
  transition_locked run_id running (
      some (record (for_worker worker_id) { expiration_unix_ts = value (some expiration_unix_ts) }))
  append_event run_id "claimed" (("worker", worker_id) ∷ [])
  claimed ← get_run run_id
  pure (some (record { id = run_id; claim_type = "enqueued"; run_status = claimed }))

-- The body of the second loop of `claim_run`, for a run that is there; `none` is `continue`.
unfoldable pub claim_found : String → Uuid → RunStatus → Exec Runtime (Option ClaimedRun)
claim_found worker_id run_id run_status =
    if is_enqueued run_status.status
    then if run_status.cancel_requested
      then (do set_cancelled_locked run_id; pure none)
      else claim_enqueued worker_id run_id
    else pure none

-- The body of the second loop of `claim_run`
unfoldable pub try_claim : String → Uuid → Exec Runtime (Option ClaimedRun)
unfolding claim_found
try_claim worker_id run_id = if_found run_id (pure none) (claim_found worker_id run_id)

-- The second loop of `claim_run`: it ends at the first claim.
unfoldable pub claim_loop : String → List Uuid → Exec Runtime (Option ClaimedRun)
claim_loop worker_id [] = pure none
claim_loop worker_id (k ∷ ks) =
    try_claim worker_id k
    >>= elim [ none ↦ claim_loop worker_id ks | some claim ↦ pure (some claim) ]

-- `claim_run`
unfoldable pub claim_run : String → Exec Runtime (Option ClaimedRun)
claim_run worker_id s =
    (expire_loop worker_id (keys s.runs) >> λ t. claim_loop worker_id (keys t.runs) t) s

-- `run_status.claimed_worker == worker_id`
abbrev pub is_claimed_by : String → Option String → Bool
is_claimed_by worker_id none = false
is_claimed_by worker_id (some w) = str_eq w worker_id

-- `heartbeat`, on a run that is there; the test for `CANCELLED` before returns the same.
heartbeat_found : Uuid → String → RunStatus → Exec Runtime RunStatus
heartbeat_found run_id worker_id run_status =
    if is_running run_status.status
    then if is_claimed_by worker_id run_status.claimed_worker
      then (do
        expiration ← get_new_expiration_ts
        let updated = record run_status {
          status = running;
          claimed_worker = some worker_id;
          claim_expiration_unix_ts = some expiration;
        }
        put_run run_id updated
        pure updated)
      else (do append_event run_id "claim_lost" (("worker", worker_id) ∷ []); raise lease_lost)
    else pure run_status

-- `heartbeat`
unfoldable pub heartbeat : Uuid → String → Exec Runtime RunStatus
unfolding heartbeat_found
heartbeat run_id worker_id = if_found run_id (raise key_error) (heartbeat_found run_id worker_id)
