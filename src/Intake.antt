-- ===== src/Intake.antt =====
-- InMemoryRunIntakeStore of llm_agent/local_runtime/run_store/intake.py, the store on the side of
-- the HTTP interface. It is built with `RunTransitionPolicy()`.
pub mod Soundness
pub mod Moves
pub mod Outcomes
use movie_reservation_agent.Prelude.{
  ℕ, String, Bool, true, false, Option, none, some, List, [], ◌∷◌, if◌then◌else◌,
}
use movie_reservation_agent.Exec.{Exec, ok, err, run_not_found, pure, raise, ◌>>=◌, ◌>>◌}
use movie_reservation_agent.Dict.{Uuid, lookup}
use movie_reservation_agent.Contracts.{
  RunStatus, RunEvent, created, enqueued, cancelled, is_terminal,
}
use movie_reservation_agent.Transitions.{default_policy, validate}
use movie_reservation_agent.EventLog
use movie_reservation_agent.EventLog.{ℤ}
use movie_reservation_agent.Runtime.{
  Runtime, if_found, get_run, put_run, init_run_stream, append_event,
}

-- `RunRequest`
pub record RunRequest : Type 0 where
  pub prompt : String
  pub history : List String
  pub user_id : String

-- The status that `create_run` stores; the other fields have their defaults.
abbrev pub new_run_status : Uuid → RunStatus
new_run_status run_id = record {
  id = run_id;
  status = created;
  result = none;
  error = none;
  claimed_worker = none;
  claim_expiration_unix_ts = none;
  retry_count = some 0;
  cancel_requested = false;
}

-- `create_run`; `run_id` is what `uuid.uuid4()` returned.
unfoldable pub create_run : Uuid → RunRequest → Exec Runtime RunStatus
create_run run_id run_request = do
  put_run run_id (new_run_status run_id)
  init_run_stream run_id
  append_event run_id "created" (("user_id", run_request.user_id) ∷ [])
  pure (new_run_status run_id)

-- `get_status`, of both stores
unfoldable pub get_status : Uuid → Exec Runtime RunStatus
get_status run_id = if_found run_id (raise run_not_found) pure

-- The run as `mark_enqueued` writes it: what is not named takes its default.
abbrev pub enqueued_status : RunStatus → RunStatus
enqueued_status st = record (new_run_status st.id) {
  status = enqueued;
  result = st.result;
  error = st.error;
}

-- `mark_enqueued`
unfoldable pub mark_enqueued : Uuid → Exec Runtime (Unit {0})
mark_enqueued run_id = do
  run_status ← get_run run_id
  validate default_policy run_status enqueued
  put_run run_id (enqueued_status run_status)
  append_event run_id "enqueued" []
  pure tt

-- The run as `mark_cancelled` writes it.
abbrev pub cancelled_status : RunStatus → RunStatus
cancelled_status st = record (new_run_status st.id) {
  status = cancelled;
  result = st.result;
  error = st.error;
}

-- `mark_cancelled` on a run that is there
mark_found : Uuid → RunStatus → Exec Runtime Bool
mark_found run_id run_status = if is_terminal run_status.status then pure false else do
  validate default_policy run_status cancelled
  put_run run_id (cancelled_status run_status)
  append_event run_id "cancelled" []
  pure true

-- `mark_cancelled`
unfoldable pub mark_cancelled : Uuid → Exec Runtime Bool
unfolding mark_found
mark_cancelled run_id = if_found run_id (raise run_not_found) (mark_found run_id)

-- `request_cancellation` on a run that is there
unfoldable pub request_found : Uuid → RunStatus → Exec Runtime Bool
request_found run_id run_status =
    if is_terminal run_status.status
    then pure false
    else if run_status.cancel_requested
    then pure false
    else do
      put_run run_id (record run_status { cancel_requested = true })
      append_event run_id "cancel requested" []
      pure true

-- `request_cancellation`
unfoldable pub request_cancellation : Uuid → Exec Runtime Bool
unfolding request_found
request_cancellation run_id = if_found run_id (raise run_not_found) (request_found run_id)

-- `self._events.list`
list_events : Uuid → Option ℤ → Exec Runtime (List RunEvent)
list_events run_id after_sequence s =
    let r = EventLog.list run_id after_sequence s.event_log in (r.0, record s { event_log = r.1 })

-- `get_events`
unfoldable pub get_events : Uuid → Option ℤ → Exec Runtime (List RunEvent)
unfolding list_events
get_events run_id after_sequence =
    if_found run_id (raise run_not_found) (λ _. list_events run_id after_sequence)
