-- ===== src/Routes.antt =====
-- The routes of llm_agent/llm_agent/api/http/v1/routes/agent.py with the mappers and DTOs beside
-- them. FastAPI parses the request and writes the response; an exception that a route does not
-- catch is FastAPI's.
pub mod Answers
use movie_reservation_agent.Prelude.{ℕ, String, Bool, true, false, Option, List, map}
use movie_reservation_agent.Exec.{
  Exn, Result, ok, err, run_not_found, stream_missing, unknown_status, invalid_transition, Exec,
  ◌>>=◌, ◌>>◌,
}
use movie_reservation_agent.Dict.{Uuid}
use movie_reservation_agent.Value.{Value}
use movie_reservation_agent.Contracts.{
  RunStatusCode, created, enqueued, running, succeeded, failed, cancelled, timed_out, retrying,
  Timestamp, Payload, RunStatus, RunEvent,
}
use movie_reservation_agent.EventLog.{ℤ}
use movie_reservation_agent.Runtime.{Runtime}
use movie_reservation_agent.Orchestrator

-- `status.name`
abbrev pub status_name : RunStatusCode → String
status_name created = "CREATED"
status_name enqueued = "ENQUEUED"
status_name running = "RUNNING"
status_name succeeded = "SUCCEEDED"
status_name failed = "FAILED"
status_name cancelled = "CANCELLED"
status_name timed_out = "TIMED_OUT"
status_name retrying = "RETRYING"

-- `CreatedRunDto`
pub record CreatedRunDto : Type 0 where
  pub id : Uuid

-- `RunDto`
pub record RunDto : Type 0 where
  pub id : Uuid
  pub status : String
  pub result : Option Value
  pub error : Option String
  pub cancel_requested : Bool

-- `RunEventDto`
pub record RunEventDto : Type 0 where
  pub sequence_nr : ℕ
  pub event_type : String
  pub payload : Payload
  pub timestamp_utc : Timestamp

-- `CancelRunResponseDto`
pub record CancelRunResponseDto : Type 0 where
  pub run_id : Uuid
  pub status : String
  pub message : String

-- `CreatedRunV1Mapper.to_dto`
abbrev pub created_run_to_dto : RunStatus → CreatedRunDto
created_run_to_dto run_status = record { id = run_status.id }

-- `RunV1Mapper.to_dto`
abbrev pub run_to_dto : RunStatus → RunDto
run_to_dto run_status = record {
  id = run_status.id;
  status = status_name run_status.status;
  result = run_status.result;
  error = run_status.error;
  cancel_requested = run_status.cancel_requested;
}

-- `RunEventV1Mapper.to_dto`
abbrev pub run_event_to_dto : RunEvent → RunEventDto
run_event_to_dto run_event = record {
  sequence_nr = run_event.sequence_nr;
  event_type = run_event.event_type;
  payload = run_event.payload;
  timestamp_utc = run_event.timestamp_utc;
}

-- What a route gives FastAPI: a body, an `HTTPException` with its status code and the exception
-- whose text is the detail, or an exception that it lets through.
pub data Response (A : Type 0) : Type 0 where
  body : A → Response A
  http_exception : ℕ → Exn → Response A
  uncaught : Exn → Response A

-- No `except` clause
abbrev catch_none : {A B : Type 0} → (A → B) → Result A → Response B
catch_none f (ok a) = body (f a)
catch_none f (err e) = uncaught e

-- `except RunNotFoundError`
abbrev catch_not_found : {A B : Type 0} → (A → B) → Result A → Response B
catch_not_found f (ok a) = body (f a)
catch_not_found f (err run_not_found) = http_exception 404 run_not_found
catch_not_found f (err e) = uncaught e

-- `except RunNotFoundError` and `except ValueError`; the event log and the policy raise the latter.
abbrev catch_value_error : {A B : Type 0} → (A → B) → Result A → Response B
catch_value_error f (ok a) = body (f a)
catch_value_error f (err run_not_found) = http_exception 404 run_not_found
catch_value_error f (err stream_missing) = http_exception 400 stream_missing
catch_value_error f (err unknown_status) = http_exception 400 unknown_status
catch_value_error f (err invalid_transition) = http_exception 400 invalid_transition
catch_value_error f (err e) = uncaught e

-- `create_agent_run`
unfoldable pub create_agent_run : Uuid → String → Runtime → Response CreatedRunDto × Runtime
create_agent_run run_id prompt s =
    let r = Orchestrator.create_run run_id prompt s in (catch_none created_run_to_dto r.0, r.1)

-- `get_agent_run`
unfoldable pub get_agent_run : Uuid → Runtime → Response RunDto × Runtime
get_agent_run run_id s =
    let r = Orchestrator.get_run run_id s in (catch_not_found run_to_dto r.0, r.1)

-- The answer of `cancel_agent_run`
abbrev pub cancel_to_dto : Uuid → Bool → CancelRunResponseDto
cancel_to_dto run_id true = record {
  run_id = run_id;
  status = "cancel_requested";
  message = "Run cancellation requested";
}
cancel_to_dto run_id false = record {
  run_id = run_id;
  status = "already_terminal";
  message = "Run already in terminal state or cancel is requested";
}

-- `cancel_agent_run`
unfoldable pub cancel_agent_run : Uuid → Runtime → Response CancelRunResponseDto × Runtime
cancel_agent_run run_id s =
    let r = Orchestrator.cancel_run run_id s in (catch_not_found (cancel_to_dto run_id) r.0, r.1)

-- The `try` of `get_agent_run_events`
events_of : Uuid → Option ℤ → Exec Runtime (List RunEvent)
events_of run_id after = do Orchestrator.get_run run_id; Orchestrator.get_events run_id after

-- `get_agent_run_events`
unfoldable pub get_agent_run_events :
    Uuid → Option ℤ → Runtime → Response (List RunEventDto) × Runtime
unfolding events_of
get_agent_run_events run_id after s =
    let r = events_of run_id after s in (catch_value_error (map run_event_to_dto) r.0, r.1)
