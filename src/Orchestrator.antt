-- ===== src/Orchestrator.antt =====
-- BackendRunOrchestrationService of llm_agent/llm_agent/services/agent/orchestrator.py, over the
-- in-memory intake store and signal queue.
pub mod Creation
pub mod Cancellation
use movie_reservation_agent.Prelude.{String, Bool, true, false, Option, List, [], if◌then◌else◌}
use movie_reservation_agent.Exec.{Exec, pure, ◌>>=◌, ◌>>◌}
use movie_reservation_agent.Dict.{Uuid}
use movie_reservation_agent.Contracts.{RunStatus, RunEvent}
use movie_reservation_agent.EventLog.{ℤ}
use movie_reservation_agent.Runtime.{Runtime, notify}
use movie_reservation_agent.Intake
use movie_reservation_agent.Intake.{RunRequest, mark_enqueued, get_status, request_cancellation}

-- The request that `create_run` makes of a prompt.
abbrev run_request_of : String → RunRequest
run_request_of prompt = record {
  prompt = prompt;
  history = [];
  user_id = "hardcoded_user_later_take_it_from_context";
}

-- `create_run`; `run_id` is what `uuid.uuid4()` returned in the store.
unfoldable pub create_run : Uuid → String → Exec Runtime RunStatus
create_run run_id prompt = do
  created_run ← Intake.create_run run_id (run_request_of prompt)
  mark_enqueued created_run.id
  notify
  pure created_run

-- `get_run`
unfoldable pub get_run : Uuid → Exec Runtime RunStatus
get_run run_id = get_status run_id

notify_if : Bool → Exec Runtime (Unit {0})
notify_if true = notify
notify_if false = pure tt

-- `cancel_run`
unfoldable pub cancel_run : Uuid → Exec Runtime Bool
unfolding notify_if
cancel_run run_id = do
  is_cancelled ← request_cancellation run_id
  notify_if is_cancelled
  pure is_cancelled

-- `get_events`
unfoldable pub get_events : Uuid → Option ℤ → Exec Runtime (List RunEvent)
get_events run_id after_sequence = Intake.get_events run_id after_sequence
