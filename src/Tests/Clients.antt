-- ===== src/Tests/Clients.antt =====
-- The theorems on the HTTP side, at a concrete history.
use movie_reservation_agent.Prelude.{◌≡◌, true, some}
use movie_reservation_agent.Exec.{ok}
use movie_reservation_agent.Dict.{lookup}
use movie_reservation_agent.Contracts.{enqueued}
use movie_reservation_agent.Orchestrator.{create_run, cancel_run}
use movie_reservation_agent.Orchestrator.Creation.{create_run_enqueues}
use movie_reservation_agent.Orchestrator.Cancellation.{cancel_run_outcomes}
use movie_reservation_agent.Routes.{body, cancel_agent_run}
use movie_reservation_agent.Routes.Answers.{cancel_agent_run_answers}
use movie_reservation_agent.Tests.{
  with_claimed, with_succeeded, a_created, a_claimed, a_succeeded, with_claimed-IsValid,
  with_succeeded-IsValid, claimed_there, succeeded_there, with_claimed_fresh,
}

create_run_enqueues_example :
    ((create_run 9 "a film" with_claimed).0 ≡ ok (record a_created { id = 9 }))
    × (lookup 9 (create_run 9 "a film" with_claimed).1.runs
        ≡ some (record a_created { id = 9; status = enqueued }))
    × ((create_run 9 "a film" with_claimed).1.signal ≡ true)
create_run_enqueues_example =
    create_run_enqueues 9 "a film" with_claimed with_claimed-IsValid with_claimed_fresh

cancel_run_outcomes_example :
    ((cancel_run 7 with_claimed).0 ≡ ok true)
    × (lookup 7 (cancel_run 7 with_claimed).1.runs
        ≡ some (record a_claimed { cancel_requested = true }))
    × ((cancel_run 7 with_claimed).1.signal ≡ true)
cancel_run_outcomes_example =
    cancel_run_outcomes 7 a_claimed with_claimed with_claimed-IsValid claimed_there

cancel_agent_run_answers_example : cancel_agent_run 7 with_succeeded ≡ (
  body (record {
    run_id = 7;
    status = "already_terminal";
    message = "Run already in terminal state or cancel is requested";
  }),
  with_succeeded,
)
cancel_agent_run_answers_example =
    cancel_agent_run_answers 7 a_succeeded with_succeeded with_succeeded-IsValid succeeded_there
