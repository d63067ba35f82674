-- ===== src/Orchestrator/Cancellation.antt =====
-- How a request of a client to cancel a run ends.
use movie_reservation_agent.Prelude.{
  ◌≡◌, refl, true, false, ◌||◌, none, some, if◌then◌else◌, Bool-cases, inl, inr,
}
use movie_reservation_agent.Exec.{ok, err, run_not_found}
use movie_reservation_agent.Dict.{Uuid, lookup}
use movie_reservation_agent.Contracts.{RunStatus, is_terminal}
use movie_reservation_agent.Runtime.{Runtime, select, notify}
use movie_reservation_agent.Runtime.Evolution.{IsValid}
use movie_reservation_agent.Intake.{request_cancellation}
use movie_reservation_agent.Intake.Outcomes.{request_cancellation_outcomes}
use movie_reservation_agent.Orchestrator.{cancel_run}

-- A run that is not there: `RunNotFoundError`, and nothing is written.
pub cancel_run_missing :
    (k : Uuid) (s : Runtime) → lookup k s.runs ≡ none → cancel_run k s ≡ (err run_not_found, s)
unfolding cancel_run request_cancellation
cancel_run_missing k s absent = rw (absent, select)

-- A run of a valid storage that is terminal, or whose cancellation was requested before: `False`,
-- and nothing changes. Any other: `True`, its cancellation is requested and nothing else about it
-- changes, and the workers are woken.
pub cancel_run_outcomes :
    (k : Uuid) (st : RunStatus) (s : Runtime)
    → IsValid s
    → lookup k s.runs ≡ some st
    → if is_terminal st.status || st.cancel_requested
      then cancel_run k s ≡ (ok false, s)
      else ((cancel_run k s).0 ≡ ok true)
        × (lookup k (cancel_run k s).1.runs ≡ some (record st { cancel_requested = true }))
        × ((cancel_run k s).1.signal ≡ true)
unfolding cancel_run notify
cancel_run_outcomes k st s v there =
    elim (Bool-cases (is_terminal st.status || st.cancel_requested)) [
      | inl done ↦
          let e : request_cancellation k s ≡ (ok false, s) =
            rw done at (request_cancellation_outcomes k st s v there) in
          rw done (rw e refl)
      | inr live ↦
          let (e, there') = rw live at (request_cancellation_outcomes k st s v there) in
          rw live (rw e (refl, there', refl))
    ]
