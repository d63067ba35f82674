-- ===== src/Routes/Answers.antt =====
-- What the routes answer, on every branch.
use movie_reservation_agent.Prelude.{
  ℕ, ◌≡◌, refl, true, false, ◌||◌, none, some, List, map, arith, if◌then◌else◌, Bool-cases, inl,
  inr, is_some-value, drop,
}
use movie_reservation_agent.Exec.{ok, run_not_found}
use movie_reservation_agent.Dict.{Uuid, lookup}
use movie_reservation_agent.Contracts.{RunStatus, RunEvent, is_terminal}
use movie_reservation_agent.EventLog.{pos}
use movie_reservation_agent.EventLog.Paging.{list-eq-drop, list-whole}
use movie_reservation_agent.Runtime.{Runtime, select}
use movie_reservation_agent.Runtime.Evolution.{IsValid}
use movie_reservation_agent.Intake
use movie_reservation_agent.Intake.{new_run_status}
use movie_reservation_agent.Processing.Progress.{valid_at}
use movie_reservation_agent.Orchestrator
use movie_reservation_agent.Orchestrator.Cancellation.{cancel_run_outcomes}
use movie_reservation_agent.Routes.{
  body, http_exception, run_to_dto, run_event_to_dto, get_agent_run, cancel_agent_run, events_of,
  get_agent_run_events,
}

-- Asking for a run answers 404 exactly where it is not there, and its state otherwise; either way
-- nothing changes.
pub get_agent_run_answers :
    (k : Uuid) (s : Runtime)
    → get_agent_run k s ≡ (
      elim (lookup k s.runs) [
        | none ↦ http_exception 404 run_not_found
        | some st ↦ body (run_to_dto st)
      ],
      s,
    )
unfolding get_agent_run Orchestrator.get_run Intake.get_status
get_agent_run_answers k s = ground arith

-- Asking to cancel a run of a valid storage answers `already_terminal`, and nothing changes, if the
-- run is terminal or its cancellation was requested before, and else `cancel_requested`, and the
-- request is stored and nothing else about the run is changed.
pub cancel_agent_run_answers :
    (k : Uuid) (st : RunStatus) (s : Runtime)
    → IsValid s
    → lookup k s.runs ≡ some st
    → if is_terminal st.status || st.cancel_requested
      then cancel_agent_run k s ≡ (
        body (record {
          run_id = k;
          status = "already_terminal";
          message = "Run already in terminal state or cancel is requested";
        }),
        s,
      )
      else ((cancel_agent_run k s).0
          ≡ body (record {
            run_id = k;
            status = "cancel_requested";
            message = "Run cancellation requested";
          }))
        × (lookup k (cancel_agent_run k s).1.runs ≡ some (record st { cancel_requested = true }))
unfolding cancel_agent_run
cancel_agent_run_answers k st s v there =
    elim (Bool-cases (is_terminal st.status || st.cancel_requested)) [
      | inl done ↦
          let e : Orchestrator.cancel_run k s ≡ (ok false, s) =
            rw done at (cancel_run_outcomes k st s v there) in
          rw done (rw e refl)
      | inr live ↦
          let (e, there', _) = rw live at (cancel_run_outcomes k st s v there) in
          rw live (rw e refl, there')
    ]

-- In a valid storage the events of a run that is there are always answered, never by 400: with
-- `after` = n these are all but its first n events, without it these are all. Nothing changes.
pub get_agent_run_events_answers :
    (k : Uuid) (n : ℕ) (st : RunStatus) (s : Runtime)
    → IsValid s
    → lookup k s.runs ≡ some st
    → (events : List RunEvent) × (lookup k s.event_log.internal_run_events ≡ some events)
      × (get_agent_run_events k none s ≡ (body (map run_event_to_dto events), s))
      × (get_agent_run_events k (some (pos n)) s ≡ (body (map run_event_to_dto (drop n events)), s))
unfolding get_agent_run_events events_of Orchestrator.get_run Orchestrator.get_events
    Intake.get_status Intake.get_events
get_agent_run_events_answers k n st s v there =
    let (es, found) = is_some-value _ (valid_at k st s v there).2 in
    let whole = list-whole k s.event_log found in
    (
      es,
      found,
      rw (there, select) (rw (there, select) (rw whole refl)),
      rw (there, select) (rw (there, select) (rw (list-eq-drop k s.event_log v.log n whole) refl)),
    )
