-- ===== src/Tests/Stores.antt =====
-- The theorems on the stores and the event log, at a concrete history.
use movie_reservation_agent.Prelude.{◌≡◌, ◌≢◌, refl, true, Option, some, List, [], ◌∷◌, ◌++◌, arith}
use movie_reservation_agent.Exec.{ok, err, invalid_transition}
use movie_reservation_agent.Dict.{lookup}
use movie_reservation_agent.Value.{bool}
use movie_reservation_agent.Contracts.{RunStatus, RunEvent, enqueued, running, failed, cancelled}
use movie_reservation_agent.Transitions.{validate, default_policy}
use movie_reservation_agent.Transitions.Diagram.{◌⟶◌, validate_follows_diagram}
use movie_reservation_agent.Runtime.Evolution.{IsValid}
use movie_reservation_agent.Intake.{mark_enqueued}
use movie_reservation_agent.Intake.Outcomes.{mark_enqueued_outcomes}
use movie_reservation_agent.EventLog.Refinement.{IsRefinement, valid-IsRefinement}
use movie_reservation_agent.Processing.{
  ClaimedRun, claim_run, recover_expired_runs, set_succeeded, set_failed, set_cancelled, heartbeat,
}
use movie_reservation_agent.Processing.Claims.{IsClaim, claim_run-IsClaim}
use movie_reservation_agent.Processing.Exhaustion.{claim_run-none}
use movie_reservation_agent.Processing.Leases.{claim_run_respects_lease}
use movie_reservation_agent.Processing.Progress.{claim_run_returns}
use movie_reservation_agent.Processing.Recovery.{recover_expired_runs_requeues}
use movie_reservation_agent.Processing.Outcomes.{
  report_outcomes, set_cancelled_outcomes, heartbeat_outcomes,
}
use movie_reservation_agent.Processing.Isolation.{worker_calls_isolated}
use movie_reservation_agent.System.{
  next, here, claims, enqueues, terminal_forever, reachable-IsValid, events_append_only,
}
use movie_reservation_agent.Tests.{
  a_created, with_created-IsValid, created_there, still, with_created, with_enqueued, with_claimed,
  with_succeeded, a_enqueued, a_claimed, a_succeeded, to_claimed, to_succeeded,
  with_enqueued-IsValid, with_claimed-IsValid, with_succeeded-IsValid, claimed_there,
  succeeded_there, claim, claim_ok, with_requested, a_requested, unwanted_ok, unwanted_there,
  reading, first_event, stream_created,
}

terminal_forever_example : lookup 7 (claim_run "v" with_succeeded).1.runs ≡ some a_succeeded
terminal_forever_example =
    terminal_forever 7 a_succeeded (next here (claims "v")) succeeded_there refl

reachable-IsValid_example : IsValid with_succeeded
reachable-IsValid_example = reachable-IsValid still to_succeeded

events_append_only_example :
    (more : List RunEvent) × (lookup 7 with_enqueued.event_log.internal_run_events
      ≡ some (first_event ∷ [] ++ more))
events_append_only_example =
    events_append_only 7 (first_event ∷ []) (next here (enqueues 7)) stream_created

claim_run_respects_lease_example : lookup 7 (claim_run "v" with_claimed).1.runs ≡ some a_claimed
claim_run_respects_lease_example =
    claim_run_respects_lease 7 "v" a_claimed 30000001 with_claimed claimed_there refl refl
      (λ n. rw (reading to_claimed n) (omega arith))

claim_run-IsClaim_example : IsClaim "w" with_enqueued.clock with_claimed claim
claim_run-IsClaim_example = claim_run-IsClaim "w" with_enqueued claim_ok

claim_run-none_example :
    (cancelled ≢ enqueued)
    × ((old : RunStatus)
        → lookup 7 with_requested.runs ≡ some old
        → old.status ≡ enqueued
        → old.cancel_requested ≡ true
        → cancelled ≡ cancelled)
claim_run-none_example =
    claim_run-none "v" 7 (record a_requested { status = cancelled }) with_requested unwanted_ok
      unwanted_there

claim_run_returns_example : (o : Option ClaimedRun) × ((claim_run "v" with_claimed).0 ≡ ok o)
claim_run_returns_example = claim_run_returns "v" with_claimed with_claimed-IsValid

recover_expired_runs_requeues_example :
    ((recover_expired_runs 7 a_claimed "v" with_claimed).0 ≡ ok tt)
    × (lookup 7 (recover_expired_runs 7 a_claimed "v" with_claimed).1.runs
        ≡ some (record a_claimed {
          status = enqueued;
          claimed_worker = some "v";
          retry_count = some 1;
        }))
recover_expired_runs_requeues_example =
    recover_expired_runs_requeues 7 "v" 0 a_claimed with_claimed claimed_there refl refl

report_outcomes_example :
    ((set_succeeded 7 (bool true) with_claimed).0 ≡ ok tt)
    × (lookup 7 (set_succeeded 7 (bool true) with_claimed).1.runs ≡ some a_succeeded)
    × ((set_failed 7 "no" with_claimed).0 ≡ ok tt)
    × (lookup 7 (set_failed 7 "no" with_claimed).1.runs
        ≡ some (record a_claimed { status = failed; error = some "no" }))
report_outcomes_example =
    report_outcomes 7 (bool true) "no" a_claimed with_claimed with_claimed-IsValid claimed_there

set_cancelled_outcomes_example :
    ((set_cancelled 7 with_claimed).0 ≡ ok tt)
    × (lookup 7 (set_cancelled 7 with_claimed).1.runs
        ≡ some (record a_claimed { status = cancelled }))
set_cancelled_outcomes_example =
    set_cancelled_outcomes 7 a_claimed with_claimed with_claimed-IsValid claimed_there

heartbeat_outcomes_example : heartbeat 7 "w" with_succeeded ≡ (ok a_succeeded, with_succeeded)
heartbeat_outcomes_example =
    heartbeat_outcomes 7 "w" a_succeeded with_succeeded with_succeeded-IsValid succeeded_there

mark_enqueued_outcomes_example :
    ((mark_enqueued 7 with_created).0 ≡ ok tt)
    × (lookup 7 (mark_enqueued 7 with_created).1.runs ≡ some a_enqueued)
mark_enqueued_outcomes_example =
    mark_enqueued_outcomes 7 a_created with_created with_created-IsValid created_there

worker_calls_isolated_example :
    (lookup 7 (heartbeat 8 "w" with_claimed).1.runs ≡ lookup 7 with_claimed.runs)
    × (lookup 7 (set_succeeded 8 (bool true) with_claimed).1.runs ≡ lookup 7 with_claimed.runs)
    × (lookup 7 (set_failed 8 "no" with_claimed).1.runs ≡ lookup 7 with_claimed.runs)
    × (lookup 7 (set_cancelled 8 with_claimed).1.runs ≡ lookup 7 with_claimed.runs)
worker_calls_isolated_example =
    worker_calls_isolated 8 7 "w" "no" (bool true) with_claimed (λ e. absurd (omega (arith, e)))

validate_follows_diagram_example :
    (a_succeeded.status ⟶ running
      → validate default_policy a_succeeded running with_succeeded ≡ (ok tt, with_succeeded))
    × (¬ (a_succeeded.status ⟶ running)
        → validate default_policy a_succeeded running with_succeeded
          ≡ (err invalid_transition, with_succeeded))
validate_follows_diagram_example = validate_follows_diagram a_succeeded running with_succeeded

valid-IsRefinement_example : IsRefinement with_enqueued.event_log
valid-IsRefinement_example = valid-IsRefinement with_enqueued.event_log with_enqueued-IsValid.log
