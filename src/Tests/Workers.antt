-- ===== src/Tests/Workers.antt =====
-- The theorems on a worker, at a concrete history.
use movie_reservation_agent.Prelude.{String, ◌≡◌, refl, true, false, none, some}
use movie_reservation_agent.Exec.{Exn, ok, err, invalid_transition, key_error, Exec}
use movie_reservation_agent.Dict.{lookup, insert, keys}
use movie_reservation_agent.Contracts.{succeeded, failed, cancelled}
use movie_reservation_agent.Runtime.{
  Runtime, finish_wait, notify, read_clock, put_run, init_run_stream, append_event,
}
use movie_reservation_agent.EventLog
use movie_reservation_agent.Intake.{create_run, mark_enqueued}
use movie_reservation_agent.Transitions.{validate, find_rule, mem_code}
use movie_reservation_agent.Processing.{
  claim_run, expire_loop, expire_run, expire_found, claim_loop, try_claim, claim_found,
  claim_enqueued, get_new_expiration_ts, transition_locked,
}
use movie_reservation_agent.Worker.{
  World, RunExecutionContext, cancel, execute_run, ok_result, shutdown_execution,
}
use movie_reservation_agent.Worker.Verdict.{
  execute_run_verdict, execute_run_failure, execute_run_lost,
}
use movie_reservation_agent.Worker.Shutdown.{shutdown_cancels_run}
use movie_reservation_agent.Tests.{
  with_enqueued, with_claimed, with_succeeded, a_claimed, a_succeeded, with_claimed-IsValid,
  with_succeeded-IsValid, claimed_there, succeeded_there, claim,
}

abbrev world : Runtime → World
world s = record {
  runtime = s;
  consumer = record { worker_id = "w"; execution_allowed = true; current_run_execution_ctx = none };
}

abbrev text : Exn → String
text e = "text"

abbrev busy : RunExecutionContext
busy = record { run_id = 7; cancellation_event = false }

-- A world in which the worker executes the run 7.
abbrev executing : Runtime → World
executing s = record {
  runtime = s;
  consumer = record {
    worker_id = "w";
    execution_allowed = true;
    current_run_execution_ctx = some busy;
  };
}

-- Executors that return, raise, and return after somebody else has reported the run as done.
abbrev returns : Exec World (Unit {0})
returns w = (ok tt, w)

abbrev raises : Exec World (Unit {0})
raises w = (err key_error, w)

abbrev overtaken : Exec World (Unit {0})
overtaken w = (ok tt, executing with_succeeded)

execute_run_verdict_example :
    ((execute_run text returns 7 (executing with_claimed)).0 ≡ ok tt)
    × (lookup 7 (execute_run text returns 7 (executing with_claimed)).1.runtime.runs
        ≡ some (record a_claimed { status = succeeded; result = some ok_result }))
execute_run_verdict_example =
    execute_run_verdict text returns 7 a_claimed busy (executing with_claimed)
      (executing with_claimed) refl refl with_claimed-IsValid claimed_there refl

execute_run_failure_example :
    ((execute_run text raises 7 (executing with_claimed)).0 ≡ ok tt)
    × (lookup 7 (execute_run text raises 7 (executing with_claimed)).1.runtime.runs
        ≡ some (record a_claimed { status = failed; error = some "text" }))
execute_run_failure_example =
    execute_run_failure text raises 7 key_error a_claimed (executing with_claimed)
      (executing with_claimed) refl with_claimed-IsValid claimed_there refl

execute_run_lost_example :
    ((execute_run text overtaken 7 (executing with_claimed)).0 ≡ err invalid_transition)
    × ((execute_run text overtaken 7 (executing with_claimed)).1.runtime ≡ with_succeeded)
execute_run_lost_example =
    execute_run_lost text overtaken 7 a_succeeded busy (executing with_claimed)
      (executing with_succeeded) refl refl with_succeeded-IsValid succeeded_there refl refl

-- A wait that a shutdown ends.
abbrev shut_down : World → World
shut_down w = (shutdown_execution w).1

abbrev woken : Runtime
woken = (finish_wait (shut_down (world with_enqueued)).runtime).1

claim_ok_woken : claim_run "w" woken ≡ (ok (some claim), (claim_run "w" woken).1)
unfolding create_run mark_enqueued validate find_rule mem_code put_run init_run_stream append_event
    EventLog.init_run_stream EventLog.append lookup insert keys claim_run expire_loop expire_run
    expire_found claim_loop try_claim claim_found claim_enqueued get_new_expiration_ts read_clock
    transition_locked shutdown_execution cancel notify finish_wait
claim_ok_woken = refl

stopped : (shut_down (world with_enqueued)).consumer.execution_allowed ≡ false
unfolding shutdown_execution cancel
stopped = refl

same_worker : (shut_down (world with_enqueued)).consumer.worker_id ≡ "w"
unfolding shutdown_execution cancel
same_worker = refl

-- The executor returns right after a shutdown.
abbrev interrupted : Exec World (Unit {0})
interrupted w = (ok tt, (shutdown_execution w).1)

shutdown_cancels_run_example :
    ((execute_run text interrupted 7 (executing with_claimed)).0 ≡ ok tt)
    × (lookup 7 (execute_run text interrupted 7 (executing with_claimed)).1.runtime.runs
        ≡ some (record a_claimed { status = cancelled }))
shutdown_cancels_run_example =
    shutdown_cancels_run text interrupted 7 a_claimed busy (executing with_claimed)
      (executing with_claimed) refl refl with_claimed-IsValid claimed_there refl
