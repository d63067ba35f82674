-- ===== src/Worker/Shutdown.antt =====
-- The shutdown of a worker: `shutdown_execution` and what the loop does after it.
use movie_reservation_agent.Prelude.{String, ◌≡◌, ap, true, some}
use movie_reservation_agent.Exec.{Exn, ok, Exec}
use movie_reservation_agent.Dict.{Uuid, lookup}
use movie_reservation_agent.Contracts.{RunStatus, running, cancelled}
use movie_reservation_agent.Runtime.{notify}
use movie_reservation_agent.Runtime.Evolution.{IsValid, notify-IsSound}
use movie_reservation_agent.Worker.{
  World, RunExecutionContext, cancel, cancel_context, execute_run, shutdown_execution,
}
use movie_reservation_agent.Worker.Verdict.{execute_run_verdict}

-- A shutdown comes while a run executes, which in a valid storage is RUNNING, and the executor
-- returns at a checkpoint right after it. Then the run ends CANCELLED, and is not left RUNNING to
-- be recovered.
pub shutdown_cancels_run :
    (text : Exn → String) (execute : Exec World (Unit {0})) (k : Uuid) (st : RunStatus)
    (ctx : RunExecutionContext) (w w' : World)
    → execute w ≡ (ok tt, (shutdown_execution w').1)
    → w'.consumer.current_run_execution_ctx ≡ some ctx
    → IsValid w'.runtime
    → lookup k w'.runtime.runs ≡ some st
    → st.status ≡ running
    → ((execute_run text execute k w).0 ≡ ok tt)
      × (lookup k (execute_run text execute k w).1.runtime.runs
          ≡ some (record st { status = cancelled }))
shutdown_cancels_run text execute k st ctx w w' done busy v there run =
    let v' : IsValid (shutdown_execution w').1.runtime =
      unfold shutdown_execution in unfold cancel in (notify-IsSound.at w'.runtime).valid v in
    let there' : lookup k (shutdown_execution w').1.runtime.runs ≡ some st =
      unfold shutdown_execution in unfold cancel in unfold notify in there in
    let flagged : (shutdown_execution w').1.consumer.current_run_execution_ctx
        ≡ some (record ctx { cancellation_event = true }) =
      unfold shutdown_execution in unfold cancel in ap cancel_context busy in
    execute_run_verdict text execute k st (record ctx { cancellation_event = true }) w
      (shutdown_execution w').1 done flagged v' there' run
