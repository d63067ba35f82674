-- ===== src/Worker/Verdict.antt =====
-- How the execution of a run ends in the store.
use movie_reservation_agent.Prelude.{
  String, ◌≡◌, refl, ap, ◌∙◌, Option, some, Bool, true, false, ◌||◌, arith, Bool-cases, inl, inr,
  if◌then◌else◌,
}
use movie_reservation_agent.Exec.{Exn, ok, err, invalid_transition, Exec}
use movie_reservation_agent.Dict.{Uuid, lookup}
use movie_reservation_agent.Contracts.{RunStatus, succeeded, failed, cancelled, is_running, running}
use movie_reservation_agent.Transitions.Diagram.{allowed}
use movie_reservation_agent.Runtime.{select}
use movie_reservation_agent.Runtime.Evolution.{IsValid}
use movie_reservation_agent.Intake.{get_status}
use movie_reservation_agent.Processing.{set_cancelled, set_succeeded}
use movie_reservation_agent.Processing.Outcomes.{report_outcomes, set_cancelled_outcomes}
use movie_reservation_agent.Worker.{
  World, RunExecutionContext, on_runtime, ok_result, after_execution, execute_run,
}

-- Somebody wants the run stopped: the flag of its context is set, or that of its stored status.
abbrev is_unwanted : RunExecutionContext → RunStatus → Bool
is_unwanted ctx st = ctx.cancellation_event || st.cancel_requested

module _ (k : Uuid) (st : RunStatus) (ctx : RunExecutionContext) (w : World)
    (there : lookup k w.runtime.runs ≡ some st) where
  with_context_unwanted :
      is_unwanted ctx st ≡ true → after_execution (some ctx) k w ≡ on_runtime (set_cancelled k) w
  unfolding get_status
  with_context_unwanted h = elim (Bool-cases ctx.cancellation_event) [
    | inl flagged ↦ rw flagged refl
    | inr calm ↦
        let requested : st.cancel_requested ≡ true = ground (arith, h, calm) in
        rw calm (rw (there, select) (rw requested refl))
  ]

  with_context_wanted :
      is_unwanted ctx st ≡ false
      → after_execution (some ctx) k w ≡ on_runtime (set_succeeded k ok_result) w
  unfolding get_status
  with_context_wanted h =
      let calm : ctx.cancellation_event ≡ false = ground (arith, h) in
      let wanted : st.cancel_requested ≡ false = ground (arith, h) in
      rw calm (rw (there, select) (rw wanted refl))

  module _ (busy : w.consumer.current_run_execution_ctx ≡ some ctx) where
    after_execution_unwanted :
        is_unwanted ctx st ≡ true
        → after_execution w.consumer.current_run_execution_ctx k w ≡ on_runtime (set_cancelled k) w
    after_execution_unwanted h =
        ap (λ (o : Option RunExecutionContext). after_execution o k w) busy
        ∙ with_context_unwanted h

    after_execution_wanted :
        is_unwanted ctx st ≡ false
        → after_execution w.consumer.current_run_execution_ctx k w
          ≡ on_runtime (set_succeeded k ok_result) w
    after_execution_wanted h =
        ap (λ (o : Option RunExecutionContext). after_execution o k w) busy ∙ with_context_wanted h

-- The executor of a run has returned, and at that time, in a valid storage, the run is RUNNING, and
-- the worker has an execution context. Then `execute_run` returns. If the flag of the execution context is set, by a heartbeat or a
-- shutdown, or a cancellation is requested in the store, the run ends CANCELLED; else it ends
-- SUCCEEDED with the result `{"ok": True}`; nothing else about it changes.
pub execute_run_verdict :
    (text : Exn → String) (execute : Exec World (Unit {0})) (k : Uuid) (st : RunStatus)
    (ctx : RunExecutionContext) (w w' : World)
    → execute w ≡ (ok tt, w')
    → w'.consumer.current_run_execution_ctx ≡ some ctx
    → IsValid w'.runtime
    → lookup k w'.runtime.runs ≡ some st
    → st.status ≡ running
    → ((execute_run text execute k w).0 ≡ ok tt)
      × (lookup k (execute_run text execute k w).1.runtime.runs
          ≡ some (
              if is_unwanted ctx st
              then record st { status = cancelled }
              else record st { status = succeeded; result = some ok_result }))
unfolding execute_run
execute_run_verdict text execute k st ctx w w' done busy v there run =
    elim (Bool-cases (is_unwanted ctx st)) [
      | inl unwanted ↦
          let edge : allowed st.status cancelled ≡ true = rw run refl in
          let (went, final) = rw edge at (set_cancelled_outcomes k st w'.runtime v there) in
          rw unwanted (
            rw done (
              rw (after_execution_unwanted k st ctx w' there busy unwanted)
                (rw went (refl, final))))
      | inr wanted ↦
          let on : is_running st.status ≡ true = rw run refl in
          let (went, final, _, _) =
            rw on at (report_outcomes k ok_result "" st w'.runtime v there) in
          rw wanted (
            rw done
              (rw (after_execution_wanted k st ctx w' there busy wanted) (rw went (refl, final))))
    ]

-- The executor of a run has raised, and at that time, in a valid storage, the run is RUNNING: then
-- `execute_run` returns and the run ends FAILED with the exception's text.
pub execute_run_failure :
    (text : Exn → String) (execute : Exec World (Unit {0})) (k : Uuid) (e : Exn) (st : RunStatus)
    (w w' : World)
    → execute w ≡ (err e, w')
    → IsValid w'.runtime
    → lookup k w'.runtime.runs ≡ some st
    → st.status ≡ running
    → ((execute_run text execute k w).0 ≡ ok tt)
      × (lookup k (execute_run text execute k w).1.runtime.runs
          ≡ some (record st { status = failed; error = some (text e) }))
unfolding execute_run
execute_run_failure text execute k e st w w' raised v there run =
    let on : is_running st.status ≡ true = rw run refl in
    let (_, _, went, final) =
      rw on at (report_outcomes k ok_result (text e) st w'.runtime v there) in
    rw raised (rw went (refl, final))

-- The executor of a run has returned, and the worker has an execution context, but by then the run is neither RUNNING nor to be stopped, as
-- when its lease ran out and another worker has it back in the queue or has finished it: the
-- report of success is refused, the report of failure that follows is refused too, and
-- `execute_run` raises out of the worker's loop. The storage is not changed.
pub execute_run_lost :
    (text : Exn → String) (execute : Exec World (Unit {0})) (k : Uuid) (st : RunStatus)
    (ctx : RunExecutionContext) (w w' : World)
    → execute w ≡ (ok tt, w')
    → w'.consumer.current_run_execution_ctx ≡ some ctx
    → IsValid w'.runtime
    → lookup k w'.runtime.runs ≡ some st
    → is_running st.status ≡ false
    → is_unwanted ctx st ≡ false
    → ((execute_run text execute k w).0 ≡ err invalid_transition)
      × ((execute_run text execute k w).1.runtime ≡ w'.runtime)
unfolding execute_run
execute_run_lost text execute k st ctx w w' done busy v there idle wanted =
    let (refused, refused') =
      rw idle at (report_outcomes k ok_result (text invalid_transition) st w'.runtime v there) in
    rw done (
      rw (after_execution_wanted k st ctx w' there busy wanted)
        (rw refused (rw refused' (refl, refl))))
