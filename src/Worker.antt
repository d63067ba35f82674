-- ===== src/Worker.antt =====
-- A worker: InMemoryConsumer and RunLeaseScope of llm_agent/agent_run_worker/in_memory, with
-- RunExecutionContext of llm_agent/agent_run_worker/domain/runs/execution_context.py.
-- A step that waits lets the rest of the program run: what happens meanwhile is an argument.
pub mod Verdict
pub mod Shutdown
use movie_reservation_agent.Prelude.{
  ℕ, zero, suc, ◌+◌, String, Bool, true, false, Option, none, some, List, [], ◌∷◌, if◌then◌else◌,
}
use movie_reservation_agent.Exec.{
  Exn, Result, ok, err, lease_lost, attribute_error, Exec, pure, modify, ◌>>=◌, ◌>>◌,
}
use movie_reservation_agent.Dict.{Uuid}
use movie_reservation_agent.Value.{Value, bool, dict, field, end}
use movie_reservation_agent.Contracts.{Payload, RunStatus, RunEvent}
use movie_reservation_agent.Runtime
use movie_reservation_agent.Runtime.{Runtime, finish_wait, notify}
use movie_reservation_agent.Intake.{get_status}
use movie_reservation_agent.Processing.{
  ClaimedRun, claim_run, heartbeat, set_cancelled, set_failed, set_succeeded,
}

-- `RunExecutionContext`; the flag is its `cancellation_event`.
pub record RunExecutionContext : Type 0 where
  pub run_id : Uuid
  pub cancellation_event : Bool

-- `InMemoryConsumer`
pub record Consumer : Type 0 where
  pub worker_id : String
  pub execution_allowed : Bool
  pub current_run_execution_ctx : Option RunExecutionContext

-- A consumer and the runtime that it shares with the rest of the program.
pub record World : Type 0 where
  pub runtime : Runtime
  pub consumer : Consumer

-- A method of a store, called by the worker.
abbrev pub on_runtime : {A : Type 0} → Exec Runtime A → Exec World A
on_runtime m w = let r = m w.runtime in (r.0, record w { runtime = r.1 })

abbrev pub cancel_context : Option RunExecutionContext → Option RunExecutionContext
cancel_context none = none
cancel_context (some ctx) = some (record ctx { cancellation_event = true })

-- `RunExecutionContext.cancel`, on the context of the run that is being executed
unfoldable pub cancel : Exec World (Unit {0})
cancel = modify λ w. record w {
  consumer = record (w.consumer) {
    current_run_execution_ctx = cancel_context w.consumer.current_run_execution_ctx;
  };
}

-- `RunExecutionContext.is_cancelled`
abbrev pub is_cancelled : Option RunExecutionContext → Bool
is_cancelled none = false
is_cancelled (some ctx) = ctx.cancellation_event

-- `RunExecutionContext.emit_event`
unfoldable pub emit_event : RunExecutionContext → String → Payload → Exec Runtime RunEvent
emit_event ctx event_type payload = Runtime.append_event ctx.run_id event_type payload

-- `self._current_run_execution_ctx = ctx`
abbrev pub set_context : Option RunExecutionContext → World → World
set_context ctx w = record w { consumer = record (w.consumer) { current_run_execution_ctx = ctx } }

-- One round of `RunLeaseScope.heartbeat_loop` after its sleep; `running` is the scope's flag, and
-- the answer is whether the loop goes on.
abbrev beat : Result RunStatus → Exec World Bool
beat (ok run_status) = if run_status.cancel_requested then (do cancel; pure false) else pure true
beat (err lease_lost) = pure false
beat (err e) = pure true

unfoldable pub heartbeat_round : Bool → Uuid → Exec World Bool
unfolding cancel
heartbeat_round running run_id w =
    let r = on_runtime (heartbeat run_id w.consumer.worker_id) w in
    if running then beat r.0 r.1 else (ok false, w)

-- The five steps of `RandomSleepRunExecutor.execute`: `left` rounds are to come, `done` is how many
-- have been made, and `sleeps n` is what happens during the sleep of round `n`.
unfoldable pub random_sleep_rounds : ℕ → ℕ → (ℕ → World → World) → World → ℕ × World
random_sleep_rounds zero done sleeps w = (done, w)
random_sleep_rounds (suc left) done sleeps w =
    let rest = random_sleep_rounds left (suc done) sleeps (sleeps done w) in
    if is_cancelled w.consumer.current_run_execution_ctx then (done, w) else rest

-- `RandomSleepRunExecutor.execute`
unfoldable pub random_sleep_execute : (ℕ → World → World) → World → ℕ × World
unfolding random_sleep_rounds
random_sleep_execute = random_sleep_rounds 5 0

-- `DummyRunExecutor.execute`
unfoldable pub dummy_execute : (World → World) → World → World
dummy_execute sleep w = if is_cancelled w.consumer.current_run_execution_ctx then w else sleep w

-- `{"ok": True}`
abbrev pub ok_result : Value
ok_result = dict (field "ok" (bool true) end)

-- `execute_run`, after the executor has returned, with the execution context of that time
abbrev pub after_execution : Option RunExecutionContext → Uuid → Exec World (Unit {0})
after_execution none run_id w = (err attribute_error, w)
after_execution (some ctx) run_id w =
    if ctx.cancellation_event
    then on_runtime (set_cancelled run_id) w
    else (do
      run_status ← on_runtime (get_status run_id)
      if run_status.cancel_requested
          then on_runtime (set_cancelled run_id)
          else on_runtime (set_succeeded run_id ok_result))
        w

-- `try: ... except Exception as exc: await self.run_store.set_failed(run_id, str(exc))`
abbrev or_failed : (Exn → String) → Uuid → Result (Unit {0}) × World → Result (Unit {0}) × World
or_failed text run_id (ok a, w) = (ok a, w)
or_failed text run_id (err e, w) = on_runtime (set_failed run_id (text e)) w

-- `finally: self._current_run_execution_ctx = None`
abbrev clear_context : Result (Unit {0}) × World → Result (Unit {0}) × World
clear_context (r, w) = (r, set_context none w)

-- `execute_run`: `execute` is the executor's run with all that happens meanwhile, heartbeats,
-- requests, other workers and a shutdown; `text` is `str` on exceptions.
unfoldable pub execute_run : (Exn → String) → Exec World (Unit {0}) → Uuid → Exec World (Unit {0})
execute_run text execute run_id w = clear_context (
    or_failed text run_id
      ((execute >> λ v. after_execution v.consumer.current_run_execution_ctx run_id v) w))

-- `except Exception: claimed_run = None`
abbrev pub claim_or_none : Result (Option ClaimedRun) → Option ClaimedRun
claim_or_none (ok claimed) = claimed
claim_or_none (err e) = none

-- The loop's body, from the claim on; the answer is whether the loop goes on.
unfoldable pub after_claim :
    (Exn → String) → Exec World (Unit {0}) → Option ClaimedRun → Exec World Bool
after_claim text execute none w = (ok true, w)
after_claim text execute (some claimed) w =
    if w.consumer.execution_allowed
    then (execute_run text execute claimed.id >> pure true)
        (set_context (some (record { run_id = claimed.id; cancellation_event = false })) w)
    else (ok false, w)

-- One round of `consume_and_execute_loop`: `waiting` is what happens until the wait ends.
unfoldable pub consume_round :
    (Exn → String) → (World → World) → Exec World (Unit {0}) → Exec World Bool
unfolding after_claim finish_wait
consume_round text waiting execute w =
    let w1 = (on_runtime finish_wait (waiting w)).1 in
    let r = on_runtime (claim_run w1.consumer.worker_id) w1 in
    after_claim text execute (claim_or_none r.0) r.1

-- `consume_and_execute_loop`, through the waits and executions of `rounds`.
unfoldable pub consume_and_execute_loop :
    (Exn → String) → List ((World → World) × Exec World (Unit {0})) → Exec World (Unit {0})
consume_and_execute_loop text [] w = (ok tt, w)
consume_and_execute_loop text ((waiting, execute) ∷ rounds) w =
    let rest =
      (consume_round text waiting execute >>= λ more.
      if more then consume_and_execute_loop text rounds else pure tt)
        w in
    if w.consumer.execution_allowed then rest else (ok tt, w)

-- `shutdown_execution`
unfoldable pub shutdown_execution : Exec World (Unit {0})
unfolding cancel notify
shutdown_execution = do
  modify (λ w. record w { consumer = record (w.consumer) { execution_allowed = false } })
  cancel
  on_runtime notify
