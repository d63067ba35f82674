-- ===== src/Runtime.antt =====
-- InMemoryRuntime of llm_agent/local_runtime/provider.py: the storage that the intake side and
-- the workers share, with the signal of llm_agent/local_runtime/run_signal_queue/queue.py.
-- Nothing waits while a store's lock is held, so each store method is one step.
pub mod Evolution
pub mod Others
pub mod Moves
use movie_reservation_agent.Prelude.{
  ℕ, suc, String, Bool, true, false, Option, none, some, List, [], ◌∷◌,
}
use movie_reservation_agent.Exec.{Exec, ok, key_error, pure, raise, modify}
use movie_reservation_agent.Dict.{Uuid, Dict, lookup, insert}
use movie_reservation_agent.Contracts.{Timestamp, Payload, RunStatus, RunEvent}
use movie_reservation_agent.EventLog
use movie_reservation_agent.EventLog.{EventLog, empty_log}

-- `clock n` is what the reading of the clock after the next `n` will give, in microseconds; the
-- program does not control it. `signal` is the event of the signal queue.
pub record Runtime : Type 0 where
  pub runs : Dict RunStatus
  pub event_log : EventLog
  pub signal : Bool
  pub clock : ℕ → Timestamp

-- `create_default_in_memory_runtime`, started at some clock.
abbrev pub create_default_in_memory_runtime : (ℕ → Timestamp) → Runtime
create_default_in_memory_runtime clock = record {
  runs = [];
  event_log = empty_log;
  signal = false;
  clock = clock;
}

-- `datetime.now().timestamp()`
unfoldable pub read_clock : Exec Runtime Timestamp
read_clock s = (ok (s.clock 0), record s { clock = λ n. s.clock (suc n) })

abbrev pub select :
    {A : Type 0} → Option RunStatus → Exec Runtime A → (RunStatus → Exec Runtime A) → Exec Runtime A
select none missing found = missing
select (some run_status) missing found = found run_status

-- `self._runs[run_id]` where it is there, another course where it is not.
abbrev pub if_found :
    {A : Type 0} → Uuid → Exec Runtime A → (RunStatus → Exec Runtime A) → Exec Runtime A
if_found run_id missing found s = select (lookup run_id s.runs) missing found s

-- `self._runs[run_id]`
abbrev pub get_run : Uuid → Exec Runtime RunStatus
get_run run_id = if_found run_id (raise key_error) pure

-- `self._runs[run_id] = run_status`
unfoldable pub put_run : Uuid → RunStatus → Exec Runtime (Unit {0})
put_run run_id run_status = modify λ s. record s { runs = insert run_id run_status s.runs }

-- `await self._events.init_run_stream(run_id)`
unfoldable pub init_run_stream : Uuid → Exec Runtime (Unit {0})
init_run_stream run_id s =
    let r = EventLog.init_run_stream run_id s.event_log in (r.0, record s { event_log = r.1 })

-- `await self._events.append(run_id, event_type=..., payload=...)`
unfoldable pub append_event : Uuid → String → Payload → Exec Runtime RunEvent
append_event run_id event_type payload s =
    let r = EventLog.append run_id event_type payload (s.clock 0) s.event_log in
    (r.0, record s { event_log = r.1; clock = λ n. s.clock (suc n) })

-- `InMemoryRunSignalQueue.notify`
unfoldable pub notify : Exec Runtime (Unit {0})
notify = modify λ s. record s { signal = true }

-- The end of `InMemoryRunSignalQueue.wait`, by the event or by the timeout: the event is cleared.
unfoldable pub finish_wait : Exec Runtime (Unit {0})
finish_wait = modify λ s. record s { signal = false }
