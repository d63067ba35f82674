-- ===== src/EventLog.antt =====
-- InMemoryRunEventLog of llm_agent/local_runtime/event_log/in_memory.py. Its lock is never held
-- across a wait, so a method is one step. The reading of the clock is an argument of `append`.
pub mod Numbering
pub mod Paging
pub mod Refinement
pub use movie_reservation_agent.Int.{ℤ, pos, negsuc}
use movie_reservation_agent.Prelude.{
  ℕ, ◌+◌, String, Bool, true, false, Option, none, some, List, [], ◌∷◌, ◌++◌, ltb, if◌then◌else◌,
}
use movie_reservation_agent.Exec.{Exec, Result, ok, err, stream_missing, key_error}
use movie_reservation_agent.Dict.{Uuid, Dict, lookup, insert, contains}
use movie_reservation_agent.Contracts.{Payload, Timestamp, RunEvent}

pub record EventLog : Type 0 where
  pub internal_run_events : Dict (List RunEvent)
  pub next_sequence_nr : Dict ℕ

-- `InMemoryRunEventLog()`
abbrev pub empty_log : EventLog
empty_log = record { internal_run_events = []; next_sequence_nr = [] }

-- `init_run_stream`
unfoldable pub init_run_stream : Uuid → Exec EventLog (Unit {0})
init_run_stream run_id log = if contains run_id log.internal_run_events then (ok tt, log) else (
  ok tt,
  record {
    internal_run_events = insert run_id [] log.internal_run_events;
    next_sequence_nr = insert run_id 1 log.next_sequence_nr;
  },
)

-- `append`, once the stream and its next number are found.
abbrev append_event :
    Uuid → String → Payload → Timestamp → Option (List RunEvent) → Option ℕ → Exec EventLog RunEvent
append_event run_id event_type payload now none next log = (err stream_missing, log)
append_event run_id event_type payload now (some events) none log = (err key_error, log)
append_event run_id event_type payload now (some events) (some sequence_nr) log =
    let run_event : RunEvent = record {
      run_id = run_id;
      sequence_nr = sequence_nr;
      event_type = event_type;
      payload = payload;
      timestamp_utc = now;
    } in
    (
      ok run_event,
      record {
        internal_run_events = insert run_id (events ++ run_event ∷ []) log.internal_run_events;
        next_sequence_nr = insert run_id (sequence_nr + 1) log.next_sequence_nr;
      },
    )

-- `append`
unfoldable pub append : Uuid → String → Payload → Timestamp → Exec EventLog RunEvent
append run_id event_type payload now log =
    append_event run_id event_type payload now (lookup run_id log.internal_run_events)
      (lookup run_id log.next_sequence_nr) log

-- `sequence_nr > after_sequence`
abbrev pub is_after : ℤ → RunEvent → Bool
is_after (pos n) event = ltb n event.sequence_nr
is_after (negsuc n) event = true

-- The list comprehension of `list`.
unfoldable pub events_after : ℤ → List RunEvent → List RunEvent
events_after n [] = []
events_after n (event ∷ events) =
    let rest = events_after n events in if is_after n event then event ∷ rest else rest

abbrev select_events : Option ℤ → List RunEvent → List RunEvent
select_events none events = events
select_events (some n) events = events_after n events

abbrev list_events : Option ℤ → Option (List RunEvent) → Exec EventLog (List RunEvent)
list_events after none log = (err stream_missing, log)
list_events after (some events) log = (ok (select_events after events), log)

-- `list`
unfoldable pub list : Uuid → Option ℤ → Exec EventLog (List RunEvent)
unfolding events_after
list run_id after log = list_events after (lookup run_id log.internal_run_events) log
