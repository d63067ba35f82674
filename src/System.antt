-- ===== src/System.antt =====
-- The stores at work together: the HTTP side and any number of workers call their methods in any
-- order on one shared runtime. Each method is one step, since none waits while it holds its lock.
use movie_reservation_agent.Prelude.{ℕ, String, ◌≡◌, true, Option, some, none, List, ◌++◌}
use movie_reservation_agent.Dict.{Uuid, lookup}
use movie_reservation_agent.Value.{Value}
use movie_reservation_agent.Contracts.{Timestamp, RunStatus, RunStatusCode, RunEvent, is_terminal}
use movie_reservation_agent.Transitions.Diagram.{◌⟶◌}
use movie_reservation_agent.Runtime.Moves.{Recovers, Taken}
use movie_reservation_agent.EventLog.{ℤ}
use movie_reservation_agent.Runtime.{Runtime, create_default_in_memory_runtime, notify, finish_wait}
use movie_reservation_agent.Runtime.Evolution.{
  IsValid, IsSound, IsSound-preorder, create_default_in_memory_runtime-IsValid, notify-IsSound,
  finish_wait-IsSound,
}
use movie_reservation_agent.Intake.{
  RunRequest, create_run, get_status, mark_enqueued, mark_cancelled, request_cancellation,
  get_events,
}
use movie_reservation_agent.Intake.Soundness.{
  create_run-IsSound, get_status-IsSound, mark_enqueued-IsSound, mark_cancelled-IsSound,
  request_cancellation-IsSound, get_events-IsSound,
}
use movie_reservation_agent.Processing.{
  claim_run, heartbeat, set_succeeded, set_failed, set_cancelled,
}
use movie_reservation_agent.Processing.Soundness.{
  claim_run-IsSound, heartbeat-IsSound, set_succeeded-IsSound, set_failed-IsSound,
  set_cancelled-IsSound,
}

-- One call of a method, whether it returns or raises. `uuid4` never gives an id that is in use.
pub data Step (s : Runtime) : Runtime → Type 0 where
  creates : (k : Uuid) (r : RunRequest) → lookup k s.runs ≡ none → Step s (create_run k r s).1
  reads : (k : Uuid) → Step s (get_status k s).1
  enqueues : (k : Uuid) → Step s (mark_enqueued k s).1
  marks_cancelled : (k : Uuid) → Step s (mark_cancelled k s).1
  requests : (k : Uuid) → Step s (request_cancellation k s).1
  lists : (k : Uuid) (after : Option ℤ) → Step s (get_events k after s).1
  claims : (worker : String) → Step s (claim_run worker s).1
  beats : (k : Uuid) (worker : String) → Step s (heartbeat k worker s).1
  succeeds : (k : Uuid) (result : Value) → Step s (set_succeeded k result s).1
  fails : (k : Uuid) (error : String) → Step s (set_failed k error s).1
  cancels : (k : Uuid) → Step s (set_cancelled k s).1
  notifies : Step s (notify s).1
  wakes : Step s (finish_wait s).1

-- Any number of calls.
pub data Reach (s : Runtime) : Runtime → Type 0 where
  here : Reach s s
  next : {t u : Runtime} → Reach s t → Step t u → Reach s u

Step-IsSound : {s t : Runtime} → Step s t → IsSound s t
Step-IsSound {s} (creates k r fresh) = create_run-IsSound k r s fresh
Step-IsSound {s} (reads k) = (get_status-IsSound k).at s
Step-IsSound {s} (enqueues k) = (mark_enqueued-IsSound k).at s
Step-IsSound {s} (marks_cancelled k) = (mark_cancelled-IsSound k).at s
Step-IsSound {s} (requests k) = (request_cancellation-IsSound k).at s
Step-IsSound {s} (lists k after) = (get_events-IsSound k after).at s
Step-IsSound {s} (claims worker) = (claim_run-IsSound worker).at s
Step-IsSound {s} (beats k worker) = (heartbeat-IsSound k worker).at s
Step-IsSound {s} (succeeds k result) = (set_succeeded-IsSound k result).at s
Step-IsSound {s} (fails k error) = (set_failed-IsSound k error).at s
Step-IsSound {s} (cancels k) = (set_cancelled-IsSound k).at s
Step-IsSound {s} notifies = notify-IsSound.at s
Step-IsSound {s} wakes = finish_wait-IsSound.at s

pub Reach-IsSound : {s t : Runtime} → Reach s t → IsSound s t
Reach-IsSound {s} here = IsSound-preorder.refl_at s
Reach-IsSound {s} {t} (next {t = u} r st) =
    IsSound-preorder.trans_at s u t (Reach-IsSound r) (Step-IsSound st)

-- From an empty runtime, whatever calls are made in whatever order, failing ones included, the
-- storage is valid: every run is stored under its own id and has a gapless event stream, a RUNNING
-- run has an owner and a lease, a SUCCEEDED one a result and a FAILED one an error.
pub reachable-IsValid :
    (clock : ℕ → Timestamp) {t : Runtime}
    → Reach (create_default_in_memory_runtime clock) t
    → IsValid t
reachable-IsValid clock r = (Reach-IsSound r).valid (create_default_in_memory_runtime-IsValid clock)

-- A run in a terminal status stays as it is, in every field, through any calls.
pub terminal_forever :
    (k : Uuid) (st : RunStatus) {s t : Runtime}
    → Reach s t
    → lookup k s.runs ≡ some st
    → is_terminal st.status ≡ true
    → lookup k t.runs ≡ some st
terminal_forever k st r there terminal =
    let (st', now, ev) = (Reach-IsSound r).run k st there in rw (← ev.frozen terminal) now

-- Through any calls the events of a run that are logged stay, in their order, at the beginning of
-- its stream.
pub events_append_only :
    (k : Uuid) (es : List RunEvent) {s t : Runtime}
    → Reach s t
    → lookup k s.event_log.internal_run_events ≡ some es
    → (more : List RunEvent) × (lookup k t.event_log.internal_run_events ≡ some (es ++ more))
events_append_only k es r there = (Reach-IsSound r).log.stream k es there

-- How one call may move the status of a run: not at all, along one edge of the diagram, or, by a
-- claim, along edges from RUNNING by way of TIMED_OUT and RETRYING to ENQUEUED and then along at
-- most one edge from ENQUEUED.
pub data Move (a : RunStatusCode) : RunStatusCode → Type 0 where
  stays : Move a a
  along : {b : RunStatusCode} → a ⟶ b → Move a b
  recovers : {m b : RunStatusCode} → Recovers a m → Taken m b → Move a b

abbrev IsMoved : Uuid → RunStatus → Runtime → Type 0
IsMoved k st t = (st' : RunStatus) × (lookup k t.runs ≡ some st') × Move st.status st'.status
