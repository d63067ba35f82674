-- ===== src/Tests.antt =====
-- A small history of one runtime, on which the theorems are tried out.
pub mod Stores
pub mod Workers
pub mod Clients
pub mod Reservations
pub mod Genetic
pub mod Metrics
pub mod Audit
pub mod Authentication
use movie_reservation_agent.Prelude.{
  ℕ, String, ◌≡◌, refl, true, false, Option, none, some, List, [], ◌∷◌,
}
use movie_reservation_agent.Exec.{ok}
use movie_reservation_agent.Dict.{Uuid, lookup, insert, keys}
use movie_reservation_agent.Value.{bool, dict, field, end}
use movie_reservation_agent.Contracts.{
  Timestamp, RunStatus, RunEvent, created, enqueued, running, succeeded, cancelled,
}
use movie_reservation_agent.Runtime.{
  Runtime, create_default_in_memory_runtime, put_run, init_run_stream, append_event, read_clock,
}
use movie_reservation_agent.EventLog
use movie_reservation_agent.Runtime.Evolution.{IsValid}
use movie_reservation_agent.Intake.{
  RunRequest, create_run, mark_enqueued, request_cancellation, request_found,
}
use movie_reservation_agent.Transitions.{validate, find_rule, mem_code}
use movie_reservation_agent.Processing.{
  set_cancelled_locked, claim_run, set_succeeded, expire_loop, expire_run, expire_found, claim_loop,
  try_claim, claim_found, claim_enqueued, get_new_expiration_ts, transition_locked, ClaimedRun,
}
use movie_reservation_agent.System.{
  Reach, here, next, creates, enqueues, claims, succeeds, reachable-IsValid, Reach-IsSound,
}

-- The clock stands at one microsecond.
abbrev pub still : ℕ → Timestamp
still n = 1

abbrev pub empty : Runtime
empty = create_default_in_memory_runtime still

abbrev pub request : RunRequest
request = record { prompt = "a film"; history = []; user_id = "testing" }

abbrev pub with_created : Runtime
with_created = (create_run 7 request empty).1

abbrev pub with_enqueued : Runtime
with_enqueued = (mark_enqueued 7 with_created).1

abbrev pub with_claimed : Runtime
with_claimed = (claim_run "w" with_enqueued).1

abbrev pub with_succeeded : Runtime
with_succeeded = (set_succeeded 7 (bool true) with_claimed).1

-- The run 7 in these states.
abbrev pub a_created : RunStatus
a_created = record {
  id = 7;
  status = created;
  result = none;
  error = none;
  claimed_worker = none;
  claim_expiration_unix_ts = none;
  retry_count = some 0;
  cancel_requested = false;
}

abbrev pub a_enqueued : RunStatus
a_enqueued = record a_created { status = enqueued }

abbrev pub a_claimed : RunStatus
a_claimed = record a_created {
  status = running;
  claimed_worker = some "w";
  claim_expiration_unix_ts = some 30000001;
}

abbrev pub a_succeeded : RunStatus
a_succeeded = record a_claimed { status = succeeded; result = some (bool true) }

pub to_created : Reach empty with_created
to_created = next here (creates 7 request (unfold lookup in refl))

pub to_enqueued : Reach empty with_enqueued
to_enqueued = next to_created (enqueues 7)

pub to_claimed : Reach empty with_claimed
to_claimed = next to_enqueued (claims "w")

pub to_succeeded : Reach empty with_succeeded
to_succeeded = next to_claimed (succeeds 7 (bool true))

pub with_created-IsValid : IsValid with_created
with_created-IsValid = reachable-IsValid still to_created

pub with_enqueued-IsValid : IsValid with_enqueued
with_enqueued-IsValid = reachable-IsValid still to_enqueued

pub with_claimed-IsValid : IsValid with_claimed
with_claimed-IsValid = reachable-IsValid still to_claimed

-- What the stores hold.
pub created_there : lookup 7 with_created.runs ≡ some a_created
unfolding create_run put_run init_run_stream append_event EventLog.init_run_stream EventLog.append
    lookup insert
created_there = refl

pub enqueued_there : lookup 7 with_enqueued.runs ≡ some a_enqueued
unfolding create_run mark_enqueued validate find_rule mem_code put_run init_run_stream append_event
    EventLog.init_run_stream EventLog.append lookup insert
enqueued_there = refl

pub claimed_there : lookup 7 with_claimed.runs ≡ some a_claimed
unfolding create_run mark_enqueued validate find_rule mem_code put_run init_run_stream append_event
    EventLog.init_run_stream EventLog.append lookup insert keys claim_run expire_loop expire_run
    expire_found claim_loop try_claim claim_found claim_enqueued get_new_expiration_ts read_clock
    transition_locked
claimed_there = refl

pub succeeded_there : lookup 7 with_succeeded.runs ≡ some a_succeeded
unfolding create_run mark_enqueued validate find_rule mem_code put_run init_run_stream append_event
    EventLog.init_run_stream EventLog.append lookup insert keys claim_run expire_loop expire_run
    expire_found claim_loop try_claim claim_found claim_enqueued get_new_expiration_ts read_clock
    transition_locked set_succeeded
succeeded_there = refl

abbrev pub claim : ClaimedRun
claim = record { id = 7; claim_type = "enqueued"; run_status = a_claimed }

pub claim_ok : claim_run "w" with_enqueued ≡ (ok (some claim), with_claimed)
unfolding create_run mark_enqueued validate find_rule mem_code put_run init_run_stream append_event
    EventLog.init_run_stream EventLog.append lookup insert keys claim_run expire_loop expire_run
    expire_found claim_loop try_claim claim_found claim_enqueued get_new_expiration_ts read_clock
    transition_locked
claim_ok = refl

pub with_succeeded-IsValid : IsValid with_succeeded
with_succeeded-IsValid = reachable-IsValid still to_succeeded

-- The clock still stands at one microsecond, and the first event.
pub reading : {t : Runtime} → Reach empty t → (n : ℕ) → t.clock n ≡ 1
reading r n = let (m, e) = (Reach-IsSound r).readings n in e

abbrev pub first_event : RunEvent
first_event = record {
  run_id = 7;
  sequence_nr = 1;
  event_type = "created";
  payload = ("user_id", "testing") ∷ [];
  timestamp_utc = 1;
}

pub stream_created : lookup 7 with_created.event_log.internal_run_events ≡ some (first_event ∷ [])
unfolding create_run put_run init_run_stream append_event EventLog.init_run_stream EventLog.append
    lookup insert
stream_created = refl

pub with_claimed_fresh : lookup 9 with_claimed.runs ≡ none
unfolding create_run mark_enqueued validate find_rule mem_code put_run init_run_stream append_event
    EventLog.init_run_stream EventLog.append lookup insert keys claim_run expire_loop expire_run
    expire_found claim_loop try_claim claim_found claim_enqueued get_new_expiration_ts read_clock
    transition_locked
with_claimed_fresh = refl

-- The run 7 is to be cancelled before a worker has claimed it.
abbrev pub with_requested : Runtime
with_requested = (request_cancellation 7 with_enqueued).1

abbrev pub a_requested : RunStatus
a_requested = record a_enqueued { cancel_requested = true }

pub requested_there : lookup 7 with_requested.runs ≡ some a_requested
unfolding create_run mark_enqueued validate find_rule mem_code put_run init_run_stream append_event
    EventLog.init_run_stream EventLog.append lookup insert keys claim_run expire_loop expire_run
    expire_found claim_loop try_claim claim_found claim_enqueued get_new_expiration_ts read_clock
    transition_locked request_cancellation request_found set_cancelled_locked
requested_there = refl

pub unwanted_ok : claim_run "v" with_requested ≡ (ok none, (claim_run "v" with_requested).1)
unfolding create_run mark_enqueued validate find_rule mem_code put_run init_run_stream append_event
    EventLog.init_run_stream EventLog.append lookup insert keys claim_run expire_loop expire_run
    expire_found claim_loop try_claim claim_found claim_enqueued get_new_expiration_ts read_clock
    transition_locked request_cancellation request_found set_cancelled_locked
unwanted_ok = refl

pub unwanted_there :
    lookup 7 (claim_run "v" with_requested).1.runs
    ≡ some (record a_requested { status = cancelled })
unfolding create_run mark_enqueued validate find_rule mem_code put_run init_run_stream append_event
    EventLog.init_run_stream EventLog.append lookup insert keys claim_run expire_loop expire_run
    expire_found claim_loop try_claim claim_found claim_enqueued get_new_expiration_ts read_clock
    transition_locked request_cancellation request_found set_cancelled_locked
unwanted_there = refl
