-- ===== src/Contracts.antt =====
-- llm_agent/contracts/domain/runs: the codes of a run's status, a run's status and a run's event.
use movie_reservation_agent.Prelude.{ℕ, String, Bool, true, false, Option, List}
use movie_reservation_agent.Dict.{Uuid}
use movie_reservation_agent.Value.{Value}

-- `RunStatusCode`
pub data RunStatusCode : Type 0 where
  created enqueued running succeeded failed cancelled timed_out retrying : RunStatusCode

-- `==` on status codes: a code is told by its number.
abbrev pub code_value : RunStatusCode → ℕ
code_value created = 1
code_value enqueued = 2
code_value running = 3
code_value succeeded = 4
code_value failed = 5
code_value cancelled = 6
code_value timed_out = 7
code_value retrying = 8

abbrev pub is_enqueued : RunStatusCode → Bool
is_enqueued enqueued = true
is_enqueued _ = false

abbrev pub is_running : RunStatusCode → Bool
is_running running = true
is_running _ = false

abbrev pub is_cancelled : RunStatusCode → Bool
is_cancelled cancelled = true
is_cancelled _ = false

-- `status in TERMINAL_RUN_STATUSES`
abbrev pub is_terminal : RunStatusCode → Bool
is_terminal succeeded = true
is_terminal failed = true
is_terminal cancelled = true
is_terminal _ = false

-- A unix time, in microseconds (the resolution of `datetime`).
abbrev pub Timestamp : Type 0
Timestamp = ℕ

-- `dict[str, str]`
abbrev pub Payload : Type 0
Payload = List (String × String)

-- `RunStatus`
pub record RunStatus : Type 0 where
  pub id : Uuid
  pub status : RunStatusCode
  pub result : Option Value
  pub error : Option String
  pub claimed_worker : Option String
  pub claim_expiration_unix_ts : Option Timestamp
  pub retry_count : Option ℕ
  pub cancel_requested : Bool

-- `RunEvent`
pub record RunEvent : Type 0 where
  pub run_id : Uuid
  pub sequence_nr : ℕ
  pub event_type : String
  pub payload : Payload
  pub timestamp_utc : Timestamp
