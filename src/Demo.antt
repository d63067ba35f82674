-- ===== src/Demo.antt =====
-- The reservation workflow for a recommended movie: the data of llm_agent/llm_agent/demo/models.py
-- and llm_agent/llm_agent/demo/trace_context.py.
pub mod Payload
pub mod Reservation
pub mod Routes
pub mod Client
pub mod Propagation
use Prim.Native.Char.{Char, code}
use movie_reservation_agent.Prelude.{
  length, codes, ◌==◌, ℕ, String, Bool, true, false, Option, none, some, List, [], ◌∷◌, ◌++◌,
  str_eq, if◌then◌else◌, or_else,
}
use movie_reservation_agent.Value.{Value, Fields}
use movie_reservation_agent.Exec.{Result}

-- Python's truth of an optional text: the empty text counts as none.
abbrev pub truthy : Option String → Option String
truthy none = none
truthy (some s) = if str_eq s "" then none else some s

-- `a or b`, of an optional text and a text.
abbrev pub or_text : Option String → String → String
or_text none b = b
or_text (some s) b = if str_eq s "" then b else s

-- `DemoTraceContext`
pub record DemoTraceContext : Type 0 where
  pub traceparent : Option String
  pub tracestate : Option String
  pub correlation_id : String
  pub request_id : String
  pub workflow_id : String

-- `DemoTraceContext.from_headers`: `headers` looks a header up, and the ids are what the two calls
-- of `uuid4` give.
abbrev pub from_headers :
    (String → Option String) → Option String → String → String → DemoTraceContext
from_headers headers current_traceparent uuid1 uuid2 =
    let request_id = or_text (headers "x-request-id") uuid1 in
    record {
      traceparent = or_else (truthy (headers "traceparent")) current_traceparent;
      tracestate = headers "tracestate";
      correlation_id = or_text (headers "x-correlation-id") request_id;
      request_id = request_id;
      workflow_id = uuid2;
    }

-- A character before the first of the parts.
abbrev pub before_first : Char → List String → List String
before_first c [] = []
before_first c (part ∷ parts) = String.◌∷◌ c part ∷ parts

-- `text.split(separator)`, of one character: there is always a first part.
abbrev pub split : ℕ → String → List String
split separator String.[] = String.[] ∷ []
split separator (String.◌∷◌ c s) =
    let rest = split separator s in
    if code c == separator then String.[] ∷ rest else before_first c rest

-- The second of four parts, if it has 32 characters.
abbrev pub second_part : List String → Option String
second_part (a ∷ b ∷ c ∷ d ∷ []) = if length (codes b) == 32 then some b else none
second_part _ = none

abbrev pub trace_id_of : Option String → Option String
trace_id_of none = none
trace_id_of (some traceparent) = second_part (split b'-' traceparent)

-- `DemoTraceContext.trace_id`
abbrev pub trace_id : DemoTraceContext → Option String
trace_id self = trace_id_of self.traceparent

-- `if value: mapping[key] = value`, where the key is not there yet.
abbrev pub add_truthy : String → Option String → List (String × String) → List (String × String)
add_truthy key none mapping = mapping
add_truthy key (some value) mapping =
    if str_eq value "" then mapping else mapping ++ (key, value) ∷ []

abbrev pub with_trace :
    DemoTraceContext → Option String → List (String × String) → List (String × String)
with_trace context traceparent mapping =
    add_truthy "tracestate" context.tracestate
      (add_truthy "traceparent" (or_else (truthy traceparent) context.traceparent) mapping)

-- `DemoTraceContext.to_headers`
abbrev pub to_headers : DemoTraceContext → Option String → List (String × String)
to_headers context traceparent =
    with_trace context traceparent
      (("X-Correlation-Id", context.correlation_id) ∷ ("X-Request-Id", context.request_id) ∷ [])

-- `DemoTraceContext.to_tool_arguments`
abbrev pub to_tool_arguments : DemoTraceContext → String → Option String → List (String × String)
to_tool_arguments context fault traceparent = with_trace context traceparent (
    ("correlation_id", context.correlation_id)
    ∷ ("request_id", context.request_id)
    ∷ ("demo_fault", fault)
    ∷ [])

-- `DemoFault`
pub data DemoFault : Type 0 where
  no_fault slow_recommendation recommendation_error : DemoFault

-- `DemoReservationRequest`
pub record DemoReservationRequest : Type 0 where
  pub movie_preference : String
  pub seat_preference : String
  pub fault : DemoFault
  pub trace_context : DemoTraceContext

pub data ToolOutcome : Type 0 where
  succeeded failed timeout : ToolOutcome

-- `DemoToolResult`
pub record DemoToolResult : Type 0 where
  pub tool_name : String
  pub outcome : ToolOutcome
  pub payload : Value
  pub error : Option String

-- `DemoReservationResult`
pub record DemoReservationResult : Type 0 where
  pub workflow_id : String
  pub outcome : String
  pub reservation_status : Option String
  pub reservation_request_id : Option String
  pub final_answer : String
  pub trace_context : DemoTraceContext
  pub movie : Option Fields
  pub screening : Option Fields
  pub seat : Option Fields
  pub tool_results : List DemoToolResult
  pub error : Option String

-- `DemoDependencyError` and `DemoWorkflowTimeoutError`
pub data DemoWorkflowError : Type 0 where
  dependency_error : DemoReservationResult → DemoWorkflowError
  timeout_error : DemoReservationResult → DemoWorkflowError

-- `DemoMcpToolClient.call_tool`, of a client with a state, which may raise.
abbrev pub DemoMcpToolClient : Type 0 → Type 0
DemoMcpToolClient S = String → Fields → DemoTraceContext → DemoFault → S → Result DemoToolResult × S
