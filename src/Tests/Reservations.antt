-- ===== src/Tests/Reservations.antt =====
-- The theorems on the reservation workflow, with tools that answer as the services do.
use movie_reservation_agent.Prelude.{
  false, ℕ, ◌+◌, ◌≤◌, String, ◌≡◌, refl, none, some, [], ◌∷◌, str_eq, if◌then◌else◌,
}
use movie_reservation_agent.Int.{pos}
use movie_reservation_agent.Exec.{Exn, ok}
use movie_reservation_agent.Value.{bool, Value, num, str, list, dict, nil, cons, Fields, end, field}
use movie_reservation_agent.Demo.{
  DemoToolResult, DemoTraceContext, no_fault, DemoReservationRequest, DemoReservationResult,
  DemoMcpToolClient, succeeded,
}
use movie_reservation_agent.Demo.Client.{
  Library, replied, plain, decode_error, Json, McpSettings, call_tool,
}
use movie_reservation_agent.Demo.Client.Outcomes.{IsCall, call_tool_outcomes}
use movie_reservation_agent.Demo.Payload.{Texts, max_seat, choose_seat}
use movie_reservation_agent.Demo.Reservation.{
  Choice, result_of, DemoAgentSettings, Session, Reply, returned, raised, crashed, call_required,
  poll, request_seat, choose, run_workflow,
}
use movie_reservation_agent.Demo.Reservation.Calls.{counting, run_workflow-calls}
use movie_reservation_agent.Demo.Reservation.Confirmed.{IsConfirmed, poll-IsConfirmed}
use movie_reservation_agent.Demo.Reservation.Shape.{IsEnd, OnlyRaises, run_workflow-IsEnd}
use movie_reservation_agent.Demo.Routes.{Tracing, DemoReservationRequestDto, reserve}
use movie_reservation_agent.Demo.Routes.Answers.{IsServed, reserve-IsResponse}

-- Texts of lower-case letters without digits.
abbrev texts : Texts
texts = record {
  casefold = λ s. s;
  is_in = λ needle s. str_eq needle s;
  int = λ s. none;
  str_of = λ n. "1";
}

abbrev context : DemoTraceContext
context = record {
  traceparent = none;
  tracestate = none;
  correlation_id = "c";
  request_id = "r";
  workflow_id = "w";
}

abbrev request : DemoReservationRequest
request = record {
  movie_preference = "exciting";
  seat_preference = "aisle";
  fault = no_fault;
  trace_context = context;
}

abbrev settings : DemoAgentSettings
settings = record { demo_recommendation_limit = 5; demo_reservation_poll_attempts = 6 }

abbrev seat : String → ℕ → Fields
seat id number = field "id" (str id) (field "row" (str "A") (field "number" (num (pos number)) end))

abbrev screening : Fields
screening = field "id" (str "s1") (
    field "movieId" (str "m1")
      (field "seats" (list (cons (dict (seat "a1" 1)) (cons (dict (seat "a2" 2)) nil))) end))

abbrev one : String → Fields → Value
one key f = dict (field key (list (cons (dict f) nil)) end)

abbrev request_in : String → Value
request_in status = dict (
    field "reservation_request" (dict (field "id" (str "q1") (field "status" (str status) end)))
      end)

-- The payload of each tool.
abbrev payload_of : String → Value
payload_of tool =
    if str_eq tool "recommendation_get_movies"
    then one "recommendations" (field "movie_reservation_movie_id" (str "m1") end)
    else if str_eq tool "reservation_get_catalog"
    then dict (field "catalog" (one "screenings" screening) end)
    else if str_eq tool "reservation_request_seats"
    then request_in "pending"
    else request_in "confirmed"

abbrev tools : DemoMcpToolClient (Unit {0})
tools tool arguments trace fault s = (
  ok (record { tool_name = tool; outcome = succeeded; payload = payload_of tool; error = none }),
  s,
)

-- They raise nothing.
IsNever : Exn → Type 0
IsNever e = ⊥

tools-OnlyRaises : OnlyRaises request IsNever tools
unfolding IsNever
tools-OnlyRaises tool arguments trace fault s e h = cc h

abbrev start : {S : Type 0} → S → Session S
start s = record { tool_results = []; client = s }

-- A run to the end: four calls, one of them for seats and one poll.
abbrev counts : {A : Type 0} → Reply A × Session (Unit {0} × ℕ × ℕ) → ℕ × ℕ
counts r = (r.1.client.1, r.1.client.2)

counts-run_workflow :
    counts (run_workflow request texts (counting tools) settings (start (tt, 0, 0))) ≡ (1, 1)
unfolding run_workflow choose request_seat poll call_required choose_seat max_seat
counts-run_workflow = refl

abbrev outcome_of : Reply DemoReservationResult → String × String
outcome_of (returned r) = (r.outcome, r.final_answer)
outcome_of (raised e) = ("raised", "")
outcome_of (crashed e) = ("crashed", "")

outcome_of-run_workflow :
    outcome_of (run_workflow request texts tools settings (start tt)).0
    ≡ ("confirmed", "Reserved seat A1 for the recommended movie.")
unfolding run_workflow choose request_seat poll call_required choose_seat max_seat
outcome_of-run_workflow = refl

run_workflow-calls_example :
    let t = (run_workflow request texts (counting tools) settings (start (tt, 0, 0))).1 in
    (t.client.1 ≤ 0 + 1) × (t.client.2 ≤ 0 + 6)
run_workflow-calls_example = run_workflow-calls request texts tools settings (start (tt, 0, 0))

run_workflow-IsEnd_example :
    let r = run_workflow request texts tools settings (start tt) in
    IsEnd IsNever r.1.tool_results r.0
run_workflow-IsEnd_example =
    run_workflow-IsEnd request IsNever texts tools settings tools-OnlyRaises (start tt)

abbrev tracing : Tracing
tracing = record { current_trace_id = none; current_traceparent = none }

abbrev payload : DemoReservationRequestDto
payload = record { movie_preference = "exciting"; seat_preference = "aisle"; fault = no_fault }

reserve-IsResponse_example :
    IsServed IsNever (reserve tracing texts tools settings payload (λ h. none) "u1" "u2" tt).0
reserve-IsResponse_example =
    reserve-IsResponse IsNever tracing texts tools settings payload (λ h. none) "u1" "u2" tt
      tools-OnlyRaises

abbrev choice : Choice
choice = record {
  movie = end;
  screening = screening;
  seat = seat "a1" 1;
  reservation_request_id = "q1";
}

abbrev status_result : DemoToolResult
status_result = record {
  tool_name = "reservation_get_request_status";
  outcome = succeeded;
  payload = request_in "confirmed";
  error = none;
}

polled :
    (poll request texts tools settings 6 choice (some "pending") (start tt)).0
    ≡ returned (
        result_of request choice "confirmed" "Reserved seat A1 for the recommended movie."
          (status_result ∷ []))
unfolding poll call_required
polled = refl

poll-IsConfirmed_example : IsConfirmed texts (status_result ∷ [])
poll-IsConfirmed_example =
    poll-IsConfirmed request texts tools settings 6 choice (some "pending") (start tt) refl polled
      refl

-- A server that refuses every call.
abbrev refusing : Library (Unit {0})
refusing url headers = ok (λ tool arguments s.
    (replied (plain (dict (field "ok" (bool false) (field "error" (str "sold_out") end)))), s))

abbrev json : Json
json = record { loads = λ s. decode_error; str_of = λ v. "sold_out" }

abbrev mcp_settings : McpSettings
mcp_settings = record {
  movie_reservation_mcp_url = "http://b";
  movie_recommendation_mcp_url = "http://a";
}

call_tool_outcomes_example :
    IsCall json refusing "reservation_get_catalog"
      (call_tool json mcp_settings none refusing "reservation_get_catalog" end context no_fault
        tt).0
call_tool_outcomes_example =
    call_tool_outcomes json mcp_settings none refusing "reservation_get_catalog" end context
      no_fault tt
