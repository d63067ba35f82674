-- ===== src/Demo/Routes.antt =====
-- The route of llm_agent/llm_agent/api/http/v1/routes/demo.py with the objects of
-- llm_agent/llm_agent/api/http/v1/dto/demo.py.
pub mod Answers
use movie_reservation_agent.Prelude.{ℕ, String, Option, none, some, List, map}
use movie_reservation_agent.Value.{Fields}
use movie_reservation_agent.Exec.{Result, ok, err}
use movie_reservation_agent.Demo.{
  trace_id, or_text, from_headers, DemoFault, DemoReservationRequest, DemoReservationResult,
  DemoToolResult, DemoWorkflowError, dependency_error, timeout_error, DemoMcpToolClient,
  ToolOutcome, truthy,
}
use movie_reservation_agent.Prelude.{or_else}
use movie_reservation_agent.Demo.Payload.{Texts}
use movie_reservation_agent.Demo.Reservation.{
  DemoAgentSettings, Reply, returned, raised, crashed, Session, reserve_recommended_seat,
}

-- `DemoTraceDto`
pub record DemoTraceDto : Type 0 where
  pub trace_id : Option String
  pub correlation_id : String
  pub request_id : String

-- `DemoToolResultDto`
pub record DemoToolResultDto : Type 0 where
  pub tool_name : String
  pub outcome : ToolOutcome

-- `DemoReservationResponseDto`
pub record DemoReservationResponseDto : Type 0 where
  pub workflow_id : String
  pub outcome : String
  pub reservation_status : Option String
  pub reservation_request_id : Option String
  pub final_answer : String
  pub movie : Option Fields
  pub screening : Option Fields
  pub seat : Option Fields
  pub tool_results : List DemoToolResultDto
  pub trace : DemoTraceDto

-- `DemoReservationErrorDto`
pub record DemoReservationErrorDto : Type 0 where
  pub error : String
  pub message : String
  pub workflow_id : String
  pub trace : DemoTraceDto

-- `DemoReservationRequestDto`
pub record DemoReservationRequestDto : Type 0 where
  pub movie_preference : String
  pub seat_preference : String
  pub fault : DemoFault

-- What the route answers: an object with status 200, or a `JSONResponse` with its status.
pub data Response : Type 0 where
  response : DemoReservationResponseDto → Response
  json_response : ℕ → DemoReservationErrorDto → Response

-- What telemetry says of the current span: `get_current_trace_id` and `get_current_traceparent`.
pub record Tracing : Type 0 where
  pub current_trace_id : Option String
  pub current_traceparent : Option String

module _ (tracing : Tracing) where
  -- `trace_dto`
  abbrev pub trace_dto : DemoReservationResult → DemoTraceDto
  trace_dto result = record {
    trace_id = or_else (truthy tracing.current_trace_id) (trace_id result.trace_context);
    correlation_id = result.trace_context.correlation_id;
    request_id = result.trace_context.request_id;
  }

  -- `error_response`
  abbrev pub error_response : String → DemoReservationResult → ℕ → Response
  error_response error_code result status_code = json_response status_code (record {
    error = error_code;
    message = or_text result.error result.final_answer;
    workflow_id = result.workflow_id;
    trace = trace_dto result;
  })

  abbrev tool_result_dto : DemoToolResult → DemoToolResultDto
  tool_result_dto result = record { tool_name = result.tool_name; outcome = result.outcome }

  -- `response_dto`
  abbrev pub response_dto : DemoReservationResult → DemoReservationResponseDto
  response_dto result = record {
    workflow_id = result.workflow_id;
    outcome = result.outcome;
    reservation_status = result.reservation_status;
    reservation_request_id = result.reservation_request_id;
    final_answer = result.final_answer;
    movie = result.movie;
    screening = result.screening;
    seat = result.seat;
    tool_results = map tool_result_dto result.tool_results;
    trace = trace_dto result;
  }

  -- The `try` of `reserve_recommended_seat`
  abbrev pub answer : Reply DemoReservationResult → Result Response
  answer (returned result) = ok (response (response_dto result))
  answer (raised (dependency_error result)) =
      ok (error_response "demo_dependency_failed" result 502)
  answer (raised (timeout_error result)) = ok (error_response "demo_workflow_timeout" result 504)
  answer (crashed e) = err e

  -- The request that the route hands to the service.
  abbrev pub service_request :
      DemoReservationRequestDto
      → (String → Option String)
      → String
      → String
      → DemoReservationRequest
  service_request payload headers uuid1 uuid2 = record {
    movie_preference = payload.movie_preference;
    seat_preference = payload.seat_preference;
    fault = payload.fault;
    trace_context = from_headers headers tracing.current_traceparent uuid1 uuid2;
  }

  -- `reserve_recommended_seat`
  unfoldable pub reserve :
      {S : Type 0}
      → Texts
      → DemoMcpToolClient S
      → DemoAgentSettings
      → DemoReservationRequestDto
      → (String → Option String)
      → String
      → String
      → S
      → Result Response × S
  reserve texts call_tool settings payload headers uuid1 uuid2 client =
      let r =
        reserve_recommended_seat (service_request payload headers uuid1 uuid2) texts call_tool
          settings client in
      (answer r.0, r.1.client)
