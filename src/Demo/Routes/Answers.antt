-- ===== src/Demo/Routes/Answers.antt =====
-- What the route for a recommended seat answers.
use movie_reservation_agent.Prelude.{
  String, ◌≡◌, refl, Option, some, List, [], is_some, true, ◌⊎◌, inl, inr,
}
use movie_reservation_agent.Exec.{Exn, Result, ok, err, overflow_error}
use movie_reservation_agent.Demo.{
  DemoMcpToolClient, DemoReservationResult, DemoToolResult, dependency_error, timeout_error,
}
use movie_reservation_agent.Demo.Payload.{Texts}
use movie_reservation_agent.Demo.Reservation.{DemoAgentSettings, Reply, returned, raised, crashed}
use movie_reservation_agent.Demo.Reservation.Shape.{IsEnd, OnlyRaises, run_workflow-IsEnd}
use movie_reservation_agent.Demo.Routes.{
  Tracing, DemoReservationRequestDto, Response, response, json_response, answer, service_request,
  reserve,
}

-- A response says how the reservation ended, with its request and seat; an
-- error is 502 for a dependency and 504 for a timeout.
abbrev pub IsResponse : Response → Type 0
IsResponse (response dto) =
    ((dto.outcome ≡ "confirmed") ⊎ ((dto.outcome ≡ "rejected") ⊎ (dto.outcome ≡ "failed")))
    × (dto.reservation_status ≡ some dto.outcome)
    × (is_some dto.reservation_request_id ≡ true)
    × (is_some dto.seat ≡ true)
IsResponse (json_response code dto) =
    ((code ≡ 502) × (dto.error ≡ "demo_dependency_failed"))
    ⊎ ((code ≡ 504) × (dto.error ≡ "demo_workflow_timeout"))

-- A response, or an exception that gets through to the server.
abbrev pub IsServed : (Exn → Type 0) → Result Response → Type 0
IsServed P (ok r) = IsResponse r
IsServed P (err e) = (e ≡ overflow_error) ⊎ P e

answer-IsServed :
    (tracing : Tracing) (P : Exn → Type 0) (results : List DemoToolResult)
    (reply : Reply DemoReservationResult)
    → IsEnd P results reply
    → IsServed P (answer tracing reply)
answer-IsServed tracing P results (returned r) (h, _) = (h.outcome, h.status, h.request_id, h.seat)
answer-IsServed tracing P results (raised (dependency_error r)) h = inl (refl, refl)
answer-IsServed tracing P results (raised (timeout_error r)) h = inr (refl, refl)
answer-IsServed tracing P results (crashed e) h = h

-- Whatever the tools answer, the route answers with status 200 an object whose outcome is
-- `confirmed`, `rejected` or `failed` and is its status too, with the id of the request and a seat;
-- or with status 502 the error `demo_dependency_failed`; or with status 504 the error
-- `demo_workflow_timeout`; or OverflowError or an exception of the client gets through.
pub reserve-IsResponse :
    {S : Type 0} (P : Exn → Type 0) (tracing : Tracing) (texts : Texts)
    (call_tool : DemoMcpToolClient S) (settings : DemoAgentSettings)
    (payload : DemoReservationRequestDto) (headers : String → Option String) (uuid1 uuid2 : String)
    (client : S)
    → OnlyRaises (service_request tracing payload headers uuid1 uuid2) P call_tool
    → IsServed P (reserve tracing texts call_tool settings payload headers uuid1 uuid2 client).0
unfolding reserve
reserve-IsResponse P tracing texts call_tool settings payload headers uuid1 uuid2 client raises =
    answer-IsServed tracing P _ _ (
      run_workflow-IsEnd (service_request tracing payload headers uuid1 uuid2) P texts call_tool
        settings raises (record { tool_results = []; client = client }))
