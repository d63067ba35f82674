-- ===== src/Tests/Audit.antt =====
-- Demonstration credentials, an audit context and a trace context.
use movie_reservation_agent.Prelude.{
  ℕ, arith, String, ◌≡◌, refl, true, false, Option, none, some, List, [], ◌∷◌, str_eq, or_else,
  if◌then◌else◌,
}
use movie_reservation_agent.Exec.{ok, pure}
use movie_reservation_agent.Exec.Returns.{IsReturn}
use movie_reservation_agent.Demo.{truthy, or_text, DemoTraceContext, from_headers, to_headers}
use movie_reservation_agent.Demo.Propagation.{received, from_headers-to_headers}
use movie_reservation_agent.Audit.{
  AuditContext, SpanContext, is_context, authenticated, make_event, audit_context_from_headers,
}
use movie_reservation_agent.Audit.Identifiers.{safe_identifier, safe_header}
use movie_reservation_agent.Audit.Contexts.{audit_context_from_headers_returns}
use movie_reservation_agent.Audit.Login.{
  DemoAuthenticationService, Stamp, DemoLoginRequestDto, LoginResponse, new_service, login_response,
  read_body, record_event, check_credentials, login_with, event_of, demo_login,
}
use movie_reservation_agent.Audit.Login.Accepted.{IsAccepted, demo_login-IsAccepted}

abbrev uuid : String
uuid = "0b54eb7c-72b9-4e1f-9f3c-1c3f6f7a8b9d"

abbrev no_span : SpanContext
no_span = record { trace_id = 0; span_id = 0; is_valid = false }

abbrev no_headers : String → Option String
no_headers name = none

abbrev format : ℕ → ℕ → String
format w n = ""

audit_context_from_headers_returns_example :
    IsReturn
      (λ context.
        (is_context context ≡ true)
        × (context.request_id ≡ or_text (safe_identifier none) uuid)
        × (context.aws_alb_trace_id ≡ safe_header none)
        × (context.aws_cloudfront_request_id ≡ safe_header none))
      (audit_context_from_headers format no_headers uuid no_span "/demo/auth/login" "demo_login")
unfolding safe_identifier
audit_context_from_headers_returns_example =
    audit_context_from_headers_returns format no_headers uuid no_span "/demo/auth/login"
      "demo_login"
      (record {
        uuid_is_identifier = refl;
        route_is_identifier = refl;
        route_is_path = refl;
        known_boundary = refl;
        trace_digits = λ valid. absurd (ground (arith, valid));
        span_digits = λ valid. absurd (ground (arith, valid));
      })

abbrev context : AuditContext
context = record {
  request_id = "r";
  correlation_id = "c";
  route = "/demo/auth/login";
  auth_boundary = "demo_login";
  trace_id = none;
  span_id = none;
  aws_alb_trace_id = none;
  aws_cloudfront_request_id = none;
}

abbrev service : DemoAuthenticationService ℕ
service =
    new_service (λ s. s) "u" "p"
      (record {
        service_name = "movie-reservation-agent";
        service_version = "unknown";
        environment = "local";
      })
      (record { publish = λ event. pure tt })

abbrev stamp : Stamp
stamp = record { uuid = uuid; time_ns = 5000000 }

abbrev payload : DemoLoginRequestDto
payload = record { username = some "u"; password = some "p" }

abbrev validate : List ℕ → Option DemoLoginRequestDto
validate body = some payload

abbrev response : LoginResponse
response = login_response (some payload) context (event_of service stamp authenticated context)

demo_login-IsAccepted_example : IsAccepted validate (λ s. s) service ((1 ∷ 2 ∷ []) ∷ (3 ∷ []) ∷ [])
unfolding demo_login login_with read_body check_credentials record_event make_event
demo_login-IsAccepted_example =
    demo_login-IsAccepted validate (λ s. s) service stamp ((1 ∷ 2 ∷ []) ∷ (3 ∷ []) ∷ [])
      (ok context) 0 response refl refl

abbrev trace : DemoTraceContext
trace = record {
  traceparent = some "p";
  tracestate = none;
  correlation_id = "c";
  request_id = "r";
  workflow_id = "w";
}

abbrev lower : String → String
lower s =
    if str_eq s "X-Correlation-Id"
    then "x-correlation-id"
    else if str_eq s "X-Request-Id"
    then "x-request-id"
    else s

from_headers-to_headers_example :
    from_headers (received lower (to_headers trace none)) none "1" "2" ≡ record {
      traceparent = or_else (truthy (or_else (truthy none) (some "p"))) none;
      tracestate = truthy none;
      correlation_id = "c";
      request_id = "r";
      workflow_id = "2";
    }
from_headers-to_headers_example =
    from_headers-to_headers lower trace none none "1" "2"
      (record { correlation = refl; request = refl; parent = refl; state = refl }) refl refl
