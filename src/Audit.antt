-- ===== src/Audit.antt =====
-- The audit of authentications: llm_agent/llm_agent/application/audit/authentication.py and
-- llm_agent/llm_agent/api/http/audit_context.py. The check of a dataclass is the function that makes
-- one.
pub mod Identifiers
pub mod Login
pub mod Stdout
pub mod Contexts
use movie_reservation_agent.Prelude.{
  ℕ, zero, suc, String, Bool, true, false, ◌&&◌, ◌||◌, not, Option, none, some, List, [], ◌∷◌, ◌++◌,
  length, str_eq, codes, startswith, ltb, ◌==◌, is_some, if◌then◌else◌,
}
use movie_reservation_agent.Int.{ℤ, pos, negsuc}
use movie_reservation_agent.Exec.{Result, ok, err, value_error}
use movie_reservation_agent.Value.{Value, num, str, dict, Fields, end, field}
use movie_reservation_agent.Demo.{truthy, or_text}
use movie_reservation_agent.Audit.Identifiers.{
  between, is_safe_char, is_hex, all_of, fits, times, is_safe_id, event_id_classes, kept_if,
  safe_identifier, safe_header,
}

-- `AuthenticationOutcome`
pub data AuthenticationOutcome : Type 0 where
  authenticated invalid_credentials missing_credentials : AuthenticationOutcome
  malformed_credentials invalid_token unauthenticated : AuthenticationOutcome

abbrev pub outcome_value : AuthenticationOutcome → String
outcome_value authenticated = "AUTHENTICATED"
outcome_value invalid_credentials = "INVALID_CREDENTIALS"
outcome_value missing_credentials = "MISSING_CREDENTIALS"
outcome_value malformed_credentials = "MALFORMED_CREDENTIALS"
outcome_value invalid_token = "INVALID_TOKEN"
outcome_value unauthenticated = "UNAUTHENTICATED"

-- `AuditSource`
pub record AuditSource : Type 0 where
  pub service_name : String
  pub service_version : String
  pub environment : String

-- `AuditContext`
pub record AuditContext : Type 0 where
  pub request_id : String
  pub correlation_id : String
  pub route : String
  pub auth_boundary : String
  pub trace_id : Option String
  pub span_id : Option String
  pub aws_alb_trace_id : Option String
  pub aws_cloudfront_request_id : Option String

-- `AuthenticationEvent`
pub record AuthenticationEvent : Type 0 where
  pub uid : String
  pub time_ms : ℤ
  pub source : AuditSource
  pub context : AuditContext
  pub outcome : AuthenticationOutcome

abbrev pub is_identifier : String → Bool
is_identifier s = is_some (safe_identifier (some s))

abbrev pub checked : {A : Type 0} → Bool → A → Result A
checked b a = if b then ok a else err value_error

-- `AuditSource(...)`
unfoldable pub make_source : AuditSource → Result AuditSource
make_source self =
    checked
      ((str_eq self.service_name "movie-reservation-agent"
          || (str_eq self.service_name "movie-reservation-service"
              || str_eq self.service_name "movie-recommendation-service"))
        && (is_identifier self.service_name
            && (is_identifier self.service_version && is_identifier self.environment)))
      self

-- An id of a trace or a span: so many digits, not all of them zeros.
abbrev pub is_trace_id : ℕ → List ℕ → Bool
is_trace_id n cs = fits (times n is_hex) cs && not (all_of (λ c. c == b'0') cs)

abbrev pub none_or : (String → Bool) → Option String → Bool
none_or test none = true
none_or test (some s) = test s

abbrev pub both_or_neither : Option String → Option String → Bool
both_or_neither none none = true
both_or_neither (some a) (some b) = true
both_or_neither _ _ = false

abbrev pub is_header : String → Bool
is_header s = is_some (safe_header (some s))

-- The check of an `AuditContext`, all of whose failures are a `ValueError`.
unfoldable pub is_context : AuditContext → Bool
is_context self =
    (startswith self.route "/"
      && (is_identifier self.request_id
          && (is_identifier self.correlation_id && is_identifier self.route)))
    && ((str_eq self.auth_boundary "demo_login"
          || (str_eq self.auth_boundary "api_auth" || str_eq self.auth_boundary "graphql"))
        && ((none_or (λ s. is_trace_id 32 (codes s)) self.trace_id
              && none_or (λ s. is_trace_id 16 (codes s)) self.span_id)
            && (both_or_neither self.trace_id self.span_id
                && (none_or is_header self.aws_alb_trace_id
                    && none_or is_header self.aws_cloudfront_request_id))))

-- `AuditContext(...)`
unfoldable pub make_context : AuditContext → Result AuditContext
unfolding is_context
make_context self = checked (is_context self) self

abbrev pub is_nonnegative : ℤ → Bool
is_nonnegative (pos n) = true
is_nonnegative (negsuc n) = false

-- `AuthenticationEvent(...)`
unfoldable pub make_event : AuthenticationEvent → Result AuthenticationEvent
make_event self =
    checked (fits event_id_classes (codes self.uid) && is_nonnegative self.time_ms) self

-- `outcome == AuthenticationOutcome.AUTHENTICATED`
abbrev pub is_acceptance : AuthenticationOutcome → Bool
is_acceptance authenticated = true
is_acceptance _ = false

-- `AuthenticationEvent.authenticated`
abbrev pub is_authenticated : AuthenticationEvent → Bool
is_authenticated self = is_acceptance self.outcome

-- `if value is not None: platform[field] = value`
abbrev pub optional_field : String → Option String → Fields → Fields
optional_field name none rest = rest
optional_field name (some value) rest = field name (str value) rest

abbrev pub platform : AuthenticationEvent → Fields
platform self = field "schema_version" (str "1") (
    field "environment" (str self.source.environment) (
      field "request_id" (str self.context.request_id) (
        field "route" (str self.context.route) (
          field "auth_boundary" (str self.context.auth_boundary) (
            optional_field "trace_id" self.context.trace_id (
              optional_field "span_id" self.context.span_id (
                optional_field "aws_alb_trace_id" self.context.aws_alb_trace_id (
                  optional_field "aws_cloudfront_request_id" self.context.aws_cloudfront_request_id
                    end))))))))

abbrev pub product : AuthenticationEvent → Fields
product self = field "name" (str self.source.service_name) (
    field "vendor_name" (str "Movie Reservation Platform Lab")
      (field "version" (str self.source.service_version) end))

abbrev pub metadata : AuthenticationEvent → Fields
metadata self = field "version" (str "1.3.0") (
    field "uid" (str self.uid) (
      field "correlation_uid" (str self.context.correlation_id)
        (field "product" (dict (product self)) end)))

abbrev pub event_user : Bool → Fields
event_user true = field "name" (str "demo-user") (field "type_id" (num (pos 1)) end)
event_user false = field "name" (str "unknown") (field "type_id" (num (pos 0)) end)

-- `AuthenticationEvent.to_ocsf`
unfoldable pub to_ocsf : AuthenticationEvent → Value
to_ocsf self =
    let grade = num (pos (if is_authenticated self then 1 else 2)) in
    dict (
      field "activity_id" (num (pos 99)) (
        field "activity_name" (str "Credential validation") (
          field "category_uid" (num (pos 3)) (
            field "class_uid" (num (pos 3002)) (
              field "type_uid" (num (pos 300299)) (
                field "severity_id" grade (
                  field "status_id" grade (
                    field "status_detail" (str (outcome_value self.outcome)) (
                      field "time" (num self.time_ms) (
                        field "metadata" (dict (metadata self)) (
                          field "service"
                            (dict (
                              field "name" (str self.source.service_name)
                                (field "version" (str self.source.service_version) end)))
                            (field "user" (dict (event_user (is_authenticated self))) (
                              field "unmapped" (dict (field "platform" (dict (platform self)) end))
                                end)))))))))))))

-- The context of a span.
pub record SpanContext : Type 0 where
  pub trace_id : ℕ
  pub span_id : ℕ
  pub is_valid : Bool

abbrev pub hex_if : Bool → String → Option String
hex_if b s = if b then some s else none

-- What `audit_context_from_headers` gives to the constructor: `uuid` is what `uuid4` gives, and
-- `format w n` is Python's format of a number with `w` hexadecimal digits.
abbrev pub context_of :
    (ℕ → ℕ → String)
    → (String → Option String)
    → String
    → SpanContext
    → String
    → String
    → AuditContext
context_of format headers uuid span route auth_boundary =
    let request_id = or_text (safe_identifier (headers "x-request-id")) uuid in
    record {
      request_id = request_id;
      correlation_id = or_text (safe_identifier (headers "x-correlation-id")) request_id;
      route = route;
      auth_boundary = auth_boundary;
      trace_id = hex_if span.is_valid (format 32 span.trace_id);
      span_id = hex_if span.is_valid (format 16 span.span_id);
      aws_alb_trace_id = safe_header (headers "x-amzn-trace-id");
      aws_cloudfront_request_id = safe_header (headers "x-amz-cf-id");
    }

-- `audit_context_from_headers`
unfoldable pub audit_context_from_headers :
    (ℕ → ℕ → String)
    → (String → Option String)
    → String
    → SpanContext
    → String
    → String
    → Result AuditContext
unfolding make_context
audit_context_from_headers format headers uuid span route auth_boundary =
    make_context (context_of format headers uuid span route auth_boundary)
