-- ===== src/Audit/Login.antt =====
-- The check of demonstration credentials: services/demo/authentication.py and
-- api/http/v1/routes/demo_auth.py of llm_agent/llm_agent. Log lines and the attributes of the span are
-- left out.
pub mod Accepted
use movie_reservation_agent.Prelude.{
  ℕ, ◌+◌, ◌/◌, String, Bool, true, false, ◌&&◌, ◌||◌, Option, none, some, List, [], ◌∷◌, ◌++◌,
  length, str_eq, codes, ltb, ◌==◌, is_some, if◌then◌else◌,
}
use movie_reservation_agent.Int.{pos}
use movie_reservation_agent.Exec.{
  Exn, Result, ok, err, Exec, os_error, value_error, pure, raise, continue, ◌>>=◌,
}
use movie_reservation_agent.Value.{Value, bool, str, dict, Fields, end, field}
use movie_reservation_agent.Demo.{truthy, or_text}
use movie_reservation_agent.Audit.{
  AuditSource, AuditContext, AuthenticationEvent, AuthenticationOutcome, authenticated,
  invalid_credentials, missing_credentials, malformed_credentials, make_event, is_authenticated,
  optional_field, to_ocsf,
}

-- `AuditSink`
pub record AuditSink (S : Type 0) : Type 0 where
  pub publish : AuthenticationEvent → Exec S (Unit {0})

-- `DemoAuthenticationService`
pub record DemoAuthenticationService (S : Type 0) : Type 0 where
  pub username_hash : String
  pub password_hash : String
  pub source : AuditSource
  pub sink : AuditSink S

-- What `uuid4` and `time_ns` give for one event.
pub record Stamp : Type 0 where
  pub uuid : String
  pub time_ns : ℕ

-- `DemoLoginRequestDto`
pub record DemoLoginRequestDto : Type 0 where
  pub username : Option String
  pub password : Option String

-- A `JSONResponse`.
pub record LoginResponse : Type 0 where
  pub status_code : ℕ
  pub content : Fields
  pub headers : List (String × String)

abbrev pub is_missing : Option String → Bool
is_missing value = if is_some (truthy value) then false else true

-- The outcome, once it is known which credentials match.
abbrev pub outcome_if : Bool → Bool → AuthenticationOutcome
outcome_if missing matches =
    if missing then missing_credentials else if matches then authenticated else invalid_credentials

-- `MAX_LOGIN_BODY_BYTES`
abbrev pub max_login_body_bytes : ℕ
max_login_body_bytes = 16384

-- The loop over the chunks of the body, which gives up when there are too many bytes.
unfoldable pub read_body : List (List ℕ) → List ℕ → Option (List ℕ)
read_body [] body = some body
read_body (chunk ∷ chunks) body =
    if ltb max_login_body_bytes (length body + length chunk)
    then none
    else read_body chunks (body ++ chunk)

abbrev pub validated :
    (List ℕ → Option DemoLoginRequestDto) → Option (List ℕ) → Option DemoLoginRequestDto
validated model_validate_json none = none
validated model_validate_json (some body) = model_validate_json body

abbrev pub status_of : Option DemoLoginRequestDto → AuthenticationEvent → ℕ
status_of none event = 400
status_of (some payload) event = if is_authenticated event then 200 else 401

-- The response of an event; the content is `DemoLoginResponseDto` without its `None`.
abbrev pub login_response :
    Option DemoLoginRequestDto → AuditContext → AuthenticationEvent → LoginResponse
login_response payload context event = record {
  status_code = status_of payload event;
  content = field "authenticated" (bool (is_authenticated event)) (
      field "message"
        (str
          (if is_authenticated event then "Demo credentials accepted" else "Invalid credentials"))
        (field "request_id" (str context.request_id) (
          field "audit_event_id" (str event.uid)
            (optional_field "trace_id" context.trace_id end))));
  headers =
      ("X-Request-Id", context.request_id)
      ∷ ("X-Correlation-Id", context.correlation_id)
      ∷ ("Cache-Control", "no-store")
      ∷ [];
}

-- The answer when the audit cannot be written.
abbrev pub unavailable : LoginResponse
unavailable = record {
  status_code = 503;
  content = field "detail" (str "Audit emission unavailable") end;
  headers = [];
}

-- The `try` around the event.
abbrev pub login_answer :
    Option DemoLoginRequestDto → AuditContext → Result AuthenticationEvent → Result LoginResponse
login_answer payload context (ok event) = ok (login_response payload context event)
login_answer payload context (err os_error) = ok unavailable
login_answer payload context (err e) = err e

-- `compare_digest(hash, sha256((value or "").encode()).digest())`
abbrev pub matches : (String → String) → String → Option String → Bool
matches digest hash value = str_eq hash (digest (or_text value ""))

module _ {S : Type 0} where
  -- The event that `record` makes.
  abbrev pub event_of :
      DemoAuthenticationService S
      → Stamp
      → AuthenticationOutcome
      → AuditContext
      → AuthenticationEvent
  event_of service stamp outcome context = record {
    uid = stamp.uuid;
    time_ms = pos (stamp.time_ns / 1000000);
    source = service.source;
    context = context;
    outcome = outcome;
  }

  abbrev pub publish_event : AuditSink S → AuthenticationEvent → Exec S AuthenticationEvent
  publish_event sink event = sink.publish event >>= λ _. pure event

  -- `DemoAuthenticationService.record`
  unfoldable pub record_event :
      DemoAuthenticationService S
      → Stamp
      → AuthenticationOutcome
      → AuditContext
      → Exec S AuthenticationEvent
  record_event service stamp outcome context s =
      continue (make_event (event_of service stamp outcome context)) (publish_event service.sink) s

  module _ (digest : String → String) where
    -- `DemoAuthenticationService(...)`; `digest` is SHA-256.
    abbrev pub new_service :
        String → String → AuditSource → AuditSink S → DemoAuthenticationService S
    new_service username password source sink = record {
      username_hash = digest username;
      password_hash = digest password;
      source = source;
      sink = sink;
    }

    abbrev pub outcome_of :
        DemoAuthenticationService S → Option String → Option String → AuthenticationOutcome
    outcome_of service username password = outcome_if (is_missing username || is_missing password) (
        matches digest service.username_hash username
        && matches digest service.password_hash password)

    -- `DemoAuthenticationService.check_credentials`
    unfoldable pub check_credentials :
        DemoAuthenticationService S
        → Stamp
        → Option String
        → Option String
        → AuditContext
        → Exec S AuthenticationEvent
    unfolding record_event
    check_credentials service stamp username password context =
        record_event service stamp (outcome_of service username password) context

    abbrev pub login_event :
        DemoAuthenticationService S
        → Stamp
        → Option DemoLoginRequestDto
        → AuditContext
        → Exec S AuthenticationEvent
    login_event service stamp none context =
        record_event service stamp malformed_credentials context
    login_event service stamp (some payload) context =
        check_credentials service stamp payload.username payload.password context

    -- `demo_login`, from the context on; `model_validate_json` has no result on a `ValidationError`.
    unfoldable pub login_with :
        (List ℕ → Option DemoLoginRequestDto)
        → DemoAuthenticationService S
        → Stamp
        → List (List ℕ)
        → AuditContext
        → Exec S LoginResponse
    unfolding read_body
    login_with model_validate_json service stamp chunks context s =
        let payload = validated model_validate_json (read_body chunks []) in
        let r = login_event service stamp payload context s in
        (login_answer payload context r.0, r.1)

    -- `demo_login`, with the result of `audit_context_from_headers`
    unfoldable pub demo_login :
        (List ℕ → Option DemoLoginRequestDto)
        → DemoAuthenticationService S
        → Stamp
        → List (List ℕ)
        → Result AuditContext
        → Exec S LoginResponse
    unfolding login_with
    demo_login model_validate_json service stamp chunks context s =
        continue context (login_with model_validate_json service stamp chunks) s
