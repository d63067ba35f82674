-- ===== src/Audit/Contexts.antt =====
-- The context of an audit event that audit_context_from_headers makes is always accepted.
use movie_reservation_agent.Prelude.{
  ℕ, String, ◌≡◌, refl, true, ◌&&◌, ◌||◌, Option, none, some, codes, startswith, str_eq, Bool-cases,
  inl, inr, length,
}
use movie_reservation_agent.Exec.{ok}
use movie_reservation_agent.Exec.Returns.{IsReturn}
use movie_reservation_agent.Demo.{or_text}
use movie_reservation_agent.Audit.{
  AuditContext, is_identifier, is_trace_id, none_or, is_header, is_context, make_context,
  SpanContext, hex_if, context_of, audit_context_from_headers, both_or_neither,
}
use movie_reservation_agent.Audit.Identifiers.{
  between, is_safe_id, all_of, safe_identifier, safe_header,
}

-- A safe identifier, or else the given one, is an identifier.
identifier_or :
    (value : Option String) (other : String)
    → is_identifier other ≡ true
    → is_identifier (or_text (safe_identifier value) other) ≡ true
unfolding safe_identifier
identifier_or none other h = h
identifier_or (some v) other h = elim (Bool-cases (is_safe_id (codes v))) [
  | inr unsafe ↦ rw unsafe h
  | inl safe ↦ elim (Bool-cases (str_eq v "")) [
    | inl empty ↦ rw (safe, empty) h
    | inr full ↦ rw (safe, full) (rw safe refl)
  ]
]

header_lem : (value : Option String) → none_or is_header (safe_header value) ≡ true
unfolding safe_header
header_lem none = refl
header_lem (some v) =
    elim (Bool-cases (between 1 512 (length (codes v)) && all_of (between 32 126) (codes v))) [
      | inl safe ↦ rw safe (rw safe refl)
      | inr unsafe ↦ rw unsafe refl
    ]

-- What a route may give, and what the libraries give.
pub record IsSetting (format : ℕ → ℕ → String) (uuid : String) (span : SpanContext)
    (route auth_boundary : String) : Type 0 where
  pub uuid_is_identifier : is_identifier uuid ≡ true
  pub route_is_identifier : is_identifier route ≡ true
  pub route_is_path : startswith route "/" ≡ true
  pub known_boundary :
      (str_eq auth_boundary "demo_login"
        || (str_eq auth_boundary "api_auth" || str_eq auth_boundary "graphql"))
      ≡ true
  pub trace_digits : span.is_valid ≡ true → is_trace_id 32 (codes (format 32 span.trace_id)) ≡ true
  pub span_digits : span.is_valid ≡ true → is_trace_id 16 (codes (format 16 span.span_id)) ≡ true

-- The ids of a span are in order, or there are none.
pub span_lem :
    (format : ℕ → ℕ → String) (span : SpanContext)
    → (span.is_valid ≡ true → is_trace_id 32 (codes (format 32 span.trace_id)) ≡ true)
    → (span.is_valid ≡ true → is_trace_id 16 (codes (format 16 span.span_id)) ≡ true)
    → (none_or (λ s. is_trace_id 32 (codes s)) (hex_if span.is_valid (format 32 span.trace_id))
        ≡ true)
      × (none_or (λ s. is_trace_id 16 (codes s)) (hex_if span.is_valid (format 16 span.span_id))
          ≡ true)
      × (both_or_neither
            (hex_if span.is_valid (format 32 span.trace_id))
            (hex_if span.is_valid (format 16 span.span_id))
          ≡ true)
span_lem format span t s = elim (Bool-cases span.is_valid) [
  | inl valid ↦ rw valid (t valid, s valid, refl)
  | inr other ↦ rw other (refl, refl, refl)
]

is_context_lem :
    (c : AuditContext)
    → startswith c.route "/" ≡ true
    → is_identifier c.request_id ≡ true
    → is_identifier c.correlation_id ≡ true
    → is_identifier c.route ≡ true
    → (str_eq c.auth_boundary "demo_login"
        || (str_eq c.auth_boundary "api_auth" || str_eq c.auth_boundary "graphql"))
      ≡ true
    → none_or (λ s. is_trace_id 32 (codes s)) c.trace_id ≡ true
    → none_or (λ s. is_trace_id 16 (codes s)) c.span_id ≡ true
    → both_or_neither c.trace_id c.span_id ≡ true
    → none_or is_header c.aws_alb_trace_id ≡ true
    → none_or is_header c.aws_cloudfront_request_id ≡ true
    → is_context c ≡ true
unfolding is_context
is_context_lem c h1 h2 h3 h4 h5 h6 h7 h8 h9 h10 = rw (h1, h2, h3, h4, h5, h6, h7, h8, h9, h10) refl

make_context-ok : (c : AuditContext) → is_context c ≡ true → make_context c ≡ ok c
unfolding make_context
make_context-ok c h = rw h refl

-- For a route and a boundary that are known, ids of uuid4 that are identifiers and a span that is
-- not valid or has digits for its ids, the context is made whatever the headers are: no header makes
-- it raise. Its request id is the one of the header if that is a safe identifier, else the new one,
-- and its AWS ids are those of the headers that are safe.
pub audit_context_from_headers_returns :
    (format : ℕ → ℕ → String) (headers : String → Option String) (uuid : String)
    (span : SpanContext) (route auth_boundary : String)
    → IsSetting format uuid span route auth_boundary
    → IsReturn
        (λ context.
          (is_context context ≡ true)
          × (context.request_id ≡ or_text (safe_identifier (headers "x-request-id")) uuid)
          × (context.aws_alb_trace_id ≡ safe_header (headers "x-amzn-trace-id"))
          × (context.aws_cloudfront_request_id ≡ safe_header (headers "x-amz-cf-id")))
        (audit_context_from_headers format headers uuid span route auth_boundary)
unfolding audit_context_from_headers
audit_context_from_headers_returns format headers uuid span route auth_boundary h =
    let context = context_of format headers uuid span route auth_boundary in
    let request_ok = identifier_or (headers "x-request-id") uuid h.uuid_is_identifier in
    let (trace_ok, span_ok, both_ok) = span_lem format span h.trace_digits h.span_digits in
    let fine : is_context context ≡ true =
      is_context_lem context h.route_is_path request_ok
        (identifier_or (headers "x-correlation-id") context.request_id request_ok)
        h.route_is_identifier h.known_boundary trace_ok span_ok both_ok
        (header_lem (headers "x-amzn-trace-id")) (header_lem (headers "x-amz-cf-id")) in
    (context, make_context-ok context fine, (fine, refl, refl, refl))
