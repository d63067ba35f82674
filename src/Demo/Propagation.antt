-- ===== src/Demo/Propagation.antt =====
-- A trace context that one service writes into headers is the one that the next service reads.
use movie_reservation_agent.Prelude.{
  String, ◌≡◌, refl, ap, ◌∙◌, Bool, true, false, Option, none, some, List, [], ◌∷◌, ◌++◌, str_eq,
  if◌then◌else◌, or_else, Bool-cases, inl, inr,
}
use movie_reservation_agent.Demo.{truthy, DemoTraceContext, from_headers, add_truthy, to_headers}

-- How a server looks a header up by a name in small letters, where `lower` is Python's `lower`.
abbrev pub received : (String → String) → List (String × String) → String → Option String
received lower [] name = none
received lower ((key, value) ∷ headers) name =
    if str_eq (lower key) name then some value else received lower headers name

-- What `lower` does to the names of the four headers.
pub record IsLower (lower : String → String) : Type 0 where
  pub correlation : lower "X-Correlation-Id" ≡ "x-correlation-id"
  pub request : lower "X-Request-Id" ≡ "x-request-id"
  pub parent : lower "traceparent" ≡ "traceparent"
  pub state : lower "tracestate" ≡ "tracestate"

or_else_nothing : (o : Option String) (b : Bool) → o ≡ or_else o (if b then none else none)
or_else_nothing none true = refl
or_else_nothing none false = refl
or_else_nothing (some v) true = refl
or_else_nothing (some v) false = refl

or_else-none : (o : Option String) → or_else o none ≡ o
or_else-none none = refl
or_else-none (some v) = refl

truthy-truthy : (o : Option String) → truthy (truthy o) ≡ truthy o
truthy-truthy none = refl
truthy-truthy (some v) = elim (Bool-cases (str_eq v "")) [
  | inl empty ↦ rw empty refl
  | inr full ↦ rw full (rw full refl)
]

module _ (lower : String → String) where
  received-append :
      (headers : List (String × String)) (key value name : String)
      → received lower (headers ++ (key, value) ∷ []) name
        ≡ or_else
            (received lower headers name)
            (if str_eq (lower key) name then some value else none)
  received-append [] key value name = refl
  received-append ((k, v) ∷ headers) key value name = elim (Bool-cases (str_eq (lower k) name)) [
    | inl found ↦ rw found refl
    | inr other ↦ rw other (received-append headers key value name)
  ]

  received-add_truthy :
      (key : String) (value : Option String) (headers : List (String × String)) (name : String)
      → received lower (add_truthy key value headers) name
        ≡ or_else
            (received lower headers name)
            (if str_eq (lower key) name then truthy value else none)
  received-add_truthy key none headers name =
      or_else_nothing (received lower headers name) (str_eq (lower key) name)
  received-add_truthy key (some v) headers name = elim (Bool-cases (str_eq v "")) [
    | inl empty ↦ rw empty (or_else_nothing (received lower headers name) (str_eq (lower key) name))
    | inr full ↦ rw full (received-append headers key v name)
  ]

  module _ (h : IsLower lower) (context : DemoTraceContext) (traceparent : Option String) where
    abbrev sent : List (String × String)
    sent = to_headers context traceparent

    -- The trace parent that is sent.
    abbrev effective : Option String
    effective = or_else (truthy traceparent) context.traceparent

    abbrev ids : List (String × String)
    ids = ("X-Correlation-Id", context.correlation_id) ∷ ("X-Request-Id", context.request_id) ∷ []

    received-sent :
        (name : String)
        → received lower sent name
          ≡ or_else
              (or_else
                (received lower ids name)
                (if str_eq "traceparent" name then truthy effective else none))
              (if str_eq "tracestate" name then truthy context.tracestate else none)
    received-sent name =
        received-add_truthy "tracestate" context.tracestate (add_truthy "traceparent" effective ids)
          name
        ∙ ap
            (λ o.
              or_else o
                (if str_eq (lower "tracestate") name then truthy context.tracestate else none))
            (received-add_truthy "traceparent" effective ids name)
        ∙ rw (h.parent, h.state) refl

    ids_lem :
        (name : String)
        → received lower ids name ≡ (
            if str_eq "x-correlation-id" name
            then some context.correlation_id
            else if str_eq "x-request-id" name
            then some context.request_id
            else none)
    ids_lem name = rw (h.correlation, h.request) refl

    request_lem : received lower sent "x-request-id" ≡ some context.request_id
    request_lem = received-sent "x-request-id" ∙ rw (ids_lem "x-request-id") refl

    correlation_lem : received lower sent "x-correlation-id" ≡ some context.correlation_id
    correlation_lem = received-sent "x-correlation-id" ∙ rw (ids_lem "x-correlation-id") refl

    parent_lem : received lower sent "traceparent" ≡ truthy effective
    parent_lem =
        received-sent "traceparent" ∙ rw (ids_lem "traceparent") (or_else-none (truthy effective))

    state_lem : received lower sent "tracestate" ≡ truthy context.tracestate
    state_lem = received-sent "tracestate" ∙ rw (ids_lem "tracestate") refl

-- The context that is read from the headers of another one is that one: with ids that are not empty,
-- both ids come back, the trace state comes back unless it is empty, and the trace parent is the one
-- that was sent, else the current one of the reader.
pub from_headers-to_headers :
    (lower : String → String) (context : DemoTraceContext) (traceparent current : Option String)
    (uuid1 uuid2 : String)
    → IsLower lower
    → str_eq context.request_id "" ≡ false
    → str_eq context.correlation_id "" ≡ false
    → from_headers (received lower (to_headers context traceparent)) current uuid1 uuid2 ≡ record {
      traceparent = or_else (truthy (or_else (truthy traceparent) context.traceparent)) current;
      tracestate = truthy context.tracestate;
      correlation_id = context.correlation_id;
      request_id = context.request_id;
      workflow_id = uuid2;
    }
from_headers-to_headers lower context traceparent current uuid1 uuid2 h request correlation =
    rw
      (
        request_lem lower h context traceparent,
        correlation_lem lower h context traceparent,
        parent_lem lower h context traceparent,
        state_lem lower h context traceparent,
        request,
        correlation,
        truthy-truthy (effective lower h context traceparent),
      )
      refl
