-- ===== src/Demo/Client.antt =====
-- FastMcpDemoToolClient of llm_agent/llm_agent/infrastructure/mcp/demo_client.py. The library that
-- speaks to a server is an argument; spans are left out.
pub mod Outcomes
use movie_reservation_agent.Prelude.{
  ℕ, zero, suc, String, Bool, true, false, ◌||◌, Option, none, some, List, [], ◌∷◌, str_eq,
  if◌then◌else◌, or_else,
}
use movie_reservation_agent.Int.{pos}
use movie_reservation_agent.Exec.{Exn, Result, ok, err, and_then}
use movie_reservation_agent.Value.{
  Value, finite, real, null, bool, num, str, list, dict, Items, nil, cons, Fields, end, field,
}
use movie_reservation_agent.Demo.{
  truthy, DemoTraceContext, to_headers, to_tool_arguments, DemoFault, no_fault, slow_recommendation,
  recommendation_error, DemoToolResult, DemoMcpToolClient, ToolOutcome, succeeded, failed, timeout,
}
use movie_reservation_agent.Demo.Payload.{get}

-- The two urls of `DemoAgentSettings`.
pub record McpSettings : Type 0 where
  pub movie_reservation_mcp_url : String
  pub movie_recommendation_mcp_url : String

-- What the library's `call_tool` gives: a plain value, or an object with the attributes that are
-- read, where an item of `content` may have a text.
pub data CallResult : Type 0 where
  plain : Value → CallResult
  object : Option Value → List (Option String) → Bool → CallResult

-- How a call of the library ends: it may run out of time or raise another exception.
pub data Wire : Type 0 where
  timed_out raised : Wire
  replied : CallResult → Wire

-- A transport of the library with a client on it, which is given a tool and its arguments.
abbrev pub Transport : Type 0 → Type 0
Transport S = String → Fields → S → Wire × S

-- `StreamableHttpTransport(url, headers=...)`, which may raise.
abbrev pub Library : Type 0 → Type 0
Library S = String → List (String × String) → Result (Transport S)

-- `mapping[key] = value`
abbrev pub set : String → Value → Fields → Fields
set key v end = field key v end
set key v (field k w rest) = if str_eq k key then field k v rest else field k w (set key v rest)

-- `{**arguments, **extra}`
abbrev pub update : List (String × String) → Fields → Fields
update [] arguments = arguments
update ((key, v) ∷ extra) arguments = update extra (set key (str v) arguments)

abbrev pub fault_text : DemoFault → String
fault_text no_fault = "none"
fault_text slow_recommendation = "slow-recommendation"
fault_text recommendation_error = "recommendation-error"

-- `tool_name in REQUIRED_TOOLS`
abbrev pub is_required : String → Bool
is_required tool_name =
    str_eq tool_name "recommendation_get_movies"
    || (str_eq tool_name "reservation_get_catalog"
        || (str_eq tool_name "reservation_request_seats"
            || str_eq tool_name "reservation_get_request_status"))

-- `_url_for_tool`
abbrev pub url_for_tool : McpSettings → String → String
url_for_tool settings tool_name =
    if str_eq tool_name "recommendation_get_movies"
    then settings.movie_recommendation_mcp_url
    else settings.movie_reservation_mcp_url

-- The content of a result that wraps its value.
abbrev pub unwrap : Value → Value
unwrap (dict (field key v end)) = if str_eq key "result" then v else dict (field key v end)
unwrap v = v

-- Python's truth of a value.
abbrev pub is_true : Value → Bool
is_true null = false
is_true (bool b) = b
is_true (num (pos zero)) = false
is_true (num _) = true
is_true (real (finite (pos zero) _)) = false
is_true (real _) = true
is_true (str s) = if str_eq s "" then false else true
is_true (list nil) = false
is_true (list (cons _ _)) = true
is_true (dict end) = false
is_true (dict (field _ _ _)) = true

-- `isinstance(payload, dict) and payload.get("ok") is False`
abbrev is_false : Value → Bool
is_false (bool false) = true
is_false _ = false

abbrev pub is_refusal : Value → Bool
is_refusal (dict f) = is_false (get "ok" f)
is_refusal _ = false

abbrev pub error_of : Value → Value
error_of (dict f) = get "error" f
error_of _ = null

abbrev pub is_error : CallResult → Bool
is_error (plain v) = false
is_error (object structured content flag) = flag

-- How `json.loads` ends: with a value, JSONDecodeError or another exception.
pub data Loaded : Type 0 where
  decoded : Value → Loaded
  decode_error : Loaded
  fails : Exn → Loaded

-- `json.loads(text)` and `str` of a value.
pub record Json : Type 0 where
  pub loads : String → Loaded
  pub str_of : Value → String

module _ (json : Json) where
  abbrev pub loaded : Loaded → String → Result Value
  loaded (decoded v) text = ok v
  loaded decode_error text = ok (str text)
  loaded (fails e) text = err e

  -- The loop of `extract_tool_payload` over the items of the content.
  abbrev pub payloads : List (Option String) → Result Items
  payloads [] = ok nil
  payloads (none ∷ items) = payloads items
  payloads (some text ∷ items) =
      and_then (loaded (json.loads text) text)
        (λ v. and_then (payloads items) (λ rest. ok (cons v rest)))

  abbrev single : Items → Value
  single (cons v nil) = v
  single items = list items

  -- `extract_tool_payload`
  abbrev pub extract_tool_payload : CallResult → Result Value
  extract_tool_payload (plain v) = ok v
  extract_tool_payload (object (some v) content flag) = ok (unwrap v)
  extract_tool_payload (object none [] flag) = ok null
  extract_tool_payload (object none (item ∷ items) flag) =
      and_then (payloads (item ∷ items)) (λ values. ok (single values))

  -- `str(payload.get("error") or "mcp_dependency_failed")`
  abbrev pub refusal_text : Value → String
  refusal_text v = if is_true v then json.str_of v else "mcp_dependency_failed"

  -- What `call_tool` makes of the reply.
  abbrev pub report_payload : String → CallResult → Value → DemoToolResult
  report_payload tool_name result payload =
      if is_refusal payload
      then record {
        tool_name = tool_name;
        outcome = failed;
        payload = payload;
        error = some (refusal_text (error_of payload));
      }
      else if is_error result
      then record {
        tool_name = tool_name;
        outcome = failed;
        payload = null;
        error = some "mcp_tool_failed";
      }
      else record { tool_name = tool_name; outcome = succeeded; payload = payload; error = none }

  abbrev pub report : String → Wire → Result DemoToolResult
  report tool_name timed_out = ok (record {
    tool_name = tool_name;
    outcome = timeout;
    payload = null;
    error = some "mcp_tool_timeout";
  })
  report tool_name raised = ok (record {
    tool_name = tool_name;
    outcome = failed;
    payload = null;
    error = some "mcp_tool_failed";
  })
  report tool_name (replied result) =
      and_then (extract_tool_payload result)
        (λ payload. ok (report_payload tool_name result payload))

  -- What follows the constructor of the transport, which stands outside the `try`.
  abbrev pub over_transport :
      {S : Type 0} → Result (Transport S) → String → Fields → S → Result DemoToolResult × S
  over_transport (err e) tool_name arguments s = (err e, s)
  over_transport (ok transport) tool_name arguments s =
      let r = transport tool_name arguments s in (report tool_name r.0, r.1)

  abbrev pub not_allowlisted : String → DemoToolResult
  not_allowlisted tool_name = record {
    tool_name = tool_name;
    outcome = failed;
    payload = null;
    error = some "agent_tool_not_allowlisted";
  }

  -- `call_tool`; `current` is what `get_current_traceparent` gives.
  unfoldable pub call_tool :
      {S : Type 0} → McpSettings → Option String → Library S → DemoMcpToolClient S
  call_tool settings current library tool_name arguments context fault s =
      let current_traceparent = or_else (truthy current) context.traceparent in
      let propagated =
        update (to_tool_arguments context (fault_text fault) current_traceparent) arguments in
      if is_required tool_name
      then over_transport
          (library (url_for_tool settings tool_name) (to_headers context current_traceparent))
          tool_name propagated s
      else (ok (not_allowlisted tool_name), s)
