-- ===== src/Demo/Client/Outcomes.antt =====
-- What a call of a tool reports, whatever the server does.
use movie_reservation_agent.Prelude.{
  ◌≡◌, ◌≢◌, refl, ◌⊎◌, ◌||◌, true, false, Option, none, some, List, [], ◌∷◌, String, str_eq,
  is_some, or_else, if◌then◌else◌, Bool-cases, inl, inr, arith,
}
use movie_reservation_agent.Exec.{Exn, Result, ok, err, and_then-err, Result-cases}
use movie_reservation_agent.Value.{Value, null, bool, dict, Fields}
use movie_reservation_agent.Demo.{
  truthy, to_headers, to_tool_arguments, DemoTraceContext, DemoFault, DemoToolResult, ToolOutcome,
  succeeded, failed, timeout,
}
use movie_reservation_agent.Demo.Payload.{get}
use movie_reservation_agent.Demo.Client.{
  McpSettings, CallResult, plain, object, Wire, timed_out, raised, replied, Library, Json, Loaded,
  decoded, decode_error, fails, loaded, payloads, is_required, is_refusal, is_error,
  extract_tool_payload, report_payload, url_for_tool, update, fault_text, report, over_transport,
  call_tool,
}

-- A success has no error, and its payload is not a mapping with `"ok": False`; a failure has an
-- error; a timeout has the error of a timeout.
abbrev pub IsReport : ToolOutcome → Value → Option String → Type 0
IsReport succeeded payload error =
    (error ≡ none) × ((f : Fields) → payload ≡ dict f → get "ok" f ≢ bool false)
IsReport failed payload error = is_some error ≡ true
IsReport timeout payload error = error ≡ some "mcp_tool_timeout"

abbrev pub IsReportOf : String → DemoToolResult → Type 0
IsReportOf tool_name r = (r.tool_name ≡ tool_name) × IsReport r.outcome r.payload r.error

-- Not a JSONDecodeError, which is caught.
abbrev pub IsLoadFailure : Json → Exn → Type 0
IsLoadFailure json e = (text : String) × (json.loads text ≡ fails e)

-- A call reports on the tool, or an exception gets through: of the constructor of the transport or
-- of `json.loads`.
abbrev pub IsCall : {S : Type 0} → Json → Library S → String → Result DemoToolResult → Type 0
IsCall json library tool_name (ok r) = IsReportOf tool_name r
IsCall json library tool_name (err e) =
    ((url : String) × (headers : List (String × String)) × (library url headers ≡ err e))
    ⊎ IsLoadFailure json e

not_refused :
    (payload : Value)
    → is_refusal payload ≡ false
    → (f : Fields) → payload ≡ dict f
    → get "ok" f ≢ bool false
not_refused payload h f e said = ground (arith, rw (e, said) at h)

module _ (json : Json) where
  loaded-err : (l : Loaded) (text : String) {e : Exn} → loaded json l text ≡ err e → l ≡ fails e
  loaded-err (decoded v) text h = absurd (cc h)
  loaded-err decode_error text h = absurd (cc h)
  loaded-err (fails x) text h = cc h

  payloads-err :
      (content : List (Option String)) {e : Exn}
      → payloads json content ≡ err e
      → IsLoadFailure json e
  payloads-err [] h = absurd (cc h)
  payloads-err (none ∷ items) h = payloads-err items h
  payloads-err (some text ∷ items) h =
      elim (and_then-err (loaded json (json.loads text) text) _ h) [
        | inl stopped ↦ (text, loaded-err (json.loads text) text stopped)
        | inr (v, _, later) ↦ elim (and_then-err (payloads json items) _ later) [
          | inl stopped ↦ payloads-err items stopped
          | inr (rest, _, never) ↦ absurd (cc never)
        ]
      ]

  extract-err :
      (result : CallResult) {e : Exn}
      → extract_tool_payload json result ≡ err e
      → IsLoadFailure json e
  extract-err (plain v) h = absurd (cc h)
  extract-err (object (some v) content flag) h = absurd (cc h)
  extract-err (object none [] flag) h = absurd (cc h)
  extract-err (object none (item ∷ items) flag) h =
      elim (and_then-err (payloads json (item ∷ items)) _ h) [
        | inl stopped ↦ payloads-err (item ∷ items) stopped
        | inr (values, _, never) ↦ absurd (cc never)
      ]

module _ (json : Json) (tool_name : String) where
  report_payload-IsReportOf :
      (result : CallResult) (payload : Value)
      → IsReportOf tool_name (report_payload json tool_name result payload)
  report_payload-IsReportOf result payload = elim (Bool-cases (is_refusal payload)) [
    | inl refused ↦ rw refused (refl, refl)
    | inr accepted ↦ elim (Bool-cases (is_error result)) [
      | inl flagged ↦ rw (accepted, flagged) (refl, refl)
      | inr fine ↦ rw (accepted, fine) (refl, (refl, not_refused payload accepted))
    ]
  ]

  module _ {S : Type 0} (library : Library S) where
    report-IsCall : (w : Wire) → IsCall json library tool_name (report json tool_name w)
    report-IsCall timed_out = (refl, refl)
    report-IsCall raised = (refl, refl)
    report-IsCall (replied result) = elim (Result-cases (extract_tool_payload json result)) [
      | inl (payload, went) ↦ rw went (report_payload-IsReportOf result payload)
      | inr (x, stopped) ↦ rw stopped (inr (extract-err json result stopped))
    ]

    over_transport-IsCall :
        (url : String) (headers : List (String × String)) (arguments : Fields) (s : S)
        → IsCall json library tool_name
            (over_transport json (library url headers) tool_name arguments s).0
    over_transport-IsCall url headers arguments s = elim (Result-cases (library url headers)) [
      | inl (transport, went) ↦ rw went (report-IsCall (transport tool_name arguments s).0)
      | inr (x, stopped) ↦ rw stopped (inl (url, headers, stopped))
    ]

-- A call of one of the four tools, whatever the server does, reports on that tool: a success,
-- without an error and without a payload that says `"ok": False`, or a failure or a timeout, with an
-- error. Otherwise it raises what the constructor of the transport has raised, or what `json.loads`
-- has raised other than JSONDecodeError. A call of any other tool reports the failure
-- `agent_tool_not_allowlisted` without a server being asked.
pub call_tool_outcomes :
    {S : Type 0} (json : Json) (settings : McpSettings) (current : Option String)
    (library : Library S) (tool_name : String) (arguments : Fields) (context : DemoTraceContext)
    (fault : DemoFault) (s : S)
    → if str_eq tool_name "recommendation_get_movies"
        || (str_eq tool_name "reservation_get_catalog"
            || (str_eq tool_name "reservation_request_seats"
                || str_eq tool_name "reservation_get_request_status"))
      then IsCall json library tool_name
          (call_tool json settings current library tool_name arguments context fault s).0
      else call_tool json settings current library tool_name arguments context fault s ≡ (
        ok (record {
          tool_name = tool_name;
          outcome = failed;
          payload = null;
          error = some "agent_tool_not_allowlisted";
        }),
        s,
      )
unfolding call_tool
call_tool_outcomes json settings current library tool_name arguments context fault s =
    let traceparent = or_else (truthy current) context.traceparent in
    elim (Bool-cases (is_required tool_name)) [
      | inl listed ↦ rw listed (
          over_transport-IsCall json tool_name library (url_for_tool settings tool_name)
            (to_headers context traceparent)
            (update (to_tool_arguments context (fault_text fault) traceparent) arguments) s)
      | inr other ↦ rw other refl
    ]
