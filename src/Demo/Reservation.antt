-- ===== src/Demo/Reservation.antt =====
-- DemoReservationService of llm_agent/llm_agent/services/demo/reservation.py. Spans and log lines
-- are left out; the sleep between two polls is only time.
pub mod Calls
pub mod Shape
pub mod Confirmed
use Prim.Native.String.{◌++◌ as str_append}
use movie_reservation_agent.Prelude.{
  ℕ, zero, suc, String, Bool, true, false, ◌||◌, not, Option, none, some, List, [], ◌∷◌, ◌++◌,
  str_eq, if◌then◌else◌, or_else, is_some,
}
use movie_reservation_agent.Int.{pos}
use movie_reservation_agent.Exec.{Exn, Result, ok, err}
use movie_reservation_agent.Value.{Value, num, str, list, dict, nil, cons, Fields, end, field}
use movie_reservation_agent.Demo.{
  or_text, DemoReservationRequest, DemoToolResult, DemoReservationResult, DemoWorkflowError,
  dependency_error, timeout_error, DemoMcpToolClient, ToolOutcome, succeeded, failed, timeout,
}
use movie_reservation_agent.Demo.Payload.{
  Texts, get, first_mapping, find_mapping, mapping_value, optional_mapping_value,
  first_screening_with_seats, choose_seat, string_value, normalized_status, display_movie,
  display_seat, or_default,
}

-- The settings that the workflow reads.
pub record DemoAgentSettings : Type 0 where
  pub demo_recommendation_limit : ℕ
  pub demo_reservation_poll_attempts : ℕ

-- What the workflow ends with: a value, one of its exceptions, or any other exception.
pub data Reply (A : Type 0) : Type 0 where
  returned : A → Reply A
  raised : DemoWorkflowError → Reply A
  crashed : Exn → Reply A

-- The list of results that the workflow mutates, and the state of the client.
pub record Session (S : Type 0) : Type 0 where
  pub tool_results : List DemoToolResult
  pub client : S

abbrev pub Flow : Type 0 → Type 0 → Type 0
Flow S A = Session S → Reply A × Session S

module _ {S A B : Type 0} where
  abbrev pub go_on : Reply A → (A → Flow S B) → Flow S B
  go_on (returned a) f s = f a s
  go_on (raised e) f s = (raised e, s)
  go_on (crashed e) f s = (crashed e, s)

  infixl 5 ◌>>=◌
  abbrev pub ◌>>=◌ : Flow S A → (A → Flow S B) → Flow S B
  ◌>>=◌ m f s = let r = m s in go_on r.0 f r.1

-- `[item for item in tool_results if item.tool_name != tool_name]`
abbrev pub without_tool : String → List DemoToolResult → List DemoToolResult
without_tool tool_name [] = []
without_tool tool_name (item ∷ items) =
    if str_eq item.tool_name tool_name
    then without_tool tool_name items
    else item ∷ without_tool tool_name items

abbrev pub both : {A B : Type 0} → Option A → Option B → Option (A × B)
both none o = none
both (some a) none = none
both (some a) (some b) = some (a, b)

-- `mapping or other`, of a mapping that is not empty where it is there
abbrev pub or_default_mapping : Option Fields → Fields → Fields
or_default_mapping none other = other
or_default_mapping (some f) other = f

-- The choices that the workflow has made when it asks for the seat.
pub record Choice : Type 0 where
  pub movie : Fields
  pub screening : Fields
  pub seat : Fields
  pub reservation_request_id : String

module _ (request : DemoReservationRequest) where
  abbrev pub result_of : Choice → String → String → List DemoToolResult → DemoReservationResult
  result_of choice status final_answer tool_results = record {
    workflow_id = request.trace_context.workflow_id;
    outcome = status;
    reservation_status = some status;
    reservation_request_id = some choice.reservation_request_id;
    final_answer = final_answer;
    trace_context = request.trace_context;
    movie = some choice.movie;
    screening = some choice.screening;
    seat = some choice.seat;
    tool_results = tool_results;
    error = none;
  }

  -- The result of `_dependency_error`
  abbrev pub dependency_result : List DemoToolResult → String → DemoReservationResult
  dependency_result tool_results error = record {
    workflow_id = request.trace_context.workflow_id;
    outcome = "dependency_failed";
    reservation_status = none;
    reservation_request_id = none;
    final_answer = "A dependency failed during the reservation workflow.";
    trace_context = request.trace_context;
    movie = none;
    screening = none;
    seat = none;
    tool_results = tool_results;
    error = some error;
  }

  -- The result of `_timeout_error`
  abbrev pub timeout_result :
      List DemoToolResult → String → Option String → Option String → DemoReservationResult
  timeout_result tool_results error reservation_request_id reservation_status = record {
    workflow_id = request.trace_context.workflow_id;
    outcome = "timeout";
    reservation_status = reservation_status;
    reservation_request_id = reservation_request_id;
    final_answer = "The reservation workflow timed out before confirmation.";
    trace_context = request.trace_context;
    movie = none;
    screening = none;
    seat = none;
    tool_results = tool_results;
    error = some error;
  }

  -- The tests of `_call_required` on the result of a call.
  abbrev pub check_result : ToolOutcome → Option String → Value → List DemoToolResult → Reply Fields
  check_result timeout error payload results =
      raised (timeout_error (timeout_result results (or_text error "mcp_tool_timeout") none none))
  check_result failed error payload results =
      raised (dependency_error (dependency_result results (or_text error "mcp_tool_failed")))
  check_result succeeded error (dict payload) results = returned payload
  check_result succeeded error _ results =
      raised (dependency_error (dependency_result results "mcp_tool_contract_invalid"))

  module _ {S : Type 0} where
    -- A value that must be there: else `_dependency_error`.
    abbrev pub require : {A : Type 0} → Option A → String → Flow S A
    require none error s = (raised (dependency_error (dependency_result s.tool_results error)), s)
    require (some a) error s = (returned a, s)

    module _ (texts : Texts) (call_tool : DemoMcpToolClient S) (settings : DemoAgentSettings) where
      -- `_call_required` after the call of the tool.
      abbrev pub after_call : String → Bool → Result DemoToolResult → Flow S Fields
      after_call tool_name replace_existing (err e) s = (crashed e, s)
      after_call tool_name replace_existing (ok result) s =
          let kept =
            if replace_existing then without_tool tool_name s.tool_results else s.tool_results in
          let results = kept ++ result ∷ [] in
          (
            check_result result.outcome result.error result.payload results,
            record s { tool_results = results },
          )

      -- `_call_required`
      unfoldable pub call_required : String → Fields → Bool → Flow S Fields
      call_required tool_name arguments replace_existing s =
          let r = call_tool tool_name arguments request.trace_context request.fault s.client in
          after_call tool_name replace_existing r.0 (record s { client = r.1 })

      abbrev pub confirm : Choice → Flow S DemoReservationResult
      confirm choice s = (
        returned (
            result_of choice "confirmed"
              (str_append "Reserved seat " (
                str_append (display_seat texts choice.seat)
                  (str_append " for " (str_append (display_movie choice.movie) "."))))
              s.tool_results),
        s,
      )

      -- `reservation_status in {"rejected", "failed"}`
      abbrev pub is_refused : String → Bool
      is_refused status = str_eq status "rejected" || str_eq status "failed"

      -- The end of the body of the loop: `status` is `reservation_status`, and `more` what follows.
      abbrev pub settle :
          Choice → Option String → Flow S DemoReservationResult → Flow S DemoReservationResult
      settle choice none more s = more s
      settle choice (some status) more s =
          if str_eq status "confirmed"
          then confirm choice s
          else if is_refused status
          then (
            returned (
                result_of choice status
                  (str_append "The reservation request was " (str_append status "."))
                  s.tool_results),
            s,
          )
          else more s

      -- The body of the loop, once the status is there.
      abbrev pub decide :
          Choice
          → Option Fields
          → Option String
          → Flow S DemoReservationResult
          → Flow S DemoReservationResult
      decide choice (some reservation) status more s = confirm choice s
      decide choice none status more s = settle choice status more s

      -- The loop over `range(demo_reservation_poll_attempts)`; `left` attempts are to come.
      unfoldable pub poll : ℕ → Choice → Option String → Flow S DemoReservationResult
      unfolding call_required
      poll zero choice status s = (
        raised (
            timeout_error (
              timeout_result s.tool_results "reservation_confirmation_timeout"
                (some choice.reservation_request_id) status)),
        s,
      )
      poll (suc left) choice status s =
          (call_required "reservation_get_request_status"
                (field "reservation_request_id" (str choice.reservation_request_id) end) true
              >>= λ status_payload.
                  let now =
                    or_else
                      (normalized_status texts (mapping_value status_payload "reservation_request"))
                      status in
                  decide choice (optional_mapping_value status_payload "reservation") now
                    (poll left choice now))
            s

      -- The request for the seat, and what follows.
      unfoldable pub request_seat :
          Fields → Fields → Fields → String → String → Flow S DemoReservationResult
      request_seat movie screening seat screening_id seat_id =
          call_required "reservation_request_seats"
            (field "screening_id" (str screening_id)
              (field "seat_ids" (list (cons (str seat_id) nil)) end))
            false
          >>= λ reservation_payload.
              let reservation_request = mapping_value reservation_payload "reservation_request" in
              require (string_value (some reservation_request) "id")
                "reservation_request_contract_invalid"
              >>= λ reservation_request_id.
                  poll settings.demo_reservation_poll_attempts
                    (record {
                      movie = movie;
                      screening = screening;
                      seat = seat;
                      reservation_request_id = reservation_request_id;
                    })
                    (normalized_status texts reservation_request)

      -- What follows `choose_seat`, which may raise.
      abbrev pub with_seat :
          Fields → Option Fields → Result (Option Fields) → Flow S DemoReservationResult
      with_seat movie screening (err e) s = (crashed e, s)
      with_seat movie screening (ok seat) s =
          (require
                (both (both screening (string_value screening "id"))
                  (both seat (string_value seat "id")))
                "reservation_catalog_has_no_seats"
              >>= λ chosen. request_seat movie chosen.0.0 chosen.1.0 chosen.0.1 chosen.1.1)
            s

      -- The choice of a screening and a seat, and what follows.
      unfoldable pub choose : Fields → String → Flow S DemoReservationResult
      choose recommendation movie_id =
          call_required "reservation_get_catalog" (field "movie_id" (str movie_id) end) false
          >>= λ catalog_payload.
              let catalog = mapping_value catalog_payload "catalog" in
              let movie =
                or_default_mapping (find_mapping (get "movies" catalog) "id" movie_id)
                  recommendation in
              let screening = first_screening_with_seats (get "screenings" catalog) movie_id in
              with_seat movie screening (choose_seat texts screening request.seat_preference)

      -- `_run_workflow`
      unfoldable pub run_workflow : Flow S DemoReservationResult
      run_workflow =
          call_required "recommendation_get_movies"
            (field "limit" (num (pos settings.demo_recommendation_limit))
              (field "preference" (str request.movie_preference) end))
            false
          >>= λ recommendation_payload.
              let recommendation = first_mapping (get "recommendations" recommendation_payload) in
              require
                (both recommendation (string_value recommendation "movie_reservation_movie_id"))
                "recommendation_contract_invalid"
              >>= λ recommended. choose recommended.0 recommended.1

      -- `reserve_recommended_seat`
      abbrev pub reserve_recommended_seat : S → Reply DemoReservationResult × Session S
      reserve_recommended_seat client = run_workflow (record { tool_results = []; client = client })
