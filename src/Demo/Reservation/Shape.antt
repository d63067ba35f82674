-- ===== src/Demo/Reservation/Shape.antt =====
-- What the workflow ends with, for any client.
use movie_reservation_agent.Prelude.{
  ℕ, zero, suc, String, ◌≡◌, refl, Bool, true, false, Option, none, some, List, arith, str_eq,
  eq_iff, is_some, Bool-cases, inl, inr, or_else, ◌⊎◌,
}
use movie_reservation_agent.Value.{Value, null, bool, num, real, str, list, dict, Fields}
use movie_reservation_agent.Exec.{Exn, Result, ok, err, overflow_error}
use movie_reservation_agent.Demo.Payload.Overflow.{choose_seat-err}
use movie_reservation_agent.Demo.{
  DemoMcpToolClient, DemoTraceContext, DemoFault, DemoReservationRequest, DemoReservationResult,
  DemoToolResult, DemoWorkflowError, dependency_error, timeout_error, ToolOutcome, succeeded,
  failed, timeout,
}
use movie_reservation_agent.Demo.Payload.{
  Texts, get, choose_seat, first_screening_with_seats, normalized_status, mapping_value,
  optional_mapping_value,
}
use movie_reservation_agent.Demo.Reservation.{
  DemoAgentSettings, Reply, returned, raised, crashed, after_call, with_seat, Session, Flow, ◌>>=◌,
  go_on, require, call_required, check_result, Choice, decide, poll, request_seat, choose,
  run_workflow, is_refused,
}

-- A result that the workflow returns: its outcome is one of three and is its status too, it names
-- the request, the movie, the screening and the seat, and has no error.
pub record IsAnswer (r : DemoReservationResult) : Type 0 where
  pub outcome : (r.outcome ≡ "confirmed") ⊎ ((r.outcome ≡ "rejected") ⊎ (r.outcome ≡ "failed"))
  pub status : r.reservation_status ≡ some r.outcome
  pub request_id : is_some r.reservation_request_id ≡ true
  pub movie : is_some r.movie ≡ true
  pub screening : is_some r.screening ≡ true
  pub seat : is_some r.seat ≡ true
  pub no_error : r.error ≡ none

-- A result that an exception carries: it has the outcome and the answer of its kind, an error, and
-- no seat.
pub record IsFailure (name : String) (r : DemoReservationResult) : Type 0 where
  pub outcome : r.outcome ≡ name
  pub has_error : is_some r.error ≡ true
  pub no_seat : r.seat ≡ none

-- The results that are carried along are those of the session.
abbrev pub IsFailed : List DemoToolResult → DemoWorkflowError → Type 0
IsFailed results (dependency_error r) = IsFailure "dependency_failed" r × (r.tool_results ≡ results)
IsFailed results (timeout_error r) = IsFailure "timeout" r × (r.tool_results ≡ results)

-- Any other exception is OverflowError or one that satisfies `P`.
abbrev pub IsEnd : (Exn → Type 0) → List DemoToolResult → Reply DemoReservationResult → Type 0
IsEnd P results (returned r) = IsAnswer r × (r.tool_results ≡ results)
IsEnd P results (raised e) = IsFailed results e
IsEnd P results (crashed e) = (e ≡ overflow_error) ⊎ P e

-- A step within the workflow: if it raises, it raises what it should.
abbrev IsStep : {A : Type 0} → (Exn → Type 0) → List DemoToolResult → Reply A → Type 0
IsStep P results (returned a) = Unit
IsStep P results (raised e) = IsFailed results e
IsStep P results (crashed e) = (e ≡ overflow_error) ⊎ P e

record Ends {S : Type 0} (P : Exn → Type 0) (m : Flow S DemoReservationResult) : Type 0 where
  at : (s : Session S) → IsEnd P (m s).1.tool_results (m s).0

record Goes {S A : Type 0} (P : Exn → Type 0) (m : Flow S A) : Type 0 where
  at : (s : Session S) → IsStep P (m s).1.tool_results (m s).0

go_on-Ends :
    {S A : Type 0} (P : Exn → Type 0) (r : Reply A) (f : A → Flow S DemoReservationResult)
    (s : Session S)
    → IsStep P s.tool_results r
    → ((a : A) → Ends P (f a))
    → IsEnd P (go_on r f s).1.tool_results (go_on r f s).0
go_on-Ends P (returned a) f s h q = (q a).at s
go_on-Ends P (raised e) f s h q = h
go_on-Ends P (crashed e) f s h q = h

bind-Ends :
    {S A : Type 0} (P : Exn → Type 0) (m : Flow S A) (f : A → Flow S DemoReservationResult)
    → Goes P m
    → ((a : A) → Ends P (f a))
    → Ends P (m >>= f)
bind-Ends P m f p q = record { at = λ s. go_on-Ends P (m s).0 f (m s).1 (p.at s) q }

module _ (request : DemoReservationRequest) (P : Exn → Type 0) where
  check_result-IsStep :
      (o : ToolOutcome) (error : Option String) (payload : Value) (results : List DemoToolResult)
      → IsStep P results (check_result request o error payload results)
  check_result-IsStep timeout error payload results =
      (record { outcome = refl; has_error = refl; no_seat = refl }, refl)
  check_result-IsStep failed error payload results =
      (record { outcome = refl; has_error = refl; no_seat = refl }, refl)
  check_result-IsStep succeeded error (dict payload) results = tt
  check_result-IsStep succeeded error null results =
      (record { outcome = refl; has_error = refl; no_seat = refl }, refl)
  check_result-IsStep succeeded error (bool b) results =
      (record { outcome = refl; has_error = refl; no_seat = refl }, refl)
  check_result-IsStep succeeded error (num n) results =
      (record { outcome = refl; has_error = refl; no_seat = refl }, refl)
  check_result-IsStep succeeded error (real x) results =
      (record { outcome = refl; has_error = refl; no_seat = refl }, refl)
  check_result-IsStep succeeded error (str s) results =
      (record { outcome = refl; has_error = refl; no_seat = refl }, refl)
  check_result-IsStep succeeded error (list l) results =
      (record { outcome = refl; has_error = refl; no_seat = refl }, refl)

  require-Goes :
      {S A : Type 0} (o : Option A) (error : String) → Goes {S = S} P (require request o error)
  require-Goes none error = record {
    at = λ s. (record { outcome = refl; has_error = refl; no_seat = refl }, refl);
  }
  require-Goes (some a) error = record { at = λ s. tt }

  -- A client that raises nothing but exceptions that satisfy `P`.
  abbrev pub OnlyRaises : {S : Type 0} → DemoMcpToolClient S → Type 0
  OnlyRaises {S} call_tool =
      (tool : String) (arguments : Fields) (context : DemoTraceContext) (fault : DemoFault) (s : S)
      (e : Exn)
      → (call_tool tool arguments context fault s).0 ≡ err e
      → P e

  module _ {S : Type 0} (texts : Texts) (call_tool : DemoMcpToolClient S)
      (settings : DemoAgentSettings) (raises : OnlyRaises call_tool) where
    after_call-IsStep :
        (tool : String) (replace : Bool) (r : Result DemoToolResult) (s : Session S)
        → ((e : Exn) → r ≡ err e → P e)
        → let t = after_call request texts call_tool settings tool replace r s in
          IsStep P t.1.tool_results t.0
    after_call-IsStep tool replace (err e) s h = inr (h e refl)
    after_call-IsStep tool replace (ok result) s h =
        check_result-IsStep result.outcome result.error result.payload _

    call_required-Goes :
        (tool : String) (arguments : Fields) (replace : Bool)
        → Goes P (call_required request texts call_tool settings tool arguments replace)
    unfolding call_required
    call_required-Goes tool arguments replace = record {
      at = λ s.
          let r = call_tool tool arguments request.trace_context request.fault s.client in
          after_call-IsStep tool replace r.0 (record s { client = r.1 })
            (raises tool arguments request.trace_context request.fault s.client);
    }

    decide-Ends :
        (choice : Choice) (reservation : Option Fields) (status : Option String)
        (more : Flow S DemoReservationResult)
        → Ends P more
        → Ends P (decide request texts call_tool settings choice reservation status more)
    decide-Ends choice (some r) status more h = record {
      at = λ s. (
        record {
          outcome = inl refl;
          status = refl;
          request_id = refl;
          movie = refl;
          screening = refl;
          seat = refl;
          no_error = refl;
        },
        refl,
      );
    }
    decide-Ends choice none none more h = h
    decide-Ends choice none (some status) more h = elim (Bool-cases (str_eq status "confirmed")) [
      | inl hit ↦ record {
        at = λ s. rw hit (
          record {
            outcome = inl refl;
            status = refl;
            request_id = refl;
            movie = refl;
            screening = refl;
            seat = refl;
            no_error = refl;
          },
          refl,
        );
      }
      | inr miss ↦ elim (Bool-cases (is_refused request texts call_tool settings status)) [
        | inl hit ↦
            let which : (status ≡ "rejected") ⊎ (status ≡ "failed") =
              elim (Bool-cases (str_eq status "rejected")) [
                | inl a ↦ inl ((eq_iff status "rejected").0 a)
                | inr b ↦ inr ((eq_iff status "failed").0 (ground (arith, hit, b)))
              ] in
            record {
              at = λ s.
                  rw (miss, hit)
                    (
                      record {
                        outcome = inr which;
                        status = refl;
                        request_id = refl;
                        movie = refl;
                        screening = refl;
                        seat = refl;
                        no_error = refl;
                      },
                      refl,
                    );
            }
        | inr go ↦ record { at = λ s. rw (miss, go) (h.at s) }
      ]
    ]

    poll-Ends :
        (left : ℕ) (choice : Choice) (status : Option String)
        → Ends P (poll request texts call_tool settings left choice status)
    unfolding poll
    poll-Ends zero choice status = record {
      at = λ s. (record { outcome = refl; has_error = refl; no_seat = refl }, refl);
    }
    poll-Ends (suc left) choice status = record {
      at = λ s.
          (bind-Ends P _ _ (call_required-Goes "reservation_get_request_status" _ true) (λ payload.
              let now =
                or_else (normalized_status texts (mapping_value payload "reservation_request"))
                  status in
              decide-Ends choice (optional_mapping_value payload "reservation") now _
                (poll-Ends left choice now))).at
            s;
    }

    request_seat-Ends :
        (movie screening seat : Fields) (screening_id seat_id : String)
        → Ends P (
            request_seat request texts call_tool settings movie screening seat screening_id seat_id)
    unfolding request_seat
    request_seat-Ends movie screening seat screening_id seat_id =
        bind-Ends P _ _ (call_required-Goes "reservation_request_seats" _ false) (λ payload.
          bind-Ends P _ _ (require-Goes _ _)
            (λ k. poll-Ends settings.demo_reservation_poll_attempts _ _))

    with_seat-Ends :
        (movie : Fields) (screening : Option Fields) (r : Result (Option Fields))
        → ((e : Exn) → r ≡ err e → e ≡ overflow_error)
        → Ends P (with_seat request texts call_tool settings movie screening r)
    with_seat-Ends movie screening (err e) h = record { at = λ s. inl (h e refl) }
    with_seat-Ends movie screening (ok seat) h = record {
      at = λ s. (bind-Ends P _ _ (require-Goes _ _) (λ c. request_seat-Ends _ _ _ _ _)).at s;
    }

    choose-Ends :
        (recommendation : Fields) (movie_id : String)
        → Ends P (choose request texts call_tool settings recommendation movie_id)
    unfolding choose
    choose-Ends recommendation movie_id =
        bind-Ends P _ _ (call_required-Goes "reservation_get_catalog" _ false) (λ payload.
          let catalog = mapping_value payload "catalog" in
          let screening = first_screening_with_seats (get "screenings" catalog) movie_id in
          with_seat-Ends _ screening (choose_seat texts screening request.seat_preference)
            (λ e. choose_seat-err texts screening request.seat_preference))

    -- Whatever the tools answer, the workflow returns a result whose outcome is `confirmed`,
    -- `rejected` or `failed` and is its status too, with the request, the movie, the screening and
    -- the seat and without an error; or it raises `DemoDependencyError` with the outcome
    -- `dependency_failed` or `DemoWorkflowTimeoutError` with the outcome `timeout`, with an error
    -- and without a seat; or OverflowError or an exception of the client gets through. All but the
    -- last carry the tool results of the session as they are at its end.
    pub run_workflow-IsEnd :
        (s : Session S)
        → let r = run_workflow request texts call_tool settings s in IsEnd P r.1.tool_results r.0
    unfolding run_workflow
    run_workflow-IsEnd s =
        (bind-Ends P _ _ (call_required-Goes "recommendation_get_movies" _ false)
            (λ payload. bind-Ends P _ _ (require-Goes _ _) (λ r. choose-Ends _ _))).at
          s
