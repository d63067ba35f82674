-- ===== src/Demo/Reservation/Calls.antt =====
-- How often the workflow calls the tools, for any client.
use movie_reservation_agent.Prelude.{
  ℕ, zero, suc, ◌+◌, ◌≤◌, String, Bool, true, false, Option, none, some, arith, str_eq,
  if◌then◌else◌, Bool-cases, inl, inr, or_else,
}
use movie_reservation_agent.Value.{Fields}
use movie_reservation_agent.Exec.{Result, ok, err}
use movie_reservation_agent.Demo.{
  DemoMcpToolClient, DemoReservationRequest, DemoReservationResult, DemoToolResult,
}
use movie_reservation_agent.Demo.Payload.{
  Texts, get, first_screening_with_seats, choose_seat, normalized_status, mapping_value,
  optional_mapping_value,
}
use movie_reservation_agent.Demo.Reservation.{
  DemoAgentSettings, Reply, returned, raised, crashed, with_seat, after_call, Session, Flow, ◌>>=◌,
  go_on, require, call_required, Choice, decide, poll, request_seat, choose, run_workflow,
  is_refused,
}

-- One more if the tool is the named one.
abbrev tick : String → String → ℕ → ℕ
tick name tool n = if str_eq tool name then n + 1 else n

-- A client that also counts its requests for seats and its polls.
abbrev pub counting : {S : Type 0} → DemoMcpToolClient S → DemoMcpToolClient (S × ℕ × ℕ)
counting call_tool tool arguments context fault (s, seats, polls) =
    let r = call_tool tool arguments context fault s in
    (
      r.0,
      (
        r.1,
        tick "reservation_request_seats" tool seats,
        tick "reservation_get_request_status" tool polls,
      ),
    )

-- The flow requests seats at most `a` times and polls at most `b` times.
record IsWithin {S A : Type 0} (a b : ℕ) (m : Flow (S × ℕ × ℕ) A) : Type 0 where
  at :
      (s : Session (S × ℕ × ℕ))
      → ((m s).1.client.1 ≤ s.client.1 + a) × ((m s).1.client.2 ≤ s.client.2 + b)

go_on-IsWithin :
    {S A B : Type 0} (a b : ℕ) (r : Reply A) (f : A → Flow (S × ℕ × ℕ) B)
    → ((x : A) → IsWithin a b (f x))
    → IsWithin a b (go_on r f)
go_on-IsWithin a b (returned x) f h = record { at = λ s. (h x).at s }
go_on-IsWithin a b (raised e) f h = record { at = λ s. (omega arith, omega arith) }
go_on-IsWithin a b (crashed e) f h = record { at = λ s. (omega arith, omega arith) }

bind-IsWithin :
    {S A B : Type 0} (a b c d : ℕ) {x y : ℕ} (m : Flow (S × ℕ × ℕ) A) (f : A → Flow (S × ℕ × ℕ) B)
    → IsWithin a b m
    → ((r : A) → IsWithin c d (f r))
    → a + c ≤ x
    → b + d ≤ y
    → IsWithin x y (m >>= f)
bind-IsWithin a b c d m f p q hx hy = record {
  at = λ s.
      let (p1, p2) = p.at s in
      let (q1, q2) = (go_on-IsWithin c d (m s).0 f q).at (m s).1 in (omega arith, omega arith);
}

module _ {S : Type 0} (request : DemoReservationRequest) (texts : Texts)
    (call_tool : DemoMcpToolClient S) (settings : DemoAgentSettings) where
  abbrev call : String → Fields → Bool → Flow (S × ℕ × ℕ) Fields
  call = call_required request texts (counting call_tool) settings

  require-IsWithin :
      {A : Type 0} (o : Option A) (error : String) → IsWithin {S = S} 0 0 (require request o error)
  require-IsWithin none error = record { at = λ s. (omega arith, omega arith) }
  require-IsWithin (some a) error = record { at = λ s. (omega arith, omega arith) }

  settle-IsWithin :
      (b : ℕ) (choice : Choice) (reservation : Option Fields) (status : Option String)
      (more : Flow (S × ℕ × ℕ) DemoReservationResult)
      → IsWithin 0 b more
      → IsWithin 0 b
          (decide request texts (counting call_tool) settings choice reservation status more)
  settle-IsWithin b choice (some r) status more h = record { at = λ s. (omega arith, omega arith) }
  settle-IsWithin b choice none none more h = h
  settle-IsWithin b choice none (some status) more h =
      elim (Bool-cases (str_eq status "confirmed")) [
        | inl hit ↦ record { at = λ s. rw hit (omega arith, omega arith) }
        | inr miss ↦
            elim (Bool-cases (is_refused request texts (counting call_tool) settings status)) [
              | inl hit ↦ record { at = λ s. rw (miss, hit) (omega arith, omega arith) }
              | inr go ↦ record { at = λ s. rw (miss, go) (h.at s) }
            ]
      ]

  after_call-IsWithin :
      (tool : String) (replace : Bool) (r : Result DemoToolResult)
      → IsWithin {S = S} 0 0 (after_call request texts (counting call_tool) settings tool replace r)
  after_call-IsWithin tool replace (ok result) = record { at = λ s. (omega arith, omega arith) }
  after_call-IsWithin tool replace (err e) = record { at = λ s. (omega arith, omega arith) }

  call_seats :
      (arguments : Fields) → IsWithin 1 0 (call "reservation_request_seats" arguments false)
  unfolding call_required
  call_seats arguments = record {
    at = λ s.
        let r =
          counting call_tool "reservation_request_seats" arguments request.trace_context
            request.fault s.client in
        let (p, q) =
          (after_call-IsWithin "reservation_request_seats" false r.0).at
            (record s { client = r.1 }) in
        (omega arith, omega arith);
  }

  call_status :
      (arguments : Fields) → IsWithin 0 1 (call "reservation_get_request_status" arguments true)
  unfolding call_required
  call_status arguments = record {
    at = λ s.
        let r =
          counting call_tool "reservation_get_request_status" arguments request.trace_context
            request.fault s.client in
        let (p, q) =
          (after_call-IsWithin "reservation_get_request_status" true r.0).at
            (record s { client = r.1 }) in
        (omega arith, omega arith);
  }

  call_movies :
      (arguments : Fields) → IsWithin 0 0 (call "recommendation_get_movies" arguments false)
  unfolding call_required
  call_movies arguments = record {
    at = λ s.
        let r =
          counting call_tool "recommendation_get_movies" arguments request.trace_context
            request.fault s.client in
        let (p, q) =
          (after_call-IsWithin "recommendation_get_movies" false r.0).at
            (record s { client = r.1 }) in
        (omega arith, omega arith);
  }

  call_catalog :
      (arguments : Fields) → IsWithin 0 0 (call "reservation_get_catalog" arguments false)
  unfolding call_required
  call_catalog arguments = record {
    at = λ s.
        let r =
          counting call_tool "reservation_get_catalog" arguments request.trace_context request.fault
            s.client in
        let (p, q) =
          (after_call-IsWithin "reservation_get_catalog" false r.0).at
            (record s { client = r.1 }) in
        (omega arith, omega arith);
  }

  poll-IsWithin :
      (left : ℕ) (choice : Choice) (status : Option String)
      → IsWithin 0 left (poll request texts (counting call_tool) settings left choice status)
  unfolding poll
  poll-IsWithin zero choice status = record { at = λ s. (omega arith, omega arith) }
  poll-IsWithin (suc left) choice status = record {
    at = λ s.
        (bind-IsWithin 0 1 0 left _ _ (call_status _)
            (λ payload.
              let now =
                or_else (normalized_status texts (mapping_value payload "reservation_request"))
                  status in
              settle-IsWithin left choice (optional_mapping_value payload "reservation") now _
                (poll-IsWithin left choice now))
            (omega arith) (omega arith)).at
          s;
  }

  request_seat-IsWithin :
      (movie screening seat : Fields) (screening_id seat_id : String)
      → IsWithin 1 settings.demo_reservation_poll_attempts (
          request_seat request texts
            (counting call_tool)
            settings
            movie
            screening
            seat
            screening_id
            seat_id)
  unfolding request_seat
  request_seat-IsWithin movie screening seat screening_id seat_id =
      bind-IsWithin 1 0 0 settings.demo_reservation_poll_attempts _ _ (call_seats _)
        (λ payload.
          bind-IsWithin 0 0 0 settings.demo_reservation_poll_attempts _ _ (require-IsWithin _ _)
            (λ k. poll-IsWithin settings.demo_reservation_poll_attempts _ _) (omega arith)
            (omega arith))
        (omega arith) (omega arith)

  with_seat-IsWithin :
      (movie : Fields) (screening : Option Fields) (r : Result (Option Fields))
      → IsWithin 1 settings.demo_reservation_poll_attempts
          (with_seat request texts (counting call_tool) settings movie screening r)
  with_seat-IsWithin movie screening (err e) = record { at = λ s. (omega arith, omega arith) }
  with_seat-IsWithin movie screening (ok seat) = record {
    at = λ s.
        (bind-IsWithin 0 0 1 settings.demo_reservation_poll_attempts _ _ (require-IsWithin _ _)
            (λ c. request_seat-IsWithin _ _ _ _ _) (omega arith) (omega arith)).at
          s;
  }

  choose-IsWithin :
      (recommendation : Fields) (movie_id : String)
      → IsWithin 1 settings.demo_reservation_poll_attempts
          (choose request texts (counting call_tool) settings recommendation movie_id)
  unfolding choose
  choose-IsWithin recommendation movie_id =
      bind-IsWithin 0 0 1 settings.demo_reservation_poll_attempts _ _ (call_catalog _)
        (λ payload.
          let catalog = mapping_value payload "catalog" in
          let screening = first_screening_with_seats (get "screenings" catalog) movie_id in
          with_seat-IsWithin _ screening (choose_seat texts screening request.seat_preference))
        (omega arith) (omega arith)

  -- Whatever the tools answer, one run of the workflow requests seats at most once, and asks for
  -- the status of the request at most as often as the setting says, however it ends.
  pub run_workflow-calls :
      (s : Session (S × ℕ × ℕ))
      → let t = (run_workflow request texts (counting call_tool) settings s).1 in
        (t.client.1 ≤ s.client.1 + 1)
        × (t.client.2 ≤ s.client.2 + settings.demo_reservation_poll_attempts)
  unfolding run_workflow
  run_workflow-calls s =
      (bind-IsWithin 0 0 1 settings.demo_reservation_poll_attempts _ _ (call_movies _)
          (λ payload.
            bind-IsWithin 0 0 1 settings.demo_reservation_poll_attempts _ _ (require-IsWithin _ _)
              (λ r. choose-IsWithin _ _) (omega arith) (omega arith))
          (omega arith) (omega arith)).at
        s
