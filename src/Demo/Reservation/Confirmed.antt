-- ===== src/Demo/Reservation/Confirmed.antt =====
-- When the loop of polls calls a reservation confirmed.
use movie_reservation_agent.Prelude.{
  ℕ, zero, suc, String, ◌≡◌, refl, Bool, true, false, ◌||◌, Option, none, some, List, [], ◌∷◌, ◌++◌,
  arith, str_eq, is_some, Bool-cases, inl, inr, or_else,
}
use movie_reservation_agent.Value.{
  Value, null, bool, num, real, str, list, dict, Fields, end, field,
}
use movie_reservation_agent.Exec.{Result, ok, err}
use movie_reservation_agent.Demo.{
  DemoMcpToolClient, DemoReservationRequest, DemoReservationResult, DemoToolResult, ToolOutcome,
  succeeded, failed, timeout,
}
use movie_reservation_agent.Demo.Payload.{
  Texts, normalized_status, mapping_value, optional_mapping_value,
}
use movie_reservation_agent.Demo.Reservation.{
  DemoAgentSettings, Reply, returned, raised, crashed, after_call, Session, Flow, go_on,
  call_required, check_result, Choice, decide, poll, is_refused, without_tool,
}

abbrev pub says_confirmed : Option String → Bool
says_confirmed none = false
says_confirmed (some status) = str_eq status "confirmed"

-- The last result of the list is a successful one, whose payload has a reservation or the status
-- `confirmed`, whatever the case of its letters.
pub record IsConfirmed (texts : Texts) (results : List DemoToolResult) : Type 0 where
  pub before : List DemoToolResult
  pub last : DemoToolResult
  pub payload : Fields
  pub ends : results ≡ before ++ last ∷ []
  pub success : last.outcome ≡ succeeded
  pub mapping : last.payload ≡ dict payload
  pub confirmed :
      is_some (optional_mapping_value payload "reservation")
        || says_confirmed (normalized_status texts (mapping_value payload "reservation_request"))
      ≡ true

abbrev Confirms : Texts → Reply DemoReservationResult → Type 0
Confirms texts (raised e) = Unit
Confirms texts (crashed e) = Unit
Confirms texts (returned r) = str_eq r.outcome "confirmed" ≡ true → IsConfirmed texts r.tool_results

-- The payload of the last call, where it says so.
call-IsConfirmed :
    {texts : Texts} (before : List DemoToolResult) (last : DemoToolResult) (payload : Fields)
    → last.outcome ≡ succeeded
    → last.payload ≡ dict payload
    → is_some (optional_mapping_value payload "reservation")
        || says_confirmed (normalized_status texts (mapping_value payload "reservation_request"))
      ≡ true
    → IsConfirmed texts (before ++ last ∷ [])
call-IsConfirmed before last payload success mapping confirmed = record {
  before = before;
  last = last;
  payload = payload;
  ends = refl;
  success = success;
  mapping = mapping;
  confirmed = confirmed;
}

-- A status that comes from the payload or, where it has none, from before.
or_else_says :
    (now before : Option String)
    → says_confirmed before ≡ false
    → says_confirmed (or_else now before) ≡ true
    → says_confirmed now ≡ true
or_else_says none before h e = ground (arith, h, e)
or_else_says (some s) before h e = e

module _ (request : DemoReservationRequest) (texts : Texts) where
  -- After a call: only a mapping goes on.
  checked-Confirms :
      {S : Type 0} (o : ToolOutcome) (error : Option String) (p : Value)
      (results : List DemoToolResult) (f : Fields → Flow S DemoReservationResult) (s : Session S)
      → ((payload : Fields) → o ≡ succeeded → p ≡ dict payload → Confirms texts (f payload s).0)
      → Confirms texts (go_on (check_result request o error p results) f s).0
  checked-Confirms timeout error p results f s h = tt
  checked-Confirms failed error p results f s h = tt
  checked-Confirms succeeded error (dict payload) results f s h = h payload refl refl
  checked-Confirms succeeded error null results f s h = tt
  checked-Confirms succeeded error (bool b) results f s h = tt
  checked-Confirms succeeded error (num n) results f s h = tt
  checked-Confirms succeeded error (real x) results f s h = tt
  checked-Confirms succeeded error (str t) results f s h = tt
  checked-Confirms succeeded error (list l) results f s h = tt

  module _ {S : Type 0} (call_tool : DemoMcpToolClient S) (settings : DemoAgentSettings) where
    decide-Confirms :
        (choice : Choice) (reservation : Option Fields) (status : Option String)
        (more : Flow S DemoReservationResult) (s : Session S)
        → (is_some reservation ≡ true → IsConfirmed texts s.tool_results)
        → (says_confirmed status ≡ true → IsConfirmed texts s.tool_results)
        → (says_confirmed status ≡ false → Confirms texts (more s).0)
        → Confirms texts
            (decide request texts call_tool settings choice reservation status more s).0
    decide-Confirms choice (some r) status more s hr hs hm = λ e. hr refl
    decide-Confirms choice none none more s hr hs hm = hm refl
    decide-Confirms choice none (some status) more s hr hs hm =
        elim (Bool-cases (str_eq status "confirmed")) [
          | inl hit ↦ rw hit (λ e. hs hit)
          | inr miss ↦ elim (Bool-cases (is_refused request texts call_tool settings status)) [
            | inl refused ↦ rw (miss, refused) (λ e. absurd (ground (arith, miss, e)))
            | inr pending ↦ rw (miss, pending) (hm miss)
          ]
        ]

    -- After a poll.
    polled-Confirms :
        (left : ℕ) (choice : Choice) (status : Option String) (r : Result DemoToolResult)
        (s : Session S)
        → says_confirmed status ≡ false
        → ((status' : Option String) (s' : Session S)
            → says_confirmed status' ≡ false
            → Confirms texts (poll request texts call_tool settings left choice status' s').0)
        → let t =
            after_call request texts call_tool settings "reservation_get_request_status" true r s in
          Confirms texts
            (go_on t.0
              (λ payload.
                let now =
                  or_else
                    (normalized_status texts (mapping_value payload "reservation_request"))
                    status in
                decide request texts call_tool settings choice
                  (optional_mapping_value payload "reservation")
                  now
                  (poll request texts call_tool settings left choice now))
              t.1).0
    polled-Confirms left choice status (err e) s h more = tt
    polled-Confirms left choice status (ok result) s h more =
        let before = without_tool "reservation_get_request_status" s.tool_results in
        let s' : Session S = record s { tool_results = before ++ result ∷ [] } in
        let now = λ (payload : Fields).
          normalized_status texts (mapping_value payload "reservation_request") in
        checked-Confirms result.outcome result.error result.payload s'.tool_results
          (λ payload.
            decide request texts call_tool settings choice
              (optional_mapping_value payload "reservation") (or_else (now payload) status)
              (poll request texts call_tool settings left choice (or_else (now payload) status)))
          s'
          (λ payload success mapping.
            let seen = call-IsConfirmed before result payload success mapping in
            decide-Confirms choice (optional_mapping_value payload "reservation")
              (or_else (now payload) status)
              (poll request texts call_tool settings left choice (or_else (now payload) status)) s'
              (λ e. seen (ground (arith, e)))
              (λ e. seen (ground (arith, or_else_says (now payload) status h e)))
              (λ e. more (or_else (now payload) status) s' e))

    poll-Confirms :
        (left : ℕ) (choice : Choice) (status : Option String) (s : Session S)
        → says_confirmed status ≡ false
        → Confirms texts (poll request texts call_tool settings left choice status s).0
    unfolding poll call_required
    poll-Confirms zero choice status s h = tt
    poll-Confirms (suc left) choice status s h =
        let r =
          call_tool "reservation_get_request_status"
            (field "reservation_request_id" (str choice.reservation_request_id) end)
            request.trace_context request.fault s.client in
        polled-Confirms left choice status r.0 (record s { client = r.1 }) h
          (poll-Confirms left choice)

    -- The loop of polls begins with a status other than `confirmed`. Whatever the tools answer, if
    -- it then returns a result with the outcome `confirmed`, the last of the result's tool results
    -- is a successful one whose payload has a reservation or says `confirmed`.
    pub poll-IsConfirmed :
        (left : ℕ) (choice : Choice) (status : Option String) (s : Session S)
        {r : DemoReservationResult}
        → says_confirmed status ≡ false
        → (poll request texts call_tool settings left choice status s).0 ≡ returned r
        → r.outcome ≡ "confirmed"
        → IsConfirmed texts r.tool_results
    poll-IsConfirmed left choice status s {r} h e out =
        let here : Confirms texts (returned r) = rw e at (poll-Confirms left choice status s h) in
        here (rw out refl)
