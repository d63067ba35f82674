-- ===== src/Authentication/Middleware.antt =====
-- The middlewares of llm_agent/llm_agent/api/http/middlewares and the enrichers of
-- llm_agent/llm_agent/infrastructure/execution_context. Log lines are left out.
pub mod Stack
pub mod Cleanup
use movie_reservation_agent.Prelude.{
  ℕ, String, Bool, true, false, ◌||◌, Option, none, some, str_eq, startswith, if◌then◌else◌,
}
use movie_reservation_agent.Exec.{
  Exn, Result, ok, err, Exec, key_error, authentication_error, pure, modify, continue, ◌>>=◌, ◌>>◌,
}
use movie_reservation_agent.Value.{Value, str, Fields, end}
use movie_reservation_agent.Demo.{truthy}
use movie_reservation_agent.Demo.Client.{set}
use movie_reservation_agent.Demo.Payload.{get}
use movie_reservation_agent.Authentication.{
  Scope, Message, Request, AuthenticatedUser, AsyncAuthenticationManager, optional_value,
  optional_text, set_state, outside_call,
}
use movie_reservation_agent.Authentication.Tokens.{TokenLibrary, extract_safe, extract_message_safe}

-- The token that the enricher finds in a scope.
abbrev pub scope_token : TokenLibrary → Scope → Result (Option String)
scope_token lib scope = if str_eq scope.scope_type "http" then extract_safe lib scope else ok none

-- `scope["type"] in ("http", "websocket")`
abbrev pub is_web : Scope → Bool
is_web scope = str_eq scope.scope_type "http" || str_eq scope.scope_type "websocket"

-- `str(raw_path).startswith(self.excluded_paths)`
abbrev pub is_excluded : Option String → Bool
is_excluded none = startswith "None" "/health"
is_excluded (some path) = startswith path "/health"

-- `scope["state"].get(JWT_TOKEN_NAME)`
abbrev pub extracted_token : Option Fields → Result (Option String)
extracted_token none = err key_error
extracted_token (some fields) = ok (optional_text (get "jwt_token" fields))

-- The status and the detail of the answer to an exception.
abbrev pub refusal : Exn → ℕ × String
refusal authentication_error = (401, "Authentication failed")
refusal _ = (500, "Unexpected error during authentication")

-- `ExecutionContextEnricher`, around what gives an `A`. The first argument is the id that
-- `generate_request_id` gives. `get_instrumented_send` gives back what it is given.
pub record ExecutionContextEnricher (S A : Type 0) : Type 0 where
  pub enrich_from_scope : String → Exec (Request S) A → Exec (Request S) A
  pub get_instrumented_receive : Exec (Request S) Message → Exec (Request S) Message

-- An application, which is given a way to receive messages.
abbrev pub App : Type 0 → Type 0 → Type 0
App S A = Exec (Request S) Message → Exec (Request S) A

module _ {S : Type 0} where
  -- `scope.setdefault("state", {})`
  abbrev pub setdefault : Request S → Request S
  setdefault c = elim c.scope.state [
    | none ↦ record c { scope = record c.scope { state = some end } }
    | some fields ↦ c
  ]

  -- The `finally` of `enrich_from_scope`.
  abbrev pub leave : Request S → Request S
  leave c = record c { jwt_token_var = none; bound = end }

  abbrev pub bind_context : String → Request S → Request S
  bind_context request_id c = record c {
    bound = set "scope_type" (str c.scope.scope_type) (set "request_id" (str request_id) c.bound);
  }

  abbrev pub set_token_var : Option String → Request S → Request S
  set_token_var jwt_token c = record c { jwt_token_var = jwt_token }

  module _ {A : Type 0} where
    abbrev pub finally_leave : Exec (Request S) A → Exec (Request S) A
    finally_leave body c = let r = body c in (r.0, leave r.1)

    -- The `try` of `enrich_from_scope`, around `body`.
    unfoldable pub within : String → Option String → Exec (Request S) A → Exec (Request S) A
    within request_id jwt_token body = finally_leave (
        modify (bind_context request_id)
        >> modify (set_token_var jwt_token)
        >> set_state "request_id" (str request_id)
        >> set_state "jwt_token" (optional_value jwt_token)
        >> body)

  -- What `instrumented_receive` does with the token of a message.
  abbrev pub keep_token : Option String → Exec (Request S) (Unit {0})
  keep_token none = pure tt
  keep_token (some jwt_token) =
      modify (set_token_var (some jwt_token)) >> set_state "jwt_token" (str jwt_token)

  -- `instrumented_receive`
  unfoldable pub instrumented_receive :
      TokenLibrary → Exec (Request S) Message → Exec (Request S) Message
  instrumented_receive lib receive = receive >>= λ message.
      (λ c. (extract_message_safe lib message, c)) >>= λ jwt_token.
      keep_token (truthy jwt_token) >>= λ _. pure message

  -- `structlog.contextvars.bind_contextvars(user_id=...)`
  abbrev pub bind_user : Value → Request S → Request S
  bind_user user_id c = record c { bound = set "user_id" user_id c.bound }

  -- The `try` of `AuthenticationMiddleware.__call__`.
  unfoldable pub identify : AsyncAuthenticationManager S → Exec (Request S) (Unit {0})
  identify manager = (λ c. (extracted_token c.scope.state, c)) >>= λ token.
      outside_call (manager.authenticate_jwt_token token) >>= λ user_identity.
      modify (bind_user user_identity.user_id) >> set_state "user_id" user_identity.user_id

  module _ {A : Type 0} where
    -- `ProductionContextEnricher`
    abbrev pub production_enricher : TokenLibrary → ExecutionContextEnricher S A
    production_enricher lib = record {
      enrich_from_scope = λ request_id body c.
          let entered = setdefault c in
          continue (scope_token lib entered.scope) (λ jwt_token. within request_id jwt_token body)
            entered;
      get_instrumented_receive = instrumented_receive lib;
    }

    -- `FakeExecutionContextEnricher`, with the token of `generate_fake_jwt_token`.
    abbrev pub fake_enricher : String → ExecutionContextEnricher S A
    fake_enricher token = record {
      enrich_from_scope = λ request_id body c.
          let entered = setdefault c in
          within request_id (if str_eq entered.scope.scope_type "http" then some token else none)
            body entered;
      get_instrumented_receive = λ receive. receive;
    }

    -- `ExecutionContextMiddleware.__call__`
    unfoldable pub execution_middleware : ExecutionContextEnricher S A → String → App S A → App S A
    execution_middleware enricher request_id app receive c =
        if is_web c.scope
        then enricher.enrich_from_scope request_id (app (enricher.get_instrumented_receive receive))
            c
        else app receive c

    -- How the middleware goes on; `respond` sends a JSON response with a status and a detail.
    abbrev pub after_identify :
        (ℕ → String → Exec (Request S) A)
        → Exec (Request S) A
        → Result (Unit {0})
        → Exec (Request S) A
    after_identify respond served (ok _) c = served c
    after_identify respond served (err e) c = respond (refusal e).0 (refusal e).1 c

    -- `AuthenticationMiddleware.__call__`
    unfoldable pub authentication_middleware :
        AsyncAuthenticationManager S → (ℕ → String → Exec (Request S) A) → App S A → App S A
    unfolding identify
    authentication_middleware manager respond app receive c =
        let r = identify manager c in
        if is_web c.scope
        then if is_excluded c.scope.path
          then app receive c
          else after_identify respond (app receive) r.0 r.1
        else app receive c

    -- The application behind both middlewares, in the order of `register_middlewares`: the one that
    -- is added last is the outer one.
    unfoldable pub stack :
        ExecutionContextEnricher S A
        → AsyncAuthenticationManager S
        → (ℕ → String → Exec (Request S) A)
        → String
        → App S A
        → App S A
    unfolding execution_middleware authentication_middleware
    stack enricher manager respond request_id app =
        execution_middleware enricher request_id (authentication_middleware manager respond app)
