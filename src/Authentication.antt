-- ===== src/Authentication.antt =====
-- Authentication of a request: the state of a request that
-- llm_agent/llm_agent/infrastructure/execution_context, the middlewares of
-- llm_agent/llm_agent/api/http/middlewares and llm_agent/llm_agent/infrastructure/authentication
-- share.
pub mod Tokens
pub mod Claims
pub mod Keys
pub mod Manager
pub mod Middleware
use movie_reservation_agent.Prelude.{ℕ, String, Bool, Option, none, some, List}
use movie_reservation_agent.Exec.{Result, ok, err, Exec, key_error}
use movie_reservation_agent.Value.{Value, null, str, Fields, end}
use movie_reservation_agent.Demo.Client.{set}

-- What is read of an ASGI scope. `headers` looks a header up, whatever the case of its name, and
-- `state` is the dictionary at "state", if there is one.
pub record Scope : Type 0 where
  pub scope_type : String
  pub path : Option String
  pub headers : String → Option String
  pub state : Option Fields

-- What is read of an ASGI message.
pub record Message : Type 0 where
  pub message_type : Option String
  pub text : Option String

-- A request under way: its scope, the variable `JWT_TOKEN`, the context variables of structlog, and
-- the state of everything else.
pub record Request (S : Type 0) : Type 0 where
  pub scope : Scope
  pub jwt_token_var : Option String
  pub bound : Fields
  pub outside : S

-- `AuthenticatedUser`; the claims of a token are JSON, and are taken over as they are.
pub record AuthenticatedUser : Type 0 where
  pub user_id : Value
  pub username : Value
  pub email : Value
  pub roles : List Value
  pub scopes : List String

-- `AsyncAuthenticationManager`
pub record AsyncAuthenticationManager (S : Type 0) : Type 0 where
  pub authenticate_jwt_token : Option String → Exec S AuthenticatedUser

-- A text or `None`, as JSON.
abbrev pub optional_value : Option String → Value
optional_value none = null
optional_value (some s) = str s

-- The other way; the token of a state is always one of both.
abbrev pub optional_text : Value → Option String
optional_text (str s) = some s
optional_text _ = none

module _ {S : Type 0} where
  -- `scope["state"][key] = value`
  abbrev pub write_state : Option Fields → String → Value → Exec (Request S) (Unit {0})
  write_state none key value c = (err key_error, c)
  write_state (some fields) key value c =
      (ok tt, record c { scope = record c.scope { state = some (set key value fields) } })

  abbrev pub set_state : String → Value → Exec (Request S) (Unit {0})
  set_state key value c = write_state c.scope.state key value c

  -- A call of something outside.
  abbrev pub outside_call : {A : Type 0} → Exec S A → Exec (Request S) A
  outside_call m c = let r = m c.outside in (r.0, record c { outside = r.1 })
