-- ===== src/Tests/Authentication.antt =====
-- A request to the route of health checks, with and without a token.
use movie_reservation_agent.Prelude.{
  ℕ, String, ◌≡◌, ◌≢◌, refl, inl, false, Option, none, some, [], ◌∷◌, str_eq, if◌then◌else◌,
}
use movie_reservation_agent.Exec.{authentication_error, Exn, ok, err, Exec, pure}
use movie_reservation_agent.Value.{null, str, end, field}
use movie_reservation_agent.Authentication.{
  Message, Request, AuthenticatedUser, AsyncAuthenticationManager,
}
use movie_reservation_agent.Authentication.Tokens.{TokenLibrary, extract, extract_safe}
use movie_reservation_agent.Authentication.Claims.{TextLibrary}
use movie_reservation_agent.Authentication.Manager.{
  OpenIdConfiguration, static_provider, TokenValidationClient, jwt_manager,
}
use movie_reservation_agent.Authentication.Middleware.{
  finally_leave, production_enricher, instrumented_receive, App, execution_middleware, stack,
}
use movie_reservation_agent.Authentication.Middleware.Stack.{
  cleared, prepared, identified, with_outside, stack_outcomes,
}
use movie_reservation_agent.Authentication.Middleware.Cleanup.{
  IsClean, execution_middleware-IsClean, stack_without_token,
}

abbrev library : TokenLibrary
library = record {
  get_authorization_scheme_param = λ v. ok ("Bearer", "t");
  lower = λ s. if str_eq s "Bearer" then "bearer" else s;
  json_loads = λ s. none;
}

abbrev texts : TextLibrary
texts = record { split = λ s. s ∷ []; characters = λ s. s ∷ []; has = λ s t. false }

abbrev request_with : Option String → Request ℕ
request_with header = record {
  scope = record {
    scope_type = "http";
    path = some "/api/v1/health";
    headers = λ name. if str_eq name "Authorization" then header else none;
    state = none;
  };
  jwt_token_var = none;
  bound = end;
  outside = 3;
}

abbrev receive : Exec (Request ℕ) Message
receive = pure (record { message_type = none; text = none })

-- An application that returns the state of everything outside.
abbrev app : App ℕ ℕ
app inbox c = (ok c.outside, c)

abbrev respond : ℕ → String → Exec (Request ℕ) ℕ
respond status detail = pure status

abbrev user : AuthenticatedUser
user = record { user_id = str "u"; username = str "u"; email = null; roles = []; scopes = [] }

abbrev accepts : AsyncAuthenticationManager ℕ
accepts = record { authenticate_jwt_token = λ token. pure user }

abbrev provider : Exec ℕ OpenIdConfiguration
provider = static_provider "r" "u"

abbrev client : TokenValidationClient ℕ
client = record { authenticate = λ token audience url. pure (field "sub" (str "u") end) }

stack_outcomes_example :
    (accepts.authenticate_jwt_token (some "t") 3 ≡ (err authentication_error, 3)
      → stack
          (production_enricher library)
          accepts
          respond
          "id"
          app
          receive
          (request_with (some "Bearer t"))
        ≡ cleared (
            respond 401 "Authentication failed"
              (with_outside 3 (prepared "id" (some "t") (request_with (some "Bearer t"))))))
    × ((e : Exn)
        → e ≢ authentication_error
        → accepts.authenticate_jwt_token (some "t") 3 ≡ (err e, 3)
        → stack
            (production_enricher library)
            accepts
            respond
            "id"
            app
            receive
            (request_with (some "Bearer t"))
          ≡ cleared (
              respond 500 "Unexpected error during authentication"
                (with_outside 3 (prepared "id" (some "t") (request_with (some "Bearer t"))))))
    × ((u : AuthenticatedUser)
        → accepts.authenticate_jwt_token (some "t") 3 ≡ (ok u, 3)
        → stack
            (production_enricher library)
            accepts
            respond
            "id"
            app
            receive
            (request_with (some "Bearer t"))
          ≡ cleared (
              app (instrumented_receive library receive) (
                identified u.user_id
                  (with_outside 3 (prepared "id" (some "t") (request_with (some "Bearer t")))))))
unfolding extract_safe extract
stack_outcomes_example =
    stack_outcomes library "id" accepts respond app receive (request_with (some "Bearer t"))
      (some "t") 3 (record { web = refl; guarded = refl; found = refl })

execution_middleware-IsClean_example :
    IsClean
      (execution_middleware
        (production_enricher library)
        "id"
        app
        receive
        (request_with (some "Bearer t"))).1
execution_middleware-IsClean_example =
    execution_middleware-IsClean library "id" app receive (request_with (some "Bearer t")) refl
      (record { no_token = refl; nothing_bound = refl })

stack_without_token_example :
    stack
      (production_enricher library)
      (jwt_manager texts client provider)
      respond
      "id"
      app
      receive
      (request_with none)
    ≡ finally_leave
        (respond 500 "Unexpected error during authentication")
        (prepared "id" none (request_with none))
stack_without_token_example =
    stack_without_token library "id" texts client provider respond app receive (request_with none)
      (inl (refl, refl)) refl
