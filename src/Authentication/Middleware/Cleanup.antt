-- ===== src/Authentication/Middleware/Cleanup.antt =====
-- The context variables after a request, and the answer to a request without a token.
use movie_reservation_agent.Prelude.{
  arith, ℕ, String, ◌≡◌, refl, true, false, none, Option-cases, inl, inr, ◌⊎◌,
}
use movie_reservation_agent.Exec.{Exn, err, Exec, permission_error, Result-cases}
use movie_reservation_agent.Value.{end}
use movie_reservation_agent.Authentication.{Message, Request}
use movie_reservation_agent.Authentication.Tokens.{TokenLibrary, extract, extract_safe}
use movie_reservation_agent.Authentication.Claims.{TextLibrary}
use movie_reservation_agent.Authentication.Manager.{
  OpenIdConfiguration, TokenValidationClient, jwt_manager,
}
use movie_reservation_agent.Authentication.Middleware.{
  setdefault, leave, finally_leave, scope_token, production_enricher, App, is_web,
  execution_middleware, is_excluded, stack,
}
use movie_reservation_agent.Authentication.Middleware.Stack.{
  prepared, enrich_lem, IsGuarded, stack_outcomes,
}

module _ {S : Type 0} where
  -- No token is left in the variable and nothing is bound.
  pub record IsClean (c : Request S) : Type 0 where
    pub no_token : c.jwt_token_var ≡ none
    pub nothing_bound : c.bound ≡ end

  setdefault-IsClean : (c : Request S) → IsClean c → IsClean (setdefault c)
  setdefault-IsClean c h = elim (Option-cases c.scope.state) [
    | inl missing ↦ rw missing (record { no_token = h.no_token; nothing_bound = h.nothing_bound })
    | inr (fields, there) ↦
        rw there (record { no_token = h.no_token; nothing_bound = h.nothing_bound })
  ]

  leave-IsClean : (c : Request S) → IsClean (leave c)
  leave-IsClean c = record { no_token = refl; nothing_bound = refl }

module _ {S : Type 0} (lib : TokenLibrary) where
  without-IsGuarded :
      (c : Request S)
      → (c.scope.scope_type ≡ "http") × (c.scope.headers "Authorization" ≡ none)
        ⊎ (c.scope.scope_type ≡ "websocket")
      → is_excluded c.scope.path ≡ false
      → IsGuarded lib c none
  unfolding extract_safe extract
  without-IsGuarded c (inl (http, no_header)) guarded = record {
    web = rw http refl;
    guarded = guarded;
    found = rw (http, no_header) refl;
  }
  without-IsGuarded c (inr websocket) guarded = record {
    web = rw websocket refl;
    guarded = guarded;
    found = rw websocket refl;
  }

module _ {S A : Type 0} (lib : TokenLibrary) (request_id : String) where
  enrich_failed :
      (e : Exn) (body : Exec (Request S) A) (c : Request S)
      → scope_token lib c.scope ≡ err e
      → (production_enricher lib).enrich_from_scope request_id body c ≡ (err e, setdefault c)
  unfolding extract_safe extract
  enrich_failed e body c failed = elim (Option-cases c.scope.state) [
    | inl missing ↦ rw (missing, failed) refl
    | inr (fields, there) ↦ rw (there, failed) refl
  ]

  -- The context variables do not leak out of an HTTP or WebSocket request: when they are empty
  -- before it, they are empty after it, whatever the application does and however it ends.
  pub execution_middleware-IsClean :
      (app : App S A) (receive : Exec (Request S) Message) (c : Request S)
      → is_web c.scope ≡ true
      → IsClean c
      → IsClean (execution_middleware (production_enricher lib) request_id app receive c).1
  unfolding execution_middleware
  execution_middleware-IsClean app receive c web h =
      let served = app ((production_enricher {A = A} lib).get_instrumented_receive receive) in
      elim (Result-cases (scope_token lib c.scope)) [
        | inr (e, failed) ↦ rw (web, enrich_failed e served c failed) (setdefault-IsClean c h)
        | inl (token, found) ↦
            rw (web, enrich_lem lib request_id token served c found)
              (leave-IsClean (served (prepared request_id token c)).1)
      ]

  -- An HTTP request without an Authorization header, or any WebSocket, to a path that does not start
  -- with /health, is answered with status 500, behind the middlewares with the manager of JWT tokens.
  -- Neither the provider of the configuration nor the client nor the application is run.
  pub stack_without_token :
      (texts : TextLibrary) (client : TokenValidationClient S)
      (provider : Exec S OpenIdConfiguration) (respond : ℕ → String → Exec (Request S) A)
      (app : App S A) (receive : Exec (Request S) Message) (c : Request S)
      → (c.scope.scope_type ≡ "http") × (c.scope.headers "Authorization" ≡ none)
        ⊎ (c.scope.scope_type ≡ "websocket")
      → is_excluded c.scope.path ≡ false
      → stack
          (production_enricher lib)
          (jwt_manager texts client provider)
          respond
          request_id
          app
          receive
          c
        ≡ finally_leave
            (respond 500 "Unexpected error during authentication")
            (prepared request_id none c)
  unfolding jwt_manager
  stack_without_token texts client provider respond app receive c without guarded =
      (stack_outcomes lib request_id (jwt_manager texts client provider) respond app receive c none
          c.outside (without-IsGuarded lib c without guarded)).1
        permission_error (λ e. absurd (ground (arith, e))) refl
