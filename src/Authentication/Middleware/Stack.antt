-- ===== src/Authentication/Middleware/Stack.antt =====
-- What an application behind both middlewares is given, and what is answered in its place.
use movie_reservation_agent.Prelude.{
  ℕ, String, ◌≡◌, ◌≢◌, refl, ap, ◌∙◌, true, false, Option, none, some, str_eq, Bool-cases,
  Option-cases, inl, inr, eq_refl,
}
use movie_reservation_agent.Exec.{
  Exn, ok, err, Exec, run_not_found, lease_lost, key_error, stream_missing, unknown_status,
  invalid_transition, type_error, attribute_error, executor_error, value_error, zero_division,
  index_error, overflow_error, os_error, permission_error, invalid_header, invalid_websocket_auth,
  token_error, authentication_error,
}
use movie_reservation_agent.Value.{Value, str, Fields, end, field}
use movie_reservation_agent.Demo.Client.{set}
use movie_reservation_agent.Demo.Payload.{get}
use movie_reservation_agent.Authentication.{
  Message, Request, AuthenticatedUser, AsyncAuthenticationManager, optional_value, optional_text,
}
use movie_reservation_agent.Authentication.Tokens.{TokenLibrary, extract, extract_safe}
use movie_reservation_agent.Authentication.Middleware.{
  finally_leave, within, scope_token, instrumented_receive, production_enricher, App, is_web,
  execution_middleware, is_excluded, identify, refusal, after_identify, authentication_middleware,
  stack,
}

pub get-set : (key : String) (v : Value) (fields : Fields) → get key (set key v fields) ≡ v
get-set key v end = rw (eq_refl key) refl
get-set key v (field k w rest) = elim (Bool-cases (str_eq k key)) [
  | inl same ↦ rw same (rw (same, get) refl)
  | inr other ↦ rw other (rw (other, get) (get-set key v rest))
]

abbrev pub fields_of : Option Fields → Fields
fields_of none = end
fields_of (some fields) = fields

module _ {S : Type 0} where
  -- A request with its id and its token, as the enricher prepares it.
  abbrev pub prepared : String → Option String → Request S → Request S
  prepared request_id token c = record c {
    jwt_token_var = token;
    bound = set "scope_type" (str c.scope.scope_type) (set "request_id" (str request_id) c.bound);
    scope = record c.scope {
      state = some (
          set "jwt_token" (optional_value token)
            (set "request_id" (str request_id) (fields_of c.scope.state)));
    };
  }

  -- A request whose user is known.
  abbrev pub identified : Value → Request S → Request S
  identified user_id c = record c {
    bound = set "user_id" user_id c.bound;
    scope = record c.scope { state = some (set "user_id" user_id (fields_of c.scope.state)) };
  }

  -- What is answered, and the request with its context variables emptied.
  abbrev pub cleared {ℓ} : {R : Type ℓ} → R × Request S → R × Request S
  cleared (answer, c) = (answer, record c { jwt_token_var = none; bound = end })

  abbrev pub with_outside : S → Request S → Request S
  with_outside s c = record c { outside = s }

  module _ {A : Type 0} (lib : TokenLibrary) (request_id : String) where
    pub enrich_lem :
        (token : Option String) (body : Exec (Request S) A) (c : Request S)
        → scope_token lib c.scope ≡ ok token
        → (production_enricher lib).enrich_from_scope request_id body c
          ≡ finally_leave body (prepared request_id token c)
    unfolding within extract_safe extract
    enrich_lem token body c found = elim (Option-cases c.scope.state) [
      | inl missing ↦ rw (missing, found) refl
      | inr (fields, there) ↦ rw (there, found) refl
    ]

refusal_other :
    (e : Exn)
    → e ≢ authentication_error
    → refusal e ≡ (500, "Unexpected error during authentication")
refusal_other authentication_error other = absurd (other refl)
refusal_other run_not_found other = refl
refusal_other lease_lost other = refl
refusal_other key_error other = refl
refusal_other stream_missing other = refl
refusal_other unknown_status other = refl
refusal_other invalid_transition other = refl
refusal_other type_error other = refl
refusal_other attribute_error other = refl
refusal_other executor_error other = refl
refusal_other value_error other = refl
refusal_other zero_division other = refl
refusal_other index_error other = refl
refusal_other overflow_error other = refl
refusal_other os_error other = refl
refusal_other permission_error other = refl
refusal_other invalid_header other = refl
refusal_other invalid_websocket_auth other = refl
refusal_other token_error other = refl

token_lem : (token : Option String) → optional_text (optional_value token) ≡ token
token_lem none = refl
token_lem (some t) = refl

-- The token of a prepared request is the one that was found.
token_back :
    (request_id : String) (token : Option String) (fields : Fields)
    → optional_text (
        get "jwt_token"
          (set "jwt_token" (optional_value token) (set "request_id" (str request_id) fields)))
      ≡ token
token_back request_id token fields =
    ap optional_text
      (get-set "jwt_token" (optional_value token) (set "request_id" (str request_id) fields))
    ∙ token_lem token

module _ {S : Type 0} (request_id : String) (manager : AsyncAuthenticationManager S) (c : Request S)
    (token : Option String) where
  identify-err :
      (e : Exn) (s : S)
      → manager.authenticate_jwt_token token c.outside ≡ (err e, s)
      → identify manager (prepared request_id token c)
        ≡ (err e, with_outside s (prepared request_id token c))
  unfolding identify
  identify-err e s failed = rw (token_back request_id token (fields_of c.scope.state), failed) refl

  identify-ok :
      (user : AuthenticatedUser) (s : S)
      → manager.authenticate_jwt_token token c.outside ≡ (ok user, s)
      → identify manager (prepared request_id token c)
        ≡ (ok tt, identified user.user_id (with_outside s (prepared request_id token c)))
  unfolding identify
  identify-ok user s known = rw (token_back request_id token (fields_of c.scope.state), known) refl

-- An HTTP or WebSocket request to a path that is not excluded, in which the enricher finds a token
-- or none.
pub record IsGuarded {S : Type 0} (lib : TokenLibrary) (c : Request S) (token : Option String)
    : Type 0 where
  pub web : is_web c.scope ≡ true
  pub guarded : is_excluded c.scope.path ≡ false
  pub found : scope_token lib c.scope ≡ ok token

module _ {S A : Type 0} (lib : TokenLibrary) (request_id : String)
    (manager : AsyncAuthenticationManager S) (respond : ℕ → String → Exec (Request S) A)
    (app : App S A) (receive : Exec (Request S) Message) (c : Request S)
    (token : Option String) where
  stack_lem :
      IsGuarded lib c token
      → stack (production_enricher lib) manager respond request_id app receive c
        ≡ finally_leave
            (λ d.
              let r = identify manager d in
              after_identify respond (app (instrumented_receive lib receive)) r.0 r.1)
            (prepared request_id token c)
  unfolding stack execution_middleware authentication_middleware
  stack_lem h = rw h.web (
      enrich_lem lib request_id token
        (authentication_middleware manager respond app (instrumented_receive lib receive)) c h.found
      ∙ rw (h.web, h.guarded) refl)

  -- A request with an HTTP or WebSocket scope and a path that is not excluded is served just as the
  -- manager says of the token that the enricher finds in it. If the manager raises, the application
  -- is not run: what is done is to respond with 401 and "Authentication failed" for an
  -- AuthenticationError and with 500 and "Unexpected error during authentication" for any other
  -- exception. If the manager returns a user, the application is run on the request with this
  -- user, its token and its id. In both cases the context variables are empty afterwards.
  pub stack_outcomes :
      (s : S)
      → IsGuarded lib c token
      → (manager.authenticate_jwt_token token c.outside ≡ (err authentication_error, s)
          → stack (production_enricher lib) manager respond request_id app receive c
            ≡ cleared (
                respond 401 "Authentication failed" (with_outside s (prepared request_id token c))))
        × ((e : Exn)
            → e ≢ authentication_error
            → manager.authenticate_jwt_token token c.outside ≡ (err e, s)
            → stack (production_enricher lib) manager respond request_id app receive c
              ≡ cleared (
                  respond 500 "Unexpected error during authentication"
                    (with_outside s (prepared request_id token c))))
        × ((user : AuthenticatedUser)
            → manager.authenticate_jwt_token token c.outside ≡ (ok user, s)
            → stack (production_enricher lib) manager respond request_id app receive c
              ≡ cleared (
                  app
                    (instrumented_receive lib receive)
                    (identified user.user_id (with_outside s (prepared request_id token c)))))
  stack_outcomes s h = (
    λ failed.
        stack_lem h
        ∙ rw (identify-err request_id manager c token authentication_error s failed) refl,
    λ e other failed.
        stack_lem h
        ∙ rw (identify-err request_id manager c token e s failed) (
            ap
              (λ (x : ℕ × String).
                cleared (respond x.0 x.1 (with_outside s (prepared request_id token c))))
              (refusal_other e other)),
    λ user known. stack_lem h ∙ rw (identify-ok request_id manager c token user s known) refl,
  )
