-- ===== src/Audit/Login/Accepted.antt =====
-- When the route of the demonstration accepts credentials.
use mathlib.Core.Path.{subst}
use movie_reservation_agent.Prelude.{
  ℕ, ◌+◌, ◌≤◌, ◌≡◌, refl, ap, sym, ◌∙◌, String, Bool, true, false, ◌&&◌, ◌||◌, Option, none, some,
  List, [], ◌∷◌, ◌++◌, length, arith, ltb, Bool-cases, inl, inr, length-append,
}
use movie_reservation_agent.Exec.{Exn, os_error, Result, ok, err, pure, continue}
use movie_reservation_agent.Audit.{
  AuditContext, is_acceptance, invalid_token, unauthenticated, AuthenticationEvent,
  AuthenticationOutcome, authenticated, invalid_credentials, missing_credentials,
  malformed_credentials, make_event, checked,
}
use movie_reservation_agent.Audit.Login.{
  AuditSink, DemoAuthenticationService, Stamp, DemoLoginRequestDto, LoginResponse, is_missing,
  outcome_if, max_login_body_bytes, read_body, validated, status_of, login_response, unavailable,
  login_answer, event_of, publish_event, record_event, matches, outcome_of, check_credentials,
  login_event, login_with, demo_login,
}

module _ (chunk : List ℕ) (chunks : List (List ℕ)) (body : List ℕ) where
  read_body_long :
      ltb max_login_body_bytes (length body + length chunk) ≡ true
      → read_body (chunk ∷ chunks) body ≡ none
  unfolding read_body
  read_body_long h = rw (h, read_body) refl

  read_body_fine :
      ltb max_login_body_bytes (length body + length chunk) ≡ false
      → read_body (chunk ∷ chunks) body ≡ read_body chunks (body ++ chunk)
  unfolding read_body
  read_body_fine h = rw (h, read_body) refl

-- A body that is read is not longer than the limit.
pub read_body-length :
    (chunks : List (List ℕ)) (body whole : List ℕ)
    → length body ≤ max_login_body_bytes
    → read_body chunks body ≡ some whole
    → length whole ≤ max_login_body_bytes
unfolding read_body
read_body-length [] body whole le e =
    let same : body ≡ whole = cc e in subst (λ b. length b ≤ max_login_body_bytes) same le
read_body-length (chunk ∷ chunks) body whole le e =
    elim (Bool-cases (ltb max_login_body_bytes (length body + length chunk))) [
      | inl long ↦
          let both : none ≡ some whole = sym (read_body_long chunk chunks body long) ∙ e in
          absurd (ground (arith, both))
      | inr fine ↦
          read_body-length chunks (body ++ chunk) whole (ground (arith, length-append body chunk))
            (sym (read_body_fine chunk chunks body fine) ∙ e)
    ]

-- Only existing credentials that match are authenticated.
outcome_if_lem :
    (missing matching : Bool)
    → outcome_if missing matching ≡ authenticated
    → (missing ≡ false) × (matching ≡ true)
outcome_if_lem true m e = absurd (ground (arith, e))
outcome_if_lem false true e = (refl, refl)
outcome_if_lem false false e = absurd (ground (arith, e))

is_acceptance_lem : (o : AuthenticationOutcome) → is_acceptance o ≡ true → o ≡ authenticated
is_acceptance_lem authenticated h = refl
is_acceptance_lem invalid_credentials h = absurd (ground (arith, h))
is_acceptance_lem missing_credentials h = absurd (ground (arith, h))
is_acceptance_lem malformed_credentials h = absurd (ground (arith, h))
is_acceptance_lem invalid_token h = absurd (ground (arith, h))
is_acceptance_lem unauthenticated h = absurd (ground (arith, h))

-- An exception is never answered with 200.
login_answer-err :
    (payload : Option DemoLoginRequestDto) (context : AuditContext) (x : Exn)
    (response : LoginResponse)
    → login_answer payload context (err x) ≡ ok response
    → response.status_code ≡ 503
login_answer-err payload context os_error response e =
    let same : unavailable ≡ response = cc e in ap (λ r. r.status_code) (sym same)
login_answer-err payload context x response e = absurd (ground (arith, e))

-- An answer with 200 is that of valid credentials that were authenticated.
login_answer-accepted :
    (payload : Option DemoLoginRequestDto) (context : AuditContext) (r : Result AuthenticationEvent)
    (response : LoginResponse)
    → login_answer payload context r ≡ ok response
    → response.status_code ≡ 200
    → (dto : DemoLoginRequestDto) × (event : AuthenticationEvent) × (payload ≡ some dto)
      × (r ≡ ok event)
      × (event.outcome ≡ authenticated)
login_answer-accepted payload context (err x) response e h =
    absurd (omega (arith, login_answer-err payload context x response e, h))
login_answer-accepted none context (ok event) response e h =
    let same : login_response none context event ≡ response = cc e in
    let wrong : 400 ≡ 200 = ap (λ r. r.status_code) same ∙ h in absurd (omega (arith, wrong))
login_answer-accepted (some dto) context (ok event) response e h =
    let same : login_response (some dto) context event ≡ response = cc e in
    let status : status_of (some dto) event ≡ 200 = ap (λ r. r.status_code) same ∙ h in
    let accepted : is_acceptance event.outcome ≡ true = ground (arith, status) in
    (dto, event, refl, refl, is_acceptance_lem event.outcome accepted)

module _ {S : Type 0} where
  published :
      (r : Result (Unit {0})) (given event : AuthenticationEvent) (s : S)
      → (continue r (λ _. pure given) s).0 ≡ ok event
      → given ≡ event
  published (ok _) given event s e = cc e
  published (err x) given event s e = absurd (ground (arith, e))

  checked_lem :
      (b : Bool) (sink : AuditSink S) (given event : AuthenticationEvent) (s : S)
      → (continue (checked b given) (publish_event sink) s).0 ≡ ok event
      → given ≡ event
  checked_lem true sink given event s e =
      published (sink.publish given s).0 given event (sink.publish given s).1 e
  checked_lem false sink given event s e = absurd (ground (arith, e))

  -- The outcome of a recorded event is the one that was given.
  record_event-outcome :
      (service : DemoAuthenticationService S) (stamp : Stamp) (outcome : AuthenticationOutcome)
      (context : AuditContext) (s : S) (event : AuthenticationEvent)
      → (record_event service stamp outcome context s).0 ≡ ok event
      → event.outcome ≡ outcome
  unfolding record_event make_event
  record_event-outcome service stamp outcome context s event e =
      ap (λ v. v.outcome)
        (sym (checked_lem _ service.sink (event_of service stamp outcome context) event s e))

and_lem : (a b : Bool) → a && b ≡ true → (a ≡ true) × (b ≡ true)
and_lem true b h = (refl, h)
and_lem false b h = absurd (ground (arith, h))

or_lem : (a b : Bool) → a || b ≡ false → (a ≡ false) × (b ≡ false)
or_lem false b h = (refl, h)
or_lem true b h = absurd (ground (arith, h))

validated_lem :
    (validate : List ℕ → Option DemoLoginRequestDto) (read : Option (List ℕ))
    (dto : DemoLoginRequestDto)
    → validated validate read ≡ some dto
    → (body : List ℕ) × (read ≡ some body) × (validate body ≡ some dto)
validated_lem validate none dto e = absurd (ground (arith, e))
validated_lem validate (some body) dto e = (body, refl, e)

-- The body is not too long and holds a username and a password, both there and both with the digests
-- that the service keeps.
pub record IsAccepted {S : Type 0} (validate : List ℕ → Option DemoLoginRequestDto)
    (digest : String → String) (service : DemoAuthenticationService S) (chunks : List (List ℕ))
    : Type 0 where
  pub body : List ℕ
  pub was_read : read_body chunks [] ≡ some body
  pub not_too_long : length body ≤ max_login_body_bytes
  pub credentials : DemoLoginRequestDto
  pub was_valid : validate body ≡ some credentials
  pub username_there : is_missing credentials.username ≡ false
  pub password_there : is_missing credentials.password ≡ false
  pub username_matches : matches digest service.username_hash credentials.username ≡ true
  pub password_matches : matches digest service.password_hash credentials.password ≡ true

module _ {S : Type 0} (validate : List ℕ → Option DemoLoginRequestDto) (digest : String → String)
    (service : DemoAuthenticationService S) (stamp : Stamp) (chunks : List (List ℕ)) where
  -- The credentials of an authenticated event match.
  login_event-IsAccepted :
      (dto : DemoLoginRequestDto) (context : AuditContext) (s : S) (event : AuthenticationEvent)
      → validated validate (read_body chunks []) ≡ some dto
      → (login_event digest service stamp (some dto) context s).0 ≡ ok event
      → event.outcome ≡ authenticated
      → IsAccepted validate digest service chunks
  unfolding check_credentials
  login_event-IsAccepted dto context s event found recorded accepted =
      let (body, read, valid) = validated_lem validate (read_body chunks []) dto found in
      let outcome =
        record_event-outcome service stamp (outcome_of digest service dto.username dto.password)
          context s event recorded in
      let (there, matching) = outcome_if_lem _ _ (sym outcome ∙ accepted) in
      let (u, p) = or_lem (is_missing dto.username) (is_missing dto.password) there in
      let (mu, mp) =
        and_lem (matches digest service.username_hash dto.username)
          (matches digest service.password_hash dto.password) matching in
      record {
        body = body;
        was_read = read;
        not_too_long = read_body-length chunks [] body (omega arith) read;
        credentials = dto;
        was_valid = valid;
        username_there = u;
        password_there = p;
        username_matches = mu;
        password_matches = mp;
      }

  -- The route answers 200 only to a body of at most 16,384 bytes that is valid and holds a username
  -- and a password that are both not empty and have the digests that the service keeps, whatever the
  -- sink does.
  pub demo_login-IsAccepted :
      (context : Result AuditContext) (s : S) (response : LoginResponse)
      → (demo_login digest validate service stamp chunks context s).0 ≡ ok response
      → response.status_code ≡ 200
      → IsAccepted validate digest service chunks
  unfolding demo_login login_with
  demo_login-IsAccepted (err x) s response e h = absurd (ground (arith, e))
  demo_login-IsAccepted (ok context) s response e h =
      let payload = validated validate (read_body chunks []) in
      let (dto, event, found, recorded, accepted) =
        login_answer-accepted payload context (login_event digest service stamp payload context s).0
          response e h in
      login_event-IsAccepted dto context s event found
        (ap (λ p. (login_event digest service stamp p context s).0) (sym found) ∙ recorded) accepted
