-- ===== src/Authentication/Manager.antt =====
-- JwtAuthenticationManager and JWTValidationClient of
-- llm_agent/llm_agent/infrastructure/authentication.
pub mod Caches
use movie_reservation_agent.Prelude.{
  zero, String, Bool, true, false, ◌||◌, not, is_some, Option, none, some, List, [], ◌∷◌, ◌++◌,
  str_eq, if◌then◌else◌,
}
use movie_reservation_agent.Int.{ℤ, pos, lt}
use movie_reservation_agent.Exec.{
  Result, ok, err, Exec, type_error, attribute_error, key_error, permission_error, token_error,
  authentication_error, pure, raise, continue, ◌>>=◌, ◌>>◌,
}
use movie_reservation_agent.Value.{
  Value, null, bool, num, str, list, dict, Items, nil, cons, Fields, end, field,
}
use movie_reservation_agent.Demo.{truthy}
use movie_reservation_agent.Demo.Payload.{get, is_text}
use movie_reservation_agent.Authentication.{AuthenticatedUser, AsyncAuthenticationManager}
use movie_reservation_agent.Authentication.Tokens.{value_get}
use movie_reservation_agent.Authentication.Claims.{
  TextLibrary, truth, items, elements, item_at, parse_keycloak_claims,
}
use movie_reservation_agent.Authentication.Keys.{
  subscript, cached, with_entry, KeysByKid, load_key, build_key_loader,
}

-- The caches of `JWTValidationClient`, beside the state of the server.
pub record ValidationClient (S : Type 0) : Type 0 where
  pub metadata_cache : Fields
  pub jwks_cache : Fields
  pub server : S

-- What is used of libraries: `fetch` gets the JSON at a url, `get_well_known_url`, and `decode`,
-- which decodes and validates a token with a loader of keys and an issuer.
pub record JwtLibrary (S : Type 0) : Type 0 where
  pub fetch : String → Exec S Value
  pub get_well_known_url : String → String
  pub decode : String → (Option Value → Result Value) → Value → Result Fields

-- `OpenIdConfiguration`
pub record OpenIdConfiguration : Type 0 where
  pub realm_name : String
  pub openid_discovery_url : String

-- `StaticOpenIdConfigurationProvider`
abbrev pub static_provider : {S : Type 0} → String → String → Exec S OpenIdConfiguration
static_provider realm_name discovery_url =
    pure (record { realm_name = realm_name; openid_discovery_url = discovery_url })

-- `TokenValidationClient`
pub record TokenValidationClient (S : Type 0) : Type 0 where
  pub authenticate : String → List String → String → Exec S Fields

-- A url that the client gets: anything but a text is a `TypeError` there.
abbrev pub url_of : Result Value → Result String
url_of (ok (str url)) = ok url
url_of (ok _) = err type_error
url_of (err e) = err e

module _ (texts : TextLibrary) where
  module _ {S : Type 0} (lib : JwtLibrary S) where
    -- A call of the library, on the state of the server.
    abbrev pub fetch_json : String → Exec (ValidationClient S) Value
    fetch_json url client =
        let r = lib.fetch url client.server in (r.0, record client { server = r.1 })

    abbrev pub keep_metadata : String → Value → Exec (ValidationClient S) Value
    keep_metadata issuer metadata client = (
      ok metadata,
      record client { metadata_cache = with_entry issuer metadata client.metadata_cache },
    )

    abbrev pub metadata_or_fetch : Option Value → String → Exec (ValidationClient S) Value
    metadata_or_fetch (some metadata) issuer = pure metadata
    metadata_or_fetch none issuer =
        fetch_json (lib.get_well_known_url issuer) >>= keep_metadata issuer

    -- `_get_oidc_metadata`
    unfoldable pub get_oidc_metadata : String → Exec (ValidationClient S) Value
    get_oidc_metadata issuer client =
        metadata_or_fetch (cached issuer client.metadata_cache) issuer client

    abbrev pub keep_jwks : String → Value → Exec (ValidationClient S) Value
    keep_jwks jwks_uri jwks client =
        (ok jwks, record client { jwks_cache = with_entry jwks_uri jwks client.jwks_cache })

    abbrev pub jwks_or_fetch : Option Value → String → Exec (ValidationClient S) Value
    jwks_or_fetch (some jwks) jwks_uri = pure jwks
    jwks_or_fetch none jwks_uri = fetch_json jwks_uri >>= keep_jwks jwks_uri

    -- `_get_jwks`
    unfoldable pub get_jwks : String → Exec (ValidationClient S) Value
    get_jwks jwks_uri client = jwks_or_fetch (cached jwks_uri client.jwks_cache) jwks_uri client

    abbrev pub decoded : String → KeysByKid → Result Value → Result Fields
    decoded token keys_by_kid (err e) = err e
    decoded token keys_by_kid (ok issuer) = lib.decode token (load_key keys_by_kid) issuer

    abbrev pub decode_with : String → Result KeysByKid → Value → Result Fields
    decode_with token (err e) metadata = err e
    decode_with token (ok keys_by_kid) metadata =
        decoded token keys_by_kid (subscript "issuer" metadata)

    -- The `except` of `authenticate`.
    abbrev pub translate : Result Fields → Result Fields
    translate (err token_error) = err authentication_error
    translate r = r

    -- The `try` of `authenticate`.
    unfoldable pub validate_claims : String → Value → Value → Result Fields
    validate_claims token metadata jwks =
        translate (decode_with token (build_key_loader texts jwks) metadata)

    -- `JWTValidationClient.authenticate`, which does not look at the audience.
    unfoldable pub authenticate : String → List String → String → Exec (ValidationClient S) Fields
    authenticate token audience oidc_discovery_url =
        get_oidc_metadata oidc_discovery_url >>= λ metadata.
        (λ client. (url_of (subscript "jwks_uri" metadata), client)) >>= λ jwks_uri.
        get_jwks jwks_uri >>= λ jwks. λ client. (validate_claims token metadata jwks, client)

    -- `JWTValidationClient`
    abbrev pub jwt_validation_client : TokenValidationClient (ValidationClient S)
    jwt_validation_client = record { authenticate = authenticate }

  module _ {S : Type 0} where
    abbrev pub authenticated :
        TokenValidationClient S
        → Exec S OpenIdConfiguration
        → Option String
        → Exec S AuthenticatedUser
    authenticated client provider none = raise permission_error
    authenticated client provider (some token) = provider >>= λ oidc_config.
        client.authenticate token ("fill-in" ∷ []) oidc_config.openid_discovery_url >>= λ claims.
        λ s. (parse_keycloak_claims texts claims, s)

    -- `JwtAuthenticationManager`, with the client and the provider of the configuration
    unfoldable pub jwt_manager :
        TokenValidationClient S → Exec S OpenIdConfiguration → AsyncAuthenticationManager S
    jwt_manager client provider = record {
      authenticate_jwt_token = λ token. authenticated client provider (truthy token);
    }
