-- ===== src/Authentication/Tokens.antt =====
-- The extractors of llm_agent/llm_agent/infrastructure/execution_context/token_extractors.py.
use movie_reservation_agent.Prelude.{String, Bool, false, Option, none, some, str_eq, if◌then◌else◌}
use movie_reservation_agent.Exec.{
  Result, ok, err, attribute_error, invalid_header, invalid_websocket_auth,
}
use movie_reservation_agent.Value.{Value, null, str, dict, Fields, end, field}
use movie_reservation_agent.Demo.{truthy}
use movie_reservation_agent.Demo.Payload.{is_text}
use movie_reservation_agent.Authentication.{Scope, Message}

-- What the extractors use of libraries: `get_authorization_scheme_param`, which may raise on a value
-- that is not a text, `lower`, and `json.loads`, which has no result on a `JSONDecodeError`.
pub record TokenLibrary : Type 0 where
  pub get_authorization_scheme_param : Value → Result (String × String)
  pub lower : String → String
  pub json_loads : String → Option Value

-- `mapping.get(key, default)`
abbrev pub get_or : String → Value → Fields → Value
get_or key default end = default
get_or key default (field k v rest) = if str_eq k key then v else get_or key default rest

-- `value.get(key, default)`
abbrev pub value_get : String → Value → Value → Result Value
value_get key default (dict fields) = ok (get_or key default fields)
value_get key default _ = err attribute_error

module _ (lib : TokenLibrary) where
  abbrev is_bearer : String → Bool
  is_bearer scheme = str_eq (lib.lower scheme) "bearer"

  -- The token of an Authorization header that has been split.
  abbrev http_token : Result (String × String) → Result String
  http_token (err e) = err e
  http_token (ok (scheme, token)) =
      if str_eq scheme ""
      then err invalid_header
      else if is_bearer scheme
      then ok token
      else err invalid_header

  abbrev header_token : Option String → Result String
  header_token none = err invalid_header
  header_token (some auth_header) =
      http_token (lib.get_authorization_scheme_param (str auth_header))

  -- `HttpTokenExtractor.extract`
  unfoldable pub extract : Scope → Result String
  extract scope = header_token (truthy (scope.headers "Authorization"))

  abbrev suppress_header : Result String → Result (Option String)
  suppress_header (ok token) = ok (some token)
  suppress_header (err invalid_header) = ok none
  suppress_header (err e) = err e

  -- `HttpTokenExtractor.extract_safe`
  unfoldable pub extract_safe : Scope → Result (Option String)
  unfolding extract
  extract_safe scope = suppress_header (extract scope)

  abbrev websocket_token : Result (String × String) → Result (Option String)
  websocket_token (err e) = err e
  websocket_token (ok (scheme, token)) =
      if is_bearer scheme then ok (some token) else err invalid_websocket_auth

  abbrev authorization_token : Result Value → Result (Option String)
  authorization_token (err e) = err e
  authorization_token (ok authorization_data) =
      websocket_token (lib.get_authorization_scheme_param authorization_data)

  abbrev payload_token : Result Value → Result (Option String)
  payload_token (err e) = err e
  payload_token (ok payload) = authorization_token (value_get "authorization" null payload)

  -- The token of a JSON value that a client has sent.
  abbrev data_token : Value → Result (Option String)
  data_token parsed_data = elim (value_get "type" null parsed_data) [
    | err e ↦ err e
    | ok type ↦
        if is_text "connection_init" type
        then payload_token (value_get "payload" (dict end) parsed_data)
        else ok none
  ]

  abbrev parsed_token : Option Value → Result (Option String)
  parsed_token none = ok none
  parsed_token (some parsed_data) = data_token parsed_data

  abbrev raw_token : Option String → Result (Option String)
  raw_token none = ok none
  raw_token (some raw_text) = parsed_token (lib.json_loads raw_text)

  abbrev is_receive : Option String → Bool
  is_receive none = false
  is_receive (some type) = str_eq type "websocket.receive"

  -- `WebSocketTokenExtractor.extract_from_message`
  unfoldable pub extract_from_message : Message → Result (Option String)
  extract_from_message message =
      if is_receive message.message_type then raw_token (truthy message.text) else ok none

  abbrev suppress_websocket : Result (Option String) → Result (Option String)
  suppress_websocket (ok token) = ok token
  suppress_websocket (err invalid_websocket_auth) = ok none
  suppress_websocket (err e) = err e

  -- `WebSocketTokenExtractor.extract_safe`
  unfoldable pub extract_message_safe : Message → Result (Option String)
  unfolding extract_from_message
  extract_message_safe message = suppress_websocket (extract_from_message message)
