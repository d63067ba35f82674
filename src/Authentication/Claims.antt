-- ===== src/Authentication/Claims.antt =====
-- parse_keycloak_claims of
-- llm_agent/llm_agent/infrastructure/authentication/keycloak_claims_parser.py.
use movie_reservation_agent.Prelude.{
  zero, ◌||◌, String, Bool, true, false, List, [], ◌∷◌, ◌++◌, str_eq, if◌then◌else◌,
}
use movie_reservation_agent.Int.{pos}
use movie_reservation_agent.Exec.{Result, ok, err, type_error, attribute_error, key_error}
use movie_reservation_agent.Value.{
  Value, finite, real, null, bool, num, str, list, dict, Items, nil, cons, Fields, end, field,
}
use movie_reservation_agent.Demo.Payload.{get, is_text}
use movie_reservation_agent.Authentication.{AuthenticatedUser}
use movie_reservation_agent.Authentication.Tokens.{value_get}

-- What is used of texts: `split()` at white space, the characters in order, and whether a text has
-- another one in it.
pub record TextLibrary : Type 0 where
  pub split : String → List String
  pub characters : String → List String
  pub has : String → String → Bool

-- Python's truth of a value.
abbrev pub truth : Value → Bool
truth null = false
truth (bool b) = b
truth (num (pos zero)) = false
truth (num _) = true
truth (real (finite (pos zero) _)) = false
truth (real _) = true
truth (str s) = if str_eq s "" then false else true
truth (list nil) = false
truth (list (cons _ _)) = true
truth (dict end) = false
truth (dict (field _ _ _)) = true

-- `a or b`
abbrev pub or_value : Value → Value → Value
or_value a b = if truth a then a else b

abbrev pub items : Items → List Value
items nil = []
items (cons v rest) = v ∷ items rest

abbrev pub texts : List String → List Value
texts [] = []
texts (s ∷ rest) = str s ∷ texts rest

abbrev pub key_texts : Fields → List Value
key_texts end = []
key_texts (field k v rest) = str k ∷ key_texts rest

-- `claims[key]`
abbrev pub item_at : String → Fields → Result Value
item_at key end = err key_error
item_at key (field k v rest) = if str_eq k key then ok v else item_at key rest

module _ (lib : TextLibrary) where
  -- What an iteration over a value gives.
  abbrev pub elements : Value → Result (List Value)
  elements (list vs) = ok (items vs)
  elements (dict fields) = ok (key_texts fields)
  elements (str s) = ok (texts (lib.characters s))
  elements _ = err type_error

  -- `if more := ...: roles.extend(more)`
  abbrev pub extended : List Value → Result Value → Result (List Value)
  extended roles (err e) = err e
  extended roles (ok more) =
      if truth more
      then (elim (elements more) [ err e ↦ err e | ok vs ↦ ok (roles ++ vs) ])
      else ok roles

  -- `for client_roles in resource_access.values(): ...`
  unfoldable pub client_roles_loop : List Value → Fields → Result (List Value)
  client_roles_loop roles end = ok roles
  client_roles_loop roles (field client client_roles rest) =
      elim (extended roles (value_get "roles" null client_roles)) [
        | err e ↦ err e
        | ok roles' ↦ client_roles_loop roles' rest
      ]

  abbrev pub resource_roles : Value → Result (List Value) → Result (List Value)
  resource_roles resource_access (err e) = err e
  resource_roles (dict clients) (ok roles) = client_roles_loop roles clients
  resource_roles resource_access (ok roles) =
      if truth resource_access then err attribute_error else ok roles

  abbrev pub realm_roles : Result Value → Result (List Value)
  realm_roles (err e) = err e
  realm_roles (ok realm_access) = extended [] (value_get "roles" null realm_access)

  -- `scope_str.split() if scope_str else []`
  abbrev pub scopes_of : Value → Result (List String)
  scopes_of (str s) = if str_eq s "" then ok [] else ok (lib.split s)
  scopes_of v = if truth v then err attribute_error else ok []

  -- `claims.get(key, default)`
  abbrev pub claim_or : String → Value → Fields → Result Value
  claim_or key default claims = value_get key default (dict claims)

  abbrev pub user_of :
      Fields → Value → Result (List Value) → Result (List String) → Result AuthenticatedUser
  user_of claims user_id (err e) scopes = err e
  user_of claims user_id (ok roles) (err e) = err e
  user_of claims user_id (ok roles) (ok scopes) = ok (record {
    user_id = user_id;
    username = or_value (or_value (get "preferred_username" claims) (get "name" claims)) user_id;
    email = get "email" claims;
    roles = roles;
    scopes = scopes;
  })

  abbrev pub scope_value : Result Value → Result (List String)
  scope_value (err e) = err e
  scope_value (ok v) = scopes_of v

  -- `parse_keycloak_claims`
  unfoldable pub parse_keycloak_claims : Fields → Result AuthenticatedUser
  unfolding client_roles_loop
  parse_keycloak_claims claims = elim (item_at "sub" claims) [
    | err e ↦ err e
    | ok user_id ↦
        user_of claims user_id
          (resource_roles (get "resource_access" claims)
            (realm_roles (claim_or "realm_access" (dict end) claims)))
          (scope_value (claim_or "scope" (str "") claims))
  ]

abbrev pub any_role : String → List Value → Bool
any_role role [] = false
any_role role (v ∷ roles) = is_text role v || any_role role roles

-- `AuthenticatedUser.has_role`
abbrev pub has_role : AuthenticatedUser → String → Bool
has_role self role = any_role role self.roles

abbrev pub any_scope : String → List String → Bool
any_scope scope [] = false
any_scope scope (s ∷ scopes) = str_eq s scope || any_scope scope scopes

-- `AuthenticatedUser.has_scope`
abbrev pub has_scope : AuthenticatedUser → String → Bool
has_scope self scope = any_scope scope self.scopes
