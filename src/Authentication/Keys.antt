-- ===== src/Authentication/Keys.antt =====
-- The loader of keys of JWTValidationClient, in
-- llm_agent/llm_agent/infrastructure/authentication/jwt_validator.py.
use movie_reservation_agent.Prelude.{
  ◌+◌, String, Bool, true, false, ◌||◌, not, is_some, Option, none, some, List, [], ◌∷◌, str_eq,
  if◌then◌else◌,
}
use movie_reservation_agent.Int.{mul_ℕ, ℤ, pos, lt}
use movie_reservation_agent.Exec.{Result, ok, err, type_error, authentication_error}
use movie_reservation_agent.Value.{
  Value, Real, finite, infinite, real, null, bool, num, str, list, dict, Items, nil, cons, Fields,
  end, field,
}
use movie_reservation_agent.Demo.Payload.{is_text}
use movie_reservation_agent.Authentication.Tokens.{value_get}
use movie_reservation_agent.Authentication.Claims.{TextLibrary, truth, elements, item_at}

-- `value[key]`, with a text as key
abbrev pub subscript : String → Value → Result Value
subscript key (dict fields) = item_at key fields
subscript key _ = err type_error

abbrev pub cached : String → Fields → Option Value
cached key end = none
cached key (field k v rest) = if str_eq k key then some v else cached key rest

-- `cache[key] = value`, of a key that is not there.
abbrev pub with_entry : String → Value → Fields → Fields
with_entry key value cache = field key value cache

-- Whether two values that may be keys of a dictionary are the same key, where `True` is 1.
abbrev pub number_of : Value → Option Real
number_of (num n) = some (finite n 0)
number_of (real r) = some r
number_of (bool true) = some (finite (pos 1) 0)
number_of (bool false) = some (finite (pos 0) 0)
number_of _ = none

abbrev same_integer : ℤ → ℤ → Bool
same_integer a b = not (lt a b || lt b a)

abbrev same_real : Real → Real → Bool
same_real (finite a d) (finite b e) = same_integer (mul_ℕ a (e + 1)) (mul_ℕ b (d + 1))
same_real (infinite true) (infinite true) = true
same_real (infinite false) (infinite false) = true
same_real _ _ = false

abbrev pub same_number : Option Real → Option Real → Bool
same_number (some a) (some b) = same_real a b
same_number _ _ = false

abbrev pub same_key : Value → Value → Bool
same_key (str a) (str b) = str_eq a b
same_key null null = true
same_key a b = same_number (number_of a) (number_of b)

abbrev pub is_hashable : Value → Bool
is_hashable (list _) = false
is_hashable (dict _) = false
is_hashable _ = true

abbrev pub any_text : String → Items → Bool
any_text key nil = false
any_text key (cons v rest) = is_text key v || any_text key rest

-- The keys by their ids, the last one first.
abbrev pub KeysByKid : Type 0
KeysByKid = List (Value × Value)

-- `keys_by_kid[kid] = key`
abbrev pub put_key : Value → Result Value → KeysByKid → Result KeysByKid
put_key key (err e) keys_by_kid = err e
put_key key (ok kid) keys_by_kid =
    if is_hashable kid then ok ((kid, key) ∷ keys_by_kid) else err type_error

abbrev pub find_key : Value → KeysByKid → Option Value
find_key kid [] = none
find_key kid ((k, key) ∷ rest) = if same_key k kid then some key else find_key kid rest

abbrev pub loaded : Option Value → Result Value
loaded none = err authentication_error
loaded (some key) = ok key

-- `load_key`, of the "kid" of a header
unfoldable pub load_key : KeysByKid → Option Value → Result Value
load_key keys_by_kid none = err authentication_error
load_key keys_by_kid (some kid) =
    if truth kid
    then if is_hashable kid then loaded (find_key kid keys_by_kid) else err type_error
    else err authentication_error

module _ (texts : TextLibrary) where
  -- `"kid" in key`
  abbrev pub has_kid : Value → Result Bool
  has_kid (dict fields) = ok (is_some (cached "kid" fields))
  has_kid (list vs) = ok (any_text "kid" vs)
  has_kid (str s) = ok (texts.has s "kid")
  has_kid _ = err type_error

  -- One key of the comprehension.
  abbrev pub add_key : Result Bool → Value → KeysByKid → Result KeysByKid
  add_key (err e) key keys_by_kid = err e
  add_key (ok false) key keys_by_kid = ok keys_by_kid
  add_key (ok true) key keys_by_kid = put_key key (subscript "kid" key) keys_by_kid

  unfoldable pub keys_loop : List Value → KeysByKid → Result KeysByKid
  keys_loop [] keys_by_kid = ok keys_by_kid
  keys_loop (key ∷ keys) keys_by_kid = elim (add_key (has_kid key) key keys_by_kid) [
    | err e ↦ err e
    | ok more ↦ keys_loop keys more
  ]

  abbrev pub jwks_keys : Result Value → Result (List Value)
  jwks_keys (err e) = err e
  jwks_keys (ok keys) = elements texts keys

  abbrev pub keys_of : Result (List Value) → Result KeysByKid
  keys_of (err e) = err e
  keys_of (ok keys) = keys_loop keys []

  -- `_build_key_loader`: the dictionary that `load_key` reads.
  unfoldable pub build_key_loader : Value → Result KeysByKid
  unfolding keys_loop
  build_key_loader jwks = keys_of (jwks_keys (value_get "keys" (list nil) jwks))
