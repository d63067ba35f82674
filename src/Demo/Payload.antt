-- ===== src/Demo/Payload.antt =====
-- The functions at the end of llm_agent/llm_agent/services/demo/reservation.py, which read the
-- payloads of the tools.
pub mod Seats
pub mod Overflow
use Prim.Native.String.{◌++◌ as str_append}
use movie_reservation_agent.Prelude.{
  ◌+◌, String, Bool, true, false, ◌||◌, not, Option, none, some, List, [], ◌∷◌, str_eq,
  if◌then◌else◌, or_else,
}
use movie_reservation_agent.Int.{ℤ, pos, lt, div_ℕ}
use movie_reservation_agent.Exec.{Result, ok, err, and_then, overflow_error}
use movie_reservation_agent.Value.{
  Value, finite, infinite, real, null, bool, num, str, list, dict, Items, nil, cons, Fields, end,
  field,
}

-- What Python does to texts by tables of its own: `casefold`, `needle in text`, `int(text)`, which
-- may raise, and `str` of a number.
pub record Texts : Type 0 where
  pub casefold : String → String
  pub is_in : String → String → Bool
  pub int : String → Option ℤ
  pub str_of : ℤ → String

-- `mapping.get(key)`
abbrev pub get : String → Fields → Value
get key end = null
get key (field k v rest) = if str_eq k key then v else get key rest

-- The first mapping of a list that passes a test.
abbrev pub next_mapping : (Fields → Bool) → Items → Option Fields
next_mapping test nil = none
next_mapping test (cons (dict f) rest) = if test f then some f else next_mapping test rest
next_mapping test (cons _ rest) = next_mapping test rest

-- `first_mapping`
abbrev pub first_mapping : Value → Option Fields
first_mapping (list items) = next_mapping (λ f. true) items
first_mapping _ = none

-- `value == expected`, of a text
abbrev pub is_text : String → Value → Bool
is_text expected (str s) = str_eq s expected
is_text expected _ = false

-- `find_mapping`
abbrev pub find_mapping : Value → String → String → Option Fields
find_mapping (list items) key expected = next_mapping (λ f. is_text expected (get key f)) items
find_mapping _ key expected = none

abbrev pub as_mapping : Value → Option Fields
as_mapping (dict f) = some f
as_mapping _ = none

-- `optional_mapping_value`, on a mapping
abbrev pub optional_mapping_value : Fields → String → Option Fields
optional_mapping_value value key = as_mapping (get key value)

abbrev pub or_empty : Option Fields → Fields
or_empty none = end
or_empty (some f) = f

-- `mapping_value`, on a mapping
abbrev pub mapping_value : Fields → String → Fields
mapping_value value key = or_empty (optional_mapping_value value key)

-- `isinstance(value, list) and value`
abbrev pub is_nonempty_list : Value → Bool
is_nonempty_list (list (cons _ _)) = true
is_nonempty_list _ = false

-- `first_screening_with_seats`
abbrev pub first_screening_with_seats : Value → String → Option Fields
first_screening_with_seats (list items) movie_id =
    next_mapping
      (λ f. if is_text movie_id (get "movieId" f) then is_nonempty_list (get "seats" f) else false)
      items
first_screening_with_seats _ movie_id = none

abbrev pub or_zero : Option ℤ → ℤ
or_zero none = pos 0
or_zero (some n) = n

-- `numeric_value`
abbrev pub numeric_value : Texts → Value → Result ℤ
numeric_value texts (num n) = ok n
numeric_value texts (real (finite n d)) = ok (div_ℕ n (d + 1))
numeric_value texts (real (infinite _)) = err overflow_error
numeric_value texts (bool true) = ok (pos 1)
numeric_value texts (str s) = ok (or_zero (texts.int s))
numeric_value texts _ = ok (pos 0)

-- The mappings of a list.
abbrev pub mappings : Items → List Fields
mappings nil = []
mappings (cons (dict f) rest) = f ∷ mappings rest
mappings (cons _ rest) = mappings rest

-- `[seat for seat in screening.get("seats", []) if isinstance(seat, dict)]`, of a list
abbrev pub seats_of : Value → List Fields
seats_of (list items) = mappings items
seats_of _ = []

abbrev pub seat_number : Texts → Fields → Result ℤ
seat_number texts seat = numeric_value texts (get "number" seat)

-- `max(seats, key=...)`: the first of the largest; `best` is the largest so far, with its number.
unfoldable pub max_seat : Texts → Fields × ℤ → List Fields → Result Fields
max_seat texts best [] = ok best.0
max_seat texts best (seat ∷ seats) =
    and_then (seat_number texts seat)
      (λ n. max_seat texts (if lt best.1 n then (seat, n) else best) seats)

abbrev pub pick_seat : Texts → String → List Fields → Result (Option Fields)
pick_seat texts preference [] = ok none
pick_seat texts preference (seat ∷ seats) =
    if texts.is_in "aisle" (texts.casefold preference)
    then and_then (seat_number texts seat)
        (λ n. and_then (max_seat texts (seat, n) seats) (λ best. ok (some best)))
    else ok (some seat)

-- `choose_seat`
unfoldable pub choose_seat : Texts → Option Fields → String → Result (Option Fields)
choose_seat texts none preference = ok none
choose_seat texts (some screening) preference =
    pick_seat texts preference (seats_of (get "seats" screening))

abbrev pub nonempty_text : Value → Option String
nonempty_text (str s) = if str_eq s "" then none else some s
nonempty_text _ = none

-- `string_value`
abbrev pub string_value : Option Fields → String → Option String
string_value none key = none
string_value (some value) key = nonempty_text (get key value)

abbrev pub casefolded : Texts → Option String → Option String
casefolded texts none = none
casefolded texts (some status) = some (texts.casefold status)

-- `normalized_status`
abbrev pub normalized_status : Texts → Fields → Option String
normalized_status texts value = casefolded texts (string_value (some value) "status")

abbrev pub or_default : Option String → String → String
or_default none d = d
or_default (some s) d = s

-- `display_movie`
abbrev pub display_movie : Fields → String
display_movie movie = or_default (string_value (some movie) "title") "the recommended movie"

-- `f"{number}"`, of a text or an `int`; a `bool` is one.
abbrev pub number_text : Texts → Value → Option String
number_text texts (str s) = some s
number_text texts (num n) = some (texts.str_of n)
number_text texts (bool true) = some "True"
number_text texts (bool false) = some "False"
number_text texts _ = none

abbrev pub row_text : Value → Option String → Option String
row_text (str row) (some number) = some (str_append row number)
row_text _ _ = none

-- `display_seat`
abbrev pub display_seat : Texts → Fields → String
display_seat texts seat =
    or_default (row_text (get "row" seat) (number_text texts (get "number" seat)))
      (or_default (string_value (some seat) "id") "the selected seat")
