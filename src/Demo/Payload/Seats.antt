-- ===== src/Demo/Payload/Seats.antt =====
-- Which seat `choose_seat` takes.
use movie_reservation_agent.Prelude.{
  ◌≡◌, refl, true, false, List, [], ◌∷◌, arith, All, if◌then◌else◌, Bool, ◌||◌,
}
use movie_reservation_agent.Int.{ℤ, pos, lt}
use movie_reservation_agent.Value.{
  Fields, Value, null, bool, num, str, list, dict, real, finite, infinite, nan,
}
use movie_reservation_agent.Exec.{Result, ok, err, overflow_error}
use movie_reservation_agent.Demo.Payload.{Texts, get, numeric_value, seat_number}

-- A number that Python cannot turn into an `int`.
abbrev pub is_infinite : Value → Bool
is_infinite (real (infinite _)) = true
is_infinite _ = false

abbrev pub any_infinite : List Fields → Bool
any_infinite [] = false
any_infinite (seat ∷ seats) = is_infinite (get "number" seat) || any_infinite seats

abbrev pub or_zero_number : Result ℤ → ℤ
or_zero_number (ok n) = n
or_zero_number (err e) = pos 0

-- The number of a seat, where it is one.
abbrev pub number : Texts → Fields → ℤ
number texts seat = or_zero_number (seat_number texts seat)

pub numeric_value-infinite :
    (texts : Texts) (v : Value) → is_infinite v ≡ true → numeric_value texts v ≡ err overflow_error
numeric_value-infinite texts (real (infinite b)) h = refl
numeric_value-infinite texts _ h = absurd (ground (arith, h))

pub numeric_value-ok :
    (texts : Texts) (v : Value)
    → is_infinite v ≡ false
    → numeric_value texts v ≡ ok (or_zero_number (numeric_value texts v))
numeric_value-ok texts (real (finite n d)) h = refl
numeric_value-ok texts (real (infinite b)) h = absurd (ground (arith, h))
numeric_value-ok texts (real nan) h = refl
numeric_value-ok texts (num n) h = refl
numeric_value-ok texts (bool true) h = refl
numeric_value-ok texts (bool false) h = refl
numeric_value-ok texts (str s) h = refl
numeric_value-ok texts null h = refl
numeric_value-ok texts (list l) h = refl
numeric_value-ok texts (dict f) h = refl

-- The first of the largest, by numbers that are there.
largest : Texts → Fields → List Fields → Fields
largest texts best [] = best
largest texts best (seat ∷ seats) =
    largest texts (if lt (number texts best) (number texts seat) then seat else best) seats

-- `seat` is the first seat of the list with the largest number: those before it have a smaller
-- number, and those after it do not have a larger one.
pub data IsFirstMax (texts : Texts) (seat : Fields) : List Fields → Type 0 where
  first :
      {rest : List Fields}
      → All (λ x. lt (number texts seat) (number texts x) ≡ false) rest
      → IsFirstMax texts seat (seat ∷ rest)
  later :
      {x : Fields} {rest : List Fields}
      → lt (number texts x) (number texts seat) ≡ true
      → IsFirstMax texts seat rest
      → IsFirstMax texts seat (x ∷ rest)
