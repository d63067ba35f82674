-- ===== src/Demo/Payload/Overflow.antt =====
-- The only exception of `choose_seat`.
use movie_reservation_agent.Prelude.{
  String, ◌≡◌, sym, ◌∙◌, Option, none, some, List, [], ◌∷◌, Bool-cases, inl, inr, if◌then◌else◌,
}
use movie_reservation_agent.Exec.{Exn, ok, err, overflow_error, and_then, and_then-err}
use movie_reservation_agent.Int.{ℤ, lt}
use movie_reservation_agent.Value.{Value, Fields}
use movie_reservation_agent.Demo.Payload.{
  Texts, get, numeric_value, seat_number, max_seat, pick_seat, choose_seat,
}
use movie_reservation_agent.Demo.Payload.Seats.{
  is_infinite, numeric_value-infinite, numeric_value-ok,
}

numeric_value-err :
    (texts : Texts) (v : Value) {e : Exn} → numeric_value texts v ≡ err e → e ≡ overflow_error
numeric_value-err texts v {e} h = elim (Bool-cases (is_infinite v)) [
  | inl over ↦ cc (sym (numeric_value-infinite texts v over) ∙ h)
  | inr fine ↦ absurd (cc (sym (numeric_value-ok texts v fine) ∙ h))
]

max_seat-err :
    (texts : Texts) (best : Fields × ℤ) (seats : List Fields) {e : Exn}
    → max_seat texts best seats ≡ err e
    → e ≡ overflow_error
unfolding max_seat
max_seat-err texts best [] h = absurd (cc h)
max_seat-err texts best (seat ∷ seats) h = elim (and_then-err (seat_number texts seat) _ h) [
  | inl over ↦ numeric_value-err texts (get "number" seat) over
  | inr (n, _, later) ↦ max_seat-err texts (if lt best.1 n then (seat, n) else best) seats later
]

pick_seat-err :
    (texts : Texts) (preference : String) (seats : List Fields) {e : Exn}
    → pick_seat texts preference seats ≡ err e
    → e ≡ overflow_error
pick_seat-err texts preference [] h = absurd (cc h)
pick_seat-err texts preference (seat ∷ seats) {e} h =
    elim (Bool-cases (texts.is_in "aisle" (texts.casefold preference))) [
      | inr other ↦ absurd (cc (rw other at h))
      | inl aisle ↦
          let raised : and_then (seat_number texts seat)
                (λ n. and_then (max_seat texts (seat, n) seats) (λ best. ok (some best)))
              ≡ err e =
            rw aisle at h in
          elim (and_then-err (seat_number texts seat) _ raised) [
            | inl over ↦ numeric_value-err texts (get "number" seat) over
            | inr (n, _, later) ↦ elim (and_then-err (max_seat texts (seat, n) seats) _ later) [
              | inl over ↦ max_seat-err texts (seat, n) seats over
              | inr (best, _, never) ↦ absurd (cc never)
            ]
          ]
    ]

-- `choose_seat` raises OverflowError or nothing.
pub choose_seat-err :
    (texts : Texts) (screening : Option Fields) (preference : String) {e : Exn}
    → choose_seat texts screening preference ≡ err e
    → e ≡ overflow_error
unfolding choose_seat
-- `choose_seat` raises OverflowError or nothing.
choose_seat-err texts none preference h = absurd (cc h)
-- `choose_seat` raises OverflowError or nothing.
choose_seat-err texts (some screening) preference h = pick_seat-err texts preference _ h
