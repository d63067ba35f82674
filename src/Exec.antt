-- ===== src/Exec.antt =====
-- A method that mutates state and may raise. What was written before a raise stays written, so
-- the state comes back beside the exception too.
pub mod Steps
pub mod Returns
use movie_reservation_agent.Prelude.{
  Bool, if◌then◌else◌, Option, none, some, ◌≡◌, refl, ◌⊎◌, inl, inr,
}

-- The exceptions of the modelled code. `stream_missing` is the `ValueError` of the event log,
-- `unknown_status` and `invalid_transition` are those of the transition policy; `type_error` is
-- `None + 1`, `attribute_error` is a method call on `None`, and `executor_error` is what an executor
-- of runs raises; `invalid_header` to `authentication_error` are those of authentication, where
-- `token_error` is any of the four errors of a token that the JWT library has; the others are
-- Python's own.
pub data Exn : Type 0 where
  run_not_found lease_lost key_error : Exn
  stream_missing unknown_status invalid_transition : Exn
  type_error attribute_error : Exn
  executor_error : Exn
  value_error zero_division index_error overflow_error os_error permission_error : Exn
  invalid_header invalid_websocket_auth token_error authentication_error : Exn

pub data Result {ℓ} (A : Type ℓ) : Type ℓ where
  ok : A → Result A
  err : Exn → Result A

abbrev pub Exec {ℓ κ} : Type ℓ → Type κ → Type (ℓ ⊔ κ)
Exec S A = S → Result A × S

module _ {ℓ κ} {S : Type ℓ} {A : Type κ} where
  abbrev pub pure : A → Exec S A
  pure a s = (ok a, s)

  abbrev pub raise : Exn → Exec S A
  raise e s = (err e, s)

module _ {ℓ} {S : Type ℓ} where
  abbrev pub modify : (S → S) → Exec S (Unit {0})
  modify f s = (ok tt, f s)

-- What follows a function that may raise, on its result.
abbrev pub and_then {ℓ κ} : {A : Type ℓ} {B : Type κ} → Result A → (A → Result B) → Result B
and_then (ok a) f = f a
and_then (err e) f = err e

module _ {ℓ κ μ} {S : Type ℓ} {A : Type κ} {B : Type μ} where
  -- What follows a call, on its result.
  abbrev pub continue : Result A → (A → Exec S B) → Exec S B
  continue (ok a) f s = f a s
  continue (err e) f s = (err e, s)

  infixl 5 ◌>>=◌ ◌>>◌
  abbrev pub ◌>>=◌ : Exec S A → (A → Exec S B) → Exec S B
  ◌>>=◌ m f s = let r = m s in continue r.0 f r.1

  -- A call whose result is dropped.
  abbrev pub ◌>>◌ : Exec S A → Exec S B → Exec S B
  m >> k = m >>= λ _. k

pub Result-cases {ℓ} :
    {A : Type ℓ} (r : Result A) → ((a : A) × (r ≡ ok a)) ⊎ ((e : Exn) × (r ≡ err e))
Result-cases (ok a) = inl (a, refl)
Result-cases (err e) = inr (e, refl)

-- Which of the two has raised.
pub and_then-err {ℓ κ} :
    {A : Type ℓ} {B : Type κ} (r : Result A) (f : A → Result B) {e : Exn}
    → and_then r f ≡ err e
    → (r ≡ err e) ⊎ ((a : A) × (r ≡ ok a) × (f a ≡ err e))
and_then-err (ok a) f h = inr (a, refl, h)
and_then-err (err x) f h = inl (cc h)
