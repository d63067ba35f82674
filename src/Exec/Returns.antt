-- ===== src/Exec/Returns.antt =====
-- Methods that return, from every state, with a value that satisfies a predicate: one rule for each
-- way to build a method.
use movie_reservation_agent.Prelude.{◌≡◌, refl}
use movie_reservation_agent.Exec.{Result, ok, Exec, pure, continue, ◌>>=◌}

-- From `s` the method returns a value that satisfies `P`.
abbrev pub IsReturn {ℓ} : {A : Type ℓ} → (A → Type ℓ) → Result A → Type ℓ
IsReturn {A} P r = (a : A) × (r ≡ ok a) × P a

pub record Returns {ℓ} {S A : Type ℓ} (P : A → Type ℓ) (m : Exec S A) : Type ℓ where
  pub at : (s : S) → IsReturn P (m s).0

module _ {ℓ} {S A B : Type ℓ} {P : A → Type ℓ} {Q : B → Type ℓ} where
  pub Returns-continue :
      (r : Result A) (f : A → Exec S B) (s : S)
      → IsReturn P r
      → ((a : A) → P a → Returns Q (f a))
      → IsReturn Q (continue r f s).0
  Returns-continue r f s (a, e, p) k = rw e ((k a p).at s)

  pub Returns-bind :
      (m : Exec S A) (f : A → Exec S B)
      → Returns P m
      → ((a : A) → P a → Returns Q (f a))
      → Returns Q (m >>= f)
  Returns-bind m f h k = record { at = λ s. Returns-continue (m s).0 f (m s).1 (h.at s) k }

module _ {ℓ} {S A : Type ℓ} {P : A → Type ℓ} where
  pub Returns-pure : (a : A) → P a → Returns {S = S} P (pure a)
  Returns-pure a p = record { at = λ s. (a, refl, p) }

  pub Returns-weaken :
      {Q : A → Type ℓ} (m : Exec S A) → Returns P m → ((a : A) → P a → Q a) → Returns Q m
  Returns-weaken m h k = record { at = λ s. let (a, e, p) = h.at s in (a, e, k a p) }
