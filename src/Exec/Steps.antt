-- ===== src/Exec/Steps.antt =====
-- Relations between the state before and after a method, whether it returns or raises: one rule
-- for each way to build a method.
use movie_reservation_agent.Prelude.{Bool, true, false, ◌≡◌, refl, if◌then◌else◌}
use movie_reservation_agent.Exec.{Exn, Result, ok, err, Exec, pure, raise, continue, ◌>>=◌}

-- A reflexive and transitive relation.
pub record Preorder {ℓ} {S : Type ℓ} (R : S → S → Type ℓ) : Type ℓ where
  pub refl_at : (s : S) → R s s
  pub trans_at : (s t u : S) → R s t → R t u → R s u

-- `m` takes every state to a related one.
pub record Steps {ℓ} {S A : Type ℓ} (R : S → S → Type ℓ) (m : Exec S A) : Type ℓ where
  pub at : (s : S) → R s (m s).1

module _ {ℓ} {S A B : Type ℓ} {R : S → S → Type ℓ} (o : Preorder R) where
  Steps-continue :
      (r : Result A) (f : A → Exec S B) (s t : S)
      → R s t
      → ((a : A) → Steps R (f a))
      → R s (continue r f t).1
  Steps-continue (ok a) f s t h hf = o.trans_at s t (f a t).1 h ((hf a).at t)
  Steps-continue (err e) f s t h hf = h

  pub Steps-bind :
      (m : Exec S A) (f : A → Exec S B) → Steps R m → ((a : A) → Steps R (f a)) → Steps R (m >>= f)
  Steps-bind m f hm hf = record { at = λ s. Steps-continue (m s).0 f s (m s).1 (hm.at s) hf }

module _ {ℓ} {S A : Type ℓ} {R : S → S → Type ℓ} (o : Preorder R) where
  pub Steps-pure : (a : A) → Steps R (pure a)
  Steps-pure a = record { at = o.refl_at }

  pub Steps-raise : (e : Exn) → Steps R (raise {A = A} e)
  Steps-raise e = record { at = o.refl_at }

  pub Steps-if :
      (b : Bool) (m n : Exec S A)
      → (b ≡ true → Steps R m)
      → (b ≡ false → Steps R n)
      → Steps R (if b then m else n)
  Steps-if true m n hm hn = hm refl
  Steps-if false m n hm hn = hn refl
