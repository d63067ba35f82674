-- ===== src/Runtime/Others.antt =====
-- Methods that touch one run: every other run is left as it was.
use movie_reservation_agent.Prelude.{
  String, ◌≡◌, ◌≢◌, refl, ◌∙◌, Bool, true, false, arith, Option-cases, inl, inr, if◌then◌else◌,
}
use movie_reservation_agent.Exec.{Exn, Exec, pure, raise, ◌>>=◌, ◌>>◌, Result-cases}
use movie_reservation_agent.Exec.Steps.{
  Preorder, Steps, Steps-bind, Steps-pure, Steps-raise, Steps-if,
}
use movie_reservation_agent.Dict.{Uuid, lookup, lookup-insert_ne}
use movie_reservation_agent.Contracts.{Payload, RunStatus, RunStatusCode}
use movie_reservation_agent.Transitions.{validate, default_policy}
use movie_reservation_agent.Transitions.Diagram.{validate_lem}
use movie_reservation_agent.Runtime.{Runtime, select, if_found, read_clock, put_run, append_event}

-- A method that looks a run up keeps a preorder that both branches keep.
pub Steps-if_found :
    {A : Type 0} {R : Runtime → Runtime → Type 0} (k : Uuid) (missing : Exec Runtime A)
    (found : RunStatus → Exec Runtime A)
    → Steps R missing
    → ((st : RunStatus) → Steps R (found st))
    → Steps R (if_found k missing found)
Steps-if_found k missing found hm hf = record {
  at = λ s. elim (Option-cases (lookup k s.runs)) [
    | inl absent ↦ rw (absent, select) (hm.at s)
    | inr (st, there) ↦ rw (there, select) ((hf st).at s)
  ];
}

-- The policy changes no state.
pub Steps-validate :
    {R : Runtime → Runtime → Type 0} (o : Preorder R) (st : RunStatus) (target : RunStatusCode)
    → Steps R (validate default_policy st target)
Steps-validate o st target = record { at = λ s. rw validate_lem (o.refl_at s) }

module _ (k : Uuid) where
  -- Every run but `k` is the same in both states.
  pub record Others (a b : Runtime) : Type 0 where
    pub same : (j : Uuid) → k ≢ j → lookup j b.runs ≡ lookup j a.runs

  pub Others-preorder : Preorder Others
  Others-preorder = record {
    refl_at = λ a. record { same = λ j ne. refl };
    trans_at = λ a b c p q. record { same = λ j ne. q.same j ne ∙ p.same j ne };
  }

  pub read_clock-Others : Steps Others read_clock
  unfolding read_clock
  read_clock-Others = record { at = λ s. record { same = λ j ne. refl } }

  pub append_event-Others :
      (i : Uuid) (ty : String) (p : Payload) → Steps Others (append_event i ty p)
  unfolding append_event
  append_event-Others i ty p = record { at = λ s. record { same = λ j ne. refl } }

  pub put_run-Others : (st : RunStatus) → Steps Others (put_run k st)
  unfolding put_run
  put_run-Others st = record {
    at = λ s. record { same = λ j ne. lookup-insert_ne k j st s.runs ne };
  }

  pub validate-Others :
      (st : RunStatus) (target : RunStatusCode) → Steps Others (validate default_policy st target)
  validate-Others = Steps-validate Others-preorder

  pub pure-Others : {A : Type 0} (a : A) → Steps Others (pure a)
  pure-Others = Steps-pure Others-preorder

  pub raise-Others : {A : Type 0} (e : Exn) → Steps Others (raise {A = A} e)
  raise-Others = Steps-raise Others-preorder

  pub if-Others :
      {A : Type 0} (b : Bool) (m n : Exec Runtime A)
      → (b ≡ true → Steps Others m)
      → (b ≡ false → Steps Others n)
      → Steps Others (if b then m else n)
  if-Others = Steps-if Others-preorder

  pub bind-Others :
      {A B : Type 0} (m : Exec Runtime A) (f : A → Exec Runtime B)
      → Steps Others m
      → ((a : A) → Steps Others (f a))
      → Steps Others (m >>= f)
  bind-Others = Steps-bind Others-preorder

pub ruleset other_rules = (
  Steps-if_found, read_clock-Others, append_event-Others, put_run-Others, validate-Others,
  pure-Others, raise-Others, if-Others, bind-Others,
)

-- A note in a stream, with what is returned after it, writes no run.
pub runs-note :
    {A : Type 0} (k : Uuid) (ty : String) (p : Payload) (a : A) (s : Runtime)
    → ((append_event k ty p >> pure a) s).1.runs ≡ s.runs
unfolding append_event
runs-note k ty p a s = elim (Result-cases (append_event k ty p s).0) [
  | inl (_, went) ↦ ground (arith, went)
  | inr (_, raised) ↦ ground (arith, raised)
]
