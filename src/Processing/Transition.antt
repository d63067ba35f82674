-- ===== src/Processing/Transition.antt =====
-- `_transition_locked`: what it does on each branch, and that it keeps the storage sound.
use movie_reservation_agent.Prelude.{
  ◌≡◌, refl, Bool, true, false, ◌&&◌, Option, none, some, arith, is_some, Bool-cases, Option-cases,
  inl, inr,
}
use movie_reservation_agent.Exec.{err, key_error, invalid_transition}
use movie_reservation_agent.Exec.Steps.{Steps}
use movie_reservation_agent.Dict.{Uuid, lookup}
use movie_reservation_agent.Contracts.{
  RunStatusCode, RunStatus, created, running, succeeded, failed,
}
use movie_reservation_agent.Transitions.{Requested, unset, value, TransitionRequestParams}
use movie_reservation_agent.Transitions.Diagram.{
  allowed, allowed-⟶, no_edge_from_terminal, validate_lem, here, next,
}
use movie_reservation_agent.Runtime.{Runtime, select, put_run}
use movie_reservation_agent.Runtime.Evolution.{
  IsConsistent, Evolves, IsSound, IsSound-preorder, put_run-IsSound,
}
use movie_reservation_agent.Processing.{given_request, transitioned, transition_locked}

module _ (k : Uuid) (target : RunStatusCode) (request : Option TransitionRequestParams)
    (s : Runtime) where
  -- No such run: `KeyError`, and nothing is written.
  pub transition_locked_missing :
      lookup k s.runs ≡ none → transition_locked k target request s ≡ (err key_error, s)
  unfolding transition_locked
  transition_locked_missing absent = rw (absent, select)

  -- The diagram has no such edge: the policy's `ValueError`, and nothing is written.
  pub transition_locked_refused :
      (st : RunStatus)
      → lookup k s.runs ≡ some st
      → allowed st.status target ≡ false
      → transition_locked k target request s ≡ (err invalid_transition, s)
  unfolding transition_locked
  transition_locked_refused st there no_edge = rw (there, select) (rw (validate_lem, no_edge))

  -- Otherwise the run is overwritten, and that is all.
  pub transition_locked-allowed :
      (st : RunStatus)
      → lookup k s.runs ≡ some st
      → allowed st.status target ≡ true
      → transition_locked k target request s
        ≡ put_run k (transitioned st target (given_request request)) s
  unfolding transition_locked
  transition_locked-allowed st there edge = rw (there, select) (rw (validate_lem, edge))

transitioned-Evolves :
    (st : RunStatus) (target : RunStatusCode) (request : TransitionRequestParams)
    → allowed st.status target ≡ true
    → Evolves st (transitioned st target request)
transitioned-Evolves st target request edge = record {
  same_id = refl;
  path = next here (allowed-⟶ st.status target edge);
  frozen = λ h. absurd (ground (arith, h, no_edge_from_terminal (allowed-⟶ st.status target edge)));
}

abbrev gives : {A : Type 0} → Requested A → Bool
gives unset = false
gives (value o) = is_some o

abbrev not_none : {A : Type 0} → Requested A → Bool
not_none unset = true
not_none (value o) = is_some o

abbrev gives_for : RunStatusCode → TransitionRequestParams → Bool
gives_for running r = gives r.worker_id && gives r.expiration_unix_ts
gives_for succeeded r = gives r.result
gives_for failed r = gives r.error
gives_for _ r = true

-- The request gives what the target status needs.
abbrev pub fits : RunStatusCode → TransitionRequestParams → Bool
fits target r = gives_for target r && not_none r.retry_count

transitioned-IsConsistent :
    (st : RunStatus) (target : RunStatusCode) (request : TransitionRequestParams)
    → fits target request ≡ true
    → IsConsistent st
    → IsConsistent (transitioned st target request)
transitioned-IsConsistent st created request fit c = ground arith
transitioned-IsConsistent st _ request fit c = ground arith

-- With a fitting request, whether it raises or not.
pub transition_locked-IsSound :
    (k : Uuid) (target : RunStatusCode) (request : Option TransitionRequestParams)
    → fits target (given_request request) ≡ true
    → Steps IsSound (transition_locked k target request)
transition_locked-IsSound k target request fit = record { at = at }
  where
    overwritten :
        (s : Runtime) (st : RunStatus)
        → lookup k s.runs ≡ some st
        → allowed st.status target ≡ true
        → IsSound s (transition_locked k target request s).1
    overwritten s st there edge = rw (transition_locked-allowed k target request s st there edge) (
        put_run-IsSound k st (transitioned st target (given_request request)) s there
          (transitioned-Evolves st target (given_request request) edge)
          (transitioned-IsConsistent st target (given_request request) fit))

    at : (s : Runtime) → IsSound s (transition_locked k target request s).1
    at s = elim (Option-cases (lookup k s.runs)) [
      | inl absent ↦
          rw (transition_locked_missing k target request s absent) (IsSound-preorder.refl_at s)
      | inr (st, there) ↦ elim (Bool-cases (allowed st.status target)) [
        | inl edge ↦ overwritten s st there edge
        | inr no_edge ↦
            rw (transition_locked_refused k target request s st there no_edge)
              (IsSound-preorder.refl_at s)
      ]
    ]
