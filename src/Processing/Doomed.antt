-- ===== src/Processing/Doomed.antt =====
-- An ENQUEUED run whose cancellation is requested: `claim_run` does nothing with it but cancel it.
use movie_reservation_agent.Prelude.{
  String, ◌≡◌, Bool, true, false, Option, none, some, List, [], ◌∷◌, arith, Bool-cases,
  Option-cases, inl, inr, ◌==◌,
}
use movie_reservation_agent.Exec.Steps.{Preorder, Steps, Steps-bind, Steps-pure}
use movie_reservation_agent.Dict.{Uuid, lookup, lookup-insert_self}
use movie_reservation_agent.Contracts.{
  RunStatus, RunStatusCode, enqueued, cancelled, is_enqueued, is_running,
}
use movie_reservation_agent.Transitions.{no_changes}
use movie_reservation_agent.Transitions.Diagram.{allowed}
use movie_reservation_agent.Runtime.{Runtime, put_run}
use movie_reservation_agent.Runtime.Others.{runs-note}
use movie_reservation_agent.Processing.{
  set_cancelled_locked, expire_found, expire_run, expire_loop, claim_found, try_claim, claim_loop,
}
use movie_reservation_agent.Processing.Transition.{transition_locked-allowed}
use movie_reservation_agent.Processing.Isolation.{expire_run-Others, try_claim-Others}

abbrev is_doomed_at : RunStatusCode → Bool → Bool
is_doomed_at enqueued requested = requested
is_doomed_at cancelled requested = true
is_doomed_at _ requested = false

-- The run is there and CANCELLED, or ENQUEUED with its cancellation requested.
abbrev pub is_doomed : Option RunStatus → Bool
is_doomed none = false
is_doomed (some st) = is_doomed_at st.status st.cancel_requested

set_cancelled_locked-doomed :
    (k : Uuid) (st : RunStatus) (s : Runtime)
    → lookup k s.runs ≡ some st
    → is_enqueued st.status ≡ true
    → is_doomed (lookup k (set_cancelled_locked k s).1.runs) ≡ true
unfolding set_cancelled_locked put_run
set_cancelled_locked-doomed k st s there free =
    let edge : allowed st.status cancelled ≡ true = ground (arith, free) in
    rw (transition_locked-allowed k cancelled (some no_changes) s st there edge)
      (rw runs-note (rw lookup-insert_self))

module _ (k : Uuid) where
  -- A doomed run stays doomed.
  pub record StaysDoomed (a b : Runtime) : Type 0 where
    pub kept : is_doomed (lookup k a.runs) ≡ true → is_doomed (lookup k b.runs) ≡ true

  StaysDoomed-preorder : Preorder StaysDoomed
  StaysDoomed-preorder = record {
    refl_at = λ a. record { kept = λ h. h };
    trans_at = λ a b c p q. record { kept = λ h. q.kept (p.kept h) };
  }

  expire_run_doomed :
      (worker : String) (s : Runtime)
      → is_doomed (lookup k s.runs) ≡ true
      → is_doomed (lookup k (expire_run worker k s).1.runs) ≡ true
  unfolding expire_run expire_found
  expire_run_doomed worker s h = elim (Option-cases (lookup k s.runs)) [
    | inl absent ↦ absurd (ground (arith, absent, h))
    | inr (st, there) ↦
        let idle : is_running st.status ≡ false = ground (arith, there, h) in
        ground (arith, there, idle, h)
  ]

  try_claim_doomed :
      (worker : String) (s : Runtime)
      → is_doomed (lookup k s.runs) ≡ true
      → is_doomed (lookup k (try_claim worker k s).1.runs) ≡ true
  unfolding try_claim claim_found
  try_claim_doomed worker s h = elim (Option-cases (lookup k s.runs)) [
    | inl absent ↦ absurd (ground (arith, absent, h))
    | inr (st, there) ↦ elim (Bool-cases (is_enqueued st.status)) [
      | inr taken ↦ ground (arith, there, taken, h)
      | inl free ↦
          let unwanted : st.cancel_requested ≡ true = ground (arith, there, free, h) in
          ground (arith, there, free, unwanted, set_cancelled_locked-doomed k st s there free)
    ]
  ]

  expire_run-StaysDoomed : (worker : String) (j : Uuid) → Steps StaysDoomed (expire_run worker j)
  expire_run-StaysDoomed worker j = record {
    at = λ s. elim (Bool-cases (j == k)) [
      | inl same ↦ record {
        kept = λ h. let jk : j ≡ k = ground arith in rw jk (expire_run_doomed worker s h);
      }
      | inr other ↦ record {
        kept = λ h. rw (((expire_run-Others j worker).at s).same k (ground arith)) h;
      }
    ];
  }

  try_claim-StaysDoomed : (worker : String) (j : Uuid) → Steps StaysDoomed (try_claim worker j)
  try_claim-StaysDoomed worker j = record {
    at = λ s. elim (Bool-cases (j == k)) [
      | inl same ↦ record {
        kept = λ h. let jk : j ≡ k = ground arith in rw jk (try_claim_doomed worker s h);
      }
      | inr other ↦ record {
        kept = λ h. rw (((try_claim-Others j worker).at s).same k (ground arith)) h;
      }
    ];
  }

  pub expire_loop-StaysDoomed :
      (worker : String) (ks : List Uuid) → Steps StaysDoomed (expire_loop worker ks)
  unfolding expire_loop
  expire_loop-StaysDoomed worker [] = Steps-pure StaysDoomed-preorder tt
  expire_loop-StaysDoomed worker (j ∷ ks) =
      Steps-bind StaysDoomed-preorder _ _ (expire_run-StaysDoomed worker j)
        (λ _. expire_loop-StaysDoomed worker ks)

  pub claim_loop-StaysDoomed :
      (worker : String) (ks : List Uuid) → Steps StaysDoomed (claim_loop worker ks)
  unfolding claim_loop
  claim_loop-StaysDoomed worker [] = Steps-pure StaysDoomed-preorder none
  claim_loop-StaysDoomed worker (j ∷ ks) =
      Steps-bind StaysDoomed-preorder _ _ (try_claim-StaysDoomed worker j) (elim [
        | none ↦ claim_loop-StaysDoomed worker ks
        | some claim ↦ Steps-pure StaysDoomed-preorder (some claim)
      ])
