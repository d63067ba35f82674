-- ===== src/Processing/Exhaustion.antt =====
-- `claim_run` looks at every run: when it returns nothing, no run is left free.
use movie_reservation_agent.Prelude.{
  String, ◌≡◌, ◌≢◌, refl, ap, sym, ◌∙◌, Bool, true, false, Option, none, some, List, [], ◌∷◌, arith,
  Bool-cases, Option-cases, inl, inr, ◌==◌,
}
use movie_reservation_agent.Exec.{Result, ok, Result-cases}
use movie_reservation_agent.Exec.Steps.{Preorder, Steps, Steps-bind, Steps-pure}
use movie_reservation_agent.Dict.{Uuid, lookup, keys, mem_key, mem_key-keys, lookup-insert_self}
use movie_reservation_agent.Contracts.{RunStatus, enqueued, cancelled, is_enqueued}
use movie_reservation_agent.Transitions.{no_changes}
use movie_reservation_agent.Transitions.Diagram.{allowed}
use movie_reservation_agent.Runtime.{Runtime, put_run}
use movie_reservation_agent.Runtime.Others.{runs-note}
use movie_reservation_agent.Processing.{
  ClaimedRun, set_cancelled_locked, expire_loop, claim_enqueued, claim_found, try_claim, claim_loop,
  claim_run, get_new_expiration_ts,
}
use movie_reservation_agent.Processing.Doomed.{
  is_doomed, expire_loop-StaysDoomed, claim_loop-StaysDoomed,
}
use movie_reservation_agent.Processing.Transition.{transition_locked-allowed}
use movie_reservation_agent.Processing.Isolation.{try_claim-Others}

-- The run is there and waits for a worker.
abbrev is_free : Option RunStatus → Bool
is_free none = false
is_free (some st) = is_enqueued st.status

-- A free run that is cancelled is not free any more.
set_cancelled_locked-not_free :
    (k : Uuid) (st : RunStatus) (s : Runtime)
    → lookup k s.runs ≡ some st
    → is_enqueued st.status ≡ true
    → is_free (lookup k (set_cancelled_locked k s).1.runs) ≡ false
unfolding set_cancelled_locked put_run
set_cancelled_locked-not_free k st s there free =
    let edge : allowed st.status cancelled ≡ true = ground (arith, free) in
    rw (transition_locked-allowed k cancelled (some no_changes) s st there edge)
      (rw runs-note (rw lookup-insert_self))

claim_enqueued_some :
    (worker : String) (k : Uuid) (s : Runtime) {t : Runtime}
    → claim_enqueued worker k s ≢ (ok none, t)
unfolding claim_enqueued get_new_expiration_ts
claim_enqueued_some worker k s e = ground arith

module _ (k : Uuid) where
  -- A run that is not free does not become free.
  record StaysTaken (a b : Runtime) : Type 0 where
    kept : is_free (lookup k a.runs) ≡ false → is_free (lookup k b.runs) ≡ false

  StaysTaken-preorder : Preorder StaysTaken
  StaysTaken-preorder = record {
    refl_at = λ a. record { kept = λ h. h };
    trans_at = λ a b c p q. record { kept = λ h. q.kept (p.kept h) };
  }

  try_claim_taken :
      (worker : String) (s : Runtime)
      → is_free (lookup k s.runs) ≡ false
      → try_claim worker k s ≡ (ok none, s)
  unfolding try_claim claim_found
  try_claim_taken worker s h = ground (arith, h)

  try_claim-StaysTaken : (worker : String) (j : Uuid) → Steps StaysTaken (try_claim worker j)
  try_claim-StaysTaken worker j = record {
    at = λ s. elim (Bool-cases (j == k)) [
      | inl same ↦ record {
        kept = λ h. let jk : j ≡ k = ground arith in rw jk (rw (try_claim_taken worker s h) h);
      }
      | inr other ↦ record {
        kept = λ h. rw (((try_claim-Others j worker).at s).same k (ground arith)) h;
      }
    ];
  }

  claim_loop-StaysTaken :
      (worker : String) (ks : List Uuid) → Steps StaysTaken (claim_loop worker ks)
  unfolding claim_loop
  claim_loop-StaysTaken worker [] = Steps-pure StaysTaken-preorder none
  claim_loop-StaysTaken worker (j ∷ ks) =
      Steps-bind StaysTaken-preorder _ _ (try_claim-StaysTaken worker j) (elim [
        | none ↦ claim_loop-StaysTaken worker ks
        | some claim ↦ Steps-pure StaysTaken-preorder (some claim)
      ])

  -- A look at the run that gives no claim leaves it taken.
  try_claim-none :
      (worker : String) (s : Runtime) {t : Runtime}
      → try_claim worker k s ≡ (ok none, t)
      → is_free (lookup k t.runs) ≡ false
  unfolding try_claim claim_found
  try_claim-none worker s {t} e = elim (Option-cases (lookup k s.runs)) [
    | inl absent ↦ ground (arith, absent, e)
    | inr (st, there) ↦ elim (Bool-cases (is_enqueued st.status)) [
      | inr taken ↦ ground (arith, there, taken, e)
      | inl free ↦ elim (Bool-cases st.cancel_requested) [
        | inr wanted ↦
            absurd (claim_enqueued_some worker k s {t = t} (ground (arith, there, free, wanted, e)))
        | inl unwanted ↦ elim (Result-cases (set_cancelled_locked k s).0) [
          | inr (_, raised) ↦ absurd (ground (arith, there, free, unwanted, raised, e))
          | inl (_, done) ↦ ground (
            arith,
            there,
            free,
            unwanted,
            done,
            e,
            set_cancelled_locked-not_free k st s there free,
          )
        ]
      ]
    ]
  ]

  claim_loop-none :
      (worker : String) (ks : List Uuid) (s : Runtime) {t : Runtime}
      → mem_key k ks ≡ true
      → claim_loop worker ks s ≡ (ok none, t)
      → is_free (lookup k t.runs) ≡ false
  unfolding claim_loop
  claim_loop-none worker [] s h e = absurd (ground (arith, h))
  claim_loop-none worker (j ∷ ks) s {t} h e = elim (Result-cases (try_claim worker j s).0) [
    | inr (_, raised) ↦ absurd (ground (arith, raised, e))
    | inl (found, went) ↦ elim (Option-cases found) [
      | inr (claim, got) ↦ absurd (ground (arith, went, got, e))
      | inl nothing ↦
          let s' = (try_claim worker j s).1 in
          let rest : claim_loop worker ks s' ≡ (ok none, t) = ground (arith, went, nothing, e) in
          elim (Bool-cases (j == k)) [
            | inr other ↦ claim_loop-none worker ks s' (ground (arith, h, other)) rest
            | inl same ↦
                let jk : j ≡ k = ground arith in
                let taken : is_free (lookup k s'.runs) ≡ false = rw jk (
                  try_claim-none worker s (
                    rw jk at (
                      let p : try_claim worker j s ≡ (ok none, s') =
                        ground (arith, went, nothing) in
                      p))) in
                rw (← ap (λ (r : Result (Option ClaimedRun) × Runtime). r.1) rest)
                  (((claim_loop-StaysTaken worker ks).at s').kept taken)
          ]
    ]
  ]

no_free_run :
    (worker : String) (k : Uuid) (st : RunStatus) (s : Runtime) {t : Runtime}
    → claim_run worker s ≡ (ok none, t)
    → lookup k t.runs ≡ some st
    → st.status ≢ enqueued
unfolding claim_run
no_free_run worker k st s {t} e there free =
    elim (Result-cases (expire_loop worker (keys s.runs) s).0) [
      | inr (_, raised) ↦ absurd (ground (arith, raised, e))
      | inl (_, went) ↦
          let u = (expire_loop worker (keys s.runs) s).1 in
          let rest : claim_loop worker (keys u.runs) u ≡ (ok none, t) = ground (arith, went, e) in
          let taken : is_free (lookup k t.runs) ≡ false = elim (Option-cases (lookup k u.runs)) [
            | inr (old, was) ↦
                claim_loop-none k worker (keys u.runs) u (mem_key-keys k old u.runs was) rest
            | inl absent ↦ rw (← ap (λ (r : Result (Option ClaimedRun) × Runtime). r.1) rest) (
                ((claim_loop-StaysTaken k worker (keys u.runs)).at u).kept
                  (rw (absent, is_free) refl))
          ] in
          absurd (ground (arith, there, free, taken))
    ]

doomed_after :
    (worker : String) (k : Uuid) (s : Runtime) {t : Runtime}
    → claim_run worker s ≡ (ok none, t)
    → is_doomed (lookup k s.runs) ≡ true
    → is_doomed (lookup k t.runs) ≡ true
unfolding claim_run
doomed_after worker k s {t} e h = elim (Result-cases (expire_loop worker (keys s.runs) s).0) [
  | inr (_, raised) ↦ absurd (ground (arith, raised, e))
  | inl (_, went) ↦
      let u = (expire_loop worker (keys s.runs) s).1 in
      let rest : claim_loop worker (keys u.runs) u ≡ (ok none, t) = ground (arith, went, e) in
      let still : is_doomed (lookup k u.runs) ≡ true =
        ((expire_loop-StaysDoomed k worker (keys s.runs)).at s).kept h in
      rw (← ap (λ (r : Result (Option ClaimedRun) × Runtime). r.1) rest)
        (((claim_loop-StaysDoomed k worker (keys u.runs)).at u).kept still)
]

doomed-cancelled :
    (st : RunStatus) → is_doomed (some st) ≡ true → st.status ≢ enqueued → st.status ≡ cancelled
doomed-cancelled st h taken = ground arith

-- When `claim_run` returns no claim, no run is left ENQUEUED, and every run that was ENQUEUED
-- before with its cancellation requested is CANCELLED.
pub claim_run-none :
    (worker : String) (k : Uuid) (st : RunStatus) (s : Runtime) {t : Runtime}
    → claim_run worker s ≡ (ok none, t)
    → lookup k t.runs ≡ some st
    → (st.status ≢ enqueued)
      × ((old : RunStatus)
          → lookup k s.runs ≡ some old
          → old.status ≡ enqueued
          → old.cancel_requested ≡ true
          → st.status ≡ cancelled)
claim_run-none worker k st s {t} e there =
    let taken = no_free_run worker k st s e there in
    (
      taken,
      λ old was free unwanted.
          let doomed : is_doomed (lookup k s.runs) ≡ true = rw was (rw (free, unwanted) refl) in
          doomed-cancelled st (sym (ap is_doomed there) ∙ doomed_after worker k s e doomed) taken,
    )
