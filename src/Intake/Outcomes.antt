-- ===== src/Intake/Outcomes.antt =====
-- How the methods of the intake store end that change a run.
use movie_reservation_agent.Prelude.{
  none, String, ◌≡◌, refl, true, false, ◌||◌, some, [], if◌then◌else◌, Bool-cases, inl, inr,
}
use movie_reservation_agent.Exec.{ok, err, invalid_transition, ◌>>◌, pure, Exec}
use movie_reservation_agent.Dict.{Uuid, lookup, lookup-insert_self}
use movie_reservation_agent.Contracts.{RunStatus, created, enqueued, is_terminal}
use movie_reservation_agent.Transitions.Diagram.{allowed, validate_lem}
use movie_reservation_agent.Runtime.{Runtime, select, put_run, append_event}
use movie_reservation_agent.Runtime.Evolution.{IsValid, IsConsistent, Evolves, put_run-IsSound}
use movie_reservation_agent.Runtime.Others.{runs-note}
use movie_reservation_agent.Intake.{
  enqueued_status, mark_enqueued, request_found, request_cancellation,
}
use movie_reservation_agent.Intake.Soundness.{
  edge-Evolves, enqueued-IsConsistent, requested-Evolves, requested-IsConsistent,
}
use movie_reservation_agent.Processing.Progress.{append_event_ok}

module _ {A : Type 0} (k : Uuid) (ty : String) (a : A) (st st' : RunStatus) (s : Runtime)
    (v : IsValid s) (there : lookup k s.runs ≡ some st) where
  abbrev rewrite : Exec Runtime A
  rewrite = put_run k st' >> (append_event k ty [] >> pure a)

  rewrite_ok :
      Evolves st st'
      → (IsConsistent st → IsConsistent st')
      → ((rewrite s).0 ≡ ok a) × (lookup k (rewrite s).1.runs ≡ some st')
  unfolding put_run
  rewrite_ok ev keep =
      let s' = (put_run k st' s).1 in
      let there' : lookup k s'.runs ≡ some st' = lookup-insert_self k st' s.runs in
      let v' = (put_run-IsSound k st st' s there ev keep).valid v in
      let (_, noted) = append_event_ok k ty [] st' s' v' there' in
      (rw noted refl, rw runs-note there')

-- Marking a run of a valid storage as enqueued: from a status that may become ENQUEUED it returns,
-- and the run is ENQUEUED with its id, result and error, without a worker and a lease, with no
-- retries and no requested cancellation; from any other status it raises and writes nothing.
pub mark_enqueued_outcomes :
    (k : Uuid) (st : RunStatus) (s : Runtime)
    → IsValid s
    → lookup k s.runs ≡ some st
    → if allowed st.status enqueued
      then ((mark_enqueued k s).0 ≡ ok tt)
        × (lookup k (mark_enqueued k s).1.runs
            ≡ some (record {
              id = st.id;
              status = enqueued;
              result = st.result;
              error = st.error;
              claimed_worker = none;
              claim_expiration_unix_ts = none;
              retry_count = some 0;
              cancel_requested = false;
            }))
      else mark_enqueued k s ≡ (err invalid_transition, s)
unfolding mark_enqueued
mark_enqueued_outcomes k st s v there = elim (Bool-cases (allowed st.status enqueued)) [
  | inr no_edge ↦ rw no_edge (rw (there, select) (rw (validate_lem, no_edge)))
  | inl edge ↦ rw edge (
      rw (there, select)
        (rw (validate_lem, edge)
          (rewrite_ok k "enqueued" tt st (enqueued_status st) s v there
            (edge-Evolves st (enqueued_status st) refl edge) (enqueued-IsConsistent st))))
]

pub mark_enqueued_lem :
    (k : Uuid) (st : RunStatus) (s : Runtime)
    → IsValid s
    → lookup k s.runs ≡ some st
    → st.status ≡ created
    → ((mark_enqueued k s).0 ≡ ok tt)
      × (lookup k (mark_enqueued k s).1.runs ≡ some (enqueued_status st))
mark_enqueued_lem k st s v there new =
    let edge : allowed st.status enqueued ≡ true = rw new refl in
    rw edge at (mark_enqueued_outcomes k st s v there)

-- A request to cancel a run of a valid storage: on a terminal run, or one whose cancellation was
-- requested before, it returns `False` and changes nothing; otherwise it returns `True`, and the
-- flag is set and nothing else about the run is changed, its status neither.
pub request_cancellation_outcomes :
    (k : Uuid) (st : RunStatus) (s : Runtime)
    → IsValid s
    → lookup k s.runs ≡ some st
    → if is_terminal st.status || st.cancel_requested
      then request_cancellation k s ≡ (ok false, s)
      else ((request_cancellation k s).0 ≡ ok true)
        × (lookup k (request_cancellation k s).1.runs
            ≡ some (record st { cancel_requested = true }))
unfolding request_cancellation request_found
request_cancellation_outcomes k st s v there = elim (Bool-cases (is_terminal st.status)) [
  | inl terminal ↦ rw terminal (rw (there, select) (rw terminal))
  | inr live ↦ elim (Bool-cases st.cancel_requested) [
    | inl again ↦ rw (live, again) (rw (there, select) (rw (live, again)))
    | inr first ↦
        rw (live, first)
          (rw (there, select)
            (rw (live, first)
              (rewrite_ok k "cancel requested" true st (record st { cancel_requested = true }) s v
                there (requested-Evolves st live) (requested-IsConsistent st))))
  ]
]
