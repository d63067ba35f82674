-- ===== src/Processing/Outcomes.antt =====
-- How the methods end with which a worker reports on its run.
use movie_reservation_agent.Prelude.{
  ◌+◌, String, ◌≡◌, refl, true, false, some, [], ◌∷◌, arith, if◌then◌else◌, Bool-cases, inl, inr,
}
use movie_reservation_agent.Exec.{ok, err, invalid_transition, lease_lost, Exec, pure, ◌>>◌}
use movie_reservation_agent.Dict.{Uuid, lookup, lookup-insert_self}
use movie_reservation_agent.Value.{Value}
use movie_reservation_agent.Contracts.{
  Payload, RunStatus, RunStatusCode, succeeded, failed, cancelled, running, is_running,
}
use movie_reservation_agent.Transitions.{TransitionRequestParams, value, no_changes}
use movie_reservation_agent.Transitions.Diagram.{allowed}
use movie_reservation_agent.Runtime.{Runtime, select, put_run, append_event}
use movie_reservation_agent.Runtime.Evolution.{IsValid}
use movie_reservation_agent.Runtime.Others.{runs-note}
use movie_reservation_agent.Processing.{
  transitioned, transition_locked, set_succeeded, set_failed, set_cancelled, set_cancelled_locked,
  heartbeat, heartbeat_found, get_new_expiration_ts, is_claimed_by, lease_time,
}
use movie_reservation_agent.Processing.Transition.{
  transition_locked_refused, transition_locked-IsSound, fits,
}
use movie_reservation_agent.Processing.Recovery.{transition_ok, transition_run}
use movie_reservation_agent.Processing.Progress.{append_event_ok}

-- A transition and a note about it, in a valid storage, along an edge.
module _ (k : Uuid) (target : RunStatusCode) (request : TransitionRequestParams) (ty : String)
    (p : Payload) (st : RunStatus) (s : Runtime) (there : lookup k s.runs ≡ some st) where
  abbrev noted_transition : Exec Runtime (Unit {0})
  noted_transition = transition_locked k target (some request) >> (append_event k ty p >> pure tt)

  noted_transition_lem :
      IsValid s
      → fits target request ≡ true
      → allowed st.status target ≡ true
      → ((noted_transition s).0 ≡ ok tt)
        × (lookup k (noted_transition s).1.runs ≡ some (transitioned st target request))
  noted_transition_lem v fit edge =
      let s' = (transition_locked k target (some request) s).1 in
      let v' = ((transition_locked-IsSound k target (some request) fit).at s).valid v in
      let there' = transition_run k target request s st there edge in
      let (_, noted) = append_event_ok k ty p (transitioned st target request) s' v' there' in
      rw (transition_ok k target request s st there edge) (rw noted refl, rw runs-note there')

  refused_transition_lem :
      allowed st.status target ≡ false → noted_transition s ≡ (err invalid_transition, s)
  refused_transition_lem no_edge =
      rw (transition_locked_refused k target (some request) s st there no_edge)

-- In a valid storage a RUNNING run can be reported as done: the call returns, the run is SUCCEEDED
-- with the given result, and its other fields are as before. It can be reported as failed in the
-- same way. A run in any other status can be reported neither way: the call raises and writes
-- nothing.
pub report_outcomes :
    (k : Uuid) (result : Value) (error : String) (st : RunStatus) (s : Runtime)
    → IsValid s
    → lookup k s.runs ≡ some st
    → if is_running st.status
      then ((set_succeeded k result s).0 ≡ ok tt)
        × (lookup k (set_succeeded k result s).1.runs
            ≡ some (record st { status = succeeded; result = some result }))
        × ((set_failed k error s).0 ≡ ok tt)
        × (lookup k (set_failed k error s).1.runs
            ≡ some (record st { status = failed; error = some error }))
      else (set_succeeded k result s ≡ (err invalid_transition, s))
        × (set_failed k error s ≡ (err invalid_transition, s))
unfolding set_succeeded set_failed
report_outcomes k result error st s v there = elim (Bool-cases (is_running st.status)) [
  | inl run ↦
      let e1 : allowed st.status succeeded ≡ true = ground (arith, run) in
      let e2 : allowed st.status failed ≡ true = ground (arith, run) in
      let a =
        noted_transition_lem k succeeded (record no_changes { result = value (some result) })
          "run_succeeded" (("result", "done") ∷ []) st s there v refl e1 in
      let b =
        noted_transition_lem k failed (record no_changes { error = value (some error) })
          "run_failed" (("error", error) ∷ []) st s there v refl e2 in
      rw run (a.0, a.1, b.0, b.1)
  | inr idle ↦
      let e1 : allowed st.status succeeded ≡ false = ground (arith, idle) in
      let e2 : allowed st.status failed ≡ false = ground (arith, idle) in
      rw idle (
        refused_transition_lem k succeeded (record no_changes { result = value (some result) })
            "run_succeeded" (("result", "done") ∷ []) st s there e1,
        refused_transition_lem k failed (record no_changes { error = value (some error) })
            "run_failed" (("error", error) ∷ []) st s there e2,
      )
]

-- A run that is CREATED, ENQUEUED or RUNNING can be cancelled in a valid storage, and only its
-- status changes; in any other status the call raises and writes nothing.
pub set_cancelled_outcomes :
    (k : Uuid) (st : RunStatus) (s : Runtime)
    → IsValid s
    → lookup k s.runs ≡ some st
    → if allowed st.status cancelled
      then ((set_cancelled k s).0 ≡ ok tt)
        × (lookup k (set_cancelled k s).1.runs ≡ some (record st { status = cancelled }))
      else set_cancelled k s ≡ (err invalid_transition, s)
unfolding set_cancelled set_cancelled_locked
set_cancelled_outcomes k st s v there = elim (Bool-cases (allowed st.status cancelled)) [
  | inl edge ↦
      rw edge (noted_transition_lem k cancelled no_changes "cancelled" [] st s there v refl edge)
  | inr no_edge ↦
      rw no_edge (refused_transition_lem k cancelled no_changes "cancelled" [] st s there no_edge)
]

-- A heartbeat on a RUNNING run of the worker returns the run with a new lease and stores it; on
-- one of another worker it raises that the lease is lost and leaves the run alone; in any other
-- status it returns the run and changes nothing.
pub heartbeat_outcomes :
    (k : Uuid) (worker : String) (st : RunStatus) (s : Runtime)
    → IsValid s
    → lookup k s.runs ≡ some st
    → if is_running st.status
      then if is_claimed_by worker st.claimed_worker
        then (let renewed : RunStatus = record st {
          status = running;
          claimed_worker = some worker;
          claim_expiration_unix_ts = some (s.clock 0 + lease_time);
        } in
            ((heartbeat k worker s).0 ≡ ok renewed)
            × (lookup k (heartbeat k worker s).1.runs ≡ some renewed))
        else ((heartbeat k worker s).0 ≡ err lease_lost) × ((heartbeat k worker s).1.runs ≡ s.runs)
      else heartbeat k worker s ≡ (ok st, s)
unfolding heartbeat heartbeat_found get_new_expiration_ts put_run append_event
heartbeat_outcomes k worker st s v there = elim (Bool-cases (is_running st.status)) [
  | inl run ↦ elim (Bool-cases (is_claimed_by worker st.claimed_worker)) [
    | inl own ↦ rw (there, select) (rw (run, own) (refl, lookup-insert_self k _ _))
    | inr lost ↦
        let (_, noted) = append_event_ok k "claim_lost" (("worker", worker) ∷ []) st s v there in
        rw (there, select) (rw (run, lost) (rw noted (refl, refl)))
  ]
  | inr idle ↦ rw (there, select) (rw idle)
]
