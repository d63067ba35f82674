-- ===== src/Processing/Recovery.antt =====
-- What becomes of a run whose lease has run out.
use movie_reservation_agent.Prelude.{ℕ, ◌+◌, String, ◌≡◌, refl, true, some}
use movie_reservation_agent.Exec.{ok}
use movie_reservation_agent.Dict.{Uuid, lookup, lookup-insert_self}
use movie_reservation_agent.Contracts.{
  RunStatus, RunStatusCode, enqueued, running, timed_out, retrying,
}
use movie_reservation_agent.Transitions.{TransitionRequestParams, value}
use movie_reservation_agent.Transitions.Diagram.{allowed}
use movie_reservation_agent.Runtime.{Runtime, put_run}
use movie_reservation_agent.Processing.{
  for_worker, next_retry, transitioned, transition_locked, recover_expired_runs,
}
use movie_reservation_agent.Processing.Transition.{transition_locked-allowed}

-- A transition along an edge returns, and the run is the transitioned one.
module _ (k : Uuid) (target : RunStatusCode) (request : TransitionRequestParams) (s : Runtime)
    (st : RunStatus) (there : lookup k s.runs ≡ some st)
    (edge : allowed st.status target ≡ true) where
  pub transition_ok : (transition_locked k target (some request) s).0 ≡ ok tt
  unfolding put_run
  transition_ok = rw (transition_locked-allowed k target (some request) s st there edge)

  pub transition_run :
      lookup k (transition_locked k target (some request) s).1.runs
      ≡ some (transitioned st target request)
  unfolding put_run
  transition_run =
      rw (transition_locked-allowed k target (some request) s st there edge)
        (lookup-insert_self k _ _)

-- The recovery of a RUNNING run with a retry count returns: the run is ENQUEUED again, its retry
-- count is one more, it names the worker that recovered it, and nothing else about it has changed,
-- so that a requested cancellation is not forgotten.
pub recover_expired_runs_requeues :
    (k : Uuid) (worker : String) (n : ℕ) (st : RunStatus) (s : Runtime)
    → lookup k s.runs ≡ some st
    → st.status ≡ running
    → st.retry_count ≡ some n
    → ((recover_expired_runs k st worker s).0 ≡ ok tt)
      × (lookup k (recover_expired_runs k st worker s).1.runs
          ≡ some (record st {
            status = enqueued;
            claimed_worker = some worker;
            retry_count = some (n + 1);
          }))
unfolding recover_expired_runs
recover_expired_runs_requeues k worker n st s there run count =
    let edge : allowed st.status timed_out ≡ true = rw run refl in
    let ok1 = transition_ok k timed_out (for_worker worker) s st there edge in
    let run1 = transition_run k timed_out (for_worker worker) s st there edge in
    let s1 = (transition_locked k timed_out (some (for_worker worker)) s).1 in
    let st1 = transitioned st timed_out (for_worker worker) in
    let req2 : TransitionRequestParams = record (for_worker worker) {
      retry_count = value (some (n + 1));
    } in
    let ok2 = transition_ok k retrying req2 s1 st1 run1 refl in
    let run2 = transition_run k retrying req2 s1 st1 run1 refl in
    let s2 = (transition_locked k retrying (some req2) s1).1 in
    let st2 = transitioned st1 retrying req2 in
    let ok3 = transition_ok k enqueued (for_worker worker) s2 st2 run2 refl in
    let run3 = transition_run k enqueued (for_worker worker) s2 st2 run2 refl in
    rw ok1 (rw (count, next_retry) (rw ok2 (ok3, run3)))
