-- ===== src/Orchestrator/Creation.antt =====
-- A run that a client creates is at once free for a worker, and the workers are woken.
use movie_reservation_agent.Prelude.{String, ◌≡◌, refl, true, none, some, [], ◌∷◌}
use movie_reservation_agent.Exec.{ok}
use movie_reservation_agent.Dict.{Uuid, lookup, lookup-insert_self}
use movie_reservation_agent.Contracts.{enqueued}
use movie_reservation_agent.Runtime.{Runtime, put_run, append_event, notify, init_run_stream}
use movie_reservation_agent.Runtime.Evolution.{IsValid}
use movie_reservation_agent.EventLog.Numbering.{init_run_stream_ok}
use movie_reservation_agent.Intake
use movie_reservation_agent.Intake.{new_run_status, enqueued_status, mark_enqueued}
use movie_reservation_agent.Intake.Soundness.{create_run-IsSound, added, added-IsSound}
use movie_reservation_agent.Intake.Outcomes.{mark_enqueued_lem}
use movie_reservation_agent.Processing.Progress.{append_event_ok}
use movie_reservation_agent.Orchestrator.{create_run, run_request_of}

module _ (k : Uuid) (r : Intake.RunRequest) (s : Runtime) (v : IsValid s)
    (fresh : lookup k s.runs ≡ none) where
  added_there : lookup k (added k s).runs ≡ some (new_run_status k)
  unfolding put_run init_run_stream
  added_there = lookup-insert_self k _ _

  created_lem :
      ((Intake.create_run k r s).0 ≡ ok (new_run_status k))
      × (lookup k (Intake.create_run k r s).1.runs ≡ some (new_run_status k))
  unfolding Intake.create_run put_run init_run_stream
  created_lem =
      let (_, noted) =
        append_event_ok k "created" (("user_id", r.user_id) ∷ []) (new_run_status k) (added k s)
          ((added-IsSound k s fresh).valid v) added_there in
      rw init_run_stream_ok (rw noted (refl, unfold append_event in added_there))

-- Creating a run under a fresh id in a valid storage returns, and then the run is ENQUEUED with no
-- claim, no result, no error and no cancellation, and the signal for the workers is set.
pub create_run_enqueues :
    (k : Uuid) (prompt : String) (s : Runtime)
    → IsValid s
    → lookup k s.runs ≡ none
    → ((create_run k prompt s).0 ≡ ok (new_run_status k))
      × (lookup k (create_run k prompt s).1.runs
          ≡ some (record (new_run_status k) { status = enqueued }))
      × ((create_run k prompt s).1.signal ≡ true)
unfolding create_run notify
create_run_enqueues k prompt s v fresh =
    let (made, there) = created_lem k (run_request_of prompt) s v fresh in
    let s1 = (Intake.create_run k (run_request_of prompt) s).1 in
    let v1 = (create_run-IsSound k (run_request_of prompt) s fresh).valid v in
    let (marked, there2) = mark_enqueued_lem k (new_run_status k) s1 v1 there refl in
    rw made (rw marked (refl, there2, refl))
