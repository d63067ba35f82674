-- ===== src/Intake/Moves.antt =====
-- The edges that the methods of the intake store take, whether they return or raise.
use movie_reservation_agent.Prelude.{
  String, ◌≡◌, refl, true, Option, none, some, [], arith, Bool-cases, Option-cases, inl, inr,
}
use movie_reservation_agent.Exec.{◌>>◌, pure}
use movie_reservation_agent.Exec.Steps.{Steps}
use movie_reservation_agent.Dict.{Uuid, lookup, lookup-insert}
use movie_reservation_agent.Contracts.{
  RunStatus, RunStatusCode, created, enqueued, cancelled, is_terminal,
}
use movie_reservation_agent.Transitions.{validate, default_policy}
use movie_reservation_agent.Transitions.Diagram.{allowed, allowed-⟶, validate_lem}
use movie_reservation_agent.Runtime.{Runtime, init_run_stream, select, put_run, append_event}
use movie_reservation_agent.Runtime.Moves.{
  To, kept, moved, To-preorder, Moved, same_runs-Moved, Moved-preorder, put_run-Moved,
  append_event-Moved, pure-Moved, bind-Moved, moved_rules,
}
use movie_reservation_agent.EventLog.{ℤ}
use movie_reservation_agent.EventLog.Numbering.{init_run_stream_ok}
use movie_reservation_agent.Intake.Soundness.{added}
use movie_reservation_agent.Intake.{
  RunRequest, new_run_status, create_run, get_status, list_events, get_events, enqueued_status,
  mark_enqueued, cancelled_status, mark_found, mark_cancelled, request_found, request_cancellation,
}

module _ {A : Type 0} (k : Uuid) (ty : String) (a : A) (t : RunStatusCode) (st st' : RunStatus)
    (s : Runtime) (there : lookup k s.runs ≡ some st) where
  -- A run that is overwritten and noted in its stream.
  rewrite-Moved :
      To t st.status st'.status
      → Moved (To t) s ((put_run k st' >> (append_event k ty [] >> pure a)) s).1
  unfolding put_run
  rewrite-Moved to =
      let o = To-preorder t in
      (Moved-preorder o).trans_at s (put_run k st' s).1 _ (put_run-Moved o k st st' s there to) (
        (bind-Moved o _ _ (append_event-Moved o k ty []) (λ _. pure-Moved o a)).at
          (put_run k st' s).1)

  -- The same behind the policy.
  checked-Moved :
      st'.status ≡ t
      → Moved
          (To t)
          s
          ((validate default_policy st t >> (put_run k st' >> (append_event k ty [] >> pure a)))
            s).1
  checked-Moved aim = elim (Bool-cases (allowed st.status t)) [
    | inl edge ↦
        rw (validate_lem, edge) (rewrite-Moved (rw aim (moved (allowed-⟶ st.status t edge))))
    | inr no_edge ↦ rw (validate_lem, no_edge) (same_runs-Moved (To-preorder t) refl)
  ]

pub mark_enqueued-To : (k : Uuid) → Steps (Moved (To enqueued)) (mark_enqueued k)
unfolding mark_enqueued
mark_enqueued-To k = record {
  at = λ s. elim (Option-cases (lookup k s.runs)) [
    | inl absent ↦ rw (absent, select) (same_runs-Moved (To-preorder enqueued) refl)
    | inr (st, there) ↦
        rw (there, select)
          (checked-Moved k "enqueued" tt enqueued st (enqueued_status st) s there refl)
  ];
}

pub mark_cancelled-To : (k : Uuid) → Steps (Moved (To cancelled)) (mark_cancelled k)
unfolding mark_cancelled mark_found
mark_cancelled-To k = record {
  at = λ s. elim (Option-cases (lookup k s.runs)) [
    | inl absent ↦ rw (absent, select) (same_runs-Moved (To-preorder cancelled) refl)
    | inr (st, there) ↦ elim (Bool-cases (is_terminal st.status)) [
      | inl ended ↦ rw (there, select) (rw ended (same_runs-Moved (To-preorder cancelled) refl))
      | inr live ↦
          rw (there, select)
            (rw live
              (checked-Moved k "cancelled" true cancelled st (cancelled_status st) s there refl))
    ]
  ];
}

pub request_cancellation-Moved : (k : Uuid) → Steps (Moved (To cancelled)) (request_cancellation k)
unfolding request_cancellation request_found
request_cancellation-Moved k = record {
  at = λ s. elim (Option-cases (lookup k s.runs)) [
    | inl absent ↦ rw (absent, select) (same_runs-Moved (To-preorder cancelled) refl)
    | inr (st, there) ↦ elim (Bool-cases (is_terminal st.status)) [
      | inl ended ↦ rw (there, select) (rw ended (same_runs-Moved (To-preorder cancelled) refl))
      | inr live ↦ elim (Bool-cases st.cancel_requested) [
        | inl again ↦
            rw (there, select) (rw (live, again) (same_runs-Moved (To-preorder cancelled) refl))
        | inr first ↦
            rw (there, select)
              (rw (live, first)
                (rewrite-Moved k "cancel requested" true cancelled st
                  (record st { cancel_requested = true }) s there kept))
      ]
    ]
  ];
}

pub get_status-Moved : (k : Uuid) → Steps (Moved (To created)) (get_status k)
unfolding get_status
get_status-Moved k = search moved_rules

list_events-Moved : (k : Uuid) (after : Option ℤ) → Steps (Moved (To created)) (list_events k after)
unfolding list_events
list_events-Moved k after = record { at = λ s. same_runs-Moved (To-preorder created) refl }

pub get_events-Moved :
    (k : Uuid) (after : Option ℤ) → Steps (Moved (To created)) (get_events k after)
unfolding get_events
get_events-Moved k after = search (moved_rules, list_events-Moved)

added-Moved : (k : Uuid) (s : Runtime) → lookup k s.runs ≡ none → Moved (To created) s (added k s)
unfolding put_run init_run_stream
added-Moved k s fresh = record {
  run = λ j st h. (st, ground (arith, fresh, h, lookup-insert k j (new_run_status k) s.runs), kept);
}

pub create_run-Moved :
    (k : Uuid) (r : RunRequest) (s : Runtime)
    → lookup k s.runs ≡ none
    → Moved (To created) s (create_run k r s).1
unfolding create_run put_run init_run_stream
create_run-Moved k r s fresh =
    let o = To-preorder created in
    rw init_run_stream_ok (
      (Moved-preorder o).trans_at s (added k s) _ (added-Moved k s fresh) (
        (bind-Moved o _ _ (append_event-Moved o k "created" _)
            (λ _. pure-Moved o (new_run_status k))).at
          (added k s)))
