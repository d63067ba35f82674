-- ===== src/Intake/Soundness.antt =====
-- Every method of the intake store keeps the storage sound, whether it returns or raises;
-- `create_run` does so where its new id is fresh.
use movie_reservation_agent.Prelude.{
  String, ◌≡◌, refl, true, false, Option, none, some, [], arith, Bool-cases, inl, inr, ◌==◌,
  Option-cases,
}
use movie_reservation_agent.Exec.{◌>>◌, pure}
use movie_reservation_agent.Exec.Steps.{Steps}
use movie_reservation_agent.Dict.{Uuid, lookup, lookup-insert}
use movie_reservation_agent.Contracts.{RunStatus, RunStatusCode, enqueued, cancelled, is_terminal}
use movie_reservation_agent.EventLog.{ℤ}
use movie_reservation_agent.EventLog.Paging.{list_unchanged}
use movie_reservation_agent.Transitions.{validate, default_policy}
use movie_reservation_agent.EventLog.Numbering.{
  init_run_stream-IsValid, init_run_stream_ok, contains-init_run_stream, init_run_stream-Extends,
}
use movie_reservation_agent.Runtime.{Runtime, init_run_stream, select, put_run, append_event}
use movie_reservation_agent.Runtime.Evolution.{
  IsValid, IsValidRun, IsValidRun-Extends, IsConsistent, Evolves, Evolves-refl, IsSound,
  IsSound-preorder, same_storage-IsSound, put_run-IsSound, if_found-IsSound_at, bind-IsSound,
  pure-IsSound, append_event-IsSound, sound_rules,
}
use movie_reservation_agent.Transitions.Diagram.{
  here, next, allowed, allowed-⟶, no_edge_from_terminal, validate_lem,
}
use movie_reservation_agent.Intake.{
  RunRequest, new_run_status, create_run, get_status, enqueued_status, mark_enqueued,
  cancelled_status, mark_found, mark_cancelled, request_found, request_cancellation, list_events,
  get_events,
}

pub get_status-IsSound : (k : Uuid) → Steps IsSound (get_status k)
unfolding get_status
get_status-IsSound k = search sound_rules

list_events-IsSound : (k : Uuid) (after : Option ℤ) → Steps IsSound (list_events k after)
unfolding list_events
list_events-IsSound k after = record {
  at = λ s. same_storage-IsSound s _ refl (list_unchanged k after s.event_log) (λ n. (n, refl));
}

pub get_events-IsSound : (k : Uuid) (after : Option ℤ) → Steps IsSound (get_events k after)
unfolding get_events
get_events-IsSound k after = search (sound_rules, list_events-IsSound)

-- A run that is overwritten and noted in its stream.
module _ {A : Type 0} (k : Uuid) (ty : String) (a : A) (st st' : RunStatus) (s : Runtime)
    (there : lookup k s.runs ≡ some st) where
  rewrite-IsSound :
      Evolves st st'
      → (IsConsistent st → IsConsistent st')
      → IsSound s ((put_run k st' >> (append_event k ty [] >> pure a)) s).1
  unfolding put_run
  rewrite-IsSound ev keep =
      IsSound-preorder.trans_at s (put_run k st' s).1 _ (put_run-IsSound k st st' s there ev keep) (
        (bind-IsSound _ _ (append_event-IsSound k ty []) (λ _. pure-IsSound a)).at
          (put_run k st' s).1)

  -- The same behind the policy.
  checked-IsSound :
      (target : RunStatusCode)
      → (allowed st.status target ≡ true → Evolves st st')
      → (IsConsistent st → IsConsistent st')
      → IsSound s
          ((validate default_policy st target
              >> (put_run k st' >> (append_event k ty [] >> pure a)))
            s).1
  checked-IsSound target ev keep = elim (Bool-cases (allowed st.status target)) [
    | inl edge ↦ rw (validate_lem, edge) (rewrite-IsSound (ev edge) keep)
    | inr no_edge ↦ rw (validate_lem, no_edge) (IsSound-preorder.refl_at s)
  ]

-- A run that takes an edge of the diagram.
pub edge-Evolves :
    (st st' : RunStatus) → st'.id ≡ st.id → allowed st.status st'.status ≡ true → Evolves st st'
edge-Evolves st st' same edge = record {
  same_id = same;
  path = next here (allowed-⟶ st.status st'.status edge);
  frozen =
      λ h. absurd (ground (arith, h, no_edge_from_terminal (allowed-⟶ st.status st'.status edge)));
}

pub enqueued-IsConsistent : (st : RunStatus) → IsConsistent st → IsConsistent (enqueued_status st)
enqueued-IsConsistent st c = ground arith

pub cancelled-IsConsistent : (st : RunStatus) → IsConsistent st → IsConsistent (cancelled_status st)
cancelled-IsConsistent st c = ground arith

-- A live run with its cancellation requested.
pub requested-Evolves :
    (st : RunStatus)
    → is_terminal st.status ≡ false
    → Evolves st (record st { cancel_requested = true })
requested-Evolves st live = record {
  same_id = refl;
  path = here;
  frozen = λ h. absurd (ground (arith, h, live));
}

pub requested-IsConsistent :
    (st : RunStatus) → IsConsistent st → IsConsistent (record st { cancel_requested = true })
requested-IsConsistent st c = ground arith

pub mark_enqueued-IsSound : (k : Uuid) → Steps IsSound (mark_enqueued k)
unfolding mark_enqueued
mark_enqueued-IsSound k = record {
  at = λ s. elim (Option-cases (lookup k s.runs)) [
    | inl absent ↦ rw (absent, select) (IsSound-preorder.refl_at s)
    | inr (st, there) ↦
        rw (there, select)
          (checked-IsSound k "enqueued" tt st (enqueued_status st) s there enqueued
            (edge-Evolves st (enqueued_status st) refl) (enqueued-IsConsistent st))
  ];
}

mark_found-IsSound :
    (k : Uuid) (st : RunStatus) (s : Runtime)
    → lookup k s.runs ≡ some st
    → IsSound s (mark_found k st s).1
unfolding mark_found
mark_found-IsSound k st s there = elim (Bool-cases (is_terminal st.status)) [
  | inl terminal ↦ rw terminal (IsSound-preorder.refl_at s)
  | inr live ↦ rw live (
      checked-IsSound k "cancelled" true st (cancelled_status st) s there cancelled
        (edge-Evolves st (cancelled_status st) refl) (cancelled-IsConsistent st))
]

pub mark_cancelled-IsSound : (k : Uuid) → Steps IsSound (mark_cancelled k)
unfolding mark_cancelled
mark_cancelled-IsSound k = record {
  at = λ s.
      if_found-IsSound_at k _ _ s (IsSound-preorder.refl_at s) (λ st. mark_found-IsSound k st s);
}

request_found-IsSound :
    (k : Uuid) (st : RunStatus) (s : Runtime)
    → lookup k s.runs ≡ some st
    → IsSound s (request_found k st s).1
unfolding request_found
request_found-IsSound k st s there = elim (Bool-cases (is_terminal st.status)) [
  | inl terminal ↦ rw terminal (IsSound-preorder.refl_at s)
  | inr live ↦ elim (Bool-cases st.cancel_requested) [
    | inl again ↦ rw (live, again) (IsSound-preorder.refl_at s)
    | inr first ↦
        rw (live, first)
          (rewrite-IsSound k "cancel requested" true st (record st { cancel_requested = true }) s
            there (requested-Evolves st live) (requested-IsConsistent st))
  ]
]

pub request_cancellation-IsSound : (k : Uuid) → Steps IsSound (request_cancellation k)
unfolding request_cancellation
request_cancellation-IsSound k = record {
  at = λ s.
      if_found-IsSound_at k _ _ s (IsSound-preorder.refl_at s) (λ st. request_found-IsSound k st s);
}

-- The state in which a new run and its empty stream are stored.
abbrev pub added : Uuid → Runtime → Runtime
added k s = (init_run_stream k (put_run k (new_run_status k) s).1).1

new_run_status-IsConsistent : (k : Uuid) → IsConsistent (new_run_status k)
new_run_status-IsConsistent k = ground arith

added-IsValidRun :
    (k : Uuid) (s : Runtime)
    → IsValid s
    → (j : Uuid)
    → IsValidRun j (lookup j (added k s).runs) (lookup j (added k s).event_log.internal_run_events)
unfolding put_run init_run_stream
added-IsValidRun k s v j = elim (Bool-cases (k == j)) [
  | inl same ↦
      let kj : k ≡ j = ground arith in
      let at : IsValidRun k (some (new_run_status k))
          (lookup k (added k s).event_log.internal_run_events) =
        (refl, new_run_status-IsConsistent k, contains-init_run_stream k s.event_log) in
      rw (lookup-insert, same) (rw (← kj) at)
  | inr other ↦
      rw (lookup-insert, other)
        (IsValidRun-Extends j (lookup j s.runs) s.event_log _
          (init_run_stream-Extends k s.event_log) (v.run j))
]

pub added-IsSound : (k : Uuid) (s : Runtime) → lookup k s.runs ≡ none → IsSound s (added k s)
unfolding put_run init_run_stream
added-IsSound k s fresh = record {
  run = λ j st h.
      (st, ground (arith, fresh, h, lookup-insert k j (new_run_status k) s.runs), Evolves-refl st);
  log = init_run_stream-Extends k s.event_log;
  readings = λ n. (n, refl);
  valid = λ v. record {
    log = init_run_stream-IsValid k s.event_log v.log;
    run = added-IsValidRun k s v;
  };
}

-- A new run under a fresh id.
pub create_run-IsSound :
    (k : Uuid) (r : RunRequest) (s : Runtime)
    → lookup k s.runs ≡ none
    → IsSound s (create_run k r s).1
unfolding create_run put_run init_run_stream
create_run-IsSound k r s fresh = rw init_run_stream_ok (
    IsSound-preorder.trans_at s (added k s) _ (added-IsSound k s fresh) (
      (bind-IsSound _ _ (append_event-IsSound k "created" _)
          (λ _. pure-IsSound (new_run_status k))).at
        (added k s)))
