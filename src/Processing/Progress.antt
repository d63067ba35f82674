-- ===== src/Processing/Progress.antt =====
-- In a valid storage `claim_run` always returns: none of its transitions is refused and every run
-- it notes something about has a stream.
use movie_reservation_agent.Prelude.{
  ℕ, ◌+◌, zero, suc, String, ◌≡◌, refl, ap, ◌∙◌, Bool, true, false, Option, none, some, List, [],
  ◌∷◌, arith, Bool-cases, Option-cases, inl, inr, is_some-value, ltb,
}
use movie_reservation_agent.Exec.{ok}
use movie_reservation_agent.Dict.{Uuid, lookup, keys}
use movie_reservation_agent.Contracts.{
  Timestamp, Payload, RunStatus, RunEvent, running, cancelled, is_running, is_enqueued,
}
use movie_reservation_agent.Transitions.{TransitionRequestParams, no_changes, value}
use movie_reservation_agent.Transitions.Diagram.{allowed}
use movie_reservation_agent.EventLog.Numbering.{append_ok}
use movie_reservation_agent.Runtime.{Runtime, select, append_event}
use movie_reservation_agent.Runtime.Evolution.{IsValid, IsValidRun}
use movie_reservation_agent.Processing.{
  ClaimedRun, expired_at, has_claim_expired, recover_if, expire_found, expire_run, expire_loop,
  set_cancelled_locked, get_new_expiration_ts, for_worker, lease_time, transition_locked,
  transitioned, claim_enqueued, claim_found, try_claim, claim_loop, claim_run,
}
use movie_reservation_agent.Processing.Recovery.{
  transition_ok, transition_run, recover_expired_runs_requeues,
}
use movie_reservation_agent.Processing.Soundness.{
  get_new_expiration_ts-IsSound, has_claim_expired-IsSound, expire_run-IsSound, expire_loop-IsSound,
  try_claim-IsSound,
}
use movie_reservation_agent.Processing.Transition.{transition_locked-IsSound}

-- The run of a valid storage at a key where there is one.
pub valid_at :
    (k : Uuid) (st : RunStatus) (s : Runtime)
    → IsValid s
    → lookup k s.runs ≡ some st
    → IsValidRun k (some st) (lookup k s.event_log.internal_run_events)
valid_at k st s v there = rw there at (v.run k)

pub append_event_ok :
    (k : Uuid) (ty : String) (p : Payload) (st : RunStatus) (s : Runtime)
    → IsValid s
    → lookup k s.runs ≡ some st
    → (e : RunEvent) × ((append_event k ty p s).0 ≡ ok e)
unfolding append_event
append_event_ok k ty p st s v there =
    append_ok k ty p (s.clock 0) s.event_log v.log (valid_at k st s v there).2

expired_at_ok :
    (o : Option Timestamp) (s : Runtime)
    → (b : Bool) × ((expired_at o s).0 ≡ ok b) × ((expired_at o s).1.runs ≡ s.runs)
unfolding has_claim_expired
expired_at_ok none s = (false, refl, refl)
expired_at_ok (some zero) s = (false, refl, refl)
expired_at_ok (some (suc t)) s = (ltb (suc t) (s.clock 0), refl, refl)

recover_if_ok :
    (b : Bool) (worker : String) (k : Uuid) (st : RunStatus) (s : Runtime)
    → IsValid s
    → lookup k s.runs ≡ some st
    → is_running st.status ≡ true
    → (recover_if b worker k st s).0 ≡ ok tt
unfolding recover_if
recover_if_ok false worker k st s v there run = refl
recover_if_ok true worker k st s v there run =
    let (_, noted) = append_event_ok k "claim_expired" [] st s v there in
    let s' = (append_event k "claim_expired" [] s).1 in
    let there' : lookup k s'.runs ≡ some st = unfold append_event in there in
    let (n, count) : (n : ℕ) × (st.retry_count ≡ some n) =
      is_some-value st.retry_count (valid_at k st s v there).1.counted in
    rw noted (recover_expired_runs_requeues k worker n st s' there' (ground (arith, run)) count).0

expire_found_ok :
    (worker : String) (k : Uuid) (st : RunStatus) (s : Runtime)
    → IsValid s
    → lookup k s.runs ≡ some st
    → is_running st.status ≡ true
    → (expire_found worker k st s).0 ≡ ok tt
unfolding expire_found has_claim_expired
expire_found_ok worker k st s v there run =
    let (b, went, same) = expired_at_ok st.claim_expiration_unix_ts s in
    let s' = (expired_at st.claim_expiration_unix_ts s).1 in
    rw run (
      rw went (
        recover_if_ok b worker k st s' (((has_claim_expired-IsSound st).at s).valid v)
          (ap (lookup k) same ∙ there) run))

expire_run_ok :
    (worker : String) (k : Uuid) (s : Runtime) → IsValid s → (expire_run worker k s).0 ≡ ok tt
unfolding expire_run expire_found
expire_run_ok worker k s v = elim (Option-cases (lookup k s.runs)) [
  | inl absent ↦ rw (absent, select)
  | inr (st, there) ↦ elim (Bool-cases (is_running st.status)) [
    | inl run ↦ rw (there, select) (expire_found_ok worker k st s v there run)
    | inr idle ↦ rw (there, select) (rw idle)
  ]
]

expire_loop_ok :
    (worker : String) (ks : List Uuid) (s : Runtime)
    → IsValid s
    → (expire_loop worker ks s).0 ≡ ok tt
unfolding expire_loop
expire_loop_ok worker [] s v = refl
expire_loop_ok worker (k ∷ ks) s v = rw (expire_run_ok worker k s v) (
    expire_loop_ok worker ks (expire_run worker k s).1
      (((expire_run-IsSound worker k).at s).valid v))

-- After a transition the storage is valid and the note about it can be made.
set_cancelled_locked_ok :
    (k : Uuid) (st : RunStatus) (s : Runtime)
    → IsValid s
    → lookup k s.runs ≡ some st
    → is_enqueued st.status ≡ true
    → (set_cancelled_locked k s).0 ≡ ok tt
unfolding set_cancelled_locked
set_cancelled_locked_ok k st s v there free =
    let edge : allowed st.status cancelled ≡ true = ground (arith, free) in
    let s' = (transition_locked k cancelled (some no_changes) s).1 in
    let v' = ((transition_locked-IsSound k cancelled (some no_changes) refl).at s).valid v in
    let (_, noted) =
      append_event_ok k "cancelled" [] _ s' v'
        (transition_run k cancelled no_changes s st there edge) in
    rw (transition_ok k cancelled no_changes s st there edge) (rw noted)

claim_enqueued_ok :
    (worker : String) (k : Uuid) (st : RunStatus) (s : Runtime)
    → IsValid s
    → lookup k s.runs ≡ some st
    → is_enqueued st.status ≡ true
    → (o : Option ClaimedRun) × ((claim_enqueued worker k s).0 ≡ ok o)
unfolding claim_enqueued get_new_expiration_ts
claim_enqueued_ok worker k st s v there free =
    let edge : allowed st.status running ≡ true = ground (arith, free) in
    let request : TransitionRequestParams = record (for_worker worker) {
      expiration_unix_ts = value (some (s.clock 0 + lease_time));
    } in
    let s1 = (get_new_expiration_ts s).1 in
    let s2 = (transition_locked k running (some request) s1).1 in
    let v1 = (get_new_expiration_ts-IsSound.at s).valid v in
    let v2 = ((transition_locked-IsSound k running (some request) refl).at s1).valid v1 in
    let claimed = transition_run k running request s1 st there edge in
    let (_, noted) = append_event_ok k "claimed" (("worker", worker) ∷ []) _ s2 v2 claimed in
    let s3 = (append_event k "claimed" (("worker", worker) ∷ []) s2).1 in
    let claimed3 : lookup k s3.runs ≡ some (transitioned st running request) =
      unfold append_event in claimed in
    (
      some (record {
        id = k;
        claim_type = "enqueued";
        run_status = transitioned st running request;
      }),
      rw (transition_ok k running request s1 st there edge) (rw noted (rw (claimed3, select) refl)),
    )

try_claim_ok :
    (worker : String) (k : Uuid) (s : Runtime)
    → IsValid s
    → (o : Option ClaimedRun) × ((try_claim worker k s).0 ≡ ok o)
unfolding try_claim claim_found
try_claim_ok worker k s v = elim (Option-cases (lookup k s.runs)) [
  | inl absent ↦ (none, rw (absent, select))
  | inr (st, there) ↦ elim (Bool-cases (is_enqueued st.status)) [
    | inr taken ↦ (none, rw (there, select) (rw taken))
    | inl free ↦ elim (Bool-cases st.cancel_requested) [
      | inl unwanted ↦ (
        none,
        rw (there, select) (rw (free, unwanted) (rw (set_cancelled_locked_ok k st s v there free))),
      )
      | inr wanted ↦
          let (o, got) = claim_enqueued_ok worker k st s v there free in
          (o, rw (there, select) (rw (free, wanted) got))
    ]
  ]
]

claim_loop_ok :
    (worker : String) (ks : List Uuid) (s : Runtime)
    → IsValid s
    → (o : Option ClaimedRun) × ((claim_loop worker ks s).0 ≡ ok o)
unfolding claim_loop
claim_loop_ok worker [] s v = (none, refl)
claim_loop_ok worker (k ∷ ks) s v =
    let (found, went) = try_claim_ok worker k s v in
    let rest =
      claim_loop_ok worker ks (try_claim worker k s).1
        (((try_claim-IsSound worker k).at s).valid v) in
    elim (Option-cases found) [
      | inl nothing ↦ (rest.0, rw went (rw nothing rest.1))
      | inr (claim, got) ↦ (some claim, rw went (rw got))
    ]

-- In a valid storage `claim_run` returns, with a claim or with none: it never raises.
pub claim_run_returns :
    (worker : String) (s : Runtime)
    → IsValid s
    → (o : Option ClaimedRun) × ((claim_run worker s).0 ≡ ok o)
unfolding claim_run
claim_run_returns worker s v =
    let u = (expire_loop worker (keys s.runs) s).1 in
    let (o, got) =
      claim_loop_ok worker (keys u.runs) u
        (((expire_loop-IsSound worker (keys s.runs)).at s).valid v) in
    (o, rw (expire_loop_ok worker (keys s.runs) s v) got)
