-- ===== src/Processing/Soundness.antt =====
-- Every method of the processing store keeps the storage sound, whether it returns or raises.
use movie_reservation_agent.Prelude.{
  arith, Bool-cases, inl, inr, ℕ, zero, suc, String, ◌≡◌, refl, Bool, true, false, Option, none,
  some, List, [], ◌∷◌,
}
use movie_reservation_agent.Exec.{lease_lost}
use movie_reservation_agent.Exec.Steps.{Steps}
use movie_reservation_agent.Dict.{Uuid, lookup, keys}
use movie_reservation_agent.Value.{Value}
use movie_reservation_agent.Contracts.{Timestamp, RunStatus, running, is_running}
use movie_reservation_agent.Runtime.{Runtime, put_run, read_clock}
use movie_reservation_agent.Runtime.Evolution.{
  IsConsistent, Evolves, IsSound, IsSound-preorder, put_run-IsSound, if_found-IsSound_at,
  bind-IsSound, pure-IsSound, read_clock-IsSound, append_event-IsSound, raise-IsSound, sound_rules,
}
use movie_reservation_agent.Transitions.Diagram.{here}
use movie_reservation_agent.Processing.{
  get_new_expiration_ts, expired_at, has_claim_expired, set_cancelled_locked, set_cancelled,
  set_failed, set_succeeded, next_retry, recover_expired_runs, recover_if, expire_found, expire_run,
  expire_loop, claim_found, claim_enqueued, try_claim, claim_loop, claim_run, heartbeat,
  heartbeat_found, is_claimed_by,
}
use movie_reservation_agent.Processing.Transition.{transition_locked-IsSound}

pub get_new_expiration_ts-IsSound : Steps IsSound get_new_expiration_ts
unfolding get_new_expiration_ts
get_new_expiration_ts-IsSound = search sound_rules

expired_at-IsSound : (o : Option Timestamp) → Steps IsSound (expired_at o)
expired_at-IsSound none = search sound_rules
expired_at-IsSound (some zero) = search sound_rules
expired_at-IsSound (some (suc t)) = search sound_rules

pub has_claim_expired-IsSound : (st : RunStatus) → Steps IsSound (has_claim_expired st)
unfolding has_claim_expired
has_claim_expired-IsSound st = expired_at-IsSound st.claim_expiration_unix_ts

set_cancelled_locked-IsSound : (k : Uuid) → Steps IsSound (set_cancelled_locked k)
unfolding set_cancelled_locked
set_cancelled_locked-IsSound k = search (sound_rules, transition_locked-IsSound)

pub set_cancelled-IsSound : (k : Uuid) → Steps IsSound (set_cancelled k)
unfolding set_cancelled
set_cancelled-IsSound k = set_cancelled_locked-IsSound k

pub set_failed-IsSound : (k : Uuid) (error : String) → Steps IsSound (set_failed k error)
unfolding set_failed
set_failed-IsSound k error = search (sound_rules, transition_locked-IsSound)

pub set_succeeded-IsSound : (k : Uuid) (result : Value) → Steps IsSound (set_succeeded k result)
unfolding set_succeeded
set_succeeded-IsSound k result = search (sound_rules, transition_locked-IsSound)

next_retry-IsSound : (o : Option ℕ) → Steps IsSound (next_retry o)
next_retry-IsSound none = search sound_rules
next_retry-IsSound (some n) = search sound_rules

pub recover_expired_runs-IsSound :
    (k : Uuid) (st : RunStatus) (worker : String) → Steps IsSound (recover_expired_runs k st worker)
unfolding recover_expired_runs
recover_expired_runs-IsSound k st worker =
    search (sound_rules, transition_locked-IsSound, next_retry-IsSound)

recover_if-IsSound :
    (b : Bool) (worker : String) (k : Uuid) (st : RunStatus)
    → Steps IsSound (recover_if b worker k st)
unfolding recover_if
recover_if-IsSound false worker k st = search sound_rules
recover_if-IsSound true worker k st = search (sound_rules, recover_expired_runs-IsSound)

pub expire_run-IsSound : (worker : String) (k : Uuid) → Steps IsSound (expire_run worker k)
unfolding expire_run expire_found
expire_run-IsSound worker k =
    search (sound_rules, has_claim_expired-IsSound, recover_if-IsSound) depth 8

pub expire_loop-IsSound : (worker : String) (ks : List Uuid) → Steps IsSound (expire_loop worker ks)
unfolding expire_loop
expire_loop-IsSound worker [] = search sound_rules
expire_loop-IsSound worker (k ∷ ks) =
    bind-IsSound _ _ (expire_run-IsSound worker k) (λ _. expire_loop-IsSound worker ks)

claim_enqueued-IsSound : (worker : String) (k : Uuid) → Steps IsSound (claim_enqueued worker k)
unfolding claim_enqueued
claim_enqueued-IsSound worker k =
    search (sound_rules, transition_locked-IsSound, get_new_expiration_ts-IsSound) depth 7

pub try_claim-IsSound : (worker : String) (k : Uuid) → Steps IsSound (try_claim worker k)
unfolding try_claim claim_found
try_claim-IsSound worker k =
    search (sound_rules, set_cancelled_locked-IsSound, claim_enqueued-IsSound) depth 7

pub claim_loop-IsSound : (worker : String) (ks : List Uuid) → Steps IsSound (claim_loop worker ks)
unfolding claim_loop
claim_loop-IsSound worker [] = pure-IsSound none
claim_loop-IsSound worker (k ∷ ks) =
    bind-IsSound _ _ (try_claim-IsSound worker k)
      (elim [ none ↦ claim_loop-IsSound worker ks | some claim ↦ pure-IsSound (some claim) ])

pub claim_run-IsSound : (worker : String) → Steps IsSound (claim_run worker)
unfolding claim_run
claim_run-IsSound worker = record {
  at = λ s.
      (bind-IsSound _ _ (expire_loop-IsSound worker (keys s.runs))
          (λ _. record { at = λ t. (claim_loop-IsSound worker (keys t.runs)).at t })).at
        s;
}

-- A running run with another lease.
renewed-Evolves :
    (st : RunStatus) (w : String) (t : Timestamp)
    → is_running st.status ≡ true
    → Evolves st
        (record st { status = running; claimed_worker = some w; claim_expiration_unix_ts = some t })
renewed-Evolves st w t run = record {
  same_id = refl;
  path = let e : st.status ≡ running = ground arith in rw e here;
  frozen = λ h. absurd (ground arith);
}

renewed-IsConsistent :
    (st : RunStatus) (w : String) (t : Timestamp)
    → IsConsistent st
    → IsConsistent
        (record st { status = running; claimed_worker = some w; claim_expiration_unix_ts = some t })
renewed-IsConsistent st w t c = ground arith

renew-IsSound :
    (k : Uuid) (worker : String) (st : RunStatus) (s : Runtime)
    → lookup k s.runs ≡ some st
    → is_running st.status ≡ true
    → is_claimed_by worker st.claimed_worker ≡ true
    → IsSound s (heartbeat_found k worker st s).1
unfolding heartbeat_found get_new_expiration_ts put_run
renew-IsSound k worker st s there run own =
    rw (run, own)
      (IsSound-preorder.trans_at s _ _ (read_clock-IsSound.at s) (
        put_run-IsSound k st _ _ (unfold read_clock in there) (renewed-Evolves st worker _ run)
          (renewed-IsConsistent st worker _)))

heartbeat_found-IsSound :
    (k : Uuid) (worker : String) (st : RunStatus) (s : Runtime)
    → lookup k s.runs ≡ some st
    → IsSound s (heartbeat_found k worker st s).1
unfolding heartbeat_found
heartbeat_found-IsSound k worker st s there = elim (Bool-cases (is_running st.status)) [
  | inl run ↦ elim (Bool-cases (is_claimed_by worker st.claimed_worker)) [
    | inl own ↦ renew-IsSound k worker st s there run own
    | inr lost ↦
        rw (run, lost)
          ((bind-IsSound _ _ (append_event-IsSound k _ _) (λ _. raise-IsSound lease_lost)).at s)
  ]
  | inr idle ↦ rw idle (IsSound-preorder.refl_at s)
]

pub heartbeat-IsSound : (k : Uuid) (worker : String) → Steps IsSound (heartbeat k worker)
unfolding heartbeat
heartbeat-IsSound k worker = record {
  at = λ s.
      if_found-IsSound_at k _ _ s (IsSound-preorder.refl_at s)
        (λ st there. heartbeat_found-IsSound k worker st s there);
}
