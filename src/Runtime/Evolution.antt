-- ===== src/Runtime/Evolution.antt =====
-- What no method of either store may break: the well-formedness of the storage, and how a run and
-- its events may change from one state to a later one.
use movie_reservation_agent.Prelude.{
  ℕ, suc, String, ◌≡◌, refl, ◌∙◌, Bool, true, false, Option, none, some, List, arith, is_some,
  Option-cases, Bool-cases, inl, inr, ◌==◌, if◌then◌else◌,
}
use movie_reservation_agent.Exec.{Exn, Exec, pure, raise, ◌>>=◌}
use movie_reservation_agent.Exec.Steps.{
  Preorder, Steps, Steps-bind, Steps-pure, Steps-raise, Steps-if,
}
use movie_reservation_agent.Dict.{Uuid, lookup, insert, lookup-insert}
use movie_reservation_agent.Contracts.{
  Timestamp, Payload, RunStatus, RunEvent, running, succeeded, failed, is_terminal,
}
use movie_reservation_agent.Transitions.Diagram.{◌⟶*◌, here, ⟶*-trans}
use movie_reservation_agent.EventLog.{EventLog}
use movie_reservation_agent.EventLog.Numbering.{
  append-IsValid, Extends, Extends-refl, Extends-trans, append-Extends,
}
use movie_reservation_agent.EventLog.Numbering
use movie_reservation_agent.Runtime.{
  Runtime, create_default_in_memory_runtime, read_clock, select, if_found, put_run, append_event,
  notify, finish_wait,
}

-- The fields of a run agree with its status.
pub record IsConsistent (st : RunStatus) : Type 0 where
  pub owned : st.status ≡ running → is_some st.claimed_worker ≡ true
  pub leased : st.status ≡ running → is_some st.claim_expiration_unix_ts ≡ true
  pub has_result : st.status ≡ succeeded → is_some st.result ≡ true
  pub has_error : st.status ≡ failed → is_some st.error ≡ true
  pub counted : is_some st.retry_count ≡ true

-- A run is stored under its own id, is consistent, and has an event stream.
abbrev pub IsValidRun : Uuid → Option RunStatus → Option (List RunEvent) → Type 0
IsValidRun k none events = Unit
IsValidRun k (some st) events = (st.id ≡ k) × IsConsistent st × (is_some events ≡ true)

pub record IsValid (s : Runtime) : Type 0 where
  pub log : Numbering.IsValid s.event_log
  pub run : (k : Uuid) → IsValidRun k (lookup k s.runs) (lookup k s.event_log.internal_run_events)

-- How one run may change: its id stays, its status follows the diagram, and once it is terminal
-- nothing about it changes any more.
pub record Evolves (st st' : RunStatus) : Type 0 where
  pub same_id : st'.id ≡ st.id
  pub path : st.status ⟶* st'.status
  pub frozen : is_terminal st.status ≡ true → st' ≡ st

pub Evolves-refl : (st : RunStatus) → Evolves st st
Evolves-refl st = record { same_id = refl; path = here; frozen = λ h. refl }

pub Evolves-trans : (a b c : RunStatus) → Evolves a b → Evolves b c → Evolves a c
Evolves-trans a b c p q = record {
  same_id = q.same_id ∙ p.same_id;
  path = ⟶*-trans p.path q.path;
  frozen = λ h. let e = p.frozen h in q.frozen (rw e h) ∙ e;
}

-- From `a` to `b` no run is lost, every run evolves, every stream grows, what the clock is to
-- show in `b` it was to show in `a`, and validity is kept.
pub record IsSound (a b : Runtime) : Type 0 where
  pub run :
      (k : Uuid) (st : RunStatus)
      → lookup k a.runs ≡ some st
      → (st' : RunStatus) × (lookup k b.runs ≡ some st') × Evolves st st'
  pub log : Extends a.event_log b.event_log
  pub readings : (n : ℕ) → (m : ℕ) × (b.clock n ≡ a.clock m)
  pub valid : IsValid a → IsValid b

pub IsSound-preorder : Preorder IsSound
IsSound-preorder = record {
  refl_at = λ a. record {
    run = λ k st h. (st, h, Evolves-refl st);
    log = Extends-refl a.event_log;
    readings = λ n. (n, refl);
    valid = λ v. v;
  };
  trans_at = λ a b c p q. record {
    run = λ k st h.
        let (st', h', e) = p.run k st h in
        let (st'', h'', e') = q.run k st' h' in (st'', h'', Evolves-trans st st' st'' e e');
    log = Extends-trans a.event_log b.event_log c.event_log p.log q.log;
    readings = λ n. let (m, e) = q.readings n in let (l, e') = p.readings m in (l, e ∙ e');
    valid = λ v. q.valid (p.valid v);
  };
}

-- The empty runtime is valid.
pub create_default_in_memory_runtime-IsValid :
    (clock : ℕ → Timestamp) → IsValid (create_default_in_memory_runtime clock)
unfolding lookup
create_default_in_memory_runtime-IsValid clock = record {
  log = Numbering.empty_log-IsValid;
  run = λ k. tt;
}

-- A state that differs in its clock or its signal only.
pub same_storage-IsSound :
    (a b : Runtime)
    → b.runs ≡ a.runs
    → b.event_log ≡ a.event_log
    → ((n : ℕ) → (m : ℕ) × (b.clock n ≡ a.clock m))
    → IsSound a b
same_storage-IsSound a b hr hl hc = record {
  run = λ k st h. (st, rw hr h, Evolves-refl st);
  log = rw hl (Extends-refl a.event_log);
  readings = hc;
  valid = λ v. record { log = rw hl v.log; run = λ k. rw (hr, hl) (v.run k) };
}

pub read_clock-IsSound : Steps IsSound read_clock
unfolding read_clock
read_clock-IsSound = record { at = λ s. same_storage-IsSound s _ refl refl (λ n. (suc n, refl)) }

pub notify-IsSound : Steps IsSound notify
unfolding notify
notify-IsSound = record { at = λ s. same_storage-IsSound s _ refl refl (λ n. (n, refl)) }

pub finish_wait-IsSound : Steps IsSound finish_wait
unfolding finish_wait
finish_wait-IsSound = record { at = λ s. same_storage-IsSound s _ refl refl (λ n. (n, refl)) }

-- A stream that is there stays there when the log grows.
Extends-is_some :
    (k : Uuid) (a b : EventLog)
    → Extends a b
    → is_some (lookup k a.internal_run_events) ≡ true
    → is_some (lookup k b.internal_run_events) ≡ true
Extends-is_some k a b ext h = elim (Option-cases (lookup k a.internal_run_events)) [
  | inl absent ↦ absurd (ground (arith, absent))
  | inr (es, found) ↦ rw (ext.stream k es found).1 refl
]

pub IsValidRun-Extends :
    (k : Uuid) (o : Option RunStatus) (a b : EventLog)
    → Extends a b
    → IsValidRun k o (lookup k a.internal_run_events)
    → IsValidRun k o (lookup k b.internal_run_events)
IsValidRun-Extends k none a b ext h = tt
IsValidRun-Extends k (some st) a b ext h = (h.0, h.1, Extends-is_some k a b ext h.2)

pub append_event-IsSound :
    (k : Uuid) (ty : String) (p : Payload) → Steps IsSound (append_event k ty p)
unfolding append_event
append_event-IsSound k ty p = record {
  at = λ s.
      let ext = append-Extends k ty p (s.clock 0) s.event_log in
      record {
        run = λ j st h. (st, h, Evolves-refl st);
        log = ext;
        readings = λ n. (suc n, refl);
        valid = λ v. record {
          log = append-IsValid k ty p (s.clock 0) s.event_log v.log;
          run = λ j. IsValidRun-Extends j (lookup j s.runs) s.event_log _ ext (v.run j);
        };
      };
}

put_run-IsValidRun :
    (k : Uuid) (st st' : RunStatus) (s : Runtime)
    → lookup k s.runs ≡ some st
    → Evolves st st'
    → (IsConsistent st → IsConsistent st')
    → IsValid s
    → (j : Uuid)
    → IsValidRun j (lookup j (insert k st' s.runs)) (lookup j s.event_log.internal_run_events)
put_run-IsValidRun k st st' s found ev keep v j = elim (Bool-cases (k == j)) [
  | inl same ↦
      let kj : k ≡ j = ground arith in
      let before : IsValidRun k (some st) (lookup k s.event_log.internal_run_events) =
        rw found at (v.run k) in
      let after : IsValidRun k (some st') (lookup k s.event_log.internal_run_events) =
        (ev.same_id ∙ before.0, keep before.1, before.2) in
      rw (lookup-insert, same) (rw kj at after)
  | inr other ↦ rw (lookup-insert, other) (v.run j)
]

-- Overwriting a run by one that it may become.
pub put_run-IsSound :
    (k : Uuid) (st st' : RunStatus) (s : Runtime)
    → lookup k s.runs ≡ some st
    → Evolves st st'
    → (IsConsistent st → IsConsistent st')
    → IsSound s (put_run k st' s).1
unfolding put_run
put_run-IsSound k st st' s found ev keep = record {
  run = λ j sj h. elim (Bool-cases (k == j)) [
    | inl same ↦
        let same_run : sj ≡ st = ground (arith, found, h) in
        (st', ground (arith, lookup-insert k j st' s.runs), rw same_run ev)
    | inr other ↦ (sj, ground (arith, lookup-insert k j st' s.runs), Evolves-refl sj)
  ];
  log = Extends-refl s.event_log;
  readings = λ n. (n, refl);
  valid = λ v. record { log = v.log; run = put_run-IsValidRun k st st' s found ev keep v };
}

module _ {A : Type 0} (k : Uuid) (missing : Exec Runtime A)
    (found : RunStatus → Exec Runtime A) where
  -- A method that looks a run up: each branch may use what the lookup gave.
  pub if_found-IsSound_at :
      (s : Runtime)
      → IsSound s (missing s).1
      → ((st : RunStatus) → lookup k s.runs ≡ some st → IsSound s (found st s).1)
      → IsSound s (if_found k missing found s).1
  if_found-IsSound_at s hm hf = elim (Option-cases (lookup k s.runs)) [
    | inl absent ↦ rw (absent, select) hm
    | inr (st, there) ↦ rw (there, select) (hf st there)
  ]

  pub if_found-IsSound :
      Steps IsSound missing
      → ((st : RunStatus) → Steps IsSound (found st))
      → Steps IsSound (if_found k missing found)
  if_found-IsSound hm hf = record {
    at = λ s. if_found-IsSound_at s (hm.at s) (λ st there. (hf st).at s);
  }

-- The rules for the ways to build a method.
module _ {A : Type 0} where
  pub pure-IsSound : (a : A) → Steps IsSound (pure a)
  pure-IsSound = Steps-pure IsSound-preorder

  pub raise-IsSound : (e : Exn) → Steps IsSound (raise {A = A} e)
  raise-IsSound = Steps-raise IsSound-preorder

  pub if-IsSound :
      (b : Bool) (m n : Exec Runtime A)
      → (b ≡ true → Steps IsSound m)
      → (b ≡ false → Steps IsSound n)
      → Steps IsSound (if b then m else n)
  if-IsSound = Steps-if IsSound-preorder

pub bind-IsSound :
    {A B : Type 0} (m : Exec Runtime A) (f : A → Exec Runtime B)
    → Steps IsSound m
    → ((a : A) → Steps IsSound (f a))
    → Steps IsSound (m >>= f)
bind-IsSound = Steps-bind IsSound-preorder

pub ruleset sound_rules = (
  pure-IsSound, raise-IsSound, if-IsSound, bind-IsSound, if_found-IsSound, read_clock-IsSound,
  append_event-IsSound,
)
