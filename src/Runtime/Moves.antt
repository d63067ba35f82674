-- ===== src/Runtime/Moves.antt =====
-- How the status of a run may move while a method is called, edge by edge.
use movie_reservation_agent.Prelude.{
  String, ◌≡◌, refl, Bool, true, false, some, arith, Bool-cases, inl, inr, ◌==◌, if◌then◌else◌,
}
use movie_reservation_agent.Exec.{Exn, Exec, pure, raise, ◌>>=◌}
use movie_reservation_agent.Exec.Steps.{
  Preorder, Steps, Steps-bind, Steps-pure, Steps-raise, Steps-if,
}
use movie_reservation_agent.Dict.{Uuid, lookup, lookup-insert}
use movie_reservation_agent.Contracts.{
  Payload, RunStatus, RunStatusCode, created, enqueued, running, cancelled, timed_out, retrying,
}
use movie_reservation_agent.Transitions.Diagram.{
  ◌⟶◌, enqueue, drop_created, claim, drop_enqueued, succeed, fail, stop, lose, retry, requeue,
}
use movie_reservation_agent.Runtime.{Runtime, read_clock, put_run, append_event}
use movie_reservation_agent.Runtime.Others.{Steps-if_found}

-- Nothing, or one edge to `t`.
pub data To (t : RunStatusCode) (a : RunStatusCode) : RunStatusCode → Type 0 where
  kept : To t a a
  moved : a ⟶ t → To t a t

no_loop : {a b : RunStatusCode} → a ⟶ b → a ≡ b → ⊥
no_loop enqueue e = cc e
no_loop drop_created e = cc e
no_loop claim e = cc e
no_loop drop_enqueued e = cc e
no_loop succeed e = cc e
no_loop fail e = cc e
no_loop stop e = cc e
no_loop lose e = cc e
no_loop retry e = cc e
no_loop requeue e = cc e

To-trans : {t a b c : RunStatusCode} → To t a b → To t b c → To t a c
To-trans p kept = p
To-trans kept (moved e) = moved e
To-trans (moved e) (moved d) = absurd (no_loop d refl)

pub To-preorder : (t : RunStatusCode) → Preorder (To t)
To-preorder t = record { refl_at = λ a. kept; trans_at = λ a b c p q. To-trans p q }

-- What the recovery of a lost run does: edges from RUNNING by way of TIMED_OUT and RETRYING to
-- ENQUEUED.
pub data Recovers (a : RunStatusCode) : RunStatusCode → Type 0 where
  unlost : Recovers a a
  lost : Recovers a running → Recovers a timed_out
  retried : Recovers a timed_out → Recovers a retrying
  requeued : Recovers a retrying → Recovers a enqueued

Recovers-trans : {a b c : RunStatusCode} → Recovers a b → Recovers b c → Recovers a c
Recovers-trans p unlost = p
Recovers-trans p (lost q) = lost (Recovers-trans p q)
Recovers-trans p (retried q) = retried (Recovers-trans p q)
Recovers-trans p (requeued q) = requeued (Recovers-trans p q)

pub Recovers-preorder : Preorder Recovers
Recovers-preorder = record { refl_at = λ a. unlost; trans_at = λ a b c p q. Recovers-trans p q }

-- The same with the edge from CREATED to ENQUEUED.
pub data Pulled (a : RunStatusCode) : RunStatusCode → Type 0 where
  unpulled : Pulled a a
  by_loss : Pulled a running → Pulled a timed_out
  by_retry : Pulled a timed_out → Pulled a retrying
  by_requeue : Pulled a retrying → Pulled a enqueued
  by_enqueue : Pulled a created → Pulled a enqueued

Pulled-trans : {a b c : RunStatusCode} → Pulled a b → Pulled b c → Pulled a c
Pulled-trans p unpulled = p
Pulled-trans p (by_loss q) = by_loss (Pulled-trans p q)
Pulled-trans p (by_retry q) = by_retry (Pulled-trans p q)
Pulled-trans p (by_requeue q) = by_requeue (Pulled-trans p q)
Pulled-trans p (by_enqueue q) = by_enqueue (Pulled-trans p q)

pub Pulled-preorder : Preorder Pulled
Pulled-preorder = record { refl_at = λ a. unpulled; trans_at = λ a b c p q. Pulled-trans p q }

abbrev pub is_pulled : RunStatusCode → Bool
is_pulled timed_out = true
is_pulled retrying = true
is_pulled enqueued = true
is_pulled _ = false

pub edge-Pulled : {a b : RunStatusCode} → a ⟶ b → is_pulled b ≡ true → Pulled a b
edge-Pulled enqueue h = by_enqueue unpulled
edge-Pulled drop_created h = absurd (cc h)
edge-Pulled claim h = absurd (cc h)
edge-Pulled drop_enqueued h = absurd (cc h)
edge-Pulled succeed h = absurd (cc h)
edge-Pulled fail h = absurd (cc h)
edge-Pulled stop h = absurd (cc h)
edge-Pulled lose h = by_loss unpulled
edge-Pulled retry h = by_retry unpulled
edge-Pulled requeue h = by_requeue unpulled

-- From RUNNING the edge from CREATED is out of reach.
pub Pulled-Recovers :
    {b : RunStatusCode} → Pulled running b → Recovers running b × (b ≡ created → ⊥)
Pulled-Recovers unpulled = (unlost, λ e. cc e)
Pulled-Recovers (by_loss p) = (lost (Pulled-Recovers p).0, λ e. cc e)
Pulled-Recovers (by_retry p) = (retried (Pulled-Recovers p).0, λ e. cc e)
Pulled-Recovers (by_requeue p) = (requeued (Pulled-Recovers p).0, λ e. cc e)
Pulled-Recovers (by_enqueue p) = absurd ((Pulled-Recovers p).1 refl)

-- What a look at a run does for a claim: only an ENQUEUED run moves.
pub data Taken (a : RunStatusCode) : RunStatusCode → Type 0 where
  untaken : Taken a a
  claimed : a ≡ enqueued → Taken a running
  dropped : a ≡ enqueued → Taken a cancelled

Taken-trans : {a b c : RunStatusCode} → Taken a b → Taken b c → Taken a c
Taken-trans p untaken = p
Taken-trans untaken q = q
Taken-trans (claimed h) (claimed e) = absurd (cc e)
Taken-trans (claimed h) (dropped e) = absurd (cc e)
Taken-trans (dropped h) (claimed e) = absurd (cc e)
Taken-trans (dropped h) (dropped e) = absurd (cc e)

pub Taken-preorder : Preorder Taken
Taken-preorder = record { refl_at = λ a. untaken; trans_at = λ a b c p q. Taken-trans p q }

-- No run is lost, and the status of every run moves as `M` allows.
pub record Moved (M : RunStatusCode → RunStatusCode → Type 0) (a b : Runtime) : Type 0 where
  pub run :
      (k : Uuid) (st : RunStatus)
      → lookup k a.runs ≡ some st
      → (st' : RunStatus) × (lookup k b.runs ≡ some st') × M st.status st'.status

module _ {M : RunStatusCode → RunStatusCode → Type 0} (o : Preorder M) where
  pub same_runs-Moved : {a b : Runtime} → b.runs ≡ a.runs → Moved M a b
  same_runs-Moved e = record { run = λ k st h. (st, rw e h, o.refl_at st.status) }

  pub Moved-preorder : Preorder (Moved M)
  Moved-preorder = record {
    refl_at = λ a. same_runs-Moved refl;
    trans_at = λ a b c p q. record {
      run = λ k st h.
          let (st', h', e) = p.run k st h in
          let (st'', h'', e') = q.run k st' h' in
          (st'', h'', o.trans_at st.status st'.status st''.status e e');
    };
  }

  pub put_run-Moved :
      (k : Uuid) (st st' : RunStatus) (s : Runtime)
      → lookup k s.runs ≡ some st
      → M st.status st'.status
      → Moved M s (put_run k st' s).1
  unfolding put_run
  put_run-Moved k st st' s found m = record {
    run = λ j sj h. elim (Bool-cases (k == j)) [
      | inl same ↦
          let same_run : sj ≡ st = ground (arith, found, h) in
          (st', ground (arith, lookup-insert k j st' s.runs), rw same_run m)
      | inr other ↦ (sj, ground (arith, lookup-insert k j st' s.runs), o.refl_at sj.status)
    ];
  }

  pub read_clock-Moved : Steps (Moved M) read_clock
  unfolding read_clock
  read_clock-Moved = record { at = λ s. same_runs-Moved refl }

  pub append_event-Moved :
      (k : Uuid) (ty : String) (p : Payload) → Steps (Moved M) (append_event k ty p)
  unfolding append_event
  append_event-Moved k ty p = record { at = λ s. same_runs-Moved refl }

  pub pure-Moved : {A : Type 0} (a : A) → Steps (Moved M) (pure a)
  pure-Moved = Steps-pure Moved-preorder

  pub raise-Moved : {A : Type 0} (e : Exn) → Steps (Moved M) (raise {A = A} e)
  raise-Moved = Steps-raise Moved-preorder

  pub if-Moved :
      {A : Type 0} (b : Bool) (m n : Exec Runtime A)
      → (b ≡ true → Steps (Moved M) m)
      → (b ≡ false → Steps (Moved M) n)
      → Steps (Moved M) (if b then m else n)
  if-Moved = Steps-if Moved-preorder

  pub bind-Moved :
      {A B : Type 0} (m : Exec Runtime A) (f : A → Exec Runtime B)
      → Steps (Moved M) m
      → ((a : A) → Steps (Moved M) (f a))
      → Steps (Moved M) (m >>= f)
  bind-Moved = Steps-bind Moved-preorder

pub ruleset moved_rules = (
  Steps-if_found, read_clock-Moved, append_event-Moved, pure-Moved, raise-Moved, if-Moved,
  bind-Moved, To-preorder, Pulled-preorder, Recovers-preorder, Taken-preorder,
)
