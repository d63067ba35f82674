-- ===== src/Transitions/Diagram.antt =====
-- The state diagram of a run, and that the policy admits exactly its edges.
use movie_reservation_agent.Prelude.{
  Bool-cases, inl, inr, ◌≡◌, refl, Bool, true, false, arith, if◌then◌else◌, none, some, Option,
  List,
}
use movie_reservation_agent.Exec.{err, ok, invalid_transition}
use movie_reservation_agent.Contracts.{
  RunStatusCode, created, enqueued, running, succeeded, failed, cancelled, timed_out, retrying,
  is_terminal, RunStatus,
}
use movie_reservation_agent.Transitions.{
  validate, default_policy, find_rule, mem_code, default_transition_rules,
}

-- The edges of the life cycle of a run.
infix 40 ◌⟶◌ ◌⟶*◌
pub data ◌⟶◌ : RunStatusCode → RunStatusCode → Type 0 where
  enqueue : created ⟶ enqueued
  drop_created : created ⟶ cancelled
  claim : enqueued ⟶ running
  drop_enqueued : enqueued ⟶ cancelled
  succeed : running ⟶ succeeded
  fail : running ⟶ failed
  stop : running ⟶ cancelled
  lose : running ⟶ timed_out
  retry : timed_out ⟶ retrying
  requeue : retrying ⟶ enqueued

-- Any number of edges.
pub data ◌⟶*◌ (a : RunStatusCode) : RunStatusCode → Type 0 where
  here : a ⟶* a
  next : {b c : RunStatusCode} → a ⟶* b → b ⟶ c → a ⟶* c

pub ⟶*-trans : {a b c : RunStatusCode} → a ⟶* b → b ⟶* c → a ⟶* c
⟶*-trans p here = p
⟶*-trans p (next q e) = next (⟶*-trans p q) e

-- No edge leaves a terminal status.
pub no_edge_from_terminal : {a b : RunStatusCode} → a ⟶ b → is_terminal a ≡ false
no_edge_from_terminal enqueue = refl
no_edge_from_terminal drop_created = refl
no_edge_from_terminal claim = refl
no_edge_from_terminal drop_enqueued = refl
no_edge_from_terminal succeed = refl
no_edge_from_terminal fail = refl
no_edge_from_terminal stop = refl
no_edge_from_terminal lose = refl
no_edge_from_terminal retry = refl
no_edge_from_terminal requeue = refl

-- The edges as a test.
abbrev pub allowed : RunStatusCode → RunStatusCode → Bool
allowed created enqueued = true
allowed created cancelled = true
allowed enqueued running = true
allowed enqueued cancelled = true
allowed running succeeded = true
allowed running failed = true
allowed running cancelled = true
allowed running timed_out = true
allowed timed_out retrying = true
allowed retrying enqueued = true
allowed _ _ = false

⟶-allowed : {a b : RunStatusCode} → a ⟶ b → allowed a b ≡ true
⟶-allowed enqueue = refl
⟶-allowed drop_created = refl
⟶-allowed claim = refl
⟶-allowed drop_enqueued = refl
⟶-allowed succeed = refl
⟶-allowed fail = refl
⟶-allowed stop = refl
⟶-allowed lose = refl
⟶-allowed retry = refl
⟶-allowed requeue = refl

ruleset edges =
    (enqueue, drop_created, claim, drop_enqueued, succeed, fail, stop, lose, retry, requeue)

pub allowed-⟶ : (a b : RunStatusCode) → allowed a b ≡ true → a ⟶ b
allowed-⟶ created enqueued h = enqueue
allowed-⟶ created cancelled h = drop_created
allowed-⟶ enqueued running h = claim
allowed-⟶ enqueued cancelled h = drop_enqueued
allowed-⟶ running succeeded h = succeed
allowed-⟶ running failed h = fail
allowed-⟶ running cancelled h = stop
allowed-⟶ running timed_out h = lose
allowed-⟶ timed_out retrying h = retry
allowed-⟶ retrying enqueued h = requeue
allowed-⟶ _ _ h = cc

-- The table of the policy, read at a pair of statuses.
admits : RunStatusCode → Option (List RunStatusCode) → Bool
admits b none = false
admits b (some targets) = mem_code b targets

admits-allowed :
    (a b : RunStatusCode) → admits b (find_rule a default_transition_rules) ≡ allowed a b
unfolding admits find_rule mem_code
admits-allowed a b = ground arith

pub validate_lem {ℓ} :
    {S : Type ℓ} (st : RunStatus) (target : RunStatusCode) (s : S)
    → validate default_policy st target s
      ≡ (if allowed st.status target then ok tt else err invalid_transition, s)
unfolding validate
validate_lem st target s = ground (arith, admits-allowed st.status target)

-- The policy lets a transition pass where the diagram has an edge, refuses it as an invalid
-- transition where the diagram has none, and changes no state.
pub validate_follows_diagram {ℓ} :
    {S : Type ℓ} (st : RunStatus) (target : RunStatusCode) (s : S)
    → (st.status ⟶ target → validate default_policy st target s ≡ (ok tt, s))
      × (¬ (st.status ⟶ target) → validate default_policy st target s ≡ (err invalid_transition, s))
validate_follows_diagram st target s = (
  λ edge. rw (validate_lem, ⟶-allowed edge) refl,
  λ no_edge. elim (Bool-cases (allowed st.status target)) [
    | inl drawn ↦ absurd (no_edge (allowed-⟶ st.status target drawn))
    | inr undrawn ↦ rw (validate_lem, undrawn) refl
  ],
)
