-- ===== src/Transitions.antt =====
-- Which status may follow which: llm_agent/llm_agent/domain/agent/runs/transition_rules.py,
-- transition_request.py beside it, and RunTransitionPolicy of
-- llm_agent/llm_agent/services/agent/transition_policy.py.
pub mod Diagram
use movie_reservation_agent.Prelude.{
  ℕ, String, Bool, true, false, ◌||◌, Option, none, some, List, [], ◌∷◌, ◌==◌, if◌then◌else◌,
}
use movie_reservation_agent.Exec.{Exec, err, ok, unknown_status, invalid_transition}
use movie_reservation_agent.Value.{Value}
use movie_reservation_agent.Contracts.{
  RunStatusCode, created, enqueued, running, succeeded, failed, cancelled, timed_out, retrying,
  code_value, Timestamp, RunStatus,
}

-- `a == b` on status codes.
abbrev pub code_eq : RunStatusCode → RunStatusCode → Bool
code_eq a b = code_value a == code_value b

-- `dict[RunStatusCode, tuple[RunStatusCode]]`
abbrev pub TransitionRules : Type 0
TransitionRules = List (RunStatusCode × List RunStatusCode)

-- `DEFAULT_TRANSITION_RULES`
abbrev pub default_transition_rules : TransitionRules
default_transition_rules =
    (created, enqueued ∷ cancelled ∷ [])
    ∷ (enqueued, running ∷ cancelled ∷ [])
    ∷ (running, succeeded ∷ failed ∷ cancelled ∷ timed_out ∷ [])
    ∷ (succeeded, [])
    ∷ (failed, [])
    ∷ (cancelled, [])
    ∷ (timed_out, retrying ∷ [])
    ∷ (retrying, enqueued ∷ [])
    ∷ []

pub record RunTransitionPolicy : Type 0 where
  pub transition_rules : TransitionRules

-- `RunTransitionPolicy.__init__`: no rules and empty rules both mean the default ones.
abbrev pub create_policy : Option TransitionRules → RunTransitionPolicy
create_policy none = record { transition_rules = default_transition_rules }
create_policy (some []) = record { transition_rules = default_transition_rules }
create_policy (some (r ∷ rs)) = record { transition_rules = r ∷ rs }

-- `RunTransitionPolicy()`
abbrev pub default_policy : RunTransitionPolicy
default_policy = create_policy none

-- `transition_rules.get(code)`
unfoldable pub find_rule : RunStatusCode → TransitionRules → Option (List RunStatusCode)
find_rule c [] = none
find_rule c ((d, targets) ∷ rules) = if code_eq d c then some targets else find_rule c rules

-- `code in targets`
unfoldable pub mem_code : RunStatusCode → List RunStatusCode → Bool
mem_code c [] = false
mem_code c (d ∷ ds) = code_eq d c || mem_code c ds

abbrev check_target {ℓ} :
    {S : Type ℓ} → RunStatusCode → Option (List RunStatusCode) → Exec S (Unit {0})
check_target target none s = (err unknown_status, s)
check_target target (some targets) s =
    (if mem_code target targets then ok tt else err invalid_transition, s)

-- `RunTransitionPolicy.validate`
unfoldable pub validate {ℓ} :
    {S : Type ℓ} → RunTransitionPolicy → RunStatus → RunStatusCode → Exec S (Unit {0})
unfolding find_rule mem_code
validate policy run_status new_status =
    check_target new_status (find_rule run_status.status policy.transition_rules)

-- A field of `TransitionRequestParams`: `UNSET_FIELD` or a value, which may be `None`.
pub data Requested (A : Type 0) : Type 0 where
  unset : Requested A
  value : Option A → Requested A

-- `TransitionRequestParams`
pub record TransitionRequestParams : Type 0 where
  pub result : Requested Value
  pub error : Requested String
  pub worker_id : Requested String
  pub retry_count : Requested ℕ
  pub expiration_unix_ts : Requested Timestamp

-- `TransitionRequestParams()`
abbrev pub no_changes : TransitionRequestParams
no_changes = record {
  result = unset;
  error = unset;
  worker_id = unset;
  retry_count = unset;
  expiration_unix_ts = unset;
}

-- `get_value_or_fallback`
abbrev pub get_value_or_fallback : {A : Type 0} → Requested A → Option A → Option A
get_value_or_fallback unset fallback = fallback
get_value_or_fallback (value v) fallback = v
