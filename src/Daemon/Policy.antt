-- ===== src/Daemon/Policy.antt =====
-- crates/unlinger-daemon/src/public_action_policy.rs: which ordinary action is allowed.
pub mod Allowed
use unlinger.Prelude.{ℕ, Bool, true, false, not, Option, none, some, String, if◌then◌else◌}

-- `OrdinaryMutation` of store.rs.
pub data OrdinaryMutation : Type 0 where
  pause : ℕ → OrdinaryMutation
  resume : OrdinaryMutation
  retry_failed_cleanup protect_incident unprotect_incident : String → OrdinaryMutation

pub record RuntimePolicyFacts : Type 0 where
  pub draining : Bool
  pub failed : Bool

pub record StorePolicyFacts : Type 0 where
  pub paused : Bool
  pub cleanup_blocked : Bool
  pub incident_observed : Bool
  pub incident_protected : Bool

pub data PolicyDecision : Type 0 where
  allow : PolicyDecision
  no_change reject : String → PolicyDecision

abbrev pub unavailable_reason : PolicyDecision → Option String
unavailable_reason allow = none
unavailable_reason (no_change reason_id) = some reason_id
unavailable_reason (reject reason_id) = some reason_id

-- The `match` of `evaluate_action`.
abbrev pub evaluate_mutation : StorePolicyFacts → OrdinaryMutation → PolicyDecision
evaluate_mutation facts (pause duration_millis) = allow
evaluate_mutation facts resume = if facts.paused then allow else no_change "action.not_paused"
evaluate_mutation facts (retry_failed_cleanup incident_id) =
    if facts.cleanup_blocked then allow else reject "action.no_blocked_cleanup"
evaluate_mutation facts (protect_incident incident_id) =
    if not facts.incident_observed
    then reject "action.incident_not_observed"
    else if facts.incident_protected
    then no_change "action.already_protected"
    else allow
evaluate_mutation facts (unprotect_incident incident_id) =
    if facts.incident_protected then allow else no_change "action.not_protected"

unfoldable pub evaluate_action :
    RuntimePolicyFacts → StorePolicyFacts → OrdinaryMutation → PolicyDecision
evaluate_action runtime facts mutation =
    if runtime.draining
    then reject "action.daemon_draining"
    else if runtime.failed
    then reject "action.daemon_failed"
    else evaluate_mutation facts mutation
