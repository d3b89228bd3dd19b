-- ===== src/Daemon/Policy/Allowed.antt =====
-- crates/unlinger-daemon/src/public_action_policy.rs: exactly when an action is allowed.
use unlinger.Prelude.{◌≡◌, ◌↔◌, refl, Bool, true, false, not, if◌then◌else◌}
use unlinger.Daemon.Policy.{
  OrdinaryMutation, pause, resume, retry_failed_cleanup, protect_incident, unprotect_incident,
  RuntimePolicyFacts, StorePolicyFacts, PolicyDecision, allow, no_change, reject, evaluate_action,
  evaluate_mutation,
}

-- What the stored facts have to be for an action to change something.
abbrev pub IsApplicable : StorePolicyFacts → OrdinaryMutation → Type 0
IsApplicable facts (pause duration_millis) = Unit
IsApplicable facts resume = facts.paused ≡ true
IsApplicable facts (retry_failed_cleanup incident_id) = facts.cleanup_blocked ≡ true
IsApplicable facts (protect_incident incident_id) =
    (facts.incident_observed ≡ true) × (facts.incident_protected ≡ false)
IsApplicable facts (unprotect_incident incident_id) = facts.incident_protected ≡ true

test_allowed :
    (b : Bool) (d : PolicyDecision)
    → (d ≡ allow → ⊥)
    → ((if b then allow else d) ≡ allow) ↔ (b ≡ true)
test_allowed true d other = ((λ e. refl), (λ e. refl))
test_allowed false d other = ((λ e. absurd (other e)), (λ e. absurd (cc)))

protect_allowed :
    (seen kept : Bool)
    → ((if not seen
          then reject "action.incident_not_observed"
          else if kept
          then no_change "action.already_protected"
          else allow)
        ≡ allow)
      ↔ ((seen ≡ true) × (kept ≡ false))
protect_allowed true true = ((λ e. absurd (cc)), (λ e. absurd (cc)))
protect_allowed true false = ((λ e. (refl, refl)), (λ e. refl))
protect_allowed false kept = ((λ e. absurd (cc)), (λ e. absurd (cc)))

mutation_allowed :
    (facts : StorePolicyFacts) (m : OrdinaryMutation)
    → (evaluate_mutation facts m ≡ allow) ↔ IsApplicable facts m
mutation_allowed facts (pause d) = ((λ e. tt), (λ e. refl))
mutation_allowed facts resume = test_allowed facts.paused (no_change "action.not_paused") (λ e. cc)
mutation_allowed facts (retry_failed_cleanup i) =
    test_allowed facts.cleanup_blocked (reject "action.no_blocked_cleanup") (λ e. cc)
mutation_allowed facts (protect_incident i) =
    protect_allowed facts.incident_observed facts.incident_protected
mutation_allowed facts (unprotect_incident i) =
    test_allowed facts.incident_protected (no_change "action.not_protected") (λ e. cc)

runtime_allowed :
    (draining failed : Bool) (d : PolicyDecision)
    → ((if draining
          then reject "action.daemon_draining"
          else if failed
          then reject "action.daemon_failed"
          else d)
        ≡ allow)
      ↔ ((draining ≡ false) × (failed ≡ false) × (d ≡ allow))
runtime_allowed true failed d = ((λ e. absurd (cc)), (λ e. absurd (cc)))
runtime_allowed false true d = ((λ e. absurd (cc)), (λ e. absurd (cc)))
runtime_allowed false false d = ((λ e. (refl, refl, e)), (λ e. e.2))

-- An action is allowed exactly if the daemon neither drains nor has failed and the action would change
-- something: a pause always, a resume while paused, a retry of a blocked cleanup, a protection of an
-- incident that is observed and not protected, the removal of a protection that there is.
pub evaluate_action_allow_iff :
    (runtime : RuntimePolicyFacts) (facts : StorePolicyFacts) (m : OrdinaryMutation)
    → (evaluate_action runtime facts m ≡ allow)
      ↔ ((runtime.draining ≡ false) × (runtime.failed ≡ false) × IsApplicable facts m)
unfolding evaluate_action
evaluate_action_allow_iff runtime facts m =
    let run = runtime_allowed runtime.draining runtime.failed (evaluate_mutation facts m) in
    let change = mutation_allowed facts m in
    ((λ e. let (d, f, a) = run.0 e in (d, f, change.0 a)), (λ e. run.1 (e.0, e.1, change.1 e.2)))
