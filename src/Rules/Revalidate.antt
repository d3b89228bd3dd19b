-- ===== src/Rules/Revalidate.antt =====
-- crates/unlinger-rules/src/lib.rs: `IncidentRevalidator for Analyzer`, the opinion on a frozen plan
-- that the cleanup executor asks for.
pub mod Frozen
pub mod Complete
pub mod Eligible
pub mod Gone
use unlinger.Prelude.{
  ℕ, ◌+◌, ◌==◌, Bool, true, false, ◌&&◌, ◌||◌, not, Option, none, some, List, [], ◌∷◌, String,
  str_eq, any, find, keep, is_empty, is_some, length, contains, contains_key, get, Map, Result, ok,
  err, map, saturating_add, if◌then◌else◌,
}
use unlinger.Core.Model.{
  ProcessIdentity, ProcessRecord, Snapshot, pid_of, exact_match, has_complete_classification_facts,
}
use unlinger.Core.State.{cooling, state_eq}
use unlinger.Core.Evidence.{IncidentReport, ProcessTarget}
use unlinger.Core.Cleanup.Plan.{CleanupPlan}
use unlinger.Core.Cleanup.Runtime.{
  Revalidation, RevalidationPhase, RevalidationStatus, before_signal, blocked, eligible, gone,
  revival_check, revived,
}
use unlinger.Core.Cleanup.Liveness.{target_identities}
use unlinger.Rules.Pack.{RuleError, SignaturePack}
use unlinger.Rules.Matching.{is_browser_root, matches_controller}
use unlinger.Rules.Ownership.{Analyzer}
use unlinger.Rules.Classify.{is_here}
use unlinger.Rules.Observe.{observe}

-- The table does not hold every process that was listed.
abbrev pub coverage_incomplete : Snapshot → Bool
coverage_incomplete s =
    not (s.coverage.unreadable_processes == 0)
    || not (
        s.coverage.listed_processes
        == saturating_add s.coverage.inspected_processes s.coverage.unreadable_processes)
    || not (length s.processes == s.coverage.inspected_processes)

abbrev option_is : Option ℕ → Option ℕ → Bool
option_is (some a) (some b) = a == b
option_is _ _ = false

-- A target was started from the executable of the process.
abbrev pub same_executable : ProcessRecord → ProcessTarget → Bool
same_executable p t =
    option_is p.identity.executable_device t.identity.executable_device
    && option_is p.identity.executable_inode t.identity.executable_inode

-- The test of a process whose facts are not complete: whether it may belong to the plan.
unfoldable pub is_relevant : CleanupPlan → SignaturePack → ProcessRecord → Bool
unfolding matches_controller is_browser_root
is_relevant plan pack p =
    any (λ t. t.identity.pid == pid_of p) plan.targets
    || not (p.process_group_id == 0)
      && any (λ t. t.process_group_id == p.process_group_id) plan.targets
    || any (same_executable p) plan.targets
    || matches_controller p pack
    || is_browser_root p pack

abbrev pub pack_of : Analyzer → CleanupPlan → Option SignaturePack
pack_of a plan =
    find (λ p. str_eq p.id plan.signature_pack && str_eq p.version plan.signature_version) a.packs

abbrev pub no_pack_or : (SignaturePack → Bool) → Option SignaturePack → Bool
no_pack_or f none = true
no_pack_or f (some pack) = f pack

unfoldable pub revalidation_facts_incomplete : Analyzer → Snapshot → CleanupPlan → Bool
unfolding has_complete_classification_facts is_relevant
revalidation_facts_incomplete a snapshot plan =
    coverage_incomplete snapshot
    || no_pack_or
        (λ pack.
          any (λ p. not (has_complete_classification_facts p) && is_relevant plan pack p)
            snapshot.processes)
        (pack_of a plan)

abbrev answer : RevalidationStatus → String → Revalidation
answer status reason = record { status = status; reason_id = reason }

abbrev pub identities : CleanupPlan → Map ProcessIdentity
identities plan = target_identities [] plan.targets

-- The plan holds this very identity.
unfoldable pub is_frozen : CleanupPlan → ProcessIdentity → Bool
unfolding target_identities get exact_match
is_frozen plan i = is_here (λ identity. exact_match identity i) (get i.pid (identities plan))

unfoldable pub current_targets : CleanupPlan → Snapshot → List ProcessRecord
unfolding target_identities get
current_targets plan snapshot =
    keep (λ p. contains_key (pid_of p) (identities plan)) snapshot.processes

unfoldable pub matching_reports : CleanupPlan → List IncidentReport → List IncidentReport
matching_reports plan = keep (λ r. str_eq r.session_fingerprint plan.session_fingerprint)

-- A target that is itself protected, whatever its session.
unfoldable pub is_protected_target : Analyzer → Snapshot → ProcessRecord → Bool
unfolding has_complete_classification_facts
is_protected_target a snapshot p =
    p.uid == 0
    || not (p.uid == snapshot.current_uid)
    || not (has_complete_classification_facts p)
    || is_here (λ self. self == pid_of p) a.context.self_pid
    || contains a.context.ancestor_pids (pid_of p)

-- A report of another session that holds a frozen target.
unfoldable pub overlaps : CleanupPlan → IncidentReport → Bool
unfolding is_frozen
overlaps plan r =
    not (str_eq r.session_fingerprint plan.session_fingerprint)
    && any (λ t. is_frozen plan t.identity) r.targets

unfoldable pub is_downgraded : IncidentReport → Bool
is_downgraded r =
    not (state_eq r.state cooling)
    || not r.gates.same_user
    || not r.gates.strong_automation_provenance
    || not r.gates.isolated_session
    || not r.gates.no_protection_rule

-- A report with a member that the plan does not hold.
unfoldable pub has_new_member : CleanupPlan → IncidentReport → Bool
unfolding is_frozen
has_new_member plan r = any (λ t. not (is_frozen plan t.identity)) r.targets

abbrev pub revival_answer : List IncidentReport → Revalidation
revival_answer [] = answer gone "revalidation.session_absent"
revival_answer (r ∷ rs) = answer revived "revalidation.session_reappeared"

unfoldable pub signal_answer :
    Analyzer → Snapshot → CleanupPlan → List IncidentReport → Revalidation
unfolding current_targets matching_reports is_frozen is_protected_target overlaps is_downgraded
    has_new_member
signal_answer a snapshot plan reports =
    let targets = current_targets plan snapshot in
    let matching = matching_reports plan reports in
    if is_empty targets
    then answer gone "revalidation.frozen_targets_absent"
    else if any (λ p. not (is_frozen plan p.identity)) targets
    then answer blocked "revalidation.identity_changed"
    else if any (is_protected_target a snapshot) targets
    then answer blocked "revalidation.current_target_protected"
    else if any (overlaps plan) reports
    then answer blocked "revalidation.overlapping_session_changed"
    else if any is_downgraded matching
    then answer blocked "revalidation.confidence_downgraded"
    else if any (has_new_member plan) matching
    then answer blocked "revalidation.new_or_changed_member"
    else answer eligible (
        if is_empty matching
        then "revalidation.exact_frozen_subset"
        else "revalidation.incident_still_eligible")

abbrev pub phase_answer :
    Analyzer
    → Snapshot
    → CleanupPlan
    → RevalidationPhase
    → Result RuleError (List IncidentReport)
    → Revalidation
phase_answer a snapshot plan phase (err e) = answer blocked "revalidation.classifier_failed"
phase_answer a snapshot plan revival_check (ok reports) =
    revival_answer (matching_reports plan reports)
phase_answer a snapshot plan before_signal (ok reports) = signal_answer a snapshot plan reports

unfoldable pub revalidate : Analyzer → Snapshot → CleanupPlan → RevalidationPhase → Revalidation
unfolding revalidation_facts_incomplete observe matching_reports signal_answer
revalidate a snapshot plan phase =
    if revalidation_facts_incomplete a snapshot plan
    then answer blocked "revalidation.relevant_facts_incomplete"
    else phase_answer a snapshot plan phase (observe a snapshot)
