-- ===== src/Core/Cleanup/Receipt.antt =====
-- crates/unlinger-core/src/cleanup.rs: actions, receipts, and the outcome that a receipt projects to.
use unlinger.Prelude.{
  ℕ, Bool, true, false, ◌&&◌, ◌||◌, not, Option, none, some, List, String, str_eq, any, is_empty,
  if◌then◌else◌,
}
use unlinger.Core.State.{IncidentState, state_eq}
use unlinger.Core.Artifact.{ArtifactAction, ArtifactDisposition, completed_cleanup}

pub data CleanupSignal : Type 0 where
  term kill : CleanupSignal

pub data SignalDisposition : Type 0 where
  delivered already_exited identity_mismatch rejected : SignalDisposition
  cancelled_before_delivery delivery_unknown : SignalDisposition

pub data CleanupStage : Type 0 where
  primary_term member_term exact_kill : CleanupStage

pub record CleanupActionIntent : Type 0 where
  pub stage : CleanupStage
  pub pid : ℕ
  pub identity_fingerprint : String
  pub signal : CleanupSignal

pub record CleanupAction : Type 0 where
  pub stage : CleanupStage
  pub pid : ℕ
  pub identity_fingerprint : String
  pub signal : CleanupSignal
  pub disposition : SignalDisposition

pub record ResourceSnapshot : Type 0 where
  pub process_count : ℕ
  pub resident_memory_bytes : ℕ

pub record CleanupResources : Type 0 where
  pub before : Option ResourceSnapshot
  pub after : Option ResourceSnapshot
  pub estimated_reclaimed_memory_bytes : Option ℕ

pub record CleanupReceipt : Type 0 where
  pub incident_id : String
  pub state : IncidentState
  pub reason_id : Option String
  pub actions : List CleanupAction
  pub artifact_actions : List ArtifactAction
  pub survivor_pids : List ℕ
  pub revival_checks_completed : ℕ
  pub resources : CleanupResources

pub data ProcessOutcome : Type 0 where
  cleared revived failed delivery_unknown : ProcessOutcome

pub data ArtifactOutcome : Type 0 where
  not_applicable reconciled residue delivery_unknown : ArtifactOutcome

pub data OverallOutcome : Type 0 where
  cleared cleared_with_residue revived failed : OverallOutcome

pub record CleanupOutcome : Type 0 where
  pub process : ProcessOutcome
  pub artifact : ArtifactOutcome
  pub overall : OverallOutcome
  pub attention_required : Bool

abbrev pub is_unknown_signal : CleanupAction → Bool
is_unknown_signal a = elim a.disposition [ SignalDisposition.delivery_unknown ↦ true | _ ↦ false ]

abbrev pub is_unknown_artifact : ArtifactAction → Bool
is_unknown_artifact a = elim a.disposition [
  | ArtifactDisposition.delivery_unknown ↦ true
  | _ ↦ false
]

abbrev pub is_delivered : CleanupAction → Bool
is_delivered a = elim a.disposition [ delivered ↦ true | _ ↦ false ]

-- `reason == Some(text)`.
abbrev pub reason_is : Option String → String → Bool
reason_is none text = false
reason_is (some r) text = str_eq r text

abbrev pub artifact_delivery_unknown : CleanupReceipt → Bool
artifact_delivery_unknown r =
    any is_unknown_artifact r.artifact_actions
    || reason_is r.reason_id "cleanup.artifact_delivery_unknown"

abbrev pub artifact_residue_reason : CleanupReceipt → Bool
artifact_residue_reason r =
    reason_is r.reason_id "cleanup.artifact_identity_changed"
    || reason_is r.reason_id "cleanup.artifact_live_reference"
    || reason_is r.reason_id "cleanup.artifact_unsafe"
    || reason_is r.reason_id "cleanup.artifact_rejected"

unfoldable pub process_outcome : CleanupReceipt → ProcessOutcome
process_outcome r =
    if any is_unknown_signal r.actions
    then delivery_unknown
    else if state_eq r.state IncidentState.revived
    then revived
    else if state_eq r.state IncidentState.cleared
        || artifact_residue_reason r
        || artifact_delivery_unknown r
    then cleared
    else failed

unfoldable pub artifact_outcome : CleanupReceipt → ArtifactOutcome
artifact_outcome r =
    if artifact_delivery_unknown r
    then delivery_unknown
    else if artifact_residue_reason r
        || any (λ a. not (completed_cleanup a.disposition)) r.artifact_actions
    then residue
    else if is_empty r.artifact_actions
    then not_applicable
    else reconciled

-- The `match (process, artifact)` of `CleanupReceipt::outcome`.
abbrev pub overall_outcome : ProcessOutcome → ArtifactOutcome → OverallOutcome
overall_outcome ProcessOutcome.delivery_unknown _ = failed
overall_outcome ProcessOutcome.failed _ = failed
overall_outcome ProcessOutcome.cleared ArtifactOutcome.delivery_unknown = failed
overall_outcome ProcessOutcome.revived ArtifactOutcome.delivery_unknown = failed
overall_outcome ProcessOutcome.cleared not_applicable = cleared
overall_outcome ProcessOutcome.cleared reconciled = cleared
overall_outcome ProcessOutcome.cleared residue = cleared_with_residue
overall_outcome ProcessOutcome.revived _ = revived

abbrev pub is_overall_cleared : OverallOutcome → Bool
is_overall_cleared OverallOutcome.cleared = true
is_overall_cleared _ = false

abbrev pub is_process_cleared : ProcessOutcome → Bool
is_process_cleared ProcessOutcome.cleared = true
is_process_cleared _ = false

unfoldable pub outcome : CleanupReceipt → CleanupOutcome
unfolding process_outcome artifact_outcome
outcome r =
    let process = process_outcome r in
    let artifact = artifact_outcome r in
    let overall = overall_outcome process artifact in
    record {
      process = process;
      artifact = artifact;
      overall = overall;
      attention_required = not (is_overall_cleared overall);
    }

unfoldable pub proves_process_reclaim : CleanupReceipt → Bool
unfolding outcome
proves_process_reclaim r = is_process_cleared (outcome r).process && any is_delivered r.actions

unfoldable pub ended_without_intervention : CleanupReceipt → Bool
unfolding outcome proves_process_reclaim
ended_without_intervention r =
    state_eq r.state IncidentState.cleared
    && is_overall_cleared (outcome r).overall
    && not (proves_process_reclaim r)
    && is_empty r.artifact_actions
