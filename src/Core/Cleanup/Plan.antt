-- ===== src/Core/Cleanup/Plan.antt =====
-- crates/unlinger-core/src/cleanup.rs: the cleanup plan that a confirmed incident freezes to.
pub mod FromConfirmed
use unlinger.Prelude.{
  ℕ, ◌&&◌, ◌||◌, not, Option, none, some, List, [], ◌∷◌, String, str_eq, Result, ok, err, ◌>>=◌,
  ◌>>◌, guard, ltb, ◌==◌, any, find, keep, is_empty, is_some, length, contains, is_blank,
  if◌then◌else◌,
}
use unlinger.Core.Model.{ProcessIdentity}
use unlinger.Core.State.{confirmed, state_eq}
use unlinger.Core.Evidence.{
  IncidentReport, ProcessTarget, cleanup_eligible, is_controller, is_browser_root,
}
use unlinger.Core.Artifact.{RuntimeArtifactCandidate}

pub record CleanupPlan : Type 0 where
  pub incident_id : String
  pub tracking_key : String
  pub session_fingerprint : String
  pub signature_pack : String
  pub signature_version : String
  pub root_identity : ProcessIdentity
  pub member_fingerprint : String
  pub targets : List ProcessTarget
  pub artifacts : List RuntimeArtifactCandidate

pub data CleanupPlanError : Type 0 where
  not_confirmed no_targets missing_session_fingerprint : CleanupPlanError
  duplicate_target incomplete_identity : ℕ → CleanupPlanError
  root_missing no_primary_target too_many_artifacts : CleanupPlanError
  duplicate_artifact artifact_session_mismatch : CleanupPlanError

-- The loop over the targets; `pids` are those already seen.
unfoldable pub check_targets : List ℕ → List ProcessTarget → Result CleanupPlanError (Unit {0})
check_targets pids [] = ok tt
check_targets pids (t ∷ ts) =
    guard (not (contains pids t.identity.pid)) (duplicate_target t.identity.pid)
    >> (guard (is_some t.identity.executable_device && is_some t.identity.executable_inode)
          (incomplete_identity t.identity.pid)
        >> check_targets (t.identity.pid ∷ pids) ts)

-- The loop over the artifacts; `seen` are the fingerprints already met.
unfoldable pub check_artifacts :
    String → List String → List RuntimeArtifactCandidate → Result CleanupPlanError (Unit {0})
check_artifacts session seen [] = ok tt
check_artifacts session seen (a ∷ as_) =
    guard (str_eq a.session_fingerprint session) artifact_session_mismatch
    >> (guard (not (any (str_eq a.artifact_fingerprint) seen)) duplicate_artifact
        >> check_artifacts session (a.artifact_fingerprint ∷ seen) as_)

abbrev pub root_target : IncidentReport → Option ProcessTarget
root_target report = find (λ t. t.identity.pid == report.root.pid) report.targets

abbrev pub identity_or_missing : Option ProcessTarget → Result CleanupPlanError ProcessIdentity
identity_or_missing none = err root_missing
identity_or_missing (some t) = ok t.identity

unfoldable pub from_confirmed : IncidentReport → Result CleanupPlanError CleanupPlan
unfolding check_targets check_artifacts cleanup_eligible is_blank
from_confirmed report = do
  guard (state_eq report.state confirmed && cleanup_eligible report.gates) not_confirmed
  guard (not (is_empty report.targets)) no_targets
  guard (not (is_blank report.session_fingerprint)) missing_session_fingerprint
  check_targets [] report.targets
  guard (not (ltb 1 (length report.runtime_artifacts))) too_many_artifacts
  check_artifacts report.session_fingerprint [] report.runtime_artifacts
  root_identity ← identity_or_missing (root_target report)
  guard (any (λ t. is_controller t.role || is_browser_root t.role) report.targets) no_primary_target
  ok (record {
    incident_id = report.incident_id;
    tracking_key = report.tracking_key;
    session_fingerprint = report.session_fingerprint;
    signature_pack = report.signature_pack;
    signature_version = report.signature_version;
    root_identity = root_identity;
    member_fingerprint = report.member_fingerprint;
    targets = report.targets;
    artifacts = report.runtime_artifacts;
  })

-- `CleanupPlan::primary_targets`: the controllers, or the browser roots where there is none.
unfoldable pub primary_targets : CleanupPlan → List ProcessTarget
primary_targets plan =
    let controllers = keep (λ t. is_controller t.role) plan.targets in
    if is_empty controllers then keep (λ t. is_browser_root t.role) plan.targets else controllers
