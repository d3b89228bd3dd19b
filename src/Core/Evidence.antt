-- ===== src/Core/Evidence.antt =====
-- crates/unlinger-core/src/evidence.rs: the gate ledger and the incident report.
use unlinger.Prelude.{ℕ, Bool, true, false, ◌&&◌, Option, List, String}
use unlinger.Core.Model.{ProcessIdentity}
use unlinger.Core.State.{IncidentState}
use unlinger.Core.Artifact.{RuntimeArtifactCandidate}

pub data EvidenceFamily : Type 0 where
  automation_provenance abandonment isolation protection : EvidenceFamily

pub record EvidenceItem : Type 0 where
  pub id : String
  pub family : EvidenceFamily
  pub source_pid : Option ℕ

pub record GateLedger : Type 0 where
  pub same_user : Bool
  pub strong_automation_provenance : Bool
  pub confirmed_abandonment : Bool
  pub isolated_session : Bool
  pub stable_across_two_observations : Bool
  pub process_identity_unchanged : Bool
  pub no_protection_rule : Bool

unfoldable pub cleanup_eligible : GateLedger → Bool
cleanup_eligible g =
    g.same_user && g.strong_automation_provenance && g.confirmed_abandonment && g.isolated_session
    && g.stable_across_two_observations && g.process_identity_unchanged && g.no_protection_rule

pub record RootSummary : Type 0 where
  pub pid : ℕ
  pub started_at_unix_micros : ℕ
  pub executable_basename : String
  pub identity_fingerprint : String

pub data ProcessRole : Type 0 where
  controller browser_root renderer gpu utility browser_helper crash_handler : ProcessRole
  recorder incident_member : ProcessRole

abbrev pub is_controller : ProcessRole → Bool
is_controller controller = true
is_controller _ = false

abbrev pub is_browser_root : ProcessRole → Bool
is_browser_root browser_root = true
is_browser_root _ = false

pub data BrowserProduct : Type 0 where
  chrome_for_testing chromium google_chrome other unknown : BrowserProduct

pub data BrowserCompatibilityDecision : Type 0 where
  automatic observe_only protected unknown : BrowserCompatibilityDecision

pub record BrowserCompatibility : Type 0 where
  pub product : BrowserProduct
  pub observed_version : Option String
  pub decision : BrowserCompatibilityDecision
  pub reason_id : Option String

pub record ProcessTarget : Type 0 where
  pub identity : ProcessIdentity
  pub process_group_id : ℕ
  pub role : ProcessRole

pub record ProcessRoleCount : Type 0 where
  pub role : ProcessRole
  pub count : ℕ

pub record IncidentReport : Type 0 where
  pub incident_id : String
  pub tracking_key : String
  pub session_fingerprint : String
  pub signature_pack : String
  pub signature_version : String
  pub state : IncidentState
  pub root : RootSummary
  pub member_count : ℕ
  pub resident_memory_bytes : ℕ
  pub member_fingerprint : String
  pub roles : List ProcessRoleCount
  pub evidence : List EvidenceItem
  pub gates : GateLedger
  pub browser_compatibility : BrowserCompatibility
  pub targets : List ProcessTarget
  pub runtime_artifacts : List RuntimeArtifactCandidate
