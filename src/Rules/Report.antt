-- ===== src/Rules/Report.antt =====
-- crates/unlinger-rules/src/lib.rs: the evidence and the report that `Analyzer::classify` returns.
use Prim.Native.String.{◌++◌ as append_text}
use unlinger.Prelude.{
  ℕ, ◌&&◌, not, Option, none, some, List, [], ◌∷◌, ◌++◌, map, String, is_empty, is_some, length,
  bytes, decimal, get, values, if◌then◌else◌,
}
use unlinger.Core.Model.{ProcessRecord, pid_of}
use unlinger.Core.Evidence.{
  EvidenceItem, IncidentReport, automation_provenance, abandonment, isolation, protection,
}
use unlinger.Core.Artifact.{RuntimeArtifactCandidate}
use unlinger.Core.Fingerprint.{fingerprint_parts, fingerprint_process_identity, sort_rows}
use unlinger.Core.Graph.{ProcessGraph, process_set_fingerprint}
use unlinger.Rules.Text.{executable_basename, normalize}
use unlinger.Rules.Gate.{
  browser_compatibility, exact_supported, range_supported, supported, unverified_controller_reason,
}
use unlinger.Rules.Candidates.{Candidate, process_at}
use unlinger.Rules.Roles.{process_role}
use unlinger.Rules.Ownership.{Analyzer}
use unlinger.Rules.Evidence.{
  count_roles, head_pid, item, only_artifact, sort_evidence, sum_memory, target_of, unique_profiles,
  when,
}
use unlinger.Rules.Classify.{
  members, browser_roots, has_controller, framework_argument, headless, transport, debug_pipe,
  version_gate, recognized_browser_product, profile_paths, standard_profile, ephemeral_profile,
  shared_profile, control_path_incomplete, owned_task, session_owner, protections,
  strong_provenance, controller_parent_live, controller_reparented, owner_missing, gates, state,
  is_here, records_at,
}

module _ (a : Analyzer) (g : ProcessGraph) (c : Candidate) (root : ProcessRecord)
    (observed : ℕ) where
  abbrev by_root : Option ℕ
  by_root = some (pid_of root)

  abbrev by_browser : Option ℕ
  by_browser = head_pid c.browser_root_pids

  unfoldable pub owner_evidence : List EvidenceItem
  unfolding owned_task session_owner
  owner_evidence = elim (owned_task g c a root) [
    | some b ↦ item "provenance.task_registered" automation_provenance by_root ∷ []
    | none ↦
        when (has_controller g c && is_some (session_owner g c a root))
          (item "provenance.session_owner_registered" automation_provenance by_root ∷ [])
  ]

  unfoldable pub provenance_evidence : List EvidenceItem
  unfolding framework_argument ephemeral_profile transport debug_pipe headless
      recognized_browser_product
  provenance_evidence =
      when (has_controller g c)
        (item "provenance.controller_lineage" automation_provenance c.controller_pid ∷ [])
      ++ (when (framework_argument g c)
            (item "provenance.framework_marker" automation_provenance by_root ∷ [])
          ++ (when (ephemeral_profile g c) (
                item "provenance.ephemeral_profile" automation_provenance by_browser
                ∷ item "isolation.dedicated_ephemeral_profile" isolation by_browser
                ∷ [])
              ++ (when (transport g c) (
                    item
                      (if debug_pipe g c
                        then "provenance.private_debug_pipe"
                        else "provenance.debug_port")
                      automation_provenance by_browser
                    ∷ [])
                  ++ (when (headless g c)
                        (item "provenance.headless_mode" automation_provenance by_browser ∷ [])
                      ++ when (recognized_browser_product g c) (
                          item "provenance.automation_browser_binary" automation_provenance
                            by_browser
                          ∷ [])))))

  unfoldable pub version_evidence : List EvidenceItem
  unfolding version_gate
  version_evidence = elim (version_gate g c) [
    | none ↦ []
    | some gate ↦ elim gate [
      | exact_supported ↦
          item "version.browser_exact_allowlist" automation_provenance by_browser ∷ []
      | range_supported ↦ item "version.browser_bounded_range" automation_provenance by_browser ∷ []
      | _ ↦ []
    ]
  ]

  unfoldable pub abandonment_evidence : List EvidenceItem
  unfolding owned_task session_owner controller_parent_live controller_reparented owner_missing
  abandonment_evidence =
      if is_here (λ b. b.released) (owned_task g c a root)
      then item "abandonment.task_released" abandonment by_root ∷ []
      else if is_here (λ b. b.released) (session_owner g c a root)
      then item "abandonment.session_owner_released" abandonment by_root ∷ []
      else if controller_parent_live g c a root
      then item "abandonment.live_controller_owner" abandonment c.controller_pid ∷ []
      else if controller_reparented g c a root
      then item "abandonment.controller_reparented" abandonment c.controller_pid ∷ []
      else when (owner_missing g c a root)
          (item "abandonment.controller_missing" abandonment by_root ∷ [])

  abbrev protection_item : String → EvidenceItem
  protection_item id = item id protection by_root

  unfoldable pub evidence : List EvidenceItem
  unfolding owner_evidence version_gate provenance_evidence version_evidence abandonment_evidence
      protections sort_evidence
  evidence = sort_evidence (
      owner_evidence
      ++ (when (not (is_some (version_gate g c)))
            (item "ambiguity.browser_root_missing" abandonment c.controller_pid ∷ [])
          ++ (provenance_evidence
              ++ (version_evidence
                  ++ (abandonment_evidence
                      ++ map protection_item (protections g c a root observed))))))

  unfoldable pub session_fingerprint : String
  unfolding profile_paths normalize sort_rows fingerprint_parts fingerprint_process_identity
  session_fingerprint =
      if is_empty (profile_paths g c)
      then append_text "ses-" (
          fingerprint_parts
            ((bytes c.pack.id ++ b':' ∷ bytes (fingerprint_process_identity root.identity)) ∷ []))
      else append_text "ses-" (fingerprint_parts (sort_rows (map normalize (profile_paths g c))))

  unfoldable pub runtime_artifacts : List RuntimeArtifactCandidate
  unfolding version_gate protections strong_provenance owner_missing ephemeral_profile
      shared_profile standard_profile profile_paths unique_profiles only_artifact
      session_fingerprint
  runtime_artifacts =
      if c.pack.artifact_policy.devtools_active_port
        && is_here supported (version_gate g c)
        && is_empty (protections g c a root observed)
        && strong_provenance g c a root
        && owner_missing g c a root
        && ephemeral_profile g c
        && not (shared_profile g c)
        && not (standard_profile g c)
      then only_artifact (unique_profiles [] (profile_paths g c)) g.current_uid session_fingerprint
      else []

  unfoldable pub report : IncidentReport
  unfolding fingerprint_parts fingerprint_process_identity session_fingerprint state
      executable_basename sum_memory process_set_fingerprint count_roles evidence gates
      browser_compatibility version_gate unverified_controller_reason owned_task session_owner
      control_path_incomplete process_role runtime_artifacts records_at
  report =
      let identity_fingerprint = fingerprint_process_identity root.identity in
      let row = bytes c.pack.id ++ b':' ∷ decimal root.identity.pid in
      record {
        incident_id =
            append_text "inc-"
              (fingerprint_parts ((row ++ b':' ∷ bytes identity_fingerprint) ∷ []));
        tracking_key = append_text "trk-" (fingerprint_parts (row ∷ []));
        session_fingerprint = session_fingerprint;
        signature_pack = c.pack.id;
        signature_version = c.pack.version;
        state = state g c a root observed;
        root = record {
          pid = pid_of root;
          started_at_unix_micros = root.identity.started_at_unix_micros;
          executable_basename = executable_basename root;
          identity_fingerprint = identity_fingerprint;
        };
        member_count = length (members g c);
        resident_memory_bytes = sum_memory (members g c);
        member_fingerprint = process_set_fingerprint g c.member_pids;
        roles = values (count_roles c [] (members g c));
        evidence = evidence;
        gates = gates g c a root observed;
        browser_compatibility =
            browser_compatibility (browser_roots g c) (version_gate g c)
              (unverified_controller_reason (has_controller g c) (is_some (owned_task g c a root))
                (is_some (session_owner g c a root)) root c.pack)
              (control_path_incomplete g c);
        targets = map (target_of c) (members g c);
        runtime_artifacts = runtime_artifacts;
      }

-- `Analyzer::classify`.
unfoldable pub classify : Analyzer → ProcessGraph → Candidate → ℕ → Option IncidentReport
unfolding get report
classify a g c observed = elim (process_at g c.root_pid) [
  | none ↦ none
  | some root ↦ some (report a g c root observed)
]
