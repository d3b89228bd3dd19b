-- ===== src/Rules/Classify.antt =====
-- crates/unlinger-rules/src/lib.rs: `Analyzer::classify`, by its parts: the facts of a candidate, the
-- protections it raises, the evidence, the gates and the state.
-- The sum of resident memory wraps at 2^64, as in a build without overflow checks.
pub mod Checks
pub mod Released
pub mod Parents
pub mod Cooling
use Prim.Native.String.{◌++◌ as append_text}
use unlinger.Prelude.{
  cons_some, ℕ, ◌+◌, ◌%◌, ◌^◌, ◌==◌, ltb, leb, Bool, true, false, ◌&&◌, ◌||◌, not, Option, none,
  some, List, [], ◌∷◌, ◌++◌, String, str_eq, any, all, is_empty, is_some, length, contains, bytes,
  decimal, get, contains_key, unwrap_or, if◌then◌else◌, Result, ok, err,
}
use unlinger.Core.Model.{ProcessRecord, pid_of, has_complete_classification_facts}
use unlinger.Core.State.{IncidentState, active, cooling, ambiguous}
use unlinger.Core.Evidence.{
  EvidenceFamily, EvidenceItem, GateLedger, automation_provenance, abandonment, isolation,
}
use unlinger.Core.Graph.{ProcessGraph, lineage_has_cycle, has_unresolved_parent}
use unlinger.Core.Task.{TaskControllerBinding, SessionOwnerBinding}
use unlinger.Rules.Text.{bytes_eq, contains_any, normalize}
use unlinger.Rules.Pack.{SignaturePack}
use unlinger.Rules.Gate.{
  BrowserVersionGate, CandidateAgeGate, candidate_age_gate, evaluate_browser_versions,
  exact_supported, missing_facts, mixed_facts, ordinary_cli_session,
  ordinary_controller_version_supported, policy_bundle_id, range_supported, too_young,
  unsupported_product, unsupported_version,
}
use unlinger.Rules.Matching.{
  args_contain, args_contain_any, flag_value, headless_markers, is_ephemeral_path,
  process_contains_any, standard_profile_markers, transport_markers,
}
use unlinger.Rules.Candidates.{Candidate, process_at, processes}
use unlinger.Rules.Roles.{has_plausible_unjoined_recorder}
use unlinger.Rules.Ownership.{
  Analyzer, bound_session_owner, ordinary_session_has_live_work, owned_task_controller,
  session_has_live_work,
}

-- A condition, and the name of what it raises.
abbrev pub Check : Type 0
Check = Bool × String

-- The names whose conditions hold.
unfoldable pub raised : List Check → List String
raised [] = []
raised ((test, id) ∷ checks) = if test then id ∷ raised checks else raised checks

-- `pids.iter().filter_map(|pid| graph.get(*pid))`.
unfoldable pub records_at : ProcessGraph → List ℕ → List ProcessRecord
unfolding get
records_at g [] = []
records_at g (pid ∷ pids) = cons_some (process_at g pid) (records_at g pids)

unfoldable pub flag_values : List ProcessRecord → String → List (List ℕ)
unfolding flag_value
flag_values [] flag = []
flag_values (p ∷ ps) flag = cons_some (flag_value p flag) (flag_values ps flag)

abbrev pub is_here : {A : Type 0} → (A → Bool) → Option A → Bool
is_here p none = false
is_here p (some x) = p x

abbrev pub one : Bool → ℕ
one b = if b then 1 else 0

-- What each answer of the version gate raises; a supported version raises nothing.
abbrev pub gate_checks : BrowserVersionGate → List Check
gate_checks BrowserVersionGate.observational = (true, "protection.version_observational_only") ∷ []
gate_checks missing_facts = (true, "protection.browser_version_missing") ∷ []
gate_checks mixed_facts = (true, "protection.browser_version_mixed") ∷ []
gate_checks unsupported_product = (true, "protection.browser_product_unsupported") ∷ []
gate_checks unsupported_version = (true, "protection.browser_version_unsupported") ∷ []
gate_checks exact_supported = []
gate_checks range_supported = []

-- What each answer of the age gate raises.
abbrev pub age_gate_checks : CandidateAgeGate → List Check
age_gate_checks CandidateAgeGate.eligible = []
age_gate_checks too_young = (true, "protection.minimum_candidate_age_not_met") ∷ []
age_gate_checks CandidateAgeGate.unknown = (true, "protection.candidate_age_unknown") ∷ []

module _ (g : ProcessGraph) (c : Candidate) where
  abbrev pub members : List ProcessRecord
  members = records_at g c.member_pids

  abbrev pub browser_roots : List ProcessRecord
  browser_roots = records_at g c.browser_root_pids

  abbrev pub has_browser_roots : Bool
  has_browser_roots = not (is_empty browser_roots)

  unfoldable pub same_user : Bool
  unfolding records_at
  same_user = all (λ p. p.uid == g.current_uid && not (p.uid == 0)) members

  abbrev pub has_controller : Bool
  has_controller = is_some c.controller_pid

  abbrev pub controller_process : Option ProcessRecord
  controller_process = elim c.controller_pid [ none ↦ none | some pid ↦ process_at g pid ]

  unfoldable pub framework_argument : Bool
  unfolding records_at process_contains_any get
  framework_argument =
      is_here (λ p. process_contains_any p c.pack.framework_markers) controller_process
      || any (λ p. process_contains_any p c.pack.framework_markers) browser_roots

  unfoldable pub headless : Bool
  unfolding records_at args_contain_any
  headless = has_browser_roots && all (λ p. args_contain_any p headless_markers) browser_roots

  unfoldable pub transport : Bool
  unfolding records_at args_contain_any
  transport = any (λ p. args_contain_any p transport_markers) browser_roots

  unfoldable pub debug_pipe : Bool
  unfolding records_at args_contain
  debug_pipe = any (λ p. args_contain p "--remote-debugging-pipe") browser_roots

  unfoldable pub has_debug_port : Bool
  unfolding records_at args_contain
  has_debug_port = any (λ p. args_contain p "--remote-debugging-port") browser_roots

  unfoldable pub version_gate : Option BrowserVersionGate
  unfolding records_at evaluate_browser_versions
  version_gate =
      if has_browser_roots
      then some (evaluate_browser_versions browser_roots c.pack.version_policy)
      else none

  abbrev is_product : String → ProcessRecord → Bool
  is_product id p = is_here (λ b. str_eq b.bundle_id id) p.runtime.app_bundle

  unfoldable pub recognized_browser_product : Bool
  unfolding records_at
  recognized_browser_product =
      has_browser_roots
      && is_here (λ id. all (is_product id) browser_roots) (policy_bundle_id c.pack.version_policy)

  unfoldable pub profile_paths : List (List ℕ)
  unfolding records_at flag_values
  profile_paths = flag_values browser_roots "--user-data-dir"

  unfoldable pub standard_profile : Bool
  unfolding profile_paths contains_any
  standard_profile = any (λ path. contains_any path standard_profile_markers) profile_paths

  unfoldable pub ephemeral_profile : Bool
  unfolding profile_paths contains_any is_ephemeral_path
  ephemeral_profile =
      not (is_empty profile_paths)
      && all (λ path. contains_any path c.pack.ephemeral_profile_markers && is_ephemeral_path path)
          profile_paths

  unfoldable pub persistent_profile : Bool
  unfolding profile_paths ephemeral_profile
  persistent_profile = not (is_empty profile_paths) && not ephemeral_profile

  unfoldable pub manual_cdp : Bool
  unfolding ephemeral_profile has_debug_port
  manual_cdp = not has_controller && not ephemeral_profile && has_debug_port

  unfoldable pub shared_profile : Bool
  unfolding profile_paths flag_value normalize bytes_eq
  shared_profile =
      any
        (λ profile.
          any
            (λ p.
              not (contains c.member_pids (pid_of p))
              && is_here (λ other. bytes_eq (normalize other) (normalize profile))
                  (flag_value p "--user-data-dir"))
            (processes g))
        profile_paths

  unfoldable pub control_path_incomplete : Bool
  unfolding records_at has_debug_port
  control_path_incomplete =
      has_debug_port && any (λ p. not p.runtime.debug_transport_facts_complete) browser_roots

  -- The protections of the version gate; a session without a browser has none.
  unfoldable pub version_checks : List Check
  unfolding version_gate
  version_checks = elim version_gate [ none ↦ [] | some gate ↦ gate_checks gate ]

  -- The protections of the browsers' profiles and of their debugging peers.
  unfoldable pub profile_checks : List Check
  unfolding standard_profile headless persistent_profile manual_cdp shared_profile
      control_path_incomplete records_at
  profile_checks =
      (standard_profile, "protection.standard_browser_profile")
      ∷ (has_browser_roots && not headless, "protection.headed_or_human_control")
      ∷ (persistent_profile, "protection.persistent_or_unknown_profile")
      ∷ (manual_cdp, "protection.manual_cdp")
      ∷ (shared_profile, "protection.profile_shared_outside_incident")
      ∷ (
        any (λ p. p.runtime.attached_debug_transport) browser_roots,
        "protection.attached_debug_peer",
      )
      ∷ (control_path_incomplete, "protection.debug_peer_visibility_incomplete")
      ∷ []

  abbrev cycle_at : ℕ → Bool
  cycle_at pid = unwrap_or (lineage_has_cycle g pid) false

  abbrev pub is_self_or_ancestor : Analyzer → ℕ → Bool
  is_self_or_ancestor a pid =
      is_here (λ self. self == pid) a.context.self_pid || contains a.context.ancestor_pids pid

  -- The protections of the members.
  unfoldable pub member_checks : Analyzer → List Check
  unfolding same_user records_at has_complete_classification_facts lineage_has_cycle
      has_unresolved_parent
  member_checks a =
      (not same_user, "protection.uid_or_root")
      ∷ (contains c.member_pids 0 || contains c.member_pids 1, "protection.system_pid")
      ∷ (any (is_self_or_ancestor a) c.member_pids, "protection.unlinger_or_ancestor")
      ∷ (
        any (λ pid. cycle_at pid || has_unresolved_parent g pid) c.member_pids,
        "protection.incomplete_or_cyclic_graph",
      )
      ∷ (
        any (λ p. not (has_complete_classification_facts p)) members,
        "protection.incomplete_process_facts",
      )
      ∷ []

  module _ (a : Analyzer) (root : ProcessRecord) where
    unfoldable pub owned_task : Option TaskControllerBinding
    unfolding owned_task_controller
    owned_task = if str_eq c.pack.id "playwright" then owned_task_controller a root c.pack else none

    unfoldable pub session_owner : Option SessionOwnerBinding
    unfolding owned_task bound_session_owner
    session_owner =
        if str_eq c.pack.id "playwright" && not (is_some owned_task)
        then bound_session_owner a root c.pack
        else none

    abbrev pub cli_persistent : Bool
    cli_persistent = is_here (λ cli. cli.persistent) root.runtime.playwright_cli

    abbrev pub cli_attached : Bool
    cli_attached = is_here (λ cli. cli.attached) root.runtime.playwright_cli

    -- Some process's sessions or the root's descriptors are not known in full.
    abbrev pub visibility_incomplete : Bool
    visibility_incomplete =
        not root.runtime.descriptor_facts_complete
        || any (λ p. not p.runtime.task_session_facts_complete) (processes g)

    abbrev pub has_client : Bool
    has_client = not (is_empty root.runtime.connected_named_unix_socket_fingerprints)

    abbrev pub task_checks : TaskControllerBinding → List Check
    task_checks b =
        (not b.released, "protection.task_owner_active")
        ∷ (cli_persistent, "protection.persistent_or_unknown_profile")
        ∷ (cli_attached, "protection.attached_debug_peer")
        ∷ (visibility_incomplete, "protection.task_client_visibility_incomplete")
        ∷ (has_client || session_has_live_work a g b.task_id, "protection.task_client_active")
        ∷ []

    abbrev pub session_checks : SessionOwnerBinding → List Check
    session_checks b =
        (not b.released, "protection.session_owner_active")
        ∷ (cli_persistent, "protection.persistent_or_unknown_profile")
        ∷ (cli_attached, "protection.attached_debug_peer")
        ∷ (visibility_incomplete, "protection.session_owner_visibility_incomplete")
        ∷ (
          has_client || ordinary_session_has_live_work g b,
          "protection.session_owner_client_active",
        )
        ∷ []

    abbrev pub unowned_checks : List Check
    unowned_checks =
        if ordinary_cli_session root && ordinary_controller_version_supported c.pack root
        then (true, "protection.ordinary_session_owner_unverified") ∷ []
        else (true, "protection.controller_version_unverified") ∷ []

    -- The `if let Some(binding) = owned_task .. else if has_controller ..`.
    unfoldable pub owner_checks : List Check
    unfolding owned_task session_owner session_has_live_work ordinary_session_has_live_work
        ordinary_cli_session ordinary_controller_version_supported
    owner_checks = elim owned_task [
      | some b ↦ task_checks b
      | none ↦
          if not has_controller
          then []
          else elim session_owner [ some b ↦ session_checks b | none ↦ unowned_checks ]
    ]

    unfoldable pub age_checks : ℕ → List Check
    unfolding candidate_age_gate
    age_checks observed =
        age_gate_checks (candidate_age_gate observed root.identity.started_at_unix_micros)

    unfoldable pub recorder_checks : List Check
    unfolding has_plausible_unjoined_recorder records_at
    recorder_checks =
        (
          has_browser_roots && has_plausible_unjoined_recorder g c browser_roots,
          "protection.unjoined_recorder_residue",
        )
        ∷ []

    -- What is put into the set `protection`, in the order of the code.
    unfoldable pub protections : ℕ → List String
    unfolding raised member_checks profile_checks owner_checks version_checks age_checks
        recorder_checks
    protections observed = raised (
        member_checks a
        ++ (profile_checks
            ++ (owner_checks ++ (version_checks ++ (age_checks observed ++ recorder_checks)))))

    unfoldable pub provenance_categories : ℕ
    unfolding framework_argument ephemeral_profile transport headless recognized_browser_product
    provenance_categories =
        one has_controller
        + one framework_argument
        + one ephemeral_profile
        + one transport
        + one headless
        + one recognized_browser_product

    unfoldable pub strong_provenance : Bool
    unfolding provenance_categories
    strong_provenance =
        (has_controller || framework_argument || ephemeral_profile) && leb 3 provenance_categories

    unfoldable pub verified_owner_release : Option Bool
    unfolding owned_task session_owner
    verified_owner_release = elim owned_task [
      | some b ↦ some b.released
      | none ↦ elim session_owner [ some b ↦ some b.released | none ↦ none ]
    ]

    abbrev pub owner_released : Bool
    owner_released = unwrap_or verified_owner_release false

    unfoldable pub controller_parent_live : Bool
    unfolding verified_owner_release get
    controller_parent_live =
        not owner_released
        && is_here (λ p. ltb 1 p.parent_pid && is_some (process_at g p.parent_pid))
            controller_process

    unfoldable pub controller_reparented : Bool
    unfolding get
    controller_reparented = is_here (λ p. p.parent_pid == 1) controller_process

    unfoldable pub owner_missing : Bool
    unfolding verified_owner_release controller_reparented records_at get
    owner_missing = elim verified_owner_release [
      | some released ↦ released
      | none ↦
          controller_reparented
          || not has_controller
            && has_browser_roots
            && all (λ p. p.parent_pid == 1 || not (is_some (process_at g p.parent_pid)))
                browser_roots
    ]

    unfoldable pub isolated : Bool
    unfolding ephemeral_profile shared_profile standard_profile
    isolated = ephemeral_profile && not shared_profile && not standard_profile

    unfoldable pub gates : ℕ → GateLedger
    unfolding same_user strong_provenance isolated protections
    gates observed = record {
      same_user = same_user;
      strong_automation_provenance = strong_provenance;
      confirmed_abandonment = false;
      isolated_session = isolated;
      stable_across_two_observations = false;
      process_identity_unchanged = false;
      no_protection_rule = is_empty (protections observed);
    }

    unfoldable pub state : ℕ → IncidentState
    unfolding protections controller_parent_live strong_provenance owner_missing isolated
    state observed =
        if not (is_empty (protections observed))
        then IncidentState.protected
        else if controller_parent_live
        then active
        else if strong_provenance && owner_missing && isolated
        then cooling
        else ambiguous
