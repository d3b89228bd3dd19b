-- ===== src/Rules/Classify/Cooling.antt =====
-- crates/unlinger-rules/src/lib.rs: what is known of a candidate that is classified as cooling.
use unlinger.Prelude.{
  and_split, leb-true, ℕ, ◌+◌, ◌*◌, ◌≤◌, ◌<◌, ◌≡◌, refl, Bool, true, false, not, ◌&&◌, ◌||◌, List,
  [], ◌∷◌, ◌++◌, String, arith, In, any, all, any_none, all_each, is_empty, is_some, leb, u64_max,
  if◌then◌else◌,
}
use unlinger.Core.Model.{ProcessRecord}
use unlinger.Core.State.{IncidentState, active, ambiguous, cooling}
use unlinger.Core.Graph.{ProcessGraph}
use unlinger.Rules.Text.{contains_any}
use unlinger.Rules.Gate.{
  BrowserVersionGate, CandidateAgeGate, candidate_age_gate, evaluate_browser_versions,
  exact_supported, range_supported, supported, too_young, missing_facts, mixed_facts,
  unsupported_product, unsupported_version,
}
use unlinger.Rules.Gate.Supported.{
  IsUniform, candidate_age_gate_eligible_iff, evaluate_browser_versions-IsUniform,
}
use unlinger.Rules.Matching.{is_ephemeral_path, standard_profile_markers}
use unlinger.Rules.Candidates.{Candidate, processes}
use unlinger.Rules.Ownership.{Analyzer}
use unlinger.Rules.Classify.{
  age_checks, age_gate_checks, browser_roots, controller_parent_live, ephemeral_profile,
  flag_values, framework_argument, gate_checks, has_browser_roots, has_controller, isolated,
  member_checks, owned_task, owner_checks, owner_missing, profile_checks, profile_paths,
  protections, provenance_categories, recorder_checks, standard_profile, state, strong_provenance,
  version_checks, version_gate,
}
use unlinger.Rules.Classify.Checks.{
  IsUnjoined, MembersSafe, ProfilesSafe, holds, member_checks-MembersSafe,
  profile_checks-ProfilesSafe, quiet_append, raised_none, recorder_checks_quiet,
}
use unlinger.Rules.Classify.Released.{OwnerReleased, owner_checks-OwnerReleased}
use unlinger.Rules.Classify.Parents.{
  LeftBehind, NoLiveParent, controller_parent_live-NoLiveParent, owner_missing-LeftBehind,
}

module _ (g : ProcessGraph) (c : Candidate) (a : Analyzer) (root : ProcessRecord)
    (observed : ℕ) where
  -- Every group of checks is quiet.
  record Quiet : Type 0 where
    of_members : any holds (member_checks g c a) ≡ false
    of_profiles : any holds (profile_checks g c) ≡ false
    of_owner : any holds (owner_checks g c a root) ≡ false
    of_version : any holds (version_checks g c) ≡ false
    of_age : any holds (age_checks g c a root observed) ≡ false
    of_recorders : any holds (recorder_checks g c a root) ≡ false

  protections-Quiet : is_empty (protections g c a root observed) ≡ true → Quiet
  unfolding protections
  protections-Quiet e =
      let recorders = recorder_checks g c a root in
      let ages = age_checks g c a root observed ++ recorders in
      let versions = version_checks g c ++ ages in
      let owners = owner_checks g c a root ++ versions in
      let profiles = profile_checks g c ++ owners in
      let (m, e1) =
        quiet_append (member_checks g c a) profiles
          (raised_none (member_checks g c a ++ profiles) e) in
      let (p, e2) = quiet_append (profile_checks g c) owners e1 in
      let (o, e3) = quiet_append (owner_checks g c a root) versions e2 in
      let (v, e4) = quiet_append (version_checks g c) ages e3 in
      let (t, e5) = quiet_append (age_checks g c a root observed) recorders e4 in
      record {
        of_members = m;
        of_profiles = p;
        of_owner = o;
        of_version = v;
        of_age = t;
        of_recorders = e5;
      }

  supported_gate :
      (gate : BrowserVersionGate) → any holds (gate_checks gate) ≡ false → supported gate ≡ true
  supported_gate BrowserVersionGate.observational e = absurd (cc)
  supported_gate missing_facts e = absurd (cc)
  supported_gate mixed_facts e = absurd (cc)
  supported_gate unsupported_product e = absurd (cc)
  supported_gate unsupported_version e = absurd (cc)
  supported_gate exact_supported e = refl
  supported_gate range_supported e = refl

  version_checks-IsUniform :
      has_browser_roots g c ≡ true
      → any holds (version_checks g c) ≡ false
      → IsUniform (browser_roots g c) c.pack.version_policy
  unfolding version_checks version_gate
  version_checks-IsUniform b e =
      evaluate_browser_versions-IsUniform (browser_roots g c) c.pack.version_policy (
        supported_gate (evaluate_browser_versions (browser_roots g c) c.pack.version_policy)
          (rw (b, version_gate, version_checks) at e))

  old_enough :
      (gate : CandidateAgeGate)
      → any holds (age_gate_checks gate) ≡ false
      → gate ≡ CandidateAgeGate.eligible
  old_enough CandidateAgeGate.eligible e = refl
  old_enough too_young e = absurd (cc)
  old_enough CandidateAgeGate.unknown e = absurd (cc)

  age_checks_bounds :
      any holds (age_checks g c a root observed) ≡ false
      → (0 < root.identity.started_at_unix_micros)
        × (observed * 1000 ≤ u64_max)
        × (root.identity.started_at_unix_micros + 60000000 ≤ observed * 1000)
  unfolding age_checks
  age_checks_bounds e =
      (candidate_age_gate_eligible_iff observed root.identity.started_at_unix_micros).0
        (old_enough (candidate_age_gate observed root.identity.started_at_unix_micros) e)

  flags_of_some :
      (ps : List ProcessRecord) (flag : String)
      → not (is_empty (flag_values ps flag)) ≡ true
      → not (is_empty ps) ≡ true
  unfolding flag_values
  flags_of_some [] flag e = absurd (cc)
  flags_of_some (p ∷ ps) flag e = refl

  -- What holds of a candidate that is classified as cooling.
  pub record IsCooling : Type 0 where
    pub members_safe : MembersSafe g c a
    pub profiles_safe : ProfilesSafe g c
    pub has_browser : has_browser_roots g c ≡ true
    pub is_uniform : IsUniform (browser_roots g c) c.pack.version_policy
    pub is_temporary :
        (path : List ℕ)
        → In path (profile_paths g c)
        → (is_ephemeral_path path ≡ true)
          × (contains_any path c.pack.ephemeral_profile_markers ≡ true)
          × (contains_any path standard_profile_markers ≡ false)
    pub old_enough :
        (0 < root.identity.started_at_unix_micros)
        × (observed * 1000 ≤ u64_max)
        × (root.identity.started_at_unix_micros + 60000000 ≤ observed * 1000)
    pub no_recorder :
        (p browser : ProcessRecord)
        → In p (processes g)
        → In browser (browser_roots g c)
        → IsUnjoined g c p browser
        → ⊥
    pub owner_released :
        (has_controller g c || is_some (owned_task g c a root)) ≡ true → OwnerReleased g c a root
    pub no_live_parent : NoLiveParent g c a root
    pub owner_gone : LeftBehind g c a root
    pub is_automation :
        ((has_controller g c || framework_argument g c || ephemeral_profile g c) ≡ true)
        × (3 ≤ provenance_categories g c a root)

  cooling_facts :
      (quiet live strong missing alone : Bool)
      → (if not quiet
          then IncidentState.protected
          else if live
          then active
          else if strong && missing && alone
          then cooling
          else ambiguous)
        ≡ cooling
      → (quiet ≡ true) × (live ≡ false) × (strong ≡ true) × (missing ≡ true) × (alone ≡ true)
  cooling_facts false live strong missing alone e = absurd (cc)
  cooling_facts true true strong missing alone e = absurd (cc)
  cooling_facts true false true true true e = (refl, refl, refl, refl, refl)
  cooling_facts true false true true false e = absurd (cc)
  cooling_facts true false true false alone e = absurd (cc)
  cooling_facts true false false missing alone e = absurd (cc)

  isolated_paths :
      isolated g c a root ≡ true
      → (not (is_empty (profile_paths g c)) ≡ true)
        × (all
              (λ path. contains_any path c.pack.ephemeral_profile_markers && is_ephemeral_path path)
              (profile_paths g c)
            ≡ true)
        × (any (λ path. contains_any path standard_profile_markers) (profile_paths g c) ≡ false)
  unfolding isolated ephemeral_profile standard_profile
  isolated_paths e = (ground (arith, e), ground (arith, e), ground (arith, e))

  automation_lem :
      strong_provenance g c a root ≡ true
      → ((has_controller g c || framework_argument g c || ephemeral_profile g c) ≡ true)
        × (3 ≤ provenance_categories g c a root)
  unfolding strong_provenance
  automation_lem e =
      let (known, enough) =
        and_split (has_controller g c || framework_argument g c || ephemeral_profile g c)
          (leb 3 (provenance_categories g c a root)) e in
      (known, leb-true 3 (provenance_categories g c a root) enough)

  -- A candidate is cooling only if every member belongs to the current user and not to root, has its
  -- facts and its lineage known and is neither process 0 or 1 nor the program or an ancestor of it;
  -- every browser has one admitted version, is headless and has no debugging peer, seen in full where
  -- it has a debugging port; every profile is temporary, marked so by the pack, not a standard one and
  -- not shared with a process outside; the root is at least a minute old; no recorder is left beside
  -- it; a session that has a controller or an owning task has an owner that has released it, with no
  -- client, no live work, and no persistent or attached command line, all clients being seen; its
  -- controller has no live parent unless it is released; it counts as left; and it shows three kinds
  -- of evidence of automation.
  pub state-IsCooling : state g c a root observed ≡ cooling → IsCooling
  unfolding state profile_paths
  state-IsCooling e =
      let (quiet, live, strong, missing, alone) =
        cooling_facts (is_empty (protections g c a root observed))
          (controller_parent_live g c a root) (strong_provenance g c a root)
          (owner_missing g c a root) (isolated g c a root) e in
      let q = protections-Quiet quiet in
      let (found, temporary, nonstandard) = isolated_paths alone in
      let roots = flags_of_some (browser_roots g c) "--user-data-dir" found in
      record {
        members_safe = member_checks-MembersSafe g c a q.of_members;
        profiles_safe = profile_checks-ProfilesSafe g c q.of_profiles;
        has_browser = roots;
        is_uniform = version_checks-IsUniform roots q.of_version;
        is_temporary = λ path i.
            let h =
              all_each (λ x. contains_any x c.pack.ephemeral_profile_markers && is_ephemeral_path x)
                (profile_paths g c) path temporary i in
            let (marked, temporary_path) =
              and_split (contains_any path c.pack.ephemeral_profile_markers)
                (is_ephemeral_path path) h in
            (
              temporary_path,
              marked,
              any_none (λ x. contains_any x standard_profile_markers) (profile_paths g c) path
                  nonstandard i,
            );
        old_enough = age_checks_bounds q.of_age;
        no_recorder =
            λ p browser i j u. recorder_checks_quiet g c a root p browser q.of_recorders i j u;
        owner_released = owner_checks-OwnerReleased g c a root q.of_owner;
        no_live_parent = controller_parent_live-NoLiveParent g c a root live;
        owner_gone = owner_missing-LeftBehind g c a root missing;
        is_automation = automation_lem strong;
      }
