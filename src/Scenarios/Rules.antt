-- ===== src/Scenarios/Rules.antt =====
-- Concrete sessions for the classification rules: the tests, and the instances of the theorems at them.
use unlinger.Prelude.{
  ℕ, All, u64_max, if◌then◌else◌, ◌+◌, ◌*◌, ◌≤◌, ◌<◌, ◌≡◌, ◌↔◌, refl, inl, Bool, true, false, none,
  some, List, [], ◌∷◌, String, bytes, any, is_empty, Result, ok, err, In,
}
use unlinger.Core.Model.{ProcessRecord, Snapshot}
use unlinger.Core.Cleanup.Plan.{CleanupPlan, from_confirmed}
use unlinger.Core.Cleanup.Runtime.{
  Environment, History, before_signal, default_policy, eligible, gone, revival_check,
}
use unlinger.Core.Cleanup.Execute.{execute}
use unlinger.Rules.Gate.{CandidateAgeGate, candidate_age_gate, evaluate_browser_versions}
use unlinger.Rules.Gate.Supported.{
  IsUniform, candidate_age_gate_eligible_iff, evaluate_browser_versions-IsUniform,
}
use unlinger.Rules.Pack.Version.Bounds.{parse_dotted_version_bounds}
use unlinger.Rules.Classify.Cooling.{IsCooling}
use unlinger.Rules.Observe.Confirmed.{IsConfirmed, reconcile_with_abandonment-IsConfirmed}
use unlinger.Rules.Observe.Seen.{IsObserved, observe-IsCooling}
use unlinger.Rules.Revalidate.{revalidate}
use unlinger.Rules.Revalidate.Eligible.{IsEligible, revalidate-IsEligible}
use unlinger.Rules.Revalidate.Gone.{IsGone, revalidate_gone}
use unlinger.Scenarios.Tables.{sample_report}
use unlinger.Core.State.{IncidentState, confirmed, cooling}
use unlinger.Core.Evidence.{IncidentReport}
use unlinger.Rules.Pack.{SignaturePack, exact_allowlist, os_term_only}
use unlinger.Rules.Pack.Version.{parse_dotted_version}
use unlinger.Rules.Ownership.{Analyzer}
use unlinger.Rules.Observe.{observe, reconcile_with_abandonment}
use unlinger.Scenarios.{browser_process, is_signal, sample_plan, table, world}

abbrev pub pack : SignaturePack
pack = record {
  schema_version = 2;
  id = "playwright";
  version = "1";
  supported_versions = "all";
  task_controller_version = none;
  session_owner_controller_version = none;
  controller_markers = "playwright/driver" ∷ [];
  framework_markers = "ms-playwright" ∷ [];
  ephemeral_profile_markers = "playwright_chromiumdev_profile" ∷ [];
  browser_executable_markers = "chrome" ∷ [];
  recorder_executable_basenames = "ffmpeg-mac" ∷ [];
  graceful_strategy = os_term_only;
  version_policy = exact_allowlist "org.example.browser" ("149.0" ∷ []);
  artifact_policy = record { devtools_active_port = false };
}

abbrev pub analyzer : Analyzer
analyzer = record {
  packs = pack ∷ [];
  context = record {
    self_pid = some 7;
    ancestor_pids = 1 ∷ [];
    task_controllers = [];
    session_owners = [];
  };
}

-- A browser that its controller has left behind.
abbrev pub orphan : ProcessRecord
orphan =
    let facts = browser_process.runtime in
    record browser_process {
      arguments = some (
          "--headless" ∷ "--remote-debugging-pipe"
          ∷ "--user-data-dir=/tmp/playwright_chromiumdev_profile-x" ∷ []);
      runtime = record facts {
        app_bundle = some (record { bundle_id = "org.example.browser"; short_version = "149.0" });
      };
    }

abbrev pub orphan_at : ℕ → Snapshot
orphan_at now = let t = table (orphan ∷ []) in record t { observed_at_unix_millis = now }

abbrev pub value_of : {E A : Type 0} → A → Result E A → A
value_of a (ok x) = x
value_of a (err e) = a

abbrev pub reports_at : ℕ → List IncidentReport
reports_at now = value_of [] (observe analyzer (orphan_at now))

abbrev pub is_ok : {E A : Type 0} → Result E A → Bool
is_ok (ok x) = true
is_ok (err e) = false

pub ok_value : {E A : Type 0} (a : A) (r : Result E A) → is_ok r ≡ true → r ≡ ok (value_of a r)
ok_value a (ok x) e = refl
ok_value a (err e') e = absurd (cc)

abbrev pub first_or : {A : Type 0} → A → List A → A
first_or a [] = a
first_or a (x ∷ xs) = x

pub first-In : {A : Type 0} (a : A) (xs : List A) → is_empty xs ≡ false → In (first_or a xs) xs
first-In a [] e = absurd (cc)
first-In a (x ∷ xs) e = inl refl

abbrev pub report_at : ℕ → IncidentReport
report_at now = first_or sample_report (reports_at now)

early_is_seen : is_ok (observe analyzer (orphan_at 100000)) ≡ true
unfolding observe
early_is_seen = refl

late_is_seen : is_ok (observe analyzer (orphan_at 101000)) ≡ true
unfolding observe
late_is_seen = refl

early_is_cooling : (report_at 100000).state ≡ cooling
unfolding observe
early_is_cooling = refl

early_is_found : is_empty (reports_at 100000) ≡ false
unfolding observe
early_is_found = refl

-- A browser that has not lived for a minute is protected.
young_is_protected : (report_at 50000).state ≡ IncidentState.protected
unfolding observe
young_is_protected = refl

observe-IsCooling_example :
    (o : IsObserved analyzer (orphan_at 100000) (report_at 100000)) × IsCooling o.graph o.candidate
      analyzer o.root 100000
observe-IsCooling_example =
    observe-IsCooling analyzer (orphan_at 100000) (reports_at 100000) (report_at 100000)
      (ok_value [] (observe analyzer (orphan_at 100000)) early_is_seen)
      (first-In sample_report (reports_at 100000) early_is_found) early_is_cooling

-- The reports of two observations, with the key of the second confirmed.
abbrev pub keys : List String
keys = (report_at 101000).tracking_key ∷ []

abbrev pub confirmed_reports : List IncidentReport
confirmed_reports = reconcile_with_abandonment (reports_at 100000) (reports_at 101000) keys

abbrev pub confirmed_report : IncidentReport
confirmed_report = first_or sample_report confirmed_reports

pub is_confirmed : confirmed_report.state ≡ confirmed
unfolding observe reconcile_with_abandonment
is_confirmed = refl

is_settled : is_empty confirmed_reports ≡ false
unfolding observe reconcile_with_abandonment
is_settled = refl

reconcile_with_abandonment-IsConfirmed_example :
    (w : IsConfirmed (reports_at 100000) (reports_at 101000) keys confirmed_report)
    × ((o : IsObserved analyzer (orphan_at 100000) w.previous) × IsCooling o.graph o.candidate
          analyzer o.root 100000)
    × ((o : IsObserved analyzer (orphan_at 101000) w.latest) × IsCooling o.graph o.candidate
          analyzer o.root 101000)
reconcile_with_abandonment-IsConfirmed_example =
    reconcile_with_abandonment-IsConfirmed analyzer (orphan_at 100000) (orphan_at 101000)
      (reports_at 100000) (reports_at 101000) keys confirmed_report
      (ok_value [] (observe analyzer (orphan_at 100000)) early_is_seen)
      (ok_value [] (observe analyzer (orphan_at 101000)) late_is_seen)
      (first-In sample_report confirmed_reports is_settled) is_confirmed

-- The plan of the confirmed report.
abbrev pub plan : CleanupPlan
plan = value_of sample_plan (from_confirmed confirmed_report)

is_eligible : (revalidate analyzer (orphan_at 102000) plan before_signal).status ≡ eligible
unfolding observe reconcile_with_abandonment from_confirmed revalidate
is_eligible = refl

revalidate-IsEligible_example : IsEligible analyzer (orphan_at 102000) plan
revalidate-IsEligible_example = revalidate-IsEligible analyzer (orphan_at 102000) plan is_eligible

abbrev empty_at : ℕ → Snapshot
empty_at now =
    let t = table [] in
    let c = t.coverage in
    record t {
      observed_at_unix_millis = now;
      coverage = record c { listed_processes = 0; inspected_processes = 0 };
    }

is_gone : (revalidate analyzer (empty_at 102000) plan revival_check).status ≡ gone
unfolding observe reconcile_with_abandonment from_confirmed revalidate
is_gone = refl

revalidate_gone_example : IsGone analyzer (empty_at 102000) plan
revalidate_gone_example = revalidate_gone analyzer (empty_at 102000) plan is_gone

-- A world in which the analyzer revalidates, and a signal ends the browser.
abbrev analyzed_world : Environment
analyzed_world =
    let w = world false in
    record w {
      snapshot = λ h. ok (if any is_signal h then empty_at 102000 else orphan_at 102000);
      revalidate = revalidate analyzer;
    }

abbrev analyzed : History
analyzed = (execute analyzed_world plan default_policy).1

evaluate_browser_versions-IsUniform_example : IsUniform (orphan ∷ []) pack.version_policy
unfolding evaluate_browser_versions
evaluate_browser_versions-IsUniform_example =
    evaluate_browser_versions-IsUniform (orphan ∷ []) pack.version_policy refl

candidate_age_gate_eligible_iff_example :
    (candidate_age_gate 100000 1000 ≡ CandidateAgeGate.eligible)
    ↔ ((0 < 1000) × (100000 * 1000 ≤ u64_max) × (1000 + 60000000 ≤ 100000 * 1000))
candidate_age_gate_eligible_iff_example = candidate_age_gate_eligible_iff 100000 1000

parse_dotted_version_bounds_example :
    (0 < 7) × (7 ≤ 64) × (0 < 2) × (2 ≤ 8) × All (λ n. n ≤ u64_max) (149 ∷ 2 ∷ [])
unfolding parse_dotted_version
parse_dotted_version_bounds_example =
    parse_dotted_version_bounds (bytes "149.2.0") (149 ∷ 2 ∷ []) refl
