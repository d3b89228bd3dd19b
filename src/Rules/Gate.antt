-- ===== src/Rules/Gate.antt =====
-- crates/unlinger-rules/src/lib.rs: the gates on browser versions and on a candidate's age, and the
-- compatibility that a report states.
pub mod Supported
use unlinger.Prelude.{
  cons_some, ℕ, ◌*◌, ◌-◌, ◌==◌, ltb, leb, Bool, true, false, ◌&&◌, ◌||◌, not, Option, none, some,
  List, [], ◌∷◌, String, str_eq, any, is_empty, length, bytes, u64_max, if◌then◌else◌, is_some,
}
use unlinger.Core.Model.{AppBundleVersion, ProcessRecord}
use unlinger.Core.Evidence.{
  BrowserCompatibility, BrowserCompatibilityDecision, BrowserProduct, chrome_for_testing, chromium,
  google_chrome, automatic, observe_only, protected,
}
use unlinger.Core.Fingerprint.{row_le}
use unlinger.Core.Task.{task_id_from_session}
use unlinger.Rules.Text.{bytes_eq, is_text, to_ascii_lowercase}
use unlinger.Rules.Pack.{SignaturePack, VersionPolicy, exact_allowlist, bounded_range}
use unlinger.Rules.Pack.Version.{parse_dotted_version}

pub data BrowserVersionGate : Type 0 where
  exact_supported range_supported observational missing_facts : BrowserVersionGate
  mixed_facts unsupported_product unsupported_version : BrowserVersionGate

abbrev pub supported : BrowserVersionGate → Bool
supported exact_supported = true
supported range_supported = true
supported _ = false

-- `filter_map(|process| process.runtime.app_bundle.as_ref())`.
unfoldable pub bundle_facts : List ProcessRecord → List AppBundleVersion
bundle_facts [] = []
bundle_facts (p ∷ ps) = cons_some p.runtime.app_bundle (bundle_facts ps)

abbrev pub bundle_eq : AppBundleVersion → AppBundleVersion → Bool
bundle_eq a b = str_eq a.bundle_id b.bundle_id && str_eq a.short_version b.short_version

-- The distinct facts, collected into a set.
unfoldable pub unique_facts : List AppBundleVersion → List AppBundleVersion
unique_facts [] = []
unique_facts (b ∷ bs) =
    let rest = unique_facts bs in if any (bundle_eq b) rest then rest else b ∷ rest

-- `minimum <= version && version <= maximum` of the parsed versions.
abbrev pub in_range : Option (List ℕ) → Option (List ℕ) → Option (List ℕ) → BrowserVersionGate
in_range (some version) (some minimum) (some maximum) =
    if row_le minimum version && row_le version maximum
    then range_supported
    else unsupported_version
in_range (some version) (some minimum) none = unsupported_version
in_range (some version) none maximum = unsupported_version
in_range none minimum maximum = unsupported_version

-- The `match policy`, for the one fact of all the browsers.
unfoldable pub policy_gate : AppBundleVersion → VersionPolicy → BrowserVersionGate
unfolding parse_dotted_version row_le
policy_gate fact VersionPolicy.observational = BrowserVersionGate.observational
policy_gate fact (exact_allowlist bundle_id versions) =
    if not (str_eq fact.bundle_id bundle_id)
    then unsupported_product
    else if any (str_eq fact.short_version) versions
    then exact_supported
    else unsupported_version
policy_gate fact (bounded_range bundle_id minimum_inclusive maximum_inclusive) =
    if not (str_eq fact.bundle_id bundle_id)
    then unsupported_product
    else in_range (parse_dotted_version (bytes fact.short_version))
        (parse_dotted_version (bytes minimum_inclusive))
        (parse_dotted_version (bytes maximum_inclusive))

-- The gate of the facts: the first is at hand where they are all the same.
abbrev pub first_gate : List AppBundleVersion → VersionPolicy → BrowserVersionGate
first_gate [] policy = mixed_facts
first_gate (fact ∷ facts) policy = policy_gate fact policy

unfoldable pub evaluate_browser_versions : List ProcessRecord → VersionPolicy → BrowserVersionGate
unfolding bundle_facts unique_facts policy_gate
evaluate_browser_versions browser_roots policy =
    if not (length (bundle_facts browser_roots) == length browser_roots)
    then missing_facts
    else if not (length (unique_facts (bundle_facts browser_roots)) == 1)
    then mixed_facts
    else first_gate (bundle_facts browser_roots) policy

unfoldable pub browser_product : String → BrowserProduct
unfolding to_ascii_lowercase bytes_eq
browser_product bundle_id =
    let id = to_ascii_lowercase (bytes bundle_id) in
    if bytes_eq id (bytes "com.google.chrome.for.testing")
    then chrome_for_testing
    else if bytes_eq id (bytes "org.chromium.chromium")
    then chromium
    else if bytes_eq id (bytes "com.google.chrome")
    then google_chrome
    else BrowserProduct.other

-- The distinct texts among one field of the facts.
unfoldable pub unique_texts : List String → List String
unique_texts [] = []
unique_texts (s ∷ ss) = let rest = unique_texts ss in if any (str_eq s) rest then rest else s ∷ rest

unfoldable pub bundle_ids : List AppBundleVersion → List String
bundle_ids [] = []
bundle_ids (b ∷ bs) = b.bundle_id ∷ bundle_ids bs

unfoldable pub short_versions : List AppBundleVersion → List String
short_versions [] = []
short_versions (b ∷ bs) = b.short_version ∷ short_versions bs

abbrev first_text : List String → Option String
first_text [] = none
first_text (s ∷ ss) = some s

abbrev product_of : Option String → BrowserProduct
product_of none = BrowserProduct.unknown
product_of (some id) = browser_product id

-- The `match version_gate` of `browser_compatibility`.
abbrev pub compatibility_decision :
    Option BrowserVersionGate → Option String → Bool → BrowserCompatibilityDecision × Option String
compatibility_decision none unverified incomplete =
    (BrowserCompatibilityDecision.unknown, some "ambiguity.browser_root_missing")
compatibility_decision (some mixed_facts) unverified incomplete =
    (BrowserCompatibilityDecision.protected, some "protection.browser_version_mixed")
compatibility_decision (some unsupported_product) unverified incomplete =
    (BrowserCompatibilityDecision.protected, some "protection.browser_product_unsupported")
compatibility_decision (some unsupported_version) unverified incomplete =
    (BrowserCompatibilityDecision.protected, some "protection.browser_version_unsupported")
compatibility_decision (some missing_facts) unverified incomplete =
    (BrowserCompatibilityDecision.unknown, some "protection.browser_version_missing")
compatibility_decision (some BrowserVersionGate.observational) unverified incomplete =
    (observe_only, some "protection.version_observational_only")
compatibility_decision (some _) (some reason) incomplete =
    (BrowserCompatibilityDecision.protected, some reason)
compatibility_decision (some _) none true =
    (BrowserCompatibilityDecision.protected, some "protection.debug_peer_visibility_incomplete")
compatibility_decision (some _) none false = (automatic, none)

unfoldable pub browser_compatibility :
    List ProcessRecord → Option BrowserVersionGate → Option String → Bool → BrowserCompatibility
unfolding bundle_facts unique_texts bundle_ids short_versions browser_product
browser_compatibility browser_roots version_gate unverified incomplete =
    let facts = bundle_facts browser_roots in
    let complete = length facts == length browser_roots in
    let decision = compatibility_decision version_gate unverified incomplete in
    record {
      product =
          if complete && length (unique_texts (bundle_ids facts)) == 1
          then product_of (first_text (bundle_ids facts))
          else BrowserProduct.unknown;
      observed_version =
          if complete && length (unique_texts (short_versions facts)) == 1
          then first_text (short_versions facts)
          else none;
      decision = decision.0;
      reason_id = decision.1;
    }

abbrev pub policy_bundle_id : VersionPolicy → Option String
policy_bundle_id VersionPolicy.observational = none
policy_bundle_id (exact_allowlist bundle_id versions) = some bundle_id
policy_bundle_id (bounded_range bundle_id minimum maximum) = some bundle_id

unfoldable pub ordinary_cli_session : ProcessRecord → Bool
unfolding task_id_from_session
ordinary_cli_session controller = elim controller.runtime.playwright_cli [
  | none ↦ false
  | some cli ↦ not (is_some (task_id_from_session (bytes cli.session_name)))
]

unfoldable pub ordinary_controller_version_supported : SignaturePack → ProcessRecord → Bool
ordinary_controller_version_supported pack controller = elim controller.runtime.playwright_cli [
  | none ↦ false
  | some cli ↦ is_text pack.session_owner_controller_version cli.version
]

unfoldable pub unverified_controller_reason :
    Bool → Bool → Bool → ProcessRecord → SignaturePack → Option String
unfolding ordinary_cli_session ordinary_controller_version_supported
unverified_controller_reason has_controller has_task_binding has_session_owner controller pack =
    if not has_controller || has_task_binding || has_session_owner
    then none
    else if ordinary_cli_session controller && ordinary_controller_version_supported pack controller
    then some "protection.ordinary_session_owner_unverified"
    else some "protection.controller_version_unverified"

pub data CandidateAgeGate : Type 0 where
  eligible too_young unknown : CandidateAgeGate

abbrev pub minimum_candidate_age_micros : ℕ
minimum_candidate_age_micros = 60 * 1000000

unfoldable pub candidate_age_gate : ℕ → ℕ → CandidateAgeGate
candidate_age_gate observed_at_unix_millis started_at_unix_micros =
    if started_at_unix_micros == 0
    then CandidateAgeGate.unknown
    else if not (leb (observed_at_unix_millis * 1000) u64_max)
    then CandidateAgeGate.unknown
    else if ltb (observed_at_unix_millis * 1000) started_at_unix_micros
    then CandidateAgeGate.unknown
    else if ltb (observed_at_unix_millis * 1000 - started_at_unix_micros)
        minimum_candidate_age_micros
    then too_young
    else CandidateAgeGate.eligible
