-- ===== src/Rules/Pack.antt =====
-- crates/unlinger-rules/src/lib.rs: signature packs and what makes one valid.
-- The text of an error is left out; the pack it names is kept.
pub mod Version
use unlinger.Prelude.{
  ℕ, ◌==◌, ltb, Bool, true, false, ◌&&◌, ◌||◌, not, Option, none, some, List, [], ◌∷◌, ◌++◌, String,
  str_eq, Result, ok, err, ◌>>=◌, ◌>>◌, guard, any, all, is_empty, length, bytes, is_blank,
  if◌then◌else◌, is_some, leb,
}
use unlinger.Core.Fingerprint.{row_le}
use unlinger.Rules.Text.{bytes_eq, to_ascii_lowercase, trim, contains_text}
use unlinger.Rules.Pack.Version.{parse_dotted_version}

pub data GracefulStrategy : Type 0 where
  os_term_only : GracefulStrategy

pub data VersionPolicy : Type 0 where
  observational : VersionPolicy
  exact_allowlist : String → List String → VersionPolicy
  bounded_range : String → String → String → VersionPolicy

pub record ArtifactPolicy : Type 0 where
  pub devtools_active_port : Bool

pub record SignaturePack : Type 0 where
  pub schema_version : ℕ
  pub id : String
  pub version : String
  pub supported_versions : String
  pub task_controller_version : Option String
  pub session_owner_controller_version : Option String
  pub controller_markers : List String
  pub framework_markers : List String
  pub ephemeral_profile_markers : List String
  pub browser_executable_markers : List String
  pub recorder_executable_basenames : List String
  pub graceful_strategy : GracefulStrategy
  pub version_policy : VersionPolicy
  pub artifact_policy : ArtifactPolicy

pub data RuleError : Type 0 where
  parse invalid_pack : String → RuleError
  invalid_graph : ℕ → RuleError

unfoldable pub validate_bundle_id : String → String → Result RuleError (Unit {0})
unfolding trim bytes_eq contains_text
validate_bundle_id pack_id bundle_id =
    let text = bytes bundle_id in
    guard
      (not (
        is_empty text
        || ltb 192 (length text)
        || not (bytes_eq (trim bundle_id) text)
        || not (contains_text text (bytes "."))))
      (invalid_pack pack_id)

-- The loop over the exact versions; `seen` are those already met.
unfoldable pub check_versions : String → List String → List String → Result RuleError (Unit {0})
unfolding parse_dotted_version
check_versions pack_id seen [] = ok tt
check_versions pack_id seen (v ∷ vs) =
    guard (is_some (parse_dotted_version (bytes v))) (invalid_pack pack_id)
    >> (guard (not (any (str_eq v) seen)) (invalid_pack pack_id)
        >> check_versions pack_id (v ∷ seen) vs)

abbrev some_or : {A : Type 0} → RuleError → Option A → Result RuleError A
some_or e none = err e
some_or e (some a) = ok a

-- `VersionPolicy::validate`.
unfoldable pub validate_policy : String → VersionPolicy → Result RuleError (Unit {0})
unfolding validate_bundle_id check_versions row_le
validate_policy pack_id observational = ok tt
validate_policy pack_id (exact_allowlist bundle_id versions) = do
  validate_bundle_id pack_id bundle_id
  guard (not (is_empty versions)) (invalid_pack pack_id)
  check_versions pack_id [] versions
validate_policy pack_id (bounded_range bundle_id minimum_inclusive maximum_inclusive) = do
  validate_bundle_id pack_id bundle_id
  minimum ← some_or (invalid_pack pack_id) (parse_dotted_version (bytes minimum_inclusive))
  maximum ← some_or (invalid_pack pack_id) (parse_dotted_version (bytes maximum_inclusive))
  guard (row_le minimum maximum) (invalid_pack pack_id)

abbrev not_blank : Option String → Bool
not_blank none = true
not_blank (some s) = not (is_blank s)

-- The loop over the recorders' names; `seen` are the names already met.
unfoldable pub check_recorders : String → List (List ℕ) → List String → Result RuleError (Unit {0})
unfolding to_ascii_lowercase trim bytes_eq contains_text
check_recorders pack_id seen [] = ok tt
check_recorders pack_id seen (name ∷ names) =
    let normalized = to_ascii_lowercase (trim name) in
    guard
      (not (
        is_empty normalized
        || not (bytes_eq normalized (bytes name))
        || contains_text normalized (bytes "/")
        || contains_text normalized (0x5c ∷ [])
        || any (bytes_eq normalized) seen))
      (invalid_pack pack_id)
    >> check_recorders pack_id (normalized ∷ seen) names

-- `SignaturePack::validate`.
unfoldable pub validate_pack : SignaturePack → Result RuleError (Unit {0})
unfolding is_blank trim check_recorders validate_policy
validate_pack p = do
  guard (p.schema_version == 2) (invalid_pack p.id)
  guard
      (not (
        is_blank p.id
        || is_blank p.version
        || is_blank p.supported_versions
        || is_empty p.controller_markers
        || is_empty p.framework_markers
        || is_empty p.ephemeral_profile_markers
        || is_empty p.browser_executable_markers
        || is_empty p.recorder_executable_basenames))
      (invalid_pack p.id)
  guard (not_blank p.task_controller_version && not_blank p.session_owner_controller_version)
      (invalid_pack p.id)
  guard
      (all (λ m. not (ltb (length (trim m)) 4))
        (p.controller_markers
          ++ (p.framework_markers
              ++ (p.ephemeral_profile_markers ++ p.browser_executable_markers))))
      (invalid_pack p.id)
  check_recorders p.id [] p.recorder_executable_basenames
  validate_policy p.id p.version_policy

unfoldable pub insert_pack : SignaturePack → List SignaturePack → List SignaturePack
unfolding row_le
insert_pack p [] = p ∷ []
insert_pack p (q ∷ qs) =
    if row_le (bytes p.id) (bytes q.id) then p ∷ q ∷ qs else q ∷ insert_pack p qs

-- `sort_by` the pack's id, a stable sort.
unfoldable pub sort_packs : List SignaturePack → List SignaturePack
unfolding insert_pack
sort_packs [] = []
sort_packs (p ∷ ps) = insert_pack p (sort_packs ps)

-- The loop of `RuleSet::embedded`, given the TOML parser.
unfoldable pub admit_packs :
    (String → Result String SignaturePack)
    → List SignaturePack
    → List String
    → Result RuleError (List SignaturePack)
unfolding validate_pack
admit_packs from_str admitted [] = ok admitted
admit_packs from_str admitted (s ∷ ss) = elim (from_str s) [
  | err message ↦ err (parse message)
  | ok p ↦
      validate_pack p
      >> (guard (not (any (λ q. str_eq p.id q.id) admitted)) (invalid_pack p.id)
          >> admit_packs from_str (admitted ++ p ∷ []) ss)
]

-- `RuleSet::embedded`, given the TOML parser and the sources.
unfoldable pub embedded :
    (String → Result String SignaturePack) → List String → Result RuleError (List SignaturePack)
unfolding admit_packs sort_packs
embedded from_str sources = admit_packs from_str [] sources >>= λ packs. ok (sort_packs packs)
