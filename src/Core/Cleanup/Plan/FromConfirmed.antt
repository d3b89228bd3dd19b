-- ===== src/Core/Cleanup/Plan/FromConfirmed.antt =====
-- crates/unlinger-core/src/cleanup.rs: what `CleanupPlan::from_confirmed` has checked of a plan.
use unlinger.Prelude.{
  ℕ, ◌≡◌, refl, inl, inr, Bool, true, false, ◌&&◌, ◌||◌, not, ◌>>=◌, ◌>>◌, subst, Option, none,
  some, List, [], ◌∷◌, map, String, str_eq, Result, ok, err, arith, Bool-cases, In, All, ltb, ◌==◌,
  any, find, keep, is_empty, is_some, length, contains, is_blank, guard, ==_iff,
}
use unlinger.Core.Model.{ProcessIdentity}
use unlinger.Core.State.{confirmed, state_eq}
use unlinger.Core.Evidence.{
  IncidentReport, ProcessTarget, cleanup_eligible, is_controller, is_browser_root,
}
use unlinger.Core.Artifact.{RuntimeArtifactCandidate}
use unlinger.Core.Cleanup.Plan.{
  CleanupPlan, check_targets, check_artifacts, root_target, identity_or_missing, from_confirmed,
  primary_targets,
}

abbrev pub Distinct : List ℕ → Type 0
Distinct [] = Unit
Distinct (n ∷ ns) = (contains ns n ≡ false) × Distinct ns

abbrev pub pids_of : List ProcessTarget → List ℕ
pids_of = map (λ t. t.identity.pid)

abbrev pub IsExact : ProcessTarget → Type 0
IsExact t = (is_some t.identity.executable_device && is_some t.identity.executable_inode) ≡ true

check_targets_cons :
    (pids : List ℕ) (t : ProcessTarget) (ts : List ProcessTarget)
    → check_targets pids (t ∷ ts) ≡ ok tt
    → (contains pids t.identity.pid ≡ false)
      × IsExact t
      × (check_targets (t.identity.pid ∷ pids) ts ≡ ok tt)
unfolding check_targets
check_targets_cons pids t ts e = ground arith

-- None of the pids was seen before.
abbrev Unseen : List ℕ → List ℕ → Type 0
Unseen pids ns = (n : ℕ) → contains pids n ≡ true → contains ns n ≡ false

check_targets_lem :
    (pids : List ℕ) (ts : List ProcessTarget)
    → check_targets pids ts ≡ ok tt
    → Distinct (pids_of ts) × All IsExact ts × Unseen pids (pids_of ts)
check_targets_lem pids [] e = (tt, tt, λ n c. refl)
check_targets_lem pids (t ∷ ts) e =
    let (fresh, exact, rest) = check_targets_cons pids t ts e in
    let (distinct, all_exact, unseen) = check_targets_lem (t.identity.pid ∷ pids) ts rest in
    (
      (unseen t.identity.pid (ground arith), distinct),
      (exact, all_exact),
      λ n c. ground (arith, unseen n, fresh, c),
    )

ok_injective : {E A : Type 0} (m : Result E A) (a b : A) → m ≡ ok a → m ≡ ok b → a ≡ b
ok_injective m a b e f = cc

guarded :
    {E B : Type 0} (b : Bool) (x : E) (k : Result E B) (y : B)
    → (guard b x >> k) ≡ ok y
    → (b ≡ true) × (k ≡ ok y)
guarded true x k y e = (refl, e)
guarded false x k y e = absurd (cc)

checked :
    {E B : Type 0} (m : Result E (Unit {0})) (k : Result E B) (y : B)
    → (m >> k) ≡ ok y
    → (m ≡ ok tt) × (k ≡ ok y)
checked (ok tt) k y e = (refl, e)
checked (err x) k y e = absurd (cc)

bound :
    {E A B : Type 0} (m : Result E A) (f : A → Result E B) (y : B)
    → (m >>= f) ≡ ok y
    → (a : A) × (m ≡ ok a) × (f a ≡ ok y)
bound (ok a) f y e = (a, refl, e)
bound (err x) f y e = absurd (cc)

check_artifacts_cons :
    (session : String) (seen : List String) (a : RuntimeArtifactCandidate)
    (as_ : List RuntimeArtifactCandidate)
    → check_artifacts session seen (a ∷ as_) ≡ ok tt
    → (str_eq a.session_fingerprint session ≡ true)
      × (check_artifacts session (a.artifact_fingerprint ∷ seen) as_ ≡ ok tt)
unfolding check_artifacts
check_artifacts_cons session seen a as_ e =
    let (same, rest) = guarded _ _ _ _ e in (same, (guarded _ _ _ _ rest).1)

check_artifacts_lem :
    (session : String) (seen : List String) (as_ : List RuntimeArtifactCandidate)
    → check_artifacts session seen as_ ≡ ok tt
    → All (λ a. str_eq a.session_fingerprint session ≡ true) as_
check_artifacts_lem session seen [] e = tt
check_artifacts_lem session seen (a ∷ as_) e =
    let (same, rest) = check_artifacts_cons session seen a as_ e in
    (same, check_artifacts_lem session (a.artifact_fingerprint ∷ seen) as_ rest)

identity_found :
    (o : Option ProcessTarget) (i : ProcessIdentity)
    → identity_or_missing o ≡ ok i
    → (t : ProcessTarget) × (o ≡ some t) × (t.identity ≡ i)
identity_found none i e = absurd (cc)
identity_found (some t) i e = (t, refl, ground arith)

find_lem :
    {A : Type 0} (p : A → Bool) (xs : List A) (a : A) → find p xs ≡ some a → In a xs × (p a ≡ true)
find_lem p [] a e = absurd (cc)
find_lem p (x ∷ xs) a e = elim (Bool-cases (p x)) [
  | inl here ↦ (inl (ground arith), ground arith)
  | inr there ↦ let (i, h) = find_lem p xs a (ground arith) in (inr i, h)
]

any-keep :
    {A : Type 0} (p : A → Bool) (xs : List A) → any p xs ≡ true → is_empty (keep p xs) ≡ false
any-keep p [] e = absurd (cc)
any-keep p (x ∷ xs) e = elim (Bool-cases (p x)) [
  | inl here ↦ ground arith
  | inr there ↦ let rest = any-keep p xs (ground arith) in ground arith
]

any_split :
    {A : Type 0} (p q : A → Bool) (xs : List A)
    → any (λ x. p x || q x) xs ≡ true
    → any p xs ≡ false
    → any q xs ≡ true
any_split p q [] e n = absurd (cc)
any_split p q (x ∷ xs) e n = ground (arith, any_split p q xs)

keep_none :
    {A : Type 0} (p : A → Bool) (xs : List A) → any p xs ≡ false → is_empty (keep p xs) ≡ true
keep_none p [] e = refl
keep_none p (x ∷ xs) e = ground (arith, keep_none p xs)

-- What `from_confirmed` guarantees of the plan and the report it was made from.
pub record IsSound (report : IncidentReport) (plan : CleanupPlan) : Type 0 where
  pub is_confirmed : state_eq report.state confirmed ≡ true
  pub is_eligible : cleanup_eligible report.gates ≡ true
  pub has_session : is_blank report.session_fingerprint ≡ false
  pub same_session : plan.session_fingerprint ≡ report.session_fingerprint
  pub same_targets : plan.targets ≡ report.targets
  pub same_artifacts : plan.artifacts ≡ report.runtime_artifacts
  pub distinct_pids : Distinct (pids_of plan.targets)
  pub all_exact : All IsExact plan.targets
  pub root : ProcessTarget
  pub root_is_target : In root plan.targets
  pub root_identity : root.identity ≡ plan.root_identity
  pub root_pid : root.identity.pid ≡ report.root.pid
  pub has_primary : is_empty (primary_targets plan) ≡ false
  pub one_artifact : ltb 1 (length plan.artifacts) ≡ false
  pub artifact_sessions :
      All (λ a. str_eq a.session_fingerprint plan.session_fingerprint ≡ true) plan.artifacts

primary_lem :
    (plan : CleanupPlan)
    → any (λ t. is_controller t.role || is_browser_root t.role) plan.targets ≡ true
    → is_empty (primary_targets plan) ≡ false
unfolding primary_targets
primary_lem plan e = elim (Bool-cases (any (λ t. is_controller t.role) plan.targets)) [
  | inl c ↦
      rw (any-keep (λ t. is_controller t.role) plan.targets c)
        (any-keep (λ t. is_controller t.role) plan.targets c)
  | inr n ↦ rw (keep_none (λ t. is_controller t.role) plan.targets n) (
      any-keep (λ t. is_browser_root t.role) plan.targets
        (any_split (λ t. is_controller t.role) (λ t. is_browser_root t.role) plan.targets e n))
]

abbrev plan_of : IncidentReport → ProcessIdentity → CleanupPlan
plan_of report root = record {
  incident_id = report.incident_id;
  tracking_key = report.tracking_key;
  session_fingerprint = report.session_fingerprint;
  signature_pack = report.signature_pack;
  signature_version = report.signature_version;
  root_identity = root;
  member_fingerprint = report.member_fingerprint;
  targets = report.targets;
  artifacts = report.runtime_artifacts;
}

not-true : (b : Bool) → not b ≡ true → b ≡ false
not-true true e = absurd (cc)
not-true false e = refl

plan_of-IsSound :
    (report : IncidentReport) (root : ProcessIdentity)
    → (state_eq report.state confirmed && cleanup_eligible report.gates) ≡ true
    → is_blank report.session_fingerprint ≡ false
    → check_targets [] report.targets ≡ ok tt
    → ltb 1 (length report.runtime_artifacts) ≡ false
    → check_artifacts report.session_fingerprint [] report.runtime_artifacts ≡ ok tt
    → identity_or_missing (root_target report) ≡ ok root
    → any (λ t. is_controller t.role || is_browser_root t.role) report.targets ≡ true
    → IsSound report (plan_of report root)
plan_of-IsSound report root gates session targets few artifacts found primary =
    let (distinct, exact, unseen) = check_targets_lem [] report.targets targets in
    let (t, is_found, same) = identity_found (root_target report) root found in
    let (is_in, same_pid) =
      find_lem (λ x. x.identity.pid == report.root.pid) report.targets t is_found in
    record {
      is_confirmed = ground arith;
      is_eligible = ground arith;
      has_session = session;
      same_session = refl;
      same_targets = refl;
      same_artifacts = refl;
      distinct_pids = distinct;
      all_exact = exact;
      root = t;
      root_is_target = is_in;
      root_identity = same;
      root_pid = (==_iff t.identity.pid report.root.pid).0 same_pid;
      has_primary = primary_lem (plan_of report root) primary;
      one_artifact = few;
      artifact_sessions =
          check_artifacts_lem report.session_fingerprint [] report.runtime_artifacts artifacts;
    }

-- A plan is frozen only from a report that is confirmed and passes every gate; it keeps the report's
-- targets, session and artifacts; its targets have distinct pids and complete identities; its root is
-- one of them, under the report's root pid; there is a primary target to begin with; and there is at
-- most one artifact, of the same session.
pub from_confirmed-IsSound :
    (report : IncidentReport) (plan : CleanupPlan)
    → from_confirmed report ≡ ok plan
    → IsSound report plan
unfolding from_confirmed
from_confirmed-IsSound report plan e =
    let (gates, e1) = guarded _ _ _ _ e in
    let (some_targets, e2) = guarded _ _ _ _ e1 in
    let (session, e3) = guarded _ _ _ _ e2 in
    let (targets, e4) = checked _ _ _ e3 in
    let (few, e5) = guarded _ _ _ _ e4 in
    let (artifacts, e6) = checked _ _ _ e5 in
    let (root, found, e7) = bound _ _ _ e6 in
    let (primary, e8) = guarded _ _ _ _ e7 in
    subst (IsSound report) (ok_injective _ _ _ refl e8) (
      plan_of-IsSound report root gates (not-true _ session) targets (not-true _ few) artifacts
        found primary)
