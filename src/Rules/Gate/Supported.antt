-- ===== src/Rules/Gate/Supported.antt =====
-- crates/unlinger-rules/src/lib.rs: what the gates on versions and ages let through.
use unlinger.Prelude.{
  cons_some, ℕ, ◌+◌, ◌*◌, ◌≤◌, ◌<◌, ◌≡◌, ◌↔◌, refl, sym, ap, ◌∙◌, inl, inr, true, Option, none,
  some, List, [], ◌∷◌, str_eq, eq_iff, arith, Bool-cases, Option-cases, In, any, any_some, ==_iff,
  length, bytes, ◌==◌, u64_max,
}
use unlinger.Core.Model.{AppBundleVersion, ProcessRecord}
use unlinger.Core.Fingerprint.{row_le}
use unlinger.Rules.Pack.{VersionPolicy, exact_allowlist, bounded_range}
use unlinger.Rules.Pack.Version.{parse_dotted_version}
use unlinger.Rules.Gate.{
  CandidateAgeGate, bundle_eq, bundle_facts, candidate_age_gate, evaluate_browser_versions,
  first_gate, in_range, policy_gate, supported, unique_facts,
}

-- A version that a policy admits for a bundle.
abbrev pub IsAdmitted : AppBundleVersion → VersionPolicy → Type 0
IsAdmitted fact VersionPolicy.observational = ⊥
IsAdmitted fact (exact_allowlist bundle_id versions) =
    (fact.bundle_id ≡ bundle_id) × (any (str_eq fact.short_version) versions ≡ true)
IsAdmitted fact (bounded_range bundle_id minimum_inclusive maximum_inclusive) =
    (fact.bundle_id ≡ bundle_id)
    × ((version : List ℕ) × (minimum : List ℕ) × (maximum : List ℕ) × (parse_dotted_version
            (bytes fact.short_version)
          ≡ some version)
        × (parse_dotted_version (bytes minimum_inclusive) ≡ some minimum)
        × (parse_dotted_version (bytes maximum_inclusive) ≡ some maximum)
        × (row_le minimum version ≡ true)
        × (row_le version maximum ≡ true))

in_range-supported :
    (v lo hi : Option (List ℕ))
    → supported (in_range v lo hi) ≡ true
    → (version : List ℕ) × (minimum : List ℕ) × (maximum : List ℕ) × (v ≡ some version)
      × (lo ≡ some minimum)
      × (hi ≡ some maximum)
      × (row_le minimum version ≡ true)
      × (row_le version maximum ≡ true)
in_range-supported none lo hi e = absurd (cc)
in_range-supported (some v) none hi e = absurd (cc)
in_range-supported (some v) (some lo) none e = absurd (cc)
in_range-supported (some v) (some lo) (some hi) e =
    (v, lo, hi, refl, refl, refl, ground (arith, e), ground (arith, e))

policy_gate-IsAdmitted :
    (fact : AppBundleVersion) (policy : VersionPolicy)
    → supported (policy_gate fact policy) ≡ true
    → IsAdmitted fact policy
unfolding policy_gate
policy_gate-IsAdmitted fact VersionPolicy.observational e = absurd (cc)
policy_gate-IsAdmitted fact (exact_allowlist bundle_id versions) e =
    elim (Bool-cases (str_eq fact.bundle_id bundle_id)) [
      | inr other ↦ absurd (ground (arith, e, other))
      | inl same ↦ ((eq_iff fact.bundle_id bundle_id).0 same, ground (arith, e, same))
    ]
policy_gate-IsAdmitted fact (bounded_range bundle_id lo hi) e =
    elim (Bool-cases (str_eq fact.bundle_id bundle_id)) [
      | inr other ↦ absurd (ground (arith, e, other))
      | inl same ↦ (
        (eq_iff fact.bundle_id bundle_id).0 same,
        in_range-supported (parse_dotted_version (bytes fact.short_version))
            (parse_dotted_version (bytes lo)) (parse_dotted_version (bytes hi)) (rw same at e),
      )
    ]

-- A fact is among the distinct facts, up to the equality of facts.
unique_facts_keep :
    (b : AppBundleVersion) (bs : List AppBundleVersion)
    → In b bs
    → (x : AppBundleVersion) × In x (unique_facts bs) × (bundle_eq b x ≡ true)
unfolding unique_facts
unique_facts_keep b [] i = absurd i
unique_facts_keep b (y ∷ ys) i = elim (Bool-cases (any (bundle_eq y) (unique_facts ys))) [
  | inl known ↦ rw known (elim i [
    | inl same ↦ let (x, j, h) = any_some (bundle_eq y) (unique_facts ys) known in (x, j, rw same h)
    | inr later ↦ unique_facts_keep b ys later
  ])
  | inr fresh ↦ rw fresh (elim i [
    | inl same ↦ (
      y,
      inl refl,
      rw same
          (ground (arith, eq_iff y.bundle_id y.bundle_id, eq_iff y.short_version y.short_version)),
    )
    | inr later ↦ let (x, j, h) = unique_facts_keep b ys later in (x, inr j, h)
  ])
]

single_In :
    (x y : AppBundleVersion) (us : List AppBundleVersion)
    → length us ≡ 1
    → In x us
    → In y us
    → x ≡ y
single_In x y [] e i j = absurd i
single_In x y (u ∷ []) e (inl i) (inl j) = i ∙ sym j
single_In x y (u ∷ []) e (inl i) (inr j) = absurd j
single_In x y (u ∷ []) e (inr i) j = absurd i
single_In x y (u ∷ v ∷ us) e i j = absurd (ground arith)

bundle_eq-eq : (x y : AppBundleVersion) → bundle_eq x y ≡ true → x ≡ y
bundle_eq-eq x y e =
    ground (arith, eq_iff x.bundle_id y.bundle_id, eq_iff x.short_version y.short_version)

-- The facts of all the processes, where none is missing.
facts_each : (ps : List ProcessRecord) → length (bundle_facts ps) ≤ length ps
unfolding bundle_facts
facts_each [] = ground arith
facts_each (p ∷ ps) = elim (Option-cases p.runtime.app_bundle) [
  | inl absent ↦ rw absent (ground (arith, facts_each ps))
  | inr (b, e) ↦ rw e (ground (arith, facts_each ps))
]

In-cons_some :
    (o : Option AppBundleVersion) (c : AppBundleVersion) (fs : List AppBundleVersion)
    → In c fs
    → In c (cons_some o fs)
In-cons_some none c fs i = i
In-cons_some (some b) c fs i = inr i

fact_of :
    (ps : List ProcessRecord) (p : ProcessRecord)
    → length (bundle_facts ps) ≡ length ps
    → In p ps
    → (b : AppBundleVersion) × (p.runtime.app_bundle ≡ some b) × In b (bundle_facts ps)
unfolding bundle_facts
fact_of [] p e i = absurd i
fact_of (q ∷ qs) p e i = elim (Option-cases q.runtime.app_bundle) [
  | inl absent ↦ absurd (omega (arith, rw absent at e, facts_each qs))
  | inr (b, f) ↦ elim i [
    | inl same ↦ (b, ap (λ (x : ProcessRecord). x.runtime.app_bundle) same ∙ f, rw f (inl refl))
    | inr later ↦
        let e' : length (bundle_facts qs) ≡ length qs = omega (arith, rw f at e) in
        let (c, g, j) = fact_of qs p e' later in
        (c, g, In-cons_some q.runtime.app_bundle c (bundle_facts qs) j)
  ]
]

-- One version, known for every browser and admitted by the policy.
pub record IsUniform (ps : List ProcessRecord) (policy : VersionPolicy) : Type 0 where
  pub fact : AppBundleVersion
  pub is_admitted : IsAdmitted fact policy
  pub is_known : (p : ProcessRecord) → In p ps → p.runtime.app_bundle ≡ some fact

first_fact :
    (facts : List AppBundleVersion) (policy : VersionPolicy)
    → supported (first_gate facts policy) ≡ true
    → (fact : AppBundleVersion) × In fact facts × IsAdmitted fact policy
first_fact [] policy e = absurd (cc)
first_fact (b ∷ bs) policy e = (b, inl refl, policy_gate-IsAdmitted b policy e)

all_one :
    (facts : List AppBundleVersion) (x y : AppBundleVersion)
    → length (unique_facts facts) ≡ 1
    → In x facts
    → In y facts
    → x ≡ y
all_one facts x y e i j =
    let (u, k, h) = unique_facts_keep x facts i in
    let (v, l, m) = unique_facts_keep y facts j in
    bundle_eq-eq x u h ∙ single_In u v (unique_facts facts) e k l ∙ sym (bundle_eq-eq y v m)

-- The version gate is supported only if every browser states its bundle, all state the same one and
-- the same version, and the policy admits it: from its list, or between its bounds.
pub evaluate_browser_versions-IsUniform :
    (ps : List ProcessRecord) (policy : VersionPolicy)
    → supported (evaluate_browser_versions ps policy) ≡ true
    → IsUniform ps policy
unfolding evaluate_browser_versions
evaluate_browser_versions-IsUniform ps policy e =
    elim (Bool-cases (length (bundle_facts ps) == length ps)) [
      | inr missing ↦ absurd (ground (arith, e, missing))
      | inl complete ↦ elim (Bool-cases (length (unique_facts (bundle_facts ps)) == 1)) [
        | inr mixed ↦ absurd (ground (arith, e, complete, mixed))
        | inl one ↦
            let (fact, i, admitted) =
              first_fact (bundle_facts ps) policy (rw (complete, one) at e) in
            record {
              fact = fact;
              is_admitted = admitted;
              is_known = λ p j.
                  let (b, known, k) =
                    fact_of ps p
                      (omega (arith, (==_iff (length (bundle_facts ps)) (length ps)).0 complete))
                      j in
                  known
                  ∙ ap some (
                      all_one (bundle_facts ps) b fact
                        ((==_iff (length (unique_facts (bundle_facts ps))) 1).0 one) k i);
            }
      ]
    ]

-- A candidate is old enough exactly if its start is known, the clock of the observation does not
-- overflow in microseconds, and at least a minute lies between them.
pub candidate_age_gate_eligible_iff :
    (observed_millis started_micros : ℕ)
    → (candidate_age_gate observed_millis started_micros ≡ CandidateAgeGate.eligible) ↔ (
        (0 < started_micros)
        × (observed_millis * 1000 ≤ u64_max)
        × (started_micros + 60000000 ≤ observed_millis * 1000))
unfolding candidate_age_gate
candidate_age_gate_eligible_iff o s = ground arith
