-- ===== src/Rules/Observe/Confirmed.antt =====
-- crates/unlinger-rules/src/lib.rs: what two observations that confirm an incident have seen.
use unlinger.Prelude.{
  and_split, ◌≡◌, ◌⊎◌, refl, sym, ap, ◌∙◌, subst, inl, inr, Bool, true, false, some, List, [], ◌∷◌,
  String, str_eq, eq_iff, arith, Bool-cases, Option-cases, In, any, any_some, ok,
}
use unlinger.Core.Model.{Snapshot}
use unlinger.Core.State.{
  IncidentState, active, ambiguous, confirmed, cooling, cleared, failed, reclaiming, revived,
  state_eq,
}
use unlinger.Core.Evidence.{IncidentReport, cleanup_eligible}
use unlinger.Rules.Ownership.{Analyzer}
use unlinger.Rules.Classify.Cooling.{IsCooling}
use unlinger.Rules.Observe.Seen.{In-observe, IsObserved, observe-IsCooling, observe_never_confirmed}
use unlinger.Rules.Observe.{
  is_unchanged, observe, observed_twice, previous_report, reconcile_report,
  reconcile_with_abandonment, settle_report,
}

pub is_cooling : (s : IncidentState) → state_eq s cooling ≡ true → s ≡ cooling
is_cooling cooling e = refl
is_cooling IncidentState.protected e = absurd (cc)
is_cooling active e = absurd (cc)
is_cooling confirmed e = absurd (cc)
is_cooling ambiguous e = absurd (cc)
is_cooling reclaiming e = absurd (cc)
is_cooling cleared e = absurd (cc)
is_cooling revived e = absurd (cc)
is_cooling failed e = absurd (cc)

-- What confirming takes, and what it leaves of the report.
record IsSettled (unchanged abandoned : Bool) (r : IncidentReport) : Type 0 where
  pub was_unchanged : unchanged ≡ true
  pub was_abandoned : abandoned ≡ true
  pub has_gates : cleanup_eligible (settle_report unchanged abandoned r).gates ≡ true
  pub same_targets : (settle_report unchanged abandoned r).targets ≡ r.targets
  pub same_members : (settle_report unchanged abandoned r).member_fingerprint ≡ r.member_fingerprint

settle_report-IsSettled :
    (unchanged abandoned : Bool) (r : IncidentReport)
    → r.state ≡ cooling
    → (settle_report unchanged abandoned r).state ≡ confirmed
    → IsSettled unchanged abandoned r
unfolding settle_report cleanup_eligible
settle_report-IsSettled false abandoned r h e = absurd (cc)
settle_report-IsSettled true false r h e = absurd (ground (arith, h, e))
settle_report-IsSettled true true r h e =
    elim (Bool-cases (cleanup_eligible (observed_twice true true r).gates)) [
      | inl eligible ↦ record {
        was_unchanged = refl;
        was_abandoned = refl;
        has_gates = rw eligible eligible;
        same_targets = rw eligible refl;
        same_members = rw eligible refl;
      }
      | inr refused ↦ absurd (ground (arith, h, rw refused at e))
    ]

In-previous_report :
    (key : String) (first : List IncidentReport) (p : IncidentReport)
    → previous_report key first ≡ some p
    → In p first × (p.tracking_key ≡ key)
unfolding previous_report
In-previous_report key [] p e = absurd (cc)
In-previous_report key (r ∷ rs) p e = elim (Option-cases (previous_report key rs)) [
  | inr (q, later) ↦
      let (i, k) = In-previous_report key rs q later in
      let same : q ≡ p = cc (rw (later, previous_report) at e) in
      (
        inr (subst (λ x. In x rs) same i),
        subst (λ (x : IncidentReport). x.tracking_key ≡ key) same k,
      )
  | inl last ↦ elim (Bool-cases (str_eq r.tracking_key key)) [
    | inl found ↦
        let same : r ≡ p = cc (rw (last, found, previous_report) at e) in
        (
          inl (sym same),
          subst (λ (x : IncidentReport). x.tracking_key ≡ key) same
              ((eq_iff r.tracking_key key).0 found),
        )
    | inr other ↦ absurd (cc (rw (last, other, previous_report) at e))
  ]
]

-- What the two observations of a confirmed report have shown.
pub record IsConfirmed (first second : List IncidentReport) (keys : List String)
    (r : IncidentReport) : Type 0 where
  pub previous : IncidentReport
  pub latest : IncidentReport
  pub in_first : In previous first
  pub in_second : In latest second
  pub was_cooling : previous.state ≡ cooling
  pub still_cooling : latest.state ≡ cooling
  pub same_key : previous.tracking_key ≡ latest.tracking_key
  pub same_root : previous.root.identity_fingerprint ≡ latest.root.identity_fingerprint
  pub same_members : previous.member_fingerprint ≡ latest.member_fingerprint
  pub is_abandoned : In latest.tracking_key keys
  pub has_gates : cleanup_eligible r.gates ≡ true
  pub same_targets : r.targets ≡ latest.targets

In-keys : (key : String) (keys : List String) → any (str_eq key) keys ≡ true → In key keys
In-keys key keys e = let (k, i, h) = any_some (str_eq key) keys e in rw ((eq_iff key k).0 h) i

-- A refused report is the one of the second observation.
reconcile_report-cases :
    (first : List IncidentReport) (keys : List String) (r : IncidentReport)
    → (reconcile_report first keys r ≡ r)
      ⊎ ((p : IncidentReport) × (r.state ≡ cooling)
          × (p.state ≡ cooling)
          × (previous_report r.tracking_key first ≡ some p)
          × (reconcile_report first keys r
              ≡ settle_report (is_unchanged p r) (any (str_eq r.tracking_key) keys) r))
unfolding reconcile_report
reconcile_report-cases first keys r = elim (Bool-cases (state_eq r.state cooling)) [
  | inr warm ↦ inl (rw warm refl)
  | inl cold ↦ elim (Option-cases (previous_report r.tracking_key first)) [
    | inl new ↦ inl (rw (cold, new) refl)
    | inr (p, known) ↦ elim (Bool-cases (state_eq p.state cooling)) [
      | inr warm ↦ inl (rw (cold, known, warm) refl)
      | inl was ↦
          inr
            (p, is_cooling r.state cold, is_cooling p.state was, known, rw (cold, known, was) refl)
    ]
  ]
]

reconcile_report-IsConfirmed :
    (first second : List IncidentReport) (keys : List String) (r : IncidentReport)
    → In r second
    → (r.state ≡ confirmed → ⊥)
    → (reconcile_report first keys r).state ≡ confirmed
    → IsConfirmed first second keys (reconcile_report first keys r)
reconcile_report-IsConfirmed first second keys r i not_yet e =
    elim (reconcile_report-cases first keys r) [
      | inl same ↦ absurd (not_yet (rw same at e))
      | inr (p, cold, was, known, settled) ↦
          let s =
            settle_report-IsSettled (is_unchanged p r) (any (str_eq r.tracking_key) keys) r cold
              (rw settled at e) in
          let (j, key) = In-previous_report r.tracking_key first p known in
          let (root, members) =
            and_split (str_eq p.root.identity_fingerprint r.root.identity_fingerprint)
              (str_eq p.member_fingerprint r.member_fingerprint) s.was_unchanged in
          record {
            previous = p;
            latest = r;
            in_first = j;
            in_second = i;
            was_cooling = was;
            still_cooling = cold;
            same_key = key;
            same_root = (eq_iff p.root.identity_fingerprint r.root.identity_fingerprint).0 root;
            same_members = (eq_iff p.member_fingerprint r.member_fingerprint).0 members;
            is_abandoned = In-keys r.tracking_key keys s.was_abandoned;
            has_gates = rw settled s.has_gates;
            same_targets = rw settled s.same_targets;
          }
    ]

In-reconcile :
    (first second : List IncidentReport) (keys : List String) (r : IncidentReport)
    → In r (reconcile_with_abandonment first second keys)
    → (x : IncidentReport) × In x second × (r ≡ reconcile_report first keys x)
unfolding reconcile_with_abandonment
In-reconcile first [] keys r i = absurd i
In-reconcile first (x ∷ xs) keys r (inl e) = (x, inl refl, e)
In-reconcile first (x ∷ xs) keys r (inr i) =
    let (y, j, e) = In-reconcile first xs keys r i in (y, inr j, e)

-- A report is confirmed only if two observations reported it under one tracking key as cooling, with
-- the same root and the same members, its key is among those whose grace has elapsed, and all its
-- gates hold; both observations then found a candidate that the classification let through, and the
-- targets of the report are those of the second observation.
pub reconcile_with_abandonment-IsConfirmed :
    (a : Analyzer) (earlier later : Snapshot) (first second : List IncidentReport)
    (keys : List String) (r : IncidentReport)
    → observe a earlier ≡ ok first
    → observe a later ≡ ok second
    → In r (reconcile_with_abandonment first second keys)
    → r.state ≡ confirmed
    → (w : IsConfirmed first second keys r) × ((o : IsObserved a earlier w.previous) × IsCooling
          o.graph o.candidate a o.root earlier.observed_at_unix_millis)
      × ((o : IsObserved a later w.latest) × IsCooling o.graph o.candidate a o.root
            later.observed_at_unix_millis)
reconcile_with_abandonment-IsConfirmed a earlier later first second keys r e1 e2 i h =
    let (x, j, same) = In-reconcile first second keys r i in
    let w : IsConfirmed first second keys r = subst (IsConfirmed first second keys) (sym same) (
      reconcile_report-IsConfirmed first second keys x j
        (observe_never_confirmed a later x (In-observe a later second x e2 j))
        (ap (λ (q : IncidentReport). q.state) (sym same) ∙ h)) in
    (
      w,
      observe-IsCooling a earlier first w.previous e1 w.in_first w.was_cooling,
      observe-IsCooling a later second w.latest e2 w.in_second w.still_cooling,
    )
