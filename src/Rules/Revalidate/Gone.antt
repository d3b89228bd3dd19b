-- ===== src/Rules/Revalidate/Gone.antt =====
-- crates/unlinger-rules/src/lib.rs: what the answer `gone` of a revival check says of the table it was
-- given for.
use unlinger.Prelude.{
  ℕ, ◌≡◌, ◌≢◌, refl, ap, subst, inl, inr, Option, none, some, List, [], ◌∷◌, str_eq, eq_iff,
  Bool-cases, ok, In, In-keep_pass, bytes, cons_some,
}
use unlinger.Core.Model.{ProcessRecord, Snapshot}
use unlinger.Core.Fingerprint.{row_le}
use unlinger.Core.Graph.{ProcessGraph, from_snapshot}
use unlinger.Core.Evidence.{IncidentReport}
use unlinger.Core.Cleanup.Plan.{CleanupPlan}
use unlinger.Core.Cleanup.Runtime.{gone, revival_check}
use unlinger.Rules.Candidates.{Candidate, candidates, process_at}
use unlinger.Rules.Ownership.{Analyzer}
use unlinger.Rules.Report.{classify, report, session_fingerprint}
use unlinger.Rules.Observe.{classify_all, insert_report, observe, sort_reports}
use unlinger.Rules.Revalidate.{matching_reports, revalidate, revival_answer}
use unlinger.Rules.Revalidate.Complete.{IsComplete, answered, facts-IsComplete}

below_first :
    (x r s : IncidentReport) (ss rest : List IncidentReport)
    → (In x (r ∷ ss) → In x rest)
    → In x (r ∷ s ∷ ss)
    → In x (s ∷ rest)
below_first x r s ss rest f (inl same) = inr (f (inl same))
below_first x r s ss rest f (inr (inl same)) = inl same
below_first x r s ss rest f (inr (inr j)) = inr (f (inr j))

insert_report-In :
    (x r : IncidentReport) (rs : List IncidentReport) → In x (r ∷ rs) → In x (insert_report r rs)
unfolding insert_report
insert_report-In x r [] i = i
insert_report-In x r (s ∷ ss) i =
    let rest = below_first x r s ss (insert_report r ss) (insert_report-In x r ss) i in
    elim (Bool-cases (row_le (bytes r.incident_id) (bytes s.incident_id))) [
      | inl before ↦ rw (before, insert_report) i
      | inr after ↦ rw (after, insert_report) rest
    ]

sort_reports-In : (x : IncidentReport) (rs : List IncidentReport) → In x rs → In x (sort_reports rs)
unfolding sort_reports
sort_reports-In x [] i = absurd i
sort_reports-In x (r ∷ rs) (inl same) = insert_report-In x r (sort_reports rs) (inl same)
sort_reports-In x (r ∷ rs) (inr i) =
    insert_report-In x r (sort_reports rs) (inr (sort_reports-In x rs i))

cons_some-In :
    (r : IncidentReport) (rs : List IncidentReport) (o : Option IncidentReport)
    → In r rs
    → In r (cons_some o rs)
cons_some-In r rs none i = i
cons_some-In r rs (some x) i = inr i

classify_all-In :
    (a : Analyzer) (g : ProcessGraph) (observed : ℕ) (cs : List Candidate) (c : Candidate)
    (root : ProcessRecord)
    → In c cs
    → process_at g c.root_pid ≡ some root
    → In (report a g c root observed) (classify_all a g observed cs)
unfolding classify_all classify
classify_all-In a g observed [] c root i found = absurd i
classify_all-In a g observed (d ∷ ds) c root (inl same) found =
    let at : process_at g d.root_pid ≡ some root =
      subst (λ (x : Candidate). process_at g x.root_pid ≡ some root) same found in
    rw (at, classify_all, classify) (inl (ap (λ x. report a g x root observed) same))
classify_all-In a g observed (d ∷ ds) c root (inr i) found =
    cons_some-In _ _ (classify a g d observed) (classify_all-In a g observed ds c root i found)

-- Every candidate with a root is reported.
observe-In :
    (a : Analyzer) (snapshot : Snapshot) (rs : List IncidentReport) (g : ProcessGraph)
    (c : Candidate) (root : ProcessRecord)
    → observe a snapshot ≡ ok rs
    → from_snapshot snapshot ≡ ok g
    → In c (candidates a.packs g)
    → process_at g c.root_pid ≡ some root
    → In (report a g c root snapshot.observed_at_unix_millis) rs
unfolding observe
observe-In a snapshot rs g c root e good i found =
    let observed = snapshot.observed_at_unix_millis in
    let cs = candidates a.packs g in
    let sorted : sort_reports (classify_all a g observed cs) ≡ rs = cc (rw (good, observe) at e) in
    subst (In (report a g c root observed)) sorted (
      sort_reports-In (report a g c root observed) (classify_all a g observed cs)
        (classify_all-In a g observed cs c root i found))

gone_empty : (rs : List IncidentReport) → (revival_answer rs).status ≡ gone → rs ≡ []
gone_empty [] e = refl
gone_empty (r ∷ rs) e = absurd (cc)

module _ (a : Analyzer) (snapshot : Snapshot) (plan : CleanupPlan) where
  -- What the answer `gone` says.
  pub record IsGone : Type 0 where
    pub is_complete : IsComplete a snapshot plan
    pub reports : List IncidentReport
    pub observed : observe a snapshot ≡ ok reports
    pub no_report :
        (r : IncidentReport) → In r reports → r.session_fingerprint ≢ plan.session_fingerprint
    pub no_session :
        (g : ProcessGraph) (c : Candidate) (root : ProcessRecord)
        → from_snapshot snapshot ≡ ok g
        → In c (candidates a.packs g)
        → process_at g c.root_pid ≡ some root
        → session_fingerprint a g c root snapshot.observed_at_unix_millis ≢ plan.session_fingerprint

  other_report :
      (reports : List IncidentReport)
      → matching_reports plan reports ≡ []
      → (r : IncidentReport) → In r reports
      → r.session_fingerprint ≢ plan.session_fingerprint
  unfolding matching_reports
  other_report reports empty r i same = subst (In r) empty (
      In-keep_pass (λ q. str_eq q.session_fingerprint plan.session_fingerprint) reports r i
        ((eq_iff r.session_fingerprint plan.session_fingerprint).1 same))

  -- Where a revival check answers `gone`, every listed process was read and only processes unrelated to
  -- the plan lack facts; and no candidate of the table that has a root, whatever its state, has the
  -- session of the plan, nor has any report.
  pub revalidate_gone : (revalidate a snapshot plan revival_check).status ≡ gone → IsGone
  unfolding report
  revalidate_gone e =
      let (reports, seen, complete, passed) =
        answered a snapshot plan revival_check gone e (λ f. cc) in
      let apart = other_report reports (gone_empty (matching_reports plan reports) passed) in
      record {
        is_complete = facts-IsComplete a snapshot plan complete;
        reports = reports;
        observed = seen;
        no_report = apart;
        no_session = λ g c root good i found.
            apart (report a g c root snapshot.observed_at_unix_millis)
              (observe-In a snapshot reports g c root seen good i found);
      }
