-- ===== src/Rules/Observe.antt =====
-- crates/unlinger-rules/src/lib.rs: `Analyzer::observe`, and the reconciliation of two observations.
pub mod Seen
pub mod Confirmed
use unlinger.Prelude.{
  cons_some, ℕ, Bool, true, false, ◌&&◌, ◌||◌, not, Option, none, some, List, [], ◌∷◌, ◌++◌, String,
  str_eq, any, bytes, Result, ok, err, if◌then◌else◌,
}
use unlinger.Core.Model.{Snapshot}
use unlinger.Core.State.{confirmed, cooling, ambiguous, state_eq}
use unlinger.Core.Evidence.{
  EvidenceItem, GateLedger, IncidentReport, abandonment, cleanup_eligible, protection,
}
use unlinger.Core.Fingerprint.{row_le}
use unlinger.Core.Graph.{GraphError, ProcessGraph, duplicate_pid, from_snapshot}
use unlinger.Rules.Pack.{RuleError, invalid_graph}
use unlinger.Rules.Candidates.{Candidate, candidates}
use unlinger.Rules.Ownership.{Analyzer}
use unlinger.Rules.Report.{classify}
use unlinger.Rules.Evidence.{item, sort_evidence}

unfoldable pub classify_all : Analyzer → ProcessGraph → ℕ → List Candidate → List IncidentReport
unfolding classify
classify_all a g observed [] = []
classify_all a g observed (c ∷ cs) =
    cons_some (classify a g c observed) (classify_all a g observed cs)

unfoldable pub insert_report : IncidentReport → List IncidentReport → List IncidentReport
unfolding row_le
insert_report r [] = r ∷ []
insert_report r (s ∷ ss) =
    if row_le (bytes r.incident_id) (bytes s.incident_id)
    then r ∷ s ∷ ss
    else s ∷ insert_report r ss

-- `sort_by` the incident's id, a stable sort.
unfoldable pub sort_reports : List IncidentReport → List IncidentReport
unfolding insert_report
sort_reports [] = []
sort_reports (r ∷ rs) = insert_report r (sort_reports rs)

abbrev graph_error : GraphError → RuleError
graph_error (duplicate_pid pid) = invalid_graph pid

abbrev pub observe_graph :
    Analyzer → ℕ → Result GraphError ProcessGraph → Result RuleError (List IncidentReport)
observe_graph a observed (err e) = err (graph_error e)
observe_graph a observed (ok g) =
    ok (sort_reports (classify_all a g observed (candidates a.packs g)))

unfoldable pub observe : Analyzer → Snapshot → Result RuleError (List IncidentReport)
unfolding from_snapshot candidates classify_all sort_reports
observe a snapshot = observe_graph a snapshot.observed_at_unix_millis (from_snapshot snapshot)

abbrev pub or_else : Option IncidentReport → Option IncidentReport → Option IncidentReport
or_else none other = other
or_else (some r) other = some r

-- `first_by_key.get(key)`: of reports with one key the last is kept.
unfoldable pub previous_report : String → List IncidentReport → Option IncidentReport
previous_report key [] = none
previous_report key (r ∷ rs) =
    or_else (previous_report key rs) (if str_eq r.tracking_key key then some r else none)

abbrev pub is_unchanged : IncidentReport → IncidentReport → Bool
is_unchanged previous r =
    str_eq previous.root.identity_fingerprint r.root.identity_fingerprint
    && str_eq previous.member_fingerprint r.member_fingerprint

-- The report with the gates of the second observation.
abbrev pub observed_twice : Bool → Bool → IncidentReport → IncidentReport
observed_twice unchanged abandoned r =
    let g = r.gates in
    record r {
      gates = record g {
        stable_across_two_observations = unchanged;
        process_identity_unchanged = unchanged;
        confirmed_abandonment = abandoned;
      };
    }

abbrev confirm : IncidentReport → IncidentReport
confirm r = record r {
  state = confirmed;
  evidence =
      r.evidence
      ++ (item "abandonment.grace_elapsed" abandonment (some r.root.pid)
          ∷ item "observation.stable_twice" abandonment (some r.root.pid)
          ∷ []);
}

abbrev reject : IncidentReport → IncidentReport
reject r =
    let g = r.gates in
    record r {
      state = ambiguous;
      gates = record g { no_protection_rule = false };
      evidence =
          r.evidence
          ++ item "protection.identity_or_membership_changed" protection (some r.root.pid) ∷ [];
    }

abbrev with_sorted : IncidentReport → IncidentReport
with_sorted r = record r { evidence = sort_evidence r.evidence }

-- What two observations make of a report that was cooling in both.
unfoldable pub settle_report : Bool → Bool → IncidentReport → IncidentReport
unfolding cleanup_eligible sort_evidence
settle_report unchanged abandoned r =
    let r' = observed_twice unchanged abandoned r in
    if unchanged && cleanup_eligible r'.gates
    then with_sorted (confirm r')
    else if not unchanged
    then with_sorted (reject r')
    else with_sorted r'

abbrev pub reconcile_with : Option IncidentReport → List String → IncidentReport → IncidentReport
reconcile_with none keys r = r
reconcile_with (some previous) keys r =
    if not (state_eq previous.state cooling)
    then r
    else settle_report (is_unchanged previous r) (any (str_eq r.tracking_key) keys) r

-- The body of the loop of `reconcile_with_abandonment`.
unfoldable pub reconcile_report :
    List IncidentReport → List String → IncidentReport → IncidentReport
unfolding previous_report settle_report
reconcile_report first keys r =
    if not (state_eq r.state cooling)
    then r
    else reconcile_with (previous_report r.tracking_key first) keys r

unfoldable pub reconcile_with_abandonment :
    List IncidentReport → List IncidentReport → List String → List IncidentReport
unfolding reconcile_report
reconcile_with_abandonment first [] keys = []
reconcile_with_abandonment first (r ∷ rs) keys =
    reconcile_report first keys r ∷ reconcile_with_abandonment first rs keys

-- `reconcile`, with no key confirmed.
unfoldable pub reconcile : List IncidentReport → List IncidentReport → List IncidentReport
unfolding reconcile_with_abandonment
reconcile first second = reconcile_with_abandonment first second []
