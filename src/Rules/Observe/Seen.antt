-- ===== src/Rules/Observe/Seen.antt =====
-- crates/unlinger-rules/src/lib.rs: where the reports of one observation come from.
use unlinger.Prelude.{
  ℕ, ◌≡◌, ◌⊎◌, refl, sym, ap, ◌∙◌, inl, inr, Bool, true, false, not, some, List, [], ◌∷◌,
  Bool-cases, Option-cases, Result-cases, In, ok, if◌then◌else◌, bytes,
}
use unlinger.Core.Model.{ProcessRecord, Snapshot}
use unlinger.Core.State.{IncidentState, active, ambiguous, confirmed, cooling}
use unlinger.Core.Evidence.{IncidentReport}
use unlinger.Core.Fingerprint.{row_le}
use unlinger.Core.Graph.{ProcessGraph, from_snapshot}
use unlinger.Rules.Candidates.{Candidate, candidates, process_at}
use unlinger.Rules.Ownership.{Analyzer}
use unlinger.Rules.Classify.{state}
use unlinger.Rules.Classify.Cooling.{IsCooling, state-IsCooling}
use unlinger.Rules.Report.{classify, report}
use unlinger.Rules.Observe.{classify_all, insert_report, observe, sort_reports}

In-insert_report :
    (x r : IncidentReport) (rs : List IncidentReport)
    → In x (insert_report r rs)
    → (x ≡ r) ⊎ In x rs
unfolding insert_report
In-insert_report x r [] i = i
In-insert_report x r (s ∷ ss) i =
    elim (Bool-cases (row_le (bytes r.incident_id) (bytes s.incident_id))) [
      | inl before ↦ (rw before at i)
      | inr after ↦
          let j : In x (s ∷ insert_report r ss) = rw after at i in
          elim j [
            | inl same ↦ inr (inl same)
            | inr later ↦ elim (In-insert_report x r ss later) [
              | inl same ↦ inl same
              | inr there ↦ inr (inr there)
            ]
          ]
    ]

In-sort_reports : (x : IncidentReport) (rs : List IncidentReport) → In x (sort_reports rs) → In x rs
unfolding sort_reports
In-sort_reports x [] i = i
In-sort_reports x (r ∷ rs) i = elim (In-insert_report x r (sort_reports rs) i) [
  | inl same ↦ inl same
  | inr there ↦ inr (In-sort_reports x rs there)
]

-- Where a report of an observation comes from.
pub record IsObserved (a : Analyzer) (snapshot : Snapshot) (r : IncidentReport) : Type 0 where
  pub graph : ProcessGraph
  pub candidate : Candidate
  pub root : ProcessRecord
  pub is_graph : from_snapshot snapshot ≡ ok graph
  pub is_candidate : In candidate (candidates a.packs graph)
  pub is_root : process_at graph candidate.root_pid ≡ some root
  pub is_report : r ≡ report a graph candidate root snapshot.observed_at_unix_millis

In-classify_all :
    (a : Analyzer) (g : ProcessGraph) (observed : ℕ) (cs : List Candidate) (r : IncidentReport)
    → In r (classify_all a g observed cs)
    → (c : Candidate) × (root : ProcessRecord) × In c cs
      × (process_at g c.root_pid ≡ some root)
      × (r ≡ report a g c root observed)
unfolding classify_all classify
In-classify_all a g observed [] r i = absurd i
In-classify_all a g observed (c ∷ cs) r i = elim (Option-cases (process_at g c.root_pid)) [
  | inl gone ↦
      let (d, root, j, h, e) =
        In-classify_all a g observed cs r (rw (gone, classify_all, classify) at i) in
      (d, root, inr j, h, e)
  | inr (root, found) ↦
      let k : In r (report a g c root observed ∷ classify_all a g observed cs) =
        rw (found, classify_all, classify) at i in
      elim k [
        | inl same ↦ (c, root, inl refl, found, same)
        | inr later ↦
            let (d, other, j, h, e) = In-classify_all a g observed cs r later in
            (d, other, inr j, h, e)
      ]
]

pub In-observe :
    (a : Analyzer) (snapshot : Snapshot) (rs : List IncidentReport) (r : IncidentReport)
    → observe a snapshot ≡ ok rs
    → In r rs
    → IsObserved a snapshot r
unfolding observe
In-observe a snapshot rs r e i = elim (Result-cases (from_snapshot snapshot)) [
  | inr (x, bad) ↦ absurd (cc (bad, e))
  | inl (g, good) ↦
      let observed = snapshot.observed_at_unix_millis in
      let cs = candidates a.packs g in
      let sorted : sort_reports (classify_all a g observed cs) ≡ rs =
        cc (rw (good, observe) at e) in
      let j = In-sort_reports r (classify_all a g observed cs) (rw sorted i) in
      let (c, root, k, found, same) = In-classify_all a g observed cs r j in
      record {
        graph = g;
        candidate = c;
        root = root;
        is_graph = good;
        is_candidate = k;
        is_root = found;
        is_report = same;
      }
]

-- An observation reports an incident as cooling only for a candidate of its table with these facts: the
-- members are the user's, known in full, outside the program and with a known lineage; the browsers are
-- headless, of one admitted version, and without a debugging peer, all peers being visible; the
-- profiles are temporary, not standard, and shared with no process outside; the root is at least a
-- minute old; no unjoined recorder is in a browser's process group; a session with a controller or an
-- owning task has an owner that has released it, with all clients visible, none connected, no live
-- work, and no persistent or attached command line; no controller has a live parent unless its
-- owner has released the session; the session is released or left without a parent; and the evidence of automation is of at
-- least three kinds.
pub observe-IsCooling :
    (a : Analyzer) (snapshot : Snapshot) (rs : List IncidentReport) (r : IncidentReport)
    → observe a snapshot ≡ ok rs
    → In r rs
    → r.state ≡ cooling
    → (o : IsObserved a snapshot r) × IsCooling o.graph o.candidate a o.root
        snapshot.observed_at_unix_millis
unfolding report
observe-IsCooling a snapshot rs r e i h =
    let o = In-observe a snapshot rs r e i in
    (
      o,
      state-IsCooling o.graph o.candidate a o.root snapshot.observed_at_unix_millis
          (sym (ap (λ (x : IncidentReport). x.state) o.is_report) ∙ h),
    )

state_not_confirmed :
    (quiet live cold : Bool)
    → (if not quiet
        then IncidentState.protected
        else if live
        then active
        else if cold
        then cooling
        else ambiguous)
      ≡ confirmed
    → ⊥
state_not_confirmed false live cold e = cc
state_not_confirmed true true cold e = cc
state_not_confirmed true false true e = cc
state_not_confirmed true false false e = cc

pub observe_never_confirmed :
    (a : Analyzer) (snapshot : Snapshot) (r : IncidentReport)
    → IsObserved a snapshot r
    → r.state ≡ confirmed
    → ⊥
unfolding report state
observe_never_confirmed a snapshot r o h =
    state_not_confirmed _ _ _ (sym (ap (λ (x : IncidentReport). x.state) o.is_report) ∙ h)
