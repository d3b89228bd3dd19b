-- ===== src/Daemon/Engine/Cycle.antt =====
-- crates/unlinger-daemon/src/engine.rs: what lies behind an incident that a cycle confirms.
use unlinger.Prelude.{
  ℕ, ◌≡◌, sym, subst, inl, inr, Bool, List, String, any, Result, ok, In, Bool-cases, Result-cases,
}
use unlinger.Core.State.{confirmed}
use unlinger.Core.Evidence.{IncidentReport}
use unlinger.Rules.Ownership.{Analyzer}
use unlinger.Rules.Classify.Cooling.{IsCooling}
use unlinger.Rules.Observe.{observe, reconcile_with_abandonment}
use unlinger.Rules.Observe.Confirmed.{IsConfirmed, reconcile_with_abandonment-IsConfirmed}
use unlinger.Rules.Observe.Seen.{In-observe, IsObserved, observe_never_confirmed}
use unlinger.Daemon.Cooling.{CoolingRow, CoolingStep, table_of}
use unlinger.Daemon.Engine.{
  CycleObservation, CycleSamples, EngineError, is_cooling, observe_incidents, track_reports,
}
use unlinger.Daemon.Engine.Lease.{Lease, steps_of, track_reports-Tracked}

module _ (a : Analyzer) (grace gap : ℕ) (s : CycleSamples) (h : List CoolingStep) where
  -- What lies behind a confirmed incident of a cycle.
  pub record IsSettled (r : IncidentReport) : Type 0 where
    pub first : List IncidentReport
    pub second : List IncidentReport
    pub keys : List String
    pub seen_twice : IsConfirmed first second keys r
    pub first_cooling :
        (o : IsObserved a s.first_snapshot seen_twice.previous) × IsCooling o.graph o.candidate a
          o.root s.first_snapshot.observed_at_unix_millis
    pub second_cooling :
        (o : IsObserved a s.second_snapshot seen_twice.latest) × IsCooling o.graph o.candidate a
          o.root s.second_snapshot.observed_at_unix_millis
    pub lease :
        Lease grace gap
          (steps_of first s.first_clock grace h)
          second
          s.second_clock
          seen_twice.latest.tracking_key

  once_IsSettled :
      (first : List IncidentReport) (r : IncidentReport)
      → observe a s.first_snapshot ≡ ok first
      → In r first
      → r.state ≡ confirmed
      → IsSettled r
  once_IsSettled first r e i h' =
      absurd (
        observe_never_confirmed a s.first_snapshot r (In-observe a s.first_snapshot first r e i) h')

  abbrev observed_once : CycleObservation → Result EngineError CycleObservation
  observed_once o = ok o

  incidents_eq :
      (first : List IncidentReport) (twice : Bool) (table : List CoolingRow) (o : CycleObservation)
      → observed_once (record { incidents = first; observed_twice = twice; table = table }) ≡ ok o
      → first ≡ o.incidents
  incidents_eq first twice table o e = cc (e)

  -- The second observation.
  twice_IsSettled :
      (first second : List IncidentReport) (keys : List String) (middle table : List CoolingRow)
      (r : IncidentReport)
      → observe a s.first_snapshot ≡ ok first
      → observe a s.second_snapshot ≡ ok second
      → middle ≡ table_of gap (steps_of first s.first_clock grace h)
      → track_reports grace gap middle second s.second_clock ≡ ok (keys, table)
      → In r (reconcile_with_abandonment first second keys)
      → r.state ≡ confirmed
      → IsSettled r
  twice_IsSettled first second keys middle table r e1 e2 m t i h' =
      let (w, c1, c2) =
        reconcile_with_abandonment-IsConfirmed a s.first_snapshot s.second_snapshot first second
          keys r e1 e2 i h' in
      let k =
        track_reports-Tracked grace gap s.second_clock (steps_of first s.first_clock grace h) second
          keys table (rw m at t) in
      record {
        first = first;
        second = second;
        keys = keys;
        seen_twice = w;
        first_cooling = c1;
        second_cooling = c2;
        lease = k.leases w.latest.tracking_key w.is_abandoned;
      }

  -- An incident that a cycle confirms was cooling in both of its observations, with one root and the
  -- same members; and a report of the second observation with its key was tracked at the end of an
  -- unbroken chain, at least as long as the grace, in the history of the table.
  pub observe_incidents-IsSettled :
      (o : CycleObservation) (r : IncidentReport)
      → observe_incidents a grace gap s (table_of gap h) ≡ ok o
      → In r o.incidents
      → r.state ≡ confirmed
      → IsSettled r
  unfolding observe_incidents
  observe_incidents-IsSettled o r e i h' = elim (Result-cases (observe a s.first_snapshot)) [
    | inr (x, bad) ↦ absurd (cc (rw (bad, observe_incidents) at e))
    | inl (first, e1) ↦
        elim (Result-cases (track_reports grace gap (table_of gap h) first s.first_clock)) [
          | inr (x, bad) ↦ absurd (cc (rw (e1, bad, observe_incidents) at e))
          | inl ((ignored, middle), t1) ↦ elim (Bool-cases (any is_cooling first)) [
            | inr none_cooling ↦
                let same =
                  incidents_eq _ _ _ o (rw (e1, t1, none_cooling, observe_incidents) at e) in
                once_IsSettled first r e1 (subst (In r) (sym same) i) h'
            | inl some_cooling ↦ elim (Bool-cases s.is_interrupted) [
              | inl interrupted ↦
                  let same =
                    incidents_eq _ _ _ o
                      (rw (e1, t1, some_cooling, interrupted, observe_incidents) at e) in
                  once_IsSettled first r e1 (subst (In r) (sym same) i) h'
              | inr waited ↦ elim (Result-cases (observe a s.second_snapshot)) [
                | inr (x, bad) ↦
                    absurd (cc (rw (e1, t1, some_cooling, waited, bad, observe_incidents) at e))
                | inl (second, e2) ↦
                    elim (Result-cases (track_reports grace gap middle second s.second_clock)) [
                      | inr (x, bad) ↦
                          absurd (
                            cc (rw (e1, t1, some_cooling, waited, e2, bad, observe_incidents) at e))
                      | inl ((keys, table), t2) ↦
                          let same =
                            incidents_eq _ _ _ o
                              (rw (e1, t1, some_cooling, waited, e2, t2, observe_incidents) at e) in
                          let first_pass =
                            track_reports-Tracked grace gap s.first_clock h first ignored middle
                              t1 in
                          twice_IsSettled first second keys middle table r e1 e2 first_pass.is_table
                            t2 (subst (In r) (sym same) i) h'
                    ]
              ]
            ]
          ]
        ]
  ]
