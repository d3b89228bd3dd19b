-- ===== src/Daemon/Engine.antt =====
-- crates/unlinger-daemon/src/engine.rs: one cycle of the engine, from its two observations to the plan that it
-- starts.
-- The runtime's samples, the answers of the control plane and the analyzer are arguments. A failure
-- of the runtime or of the control plane ends a cycle at once and is not modelled.
pub mod Lease
pub mod Cycle
pub mod Dispatch
use unlinger.Prelude.{
  ℕ, ltb, leb, ◌==◌, Bool, true, false, ◌&&◌, ◌||◌, not, Option, none, some, List, [], ◌∷◌, ◌++◌,
  String, str_eq, any, map, is_some, keep, if◌then◌else◌, Result, ok, err,
}
use unlinger.Core.Model.{ProcessRecord, Snapshot}
use unlinger.Core.State.{IncidentState, confirmed, cooling, state_eq}
use unlinger.Core.Evidence.{IncidentReport, protection}
use unlinger.Core.Fingerprint.{fingerprint_process_identity}
use unlinger.Core.Cleanup.Plan.{CleanupPlan, CleanupPlanError, from_confirmed}
use unlinger.Rules.Pack.{RuleError}
use unlinger.Rules.Ownership.{Analyzer}
use unlinger.Rules.Evidence.{item, sorted_evidence}
use unlinger.Rules.Observe.{observe, reconcile_with_abandonment}
use unlinger.Daemon.Cooling.{CoolingClock, CoolingRow, StoreError, retain_cooling, track_cooling}

pub data EngineError : Type 0 where
  rules : RuleError → EngineError
  store : StoreError → EngineError
  plan : CleanupPlanError → EngineError

abbrev pub is_cooling : IncidentReport → Bool
is_cooling r = state_eq r.state cooling

abbrev pub is_confirmed : IncidentReport → Bool
is_confirmed r = state_eq r.state confirmed

-- `apply_owner_protection`.
unfoldable pub apply_owner_protection : IncidentReport → IncidentReport
unfolding sorted_evidence
apply_owner_protection r =
    let g = r.gates in
    record r {
      state = IncidentState.protected;
      gates = record g { no_protection_rule = false };
      evidence =
          if any (λ e. str_eq e.id "protection.owner_exact_incident") r.evidence
          then r.evidence
          else sorted_evidence (
              r.evidence
              ++ item "protection.owner_exact_incident" protection (some r.root.pid) ∷ []);
    }

-- `exact_live_identity_fingerprints`, before it is made a set.
abbrev is_exact : ProcessRecord → Bool
is_exact p =
    ltb 0 p.identity.started_at_unix_micros
    && is_some p.identity.executable_device
    && is_some p.identity.executable_inode

unfoldable pub exact_live_identity_fingerprints : Snapshot → List String
unfolding fingerprint_process_identity
exact_live_identity_fingerprints snapshot =
    map (λ (p : ProcessRecord). fingerprint_process_identity p.identity)
      (keep is_exact snapshot.processes)

-- What tracking one report adds to the keys whose grace has elapsed.
abbrev pub add_key : Bool → String → List String → List String
add_key elapsed key keys = if elapsed then key ∷ keys else keys

abbrev keys_then :
    Bool
    → String
    → Result StoreError (List String × List CoolingRow)
    → Result StoreError (List String × List CoolingRow)
keys_then elapsed key (err e) = err e
keys_then elapsed key (ok (keys, table)) = ok (add_key elapsed key keys, table)

-- The loop that tracks the reports that are cooling: the keys that are confirmed, and the table.
unfoldable pub track_reports :
    ℕ
    → ℕ
    → List CoolingRow
    → List IncidentReport
    → CoolingClock
    → Result StoreError (List String × List CoolingRow)
unfolding track_cooling
track_reports grace gap table [] c = ok ([], table)
track_reports grace gap table (r ∷ rs) c = elim (is_cooling r) [
  | false ↦ track_reports grace gap table rs c
  | true ↦ elim (track_cooling table r c grace gap) [
    | err e ↦ err e
    | ok tracked ↦ keys_then tracked.0 r.tracking_key (track_reports grace gap tracked.1 rs c)
  ]
]

unfoldable pub cooling_keys : List IncidentReport → List String
cooling_keys rs = map (λ (r : IncidentReport). r.tracking_key) (keep is_cooling rs)

-- What the runtime answers in a cycle.
pub record CycleSamples : Type 0 where
  pub first_snapshot : Snapshot
  pub first_clock : CoolingClock
  pub is_interrupted : Bool
  pub second_snapshot : Snapshot
  pub second_clock : CoolingClock

-- The incidents, whether they were observed twice, and the table.
pub record CycleObservation : Type 0 where
  pub incidents : List IncidentReport
  pub observed_twice : Bool
  pub table : List CoolingRow

module _ (a : Analyzer) (grace gap : ℕ) (s : CycleSamples) where
  abbrev settle_second :
      List IncidentReport
      → List IncidentReport
      → Result StoreError (List String × List CoolingRow)
      → Result EngineError CycleObservation
  settle_second first second (err e) = err (store e)
  settle_second first second (ok (keys, table)) = ok (record {
    incidents = reconcile_with_abandonment first second keys;
    observed_twice = true;
    table = retain_cooling table (cooling_keys second);
  })

  abbrev observe_again :
      List CoolingRow
      → List IncidentReport
      → Result RuleError (List IncidentReport)
      → Result EngineError CycleObservation
  observe_again table first (err e) = err (rules e)
  observe_again table first (ok second) =
      settle_second first second (track_reports grace gap table second s.second_clock)

  abbrev after_first :
      List IncidentReport
      → Result StoreError (List String × List CoolingRow)
      → Result EngineError CycleObservation
  after_first first (err e) = err (store e)
  after_first first (ok (ignored, table)) =
      if any is_cooling first
      then if s.is_interrupted
        then ok (record { incidents = first; observed_twice = false; table = table })
        else observe_again table first (observe a s.second_snapshot)
      else ok
          (record { incidents = first; observed_twice = false; table = retain_cooling table [] })

  abbrev track_first :
      List CoolingRow → Result RuleError (List IncidentReport) → Result EngineError CycleObservation
  track_first table (err e) = err (rules e)
  track_first table (ok first) =
      after_first first (track_reports grace gap table first s.first_clock)

  -- The observations of `run_cycle_inner`.
  unfoldable pub observe_incidents : List CoolingRow → Result EngineError CycleObservation
  unfolding observe track_reports retain_cooling cooling_keys reconcile_with_abandonment
  observe_incidents table = track_first table (observe a s.first_snapshot)

-- The loop that applies the owner's protections.
unfoldable pub protect_incidents :
    (IncidentReport → Bool) → List IncidentReport → List IncidentReport
unfolding apply_owner_protection
protect_incidents is_protected [] = []
protect_incidents is_protected (r ∷ rs) =
    (if is_protected r then apply_owner_protection r else r) ∷ protect_incidents is_protected rs

-- The answers that the dispatch asks for: to stop, whether a report is blocked, whether its attempt may begin.
pub record DispatchAnswers : Type 0 where
  pub is_authorized : Bool
  pub is_paused : Bool
  pub is_busy : Bool
  pub should_stop : IncidentReport → Bool
  pub is_blocked : IncidentReport → Bool
  pub is_armed : IncidentReport → Bool

abbrev pub start_plan :
    Bool → Result CleanupPlanError CleanupPlan → Result EngineError (Option CleanupPlan)
start_plan armed (err e) = err (plan e)
start_plan armed (ok p) = ok (if armed then some p else none)

-- The loop over the confirmed incidents, with a background worker: it starts one plan at most.
unfoldable pub next_plan :
    DispatchAnswers → List IncidentReport → Result EngineError (Option CleanupPlan)
unfolding from_confirmed
next_plan d [] = ok none
next_plan d (r ∷ rs) =
    let rest = next_plan d rs in
    if not (is_confirmed r)
    then rest
    else if d.should_stop r
    then ok none
    else if d.is_blocked r
    then rest
    else start_plan (d.is_armed r) (from_confirmed r)

-- The dispatch of `run_cycle_inner`; `stops_now` is the answer to stop before the loop.
unfoldable pub dispatch_plan :
    DispatchAnswers → Bool → List IncidentReport → Result EngineError (Option CleanupPlan)
unfolding next_plan
dispatch_plan d stops_now incidents =
    if d.is_authorized && not d.is_paused && not stops_now && not d.is_busy
    then next_plan d incidents
    else ok none
