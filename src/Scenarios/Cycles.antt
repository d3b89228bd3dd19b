-- ===== src/Scenarios/Cycles.antt =====
-- Concrete cycles of the daemon: the tests, and the instances of the theorems at them.
use unlinger.Prelude.{
  get, ◌⊎◌, ℕ, zero, suc, ◌+◌, ◌≤◌, ◌≡◌, ◌↔◌, refl, Bool, true, false, Option, none, some, List, [],
  ◌∷◌, String, any, is_empty, Result, ok, err, arith, str_eq,
}
use unlinger.Core.State.{IncidentState, confirmed}
use unlinger.Core.Evidence.{IncidentReport, cleanup_eligible}
use unlinger.Core.Cleanup.Plan.{CleanupPlan}
use unlinger.Core.Cleanup.Receipt.{
  CleanupReceipt, OverallOutcome, SignalDisposition, cleared_with_residue, delivered, outcome,
  primary_term, term,
}
use unlinger.Core.Model.{exact_match}
use unlinger.Core.Artifact.{ArtifactDisposition, removed}
use unlinger.Core.Cleanup.Runtime.{Environment, History, default_policy}
use unlinger.Core.Cleanup.Liveness.{
  wait_interrupted, observe_exact_target_liveness, resource_snapshot, set_resource_after,
}
use unlinger.Core.Cleanup.Execute.{execute, new_receipt}
use unlinger.Daemon.Gated.{ControlState, DaemonStatus, enforce, gated_runtime, report_only}
use unlinger.Daemon.Gated.Armed.{IsArmed, execute_gated-IsArmed, execute_gated_removal-IsArmed}
use unlinger.Daemon.Terminal.{receipt_requires_global_fail_close}
use unlinger.Daemon.Terminal.FailClose.{receipt_requires_global_fail_close_contained}
use unlinger.Rules.Observe.{observe}
use unlinger.Daemon.Cooling.{
  CoolingClock, CoolingRow, CoolingStep, StoreError, table_of, track, track_cooling,
}
use unlinger.Daemon.Cooling.Unbroken.{track_cooling-Unbroken}
use unlinger.Daemon.Cooling.Chain.{Unbroken, facts_of}
use unlinger.Daemon.Engine.{
  CycleObservation, CycleSamples, DispatchAnswers, EngineError, dispatch_plan, observe_incidents,
  apply_owner_protection, protect_incidents,
}
use unlinger.Daemon.Engine.Cycle.{IsSettled, observe_incidents-IsSettled}
use unlinger.Daemon.Engine.Dispatch.{
  IsWarranted, dispatch_plan-IsWarranted, apply_owner_protection_idempotent,
}
use unlinger.Daemon.Policy.{RuntimePolicyFacts, StorePolicyFacts, allow, evaluate_action, resume}
use unlinger.Daemon.Policy.Allowed.{evaluate_action_allow_iff}
use unlinger.Daemon.Scheduler.{ReconciliationScheduler, Turn, new_scheduler}
use unlinger.Daemon.Scheduler.Waking.{IsWoken, wait_for_trigger-IsWoken}
use unlinger.Scenarios.{
  is_removal, is_signal, newer, older, removal_in, removal_split, sample_plan, signal_in,
  signal_split, world,
}
use unlinger.Scenarios.Tables.{sample_report}
use unlinger.Scenarios.Rules.{
  analyzer, first-In, first_or, is_ok, ok_value, orphan_at, report_at, value_of,
}

abbrev clock_at : ℕ → CoolingClock
clock_at now = record {
  wall_unix_millis = now;
  continuous_millis = now;
  boot_session_fingerprint = "boot";
  enforcement_epoch = "epoch";
}

-- A cooling report that was tracked at 5000.
abbrev before : List CoolingStep
before = track (report_at 100000) (clock_at 5000) 1500 ∷ []

abbrev tracked : Result StoreError (Bool × List CoolingRow)
tracked = track_cooling (table_of 2000 before) (report_at 100000) (clock_at 7000) 1500 2000

abbrev tracked_table : List CoolingRow
tracked_table = (value_of (false, []) tracked).1

tracked_elapsed : tracked ≡ ok (true, tracked_table)
unfolding observe table_of track_cooling
tracked_elapsed = refl

track_cooling-Unbroken_example :
    (start : ℕ) × Unbroken 2000
      (facts_of (report_at 100000) (clock_at 7000))
      (track (report_at 100000) (clock_at 7000) 1500 ∷ before)
      start
      7000
      7000
    × (start + 1500 ≤ 7000)
track_cooling-Unbroken_example =
    track_cooling-Unbroken 2000 before (report_at 100000) (clock_at 7000) 1500 tracked_table
      tracked_elapsed

-- Two observations a second apart, in a cycle that follows.
abbrev samples : CycleSamples
samples = record {
  first_snapshot = orphan_at 100000;
  first_clock = clock_at 6000;
  is_interrupted = false;
  second_snapshot = orphan_at 101000;
  second_clock = clock_at 7000;
}

abbrev no_observation : CycleObservation
no_observation = record { incidents = []; observed_twice = false; table = [] }

abbrev observed : Result EngineError CycleObservation
observed = observe_incidents analyzer 1500 2000 samples (table_of 2000 before)

abbrev observation : CycleObservation
observation = value_of no_observation observed

abbrev incident : IncidentReport
incident = first_or sample_report observation.incidents

observes : is_ok observed ≡ true
unfolding observe table_of observe_incidents
observes = refl

incident_is_found : is_empty observation.incidents ≡ false
unfolding observe table_of observe_incidents
incident_is_found = refl

incident_is_confirmed : incident.state ≡ confirmed
unfolding observe table_of observe_incidents
incident_is_confirmed = refl

observe_incidents-IsSettled_example : IsSettled analyzer 1500 2000 samples before incident
observe_incidents-IsSettled_example =
    observe_incidents-IsSettled analyzer 1500 2000 samples before observation incident
      (ok_value no_observation observed observes)
      (first-In sample_report observation.incidents incident_is_found) incident_is_confirmed

abbrev answers : DispatchAnswers
answers = record {
  is_authorized = true;
  is_paused = false;
  is_busy = false;
  should_stop = λ r. false;
  is_blocked = λ r. false;
  is_armed = λ r. true;
}

abbrev unprotected : IncidentReport → Bool
unprotected r = false

abbrev dispatched : Result EngineError (Option CleanupPlan)
dispatched = dispatch_plan answers false (protect_incidents unprotected observation.incidents)

abbrev plan_or : CleanupPlan → Result EngineError (Option CleanupPlan) → CleanupPlan
plan_or p (ok (some q)) = q
plan_or p (ok none) = p
plan_or p (err e) = p

abbrev is_plan : Result EngineError (Option CleanupPlan) → Bool
is_plan (ok (some q)) = true
is_plan (ok none) = false
is_plan (err e) = false

plan_value :
    (p : CleanupPlan) (r : Result EngineError (Option CleanupPlan))
    → is_plan r ≡ true
    → r ≡ ok (some (plan_or p r))
plan_value p (ok (some q)) e = refl
plan_value p (ok none) e = absurd (cc)
plan_value p (err x) e = absurd (cc)

dispatches : is_plan dispatched ≡ true
unfolding observe table_of observe_incidents dispatch_plan protect_incidents
dispatches = refl

-- With the owner's protection no plan is started.
protected_waits :
    is_plan (dispatch_plan answers false (protect_incidents (λ r. true) observation.incidents))
    ≡ false
unfolding observe table_of observe_incidents dispatch_plan protect_incidents
protected_waits = refl

dispatch_plan-IsWarranted_example :
    IsWarranted analyzer 1500 2000 samples before answers unprotected
      (plan_or sample_plan dispatched)
dispatch_plan-IsWarranted_example =
    dispatch_plan-IsWarranted analyzer 1500 2000 samples before observation answers false
      unprotected (plan_or sample_plan dispatched) (ok_value no_observation observed observes)
      (plan_value sample_plan dispatched dispatches)

apply_owner_protection_idempotent_example :
    ((apply_owner_protection incident).state ≡ IncidentState.protected)
    × (cleanup_eligible (apply_owner_protection incident).gates ≡ false)
    × (any
          (λ e. str_eq e.id "protection.owner_exact_incident")
          (apply_owner_protection incident).evidence
        ≡ true)
    × (apply_owner_protection (apply_owner_protection incident) ≡ apply_owner_protection incident)
apply_owner_protection_idempotent_example = apply_owner_protection_idempotent incident

abbrev calm : RuntimePolicyFacts
calm = record { draining = false; failed = false }

abbrev is_paused_now : StorePolicyFacts
is_paused_now = record {
  paused = true;
  cleanup_blocked = false;
  incident_observed = false;
  incident_protected = false;
}

evaluate_action_allow_iff_example :
    (evaluate_action calm is_paused_now resume ≡ allow)
    ↔ ((false ≡ false) × (false ≡ false) × (true ≡ true))
evaluate_action_allow_iff_example = evaluate_action_allow_iff calm is_paused_now resume

-- A source that fails at its second question.
abbrev turns : ℕ → Turn Bool String
turns n = record {
  should_stop = false;
  cleanup_finished = false;
  now = n;
  wait_timeout = λ timeout. elim n [ zero ↦ ok none | suc m ↦ err "stopped" ];
}

abbrev waiting : ReconciliationScheduler Bool String
waiting = new_scheduler Bool String (some true) 3 none 0

wait_for_trigger-IsWoken_example : IsWoken Bool String 4 turns 0 waiting
wait_for_trigger-IsWoken_example =
    wait_for_trigger-IsWoken Bool String 3 turns 0 waiting (λ i. omega arith) (omega arith)

-- A cleanup that has cleared its session with one signal.
abbrev cleared_receipt : CleanupReceipt
cleared_receipt =
    let r = new_receipt sample_plan in
    record r {
      state = IncidentState.cleared;
      actions =
          record {
            stage = primary_term;
            pid = 42;
            identity_fingerprint = "p";
            signal = term;
            disposition = delivered;
          }
          ∷ [];
    }

-- The same cleanup where the session was not cleared: the daemon fails closed.
failed_closes :
    receipt_requires_global_fail_close (record cleared_receipt { state = IncidentState.failed })
    ≡ true
unfolding receipt_requires_global_fail_close
failed_closes = refl

goes_on : receipt_requires_global_fail_close cleared_receipt ≡ false
unfolding receipt_requires_global_fail_close
goes_on = refl

receipt_requires_global_fail_close_contained_example :
    (false ≡ false)
    × (false ≡ false)
    × ((true ≡ false)
        ⊎ ((outcome cleared_receipt).overall ≡ OverallOutcome.cleared)
        ⊎ ((outcome cleared_receipt).overall ≡ cleared_with_residue)
        ⊎ (false ≡ true))
receipt_requires_global_fail_close_contained_example =
    receipt_requires_global_fail_close_contained cleared_receipt goes_on

-- A daemon that is armed in its epoch.
abbrev armed_status : DaemonStatus
armed_status = record {
  lifecycle_schema_version = 1;
  managed = true;
  ready = true;
  mode = report_only;
  effective_mode = enforce;
  activation_generation = some 3;
  armed_generation = some 3;
  enforcement_epoch = some "epoch";
  draining = false;
}

abbrev control : History → ControlState
control h = record {
  status = some armed_status;
  cleanup_policy_revision = 2;
  is_cancelled = false;
  asks_stop = false;
}

abbrev gated_world : Environment
gated_world = gated_runtime (world false) control "epoch" 2

abbrev gated_calls : History
gated_calls = (execute gated_world sample_plan default_policy).1

gated_signals : any is_signal gated_calls ≡ true
unfolding execute get exact_match wait_interrupted observe_exact_target_liveness resource_snapshot
    set_resource_after gated_runtime
gated_signals = refl

gated_removes : any is_removal gated_calls ≡ true
unfolding execute get exact_match wait_interrupted observe_exact_target_liveness resource_snapshot
    set_resource_after gated_runtime
gated_removes = refl

execute_gated-IsArmed_example :
    ((signal_in gated_calls).2 ≡ SignalDisposition.cancelled_before_delivery)
    ⊎ (IsArmed (control (older is_signal gated_calls)) "epoch" 2
        × ((signal_in gated_calls).2 ≡ delivered))
execute_gated-IsArmed_example =
    execute_gated-IsArmed (world false) control "epoch" 2 sample_plan default_policy
      (newer is_signal gated_calls) (older is_signal gated_calls) (signal_in gated_calls).0
      (signal_in gated_calls).1 (signal_in gated_calls).2 (signal_split gated_calls gated_signals)

execute_gated_removal-IsArmed_example :
    ((removal_in gated_calls).1 ≡ ArtifactDisposition.cancelled_before_delivery)
    ⊎ (IsArmed (control (older is_removal gated_calls)) "epoch" 2
        × ((removal_in gated_calls).1 ≡ removed))
execute_gated_removal-IsArmed_example =
    execute_gated_removal-IsArmed (world false) control "epoch" 2 sample_plan default_policy
      (newer is_removal gated_calls) (older is_removal gated_calls) (removal_in gated_calls).0
      (removal_in gated_calls).1 (removal_split gated_calls gated_removes)
