-- ===== src/Core/Cleanup/Liveness.antt =====
-- crates/unlinger-core/src/cleanup.rs: the executor's calls, and what it reads off a table snapshot:
-- the exact liveness of the frozen targets, the validation of a stage, and the resources.
use unlinger.Prelude.{
  ℕ, ◌+◌, ◌-◌, Bool, true, false, not, Option, none, some, List, [], ◌∷◌, ◌++◌, String, Result, ok,
  err, leb, is_empty, Map, insert, get, sort, dedup, saturating_add, if◌then◌else◌,
}
use unlinger.Prelude.{◌>>=◌ as and_then}
use unlinger.Core.Model.{ProcessIdentity, ProcessRecord, Snapshot, pid_of, exact_match}
use unlinger.Core.State.{failed}
use unlinger.Core.Evidence.{ProcessTarget}
use unlinger.Core.Cleanup.Receipt.{CleanupReceipt, ResourceSnapshot}
use unlinger.Core.Cleanup.Plan.{CleanupPlan}
use unlinger.Core.Cleanup.Runtime.{
  Environment, Exec, Reply, Revalidation, WaitOutcome, ClockSample, next, stop_checked,
  snapshot_taken, looked_up, clock_read, waited, eligible, gone, blocked, revived, deadline_reached,
  interrupted, before_signal, pure, logged, or_terminal, return_receipt, ◌>>=◌,
}

-- `fail`.
unfoldable pub fail : String → List ℕ → CleanupReceipt → CleanupReceipt
unfolding sort dedup
fail reason survivors r = record r {
  state = failed;
  reason_id = some reason;
  survivor_pids = dedup (sort survivors);
}

-- `processes.iter().map(|p| (p.pid(), p)).collect()`: a later record replaces an earlier one.
unfoldable pub index_by_pid : Map ProcessRecord → List ProcessRecord → Map ProcessRecord
unfolding insert
index_by_pid m [] = m
index_by_pid m (p ∷ ps) = index_by_pid (insert (pid_of p) p m) ps

unfoldable pub target_identities : Map ProcessIdentity → List ProcessTarget → Map ProcessIdentity
unfolding insert
target_identities m [] = m
target_identities m (t ∷ ts) = target_identities (insert t.identity.pid t.identity m) ts

abbrev matches_target : Map ProcessIdentity → ProcessRecord → Bool
matches_target m p = elim (get (pid_of p) m) [
  | none ↦ false
  | some identity ↦ exact_match identity p.identity
]

-- The counting loop of `resource_snapshot`.
unfoldable pub add_resources :
    Map ProcessIdentity → ResourceSnapshot → List ProcessRecord → ResourceSnapshot
add_resources m acc [] = acc
add_resources m acc (p ∷ ps) =
    add_resources m
      (if matches_target m p
        then (record {
          process_count = acc.process_count + 1;
          resident_memory_bytes = saturating_add acc.resident_memory_bytes p.resident_memory_bytes;
        })
        else acc)
      ps

unfoldable pub resource_snapshot : Snapshot → CleanupPlan → ResourceSnapshot
unfolding add_resources target_identities
resource_snapshot snapshot plan =
    add_resources (target_identities [] plan.targets)
      (record { process_count = 0; resident_memory_bytes = 0 }) snapshot.processes

-- `u64::checked_sub`.
abbrev pub checked_sub : ℕ → ℕ → Option ℕ
checked_sub a b = if leb b a then some (a - b) else none

abbrev reclaimed : Option ResourceSnapshot → ResourceSnapshot → Option ℕ
reclaimed none after = none
reclaimed (some before) after = checked_sub before.resident_memory_bytes after.resident_memory_bytes

unfoldable pub set_resource_after : ResourceSnapshot → CleanupReceipt → CleanupReceipt
set_resource_after after r = record r {
  resources = record {
    before = r.resources.before;
    after = some after;
    estimated_reclaimed_memory_bytes = reclaimed r.resources.before after;
  };
}

pub record ExactTargetLiveness : Type 0 where
  pub survivors : Map ProcessIdentity
  pub missing_live_targets : List ℕ

-- A live target, and whether the snapshot omitted it.
abbrev pub add_survivor :
    ProcessTarget → ProcessRecord → Bool → ExactTargetLiveness → ExactTargetLiveness
add_survivor t p missing acc = record {
  survivors = insert t.identity.pid p.identity acc.survivors;
  missing_live_targets =
      if missing then acc.missing_live_targets ++ t.identity.pid ∷ [] else acc.missing_live_targets;
}

-- One target of `observe_exact_target_liveness`: the process found for it, and whether the snapshot
-- omitted it.
abbrev pub observe_target :
    ProcessTarget
    → ExactTargetLiveness
    → Option ProcessRecord × Bool
    → Result String ExactTargetLiveness
observe_target t acc (none, missing) = ok acc
observe_target t acc (some p, missing) =
    if not (exact_match t.identity p.identity)
    then err "cleanup.identity_changed"
    else ok (add_survivor t p missing acc)

-- What the status of a revalidation makes of the survivors, in `validate_stage`.
abbrev pub judge : Revalidation → Map ProcessIdentity → Result String (Map ProcessIdentity)
judge v survivors = elim v.status [
  | eligible ↦ ok survivors
  | gone ↦ err "cleanup.revalidator_gone_with_survivors"
  | blocked ↦ err v.reason_id
  | revived ↦ err v.reason_id
]

abbrev pub judge_stage : Revalidation → ExactTargetLiveness → Result String (Map ProcessIdentity)
judge_stage v observation =
    if not (is_empty observation.missing_live_targets)
    then err "cleanup.snapshot_target_inconsistent"
    else if is_empty observation.survivors
    then ok observation.survivors
    else judge v observation.survivors

abbrev looked_up_target : Reply (Option ProcessRecord) → Result String (Option ProcessRecord × Bool)
looked_up_target (ok found) = ok (found, true)
looked_up_target (err e) = err "cleanup.target_lookup_incomplete"

module _ (env : Environment) where
  -- The calls, each of which is recorded.
  abbrev pub should_stop : Exec Bool
  should_stop s = let stop = env.should_stop s.history in (next stop, logged s (stop_checked stop))

  abbrev pub take_snapshot : Exec (Reply Snapshot)
  take_snapshot s =
      let reply = env.snapshot s.history in (next reply, logged s (snapshot_taken reply))

  -- `snapshot_or_receipt_error`.
  abbrev pub snapshot_or_receipt_error : Exec Snapshot
  snapshot_or_receipt_error = take_snapshot >>= or_terminal

  abbrev pub clock_sample : Exec (Reply ClockSample)
  clock_sample s =
      let reply = env.clock_sample s.history in (next reply, logged s (clock_read reply))

  abbrev pub lookup_process : ℕ → Exec (Reply (Option ProcessRecord))
  lookup_process pid s =
      let reply = env.lookup_process s.history pid in (next reply, logged s (looked_up pid reply))

  abbrev pub wait_until : ℕ → Exec (Reply WaitOutcome)
  wait_until duration s =
      let reply = env.wait_until s.history duration in
      (next reply, logged s (waited duration reply))

  unfoldable pub after_wait : WaitOutcome → Exec Bool
  after_wait deadline_reached = should_stop
  after_wait interrupted = pure true

  unfoldable pub wait_interrupted : ℕ → Exec Bool
  unfolding after_wait
  wait_interrupted duration = should_stop >>= λ stop.
      if stop then pure true else (wait_until duration >>= or_terminal >>= after_wait)

  resolve_found :
      ProcessTarget → Option ProcessRecord → Exec (Result String (Option ProcessRecord × Bool))
  resolve_found t (some p) = pure (ok (some p, false))
  resolve_found t none = lookup_process t.identity.pid >>= λ reply. pure (looked_up_target reply)

  unfoldable pub observe_targets :
      Map ProcessRecord
      → ExactTargetLiveness
      → List ProcessTarget
      → Exec (Result String ExactTargetLiveness)
  unfolding resolve_found
  observe_targets by_pid acc [] = pure (ok acc)
  observe_targets by_pid acc (t ∷ ts) = resolve_found t (get t.identity.pid by_pid) >>= λ found.
      elim (and_then found (observe_target t acc)) [
        | err reason ↦ pure (err reason)
        | ok acc' ↦ observe_targets by_pid acc' ts
      ]

  unfoldable pub observe_exact_target_liveness :
      Snapshot → CleanupPlan → Exec (Result String ExactTargetLiveness)
  unfolding observe_targets index_by_pid
  observe_exact_target_liveness snapshot plan =
      observe_targets (index_by_pid [] snapshot.processes)
        (record { survivors = []; missing_live_targets = [] }) plan.targets

  unfoldable pub validate_stage :
      Snapshot → CleanupPlan → Exec (Result String (Map ProcessIdentity))
  unfolding observe_exact_target_liveness
  validate_stage snapshot plan = observe_exact_target_liveness snapshot plan >>= λ observation.
      pure (and_then observation (judge_stage (env.revalidate snapshot plan before_signal)))

  -- `match .. { Ok(value) => value, Err(reason) => return Ok(fail(receipt, reason, Vec::new())) }`.
  abbrev pub or_fail : {A : Type 0} → Result String A → Exec A
  or_fail (ok a) s = (next a, s)
  or_fail (err reason) s = return_receipt (fail reason []) s

  -- `if wait_interrupted(..)? { return Ok(fail(receipt, "cleanup.drain_requested", survivors)) }`.
  abbrev pub wait_or_drain : ℕ → List ℕ → Exec (Unit {0})
  wait_or_drain duration survivors = wait_interrupted duration >>= λ stop.
      if stop then return_receipt (fail "cleanup.drain_requested" survivors) else pure tt
