-- ===== src/Core/Cleanup/Execute.antt =====
-- crates/unlinger-core/src/cleanup.rs: `CleanupExecutor::execute`, cut into its stages: the opening,
-- the two rounds of TERM, the round of KILL, the revival windows, and the end.
use unlinger.Prelude.{
  ℕ, ◌+◌, Bool, not, ◌&&◌, Option, none, some, List, [], ◌∷◌, map, String, Map, keys, contains_key,
  contains, is_empty, if◌then◌else◌,
}
use unlinger.Core.Model.{ProcessIdentity, Snapshot}
use unlinger.Core.State.{reclaiming, revived, cleared}
use unlinger.Core.Evidence.{ProcessTarget}
use unlinger.Core.Artifact.{ArtifactFreeze, RuntimeArtifactCandidate, completed_cleanup}
use unlinger.Core.Cleanup.Receipt.{
  CleanupReceipt, CleanupSignal, CleanupStage, term, kill, primary_term, member_term, exact_kill,
  ended_without_intervention,
}
use unlinger.Core.Cleanup.Plan.{CleanupPlan, primary_targets}
use unlinger.Core.Cleanup.Runtime.{
  CleanupPolicy, Environment, Exec, Exit, Flow, History, Revalidation, RevalidationStatus, Run,
  eligible, gone, blocked, revival_check, next, exit, returned, pure, return_receipt, or_terminal,
  update_receipt, ◌>>=◌, ◌>>◌,
}
use unlinger.Core.Cleanup.Liveness.{
  fail, resource_snapshot, set_resource_after, should_stop, snapshot_or_receipt_error,
  observe_exact_target_liveness, validate_stage, or_fail, wait_or_drain,
}
use unlinger.Core.Cleanup.Signal.{signal, artifact_failure_reason}
use unlinger.Core.Cleanup.Removal.{freeze_artifact, execute_artifact_action}

-- The receipt that `execute` begins with.
abbrev pub new_receipt : CleanupPlan → CleanupReceipt
new_receipt plan = record {
  incident_id = plan.incident_id;
  state = reclaiming;
  reason_id = none;
  actions = [];
  artifact_actions = [];
  survivor_pids = [];
  revival_checks_completed = 0;
  resources = record { before = none; after = none; estimated_reclaimed_memory_bytes = none };
}

abbrev pub set_resource_before : Snapshot → CleanupPlan → CleanupReceipt → CleanupReceipt
set_resource_before snapshot plan r = record r {
  resources = record {
    before = some (resource_snapshot snapshot plan);
    after = r.resources.after;
    estimated_reclaimed_memory_bytes = r.resources.estimated_reclaimed_memory_bytes;
  };
}

abbrev pub set_revived : String → CleanupReceipt → CleanupReceipt
set_revived reason r = record r { state = revived; reason_id = some reason }

abbrev drop_estimate : CleanupReceipt → CleanupReceipt
drop_estimate r = record r {
  resources = record {
    before = r.resources.before;
    after = r.resources.after;
    estimated_reclaimed_memory_bytes = none;
  };
}

-- The last lines of `execute`.
unfoldable pub conclude : CleanupReceipt → CleanupReceipt
unfolding ended_without_intervention
conclude r =
    let r' = record r { state = cleared } in
    if ended_without_intervention r'
    then record (drop_estimate r') { reason_id = some "cleanup.tree_gone_without_signal" }
    else if is_empty r'.artifact_actions
    then record r' { reason_id = some "cleanup.tree_gone_no_revival" }
    else record r' { reason_id = some "cleanup.tree_gone_artifacts_reconciled" }

-- `if let Some(reason) = signal(..)? { return Ok(fail(receipt, reason, survivors)) }`.
abbrev pub end_if_refused : List ℕ → Option String → Exec (Unit {0})
end_if_refused survivors none = pure tt
end_if_refused survivors (some reason) = return_receipt (fail reason survivors)

abbrev pub pids : List ProcessTarget → List ℕ
pids = map (λ t. t.identity.pid)

module _ (env : Environment) (plan : CleanupPlan) where
  -- A signal whose refusal ends the run.
  unfoldable pub signal_or_fail :
      Map ProcessIdentity → ProcessTarget → CleanupStage → CleanupSignal → Exec (Unit {0})
  unfolding signal
  signal_or_fail survivors t stage sig =
      signal env plan t stage sig >>= end_if_refused (keys survivors)

  -- One turn of the loop of a TERM round; `wanted` is its second test, and the pids attempted so far
  -- are passed on.
  unfoldable pub term_target :
      CleanupStage → Bool → Map ProcessIdentity → List ℕ → ProcessTarget → Exec (List ℕ)
  unfolding signal_or_fail
  term_target stage wanted survivors attempted t =
      if contains_key t.identity.pid survivors && wanted
      then signal_or_fail survivors t stage term >> pure (t.identity.pid ∷ attempted)
      else pure attempted

  unfoldable pub primary_loop : Map ProcessIdentity → List ℕ → List ProcessTarget → Exec (List ℕ)
  unfolding term_target primary_targets
  primary_loop survivors attempted [] = pure attempted
  primary_loop survivors attempted (t ∷ ts) =
      term_target primary_term (contains (pids (primary_targets plan)) t.identity.pid) survivors
        attempted t
      >>= λ attempted'. primary_loop survivors attempted' ts

  unfoldable pub member_loop : Map ProcessIdentity → List ℕ → List ProcessTarget → Exec (List ℕ)
  unfolding term_target
  member_loop survivors attempted [] = pure attempted
  member_loop survivors attempted (t ∷ ts) =
      term_target member_term (not (contains attempted t.identity.pid)) survivors attempted t
      >>= λ attempted'. member_loop survivors attempted' ts

  unfoldable pub kill_target : Map ProcessIdentity → List ℕ → ProcessTarget → Exec (Unit {0})
  unfolding signal_or_fail
  kill_target survivors attempted t =
      if not (contains_key t.identity.pid survivors)
      then pure tt
      else if not (contains attempted t.identity.pid)
      then return_receipt (fail "cleanup.kill_without_term" (keys survivors))
      else signal_or_fail survivors t exact_kill kill

  unfoldable pub kill_loop : Map ProcessIdentity → List ℕ → List ProcessTarget → Exec (Unit {0})
  unfolding kill_target
  kill_loop survivors attempted [] = pure tt
  kill_loop survivors attempted (t ∷ ts) =
      kill_target survivors attempted t >> kill_loop survivors attempted ts

  -- After a TERM round: the grace period, and the survivors of a validated snapshot.
  unfoldable pub settle : ℕ → Map ProcessIdentity → Exec (Map ProcessIdentity)
  unfolding validate_stage
  settle grace survivors = do
    wait_or_drain env grace (keys survivors)
    snapshot ← snapshot_or_receipt_error env
    validate_stage env snapshot plan >>= or_fail env

  unfoldable pub primary_round :
      CleanupPolicy → Map ProcessIdentity → Exec (Map ProcessIdentity × List ℕ)
  unfolding primary_loop settle
  primary_round policy survivors =
      if is_empty survivors
      then pure (survivors, [])
      else primary_loop survivors [] plan.targets >>= λ attempted.
          settle policy.primary_term_grace survivors >>= λ survivors'. pure (survivors', attempted)

  unfoldable pub member_round :
      CleanupPolicy → Map ProcessIdentity → List ℕ → Exec (Map ProcessIdentity × List ℕ)
  unfolding member_loop settle
  member_round policy survivors attempted =
      if is_empty survivors
      then pure (survivors, attempted)
      else member_loop survivors attempted plan.targets >>= λ attempted'.
          settle policy.member_term_grace survivors >>= λ survivors'. pure (survivors', attempted')

  unfoldable pub kill_round : CleanupPolicy → Map ProcessIdentity → List ℕ → Exec (Unit {0})
  unfolding kill_loop observe_exact_target_liveness
  kill_round policy survivors attempted = if is_empty survivors then pure tt else do
    kill_loop survivors attempted plan.targets
    wait_or_drain env policy.kill_grace (keys survivors)
    snapshot ← snapshot_or_receipt_error env
    observation ← observe_exact_target_liveness env snapshot plan >>= or_fail env
    if is_empty observation.survivors
        then pure tt
        else return_receipt (fail "cleanup.survivors_after_kill" (keys observation.survivors))

  abbrev pub count_revival_check : CleanupReceipt → CleanupReceipt
  count_revival_check r = record r { revival_checks_completed = r.revival_checks_completed + 1 }

  -- `terminal_revalidation`, and the same test in a revival window: `gone` goes on.
  unfoldable pub require_gone : Revalidation → Exec (Unit {0})
  require_gone v = elim v.status [
    | gone ↦ pure tt
    | RevalidationStatus.revived ↦ return_receipt (set_revived v.reason_id)
    | eligible ↦ return_receipt (set_revived v.reason_id)
    | blocked ↦ return_receipt (fail v.reason_id [])
  ]

  -- In a revival window the resources are recorded before the run ends.
  unfoldable pub check_window : Snapshot → Revalidation → Exec (Unit {0})
  check_window snapshot v = elim v.status [
    | gone ↦ pure tt
    | RevalidationStatus.revived ↦
        return_receipt
          (λ r. set_revived v.reason_id (set_resource_after (resource_snapshot snapshot plan) r))
    | eligible ↦
        return_receipt
          (λ r. set_revived v.reason_id (set_resource_after (resource_snapshot snapshot plan) r))
    | blocked ↦
        return_receipt
          (λ r. fail v.reason_id [] (set_resource_after (resource_snapshot snapshot plan) r))
  ]

  -- The revival windows; the last snapshot taken is passed on.
  unfoldable pub revival_loop : Option Snapshot → List ℕ → Exec (Option Snapshot)
  unfolding check_window
  revival_loop last [] = pure last
  revival_loop last (window ∷ windows) =
      wait_or_drain env window []
      >> (snapshot_or_receipt_error env >>= λ snapshot.
          update_receipt count_revival_check
          >> (check_window snapshot (env.revalidate snapshot plan revival_check)
              >> revival_loop (some snapshot) windows))

  abbrev pub snapshot_or_take : Option Snapshot → Exec Snapshot
  snapshot_or_take (some snapshot) = pure snapshot
  snapshot_or_take none = snapshot_or_receipt_error env

  -- The proof of absence, made on the terminal snapshot and again after the artifacts.
  unfoldable pub prove_gone : String → Snapshot → Exec (Unit {0})
  unfolding require_gone observe_exact_target_liveness
  prove_gone reason snapshot = do
    liveness ← observe_exact_target_liveness env snapshot plan >>= or_fail env
    update_receipt (set_resource_after (resource_snapshot snapshot plan))
    require_gone (env.revalidate snapshot plan revival_check)
    if is_empty liveness.survivors
        then pure tt
        else return_receipt (fail reason (keys liveness.survivors))

  unfoldable pub freeze_artifacts :
      List RuntimeArtifactCandidate → Exec (List (RuntimeArtifactCandidate × ArtifactFreeze))
  freeze_artifacts [] = pure []
  freeze_artifacts (c ∷ cs) = (freeze_artifact env c >>= or_terminal) >>= λ f.
      freeze_artifacts cs >>= λ rest. pure ((c, f) ∷ rest)

  unfoldable pub artifact_loop : List (RuntimeArtifactCandidate × ArtifactFreeze) → Exec (Unit {0})
  unfolding execute_artifact_action
  artifact_loop [] = pure tt
  artifact_loop ((c, f) ∷ rest) = execute_artifact_action env c f >>= λ d.
      (if completed_cleanup d
        then pure tt
        else return_receipt (fail (artifact_failure_reason d) []))
      >> artifact_loop rest

  unfoldable pub post_artifact : Exec (Unit {0})
  unfolding prove_gone
  post_artifact =
      if is_empty plan.artifacts
      then pure tt
      else snapshot_or_receipt_error env >>= prove_gone "cleanup.post_artifact_tree_not_gone"

  -- Up to the first validated set of survivors, with the frozen artifacts.
  unfoldable pub opening :
      Exec (Map ProcessIdentity × List (RuntimeArtifactCandidate × ArtifactFreeze))
  unfolding validate_stage freeze_artifacts
  opening = do
    stop ← should_stop env
    if stop then return_receipt (fail "cleanup.drain_requested" []) else do
      initial ← snapshot_or_receipt_error env
      update_receipt (set_resource_before initial plan)
      survivors ← validate_stage env initial plan >>= or_fail env
      frozen ← freeze_artifacts plan.artifacts
      pure (survivors, frozen)

  -- The three rounds of signals.
  unfoldable pub signal_rounds : CleanupPolicy → Map ProcessIdentity → Exec (Unit {0})
  unfolding primary_round member_round kill_round
  signal_rounds policy survivors = primary_round policy survivors >>= λ first.
      member_round policy first.0 first.1 >>= λ second. kill_round policy second.0 second.1

  -- From the revival windows to the end.
  unfoldable pub closing :
      CleanupPolicy → List (RuntimeArtifactCandidate × ArtifactFreeze) → Exec (Unit {0})
  unfolding revival_loop prove_gone artifact_loop post_artifact
  closing policy frozen = do
    last ← revival_loop none policy.revival_windows
    terminal ← snapshot_or_take last
    prove_gone "cleanup.terminal_tree_not_gone" terminal
    artifact_loop frozen
    post_artifact

  unfoldable pub body : CleanupPolicy → Exec (Unit {0})
  unfolding opening signal_rounds closing
  body policy = opening >>= λ opened. signal_rounds policy opened.0 >> closing policy opened.1

  -- The result of a run that comes to its last lines, or ended before.
  abbrev pub finish : Flow (Unit {0}) × Run → Exit × History
  finish (next u, s) = (returned (conclude s.receipt), s.history)
  finish (exit x, s) = (x, s.history)

  unfoldable pub execute : CleanupPolicy → Exit × History
  unfolding body conclude
  execute policy = finish (body policy (record { receipt = new_receipt plan; history = [] }))
