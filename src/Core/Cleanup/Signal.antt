-- ===== src/Core/Cleanup/Signal.antt =====
-- crates/unlinger-core/src/cleanup.rs: `signal`, the action that the executor journals before and
-- after it signals a process, and the reasons that dispositions give.
use unlinger.Prelude.{
  ℕ, Option, none, some, [], ◌∷◌, ◌++◌, String, str_eq, Result, ok, err, Map, contains_key, not,
  if◌then◌else◌,
}
use unlinger.Core.Model.{ProcessIdentity, Snapshot}
use unlinger.Core.Evidence.{ProcessTarget}
use unlinger.Core.Fingerprint.{fingerprint_process_identity}
use unlinger.Core.Artifact.{ArtifactActionIntent, ArtifactDisposition, removed, already_absent}
use unlinger.Core.Cleanup.Receipt.{
  CleanupActionIntent, CleanupSignal, CleanupStage, CleanupReceipt, SignalDisposition, delivered,
  already_exited,
}
use unlinger.Core.Cleanup.Plan.{CleanupPlan}
use unlinger.Core.Cleanup.Runtime.{
  Environment, Exec, Reply, next, signalled, action_prepared, action_completed, pure, logged,
  or_terminal, or_open, update_receipt, ◌>>=◌, ◌>>◌,
}
use unlinger.Core.Cleanup.Liveness.{should_stop, take_snapshot, clock_sample, validate_stage}

abbrev pub add_action : CleanupActionIntent → SignalDisposition → CleanupReceipt → CleanupReceipt
add_action i d r = record r {
  actions =
      r.actions
      ++ record {
        stage = i.stage;
        pid = i.pid;
        identity_fingerprint = i.identity_fingerprint;
        signal = i.signal;
        disposition = d;
      }
        ∷ [];
}

abbrev pub add_artifact_action :
    ArtifactActionIntent → ArtifactDisposition → CleanupReceipt → CleanupReceipt
add_artifact_action i d r = record r {
  artifact_actions =
      r.artifact_actions
      ++ record { kind = i.kind; artifact_fingerprint = i.artifact_fingerprint; disposition = d }
        ∷ [];
}

-- The reason with which a disposition ends the cleanup, if it does.
abbrev pub disposition_reason : SignalDisposition → Option String
disposition_reason delivered = none
disposition_reason already_exited = none
disposition_reason SignalDisposition.identity_mismatch = some "cleanup.signal_identity_mismatch"
disposition_reason SignalDisposition.rejected = some "cleanup.signal_rejected"
disposition_reason SignalDisposition.cancelled_before_delivery = some "cleanup.drain_requested"
disposition_reason SignalDisposition.delivery_unknown = some "cleanup.delivery_unknown"

-- The disposition of an action that the validation refuses.
abbrev pub refusal : String → SignalDisposition
refusal reason =
    if str_eq reason "cleanup.identity_changed"
    then SignalDisposition.identity_mismatch
    else SignalDisposition.rejected

abbrev pub artifact_failure_reason : ArtifactDisposition → String
artifact_failure_reason removed = "cleanup.artifact_reconciled"
artifact_failure_reason already_absent = "cleanup.artifact_reconciled"
artifact_failure_reason ArtifactDisposition.identity_mismatch = "cleanup.artifact_identity_changed"
artifact_failure_reason ArtifactDisposition.referenced = "cleanup.artifact_live_reference"
artifact_failure_reason ArtifactDisposition.unsafe = "cleanup.artifact_unsafe"
artifact_failure_reason ArtifactDisposition.rejected = "cleanup.artifact_rejected"
artifact_failure_reason ArtifactDisposition.cancelled_before_delivery = "cleanup.drain_requested"
artifact_failure_reason ArtifactDisposition.delivery_unknown = "cleanup.artifact_delivery_unknown"

abbrev pub signal_intent : ProcessTarget → CleanupStage → CleanupSignal → CleanupActionIntent
signal_intent t stage sig = record {
  stage = stage;
  pid = t.identity.pid;
  identity_fingerprint = fingerprint_process_identity t.identity;
  signal = sig;
}

module _ (env : Environment) where
  abbrev pub prepare_action : CleanupActionIntent → ℕ → Exec (Reply String)
  prepare_action i at s =
      let reply = env.prepare_action s.history i at in
      (next reply, logged s (action_prepared i at reply))

  abbrev pub complete_action : String → SignalDisposition → ℕ → Exec (Reply (Unit {0}))
  complete_action id d at s =
      let reply = env.complete_action s.history id d at in
      (next reply, logged s (action_completed id d at reply))

  abbrev pub signal_exact : ProcessIdentity → CleanupSignal → Exec SignalDisposition
  signal_exact identity sig s =
      let d = env.signal_exact s.history identity sig in
      (next d, logged s (signalled identity sig d))

  unfoldable pub complete_prepared :
      CleanupActionIntent → String → SignalDisposition → Exec (Unit {0})
  complete_prepared i id d = do
    sample ← clock_sample env >>= or_open id
    complete_action id d sample.wall_unix_millis >>= or_open id
    update_receipt (add_action i d)

  -- Once the last check has passed: the signal itself.
  unfoldable pub deliver :
      ProcessTarget → CleanupSignal → CleanupActionIntent → String → Exec (Option String)
  unfolding complete_prepared
  deliver t sig i id = do
    d ← signal_exact t.identity sig
    complete_prepared i id d
    pure (disposition_reason d)

  unfoldable pub cancel : CleanupActionIntent → String → Exec (Option String)
  unfolding complete_prepared
  cancel i id = do
    complete_prepared i id SignalDisposition.cancelled_before_delivery
    pure (some "cleanup.drain_requested")

  unfoldable pub after_validation :
      ProcessTarget
      → CleanupSignal
      → CleanupActionIntent
      → String
      → Result String (Map ProcessIdentity)
      → Exec (Option String)
  unfolding deliver cancel complete_prepared
  after_validation t sig i id (err reason) =
      complete_prepared i id (refusal reason) >> pure (some reason)
  after_validation t sig i id (ok exact) =
      if not (contains_key t.identity.pid exact)
      then complete_prepared i id already_exited >> pure none
      else should_stop env >>= λ stop. if stop then cancel i id else deliver t sig i id

  unfoldable pub after_snapshot :
      CleanupPlan
      → ProcessTarget
      → CleanupSignal
      → CleanupActionIntent
      → String
      → Reply Snapshot
      → Exec (Option String)
  unfolding after_validation complete_prepared
  after_snapshot plan t sig i id (err e) =
      complete_prepared i id SignalDisposition.cancelled_before_delivery >> or_terminal (err e)
  after_snapshot plan t sig i id (ok snapshot) =
      validate_stage env snapshot plan >>= after_validation t sig i id

  unfoldable pub signal :
      CleanupPlan → ProcessTarget → CleanupStage → CleanupSignal → Exec (Option String)
  unfolding after_snapshot cancel
  signal plan t stage sig = do
    stop ← should_stop env
    if stop then pure (some "cleanup.drain_requested") else do
      sample ← clock_sample env >>= or_terminal
      id ← prepare_action (signal_intent t stage sig) sample.wall_unix_millis >>= or_terminal
      stop' ← should_stop env
      if stop'
          then cancel (signal_intent t stage sig) id
          else (take_snapshot env >>= after_snapshot plan t sig (signal_intent t stage sig) id)
