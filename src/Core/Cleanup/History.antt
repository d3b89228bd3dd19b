-- ===== src/Core/Cleanup/History.antt =====
-- crates/unlinger-core/src/cleanup.rs: what the history of an executor's run says, read newest first:
-- the action left open in a journal, the completed actions, the last snapshot, and a seen stop.
use unlinger.Prelude.{
  ℕ, ◌≡◌, Bool, true, false, ◌||◌, Option, none, some, List, [], ◌∷◌, ◌++◌, String, ok, err, get,
  In,
}
use unlinger.Core.Model.{ProcessIdentity, ProcessRecord, Snapshot, exact_match}
use unlinger.Core.Evidence.{ProcessTarget}
use unlinger.Core.Artifact.{
  ArtifactAction, ArtifactActionIntent, ArtifactDisposition, FrozenRuntimeArtifact,
  RuntimeArtifactCandidate, frozen, intent,
}
use unlinger.Core.Cleanup.Receipt.{
  CleanupAction, CleanupActionIntent, CleanupSignal, CleanupStage, SignalDisposition, delivered,
  already_exited, term, kill,
}
use unlinger.Core.Cleanup.Plan.{CleanupPlan}
use unlinger.Core.Cleanup.Runtime.{
  Environment, Event, History, stop_checked, snapshot_taken, signalled, waited, artifact_frozen,
  artifact_removed, action_prepared, action_completed, artifact_prepared, artifact_completed,
  interrupted, eligible, gone, before_signal, revival_check,
}
use unlinger.Core.Cleanup.Liveness.{index_by_pid}
use unlinger.Core.Cleanup.Signal.{signal_intent}

-- The prepared signal action that is not completed.
abbrev pub open_signal : History → Option (String × CleanupActionIntent)
open_signal [] = none
open_signal (action_prepared i at (ok id) ∷ h) = some (id, i)
open_signal (action_completed id d at (ok u) ∷ h) = none
open_signal (_ ∷ h) = open_signal h

abbrev pub open_artifact : History → Option (String × ArtifactActionIntent)
open_artifact [] = none
open_artifact (artifact_prepared i at (ok id) ∷ h) = some (id, i)
open_artifact (artifact_completed id d at (ok u) ∷ h) = none
open_artifact (_ ∷ h) = open_artifact h

abbrev pub action_of : CleanupActionIntent → SignalDisposition → CleanupAction
action_of i d = record {
  stage = i.stage;
  pid = i.pid;
  identity_fingerprint = i.identity_fingerprint;
  signal = i.signal;
  disposition = d;
}

abbrev pub artifact_action_of : ArtifactActionIntent → ArtifactDisposition → ArtifactAction
artifact_action_of i d = record {
  kind = i.kind;
  artifact_fingerprint = i.artifact_fingerprint;
  disposition = d;
}

abbrev add_completed :
    Option (String × CleanupActionIntent)
    → SignalDisposition
    → List CleanupAction
    → List CleanupAction
add_completed none d actions = actions
add_completed (some (id, i)) d actions = actions ++ action_of i d ∷ []

abbrev add_completed_artifact :
    Option (String × ArtifactActionIntent)
    → ArtifactDisposition
    → List ArtifactAction
    → List ArtifactAction
add_completed_artifact none d actions = actions
add_completed_artifact (some (id, i)) d actions = actions ++ artifact_action_of i d ∷ []

-- What the journals hold as completed, oldest first.
abbrev pub completed_actions : History → List CleanupAction
completed_actions [] = []
completed_actions (action_completed id d at (ok u) ∷ h) =
    add_completed (open_signal h) d (completed_actions h)
completed_actions (_ ∷ h) = completed_actions h

abbrev pub completed_artifacts : History → List ArtifactAction
completed_artifacts [] = []
completed_artifacts (artifact_completed id d at (ok u) ∷ h) =
    add_completed_artifact (open_artifact h) d (completed_artifacts h)
completed_artifacts (_ ∷ h) = completed_artifacts h

-- The reply to the signal sent for the open action, if one was.
abbrev pub reply_since : History → Option SignalDisposition
reply_since [] = none
reply_since (signalled identity sig d ∷ h) = some d
reply_since (action_prepared i at (ok id) ∷ h) = none
reply_since (_ ∷ h) = reply_since h

abbrev pub removal_since : History → Option ArtifactDisposition
removal_since [] = none
removal_since (artifact_removed f d ∷ h) = some d
removal_since (artifact_prepared i at (ok id) ∷ h) = none
removal_since (_ ∷ h) = removal_since h

abbrev pub last_snapshot : History → Option Snapshot
last_snapshot [] = none
last_snapshot (snapshot_taken (ok snapshot) ∷ h) = some snapshot
last_snapshot (snapshot_taken (err e) ∷ h) = none
last_snapshot (_ ∷ h) = last_snapshot h

-- A stop was answered, or it cut a wait short.
abbrev pub is_stopped : History → Bool
is_stopped [] = false
is_stopped (stop_checked stop ∷ h) = stop || is_stopped h
is_stopped (waited duration (ok interrupted) ∷ h) = true
is_stopped (_ ∷ h) = is_stopped h

-- Dispositions that claim neither a delivery nor an attempt at one.
abbrev pub NotSent : SignalDisposition → Type 0
NotSent delivered = ⊥
NotSent SignalDisposition.delivery_unknown = ⊥
NotSent _ = Unit

abbrev pub NotRemoved : ArtifactDisposition → Type 0
NotRemoved ArtifactDisposition.removed = ⊥
NotRemoved ArtifactDisposition.delivery_unknown = ⊥
NotRemoved _ = Unit

-- The disposition that is journalled is the reply to the signal, or one that claims no delivery.
abbrev pub Settles : Option SignalDisposition → SignalDisposition → Type 0
Settles (some reply) d = d ≡ reply
Settles none d = NotSent d

abbrev pub SettlesRemoval : Option ArtifactDisposition → ArtifactDisposition → Type 0
SettlesRemoval (some reply) d = d ≡ reply
SettlesRemoval none d = NotRemoved d

abbrev pub Reached : SignalDisposition → Type 0
Reached delivered = Unit
Reached already_exited = Unit
Reached _ = ⊥

-- Among the completed actions is a TERM to the process: it was delivered, or found the process gone.
pub record TermTried (pid : ℕ) (done : List CleanupAction) : Type 0 where
  pub action : CleanupAction
  pub recorded : In action done
  pub same_pid : action.pid ≡ pid
  pub by_term : action.signal ≡ term
  pub reached : Reached action.disposition

module _ (env : Environment) (plan : CleanupPlan) where
  -- The last snapshot validates the signal: the revalidator found the plan eligible in it, and it
  -- shows the very process of the target.
  pub record Validated (identity : ProcessIdentity) (last : Option Snapshot) : Type 0 where
    pub snapshot : Snapshot
    pub process : ProcessRecord
    pub is_last : last ≡ some snapshot
    pub is_eligible : (env.revalidate snapshot plan before_signal).status ≡ eligible
    pub is_present : get identity.pid (index_by_pid [] snapshot.processes) ≡ some process
    pub is_exact : exact_match identity process.identity ≡ true

  -- What must hold before a signal is sent.
  pub record SignalAllowed (identity : ProcessIdentity) (sig : CleanupSignal) (h : History)
      : Type 0 where
    pub not_stopped : is_stopped h ≡ false
    pub id : String
    pub stage : CleanupStage
    pub target : ProcessTarget
    pub is_target : In target plan.targets
    pub same_identity : target.identity ≡ identity
    pub is_open : open_signal h ≡ some (id, signal_intent target stage sig)
    pub is_first : reply_since h ≡ none
    pub validated : Validated identity (last_snapshot h)
    pub after_term : sig ≡ kill → TermTried identity.pid (completed_actions h)

  -- What must hold before an artifact is removed.
  pub record RemovalAllowed (f : FrozenRuntimeArtifact) (h : History) : Type 0 where
    pub not_stopped : is_stopped h ≡ false
    pub id : String
    pub candidate : RuntimeArtifactCandidate
    pub is_candidate : In candidate plan.artifacts
    pub was_frozen : In (artifact_frozen candidate (ok (frozen f))) h
    pub is_open : open_artifact h ≡ some (id, intent candidate)
    pub is_first : removal_since h ≡ none
    pub snapshot : Snapshot
    pub is_last : last_snapshot h ≡ some snapshot
    pub is_gone : (env.revalidate snapshot plan revival_check).status ≡ gone
    pub no_target :
        (t : ProcessTarget)
        → In t plan.targets
        → get t.identity.pid (index_by_pid [] snapshot.processes) ≡ none

  -- No action is open, and no stop has been seen.
  pub record IsQuiet (h : History) : Type 0 where
    pub not_stopped : is_stopped h ≡ false
    pub no_signal : open_signal h ≡ none
    pub no_artifact : open_artifact h ≡ none

  -- The rule of each call that acts, over the history before it, and the reply to a signal and a removal.
  abbrev pub Allowed : Event → History → Type 0
  Allowed (signalled identity sig d) h =
      SignalAllowed identity sig h × (d ≡ env.signal_exact h identity sig)
  Allowed (artifact_removed f d) h = RemovalAllowed f h × (d ≡ env.remove_artifact_exact h f)
  Allowed (action_prepared i at reply) h = IsQuiet h
  Allowed (artifact_prepared i at reply) h = IsQuiet h
  Allowed (waited duration reply) h = IsQuiet h
  Allowed (action_completed id d at reply) h =
      (i : CleanupActionIntent) × (open_signal h ≡ some (id, i)) × Settles (reply_since h) d
  Allowed (artifact_completed id d at reply) h =
      (i : ArtifactActionIntent) × (open_artifact h ≡ some (id, i))
      × SettlesRemoval (removal_since h) d
  Allowed _ h = Unit

  abbrev pub Lawful : History → Type 0
  Lawful [] = Unit
  Lawful (e ∷ h) = Allowed e h × Lawful h
