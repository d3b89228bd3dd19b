-- ===== src/Core/Cleanup/Runtime.antt =====
-- crates/unlinger-core/src/cleanup.rs: the runtime, journal, revalidator and stop callback that the
-- executor is given, and the state that it passes on.
-- The four are parameters. The executor's run is recorded as the history of its calls, newest first,
-- with their replies; a reply may depend on the whole history, so the environment may change at any
-- call, and no law is assumed of it.
use unlinger.Prelude.{ℕ, Bool, Option, some, List, [], ◌∷◌, String, Result, ok, err}
use unlinger.Core.Model.{ProcessIdentity, ProcessRecord, Snapshot}
use unlinger.Core.State.{failed}
use unlinger.Core.Artifact.{
  ArtifactActionIntent, ArtifactDisposition, ArtifactFreeze, FrozenRuntimeArtifact,
  RuntimeArtifactCandidate,
}
use unlinger.Core.Cleanup.Receipt.{
  CleanupActionIntent, CleanupReceipt, CleanupSignal, SignalDisposition,
}
use unlinger.Core.Cleanup.Plan.{CleanupPlan}

-- Durations are milliseconds.
pub record CleanupPolicy : Type 0 where
  pub primary_term_grace : ℕ
  pub member_term_grace : ℕ
  pub kill_grace : ℕ
  pub revival_windows : List ℕ

-- `CleanupPolicy::default`.
abbrev pub default_policy : CleanupPolicy
default_policy = record {
  primary_term_grace = 3000;
  member_term_grace = 3000;
  kill_grace = 1000;
  revival_windows = 15000 ∷ 60000 ∷ [];
}

pub record RuntimeFailure : Type 0 where
  pub message : String

pub record ClockSample : Type 0 where
  pub wall_unix_millis : ℕ
  pub continuous_millis : ℕ
  pub boot_session_fingerprint : String

pub data WaitOutcome : Type 0 where
  deadline_reached interrupted : WaitOutcome

pub data RevalidationPhase : Type 0 where
  before_signal revival_check : RevalidationPhase

pub data RevalidationStatus : Type 0 where
  eligible gone blocked revived : RevalidationStatus

pub record Revalidation : Type 0 where
  pub status : RevalidationStatus
  pub reason_id : String

-- A fallible call of the runtime or the journal.
abbrev pub Reply : Type 0 → Type 0
Reply = Result RuntimeFailure

-- A call that crosses one of the interfaces, with its reply.
pub data Event : Type 0 where
  stop_checked : Bool → Event
  snapshot_taken : Reply Snapshot → Event
  looked_up : ℕ → Reply (Option ProcessRecord) → Event
  clock_read : Reply ClockSample → Event
  signalled : ProcessIdentity → CleanupSignal → SignalDisposition → Event
  waited : ℕ → Reply WaitOutcome → Event
  artifact_frozen : RuntimeArtifactCandidate → Reply ArtifactFreeze → Event
  artifact_removed : FrozenRuntimeArtifact → ArtifactDisposition → Event
  action_prepared : CleanupActionIntent → ℕ → Reply String → Event
  action_completed : String → SignalDisposition → ℕ → Reply (Unit {0}) → Event
  artifact_prepared : ArtifactActionIntent → ℕ → Reply String → Event
  artifact_completed : String → ArtifactDisposition → ℕ → Reply (Unit {0}) → Event

abbrev pub History : Type 0
History = List Event

-- `CleanupRuntime`, `CleanupActionJournal`, `IncidentRevalidator` and `should_stop`.
pub record Environment : Type 0 where
  pub should_stop : History → Bool
  pub snapshot : History → Reply Snapshot
  pub lookup_process : History → ℕ → Reply (Option ProcessRecord)
  pub clock_sample : History → Reply ClockSample
  pub signal_exact : History → ProcessIdentity → CleanupSignal → SignalDisposition
  pub wait_until : History → ℕ → Reply WaitOutcome
  pub freeze_artifact : History → RuntimeArtifactCandidate → Reply ArtifactFreeze
  pub remove_artifact_exact : History → FrozenRuntimeArtifact → ArtifactDisposition
  pub prepare_action : History → CleanupActionIntent → ℕ → Reply String
  pub complete_action : History → String → SignalDisposition → ℕ → Reply (Unit {0})
  pub prepare_artifact_action : History → ArtifactActionIntent → ℕ → Reply String
  pub complete_artifact_action : History → String → ArtifactDisposition → ℕ → Reply (Unit {0})
  pub revalidate : Snapshot → CleanupPlan → RevalidationPhase → Revalidation

pub data CleanupError : Type 0 where
  runtime : RuntimeFailure → CleanupReceipt → CleanupError
  attempt_open : RuntimeFailure → CleanupReceipt → String → CleanupError

-- What the executor changes: the receipt, and the world through its calls.
pub record Run : Type 0 where
  pub receipt : CleanupReceipt
  pub history : History

-- How a part of the executor ends early: `return Ok(receipt)`, or an error that `?` passes on.
pub data Exit : Type 0 where
  returned : CleanupReceipt → Exit
  raised : CleanupError → Exit

pub data Flow (A : Type 0) : Type 0 where
  next : A → Flow A
  exit : Exit → Flow A

abbrev pub Exec : Type 0 → Type 0
Exec A = Run → Flow A × Run

abbrev pub continue_with : {A B : Type 0} → (A → Exec B) → Flow A × Run → Flow B × Run
continue_with f (next a, s) = f a s
continue_with f (exit x, s) = (exit x, s)

infixl 5 ◌>>=◌ ◌>>◌
abbrev pub ◌>>=◌ : {A B : Type 0} → Exec A → (A → Exec B) → Exec B
◌>>=◌ m f s = continue_with f (m s)

abbrev pub ◌>>◌ : {B : Type 0} → Exec (Unit {0}) → Exec B → Exec B
m >> k = m >>= λ _. k

abbrev pub pure : {A : Type 0} → A → Exec A
pure a s = (next a, s)

-- `return Ok(..)` with a receipt made from the present one.
abbrev pub return_receipt : {A : Type 0} → (CleanupReceipt → CleanupReceipt) → Exec A
return_receipt f s = (exit (returned (f s.receipt)), s)

abbrev pub update_receipt : (CleanupReceipt → CleanupReceipt) → Exec (Unit {0})
update_receipt f s = (next tt, record s { receipt = f s.receipt })

abbrev pub logged : Run → Event → Run
logged s e = record s { history = e ∷ s.history }

-- The receipt of `terminal_runtime_error` and of `snapshot_or_receipt_error`.
abbrev pub failed_receipt : CleanupReceipt → CleanupReceipt
failed_receipt r = record r { state = failed; reason_id = some "cleanup.runtime_failure" }

-- `.map_err(|error| terminal_runtime_error(error, receipt))?`.
abbrev pub or_terminal : {A : Type 0} → Reply A → Exec A
or_terminal (ok a) s = (next a, s)
or_terminal (err e) s = (exit (raised (runtime e (failed_receipt s.receipt))), s)

-- `.map_err(|error| CleanupError::AttemptOpen { .. })?`.
abbrev pub or_open : {A : Type 0} → String → Reply A → Exec A
or_open id (ok a) s = (next a, s)
or_open id (err e) s = (exit (raised (attempt_open e s.receipt id)), s)
