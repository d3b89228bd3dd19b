-- ===== src/Daemon/Gated.antt =====
-- crates/unlinger-daemon/src/ipc.rs and engine.rs: the gate of the control plane before each side effect,
-- and `GatedRuntime`, the runtime that `execute_cleanup` hands to the executor.
-- `DaemonStatus` has the fields that the gate reads. What the control plane holds may change between
-- any two calls. A panic of the inner runtime is caught as an unknown delivery; it is among the inner
-- runtime's replies.
pub mod Armed
use unlinger.Prelude.{
  ℕ, ◌==◌, Bool, true, false, ◌&&◌, ◌||◌, not, Option, none, some, String, str_eq, is_some,
  option_eq, if◌then◌else◌,
}
use unlinger.Core.Model.{ProcessIdentity}
use unlinger.Core.Artifact.{ArtifactDisposition, FrozenRuntimeArtifact}
use unlinger.Core.Cleanup.Receipt.{CleanupSignal, SignalDisposition, delivered}
use unlinger.Core.Cleanup.Runtime.{Environment, History}

pub data DaemonMode : Type 0 where
  report_only enforce : DaemonMode

pub record DaemonStatus : Type 0 where
  pub lifecycle_schema_version : ℕ
  pub managed : Bool
  pub ready : Bool
  pub mode : DaemonMode
  pub effective_mode : DaemonMode
  pub activation_generation : Option ℕ
  pub armed_generation : Option ℕ
  pub enforcement_epoch : Option String
  pub draining : Bool

-- `DaemonStatus::effective_mode`, the method.
abbrev pub mode_of : DaemonStatus → DaemonMode
mode_of s = if s.lifecycle_schema_version == 0 then s.mode else s.effective_mode

abbrev pub is_enforce : DaemonMode → Bool
is_enforce enforce = true
is_enforce report_only = false

abbrev pub is_epoch : Option String → String → Bool
is_epoch none epoch = false
is_epoch (some e) epoch = str_eq e epoch

unfoldable pub signal_gate_matches : DaemonStatus → String → Bool
signal_gate_matches s epoch =
    if s.draining || not (is_enforce (mode_of s)) || not (is_epoch s.enforcement_epoch epoch)
    then false
    else not s.managed
      || s.ready
        && is_some s.activation_generation
        && option_eq s.armed_generation s.activation_generation

-- What the control plane and the worker hold at a moment; a status that is missing is a poisoned lock.
pub record ControlState : Type 0 where
  pub status : Option DaemonStatus
  pub cleanup_policy_revision : ℕ
  pub is_cancelled : Bool
  pub asks_stop : Bool

-- The test of `deliver_signal_if_armed`.
unfoldable pub is_armed : ControlState → String → ℕ → Bool
unfolding signal_gate_matches
is_armed c epoch revision = elim c.status [
  | none ↦ false
  | some s ↦ signal_gate_matches s epoch && c.cleanup_policy_revision == revision
]

unfoldable pub action_gate_closed : ControlState → String → ℕ → Bool
unfolding is_armed
action_gate_closed c epoch revision = not (is_armed c epoch revision)

abbrev pub deliver_signal_if_armed :
    ControlState → String → ℕ → SignalDisposition → SignalDisposition
deliver_signal_if_armed c epoch revision deliver =
    if is_armed c epoch revision then deliver else SignalDisposition.cancelled_before_delivery

abbrev is_cancelled_disposition : SignalDisposition → Bool
is_cancelled_disposition SignalDisposition.cancelled_before_delivery = true
is_cancelled_disposition _ = false

unfoldable pub gated_signal : ControlState → String → ℕ → SignalDisposition → SignalDisposition
unfolding is_armed
gated_signal c epoch revision reply =
    deliver_signal_if_armed c epoch revision
      (if c.is_cancelled then SignalDisposition.cancelled_before_delivery else reply)

-- The gate's answer, and the disposition that the closure leaves behind.
unfoldable pub gated_removal : ControlState → String → ℕ → ArtifactDisposition → ArtifactDisposition
unfolding is_armed
gated_removal c epoch revision reply =
    let gate =
      deliver_signal_if_armed c epoch revision
        (if c.is_cancelled then SignalDisposition.cancelled_before_delivery else delivered) in
    if is_cancelled_disposition gate
    then ArtifactDisposition.cancelled_before_delivery
    else if c.is_cancelled
    then ArtifactDisposition.cancelled_before_delivery
    else reply

-- The environment of `execute_cleanup`.
unfoldable pub gated_runtime : Environment → (History → ControlState) → String → ℕ → Environment
unfolding action_gate_closed gated_signal gated_removal
gated_runtime inner control epoch revision = record inner {
  should_stop = λ h.
      let c = control h in c.asks_stop || c.is_cancelled || action_gate_closed c epoch revision;
  signal_exact =
      λ h identity sig. gated_signal (control h) epoch revision (inner.signal_exact h identity sig);
  remove_artifact_exact =
      λ h f. gated_removal (control h) epoch revision (inner.remove_artifact_exact h f);
}
