-- ===== src/Daemon/Terminal.antt =====
-- crates/unlinger-daemon/src/engine.rs: what the engine reads off a cleanup that has ended.
pub mod FailClose
use unlinger.Prelude.{
  ℕ, leb, Bool, true, false, ◌&&◌, ◌||◌, not, Option, none, some, List, String, any, Result, ok,
  err, if◌then◌else◌,
}
use unlinger.Core.State.{cleared, state_eq}
use unlinger.Core.Artifact.{ArtifactAction, removed}
use unlinger.Core.Cleanup.Receipt.{
  CleanupReceipt, OverallOutcome, cleared_with_residue, is_delivered, is_unknown_artifact,
  is_unknown_signal, outcome,
}
use unlinger.Core.Cleanup.Runtime.{ClockSample, RuntimeFailure}
use unlinger.Daemon.Cooling.{CoolingClock}

abbrev pub is_removed : ArtifactAction → Bool
is_removed a = elim a.disposition [ removed ↦ true | _ ↦ false ]

abbrev pub is_residue : OverallOutcome → Bool
is_residue cleared_with_residue = true
is_residue _ = false

abbrev pub is_uncertain : CleanupReceipt → Bool
is_uncertain r = any is_unknown_signal r.actions || any is_unknown_artifact r.artifact_actions

abbrev pub has_side_effect : CleanupReceipt → Bool
has_side_effect r = any is_delivered r.actions || any is_removed r.artifact_actions

unfoldable pub receipt_requires_global_fail_close : CleanupReceipt → Bool
unfolding outcome
receipt_requires_global_fail_close r =
    if is_uncertain r
    then true
    else if is_residue (outcome r).overall
    then false
    else not (state_eq r.state cleared) && has_side_effect r

abbrev max : ℕ → ℕ → ℕ
max m n = if leb m n then n else m

-- `terminal_timestamp`, of what the runtime's clock answers.
abbrev pub terminal_timestamp : Result RuntimeFailure ClockSample → ℕ → ℕ
terminal_timestamp (ok sample) started = max sample.wall_unix_millis started
terminal_timestamp (err e) started = started

abbrev pub cooling_clock : ClockSample → String → CoolingClock
cooling_clock sample enforcement_epoch = record {
  wall_unix_millis = sample.wall_unix_millis;
  continuous_millis = sample.continuous_millis;
  boot_session_fingerprint = sample.boot_session_fingerprint;
  enforcement_epoch = enforcement_epoch;
}
