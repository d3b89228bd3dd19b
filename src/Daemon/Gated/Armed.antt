-- ===== src/Daemon/Gated/Armed.antt =====
-- crates/unlinger-daemon/src/engine.rs: when the gated runtime lets the executor's effects through.
use unlinger.Prelude.{
  ℕ, ◌≡◌, ◌⊎◌, refl, ◌∙◌, inl, inr, Bool, true, false, ◌&&◌, ◌||◌, not, Option, none, some, ◌∷◌,
  ◌++◌, String, eq_iff, is_some, option_eq, option_eq_iff, ◌==◌, ==_iff, Bool-cases, Option-cases,
  and_split, if◌then◌else◌,
}
use unlinger.Core.Model.{ProcessIdentity}
use unlinger.Core.Artifact.{ArtifactDisposition, FrozenRuntimeArtifact}
use unlinger.Core.Cleanup.Receipt.{CleanupSignal, SignalDisposition}
use unlinger.Core.Cleanup.Plan.{CleanupPlan}
use unlinger.Core.Cleanup.Runtime.{CleanupPolicy, Environment, History, artifact_removed, signalled}
use unlinger.Core.Cleanup.Execute.{execute}
use unlinger.Core.Cleanup.Guarantees.{execute_removal_replies, execute_replies}
use unlinger.Daemon.Gated.{
  ControlState, DaemonMode, DaemonStatus, enforce, report_only, gated_removal, gated_runtime,
  gated_signal, is_armed, is_enforce, is_epoch, mode_of, signal_gate_matches,
}

-- The daemon enforces in the epoch and under the policy that the cleanup was frozen with.
pub record IsArmed (c : ControlState) (epoch : String) (revision : ℕ) : Type 0 where
  pub status : DaemonStatus
  pub is_readable : c.status ≡ some status
  pub not_draining : status.draining ≡ false
  pub enforces : mode_of status ≡ enforce
  pub same_epoch : status.enforcement_epoch ≡ some epoch
  pub is_activated :
      status.managed ≡ true
      → (status.ready ≡ true)
        × ((generation : ℕ) × (status.activation_generation ≡ some generation)
            × (status.armed_generation ≡ some generation))
  pub same_policy : c.cleanup_policy_revision ≡ revision
  pub not_cancelled : c.is_cancelled ≡ false

enforces_eq : (m : DaemonMode) → is_enforce m ≡ true → m ≡ enforce
enforces_eq enforce e = refl
enforces_eq report_only e = absurd (cc)

epoch_eq : (o : Option String) (epoch : String) → is_epoch o epoch ≡ true → o ≡ some epoch
epoch_eq none epoch e = absurd (cc)
epoch_eq (some x) epoch e = cc ((eq_iff x epoch).0 e)

generation_eq :
    (activation armed : Option ℕ)
    → is_some activation ≡ true
    → option_eq armed activation ≡ true
    → (generation : ℕ) × (activation ≡ some generation) × (armed ≡ some generation)
generation_eq none armed e f = absurd (cc)
generation_eq (some n) armed e f = (n, refl, (option_eq_iff armed (some n)).0 f)

-- The two halves of `signal_gate_matches`.
gate_split :
    (draining enforces same managed activated : Bool)
    → (if draining || not enforces || not same then false else not managed || activated) ≡ true
    → (draining ≡ false) × (enforces ≡ true) × (same ≡ true) × (managed ≡ true → activated ≡ true)
gate_split true enforces same managed activated e = absurd (cc)
gate_split false false same managed activated e = absurd (cc)
gate_split false true false managed activated e = absurd (cc)
gate_split false true true true true e = (refl, refl, refl, λ m. refl)
gate_split false true true true false e = absurd (cc)
gate_split false true true false activated e = (refl, refl, refl, λ m. absurd (cc))

is_armed-IsArmed :
    (c : ControlState) (epoch : String) (revision : ℕ)
    → is_armed c epoch revision ≡ true
    → c.is_cancelled ≡ false
    → IsArmed c epoch revision
unfolding is_armed signal_gate_matches
is_armed-IsArmed c epoch revision e running = elim (Option-cases c.status) [
  | inl poisoned ↦ absurd (cc (rw (poisoned, is_armed) at e))
  | inr (s, readable) ↦
      let (gate, policy) =
        and_split (signal_gate_matches s epoch) (c.cleanup_policy_revision == revision)
          (rw (readable, is_armed) at e) in
      let activated =
        s.ready
        && is_some s.activation_generation
        && option_eq s.armed_generation s.activation_generation in
      let (staying, enforcing, same, active) =
        gate_split s.draining (is_enforce (mode_of s)) (is_epoch s.enforcement_epoch epoch)
          s.managed activated gate in
      record {
        status = s;
        is_readable = readable;
        not_draining = staying;
        enforces = enforces_eq (mode_of s) enforcing;
        same_epoch = epoch_eq s.enforcement_epoch epoch same;
        is_activated = λ m.
            let (most, armed) =
              and_split (s.ready && is_some s.activation_generation)
                (option_eq s.armed_generation s.activation_generation) (active m) in
            let (ready, known) = and_split s.ready (is_some s.activation_generation) most in
            (ready, generation_eq s.activation_generation s.armed_generation known armed);
        same_policy = (==_iff c.cleanup_policy_revision revision).0 policy;
        not_cancelled = running;
      }
]

-- The gate lets the inner reply through only while armed.
gated_signal-IsArmed :
    (c : ControlState) (epoch : String) (revision : ℕ) (reply : SignalDisposition)
    → (gated_signal c epoch revision reply ≡ SignalDisposition.cancelled_before_delivery)
      ⊎ (IsArmed c epoch revision × (gated_signal c epoch revision reply ≡ reply))
unfolding gated_signal
gated_signal-IsArmed c epoch revision reply = elim (Bool-cases (is_armed c epoch revision)) [
  | inr shut ↦ inl (rw (shut, gated_signal) refl)
  | inl armed ↦ elim (Bool-cases c.is_cancelled) [
    | inl cancelled ↦ inl (rw (armed, cancelled, gated_signal) refl)
    | inr running ↦
        inr
          (is_armed-IsArmed c epoch revision armed running, rw (armed, running, gated_signal) refl)
  ]
]

gated_removal-IsArmed :
    (c : ControlState) (epoch : String) (revision : ℕ) (reply : ArtifactDisposition)
    → (gated_removal c epoch revision reply ≡ ArtifactDisposition.cancelled_before_delivery)
      ⊎ (IsArmed c epoch revision × (gated_removal c epoch revision reply ≡ reply))
unfolding gated_removal
gated_removal-IsArmed c epoch revision reply = elim (Bool-cases (is_armed c epoch revision)) [
  | inr shut ↦ inl (rw (shut, gated_removal) refl)
  | inl armed ↦ elim (Bool-cases c.is_cancelled) [
    | inl cancelled ↦ inl (rw (armed, cancelled, gated_removal) refl)
    | inr running ↦
        inr
          (is_armed-IsArmed c epoch revision armed running, rw (armed, running, gated_removal) refl)
  ]
]

module _ (inner : Environment) (control : History → ControlState) (epoch : String) (revision : ℕ)
    (plan : CleanupPlan) (policy : CleanupPolicy) where
  -- Whatever the executor does behind the gate, each of its signals is either cancelled, or the inner
  -- runtime's, sent at a moment when the daemon was armed: its status readable and enforcing, not
  -- draining, in the epoch and under the policy of the cleanup, activated and armed in one generation if
  -- it is managed, and the worker not cancelled.
  pub execute_gated-IsArmed :
      (post pre : History) (identity : ProcessIdentity) (sig : CleanupSignal)
      (d : SignalDisposition)
      → (execute (gated_runtime inner control epoch revision) plan policy).1
        ≡ post ++ signalled identity sig d ∷ pre
      → (d ≡ SignalDisposition.cancelled_before_delivery)
        ⊎ (IsArmed (control pre) epoch revision × (d ≡ inner.signal_exact pre identity sig))
  unfolding gated_runtime
  execute_gated-IsArmed post pre identity sig d e =
      let env = gated_runtime inner control epoch revision in
      let reply = execute_replies env plan policy post pre identity sig d e in
      elim (gated_signal-IsArmed (control pre) epoch revision
        (inner.signal_exact pre identity sig)) [
          | inl shut ↦ inl (reply ∙ shut)
          | inr (armed, same) ↦ inr (armed, reply ∙ same)
        ]

  -- Each removal of the executor behind the gate is either cancelled, or the inner runtime's, made at a
  -- moment when the daemon was armed.
  pub execute_gated_removal-IsArmed :
      (post pre : History) (f : FrozenRuntimeArtifact) (d : ArtifactDisposition)
      → (execute (gated_runtime inner control epoch revision) plan policy).1
        ≡ post ++ artifact_removed f d ∷ pre
      → (d ≡ ArtifactDisposition.cancelled_before_delivery)
        ⊎ (IsArmed (control pre) epoch revision × (d ≡ inner.remove_artifact_exact pre f))
  unfolding gated_runtime
  execute_gated_removal-IsArmed post pre f d e =
      let env = gated_runtime inner control epoch revision in
      let reply = execute_removal_replies env plan policy post pre f d e in
      elim (gated_removal-IsArmed (control pre) epoch revision
        (inner.remove_artifact_exact pre f)) [
          | inl shut ↦ inl (reply ∙ shut)
          | inr (armed, same) ↦ inr (armed, reply ∙ same)
        ]
