-- ===== src/Core/Cleanup/Rounds.antt =====
-- crates/unlinger-core/src/cleanup.rs: the rounds of TERM and KILL, followed with the account of the
-- run.
use unlinger.Prelude.{
  ℕ, ◌≡◌, refl, ◌∙◌, Bool, Bool-cases, true, false, some, List, [], ◌∷◌, String, Result,
  Result-cases, ok, err, arith, inl, inr, ◌==◌, ==_iff, if◌then◌else◌,
}
use unlinger.Core.Model.{Snapshot}
use unlinger.Core.Cleanup.Receipt.{CleanupAction, CleanupReceipt}
use unlinger.Core.Cleanup.Plan.{CleanupPlan}
use unlinger.Core.Cleanup.Runtime.{
  Environment, Reply, Run, WaitOutcome, logged, stop_checked, waited, deadline_reached, interrupted,
  returned, pure, return_receipt,
}
use unlinger.Core.Cleanup.Liveness.{
  after_wait, fail, or_fail, snapshot_or_receipt_error, wait_interrupted, wait_or_drain,
}
use unlinger.Core.Cleanup.Execute.{pids}
use unlinger.Core.Cleanup.History.{TermTried, completed_actions, is_stopped, last_snapshot}
use unlinger.Core.Cleanup.Logic.{Ensures, Ensures-bind}
use unlinger.Core.Cleanup.Account.{
  AllTried, Closed, Closed-Accounted, Closed-snapshot, Closed-stop, Ends, FrozenList, push,
}

pub AllTried-cons :
    (pid : ℕ) (pids : List ℕ) (done : List CleanupAction)
    → TermTried pid done
    → AllTried pids done
    → AllTried (pid ∷ pids) done
AllTried-cons pid pids done t h p c = elim (Bool-cases (p == pid)) [
  | inl same ↦ rw ((==_iff p pid).0 same) t
  | inr other ↦ h p (ground arith)
]

module _ (env : Environment) (plan : CleanupPlan) (all : FrozenList) where
  pub Closed-tried :
      (tried more : List ℕ) (s : Run)
      → AllTried more (completed_actions s.history)
      → Closed env plan all tried s
      → Closed env plan all more s
  Closed-tried tried more s h c = record {
    lawful = c.lawful;
    no_signal = c.no_signal;
    no_artifact = c.no_artifact;
    agrees = c.agrees;
    all_tried = h;
    were_frozen = c.were_frozen;
  }

  -- Between two actions, with no stop seen.
  abbrev pub Idle : List ℕ → Run → Type 0
  Idle tried s = Closed env plan all tried s × (is_stopped s.history ≡ false)

  pub fail-Ends :
      (tried : List ℕ) (s : Run) (r : CleanupReceipt) (reason : String) (survivors : List ℕ)
      → r.actions ≡ s.receipt.actions
      → r.artifact_actions ≡ s.receipt.artifact_actions
      → Closed env plan all tried s
      → Ends env plan (returned (fail reason survivors r)) s
  unfolding fail
  fail-Ends tried s r reason survivors a b c =
      ((c.lawful, c.no_signal, c.no_artifact, (a ∙ c.agrees.0, b ∙ c.agrees.1)), refl)

  module _ (tried : List ℕ) where
    Closed-wait :
        (s : Run) (duration : ℕ) (r : Reply WaitOutcome)
        → Idle tried s
        → Closed env plan all tried (logged s (waited duration r))
    Closed-wait s duration r (c, running) = record {
      lawful = (
        record { not_stopped = running; no_signal = c.no_signal; no_artifact = c.no_artifact },
        c.lawful,
      );
      no_signal = c.no_signal;
      no_artifact = c.no_artifact;
      agrees = c.agrees;
      all_tried = c.all_tried;
      were_frozen = push env plan all c.were_frozen;
    }

    -- After a wait: an answer of no means that no stop was seen.
    abbrev Waited : CleanupReceipt → Bool → Run → Type 0
    Waited r stop s =
        Closed env plan all tried s
        × (stop ≡ false → is_stopped s.history ≡ false)
        × (s.receipt ≡ r)

    stop_lem :
        (s : Run)
        → Idle tried s
        → Waited s.receipt
            (env.should_stop s.history)
            (logged s (stop_checked (env.should_stop s.history)))
    stop_lem s (c, running) = elim (Bool-cases (env.should_stop s.history)) [
      | inl stop ↦ rw stop (Closed-stop env plan all tried s true c, (λ e. absurd (cc)), refl)
      | inr go ↦ rw go (Closed-stop env plan all tried s false c, (λ e. running), refl)
    ]

    wait_interrupted_lem :
        (duration : ℕ) (s : Run)
        → Idle tried s
        → Ensures (Waited s.receipt) (Ends env plan) (wait_interrupted env duration s)
    unfolding wait_interrupted
    wait_interrupted_lem duration s (c, running) = elim (Bool-cases (env.should_stop s.history)) [
      | inl stop ↦
          rw (stop, wait_interrupted)
            (Closed-stop env plan all tried s true c, (λ e. absurd (cc)), refl)
      | inr go ↦
          rw (go, wait_interrupted)
            (elim (Result-cases (env.wait_until (stop_checked false ∷ s.history) duration)) [
              | inr (e, eq) ↦
                  rw eq
                    (Closed-Accounted env plan all tried _ (Closed-wait _ duration (err e) idle))
              | inl (w, eq) ↦ rw eq (answered w)
            ])
    ]
      where
        s1 : Run
        s1 = logged s (stop_checked false)

        idle : Idle tried s1
        idle = (Closed-stop env plan all tried s false c, running)

        answered :
            (w : WaitOutcome)
            → Ensures
                (Waited s.receipt)
                (Ends env plan)
                (after_wait env w (logged s1 (waited duration (ok w))))
        answered deadline_reached =
            stop_lem _ (Closed-wait s1 duration (ok deadline_reached) idle, running)
        answered interrupted =
            (Closed-wait s1 duration (ok interrupted) idle, (λ e. absurd (cc)), refl)

    pub wait_or_drain_lem :
        (duration : ℕ) (survivors : List ℕ) (s : Run)
        → Idle tried s
        → Ensures
            (λ u s'. Idle tried s' × (s'.receipt ≡ s.receipt))
            (Ends env plan)
            (wait_or_drain env duration survivors s)
    wait_or_drain_lem duration survivors s idle =
        Ensures-bind (Waited s.receipt) (λ u s'. Idle tried s' × (s'.receipt ≡ s.receipt))
          (Ends env plan) _ _ (wait_interrupted_lem duration s idle) drain
      where
        drain :
            (stop : Bool) (s' : Run)
            → Waited s.receipt stop s'
            → Ensures
                (λ u s''. Idle tried s'' × (s''.receipt ≡ s.receipt))
                (Ends env plan)
                ((if stop
                    then return_receipt (fail "cleanup.drain_requested" survivors)
                    else pure tt)
                  s')
        drain true s' (c, run, same) = fail-Ends tried s' s'.receipt _ survivors refl refl c
        drain false s' (c, run, same) = ((c, run refl), same)

    -- A snapshot that is taken becomes the last one.
    abbrev pub Snapped : CleanupReceipt → Snapshot → Run → Type 0
    Snapped r snapshot s =
        Idle tried s × (last_snapshot s.history ≡ some snapshot) × (s.receipt ≡ r)

    pub snapshot_lem :
        (s : Run)
        → Idle tried s
        → Ensures (Snapped s.receipt) (Ends env plan) (snapshot_or_receipt_error env s)
    snapshot_lem s (c, running) = elim (Result-cases (env.snapshot s.history)) [
      | inr (e, eq) ↦
          rw eq
            (Closed-Accounted env plan all tried _ (Closed-snapshot env plan all tried s (err e) c))
      | inl (snapshot, eq) ↦
          rw eq ((Closed-snapshot env plan all tried s (ok snapshot) c, running), refl, refl)
    ]

    pub or_fail_lem :
        {A : Type 0} (Q : A → Run → Type 0) (r : Result String A) (s : Run)
        → Closed env plan all tried s
        → ((a : A) → r ≡ ok a → Q a s)
        → Ensures Q (Ends env plan) (or_fail env r s)
    or_fail_lem Q (ok a) s c h = h a refl
    or_fail_lem Q (err reason) s c h = fail-Ends tried s s.receipt reason [] refl refl c
