-- ===== src/Core/Cleanup/Signalling.antt =====
-- crates/unlinger-core/src/cleanup.rs: `signal`, followed with the account of the run and the rules of
-- the history.
use unlinger.Prelude.{
  ℕ, ◌≡◌, refl, ◌∙◌, Bool, Bool-cases, true, false, Option, none, some, List, ◌∷◌, String, Result,
  Result-cases, ok, err, arith, In, Map, contains_key, inl, inr, if◌then◌else◌,
}
use unlinger.Core.Model.{ProcessIdentity, ProcessRecord, Snapshot}
use unlinger.Core.Evidence.{ProcessTarget}
use unlinger.Core.Cleanup.Receipt.{
  CleanupActionIntent, CleanupSignal, CleanupStage, SignalDisposition, delivered, already_exited,
  term, kill,
}
use unlinger.Core.Cleanup.Plan.{CleanupPlan}
use unlinger.Core.Cleanup.Runtime.{
  Environment, Reply, Run, ClockSample, logged, looked_up, stop_checked, clock_read, snapshot_taken,
  signalled, action_prepared, pure, ◌>>=◌, ◌>>◌,
}
use unlinger.Core.Cleanup.Signal.{
  after_snapshot, after_validation, cancel, complete_prepared, deliver, disposition_reason, refusal,
  signal, signal_intent,
}
use unlinger.Core.Cleanup.Liveness.{should_stop, take_snapshot}
use unlinger.Core.Cleanup.History.{
  IsQuiet, NotSent, Reached, TermTried, Validated, action_of, completed_actions, is_stopped,
  last_snapshot,
}
use unlinger.Core.Cleanup.Logic.{Ensures, Ensures-bind}
use unlinger.Core.Cleanup.Account.{
  Closed, FrozenList, push, Closed-Accounted, Closed-stop, Completed, Ends, Prepared,
  complete_prepared_lem,
}
use unlinger.Core.Cleanup.Validation.{ValidatedIn, validate_stage_lem}

Reached-of : (d : SignalDisposition) → disposition_reason d ≡ none → Reached d
Reached-of delivered e = tt
Reached-of already_exited e = tt
Reached-of SignalDisposition.identity_mismatch e = absurd (ground arith)
Reached-of SignalDisposition.rejected e = absurd (ground arith)
Reached-of SignalDisposition.cancelled_before_delivery e = absurd (ground arith)
Reached-of SignalDisposition.delivery_unknown e = absurd (ground arith)

refusal-NotSent :
    (reason : String) (b : Bool)
    → NotSent (if b then SignalDisposition.identity_mismatch else SignalDisposition.rejected)
refusal-NotSent reason true = tt
refusal-NotSent reason false = tt

module _ (env : Environment) (plan : CleanupPlan) (all : FrozenList) (tried : List ℕ)
    (t : ProcessTarget) (is_target : In t plan.targets) (stage : CleanupStage)
    (sig : CleanupSignal) where
  -- After `signal`: the account is closed, and where it goes on no stop was seen and a TERM counts as
  -- tried.
  abbrev pub Sent : Option String → Run → Type 0
  Sent refused s =
      Closed env plan all tried s
      × (refused ≡ none
          → (is_stopped s.history ≡ false)
            × (sig ≡ term → TermTried t.identity.pid (completed_actions s.history)))

  abbrev i : CleanupActionIntent
  i = signal_intent t stage sig

  abbrev Open : String → Option SignalDisposition → Run → Type 0
  Open id reply s = Prepared env plan all tried id i reply s

  prepared_stop :
      (id : String) (reply : Option SignalDisposition) (s : Run) (b : Bool)
      → Open id reply s
      → Open id reply (logged s (stop_checked b))
  prepared_stop id reply s b p = record {
    lawful = (tt, p.lawful);
    is_open = p.is_open;
    replied = p.replied;
    no_artifact = p.no_artifact;
    agrees = p.agrees;
    all_tried = p.all_tried;
    were_frozen = push env plan all p.were_frozen;
  }

  -- An action that ends without an attempt, and the reason that is then given.
  unsent_lem :
      (id : String) (d : SignalDisposition) (reason : String) (s : Run)
      → NotSent d
      → Open id none s
      → Ensures Sent (Ends env plan) ((complete_prepared env i id d >> pure (some reason)) s)
  unsent_lem id d reason s n p =
      Ensures-bind (Completed env plan all tried id i d none n s p) Sent (Ends env plan) _ _
        (complete_prepared_lem env plan all tried id i d none n s p)
        (λ u s' c. (c.0, λ e. absurd (cc)))

  cancel_lem :
      (id : String) (s : Run) → Open id none s → Ensures Sent (Ends env plan) (cancel env i id s)
  unfolding cancel
  cancel_lem id s p = unsent_lem id SignalDisposition.cancelled_before_delivery _ s tt p

  deliver_lem :
      (id : String) (s : Run)
      → (sig ≡ kill → TermTried t.identity.pid (completed_actions s.history))
      → Open id none s
      → is_stopped s.history ≡ false
      → Validated env plan t.identity (last_snapshot s.history)
      → Ensures Sent (Ends env plan) (deliver env t sig i id s)
  unfolding deliver
  deliver_lem id s after_term p running v =
      Ensures-bind (Completed env plan all tried id i d (some d) refl s1 p1) Sent (Ends env plan) _
        _ (complete_prepared_lem env plan all tried id i d (some d) refl s1 p1)
        (λ u s' c. (
          c.0,
          λ e. (
            c.2 ∙ running,
            λ st. record {
              action = action_of i d;
              recorded = c.1;
              same_pid = refl;
              by_term = st;
              reached = Reached-of d e;
            },
          ),
        ))
    where
      d : SignalDisposition
      d = env.signal_exact s.history t.identity sig

      s1 : Run
      s1 = logged s (signalled t.identity sig d)

      p1 : Open id (some d) s1
      p1 = record {
        lawful = (
          (
            record {
              not_stopped = running;
              id = id;
              stage = stage;
              target = t;
              is_target = is_target;
              same_identity = refl;
              is_open = p.is_open;
              is_first = p.replied;
              validated = v;
              after_term = after_term;
            },
            refl,
          ),
          p.lawful,
        );
        is_open = p.is_open;
        replied = refl;
        no_artifact = p.no_artifact;
        agrees = p.agrees;
        all_tried = p.all_tried;
        were_frozen = push env plan all p.were_frozen;
      }

  -- The target is gone: nothing is sent.
  gone_lem :
      (id : String) (s : Run)
      → Open id none s
      → is_stopped s.history ≡ false
      → Ensures Sent (Ends env plan) ((complete_prepared env i id already_exited >> pure none) s)
  gone_lem id s p running =
      Ensures-bind (Completed env plan all tried id i already_exited none tt s p) Sent
        (Ends env plan) _ _
        (complete_prepared_lem env plan all tried id i already_exited none tt s p)
        (λ u s' c. (
          c.0,
          λ e. (
            c.2 ∙ running,
            λ st. record {
              action = action_of i already_exited;
              recorded = c.1;
              same_pid = refl;
              by_term = st;
              reached = tt;
            },
          ),
        ))

  after_validation_lem :
      (id : String) (r : Result String (Map ProcessIdentity)) (snapshot : Snapshot) (s : Run)
      → (sig ≡ kill → TermTried t.identity.pid (completed_actions s.history))
      → Open id none s
      → is_stopped s.history ≡ false
      → last_snapshot s.history ≡ some snapshot
      → ValidatedIn env plan snapshot r
      → Ensures Sent (Ends env plan) (after_validation env t sig i id r s)
  unfolding after_validation
  after_validation_lem id (err reason) snapshot s k p running last v =
      unsent_lem id (refusal reason) reason s (refusal-NotSent reason _) p
  after_validation_lem id (ok exact) snapshot s k p running last v =
      elim (Bool-cases (contains_key t.identity.pid exact)) [
        | inr gone ↦ rw (gone, after_validation) (gone_lem id s p running)
        | inl alive ↦
            rw (alive, after_validation)
              (elim (Bool-cases (env.should_stop s.history)) [
                | inl stop ↦ rw stop (cancel_lem id _ (prepared_stop id none s true p))
                | inr go ↦ rw go (
                    deliver_lem id _ k (prepared_stop id none s false p) running
                      (rw last ((v t is_target).0 alive)))
              ])
      ]

  -- What holds from the second check for a stop on.
  abbrev Ready : String → Run → Type 0
  Ready id s =
      Open id none s
      × (is_stopped s.history ≡ false)
      × (sig ≡ kill → TermTried t.identity.pid (completed_actions s.history))

  prepared_snapshot :
      (id : String) (s : Run) (r : Reply Snapshot)
      → Open id none s
      → Open id none (logged s (snapshot_taken r))
  prepared_snapshot id s r p = record {
    lawful = (tt, p.lawful);
    is_open = p.is_open;
    replied = p.replied;
    no_artifact = p.no_artifact;
    agrees = p.agrees;
    all_tried = p.all_tried;
    were_frozen = push env plan all p.were_frozen;
  }

  prepared_lookup :
      (id : String) (s : Run) (pid : ℕ) (r : Reply (Option ProcessRecord))
      → Open id none s
      → Open id none (logged s (looked_up pid r))
  prepared_lookup id s pid r p = record {
    lawful = (tt, p.lawful);
    is_open = p.is_open;
    replied = p.replied;
    no_artifact = p.no_artifact;
    agrees = p.agrees;
    all_tried = p.all_tried;
    were_frozen = push env plan all p.were_frozen;
  }

  after_snapshot_lem :
      (id : String) (r : Reply Snapshot) (s : Run)
      → Ready id s
      → Ensures Sent
          (Ends env plan)
          (after_snapshot env plan t sig i id r (logged s (snapshot_taken r)))
  unfolding after_snapshot
  after_snapshot_lem id (err e) s (p, running, k) =
      Ensures-bind
        (Completed env plan all tried id i SignalDisposition.cancelled_before_delivery none tt s1
          p1)
        Sent (Ends env plan) _ _
        (complete_prepared_lem env plan all tried id i SignalDisposition.cancelled_before_delivery
          none tt s1 p1)
        (λ u s' c. Closed-Accounted env plan all tried s' c.0)
    where
      s1 : Run
      s1 = logged s (snapshot_taken (err e))

      p1 : Open id none s1
      p1 = prepared_snapshot id s (err e) p
  after_snapshot_lem id (ok snapshot) s (p, running, k) =
      Ensures-bind (λ r s'. At s' × ValidatedIn env plan snapshot r) Sent (Ends env plan) _ _
        (validate_stage_lem env plan At
          (λ s' pid r (ready, last).
            ((prepared_lookup id s' pid r ready.0, ready.1, ready.2), last))
          (Ends env plan) snapshot (logged s (snapshot_taken (ok snapshot)))
          ((prepared_snapshot id s (ok snapshot) p, running, k), refl))
        (λ r s' (at, v). after_validation_lem id r snapshot s' at.0.2 at.0.0 at.0.1 at.1 v)
    where
      At : Run → Type 0
      At s' = Ready id s' × (last_snapshot s'.history ≡ some snapshot)

  module _ (s : Run) (c : Closed env plan all tried s) (running : is_stopped s.history ≡ false)
      (after_term : sig ≡ kill → TermTried t.identity.pid (completed_actions s.history)) where
    prepared_run : ClockSample → Reply String → Run
    prepared_run sample r =
        logged (logged (logged s (stop_checked false)) (clock_read (ok sample)))
          (action_prepared i sample.wall_unix_millis r)

    quiet :
        (sample : ClockSample)
        → IsQuiet env plan (clock_read (ok sample) ∷ stop_checked false ∷ s.history)
    quiet sample = record {
      not_stopped = running;
      no_signal = c.no_signal;
      no_artifact = c.no_artifact;
    }

    -- The action is prepared: what is left of `signal`.
    prepared_lem : (sample : ClockSample) (id : String) → Ready id (prepared_run sample (ok id))
    unfolding prepared_run
    prepared_lem sample id = (
      record {
        lawful = (quiet sample, (tt, (tt, c.lawful)));
        is_open = refl;
        replied = refl;
        no_artifact = c.no_artifact;
        agrees = c.agrees;
        all_tried = c.all_tried;
        were_frozen = push env plan all (push env plan all (push env plan all c.were_frozen));
      },
      running,
      after_term,
    )

    resume_lem :
        (sample : ClockSample) (id : String)
        → Ensures Sent (Ends env plan) (
            (should_stop env >>= λ stop.
            if stop
            then cancel env i id
            else (take_snapshot env >>= after_snapshot env plan t sig i id))
              (prepared_run sample (ok id)))
    unfolding prepared_run
    resume_lem sample id =
        elim (Bool-cases (env.should_stop (prepared_run sample (ok id)).history)) [
          | inl stop ↦
              rw stop (cancel_lem id _ (prepared_stop id none _ true (prepared_lem sample id).0))
          | inr go ↦ rw go (
              after_snapshot_lem id _ (logged (prepared_run sample (ok id)) (stop_checked false))
                (prepared_stop id none _ false (prepared_lem sample id).0, running, after_term))
        ]

    pub signal_lem : Ensures Sent (Ends env plan) (signal env plan t stage sig s)
    unfolding signal prepared_run
    signal_lem = elim (Bool-cases (env.should_stop s.history)) [
      | inl stop ↦ rw (stop, signal) (Closed-stop env plan all tried s true c, λ e. absurd (cc))
      | inr go ↦
          rw (go, signal)
            (elim (Result-cases (env.clock_sample (stop_checked false ∷ s.history))) [
              | inr (e, failed) ↦
                  rw failed ((tt, (tt, c.lawful)), c.no_signal, c.no_artifact, c.agrees)
              | inl (sample, at) ↦
                  rw at
                    (elim (Result-cases (
                      env.prepare_action (clock_read (ok sample) ∷ stop_checked false ∷ s.history) i
                        sample.wall_unix_millis)) [
                          | inr (e, failed) ↦ rw failed (
                            (quiet sample, (tt, (tt, c.lawful))),
                            c.no_signal,
                            c.no_artifact,
                            c.agrees,
                          )
                          | inl (id, prepared) ↦ rw prepared (resume_lem sample id)
                        ])
            ])
    ]
