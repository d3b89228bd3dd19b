-- ===== src/Core/Cleanup/Account.antt =====
-- crates/unlinger-core/src/cleanup.rs: the account of an executor's run, as predicates on its receipt
-- and its history: with no action open, and with one that is prepared.
use unlinger.Prelude.{
  ℕ, ◌≡◌, refl, ◌⊎◌, inl, inr, Bool, true, false, Option, none, some, List, [], ◌∷◌, ◌++◌, String,
  Result-cases, ok, ap, In, In-append_left, In-append_right, contains,
}
use unlinger.Core.Artifact.{ArtifactActionIntent, ArtifactFreeze, RuntimeArtifactCandidate}
use unlinger.Core.Cleanup.Receipt.{
  CleanupAction, CleanupActionIntent, CleanupReceipt, SignalDisposition,
}
use unlinger.Core.Model.{ProcessRecord, Snapshot}
use unlinger.Core.State.{cleared, state_eq}
use unlinger.Core.Cleanup.Plan.{CleanupPlan}
use unlinger.Core.Cleanup.Runtime.{
  Environment, Event, Exit, History, artifact_frozen, Run, Reply, ClockSample, returned, raised,
  runtime, attempt_open, logged, clock_read, stop_checked, snapshot_taken, looked_up,
  action_completed,
}
use unlinger.Core.Cleanup.Signal.{add_action, complete_prepared}
use unlinger.Core.Cleanup.History.{
  Lawful, Settles, TermTried, action_of, open_signal, open_artifact, completed_actions,
  completed_artifacts, reply_since, is_stopped,
}
use unlinger.Core.Cleanup.Logic.{Ensures}

-- Every process of a list of pids was sent a TERM, and the action is completed.
abbrev pub AllTried : List ℕ → List CleanupAction → Type 0
AllTried pids done = (pid : ℕ) → contains pids pid ≡ true → TermTried pid done

-- A receipt holds the completed actions of a history.
abbrev pub Agrees : CleanupReceipt → History → Type 0
Agrees r h = (r.actions ≡ completed_actions h) × (r.artifact_actions ≡ completed_artifacts h)

pub TermTried-grow :
    (pid : ℕ) (xs ys : List CleanupAction)
    → ((a : CleanupAction) → In a xs → In a ys)
    → TermTried pid xs
    → TermTried pid ys
TermTried-grow pid xs ys grow t = record {
  action = t.action;
  recorded = grow t.action t.recorded;
  same_pid = t.same_pid;
  by_term = t.by_term;
  reached = t.reached;
}

pub AllTried-append :
    (pids : List ℕ) (xs ys : List CleanupAction) → AllTried pids xs → AllTried pids (xs ++ ys)
AllTried-append pids xs ys t pid c =
    TermTried-grow pid xs (xs ++ ys) (λ a. In-append_left a xs ys) (t pid c)

module _ (env : Environment) (plan : CleanupPlan) where
  -- What holds of the exit and the history of a run.
  abbrev pub Accounted : Exit → History → Type 0
  Accounted (returned r) h =
      Lawful env plan h × (open_signal h ≡ none) × (open_artifact h ≡ none) × Agrees r h
  Accounted (raised (runtime e r)) h =
      Lawful env plan h × (open_signal h ≡ none) × (open_artifact h ≡ none) × Agrees r h
  Accounted (raised (attempt_open e r id)) h =
      Lawful env plan h
      × Agrees r h
      × (((i : CleanupActionIntent) × (open_signal h ≡ some (id, i)) × (open_artifact h ≡ none))
          ⊎ ((i : ArtifactActionIntent) × (open_artifact h ≡ some (id, i))
              × (open_signal h ≡ none)))

  -- A part that ends the run early: it never reports the tree as cleared.
  abbrev pub Ends : Exit → Run → Type 0
  Ends (returned r) s = Accounted (returned r) s.history × (state_eq r.state cleared ≡ false)
  Ends (raised e) s = Accounted (raised e) s.history

-- Artifacts, with what the freeze said of each.
abbrev pub FrozenList : Type 0
FrozenList = List (RuntimeArtifactCandidate × ArtifactFreeze)

module _ (env : Environment) (plan : CleanupPlan) (all : FrozenList) where
  -- Each artifact of the list belongs to the plan, and was frozen as the list says.
  pub record WereFrozen (h : History) : Type 0 where
    pub freeze_of :
        (c : RuntimeArtifactCandidate) (f : ArtifactFreeze)
        → In (c, f) all
        → In c plan.artifacts × In (artifact_frozen c (ok f)) h

  pub push : {e : Event} {h : History} → WereFrozen h → WereFrozen (e ∷ h)
  push w = record { freeze_of = λ c f i. ((w.freeze_of c f i).0, inr (w.freeze_of c f i).1) }

  pub record Closed (tried : List ℕ) (s : Run) : Type 0 where
    pub lawful : Lawful env plan s.history
    pub no_signal : open_signal s.history ≡ none
    pub no_artifact : open_artifact s.history ≡ none
    pub agrees : Agrees s.receipt s.history
    pub all_tried : AllTried tried (completed_actions s.history)
    pub were_frozen : WereFrozen s.history

  pub record Prepared (tried : List ℕ) (id : String) (i : CleanupActionIntent)
      (reply : Option SignalDisposition) (s : Run) : Type 0 where
    pub lawful : Lawful env plan s.history
    pub is_open : open_signal s.history ≡ some (id, i)
    pub replied : reply_since s.history ≡ reply
    pub no_artifact : open_artifact s.history ≡ none
    pub agrees : Agrees s.receipt s.history
    pub all_tried : AllTried tried (completed_actions s.history)
    pub were_frozen : WereFrozen s.history

  -- Calls that the account does not see.
  pub Closed-stop :
      (tried : List ℕ) (s : Run) (b : Bool)
      → Closed tried s
      → Closed tried (logged s (stop_checked b))
  Closed-stop tried s b c = record {
    lawful = (tt, c.lawful);
    no_signal = c.no_signal;
    no_artifact = c.no_artifact;
    agrees = c.agrees;
    all_tried = c.all_tried;
    were_frozen = push c.were_frozen;
  }

  pub Closed-clock :
      (tried : List ℕ) (s : Run) (r : Reply ClockSample)
      → Closed tried s
      → Closed tried (logged s (clock_read r))
  Closed-clock tried s r c = record {
    lawful = (tt, c.lawful);
    no_signal = c.no_signal;
    no_artifact = c.no_artifact;
    agrees = c.agrees;
    all_tried = c.all_tried;
    were_frozen = push c.were_frozen;
  }

  pub Closed-snapshot :
      (tried : List ℕ) (s : Run) (r : Reply Snapshot)
      → Closed tried s
      → Closed tried (logged s (snapshot_taken r))
  Closed-snapshot tried s r c = record {
    lawful = (tt, c.lawful);
    no_signal = c.no_signal;
    no_artifact = c.no_artifact;
    agrees = c.agrees;
    all_tried = c.all_tried;
    were_frozen = push c.were_frozen;
  }

  pub Closed-lookup :
      (tried : List ℕ) (s : Run) (pid : ℕ) (r : Reply (Option ProcessRecord))
      → Closed tried s
      → Closed tried (logged s (looked_up pid r))
  Closed-lookup tried s pid r c = record {
    lawful = (tt, c.lawful);
    no_signal = c.no_signal;
    no_artifact = c.no_artifact;
    agrees = c.agrees;
    all_tried = c.all_tried;
    were_frozen = push c.were_frozen;
  }

  -- A closed account is that of an early return with any receipt that has the same actions.
  pub Closed-Accounted :
      (tried : List ℕ) (s : Run)
      → Closed tried s
      → Accounted env plan (returned s.receipt) s.history
  Closed-Accounted tried s c = (c.lawful, c.no_signal, c.no_artifact, c.agrees)

  module _ (tried : List ℕ) (id : String) (i : CleanupActionIntent) (d : SignalDisposition)
      (reply : Option SignalDisposition) (settles : Settles reply d) (s : Run)
      (p : Prepared tried id i reply s) where
    abbrev pub Completed : Unit {0} → Run → Type 0
    Completed u s' =
        Closed tried s'
        × In (action_of i d) (completed_actions s'.history)
        × (is_stopped s'.history ≡ is_stopped s.history)

    completes : Settles (reply_since s.history) d
    completes = rw p.replied settles

    abbrev after_clock : ClockSample → Run
    after_clock c = logged s (clock_read (ok c))

    settled_run : (c : ClockSample) (u : Unit {0}) → Run
    settled_run c u =
        let s' = logged (after_clock c) (action_completed id d c.wall_unix_millis (ok u)) in
        record s' { receipt = add_action i d s.receipt }

    settled_run-Completed : (c : ClockSample) (u : Unit {0}) → Completed u (settled_run c u)
    unfolding settled_run
    settled_run-Completed c u = (
      record {
        lawful = ((i, p.is_open, completes), (tt, p.lawful));
        no_signal = refl;
        no_artifact = p.no_artifact;
        agrees = (rw (p.is_open) (ap (λ xs. xs ++ action_of i d ∷ []) p.agrees.0), p.agrees.1);
        all_tried = rw (p.is_open) (AllTried-append tried _ _ p.all_tried);
        were_frozen = push (push p.were_frozen);
      },
      rw (p.is_open) (In-append_right _ (completed_actions s.history) _ (inl refl)),
      refl,
    )

    pub complete_prepared_lem : Ensures Completed (Ends env plan) (complete_prepared env i id d s)
    unfolding complete_prepared settled_run
    complete_prepared_lem = elim (Result-cases (env.clock_sample s.history)) [
      | inr (e, eq) ↦
          rw (eq, complete_prepared) ((tt, p.lawful), p.agrees, inl (i, p.is_open, p.no_artifact))
      | inl (c, eq) ↦
          rw (eq, complete_prepared)
            (elim (Result-cases
              (env.complete_action (after_clock c).history id d c.wall_unix_millis)) [
                | inr (e, eq') ↦ rw eq' (
                  ((i, p.is_open, completes), (tt, p.lawful)),
                  p.agrees,
                  inl (i, p.is_open, p.no_artifact),
                )
                | inl (u, eq') ↦ rw eq' (settled_run-Completed c u)
              ])
    ]
