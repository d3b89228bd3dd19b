-- ===== src/Core/Cleanup/Reconcile.antt =====
-- crates/unlinger-core/src/cleanup.rs: `execute_artifact_action`, followed with the account of the run
-- and the rules of the history.
use unlinger.Prelude.{
  ℕ, ◌≡◌, refl, ◌∙◌, ap, Bool, Bool-cases, true, false, Option, none, some, List, [], ◌∷◌, ◌++◌,
  String, Result-cases, ok, err, arith, In, get, inl, inr, if◌then◌else◌,
}
use unlinger.Core.Model.{Snapshot}
use unlinger.Core.Evidence.{ProcessTarget}
use unlinger.Core.Artifact.{
  ArtifactActionIntent, ArtifactDisposition, ArtifactFreeze, RuntimeArtifactCandidate, frozen,
  absent, completed_cleanup, intent,
}
use unlinger.Core.Cleanup.Plan.{CleanupPlan}
use unlinger.Core.Cleanup.Runtime.{
  ClockSample, Environment, Event, History, Reply, Run, logged, stop_checked, clock_read,
  artifact_frozen, artifact_completed, gone, revival_check, or_terminal, pure, ◌>>=◌, ◌>>◌,
}
use unlinger.Core.Cleanup.Removal.{
  act, complete_artifact_prepared, confirm_absent, execute_artifact_action, final_disposition,
  look_again, prepare_artifact_action,
}
use unlinger.Core.Cleanup.Signal.{add_artifact_action}
use unlinger.Core.Cleanup.Liveness.{index_by_pid, clock_sample, should_stop}
use unlinger.Core.Cleanup.History.{
  Lawful, SettlesRemoval, artifact_action_of, completed_actions, is_stopped, last_snapshot,
  open_artifact, open_signal, removal_since,
}
use unlinger.Core.Cleanup.Logic.{Ensures, Ensures-bind}
use unlinger.Core.Cleanup.Account.{
  Agrees, AllTried, FrozenList, WereFrozen, push, Closed, Closed-Accounted, Closed-clock,
  Closed-stop, Ends,
}

module _ (env : Environment) (plan : CleanupPlan) where
  -- From the proof of absence to the last artifact the last snapshot is one that shows the tree gone.
  pub record TreeGone (h : History) : Type 0 where
    pub snapshot : Snapshot
    pub is_last : last_snapshot h ≡ some snapshot
    pub is_gone : (env.revalidate snapshot plan revival_check).status ≡ gone
    pub no_target :
        (t : ProcessTarget)
        → In t plan.targets
        → get t.identity.pid (index_by_pid [] snapshot.processes) ≡ none

  pub TreeGone-push :
      (e : Event) (h : History)
      → last_snapshot (e ∷ h) ≡ last_snapshot h
      → TreeGone h
      → TreeGone (e ∷ h)
  TreeGone-push e h same g = record {
    snapshot = g.snapshot;
    is_last = same ∙ g.is_last;
    is_gone = g.is_gone;
    no_target = g.no_target;
  }

module _ (env : Environment) (plan : CleanupPlan) (all : FrozenList) where
  record PreparedRemoval (tried : List ℕ) (id : String) (i : ArtifactActionIntent)
      (reply : Option ArtifactDisposition) (s : Run) : Type 0 where
    lawful : Lawful env plan s.history
    is_open : open_artifact s.history ≡ some (id, i)
    replied : removal_since s.history ≡ reply
    no_signal : open_signal s.history ≡ none
    agrees : Agrees s.receipt s.history
    all_tried : AllTried tried (completed_actions s.history)
    tree_gone : TreeGone env plan s.history
    were_frozen : WereFrozen env plan all s.history

  module _ (tried : List ℕ) where
    module _ (id : String) (i : ArtifactActionIntent) (d : ArtifactDisposition)
        (reply : Option ArtifactDisposition) (settles : SettlesRemoval reply d) (s : Run)
        (p : PreparedRemoval tried id i reply s) where
      abbrev CompletedRemoval : Unit {0} → Run → Type 0
      CompletedRemoval u s' =
          Closed env plan all tried s'
          × TreeGone env plan s'.history
          × (is_stopped s'.history ≡ is_stopped s.history)

      completes : SettlesRemoval (removal_since s.history) d
      completes = rw p.replied settles

      abbrev after_clock : ClockSample → Run
      after_clock c = logged s (clock_read (ok c))

      settled_run : ClockSample → Unit {0} → Run
      settled_run c u =
          let s' = logged (after_clock c) (artifact_completed id d c.wall_unix_millis (ok u)) in
          record s' { receipt = add_artifact_action i d s.receipt }

      settled_run-CompletedRemoval :
          (c : ClockSample) (u : Unit {0}) → CompletedRemoval u (settled_run c u)
      unfolding settled_run
      settled_run-CompletedRemoval c u = (
        record {
          lawful = ((i, p.is_open, completes), (tt, p.lawful));
          no_signal = p.no_signal;
          no_artifact = refl;
          agrees = (
            p.agrees.0,
            rw (p.is_open) (ap (λ xs. xs ++ artifact_action_of i d ∷ []) p.agrees.1),
          );
          all_tried = p.all_tried;
          were_frozen = push env plan all (push env plan all p.were_frozen);
        },
        TreeGone-push env plan (artifact_completed id d c.wall_unix_millis (ok u)) _ refl
            (TreeGone-push env plan (clock_read (ok c)) _ refl p.tree_gone),
        refl,
      )

      complete_artifact_prepared_lem :
          Ensures CompletedRemoval (Ends env plan) (complete_artifact_prepared env i id d s)
      unfolding complete_artifact_prepared settled_run
      complete_artifact_prepared_lem = elim (Result-cases (env.clock_sample s.history)) [
        | inr (e, eq) ↦
            rw (eq, complete_artifact_prepared)
              ((tt, p.lawful), p.agrees, inr (i, p.is_open, p.no_signal))
        | inl (c, eq) ↦
            rw (eq, complete_artifact_prepared)
              (elim (Result-cases
                (env.complete_artifact_action (after_clock c).history id d c.wall_unix_millis)) [
                  | inr (e, eq') ↦ rw eq' (
                    ((i, p.is_open, completes), (tt, p.lawful)),
                    p.agrees,
                    inr (i, p.is_open, p.no_signal),
                  )
                  | inl (u, eq') ↦ rw eq' (settled_run-CompletedRemoval c u)
                ])
      ]

    -- After `execute_artifact_action`.
    abbrev pub Reconciled : ArtifactDisposition → Run → Type 0
    Reconciled d s =
        Closed env plan all tried s
        × TreeGone env plan s.history
        × (completed_cleanup d ≡ true → is_stopped s.history ≡ false)

    Closed-freeze :
        (s : Run) (c : RuntimeArtifactCandidate) (r : Reply ArtifactFreeze)
        → Closed env plan all tried s
        → Closed env plan all tried (logged s (artifact_frozen c r))
    Closed-freeze s c r k = record {
      lawful = (tt, k.lawful);
      no_signal = k.no_signal;
      no_artifact = k.no_artifact;
      agrees = k.agrees;
      all_tried = k.all_tried;
      were_frozen = push env plan all k.were_frozen;
    }

    final_disposition-completed :
        (d : ArtifactDisposition) (f : ArtifactFreeze)
        → completed_cleanup (final_disposition env d f) ≡ true
        → completed_cleanup d ≡ true
    final_disposition-completed d absent h = h
    final_disposition-completed d (frozen g) h = absurd (ground arith)
    final_disposition-completed d ArtifactFreeze.unsafe h = absurd (ground arith)

    confirm_absent_lem :
        (c : RuntimeArtifactCandidate) (d : ArtifactDisposition) (s : Run)
        → Reconciled d s
        → Ensures Reconciled (Ends env plan) (confirm_absent env c d s)
    unfolding confirm_absent
    confirm_absent_lem c d s (k, g, run) = elim (Bool-cases (completed_cleanup d)) [
      | inr unfinished ↦ rw (unfinished, confirm_absent) (k, g, run)
      | inl finished ↦
          rw (finished, confirm_absent)
            (elim (Result-cases (env.freeze_artifact s.history c)) [
              | inr (e, eq) ↦
                  rw eq (Closed-Accounted env plan all tried _ (Closed-freeze s c (err e) k))
              | inl (f, eq) ↦ rw eq (
                Closed-freeze s c (ok f) k,
                TreeGone-push env plan _ _ refl g,
                λ h. run (final_disposition-completed d f h),
              )
            ])
    ]

    finish_lem :
        (c : RuntimeArtifactCandidate) (id : String) (d : ArtifactDisposition)
        (reply : Option ArtifactDisposition) (s : Run)
        → SettlesRemoval reply d
        → PreparedRemoval tried id (intent c) reply s
        → (completed_cleanup d ≡ true → is_stopped s.history ≡ false)
        → Ensures Reconciled
            (Ends env plan)
            ((complete_artifact_prepared env (intent c) id d >> confirm_absent env c d) s)
    finish_lem c id d reply s settles p run =
        Ensures-bind (CompletedRemoval id (intent c) d reply settles s p) Reconciled (Ends env plan)
          _ _ (complete_artifact_prepared_lem id (intent c) d reply settles s p)
          (λ u s' (k, g, same). confirm_absent_lem c d s' (k, g, λ h. same ∙ run h))

    abbrev Between : Run → Type 0
    Between s =
        Closed env plan all tried s × TreeGone env plan s.history × (is_stopped s.history ≡ false)

    look_again_lem :
        (c : RuntimeArtifactCandidate) (f : ArtifactFreeze) (s : Run)
        → Between s
        → Ensures (λ again s'. Between s') (Ends env plan) (look_again env c f s)
    unfolding look_again
    look_again_lem c (frozen g) s b = b
    look_again_lem c ArtifactFreeze.unsafe s b = b
    look_again_lem c absent s (k, g, running) =
        elim (Result-cases (env.freeze_artifact s.history c)) [
          | inr (e, eq) ↦
              rw (eq, look_again)
                (Closed-Accounted env plan all tried _ (Closed-freeze s c (err e) k))
          | inl (f, eq) ↦
              rw (eq, look_again)
                (Closed-freeze s c (ok f) k, TreeGone-push env plan _ _ refl g, running)
        ]

    abbrev Acted : RuntimeArtifactCandidate → String → ArtifactDisposition → Run → Type 0
    Acted c id d s =
        (reply : Option ArtifactDisposition) × PreparedRemoval tried id (intent c) reply s
        × SettlesRemoval reply d
        × (completed_cleanup d ≡ true → is_stopped s.history ≡ false)

    act_lem :
        (c : RuntimeArtifactCandidate) (id : String) (f : ArtifactFreeze)
        (again : Option ArtifactFreeze) (s : Run)
        → In (c, f) all
        → PreparedRemoval tried id (intent c) none s
        → is_stopped s.history ≡ false
        → Ensures (Acted c id) (Ends env plan) (act env f again s)
    unfolding act
    act_lem c id (frozen g) again s listed p running = (
      some (env.remove_artifact_exact s.history g),
      record {
        lawful = (
          (
            record {
              not_stopped = running;
              id = id;
              candidate = c;
              is_candidate = (p.were_frozen.freeze_of c (frozen g) listed).0;
              was_frozen = (p.were_frozen.freeze_of c (frozen g) listed).1;
              is_open = p.is_open;
              is_first = p.replied;
              snapshot = p.tree_gone.snapshot;
              is_last = p.tree_gone.is_last;
              is_gone = p.tree_gone.is_gone;
              no_target = p.tree_gone.no_target;
            },
            refl,
          ),
          p.lawful,
        );
        is_open = p.is_open;
        replied = refl;
        no_signal = p.no_signal;
        agrees = p.agrees;
        all_tried = p.all_tried;
        were_frozen = push env plan all p.were_frozen;
        tree_gone = TreeGone-push env plan _ _ refl p.tree_gone;
      },
      refl,
      λ h. running,
    )
    act_lem c id ArtifactFreeze.unsafe again s listed p running = (none, p, tt, λ h. running)
    act_lem c id absent none s listed p running = (none, p, tt, λ h. running)
    act_lem c id absent (some absent) s listed p running = (none, p, tt, λ h. running)
    act_lem c id absent (some (frozen g)) s listed p running = (none, p, tt, λ h. running)
    act_lem c id absent (some ArtifactFreeze.unsafe) s listed p running =
        (none, p, tt, λ h. running)

    prepared_stop :
        (id : String) (i : ArtifactActionIntent) (s : Run) (b : Bool)
        → PreparedRemoval tried id i none s
        → PreparedRemoval tried id i none (logged s (stop_checked b))
    prepared_stop id i s b p = record {
      lawful = (tt, p.lawful);
      is_open = p.is_open;
      replied = p.replied;
      no_signal = p.no_signal;
      agrees = p.agrees;
      all_tried = p.all_tried;
      were_frozen = push env plan all p.were_frozen;
      tree_gone = TreeGone-push env plan _ _ refl p.tree_gone;
    }

    -- From the second check for a stop on.
    resume_lem :
        (c : RuntimeArtifactCandidate) (f : ArtifactFreeze) (again : Option ArtifactFreeze)
        (id : String) (s : Run)
        → In (c, f) all
        → PreparedRemoval tried id (intent c) none s
        → is_stopped s.history ≡ false
        → Ensures Reconciled (Ends env plan) (
            (should_stop env >>= λ stop.
            (if stop then pure ArtifactDisposition.cancelled_before_delivery else act env f again)
            >>= λ d. complete_artifact_prepared env (intent c) id d >> confirm_absent env c d)
              s)
    resume_lem c f again id s listed p running = elim (Bool-cases (env.should_stop s.history)) [
      | inl stop ↦ rw stop (
          finish_lem c id ArtifactDisposition.cancelled_before_delivery none _ tt
            (prepared_stop id (intent c) s true p) (λ h. absurd (cc)))
      | inr go ↦ rw go (
          Ensures-bind (Acted c id) Reconciled (Ends env plan) _ _
            (act_lem c id f again _ listed (prepared_stop id (intent c) s false p) running)
            (λ d s' (reply, q, settles, run). finish_lem c id d reply s' settles q run))
    ]

    -- The journalled part, after the second look.
    journalled_lem :
        (c : RuntimeArtifactCandidate) (f : ArtifactFreeze) (again : Option ArtifactFreeze)
        (s : Run)
        → In (c, f) all
        → Between s
        → Ensures Reconciled (Ends env plan) (
            ((clock_sample env >>= or_terminal) >>= λ sample.
            (prepare_artifact_action env (intent c) sample.wall_unix_millis >>= or_terminal)
            >>= λ id. should_stop env >>= λ stop.
                (if stop
                  then pure ArtifactDisposition.cancelled_before_delivery
                  else act env f again)
                >>= λ d. complete_artifact_prepared env (intent c) id d >> confirm_absent env c d)
              s)
    journalled_lem c f again s listed (k, g, running) =
        elim (Result-cases (env.clock_sample s.history)) [
          | inr (e, eq) ↦
              rw eq (
                Closed-Accounted env plan all tried _ (Closed-clock env plan all tried s (err e) k))
          | inl (sample, eq) ↦
              rw eq
                (elim (Result-cases (
                  env.prepare_artifact_action (clock_read (ok sample) ∷ s.history) (intent c)
                    sample.wall_unix_millis)) [
                      | inr (e, eq') ↦ rw eq' (
                        (
                          record {
                            not_stopped = running;
                            no_signal = k.no_signal;
                            no_artifact = k.no_artifact;
                          },
                          (tt, k.lawful),
                        ),
                        k.no_signal,
                        k.no_artifact,
                        k.agrees,
                      )
                      | inl (id, eq') ↦ rw eq' (
                          resume_lem c f again id _ listed
                            (record {
                              lawful = (
                                record {
                                  not_stopped = running;
                                  no_signal = k.no_signal;
                                  no_artifact = k.no_artifact;
                                },
                                (tt, k.lawful),
                              );
                              is_open = refl;
                              replied = refl;
                              no_signal = k.no_signal;
                              agrees = k.agrees;
                              all_tried = k.all_tried;
                              were_frozen = push env plan all (push env plan all k.were_frozen);
                              tree_gone =
                                  TreeGone-push env plan _ _ refl
                                    (TreeGone-push env plan _ _ refl g);
                            })
                            running)
                    ])
        ]

    pub execute_artifact_action_lem :
        (c : RuntimeArtifactCandidate) (f : ArtifactFreeze) (s : Run)
        → In (c, f) all
        → Between s
        → Ensures Reconciled (Ends env plan) (execute_artifact_action env c f s)
    unfolding execute_artifact_action
    execute_artifact_action_lem c f s listed (k, g, running) =
        elim (Bool-cases (env.should_stop s.history)) [
          | inl stop ↦
              rw (stop, execute_artifact_action)
                (
                  Closed-stop env plan all tried s true k,
                  TreeGone-push env plan _ _ refl g,
                  λ h. absurd (cc),
                )
          | inr go ↦
              rw (go, execute_artifact_action)
                (Ensures-bind (λ again s'. Between s') Reconciled (Ends env plan) _ _
                  (look_again_lem c f _ (
                    Closed-stop env plan all tried s false k,
                    TreeGone-push env plan _ _ refl g,
                    running,
                  ))
                  (λ again s' b. journalled_lem c f again s' listed b))
        ]
