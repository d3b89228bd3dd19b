-- ===== src/Core/Cleanup/Closing.antt =====
-- crates/unlinger-core/src/cleanup.rs: the end of a run, from the revival windows to the artifacts,
-- followed with the account of the run.
use unlinger.Prelude.{
  ℕ, ◌+◌, ◌≡◌, refl, ap, subst, ◌∙◌, suc, Option, none, some, List, [], ◌∷◌, String, ok, arith, In,
  inl, inr, length, is_empty, keys, if◌then◌else◌,
}
use unlinger.Core.Model.{Snapshot}
use unlinger.Core.Artifact.{ArtifactFreeze, RuntimeArtifactCandidate, completed_cleanup}
use unlinger.Core.Cleanup.Receipt.{CleanupReceipt}
use unlinger.Core.Cleanup.Plan.{CleanupPlan}
use unlinger.Core.Cleanup.Runtime.{
  CleanupPolicy, Environment, Revalidation, RevalidationStatus, Run, eligible, gone, blocked,
  revival_check, returned, pure, return_receipt, ◌>>=◌,
}
use unlinger.Core.Cleanup.Liveness.{
  ExactTargetLiveness, fail, resource_snapshot, set_resource_after, snapshot_or_receipt_error,
}
use unlinger.Core.Cleanup.Signal.{artifact_failure_reason}
use unlinger.Core.Cleanup.Execute.{
  artifact_loop, check_window, closing, count_revival_check, post_artifact, prove_gone,
  require_gone, revival_loop, set_revived, snapshot_or_take,
}
use unlinger.Core.Cleanup.History.{last_snapshot}
use unlinger.Core.Cleanup.Logic.{Ensures, Ensures-bind, Ensures-if, Ensures-weaken}
use unlinger.Core.Cleanup.Account.{Closed, Ends, FrozenList}
use unlinger.Core.Cleanup.Reconcile.{Reconciled, TreeGone, execute_artifact_action_lem}
use unlinger.Core.Cleanup.Validation.{ObservedIn, observe_lem}
use unlinger.Core.Cleanup.Rounds.{
  Idle, Snapped, fail-Ends, or_fail_lem, snapshot_lem, wait_or_drain_lem,
}
use unlinger.Core.Cleanup.Loops.{Idle-lookup}

module _ (env : Environment) (plan : CleanupPlan) (all : FrozenList) (tried : List ℕ) where
  -- A receipt with the same actions keeps the account.
  pub Idle-receipt :
      (s : Run) (r : CleanupReceipt)
      → r.actions ≡ s.receipt.actions
      → r.artifact_actions ≡ s.receipt.artifact_actions
      → Idle env plan all tried s
      → Idle env plan all tried (record s { receipt = r })
  Idle-receipt s r a b (c, running) = (
    record {
      lawful = c.lawful;
      no_signal = c.no_signal;
      no_artifact = c.no_artifact;
      agrees = (a ∙ c.agrees.0, b ∙ c.agrees.1);
      all_tried = c.all_tried;
      were_frozen = c.were_frozen;
    },
    running,
  )

  set_resource_after-keeps :
      (after : _) (r : CleanupReceipt)
      → ((set_resource_after after r).actions ≡ r.actions)
        × ((set_resource_after after r).artifact_actions ≡ r.artifact_actions)
        × ((set_resource_after after r).revival_checks_completed ≡ r.revival_checks_completed)
        × ((set_resource_after after r).state ≡ r.state)
  unfolding set_resource_after
  set_resource_after-keeps after r = (refl, refl, refl, refl)

  -- Between two parts of the closing, with the number of revival checks made so far.
  abbrev pub Checked : ℕ → Run → Type 0
  Checked n s = Idle env plan all tried s × (s.receipt.revival_checks_completed ≡ n)

  revived_lem :
      (s : Run) (r : CleanupReceipt) (reason : String)
      → r.actions ≡ s.receipt.actions
      → r.artifact_actions ≡ s.receipt.artifact_actions
      → Closed env plan all tried s
      → Ends env plan (returned (set_revived reason r)) s
  revived_lem s r reason a b c =
      ((c.lawful, c.no_signal, c.no_artifact, (a ∙ c.agrees.0, b ∙ c.agrees.1)), refl)

  -- A snapshot that was passed on is still the last one.
  abbrev LastIs : Option Snapshot → Run → Type 0
  LastIs last s = (x : Snapshot) → last ≡ some x → last_snapshot s.history ≡ some x

  check_window_lem :
      (n : ℕ) (snapshot : Snapshot) (v : Revalidation) (s : Run)
      → Checked n s
      → last_snapshot s.history ≡ some snapshot
      → Ensures
          (λ u s'. Checked n s' × (last_snapshot s'.history ≡ some snapshot))
          (Ends env plan)
          (check_window env plan snapshot v s)
  unfolding check_window
  check_window_lem n snapshot v s checked last = go v.status refl
    where
      after : CleanupReceipt
      after = set_resource_after (resource_snapshot snapshot plan) s.receipt

      keeps :
          (after.actions ≡ s.receipt.actions)
          × (after.artifact_actions ≡ s.receipt.artifact_actions)
          × (after.revival_checks_completed ≡ s.receipt.revival_checks_completed)
          × (after.state ≡ s.receipt.state)
      keeps = set_resource_after-keeps (resource_snapshot snapshot plan) s.receipt

      go :
          (st : RevalidationStatus)
          → v.status ≡ st
          → Ensures
              (λ u s'. Checked n s' × (last_snapshot s'.history ≡ some snapshot))
              (Ends env plan)
              (check_window env plan snapshot v s)
      go gone e = rw (e, check_window) (checked, last)
      go RevalidationStatus.revived e =
          rw (e, check_window) (revived_lem s after v.reason_id keeps.0 keeps.1 checked.0.0)
      go eligible e =
          rw (e, check_window) (revived_lem s after v.reason_id keeps.0 keeps.1 checked.0.0)
      go blocked e =
          rw (e, check_window)
            (fail-Ends env plan all tried s after v.reason_id [] keeps.0 keeps.1 checked.0.0)

  require_gone_lem :
      (Q : Run → Type 0) (v : Revalidation) (s : Run)
      → Closed env plan all tried s
      → Q s
      → Ensures (λ u s'. Q s' × (v.status ≡ gone)) (Ends env plan) (require_gone env plan v s)
  unfolding require_gone
  require_gone_lem Q v s c q = go v.status refl
    where
      go :
          (st : RevalidationStatus)
          → v.status ≡ st
          → Ensures (λ u s'. Q s' × (v.status ≡ gone)) (Ends env plan) (require_gone env plan v s)
      go gone e = rw (e, require_gone) (q, refl)
      go RevalidationStatus.revived e =
          rw (e, require_gone) (revived_lem s s.receipt v.reason_id refl refl c)
      go eligible e = rw (e, require_gone) (revived_lem s s.receipt v.reason_id refl refl c)
      go blocked e =
          rw (e, require_gone) (fail-Ends env plan all tried s s.receipt v.reason_id [] refl refl c)

  count_receipt :
      (s : Run) (n : ℕ)
      → Checked n s
      → Checked (n + 1) (record s { receipt = count_revival_check env plan s.receipt })
  count_receipt s n (idle, e) = (Idle-receipt s _ refl refl idle, rw e refl)

  revival_loop_lem :
      (n : ℕ) (last : Option Snapshot) (windows : List ℕ) (s : Run)
      → Checked n s
      → LastIs last s
      → Ensures
          (λ last' s'. Checked (n + length windows) s' × LastIs last' s')
          (Ends env plan)
          (revival_loop env plan last windows s)
  unfolding revival_loop
  revival_loop_lem n last [] s (idle, e) h = ((idle, omega (arith, e)), h)
  revival_loop_lem n last (window ∷ windows) s (idle, e) h =
      Ensures-bind (λ u s'. Idle env plan all tried s' × (s'.receipt ≡ s.receipt)) Goal
        (Ends env plan) _ _ (wait_or_drain_lem env plan all tried window [] s idle)
        (λ u s1 (idle1, same1).
          Ensures-bind (Snapped env plan all tried s1.receipt) Goal (Ends env plan) _ _
            (snapshot_lem env plan all tried s1 idle1)
            (λ snapshot s2 (idle2, is_last, same2).
              let checked : Checked n s2 =
                (idle2, ap (λ r. r.revival_checks_completed) (same2 ∙ same1) ∙ e) in
              Ensures-bind (λ u s'. Checked (n + 1) s' × (last_snapshot s'.history ≡ some snapshot))
                Goal (Ends env plan) _ _
                (check_window_lem (n + 1) snapshot (env.revalidate snapshot plan revival_check) _
                  (count_receipt s2 n checked) is_last)
                (λ u s3 (checked3, last3).
                  Ensures-weaken (λ last' s'. Checked (n + 1 + length windows) s' × LastIs last' s')
                    Goal (Ends env plan) _
                    (λ last' s' ((idle', e'), l). ((idle', omega (arith, e')), l))
                    (revival_loop_lem (n + 1) (some snapshot) windows s3 checked3
                      (λ x q. last3 ∙ q)))))
    where
      Goal : Option Snapshot → Run → Type 0
      Goal last' s' = Checked (n + suc (length windows)) s' × LastIs last' s'

  -- The tree is proved gone, and nothing is open.
  abbrev pub Gone : Run → Type 0
  Gone s = Idle env plan all tried s × TreeGone env plan s.history

  prove_gone_lem :
      (reason : String) (snapshot : Snapshot) (s : Run)
      → Idle env plan all tried s
      → last_snapshot s.history ≡ some snapshot
      → Ensures (λ u. Gone) (Ends env plan) (prove_gone env plan reason snapshot s)
  unfolding prove_gone
  prove_gone_lem reason snapshot s idle last =
      Ensures-bind At (λ u. Gone) (Ends env plan) _ _
        (Ensures-bind (λ r s'. Here s' × ObservedIn snapshot plan r) At (Ends env plan) _ _
          (observe_lem env plan Here
            (λ s' pid r (i, l). (Idle-lookup env plan all tried s' pid r i, l)) (Ends env plan)
            snapshot s (idle, last))
          (λ r s1 (here, seen).
            or_fail_lem env plan all tried At r s1 here.0.0
              (λ o e. (here, subst (ObservedIn snapshot plan) e seen))))
        (λ o s1 (here, seen).
          let after = set_resource_after (resource_snapshot snapshot plan) s1.receipt in
          let keeps = set_resource_after-keeps (resource_snapshot snapshot plan) s1.receipt in
          let here' : Here (record s1 { receipt = after }) =
            (Idle-receipt s1 after keeps.0 keeps.1 here.0, here.1) in
          Ensures-bind
            (λ u s'. Here s' × ((env.revalidate snapshot plan revival_check).status ≡ gone))
            (λ u. Gone) (Ends env plan) _ _
            (require_gone_lem Here (env.revalidate snapshot plan revival_check) _ here'.0.0 here')
            (λ u s2 (here2, is_gone). absent_lem o s2 here2 is_gone seen))
    where
      Here : Run → Type 0
      Here s' = Idle env plan all tried s' × (last_snapshot s'.history ≡ some snapshot)

      At : ExactTargetLiveness → Run → Type 0
      At o s' = Here s' × ObservedIn snapshot plan (ok o)

      absent_lem :
          (o : ExactTargetLiveness) (s2 : Run)
          → Here s2
          → (env.revalidate snapshot plan revival_check).status ≡ gone
          → ObservedIn snapshot plan (ok o)
          → Ensures
              (λ u. Gone)
              (Ends env plan)
              ((if is_empty o.survivors
                  then pure tt
                  else return_receipt (fail reason (keys o.survivors)))
                s2)
      absent_lem o s2 here2 is_gone (known, seen) =
          Ensures-if (λ (u : Unit {0}). Gone) (Ends env plan) (is_empty o.survivors) (pure tt)
            (return_receipt (fail reason (keys o.survivors))) s2
            (λ e. (
              here2.0,
              record {
                snapshot = snapshot;
                is_last = here2.1;
                is_gone = is_gone;
                no_target = λ t i. (seen t i).absent e;
              },
            ))
            (λ e.
              fail-Ends env plan all tried s2 s2.receipt reason (keys o.survivors) refl refl
                here2.0.0)

  artifact_loop_lem :
      (rest : FrozenList) (s : Run)
      → ((c : RuntimeArtifactCandidate) (f : ArtifactFreeze) → In (c, f) rest → In (c, f) all)
      → Gone s
      → Ensures (λ u. Gone) (Ends env plan) (artifact_loop env plan rest s)
  unfolding artifact_loop
  artifact_loop_lem [] s h g = g
  artifact_loop_lem ((c, f) ∷ rest) s h ((k, running), g) =
      Ensures-bind (Reconciled env plan all tried) (λ u. Gone) (Ends env plan) _ _
        (execute_artifact_action_lem env plan all tried c f s (h c f (inl refl)) (k, g, running))
        (λ d s1 (k1, g1, run1).
          Ensures-bind (λ u. Gone) (λ u. Gone) (Ends env plan) _
            ((if completed_cleanup d
                then pure tt
                else return_receipt (fail (artifact_failure_reason d) []))
              s1)
            (Ensures-if (λ (u : Unit {0}). Gone) (Ends env plan) (completed_cleanup d) (pure tt)
              (return_receipt (fail (artifact_failure_reason d) [])) s1 (λ e. ((k1, run1 e), g1))
              (λ e. fail-Ends env plan all tried s1 s1.receipt _ [] refl refl k1))
            (λ u s2. artifact_loop_lem rest s2 (λ c' f' i. h c' f' (inr i))))

  post_artifact_lem :
      (s : Run) → Gone s → Ensures (λ u. Gone) (Ends env plan) (post_artifact env plan s)
  unfolding post_artifact
  post_artifact_lem s g =
      Ensures-if (λ (u : Unit {0}). Gone) (Ends env plan) (is_empty plan.artifacts) (pure tt)
        (snapshot_or_receipt_error env
          >>= prove_gone env plan "cleanup.post_artifact_tree_not_gone")
        s (λ e. g)
        (λ e.
          Ensures-bind (Snapped env plan all tried s.receipt) (λ u. Gone) (Ends env plan) _ _
            (snapshot_lem env plan all tried s g.0)
            (λ snapshot s1 (idle, last, same). prove_gone_lem _ snapshot s1 idle last))

  terminal_lem :
      (last : Option Snapshot) (s : Run)
      → Idle env plan all tried s
      → LastIs last s
      → Ensures
          (λ x s'. Idle env plan all tried s' × (last_snapshot s'.history ≡ some x))
          (Ends env plan)
          (snapshot_or_take env plan last s)
  terminal_lem (some x) s idle h = (idle, h x refl)
  terminal_lem none s idle h =
      Ensures-weaken (Snapped env plan all tried s.receipt)
        (λ x s'. Idle env plan all tried s' × (last_snapshot s'.history ≡ some x)) (Ends env plan) _
        (λ x s' (i, l, same). (i, l)) (snapshot_lem env plan all tried s idle)

  -- A closing that comes to its end has proved the tree gone, in the last snapshot taken.
  pub closing_lem :
      (policy : CleanupPolicy) (s : Run)
      → Idle env plan all tried s
      → Ensures (λ u. Gone) (Ends env plan) (closing env plan policy all s)
  unfolding closing
  closing_lem policy s idle =
      Ensures-bind
        (λ last s'.
          Checked (s.receipt.revival_checks_completed + length policy.revival_windows) s'
          × LastIs last s')
        (λ u. Gone) (Ends env plan) _ _
        (revival_loop_lem s.receipt.revival_checks_completed none policy.revival_windows s
          (idle, refl) (λ x e. absurd (cc)))
        (λ last s1 ((idle1, e), h).
          Ensures-bind (λ x s'. Idle env plan all tried s' × (last_snapshot s'.history ≡ some x))
            (λ u. Gone) (Ends env plan) _ _ (terminal_lem last s1 idle1 h)
            (λ x s2 (idle2, l).
              Ensures-bind (λ u. Gone) (λ u. Gone) (Ends env plan) _ _
                (prove_gone_lem _ x s2 idle2 l)
                (λ u s3 g.
                  Ensures-bind (λ u. Gone) (λ u. Gone) (Ends env plan) _ _
                    (artifact_loop_lem all s3 (λ c f i. i) g)
                    (λ u s4 g4. post_artifact_lem s4 g4))))
