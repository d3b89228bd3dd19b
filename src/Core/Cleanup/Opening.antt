-- ===== src/Core/Cleanup/Opening.antt =====
-- crates/unlinger-core/src/cleanup.rs: the opening of a run and the whole of `execute`, followed with
-- the account of the run.
use unlinger.Prelude.{
  ℕ, ◌≡◌, refl, ap, ap₂, sym, subst, ◌∙◌, Bool-cases, true, false, inl, inr, List, [], ◌∷◌, ◌++◌,
  Result-cases, ok, err, arith, In, Map,
}
use unlinger.Core.Model.{ProcessIdentity}
use unlinger.Core.State.{cleared, state_eq}
use unlinger.Core.Artifact.{ArtifactFreeze, RuntimeArtifactCandidate}
use unlinger.Core.Cleanup.Receipt.{CleanupReceipt}
use unlinger.Core.Cleanup.Plan.{CleanupPlan}
use unlinger.Core.Cleanup.Runtime.{
  CleanupPolicy, Environment, Flow, Reply, Run, logged, artifact_frozen, stop_checked, next, exit,
  returned, raised,
}
use unlinger.Core.Cleanup.Execute.{
  body, conclude, execute, finish, freeze_artifacts, new_receipt, opening, set_resource_before,
}
use unlinger.Core.Cleanup.Logic.{Ensures, Ensures-bind, Ensures-weaken}
use unlinger.Core.Cleanup.Account.{
  Accounted, Closed, Closed-Accounted, Closed-stop, Ends, FrozenList, push,
}
use unlinger.Core.Cleanup.Reconcile.{TreeGone}
use unlinger.Core.Cleanup.Validation.{ValidatedIn, validate_stage_lem}
use unlinger.Core.Cleanup.Rounds.{Idle, Snapped, fail-Ends, or_fail_lem, snapshot_lem}
use unlinger.Core.Cleanup.Loops.{Idle-lookup, signal_rounds_lem}
use unlinger.Core.Cleanup.Closing.{Gone, Idle-receipt, closing_lem}

In-move : {A : Type 0} (x y : A) (xs ys : List A) → In x ((y ∷ xs) ++ ys) → In x (xs ++ y ∷ ys)
In-move x y [] ys h = h
In-move x y (z ∷ xs) ys (inl e) = inr (In-move x y xs ys (inl e))
In-move x y (z ∷ xs) ys (inr (inl e)) = inl e
In-move x y (z ∷ xs) ys (inr (inr h)) = inr (In-move x y xs ys (inr h))

In-append-nil : {A : Type 0} (x : A) (xs : List A) → In x xs → In x (xs ++ [])
In-append-nil x [] h = absurd h
In-append-nil x (y ∷ xs) (inl e) = inl e
In-append-nil x (y ∷ xs) (inr h) = inr (In-append-nil x xs h)

module _ (env : Environment) (plan : CleanupPlan) where
  -- A list of frozen artifacts may be exchanged for one with no others.
  Idle-relist :
      (all fewer : FrozenList) (tried : List ℕ) (s : Run)
      → ((c : RuntimeArtifactCandidate) (f : ArtifactFreeze) → In (c, f) fewer → In (c, f) all)
      → Idle env plan all tried s
      → Idle env plan fewer tried s
  Idle-relist all fewer tried s h (c, running) = (
    record {
      lawful = c.lawful;
      no_signal = c.no_signal;
      no_artifact = c.no_artifact;
      agrees = c.agrees;
      all_tried = c.all_tried;
      were_frozen = record { freeze_of = λ a f i. c.were_frozen.freeze_of a f (h a f i) };
    },
    running,
  )

  Idle-frozen :
      (done : FrozenList) (tried : List ℕ) (s : Run) (c : RuntimeArtifactCandidate)
      (f : ArtifactFreeze)
      → In c plan.artifacts
      → Idle env plan done tried s
      → Idle env plan ((c, f) ∷ done) tried (logged s (artifact_frozen c (ok f)))
  Idle-frozen done tried s c f i (k, running) = (
    record {
      lawful = (tt, k.lawful);
      no_signal = k.no_signal;
      no_artifact = k.no_artifact;
      agrees = k.agrees;
      all_tried = k.all_tried;
      were_frozen = record { freeze_of = known };
    },
    running,
  )
    where
      known :
          (a : RuntimeArtifactCandidate) (g : ArtifactFreeze)
          → In (a, g) ((c, f) ∷ done)
          → In a plan.artifacts
            × In (artifact_frozen a (ok g)) (artifact_frozen c (ok f) ∷ s.history)
      known a g (inl e) = (
        subst (λ x. In x plan.artifacts)
            (sym (ap (λ (p : RuntimeArtifactCandidate × ArtifactFreeze). p.0) e)) i,
        inl (
            ap₂ (λ x y. artifact_frozen x (ok y))
              (ap (λ (p : RuntimeArtifactCandidate × ArtifactFreeze). p.0) e)
              (ap (λ (p : RuntimeArtifactCandidate × ArtifactFreeze). p.1) e)),
      )
      known a g (inr j) = ((k.were_frozen.freeze_of a g j).0, inr (k.were_frozen.freeze_of a g j).1)

  Closed-freeze_failed :
      (done : FrozenList) (tried : List ℕ) (s : Run) (c : RuntimeArtifactCandidate)
      (r : Reply ArtifactFreeze)
      → Closed env plan done tried s
      → Closed env plan done tried (logged s (artifact_frozen c r))
  Closed-freeze_failed done tried s c r k = record {
    lawful = (tt, k.lawful);
    no_signal = k.no_signal;
    no_artifact = k.no_artifact;
    agrees = k.agrees;
    all_tried = k.all_tried;
    were_frozen = push env plan done k.were_frozen;
  }

  freeze_artifacts_lem :
      (done : FrozenList) (tried : List ℕ) (cs : List RuntimeArtifactCandidate) (s : Run)
      → ((c : RuntimeArtifactCandidate) → In c cs → In c plan.artifacts)
      → Idle env plan done tried s
      → Ensures
          (λ fs. Idle env plan (fs ++ done) tried)
          (Ends env plan)
          (freeze_artifacts env plan cs s)
  unfolding freeze_artifacts
  freeze_artifacts_lem done tried [] s h idle = idle
  freeze_artifacts_lem done tried (c ∷ cs) s h idle =
      elim (Result-cases (env.freeze_artifact s.history c)) [
        | inr (e, eq) ↦ rw eq (
            Closed-Accounted env plan done tried _
              (Closed-freeze_failed done tried s c (err e) idle.0))
        | inl (f, eq) ↦ rw eq (
            Ensures-bind (λ fs. Idle env plan (fs ++ (c, f) ∷ done) tried)
              (λ fs. Idle env plan (fs ++ done) tried) (Ends env plan) _ _
              (freeze_artifacts_lem ((c, f) ∷ done) tried cs _ (λ a i. h a (inr i))
                (Idle-frozen done tried s c f (h c (inl refl)) idle))
              (λ fs s1.
                Idle-relist (fs ++ (c, f) ∷ done) (((c, f) ∷ fs) ++ done) tried s1
                  (λ a g. In-move (a, g) (c, f) fs done)))
      ]

  opening_lem :
      (s : Run)
      → Idle env plan [] [] s
      → Ensures (λ opened. Idle env plan opened.1 []) (Ends env plan) (opening env plan s)
  unfolding opening
  opening_lem s idle = elim (Bool-cases (env.should_stop s.history)) [
    | inl stop ↦
        rw (stop, opening)
          (fail-Ends env plan [] [] (logged s (stop_checked true)) s.receipt _ [] refl refl
            (Closed-stop env plan [] [] s true idle.0))
    | inr go ↦
        rw (go, opening)
          (Ensures-bind (Snapped env plan [] [] s.receipt) Goal (Ends env plan) _ _
            (snapshot_lem env plan [] [] _ (Closed-stop env plan [] [] s false idle.0, idle.1))
            (λ snapshot s1 (idle1, last, same).
              Ensures-bind Survivors Goal (Ends env plan) _ _
                (Ensures-bind (λ r s'. Idle env plan [] [] s' × ValidatedIn env plan snapshot r)
                  Survivors (Ends env plan) _ _
                  (validate_stage_lem env plan (Idle env plan [] []) (Idle-lookup env plan [] [])
                    (Ends env plan) snapshot _
                    (Idle-receipt env plan [] [] s1 (set_resource_before snapshot plan s1.receipt)
                      refl refl idle1))
                  (λ r s2 (idle2, v).
                    or_fail_lem env plan [] [] Survivors r s2 idle2.0 (λ a e. idle2)))
                (λ a s3 idle3.
                  Ensures-bind (λ fs. Idle env plan (fs ++ []) []) Goal (Ends env plan) _ _
                    (freeze_artifacts_lem [] [] plan.artifacts s3 (λ c i. i) idle3)
                    (λ fs s4. Idle-relist (fs ++ []) fs [] s4 (λ c f. In-append-nil (c, f) fs)))))
  ]
    where
      Survivors : Map ProcessIdentity → Run → Type 0
      Survivors a s' = Idle env plan [] [] s'

      Goal : Map ProcessIdentity × FrozenList → Run → Type 0
      Goal opened s' = Idle env plan opened.1 [] s'

  -- What the last lines of `execute` are reached with.
  abbrev Ended : Unit {0} → Run → Type 0
  Ended u s = (all : FrozenList) × (tried : List ℕ) × Gone env plan all tried s

  start-Idle : Idle env plan [] [] (record { receipt = new_receipt plan; history = [] })
  start-Idle = (
    record {
      lawful = tt;
      no_signal = refl;
      no_artifact = refl;
      agrees = (refl, refl);
      all_tried = λ pid e. absurd (cc);
      were_frozen = record { freeze_of = λ c f i. absurd i };
    },
    refl,
  )

  body_lem :
      (policy : CleanupPolicy)
      → Ensures Ended
          (Ends env plan)
          (body env plan policy (record { receipt = new_receipt plan; history = [] }))
  unfolding body
  body_lem policy =
      Ensures-bind (λ opened. Idle env plan opened.1 []) Ended (Ends env plan) _ _
        (opening_lem _ start-Idle)
        (λ opened s1 idle1.
          Ensures-bind (λ u s'. (tried : List ℕ) × Idle env plan opened.1 tried s') Ended
            (Ends env plan) _ _ (signal_rounds_lem env plan opened.1 policy opened.0 s1 idle1)
            (λ u s2 (tried, idle2).
              Ensures-weaken (λ u. Gone env plan opened.1 tried) Ended (Ends env plan) _
                (λ u s3 g. (opened.1, tried, g))
                (closing_lem env plan opened.1 tried policy s2 idle2)))

  conclude-keeps :
      (r : CleanupReceipt)
      → ((conclude r).actions ≡ r.actions) × ((conclude r).artifact_actions ≡ r.artifact_actions)
  unfolding conclude
  conclude-keeps r = ground arith

  finish_lem :
      (r : Flow (Unit {0}) × Run)
      → Ensures Ended (Ends env plan) r
      → Accounted env plan (finish env plan r).0 (finish env plan r).1
        × ((receipt : CleanupReceipt)
            → (finish env plan r).0 ≡ returned receipt
            → state_eq receipt.state cleared ≡ true
            → TreeGone env plan (finish env plan r).1)
  finish_lem (next u, s) (all, tried, ((c, running), g)) = (
    (
      c.lawful,
      c.no_signal,
      c.no_artifact,
      ((conclude-keeps s.receipt).0 ∙ c.agrees.0, (conclude-keeps s.receipt).1 ∙ c.agrees.1),
    ),
    λ receipt e k. g,
  )
  finish_lem (exit (returned r), s) (acc, early) =
      (acc, λ receipt e k. absurd (ground (arith, early)))
  finish_lem (exit (raised x), s) acc = (acc, λ receipt e k. absurd (cc))

  pub execute_lem :
      (policy : CleanupPolicy)
      → Accounted env plan (execute env plan policy).0 (execute env plan policy).1
        × ((receipt : CleanupReceipt)
            → (execute env plan policy).0 ≡ returned receipt
            → state_eq receipt.state cleared ≡ true
            → TreeGone env plan (execute env plan policy).1)
  unfolding execute
  execute_lem policy = finish_lem _ (body_lem policy)
