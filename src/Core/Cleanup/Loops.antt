-- ===== src/Core/Cleanup/Loops.antt =====
-- crates/unlinger-core/src/cleanup.rs: the loops over the targets, followed with the account of the run.
use unlinger.Prelude.{
  ℕ, ◌≡◌, refl, Bool, Bool-cases, ◌&&◌, Option, none, some, List, [], ◌∷◌, String, In, inl, inr,
  Map, contains, contains_key, is_empty, keys, if◌then◌else◌,
}
use unlinger.Core.Model.{ProcessIdentity, ProcessRecord}
use unlinger.Core.Evidence.{ProcessTarget}
use unlinger.Core.Cleanup.Receipt.{
  CleanupSignal, CleanupStage, term, kill, primary_term, member_term, exact_kill,
}
use unlinger.Core.Cleanup.Plan.{CleanupPlan}
use unlinger.Core.Cleanup.Runtime.{
  CleanupPolicy, Environment, Reply, Run, looked_up, logged, pure, return_receipt, ◌>>=◌, ◌>>◌,
}
use unlinger.Core.Cleanup.Liveness.{
  ExactTargetLiveness, fail, or_fail, observe_exact_target_liveness, snapshot_or_receipt_error,
  wait_or_drain,
}
use unlinger.Core.Cleanup.Execute.{
  end_if_refused, kill_loop, kill_round, kill_target, member_loop, member_round, primary_loop,
  primary_round, settle, signal_or_fail, signal_rounds, term_target,
}
use unlinger.Core.Cleanup.History.{TermTried, completed_actions}
use unlinger.Core.Cleanup.Logic.{Ensures, Ensures-bind, Ensures-if, Ensures-weaken}
use unlinger.Core.Cleanup.Account.{Closed-lookup, Ends, FrozenList}
use unlinger.Core.Cleanup.Signalling.{Sent, signal_lem}
use unlinger.Core.Cleanup.Validation.{ObservedIn, ValidatedIn, observe_lem, validate_stage_lem}
use unlinger.Core.Cleanup.Rounds.{
  AllTried-cons, Closed-tried, Idle, Snapped, fail-Ends, or_fail_lem, snapshot_lem,
  wait_or_drain_lem,
}

module _ (env : Environment) (plan : CleanupPlan) (all : FrozenList) where
  signal_or_fail_lem :
      (tried : List ℕ) (survivors : Map ProcessIdentity) (t : ProcessTarget) (stage : CleanupStage)
      (sig : CleanupSignal) (s : Run)
      → In t plan.targets
      → (sig ≡ kill → TermTried t.identity.pid (completed_actions s.history))
      → Idle env plan all tried s
      → Ensures
          (λ u s'.
            Idle env plan all tried s'
            × (sig ≡ term → TermTried t.identity.pid (completed_actions s'.history)))
          (Ends env plan)
          (signal_or_fail env plan survivors t stage sig s)
  unfolding signal_or_fail
  signal_or_fail_lem tried survivors t stage sig s i k (c, running) =
      Ensures-bind (Sent env plan all tried t i stage sig) _ (Ends env plan) _ _
        (signal_lem env plan all tried t i stage sig s c running k) decide
    where
      decide :
          (refused : Option String) (s' : Run)
          → Sent env plan all tried t i stage sig refused s'
          → Ensures
              (λ u s''.
                Idle env plan all tried s''
                × (sig ≡ term → TermTried t.identity.pid (completed_actions s''.history)))
              (Ends env plan)
              (end_if_refused (keys survivors) refused s')
      decide none s' (c', h) = ((c', (h refl).0), (h refl).1)
      decide (some reason) s' (c', h) =
          fail-Ends env plan all tried s' s'.receipt reason (keys survivors) refl refl c'

  term_target_lem :
      (stage : CleanupStage) (wanted : Bool) (survivors : Map ProcessIdentity) (tried : List ℕ)
      (t : ProcessTarget) (s : Run)
      → In t plan.targets
      → Idle env plan all tried s
      → Ensures
          (Idle env plan all)
          (Ends env plan)
          (term_target env plan stage wanted survivors tried t s)
  unfolding term_target
  term_target_lem stage wanted survivors tried t s i idle =
      Ensures-if (Idle env plan all) (Ends env plan)
        (contains_key t.identity.pid survivors && wanted)
        (signal_or_fail env plan survivors t stage term >> pure (t.identity.pid ∷ tried))
        (pure tried) s
        (λ e.
          Ensures-bind
            (λ u s'.
              Idle env plan all tried s'
              × (term ≡ term → TermTried t.identity.pid (completed_actions s'.history)))
            (Idle env plan all) (Ends env plan) _ _
            (signal_or_fail_lem tried survivors t stage term s i (λ e. absurd (cc)) idle)
            (λ u s' ((c, running), h). (
              Closed-tried env plan all tried (t.identity.pid ∷ tried) s'
                  (AllTried-cons t.identity.pid tried _ (h refl) c.all_tried) c,
              running,
            )))
        (λ e. idle)

  -- The targets of a loop are among the plan's.
  abbrev Among : List ProcessTarget → Type 0
  Among ts = (t : ProcessTarget) → In t ts → In t plan.targets

  primary_loop_lem :
      (survivors : Map ProcessIdentity) (tried : List ℕ) (ts : List ProcessTarget) (s : Run)
      → Among ts
      → Idle env plan all tried s
      → Ensures (Idle env plan all) (Ends env plan) (primary_loop env plan survivors tried ts s)
  unfolding primary_loop
  primary_loop_lem survivors tried [] s h idle = idle
  primary_loop_lem survivors tried (t ∷ ts) s h idle =
      Ensures-bind (Idle env plan all) (Idle env plan all) (Ends env plan) _ _
        (term_target_lem primary_term _ survivors tried t s (h t (inl refl)) idle)
        (λ tried' s'. primary_loop_lem survivors tried' ts s' (λ u i. h u (inr i)))

  member_loop_lem :
      (survivors : Map ProcessIdentity) (tried : List ℕ) (ts : List ProcessTarget) (s : Run)
      → Among ts
      → Idle env plan all tried s
      → Ensures (Idle env plan all) (Ends env plan) (member_loop env plan survivors tried ts s)
  unfolding member_loop
  member_loop_lem survivors tried [] s h idle = idle
  member_loop_lem survivors tried (t ∷ ts) s h idle =
      Ensures-bind (Idle env plan all) (Idle env plan all) (Ends env plan) _ _
        (term_target_lem member_term _ survivors tried t s (h t (inl refl)) idle)
        (λ tried' s'. member_loop_lem survivors tried' ts s' (λ u i. h u (inr i)))

  kill_target_lem :
      (survivors : Map ProcessIdentity) (tried : List ℕ) (t : ProcessTarget) (s : Run)
      → In t plan.targets
      → Idle env plan all tried s
      → Ensures
          (λ u. Idle env plan all tried)
          (Ends env plan)
          (kill_target env plan survivors tried t s)
  unfolding kill_target
  kill_target_lem survivors tried t s i idle =
      elim (Bool-cases (contains_key t.identity.pid survivors)) [
        | inr dead ↦ rw (dead, kill_target) idle
        | inl alive ↦
            rw (alive, kill_target)
              (elim (Bool-cases (contains tried t.identity.pid)) [
                | inr untried ↦ rw untried (
                    fail-Ends env plan all tried s s.receipt "cleanup.kill_without_term"
                      (keys survivors) refl refl idle.0)
                | inl attempted ↦ rw attempted (
                    Ensures-weaken
                      (λ u s'.
                        Idle env plan all tried s'
                        × (kill ≡ term → TermTried t.identity.pid (completed_actions s'.history)))
                      (λ u. Idle env plan all tried) (Ends env plan) _ (λ u s' (idle', h). idle')
                      (signal_or_fail_lem tried survivors t exact_kill kill s i
                        (λ k. idle.0.all_tried t.identity.pid attempted) idle))
              ])
      ]

  kill_loop_lem :
      (survivors : Map ProcessIdentity) (tried : List ℕ) (ts : List ProcessTarget) (s : Run)
      → Among ts
      → Idle env plan all tried s
      → Ensures
          (λ u. Idle env plan all tried)
          (Ends env plan)
          (kill_loop env plan survivors tried ts s)
  unfolding kill_loop
  kill_loop_lem survivors tried [] s h idle = idle
  kill_loop_lem survivors tried (t ∷ ts) s h idle =
      Ensures-bind (λ u. Idle env plan all tried) (λ u. Idle env plan all tried) (Ends env plan) _ _
        (kill_target_lem survivors tried t s (h t (inl refl)) idle)
        (λ u s'. kill_loop_lem survivors tried ts s' (λ v i. h v (inr i)))

  pub Idle-lookup :
      (tried : List ℕ) (s : Run) (pid : ℕ) (r : Reply (Option ProcessRecord))
      → Idle env plan all tried s
      → Idle env plan all tried (logged s (looked_up pid r))
  Idle-lookup tried s pid r (c, running) = (Closed-lookup env plan all tried s pid r c, running)

  settle_lem :
      (grace : ℕ) (survivors : Map ProcessIdentity) (tried : List ℕ) (s : Run)
      → Idle env plan all tried s
      → Ensures (λ sv. Idle env plan all tried) (Ends env plan) (settle env plan grace survivors s)
  unfolding settle
  settle_lem grace survivors tried s idle =
      Ensures-bind (λ u s'. Idle env plan all tried s' × (s'.receipt ≡ s.receipt))
        (λ sv. Idle env plan all tried) (Ends env plan) _ _
        (wait_or_drain_lem env plan all tried grace (keys survivors) s idle)
        (λ u s1 (idle1, same).
          Ensures-bind (Snapped env plan all tried s1.receipt) (λ sv. Idle env plan all tried)
            (Ends env plan) _ _ (snapshot_lem env plan all tried s1 idle1)
            (λ snapshot s2 (idle2, last, same2).
              Ensures-bind (λ r s'. Idle env plan all tried s' × ValidatedIn env plan snapshot r)
                (λ sv. Idle env plan all tried) (Ends env plan) _ _
                (validate_stage_lem env plan (Idle env plan all tried) (Idle-lookup tried)
                  (Ends env plan) snapshot s2 idle2)
                (λ r s3 (idle3, v).
                  or_fail_lem env plan all tried (λ sv. Idle env plan all tried) r s3 idle3.0
                    (λ a e. idle3))))

  -- The survivors of a round, with the pids that were sent a TERM.
  abbrev pub Settled : Map ProcessIdentity × List ℕ → Run → Type 0
  Settled round s = Idle env plan all round.1 s

  primary_round_lem :
      (policy : CleanupPolicy) (survivors : Map ProcessIdentity) (s : Run)
      → Idle env plan all [] s
      → Ensures Settled (Ends env plan) (primary_round env plan policy survivors s)
  unfolding primary_round
  primary_round_lem policy survivors s idle = elim (Bool-cases (is_empty survivors)) [
    | inl done ↦ rw (done, primary_round) idle
    | inr alive ↦
        rw (alive, primary_round)
          (Ensures-bind (Idle env plan all) Settled (Ends env plan) _ _
            (primary_loop_lem survivors [] plan.targets s (λ t i. i) idle)
            (λ tried s1 idle1.
              Ensures-bind (λ sv. Idle env plan all tried) Settled (Ends env plan) _ _
                (settle_lem policy.primary_term_grace survivors tried s1 idle1)
                (λ sv s2 idle2. idle2)))
  ]

  member_round_lem :
      (policy : CleanupPolicy) (survivors : Map ProcessIdentity) (tried : List ℕ) (s : Run)
      → Idle env plan all tried s
      → Ensures Settled (Ends env plan) (member_round env plan policy survivors tried s)
  unfolding member_round
  member_round_lem policy survivors tried s idle = elim (Bool-cases (is_empty survivors)) [
    | inl done ↦ rw (done, member_round) idle
    | inr alive ↦
        rw (alive, member_round)
          (Ensures-bind (Idle env plan all) Settled (Ends env plan) _ _
            (member_loop_lem survivors tried plan.targets s (λ t i. i) idle)
            (λ tried' s1 idle1.
              Ensures-bind (λ sv. Idle env plan all tried') Settled (Ends env plan) _ _
                (settle_lem policy.member_term_grace survivors tried' s1 idle1)
                (λ sv s2 idle2. idle2)))
  ]

  kill_round_lem :
      (policy : CleanupPolicy) (survivors : Map ProcessIdentity) (tried : List ℕ) (s : Run)
      → Idle env plan all tried s
      → Ensures
          (λ u. Idle env plan all tried)
          (Ends env plan)
          (kill_round env plan policy survivors tried s)
  unfolding kill_round
  kill_round_lem policy survivors tried s idle = elim (Bool-cases (is_empty survivors)) [
    | inl done ↦ rw (done, kill_round) idle
    | inr alive ↦
        rw (alive, kill_round)
          (Ensures-bind (λ u. Idle env plan all tried) (λ u. Idle env plan all tried)
            (Ends env plan) _ _ (kill_loop_lem survivors tried plan.targets s (λ t i. i) idle)
            (λ u s1 idle1. after_kills s1 idle1))
  ]
    where
      Goal : Unit {0} → Run → Type 0
      Goal u s' = Idle env plan all tried s'

      after_kills :
          (s1 : Run)
          → Idle env plan all tried s1
          → Ensures Goal (Ends env plan) (
              (wait_or_drain env policy.kill_grace (keys survivors)
                  >> (snapshot_or_receipt_error env >>= λ snapshot.
                      (observe_exact_target_liveness env snapshot plan >>= or_fail env) >>= λ o.
                      if is_empty o.survivors
                      then pure tt
                      else return_receipt (fail "cleanup.survivors_after_kill" (keys o.survivors))))
                s1)
      after_kills s1 idle1 =
          Ensures-bind (λ u s'. Idle env plan all tried s' × (s'.receipt ≡ s1.receipt)) Goal
            (Ends env plan) _ _
            (wait_or_drain_lem env plan all tried policy.kill_grace (keys survivors) s1 idle1)
            (λ u s2 (idle2, same).
              Ensures-bind (Snapped env plan all tried s2.receipt) Goal (Ends env plan) _ _
                (snapshot_lem env plan all tried s2 idle2)
                (λ snapshot s3 (idle3, last, same3).
                  Ensures-bind (λ (o : ExactTargetLiveness). Idle env plan all tried) Goal
                    (Ends env plan) _ _
                    (Ensures-bind (λ r s'. Idle env plan all tried s' × ObservedIn snapshot plan r)
                      (λ (o : ExactTargetLiveness). Idle env plan all tried) (Ends env plan) _ _
                      (observe_lem env plan (Idle env plan all tried) (Idle-lookup tried)
                        (Ends env plan) snapshot s3 idle3)
                      (λ r s4 (idle4, v).
                        or_fail_lem env plan all tried
                          (λ (o : ExactTargetLiveness). Idle env plan all tried) r s4 idle4.0
                          (λ a e. idle4)))
                    (λ o s5 idle5.
                      Ensures-if Goal (Ends env plan) (is_empty o.survivors) (pure tt)
                        (return_receipt (fail "cleanup.survivors_after_kill" (keys o.survivors))) s5
                        (λ e. idle5)
                        (λ e.
                          fail-Ends env plan all tried s5 s5.receipt "cleanup.survivors_after_kill"
                            (keys o.survivors) refl refl idle5.0))))

  -- After the three rounds nothing is open, and no stop was seen.
  pub signal_rounds_lem :
      (policy : CleanupPolicy) (survivors : Map ProcessIdentity) (s : Run)
      → Idle env plan all [] s
      → Ensures
          (λ u s'. (tried : List ℕ) × Idle env plan all tried s')
          (Ends env plan)
          (signal_rounds env plan policy survivors s)
  unfolding signal_rounds
  signal_rounds_lem policy survivors s idle =
      Ensures-bind Settled Goal (Ends env plan) _ _ (primary_round_lem policy survivors s idle)
        (λ first s1 idle1.
          Ensures-bind Settled Goal (Ends env plan) _ _
            (member_round_lem policy first.0 first.1 s1 idle1)
            (λ second s2 idle2.
              Ensures-weaken (λ u. Idle env plan all second.1) Goal (Ends env plan) _
                (λ u s' i. (second.1, i)) (kill_round_lem policy second.0 second.1 s2 idle2)))
    where
      Goal : Unit {0} → Run → Type 0
      Goal u s' = (tried : List ℕ) × Idle env plan all tried s'
