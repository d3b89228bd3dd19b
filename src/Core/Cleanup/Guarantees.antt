-- ===== src/Core/Cleanup/Guarantees.antt =====
-- crates/unlinger-core/src/cleanup.rs: `CleanupExecutor::execute` as a whole, in any environment.
use unlinger.Prelude.{
  ℕ, ◌≡◌, refl, sym, ◌∙◌, ap, true, inl, inr, Option, none, some, List, [], ◌∷◌, ◌++◌, String, ok,
  err, any, arith, subst, Bool-cases, In, In-append-split, All,
}
use unlinger.Core.Model.{ProcessIdentity}
use unlinger.Core.State.{cleared, state_eq}
use unlinger.Core.Artifact.{ArtifactDisposition, FrozenRuntimeArtifact}
use unlinger.Core.Cleanup.Receipt.{
  CleanupAction, CleanupActionIntent, CleanupReceipt, CleanupSignal, SignalDisposition, delivered,
  is_delivered, proves_process_reclaim,
}
use unlinger.Core.Cleanup.Plan.{CleanupPlan}
use unlinger.Core.Cleanup.Runtime.{
  CleanupPolicy, Environment, Event, Exit, History, attempt_open, raised, runtime, returned,
  stop_checked, signalled, waited, artifact_removed, action_prepared, action_completed,
  artifact_prepared, interrupted, deadline_reached,
}
use unlinger.Core.Cleanup.Execute.{execute}
use unlinger.Core.Cleanup.History.{
  Allowed, Lawful, action_of, NotSent, RemovalAllowed, Settles, SignalAllowed, completed_actions,
  is_stopped, open_signal, reply_since,
}
use unlinger.Core.Cleanup.Account.{Accounted}
use unlinger.Core.Cleanup.Reconcile.{TreeGone}
use unlinger.Core.Cleanup.Opening.{execute_lem}

-- Events that neither act on the system nor begin an action or a wait.
abbrev pub IsPassive : Event → Type 0
IsPassive (signalled identity sig d) = ⊥
IsPassive (artifact_removed f d) = ⊥
IsPassive (action_prepared i at reply) = ⊥
IsPassive (artifact_prepared i at reply) = ⊥
IsPassive (waited duration reply) = ⊥
IsPassive _ = Unit

is_stopped-cons : (e : Event) (h : History) → is_stopped h ≡ true → is_stopped (e ∷ h) ≡ true
is_stopped-cons (stop_checked stop) h s = ground arith
is_stopped-cons (waited duration (ok interrupted)) h s = refl
is_stopped-cons (waited duration (ok deadline_reached)) h s = s
is_stopped-cons (waited duration (err e)) h s = s
is_stopped-cons _ h s = s

is_stopped-append : (post pre : History) → is_stopped pre ≡ true → is_stopped (post ++ pre) ≡ true
is_stopped-append [] pre s = s
is_stopped-append (e ∷ post) pre s = is_stopped-cons e (post ++ pre) (is_stopped-append post pre s)

module _ (env : Environment) (plan : CleanupPlan) where
  Allowed-IsPassive :
      (e : Event) (h : History) → is_stopped h ≡ true → Allowed env plan e h → IsPassive e
  Allowed-IsPassive (signalled identity sig d) h s a = absurd (ground (arith, a.0.not_stopped))
  Allowed-IsPassive (artifact_removed f d) h s a = absurd (ground (arith, a.0.not_stopped))
  Allowed-IsPassive (action_prepared i at reply) h s a = absurd (ground (arith, a.not_stopped))
  Allowed-IsPassive (artifact_prepared i at reply) h s a = absurd (ground (arith, a.not_stopped))
  Allowed-IsPassive (waited duration reply) h s a = absurd (ground (arith, a.not_stopped))
  Allowed-IsPassive _ h s a = tt

  Lawful-IsPassive :
      (post pre : History)
      → is_stopped pre ≡ true
      → Lawful env plan (post ++ pre)
      → All IsPassive post
  Lawful-IsPassive [] pre s l = tt
  Lawful-IsPassive (e ∷ post) pre s l = (
    Allowed-IsPassive e (post ++ pre) (is_stopped-append post pre s) l.0,
    Lawful-IsPassive post pre s l.1,
  )

  Lawful-Allowed :
      (post pre : History) (e : Event) → Lawful env plan (post ++ e ∷ pre) → Allowed env plan e pre
  Lawful-Allowed [] pre e l = l.0
  Lawful-Allowed (x ∷ post) pre e l = Lawful-Allowed post pre e l.1

  -- A signal of the history, with the pid of its process and the reply.
  pub record SignalledTo (pid : ℕ) (d : SignalDisposition) (h : History) : Type 0 where
    pub identity : ProcessIdentity
    pub sig : CleanupSignal
    pub same_pid : identity.pid ≡ pid
    pub is_in : In (signalled identity sig d) h

  SignalledTo-cons :
      (e : Event) (pid : ℕ) (d : SignalDisposition) (h : History)
      → SignalledTo pid d h
      → SignalledTo pid d (e ∷ h)
  SignalledTo-cons e pid d h s = record {
    identity = s.identity;
    sig = s.sig;
    same_pid = s.same_pid;
    is_in = inr s.is_in;
  }

  -- While an action is open, the reply at hand is that of a signal to its process.
  reply-SignalledTo :
      (h : History) (id : String) (i : CleanupActionIntent) (d : SignalDisposition)
      → Lawful env plan h
      → open_signal h ≡ some (id, i)
      → reply_since h ≡ some d
      → SignalledTo i.pid d h
  reply-SignalledTo [] id i d l o r = absurd (cc)
  reply-SignalledTo (signalled identity sig d' ∷ h) id i d l o r = record {
    identity = identity;
    sig = sig;
    same_pid = ground (arith, l.0.0.same_identity, l.0.0.is_open);
    is_in = inl (ground arith);
  }
  reply-SignalledTo (action_prepared i' at (ok id') ∷ h) id i d l o r = absurd (cc)
  reply-SignalledTo (action_prepared i' at (err e) ∷ h) id i d l o r =
      SignalledTo-cons _ _ _ h (reply-SignalledTo h id i d l.1 o r)
  reply-SignalledTo (action_completed id' d' at (ok u) ∷ h) id i d l o r = absurd (cc)
  reply-SignalledTo (action_completed id' d' at (err e) ∷ h) id i d l o r =
      SignalledTo-cons _ _ _ h (reply-SignalledTo h id i d l.1 o r)
  reply-SignalledTo (e ∷ h) id i d l o r =
      SignalledTo-cons _ _ _ h (reply-SignalledTo h id i d l.1 o r)

  -- The action that a completion adds.
  settled_delivered :
      (h : History) (id : String) (i : CleanupActionIntent) (d : SignalDisposition)
      → Lawful env plan h
      → open_signal h ≡ some (id, i)
      → Settles (reply_since h) d
      → d ≡ delivered
      → SignalledTo i.pid delivered h
  settled_delivered h id i d l o settles e = go (reply_since h) refl settles
    where
      go :
          (r : Option SignalDisposition)
          → reply_since h ≡ r
          → Settles r d
          → SignalledTo i.pid delivered h
      go none eq n = absurd (subst NotSent e n)
      go (some reply) eq same = reply-SignalledTo h id i delivered l o (eq ∙ ap some (sym same ∙ e))

  completed_here :
      (h : History) (id : String) (d : SignalDisposition) (at : ℕ) (u : Unit {0})
      (a : CleanupAction) (l : Lawful env plan (action_completed id d at (ok u) ∷ h))
      → In a (completed_actions h ++ action_of l.0.0 d ∷ [])
      → a.disposition ≡ delivered
      → (In a (completed_actions h) → a.disposition ≡ delivered → SignalledTo a.pid delivered h)
      → SignalledTo a.pid delivered (action_completed id d at (ok u) ∷ h)
  completed_here h id d at u a l i e earlier =
      elim (In-append-split a (completed_actions h) (action_of l.0.0 d ∷ []) i) [
        | inl old ↦ SignalledTo-cons _ _ _ h (earlier old e)
        | inr (inr none_left) ↦ absurd none_left
        | inr (inl new) ↦ SignalledTo-cons _ _ _ h (
            subst (λ (x : CleanupAction). SignalledTo x.pid delivered h) (sym new)
              (settled_delivered h id l.0.0 d l.1 l.0.1 l.0.2
                (sym (ap (λ (x : CleanupAction). x.disposition) new) ∙ e)))
      ]

  -- Every completed action that claims a delivery goes back to a signal with that reply.
  completed-SignalledTo :
      (h : History) (a : CleanupAction)
      → Lawful env plan h
      → In a (completed_actions h)
      → a.disposition ≡ delivered
      → SignalledTo a.pid delivered h
  completed-SignalledTo [] a l i e = absurd i
  completed-SignalledTo (action_completed id d at (ok u) ∷ h) a l i e =
      completed_here h id d at u a l (rw (l.0.1) at i) e (completed-SignalledTo h a l.1)
  completed-SignalledTo (action_completed id d at (err x) ∷ h) a l i e =
      SignalledTo-cons _ _ _ h (completed-SignalledTo h a l.1 i e)
  completed-SignalledTo (_ ∷ h) a l i e =
      SignalledTo-cons _ _ _ h (completed-SignalledTo h a l.1 i e)

  Accounted-Lawful : (x : Exit) (h : History) → Accounted env plan x h → Lawful env plan h
  Accounted-Lawful (returned r) h a = a.0
  Accounted-Lawful (raised (runtime e r)) h a = a.0
  Accounted-Lawful (raised (attempt_open e r id)) h a = a.0

  execute-Lawful : (policy : CleanupPolicy) → Lawful env plan (execute env plan policy).1
  execute-Lawful policy = Accounted-Lawful _ _ (execute_lem env plan policy).0

  -- However a run ends, its receipt holds exactly the actions that the journals completed, in their
  -- order; each carries the reply to its signal or removal, or a disposition that claims no delivery
  -- where none was sent; a run that returns a receipt or stops at a failure of the runtime leaves no
  -- action open, and one that reports an open attempt names the action that is open, the only one.
  pub execute-Accounted :
      (policy : CleanupPolicy)
      → Accounted env plan (execute env plan policy).0 (execute env plan policy).1
  execute-Accounted policy = (execute_lem env plan policy).0

  -- Whenever the executor sends a signal, no stop has been seen; the signal is the first for an action
  -- that is prepared and open for a target of the plan with that very identity; the last snapshot shows
  -- that process with its exact identity, and the revalidator found the plan eligible in it; and a KILL
  -- comes only after a TERM to the same pid that was completed as delivered or too late.
  pub execute-SignalAllowed :
      (policy : CleanupPolicy) (post pre : History) (identity : ProcessIdentity)
      (sig : CleanupSignal) (d : SignalDisposition)
      → (execute env plan policy).1 ≡ post ++ signalled identity sig d ∷ pre
      → SignalAllowed env plan identity sig pre
  execute-SignalAllowed policy post pre identity sig d e =
      (Lawful-Allowed post pre (signalled identity sig d)
        (subst (Lawful env plan) e (execute-Lawful policy))).0

  -- Whenever the executor removes an artifact, no stop has been seen; the removal is the first for an
  -- action that is prepared and open for an artifact of the plan; the file was frozen as it is by this
  -- run; and in the last snapshot the revalidator found the tree gone, and no target's pid is there.
  pub execute-RemovalAllowed :
      (policy : CleanupPolicy) (post pre : History) (f : FrozenRuntimeArtifact)
      (d : ArtifactDisposition)
      → (execute env plan policy).1 ≡ post ++ artifact_removed f d ∷ pre
      → RemovalAllowed env plan f pre
  execute-RemovalAllowed policy post pre f d e =
      (Lawful-Allowed post pre (artifact_removed f d)
        (subst (Lawful env plan) e (execute-Lawful policy))).0

  -- The dispositions of the signals and of the removals are the environment's replies.
  pub execute_replies :
      (policy : CleanupPolicy) (post pre : History) (identity : ProcessIdentity)
      (sig : CleanupSignal) (d : SignalDisposition)
      → (execute env plan policy).1 ≡ post ++ signalled identity sig d ∷ pre
      → d ≡ env.signal_exact pre identity sig
  execute_replies policy post pre identity sig d e =
      (Lawful-Allowed post pre (signalled identity sig d)
        (subst (Lawful env plan) e (execute-Lawful policy))).1

  pub execute_removal_replies :
      (policy : CleanupPolicy) (post pre : History) (f : FrozenRuntimeArtifact)
      (d : ArtifactDisposition)
      → (execute env plan policy).1 ≡ post ++ artifact_removed f d ∷ pre
      → d ≡ env.remove_artifact_exact pre f
  execute_removal_replies policy post pre f d e =
      (Lawful-Allowed post pre (artifact_removed f d)
        (subst (Lawful env plan) e (execute-Lawful policy))).1

  -- Once a stop was answered, or cut a wait short, the executor sends no signal, removes no artifact,
  -- prepares no action and begins no wait.
  pub execute_stops :
      (policy : CleanupPolicy) (post pre : History)
      → (execute env plan policy).1 ≡ post ++ pre
      → is_stopped pre ≡ true
      → All IsPassive post
  execute_stops policy post pre e s =
      Lawful-IsPassive post pre s (subst (Lawful env plan) e (execute-Lawful policy))

  -- A receipt that reports the tree as cleared rests on the last snapshot of the run: the revalidator
  -- found the tree gone in it, and it shows no process under the pid of any target.
  pub execute-TreeGone :
      (policy : CleanupPolicy) (receipt : CleanupReceipt)
      → (execute env plan policy).0 ≡ returned receipt
      → state_eq receipt.state cleared ≡ true
      → TreeGone env plan (execute env plan policy).1
  execute-TreeGone policy = (execute_lem env plan policy).1

  any_delivered :
      (actions : List CleanupAction)
      → any is_delivered actions ≡ true
      → (a : CleanupAction) × In a actions × (a.disposition ≡ delivered)
  any_delivered [] e = absurd (cc)
  any_delivered (a ∷ as_) e = elim (Bool-cases (is_delivered a)) [
    | inl here ↦ (a, inl refl, ground arith)
    | inr there ↦ let (b, i, d) = any_delivered as_ (ground arith) in (b, inr i, d)
  ]

  reclaim_delivered :
      (r : CleanupReceipt) → proves_process_reclaim r ≡ true → any is_delivered r.actions ≡ true
  unfolding proves_process_reclaim
  reclaim_delivered r p = elim (Bool-cases (any is_delivered r.actions)) [
    | inl seen ↦ seen
    | inr unseen ↦ absurd (ground (arith, p))
  ]

  Accounted-SignalledTo :
      (x : Exit) (h : History) (r : CleanupReceipt)
      → Accounted env plan x h
      → x ≡ returned r
      → (a : CleanupAction) → In a r.actions
      → a.disposition ≡ delivered
      → SignalledTo a.pid delivered h
  Accounted-SignalledTo x h r acc e a i d =
      let acc' = subst (λ y. Accounted env plan y h) e acc in
      completed-SignalledTo h a acc'.0 (subst (In a) acc'.3.0 i) d

  -- A receipt that a run returns proves a reclaim only if a signal to the process of one of its
  -- actions was sent in the run and replied that it was delivered.
  pub proves_process_reclaim-SignalledTo :
      (policy : CleanupPolicy) (receipt : CleanupReceipt)
      → (execute env plan policy).0 ≡ returned receipt
      → proves_process_reclaim receipt ≡ true
      → (a : CleanupAction) × In a receipt.actions
        × SignalledTo a.pid delivered (execute env plan policy).1
  proves_process_reclaim-SignalledTo policy receipt e p =
      let (a, i, d) = any_delivered receipt.actions (reclaim_delivered receipt p) in
      (
        a,
        i,
        Accounted-SignalledTo (execute env plan policy).0 (execute env plan policy).1 receipt
            (execute-Accounted policy) e a i d,
      )
