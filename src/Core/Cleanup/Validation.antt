-- ===== src/Core/Cleanup/Validation.antt =====
-- crates/unlinger-core/src/cleanup.rs: the observation of the targets and the validation of a stage,
-- followed with the account of the run.
use unlinger.Prelude.{
  ℕ, ◌≡◌, refl, ◌⊎◌, inl, inr, Bool, Bool-cases, true, false, Option, Option-cases, none, some,
  List, [], ◌∷◌, ◌++◌, String, Result, Result-cases, ok, err, arith, In, Map, insert, get,
  get-insert, contains_key, is_empty,
}
use unlinger.Prelude.{◌>>=◌ as and_then}
use unlinger.Core.Model.{ProcessIdentity, ProcessRecord, Snapshot, exact_match}
use unlinger.Core.Evidence.{ProcessTarget}
use unlinger.Core.Cleanup.Plan.{CleanupPlan}
use unlinger.Core.Cleanup.Runtime.{
  Environment, Exit, Exec, Flow, next, exit, pure, Reply, Run, looked_up, logged, eligible,
  before_signal,
}
use unlinger.Core.Cleanup.Liveness.{
  ExactTargetLiveness, add_survivor, index_by_pid, observe_target, observe_targets,
  observe_exact_target_liveness, validate_stage, judge_stage,
}
use unlinger.Core.Cleanup.History.{Validated}
use unlinger.Core.Cleanup.Logic.{Ensures, Ensures-bind}

module _ (index : Map ProcessRecord) where
  -- A survivor is in the snapshot, or the snapshot is known to have missed a target.
  abbrev pub KeysSeen : ExactTargetLiveness → Type 0
  KeysSeen acc =
      (k : ℕ)
      → contains_key k acc.survivors ≡ true
      → (contains_key k index ≡ true) ⊎ (is_empty acc.missing_live_targets ≡ false)

  -- What an observed target is known to be.
  pub record Seen (t : ProcessTarget) (survivors : Map ProcessIdentity) : Type 0 where
    pub exact :
        (p : ProcessRecord)
        → get t.identity.pid index ≡ some p
        → exact_match t.identity p.identity ≡ true
    pub absent : is_empty survivors ≡ true → get t.identity.pid index ≡ none

  abbrev pub Observed :
      List ProcessTarget → ExactTargetLiveness → Result String ExactTargetLiveness → Type 0
  Observed ts acc (err reason) = Unit
  Observed ts acc (ok acc') =
      KeysSeen acc'
      × ((t : ProcessTarget) → In t ts → Seen t acc'.survivors)
      × (is_empty acc.survivors ≡ false → is_empty acc'.survivors ≡ false)

  is_empty-insert : {V : Type 0} (k : ℕ) (v : V) (m : Map V) → is_empty (insert k v m) ≡ false
  unfolding insert
  is_empty-insert k v [] = refl
  is_empty-insert k v ((j, w) ∷ m) = ground arith

  KeysSeen-empty : KeysSeen (record { survivors = []; missing_live_targets = [] })
  unfolding get
  KeysSeen-empty k c = absurd (ground arith)

  is_empty-append : (xs : List ℕ) (n : ℕ) → is_empty (xs ++ n ∷ []) ≡ false
  is_empty-append [] n = refl
  is_empty-append (x ∷ xs) n = refl

  add_survivor-KeysSeen :
      (t : ProcessTarget) (acc : ExactTargetLiveness) (p : ProcessRecord) (missing : Bool)
      → (missing ≡ true) ⊎ (get t.identity.pid index ≡ some p)
      → KeysSeen acc
      → KeysSeen (add_survivor t p missing acc)
  add_survivor-KeysSeen t acc p true found seen k c =
      inr (is_empty-append acc.missing_live_targets t.identity.pid)
  add_survivor-KeysSeen t acc p false found seen k c =
      ground (arith, seen k, get-insert t.identity.pid k p.identity acc.survivors)

  -- The target at the head, and those behind it.
  Seen-cons :
      (t : ProcessTarget) (ts : List ProcessTarget) (survivors : Map ProcessIdentity)
      → Seen t survivors
      → ((u : ProcessTarget) → In u ts → Seen u survivors)
      → (u : ProcessTarget) → In u (t ∷ ts)
      → Seen u survivors
  Seen-cons t ts survivors h hs u (inl e) = rw e h
  Seen-cons t ts survivors h hs u (inr i) = hs u i

  -- A result for the rest, begun with more survivors, is one for the whole.
  Observed-cons :
      (t : ProcessTarget) (ts : List ProcessTarget) (acc acc' : ExactTargetLiveness)
      (r : Result String ExactTargetLiveness)
      → (is_empty acc.survivors ≡ false → is_empty acc'.survivors ≡ false)
      → ((final : Map ProcessIdentity)
          → (is_empty acc'.survivors ≡ false → is_empty final ≡ false)
          → Seen t final)
      → Observed ts acc' r
      → Observed (t ∷ ts) acc r
  Observed-cons t ts acc acc' (err reason) grow h o = tt
  Observed-cons t ts acc acc' (ok final) grow h (keys, seen, kept) =
      (keys, Seen-cons t ts final.survivors (h final.survivors kept) seen, λ e. kept (grow e))

  Seen-absent :
      (t : ProcessTarget) (m : Map ProcessIdentity) → get t.identity.pid index ≡ none → Seen t m
  Seen-absent t m e = record { exact = λ p f. absurd (ground arith); absent = λ _. e }

  Seen-present :
      (t : ProcessTarget) (p : ProcessRecord) (m : Map ProcessIdentity)
      → get t.identity.pid index ≡ some p
      → exact_match t.identity p.identity ≡ true
      → is_empty m ≡ false
      → Seen t m
  Seen-present t p m e x n = record { exact = λ q f. ground arith; absent = λ f. absurd (cc) }

module _ (env : Environment) (P : Run → Type 0)
    (looks : (s : Run) (pid : ℕ) (r : Reply (Option ProcessRecord))
      → P s
      → P (logged s (looked_up pid r)))
    (X : Exit → Run → Type 0) (index : Map ProcessRecord) where
  abbrev After :
      List ProcessTarget → ExactTargetLiveness → Result String ExactTargetLiveness → Run → Type 0
  After ts acc r s = P s × Observed index ts acc r

  After-cons :
      (t : ProcessTarget) (ts : List ProcessTarget) (acc acc' : ExactTargetLiveness)
      → (is_empty acc.survivors ≡ false → is_empty acc'.survivors ≡ false)
      → ((final : Map ProcessIdentity)
          → (is_empty acc'.survivors ≡ false → is_empty final ≡ false)
          → Seen index t final)
      → (r : Flow (Result String ExactTargetLiveness) × Run) → Ensures (After ts acc') X r
      → Ensures (After (t ∷ ts) acc) X r
  After-cons t ts acc acc' grow h (next r, s) (p, o) =
      (p, Observed-cons index t ts acc acc' r grow h o)
  After-cons t ts acc acc' grow h (exit x, s) e = e

  abbrev step :
      List ProcessTarget
      → Result String ExactTargetLiveness
      → Exec (Result String ExactTargetLiveness)
  step ts found = elim found [
    | err reason ↦ pure (err reason)
    | ok acc' ↦ observe_targets env index acc' ts
  ]

  -- A target that the snapshot shows.
  present_lem :
      (t : ProcessTarget) (ts : List ProcessTarget) (acc : ExactTargetLiveness) (s : Run)
      (q : ProcessRecord)
      → get t.identity.pid index ≡ some q
      → KeysSeen index acc
      → P s
      → (KeysSeen index (add_survivor t q false acc)
          → P s
          → Ensures
              (After ts (add_survivor t q false acc))
              X
              (observe_targets env index (add_survivor t q false acc) ts s))
      → Ensures (After (t ∷ ts) acc) X (step ts (observe_target t acc (some q, false)) s)
  present_lem t ts acc s q found seen p rest =
      elim (Bool-cases (exact_match t.identity q.identity)) [
        | inr differs ↦ rw differs (p, tt)
        | inl exact ↦ rw exact (
            After-cons t ts acc (add_survivor t q false acc)
              (λ e. is_empty-insert index t.identity.pid q.identity acc.survivors)
              (λ final kept.
                Seen-present index t q final found exact
                  (kept (is_empty-insert index t.identity.pid q.identity acc.survivors)))
              _ (rest (add_survivor-KeysSeen index t acc q false (inr found) seen) p))
      ]

  -- A target that the snapshot omits, after its lookup.
  missed_lem :
      (t : ProcessTarget) (ts : List ProcessTarget) (acc : ExactTargetLiveness) (s : Run)
      → get t.identity.pid index ≡ none
      → KeysSeen index acc
      → P s
      → (o : Option ProcessRecord)
      → ((acc' : ExactTargetLiveness)
          → KeysSeen index acc'
          → P s
          → Ensures (After ts acc') X (observe_targets env index acc' ts s))
      → Ensures (After (t ∷ ts) acc) X (step ts (observe_target t acc (o, true)) s)
  missed_lem t ts acc s missed seen p none rest =
      After-cons t ts acc acc (λ e. e) (λ final kept. Seen-absent index t final missed) _
        (rest acc seen p)
  missed_lem t ts acc s missed seen p (some q) rest =
      elim (Bool-cases (exact_match t.identity q.identity)) [
        | inr differs ↦ rw differs (p, tt)
        | inl exact ↦ rw exact (
            After-cons t ts acc (add_survivor t q true acc)
              (λ e. is_empty-insert index t.identity.pid q.identity acc.survivors)
              (λ final kept. Seen-absent index t final missed) _
              (rest (add_survivor t q true acc)
                (add_survivor-KeysSeen index t acc q true (inl refl) seen) p))
      ]

  observe_targets_lem :
      (ts : List ProcessTarget) (acc : ExactTargetLiveness) (s : Run)
      → KeysSeen index acc
      → P s
      → Ensures (After ts acc) X (observe_targets env index acc ts s)
  unfolding observe_targets
  observe_targets_lem [] acc s seen p = (p, (seen, (λ t h. absurd h), (λ e. e)))
  observe_targets_lem (t ∷ ts) acc s seen p = elim (Option-cases (get t.identity.pid index)) [
    | inl missed ↦
        rw (missed, observe_targets)
          (elim (Result-cases (env.lookup_process s.history t.identity.pid)) [
            | inr (e, failed) ↦ rw failed (looks s _ _ p, tt)
            | inl (o, replied) ↦ rw replied (
                missed_lem t ts acc (logged s (looked_up t.identity.pid (ok o))) missed seen
                  (looks s _ _ p) o
                  (λ acc'.
                    observe_targets_lem ts acc' (logged s (looked_up t.identity.pid (ok o)))))
          ])
    | inr (q, found) ↦
        rw (found, observe_targets)
          (present_lem t ts acc s q found seen p
            (observe_targets_lem ts (add_survivor t q false acc) s))
  ]

-- What the observation of a snapshot proves of a plan's targets.
abbrev pub ObservedIn : Snapshot → CleanupPlan → Result String ExactTargetLiveness → Type 0
ObservedIn snapshot plan (err reason) = Unit
ObservedIn snapshot plan (ok o) =
    KeysSeen (index_by_pid [] snapshot.processes) o
    × ((t : ProcessTarget)
        → In t plan.targets
        → Seen (index_by_pid [] snapshot.processes) t o.survivors)

module _ (env : Environment) (plan : CleanupPlan) where
  -- What a validated set of survivors proves: each surviving target is in the snapshot, exactly, and
  -- the revalidator found the plan eligible there; without survivors no target is in the snapshot.
  abbrev pub ValidatedIn : Snapshot → Result String (Map ProcessIdentity) → Type 0
  ValidatedIn snapshot (err reason) = Unit
  ValidatedIn snapshot (ok survivors) =
      (t : ProcessTarget)
      → In t plan.targets
      → (contains_key t.identity.pid survivors ≡ true
          → Validated env plan t.identity (some snapshot))
        × (is_empty survivors ≡ true
            → get t.identity.pid (index_by_pid [] snapshot.processes) ≡ none)

  present_of_key :
      (index : Map ProcessRecord) (k : ℕ)
      → contains_key k index ≡ true
      → (p : ProcessRecord) × (get k index ≡ some p)
  present_of_key index k h = ground arith

  key_of_empty : {V : Type 0} (k : ℕ) (m : Map V) → contains_key k m ≡ true → is_empty m ≡ false
  unfolding get
  key_of_empty k [] h = cc
  key_of_empty k (e ∷ m) h = refl

  judge_stage_lem :
      (snapshot : Snapshot) (o : ExactTargetLiveness) (survivors : Map ProcessIdentity)
      → judge_stage (env.revalidate snapshot plan before_signal) o ≡ ok survivors
      → (survivors ≡ o.survivors)
        × (is_empty survivors ≡ false
            → (is_empty o.missing_live_targets ≡ true)
              × ((env.revalidate snapshot plan before_signal).status ≡ eligible))
  judge_stage_lem snapshot o survivors e = ground arith

  judged :
      (snapshot : Snapshot) (o : Result String ExactTargetLiveness)
      → ObservedIn snapshot plan o
      → ValidatedIn snapshot (and_then o (judge_stage (env.revalidate snapshot plan before_signal)))
  judged snapshot (err reason) h = tt
  judged snapshot (ok o) (keys, seen) =
      go (judge_stage (env.revalidate snapshot plan before_signal) o) (judge_stage_lem snapshot o)
    where
      go :
          (r : Result String (Map ProcessIdentity))
          → ((survivors : Map ProcessIdentity)
              → r ≡ ok survivors
              → (survivors ≡ o.survivors)
                × (is_empty survivors ≡ false
                    → (is_empty o.missing_live_targets ≡ true)
                      × ((env.revalidate snapshot plan before_signal).status ≡ eligible)))
          → ValidatedIn snapshot r
      go (err reason) f = tt
      go (ok survivors) f = λ t i. (
        (λ c.
            let same = (f survivors refl).0 in
            let c' : contains_key t.identity.pid o.survivors ≡ true = rw (← same) c in
            let (complete, fit) = (f survivors refl).1 (key_of_empty t.identity.pid survivors c) in
            let present : contains_key t.identity.pid (index_by_pid [] snapshot.processes) ≡ true =
              ground (arith, keys t.identity.pid c') in
            let (p, at) = present_of_key _ t.identity.pid present in
            record {
              snapshot = snapshot;
              process = p;
              is_last = refl;
              is_eligible = fit;
              is_present = at;
              is_exact = (seen t i).exact p at;
            }),
        (λ e. (seen t i).absent (rw (← (f survivors refl).0) e)),
      )

  module _ (P : Run → Type 0)
      (looks : (s : Run) (pid : ℕ) (r : Reply (Option ProcessRecord))
        → P s
        → P (logged s (looked_up pid r)))
      (X : Exit → Run → Type 0) (snapshot : Snapshot) (s : Run) (p : P s) where
    forget_kept :
        (r : Flow (Result String ExactTargetLiveness) × Run)
        → Ensures
            (λ o s'.
              P s'
              × Observed
                  (index_by_pid [] snapshot.processes)
                  plan.targets
                  (record { survivors = []; missing_live_targets = [] })
                  o)
            X
            r
        → Ensures (λ o s'. P s' × ObservedIn snapshot plan o) X r
    forget_kept (next (err reason), s') (q, o) = (q, tt)
    forget_kept (next (ok o), s') (q, (keys, seen, kept)) = (q, (keys, seen))
    forget_kept (exit x, s') h = h

    pub observe_lem :
        Ensures
          (λ o s'. P s' × ObservedIn snapshot plan o)
          X
          (observe_exact_target_liveness env snapshot plan s)
    unfolding observe_exact_target_liveness
    observe_lem = forget_kept _ (
        observe_targets_lem env P looks X (index_by_pid [] snapshot.processes) plan.targets _ s
          (KeysSeen-empty (index_by_pid [] snapshot.processes)) p)

    pub validate_stage_lem :
        Ensures (λ r s'. P s' × ValidatedIn snapshot r) X (validate_stage env snapshot plan s)
    unfolding validate_stage
    validate_stage_lem =
        Ensures-bind _ (λ r s'. P s' × ValidatedIn snapshot r) X
          (λ o. pure (and_then o (judge_stage (env.revalidate snapshot plan before_signal))))
          (observe_exact_target_liveness env snapshot plan s) observe_lem
          (λ o s' (q, h). (q, judged snapshot o h))
