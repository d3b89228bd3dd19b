-- ===== src/Rules/Revalidate/Eligible.antt =====
-- crates/unlinger-rules/src/lib.rs: what the answer `eligible` of a revalidation says of the table it was
-- given for.
use unlinger.Prelude.{
  ◌==◌, ◌≡◌, ◌≢◌, subst, inl, inr, true, false, not, some, List, [], str_eq, eq_iff, arith,
  Bool-cases, ok, In, any, any_none, not-false, first_of, In-keep_pass, In-keep_each, contains,
  contains_key, get, is_empty, is_some,
}
use unlinger.Core.Model.{ProcessRecord, Snapshot, pid_of, has_complete_classification_facts}
use unlinger.Core.State.{cooling}
use unlinger.Core.Evidence.{IncidentReport, ProcessTarget}
use unlinger.Core.Cleanup.Plan.{CleanupPlan}
use unlinger.Core.Cleanup.Runtime.{before_signal, eligible, gone}
use unlinger.Rules.Ownership.{Analyzer}
use unlinger.Rules.Classify.{is_here}
use unlinger.Rules.Classify.Cooling.{IsCooling}
use unlinger.Rules.Observe.{observe}
use unlinger.Rules.Observe.Seen.{IsObserved, observe-IsCooling}
use unlinger.Rules.Observe.Confirmed.{is_cooling}
use unlinger.Rules.Revalidate.{
  current_targets, has_new_member, identities, is_downgraded, is_frozen, is_protected_target,
  matching_reports, overlaps, revalidate, signal_answer,
}
use unlinger.Rules.Revalidate.Frozen.{IsHeld, identities_find, is_frozen-IsHeld, not_frozen_lem}
use unlinger.Rules.Revalidate.Complete.{IsComplete, answered, facts-IsComplete}

module _ (a : Analyzer) (snapshot : Snapshot) (plan : CleanupPlan) where
  -- A process that may be signalled: it runs as the user of the table and not as root, its facts are
  -- complete, and it is neither the analyzer's own process nor an ancestor of it.
  pub record IsUnprotected (p : ProcessRecord) : Type 0 where
    pub own_user : p.uid ≡ snapshot.current_uid
    pub not_root : p.uid ≢ 0
    pub facts : has_complete_classification_facts p ≡ true
    pub not_self : is_here (λ self. self == pid_of p) a.context.self_pid ≡ false
    pub not_ancestor : contains a.context.ancestor_pids (pid_of p) ≡ false

  -- A report of a session that may still be reclaimed: it is cooling, for a candidate that the
  -- classification has let through, with its four gates, and the plan holds each of its targets.
  pub record IsStillCooling (r : IncidentReport) : Type 0 where
    pub is_cooling : r.state ≡ cooling
    pub observation : IsObserved a snapshot r
    pub candidate :
        IsCooling observation.graph observation.candidate a observation.root
          snapshot.observed_at_unix_millis
    pub same_user : r.gates.same_user ≡ true
    pub strong_provenance : r.gates.strong_automation_provenance ≡ true
    pub isolated : r.gates.isolated_session ≡ true
    pub unprotected : r.gates.no_protection_rule ≡ true
    pub known_members : (t : ProcessTarget) → In t r.targets → IsHeld plan t.identity

  -- What the answer `eligible` says.
  pub record IsEligible : Type 0 where
    pub is_complete : IsComplete a snapshot plan
    pub reports : List IncidentReport
    pub observed : observe a snapshot ≡ ok reports
    pub present : (p : ProcessRecord) × In p snapshot.processes × IsHeld plan p.identity
    pub exact :
        (t : ProcessTarget) (p : ProcessRecord)
        → In t plan.targets
        → In p snapshot.processes
        → t.identity.pid ≡ pid_of p
        → IsHeld plan p.identity × IsUnprotected p
    pub other_sessions :
        (r : IncidentReport) (t : ProcessTarget)
        → In r reports
        → r.session_fingerprint ≢ plan.session_fingerprint
        → In t r.targets
        → is_some t.identity.executable_device ≡ true
        → is_some t.identity.executable_inode ≡ true
        → get t.identity.pid (identities plan) ≢ some t.identity
    pub same_session :
        (r : IncidentReport)
        → In r reports
        → r.session_fingerprint ≡ plan.session_fingerprint
        → IsStillCooling r

  -- The tests that `signal_answer` has passed.
  record Passed (reports : List IncidentReport) : Type 0 where
    has_target : is_empty (current_targets plan snapshot) ≡ false
    same : any (λ p. not (is_frozen plan p.identity)) (current_targets plan snapshot) ≡ false
    unprotected : any (is_protected_target a snapshot) (current_targets plan snapshot) ≡ false
    apart : any (overlaps plan) reports ≡ false
    confident : any is_downgraded (matching_reports plan reports) ≡ false
    no_new : any (has_new_member plan) (matching_reports plan reports) ≡ false

  signal_answer-Passed :
      (reports : List IncidentReport)
      → (signal_answer a snapshot plan reports).status ≡ eligible
      → Passed reports
  unfolding signal_answer
  signal_answer-Passed reports e = elim (Bool-cases (is_empty (current_targets plan snapshot))) [
    | inl none_left ↦ absurd (wrong (rw none_left at e))
    | inr present ↦
        elim (Bool-cases
          (any (λ p. not (is_frozen plan p.identity)) (current_targets plan snapshot))) [
            | inl changed ↦ absurd (ground (arith, e, present, changed))
            | inr same ↦
                elim (Bool-cases
                  (any (is_protected_target a snapshot) (current_targets plan snapshot))) [
                    | inl guarded ↦ absurd (ground (arith, e, present, same, guarded))
                    | inr unprotected ↦ elim (Bool-cases (any (overlaps plan) reports)) [
                      | inl overlap ↦
                          absurd (ground (arith, e, present, same, unprotected, overlap))
                      | inr apart ↦
                          elim (Bool-cases (any is_downgraded (matching_reports plan reports))) [
                            | inl down ↦
                                absurd (ground (arith, e, present, same, unprotected, apart, down))
                            | inr confident ↦
                                elim (Bool-cases
                                  (any (has_new_member plan) (matching_reports plan reports))) [
                                    | inl grown ↦ absurd (
                                        ground (
                                          arith, e, present, same, unprotected, apart, confident,
                                          grown,
                                        ))
                                    | inr no_new ↦ record {
                                      has_target = present;
                                      same = same;
                                      unprotected = unprotected;
                                      apart = apart;
                                      confident = confident;
                                      no_new = no_new;
                                    }
                                  ]
                          ]
                    ]
                  ]
          ]
  ]
    where
      wrong : gone ≡ eligible → ⊥
      wrong e' = cc

  unprotected_lem : (p : ProcessRecord) → is_protected_target a snapshot p ≡ false → IsUnprotected p
  unfolding is_protected_target
  unprotected_lem p e = record {
    own_user = ground (arith, e);
    not_root = λ z. ground (arith, e, z);
    facts = ground (arith, e);
    not_self = ground (arith, e);
    not_ancestor = ground (arith, e);
  }

  module _ (reports : List IncidentReport) (passed : Passed reports) where
    found_In :
        (p : ProcessRecord)
        → In p (current_targets plan snapshot)
        → IsHeld plan p.identity × IsUnprotected p
    found_In p i = (
      is_frozen-IsHeld plan p.identity (
          not-false (is_frozen plan p.identity) (
            any_none (λ q. not (is_frozen plan q.identity)) (current_targets plan snapshot) p
              passed.same i)),
      unprotected_lem p (
          any_none (is_protected_target a snapshot) (current_targets plan snapshot) p
            passed.unprotected i),
    )

    exact_each :
        (t : ProcessTarget) (p : ProcessRecord)
        → In t plan.targets
        → In p snapshot.processes
        → t.identity.pid ≡ pid_of p
        → IsHeld plan p.identity × IsUnprotected p
    unfolding current_targets
    exact_each t p i j same = found_In p (
        In-keep_pass (λ q. contains_key (pid_of q) (identities plan)) snapshot.processes p j
          (subst (λ k. contains_key k (identities plan) ≡ true) same
            (identities_find [] plan.targets t i)))

    present_lem : (p : ProcessRecord) × In p snapshot.processes × IsHeld plan p.identity
    unfolding current_targets
    present_lem =
        let (p, i) = first_of (current_targets plan snapshot) passed.has_target in
        let (j, k) =
          In-keep_each (λ q. contains_key (pid_of q) (identities plan)) snapshot.processes p i in
        (p, j, (found_In p i).0)

    other_each :
        (r : IncidentReport) (t : ProcessTarget)
        → In r reports
        → r.session_fingerprint ≢ plan.session_fingerprint
        → In t r.targets
        → is_frozen plan t.identity ≡ false
    unfolding overlaps
    other_each r t i other j =
        let apart = any_none (overlaps plan) reports r passed.apart i in
        elim (Bool-cases (str_eq r.session_fingerprint plan.session_fingerprint)) [
          | inl same ↦
              absurd (other ((eq_iff r.session_fingerprint plan.session_fingerprint).0 same))
          | inr different ↦
              any_none (λ u. is_frozen plan u.identity) r.targets t
                (ground (arith, apart, different)) j
        ]

    still_each :
        (r : IncidentReport)
        → observe a snapshot ≡ ok reports
        → In r reports
        → r.session_fingerprint ≡ plan.session_fingerprint
        → IsStillCooling r
    unfolding matching_reports is_downgraded has_new_member
    still_each r seen i same =
        let j =
          In-keep_pass (λ q. str_eq q.session_fingerprint plan.session_fingerprint) reports r i
            ((eq_iff r.session_fingerprint plan.session_fingerprint).1 same) in
        let confident =
          any_none is_downgraded (matching_reports plan reports) r passed.confident j in
        let known =
          any_none (has_new_member plan) (matching_reports plan reports) r passed.no_new j in
        let cold : r.state ≡ cooling = is_cooling r.state (ground (arith, confident)) in
        let (o, c) = observe-IsCooling a snapshot reports r seen i cold in
        record {
          is_cooling = cold;
          observation = o;
          candidate = c;
          same_user = ground (arith, confident);
          strong_provenance = ground (arith, confident);
          isolated = ground (arith, confident);
          unprotected = ground (arith, confident);
          known_members = λ t k. is_frozen-IsHeld plan t.identity (
              not-false (is_frozen plan t.identity)
                (any_none (λ u. not (is_frozen plan u.identity)) r.targets t known k));
        }

  -- Where a revalidation before a signal answers `eligible`:
  --   every listed process was read, and only processes unrelated to the plan lack facts;
  --   a target of the plan is there, under its very identity;
  --   every process under a target's pid has an identity of the plan, runs as the user and not as
  --   root, has its facts, and is neither the program nor an ancestor of it;
  --   the plan does not keep the identity of any target of another session's report, where that
  --   identity names its executable;
  --   every report of the plan's own session, if there is one, is cooling, for a candidate that the
  --   classification has let through, with its gates and with no target that the plan does not hold.
  pub revalidate-IsEligible :
      (revalidate a snapshot plan before_signal).status ≡ eligible → IsEligible
  revalidate-IsEligible e =
      let (reports, seen, complete, answer) =
        answered a snapshot plan before_signal eligible e (λ f. cc) in
      let passed = signal_answer-Passed reports answer in
      record {
        is_complete = facts-IsComplete a snapshot plan complete;
        reports = reports;
        observed = seen;
        present = present_lem reports passed;
        exact = λ t p i j same. exact_each reports passed t p i j same;
        other_sessions = λ r t i other j device inode.
            not_frozen_lem plan t.identity (other_each reports passed r t i other j) device inode;
        same_session = λ r i same. still_each reports passed r seen i same;
      }
