-- ===== src/Rules/Revalidate/Complete.antt =====
-- crates/unlinger-rules/src/lib.rs: a table with all the facts that a revalidation needs.
use unlinger.Prelude.{
  or_split, find-some, and_split, ◌==◌, ◌&&◌, ◌≡◌, ◌≢◌, inl, inr, false, not, str_eq, eq_iff, arith,
  Bool-cases, Option-cases, Result-cases, ok, sym, List, In, any, any_none, length, saturating_add,
}
use unlinger.Core.Model.{ProcessRecord, Snapshot, pid_of, has_complete_classification_facts}
use unlinger.Core.Cleanup.Plan.{CleanupPlan}
use unlinger.Rules.Pack.{SignaturePack}
use unlinger.Rules.Matching.{is_browser_root, matches_controller}
use unlinger.Rules.Ownership.{Analyzer}
use unlinger.Core.Evidence.{IncidentReport, ProcessTarget}
use unlinger.Core.Cleanup.Runtime.{RevalidationPhase, RevalidationStatus, blocked}
use unlinger.Rules.Observe.{observe}
use unlinger.Rules.Revalidate.{
  coverage_incomplete, is_relevant, pack_of, phase_answer, revalidate,
  revalidation_facts_incomplete, same_executable,
}

-- A process that has nothing to do with a plan: it shares neither pid, process group nor executable
-- with a target, and is no controller and no browser of the pack.
pub record IsUnrelated (plan : CleanupPlan) (pack : SignaturePack) (p : ProcessRecord)
    : Type 0 where
  pub other_pid : (t : ProcessTarget) → In t plan.targets → t.identity.pid ≢ pid_of p
  pub other_group :
      (t : ProcessTarget)
      → In t plan.targets
      → p.process_group_id ≢ 0
      → t.process_group_id ≢ p.process_group_id
  pub other_executable : (t : ProcessTarget) → In t plan.targets → same_executable p t ≡ false
  pub not_controller : matches_controller p pack ≡ false
  pub not_browser : is_browser_root p pack ≡ false

module _ (a : Analyzer) (snapshot : Snapshot) (plan : CleanupPlan) where
  -- Every listed process was read, the plan's pack is known, and only processes that have nothing to
  -- do with the plan lack facts.
  pub record IsComplete : Type 0 where
    pub all_read : snapshot.coverage.unreadable_processes ≡ 0
    pub all_listed :
        snapshot.coverage.listed_processes
        ≡ saturating_add snapshot.coverage.inspected_processes
            snapshot.coverage.unreadable_processes
    pub all_kept : length snapshot.processes ≡ snapshot.coverage.inspected_processes
    pub pack : SignaturePack
    pub is_pack : In pack a.packs
    pub same_id : pack.id ≡ plan.signature_pack
    pub same_version : pack.version ≡ plan.signature_version
    pub facts :
        (p : ProcessRecord)
        → In p snapshot.processes
        → has_complete_classification_facts p ≡ false
        → IsUnrelated plan pack p

  is_relevant-IsUnrelated :
      (pack : SignaturePack) (p : ProcessRecord)
      → is_relevant plan pack p ≡ false
      → IsUnrelated plan pack p
  unfolding is_relevant
  is_relevant-IsUnrelated pack p e =
      let (e4, browser) = or_split _ (is_browser_root p pack) e in
      let (e3, controller) = or_split _ (matches_controller p pack) e4 in
      let (e2, executable) = or_split _ (any (same_executable p) plan.targets) e3 in
      let (pids, groups) =
        or_split (any (λ t. t.identity.pid == pid_of p) plan.targets)
          (not (p.process_group_id == 0)
            && any (λ t. t.process_group_id == p.process_group_id) plan.targets)
          e2 in
      record {
        other_pid = λ t i same.
            ground (arith, any_none (λ u. u.identity.pid == pid_of p) plan.targets t pids i, same);
        other_group = λ t i grouped same.
            let apart : any (λ u. u.process_group_id == p.process_group_id) plan.targets ≡ false =
              ground (arith, groups, grouped) in
            ground (
              arith,
              any_none (λ u. u.process_group_id == p.process_group_id) plan.targets t apart i,
              same,
            );
        other_executable = λ t i. any_none (same_executable p) plan.targets t executable i;
        not_controller = controller;
        not_browser = browser;
      }

  -- A revalidation goes on only with such a table.
  pub facts-IsComplete : revalidation_facts_incomplete a snapshot plan ≡ false → IsComplete
  unfolding revalidation_facts_incomplete
  facts-IsComplete e = elim (Option-cases (pack_of a plan)) [
    | inl unknown ↦ absurd (ground (arith, rw (unknown, revalidation_facts_incomplete) at e))
    | inr (pack, found) ↦
        let (covered, known) =
          or_split (coverage_incomplete snapshot)
            (any (λ p. not (has_complete_classification_facts p) && is_relevant plan pack p)
              snapshot.processes)
            (rw (found, revalidation_facts_incomplete) at e) in
        let (i, same) =
          find-some
            (λ p. str_eq p.id plan.signature_pack && str_eq p.version plan.signature_version)
            a.packs pack found in
        let (id, version) =
          and_split (str_eq pack.id plan.signature_pack)
            (str_eq pack.version plan.signature_version) same in
        record {
          all_read = ground (arith, covered);
          all_listed = ground (arith, covered);
          all_kept = ground (arith, covered);
          pack = pack;
          is_pack = i;
          same_id = (eq_iff pack.id plan.signature_pack).0 id;
          same_version = (eq_iff pack.version plan.signature_version).0 version;
          facts = λ p j lacking. is_relevant-IsUnrelated pack p (
              ground (
                arith,
                any_none (λ q. not (has_complete_classification_facts q) && is_relevant plan pack q)
                    snapshot.processes p known j,
                lacking,
              ));
        }
  ]

  -- A revalidation that answers other than `blocked` has seen complete facts and the reports.
  pub answered :
      (phase : RevalidationPhase) (status : RevalidationStatus)
      → (revalidate a snapshot plan phase).status ≡ status
      → status ≢ blocked
      → (reports : List IncidentReport) × (observe a snapshot ≡ ok reports)
        × (revalidation_facts_incomplete a snapshot plan ≡ false)
        × ((phase_answer a snapshot plan phase (ok reports)).status ≡ status)
  unfolding revalidate
  answered phase status e other =
      elim (Bool-cases (revalidation_facts_incomplete a snapshot plan)) [
        | inl incomplete ↦ absurd (other (sym (rw incomplete at e)))
        | inr complete ↦ elim (Result-cases (observe a snapshot)) [
          | inr (x, failed) ↦ absurd (other (sym (rw (complete, failed) at e)))
          | inl (reports, seen) ↦ (reports, seen, complete, rw (complete, seen) at e)
        ]
      ]
