-- ===== src/Daemon/Engine/Dispatch.antt =====
-- crates/unlinger-daemon/src/engine.rs: the incident behind a plan that a cycle starts, and the owner's protection.
use unlinger.Prelude.{
  ℕ, ◌≡◌, ◌⊎◌, refl, sym, ap, ◌∙◌, subst, inl, inr, Bool, true, false, ◌&&◌, ◌||◌, not, Option,
  none, some, List, [], ◌∷◌, ◌++◌, any, str_eq, if◌then◌else◌, Result, ok, err, In, arith,
  Bool-cases,
}
use unlinger.Core.State.{IncidentState, confirmed, state_eq}
use unlinger.Core.Evidence.{EvidenceItem, IncidentReport, cleanup_eligible, protection}
use unlinger.Core.Cleanup.Plan.{CleanupPlan, CleanupPlanError, from_confirmed}
use unlinger.Rules.Ownership.{Analyzer}
use unlinger.Rules.Evidence.{evidence_le, insert_evidence, item, sorted_evidence}
use unlinger.Daemon.Cooling.{CoolingStep, table_of}
use unlinger.Daemon.Engine.{
  CycleObservation, CycleSamples, DispatchAnswers, EngineError, apply_owner_protection,
  dispatch_plan, is_confirmed, next_plan, observe_incidents, protect_incidents, start_plan,
}
use unlinger.Daemon.Engine.Cycle.{IsSettled, observe_incidents-IsSettled}

-- The report that a plan was made of, and the answers it was started on.
pub record IsDispatched (d : DispatchAnswers) (reports : List IncidentReport) (p : CleanupPlan)
    : Type 0 where
  pub report : IncidentReport
  pub is_report : In report reports
  pub is_confirmed : is_confirmed report ≡ true
  pub is_plan : from_confirmed report ≡ ok p
  pub not_stopped : d.should_stop report ≡ false
  pub not_blocked : d.is_blocked report ≡ false
  pub is_armed : d.is_armed report ≡ true

later_IsDispatched :
    (d : DispatchAnswers) (r : IncidentReport) (rs : List IncidentReport) (p : CleanupPlan)
    → IsDispatched d rs p
    → IsDispatched d (r ∷ rs) p
later_IsDispatched d r rs p i = record {
  report = i.report;
  is_report = inr i.is_report;
  is_confirmed = i.is_confirmed;
  is_plan = i.is_plan;
  not_stopped = i.not_stopped;
  not_blocked = i.not_blocked;
  is_armed = i.is_armed;
}

start_plan-split :
    (armed : Bool) (made : Result CleanupPlanError CleanupPlan) (p : CleanupPlan)
    → start_plan armed made ≡ ok (some p)
    → (armed ≡ true) × (made ≡ ok p)
start_plan-split armed (err e) p h = absurd (cc)
start_plan-split true (ok q) p h = (refl, cc (h))
start_plan-split false (ok q) p h = absurd (cc)

-- The branches of the loop that can end in a plan.
branch_cases :
    (found stops blocked : Bool) (rest made : Result EngineError (Option CleanupPlan))
    (p : CleanupPlan)
    → (if not found then rest else if stops then ok none else if blocked then rest else made)
      ≡ ok (some p)
    → (rest ≡ ok (some p))
      ⊎ ((found ≡ true) × (stops ≡ false) × (blocked ≡ false) × (made ≡ ok (some p)))
branch_cases false stops blocked rest made p e = inl e
branch_cases true true blocked rest made p e = absurd (cc)
branch_cases true false true rest made p e = inl e
branch_cases true false false rest made p e = inr (refl, refl, refl, e)

next_plan-IsDispatched :
    (d : DispatchAnswers) (rs : List IncidentReport) (p : CleanupPlan)
    → next_plan d rs ≡ ok (some p)
    → IsDispatched d rs p
unfolding next_plan
next_plan-IsDispatched d [] p e = absurd (cc)
next_plan-IsDispatched d (r ∷ rs) p e =
    elim (branch_cases (is_confirmed r) (d.should_stop r) (d.is_blocked r) (next_plan d rs)
      (start_plan (d.is_armed r) (from_confirmed r)) p e) [
        | inl later ↦ later_IsDispatched d r rs p (next_plan-IsDispatched d rs p later)
        | inr (is, going, free, started) ↦
            let (armed, made) = start_plan-split (d.is_armed r) (from_confirmed r) p started in
            record {
              report = r;
              is_report = inl refl;
              is_confirmed = is;
              is_plan = made;
              not_stopped = going;
              not_blocked = free;
              is_armed = armed;
            }
      ]

-- A confirmed report is one that the owner has not protected.
In-protect_incidents :
    (is_protected : IncidentReport → Bool) (rs : List IncidentReport) (r : IncidentReport)
    → In r (protect_incidents is_protected rs)
    → is_confirmed r ≡ true
    → In r rs × (is_protected r ≡ false)
unfolding protect_incidents apply_owner_protection
In-protect_incidents is_protected [] r i c = absurd i
In-protect_incidents is_protected (x ∷ xs) r i c = elim i [
  | inr later ↦ let (j, free) = In-protect_incidents is_protected xs r later c in (inr j, free)
  | inl same ↦ elim (Bool-cases (is_protected x)) [
    | inl owned ↦
        let e : r ≡ apply_owner_protection x = rw owned at same in
        absurd (cc (sym c ∙ ap is_confirmed e))
    | inr free ↦
        let e : r ≡ x = rw free at same in (inl e, subst (λ y. is_protected y ≡ false) (sym e) free)
  ]
]

open_facts :
    (authorized paused stopped busy : Bool)
    → (authorized && not paused && not stopped && not busy) ≡ true
    → (authorized ≡ true) × (paused ≡ false) × (busy ≡ false)
open_facts true false false false e = (refl, refl, refl)
open_facts true false false true e = absurd (cc)
open_facts true false true busy e = absurd (cc)
open_facts true true stopped busy e = absurd (cc)
open_facts false paused stopped busy e = absurd (cc)

confirmed_state : (s : IncidentState) → state_eq s confirmed ≡ true → s ≡ confirmed
confirmed_state s e = ground (arith, e)

module _ (a : Analyzer) (grace gap : ℕ) (s : CycleSamples) (h : List CoolingStep) where
  -- What a cycle has made sure of before it starts a plan.
  pub record IsWarranted (d : DispatchAnswers) (is_protected : IncidentReport → Bool)
      (p : CleanupPlan) : Type 0 where
    pub report : IncidentReport
    pub is_plan : from_confirmed report ≡ ok p
    pub is_settled : IsSettled a grace gap s h report
    pub not_protected : is_protected report ≡ false
    pub not_blocked : d.is_blocked report ≡ false
    pub not_stopped : d.should_stop report ≡ false
    pub is_armed : d.is_armed report ≡ true
    pub is_authorized : d.is_authorized ≡ true
    pub not_paused : d.is_paused ≡ false
    pub not_busy : d.is_busy ≡ false

  -- A cycle starts a plan only while cleanup is authorized and not paused and no other cleanup runs, and
  -- only for an incident that it has confirmed by two observations and by a lease, which the owner has
  -- not protected, which is not blocked, for which no stop is asked, and whose attempt is armed; the
  -- plan is the one that this incident freezes to.
  pub dispatch_plan-IsWarranted :
      (o : CycleObservation) (d : DispatchAnswers) (stops_now : Bool)
      (is_protected : IncidentReport → Bool) (p : CleanupPlan)
      → observe_incidents a grace gap s (table_of gap h) ≡ ok o
      → dispatch_plan d stops_now (protect_incidents is_protected o.incidents) ≡ ok (some p)
      → IsWarranted d is_protected p
  unfolding dispatch_plan
  dispatch_plan-IsWarranted o d stops_now is_protected p observed e =
      let rs = protect_incidents is_protected o.incidents in
      elim (Bool-cases (d.is_authorized && not d.is_paused && not stops_now && not d.is_busy)) [
        | inr refused ↦ absurd (cc (rw (refused, dispatch_plan) at e))
        | inl open_ ↦
            let (authorized, running, free) =
              open_facts d.is_authorized d.is_paused stops_now d.is_busy open_ in
            let i = next_plan-IsDispatched d rs p (rw (open_, dispatch_plan) at e) in
            let (j, unprotected) =
              In-protect_incidents is_protected o.incidents i.report i.is_report i.is_confirmed in
            record {
              report = i.report;
              is_plan = i.is_plan;
              is_settled =
                  observe_incidents-IsSettled a grace gap s h o i.report observed j
                    (confirmed_state i.report.state i.is_confirmed);
              not_protected = unprotected;
              not_blocked = i.not_blocked;
              not_stopped = i.not_stopped;
              is_armed = i.is_armed;
              is_authorized = authorized;
              not_paused = running;
              not_busy = free;
            }
      ]

or_swap : (a b c : Bool) → (a || (b || c)) ≡ (b || (a || c))
or_swap true true c = refl
or_swap true false c = refl
or_swap false b c = refl

or_true : (a : Bool) → (a || true) ≡ true
or_true true = refl
or_true false = refl

last_false : (a : Bool) → (a && false) ≡ false
last_false true = refl
last_false false = refl

abbrev named : EvidenceItem → Bool
named e = str_eq e.id "protection.owner_exact_incident"

any-insert_evidence :
    (e : EvidenceItem) (es : List EvidenceItem)
    → any named (insert_evidence e es) ≡ (named e || any named es)
unfolding insert_evidence
any-insert_evidence e [] = refl
any-insert_evidence e (x ∷ xs) = elim (Bool-cases (evidence_le e x)) [
  | inl before ↦ rw before refl
  | inr after ↦ rw after (
      ap (λ b. named x || b) (any-insert_evidence e xs)
      ∙ or_swap (named x) (named e) (any named xs))
]

any-sorted_evidence : (es : List EvidenceItem) → any named (sorted_evidence es) ≡ any named es
unfolding sorted_evidence
any-sorted_evidence [] = refl
any-sorted_evidence (e ∷ es) =
    any-insert_evidence e (sorted_evidence es) ∙ ap (λ b. named e || b) (any-sorted_evidence es)

any_last :
    (es : List EvidenceItem) (e : EvidenceItem) → named e ≡ true → any named (es ++ e ∷ []) ≡ true
any_last [] e h = rw h refl
any_last (x ∷ xs) e h = rw (any_last xs e h) (or_true (named x))

-- Protecting an incident for its owner makes it protected and ineligible, records why, and done twice is
-- the same as done once.
pub apply_owner_protection_idempotent :
    (r : IncidentReport)
    → ((apply_owner_protection r).state ≡ IncidentState.protected)
      × (cleanup_eligible (apply_owner_protection r).gates ≡ false)
      × (any
            (λ e. str_eq e.id "protection.owner_exact_incident")
            (apply_owner_protection r).evidence
          ≡ true)
      × (apply_owner_protection (apply_owner_protection r) ≡ apply_owner_protection r)
unfolding apply_owner_protection cleanup_eligible
apply_owner_protection_idempotent r =
    let new = item "protection.owner_exact_incident" protection (some r.root.pid) in
    elim (Bool-cases (any named r.evidence)) [
      | inl known ↦ (refl, last_false _, rw known known, rw (known, known) refl)
      | inr unknown ↦
          let recorded : any named (sorted_evidence (r.evidence ++ new ∷ [])) ≡ true =
            any-sorted_evidence (r.evidence ++ new ∷ []) ∙ any_last r.evidence new refl in
          (refl, last_false _, rw unknown recorded, rw (unknown, recorded) refl)
    ]
