-- ===== src/Daemon/Terminal/FailClose.antt =====
-- crates/unlinger-daemon/src/engine.rs: after which receipts the daemon goes on.
use unlinger.Prelude.{
  ◌≡◌, ◌⊎◌, refl, inl, inr, Bool, true, false, ◌||◌, not, any, if◌then◌else◌, is_empty, Bool-cases,
  or_split,
}
use unlinger.Core.State.{IncidentState, cleared, state_eq}
use unlinger.Core.Artifact.{completed_cleanup}
use unlinger.Core.Cleanup.Receipt.{
  CleanupReceipt, OverallOutcome, ProcessOutcome, artifact_delivery_unknown, artifact_outcome,
  artifact_residue_reason, cleared_with_residue, is_unknown_artifact, is_unknown_signal,
  not_applicable, outcome, overall_outcome, process_outcome, reason_is, reconciled, residue,
}
use unlinger.Daemon.Terminal.{
  has_side_effect, is_residue, is_uncertain, receipt_requires_global_fail_close,
}

is_residue-eq : (o : OverallOutcome) → is_residue o ≡ true → o ≡ cleared_with_residue
is_residue-eq OverallOutcome.cleared e = absurd (cc)
is_residue-eq cleared_with_residue e = refl
is_residue-eq OverallOutcome.revived e = absurd (cc)
is_residue-eq OverallOutcome.failed e = absurd (cc)

not_revived :
    (s : IncidentState) → state_eq s cleared ≡ true → state_eq s IncidentState.revived ≡ false
not_revived cleared e = refl
not_revived IncidentState.protected e = absurd (cc)
not_revived IncidentState.active e = absurd (cc)
not_revived IncidentState.cooling e = absurd (cc)
not_revived IncidentState.confirmed e = absurd (cc)
not_revived IncidentState.ambiguous e = absurd (cc)
not_revived IncidentState.reclaiming e = absurd (cc)
not_revived IncidentState.revived e = absurd (cc)
not_revived IncidentState.failed e = absurd (cc)

-- The outcome of cleared processes, by what is known of the artifacts.
cleared_outcome :
    (reason bad absent : Bool)
    → (o : OverallOutcome)
    → o
      ≡ overall_outcome ProcessOutcome.cleared
          (if reason || bad then residue else if absent then not_applicable else reconciled)
    → (o ≡ OverallOutcome.cleared) ⊎ (o ≡ cleared_with_residue)
cleared_outcome true bad absent o e = inr e
cleared_outcome false true absent o e = inr e
cleared_outcome false false true o e = inl e
cleared_outcome false false false o e = inl e

cleared_overall :
    (r : CleanupReceipt)
    → any is_unknown_signal r.actions ≡ false
    → artifact_delivery_unknown r ≡ false
    → state_eq r.state cleared ≡ true
    → ((outcome r).overall ≡ OverallOutcome.cleared) ⊎ ((outcome r).overall ≡ cleared_with_residue)
unfolding outcome process_outcome artifact_outcome
cleared_overall r signals artifacts done =
    cleared_outcome (artifact_residue_reason r)
      (any (λ a. not (completed_cleanup a.disposition)) r.artifact_actions)
      (is_empty r.artifact_actions) (outcome r).overall
      (rw (signals, not_revived r.state done, done, artifacts) refl)

-- If the daemon does not fail closed after a receipt, no signal and no removal of it has an unknown
-- delivery; and either it had no side effect, or its outcome is cleared, with or without residue, or
-- its reason is itself an unknown removal.
pub receipt_requires_global_fail_close_contained :
    (r : CleanupReceipt)
    → receipt_requires_global_fail_close r ≡ false
    → (any is_unknown_signal r.actions ≡ false)
      × (any is_unknown_artifact r.artifact_actions ≡ false)
      × ((has_side_effect r ≡ false)
          ⊎ ((outcome r).overall ≡ OverallOutcome.cleared)
          ⊎ ((outcome r).overall ≡ cleared_with_residue)
          ⊎ (reason_is r.reason_id "cleanup.artifact_delivery_unknown" ≡ true))
unfolding receipt_requires_global_fail_close
receipt_requires_global_fail_close_contained r e = elim (Bool-cases (is_uncertain r)) [
  | inl uncertain ↦ absurd (cc (rw (uncertain, receipt_requires_global_fail_close) at e))
  | inr certain ↦
      let (signals, artifacts) =
        or_split (any is_unknown_signal r.actions) (any is_unknown_artifact r.artifact_actions)
          certain in
      (
        signals,
        artifacts,
        elim (Bool-cases (has_side_effect r)) [
          | inr passive ↦ inl passive
          | inl effect ↦ elim (Bool-cases (is_residue (outcome r).overall)) [
            | inl left ↦ inr (inr (inl (is_residue-eq (outcome r).overall left)))
            | inr clean ↦ elim (Bool-cases (state_eq r.state cleared)) [
              | inr other ↦
                  absurd (
                    cc
                      (rw (certain, clean, other, effect, receipt_requires_global_fail_close) at e))
              | inl done ↦
                  elim (Bool-cases (reason_is r.reason_id "cleanup.artifact_delivery_unknown")) [
                    | inl unknown ↦ inr (inr (inr unknown))
                    | inr known ↦
                        elim (cleared_overall r signals (rw (artifacts, known) refl) done) [
                          | inl x ↦ inr (inl x)
                          | inr x ↦ inr (inr (inl x))
                        ]
                  ]
            ]
          ]
        ],
      )
]
