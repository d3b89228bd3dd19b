-- ===== src/Rules/Signals.antt =====
-- The executor of crates/unlinger-core/src/cleanup.rs with the analyzer of crates/unlinger-rules as its
-- revalidator, as the daemon's engine puts them together.
use unlinger.Prelude.{◌≡◌, some, In}
use unlinger.Core.Model.{ProcessIdentity, ProcessRecord, Snapshot}
use unlinger.Core.Cleanup.Plan.{CleanupPlan}
use unlinger.Core.Cleanup.Runtime.{History}
use unlinger.Core.Cleanup.History.{last_snapshot}
use unlinger.Rules.Ownership.{Analyzer}
use unlinger.Rules.Revalidate.Eligible.{IsEligible, IsUnprotected}

module _ (a : Analyzer) (plan : CleanupPlan) where
  -- What is known of the process that is signalled, in the last snapshot.
  pub record IsRightful (identity : ProcessIdentity) (h : History) : Type 0 where
    pub snapshot : Snapshot
    pub process : ProcessRecord
    pub is_last : last_snapshot h ≡ some snapshot
    pub is_listed : In process snapshot.processes
    pub same_identity : identity ≡ process.identity
    pub is_unprotected : IsUnprotected a snapshot plan process
    pub session : IsEligible a snapshot plan
