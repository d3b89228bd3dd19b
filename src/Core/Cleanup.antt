-- ===== src/Core/Cleanup.antt =====
-- crates/unlinger-core/src/cleanup.rs: the receipt and its outcome, the plan, the runtime and journal
-- interfaces, and the executor.
pub mod Receipt
pub mod Plan
pub mod Runtime
pub mod Liveness
pub mod Signal
pub mod Removal
pub mod Execute
pub mod History
pub mod Logic
pub mod Account
pub mod Validation
pub mod Signalling
pub mod Reconcile
pub mod Rounds
pub mod Loops
pub mod Closing
pub mod Opening
pub mod Guarantees
