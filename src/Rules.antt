-- ===== src/Rules.antt =====
-- crates/unlinger-rules/src/lib.rs: the signature packs, the classifier that turns a process table into
-- incident reports, and the revalidation of a plan that the cleanup executor asks for.
pub mod Text
pub mod Pack
pub mod Gate
pub mod Matching
pub mod Candidates
pub mod Roles
pub mod Evidence
pub mod Ownership
pub mod Classify
pub mod Report
pub mod Observe
pub mod Revalidate
pub mod Signals
