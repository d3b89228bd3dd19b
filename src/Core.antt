-- ===== src/Core.antt =====
-- crates/unlinger-core: the data model of a process table, the incident state machine, the process
-- graph, tasks, fingerprints, runtime artifacts, and the cleanup executor.
pub mod Model
pub mod State
pub mod Graph
pub mod Task
pub mod Evidence
pub mod Artifact
pub mod Fingerprint
pub mod Residue
pub mod Cleanup
