-- ===== src/Daemon.antt =====
-- crates/unlinger-daemon: the store's leases on cooling incidents, the engine's cycle, the scheduler and the
-- policy of actions.
pub mod Cooling
pub mod Engine
pub mod Terminal
pub mod Gated
pub mod Policy
pub mod Scheduler
