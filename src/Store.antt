-- ===== src/Store.antt =====
-- scripts/pd_fleet/run_store.py: the crash-safe store of run snapshots.
pub mod State
pub mod Validate
pub mod Redact
pub mod Disk
pub mod Leases
pub mod Commits
pub mod Events
pub mod Batch
pub mod Crash
pub mod Validity
pub mod Evolution
pub mod Ops
pub mod Refinement
pub mod Inversion
pub mod Capacity
pub mod History
pub mod Fencing
pub mod Lost
