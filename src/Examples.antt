-- ===== src/Examples.antt =====
-- Runs at concrete inputs: tests of the definitions, and the theorems where their hypotheses hold.
mod Tasks
mod Reports
mod Runs
mod Schedules
mod Routes
mod Subscribers
mod Checks
mod Approvals
mod Logs
mod Plans
mod Sources
