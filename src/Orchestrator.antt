-- ===== src/Orchestrator.antt =====
-- orcastork/orchestrator/orchestrator.py: one session's orchestrator.
pub mod State
pub mod Ports
pub mod Merging
pub mod Planning
pub mod Launching
pub mod Plans
pub mod Passes
pub mod Completions
pub mod Retries
pub mod Dispositions
pub mod Draining
pub mod Tasks
pub mod Setup
pub mod Gathering
pub mod Aggregating
pub mod Running
pub mod Completing
pub mod Leaving
pub mod Waiting
pub mod Races
pub mod Leases
pub mod Keeping
pub mod Deliveries
pub mod Accounting
pub mod Redaction
