-- ===== src/Tests.antt =====
-- Runs of the modelled code on small inputs, and the theorems applied to them.
mod MirrorRuns
mod LockRuns
mod GraphRuns
mod SinkRuns
mod SchedulingRuns
mod InboxRuns
mod DurableRuns
mod OrchestratorRuns
mod LoopRuns
mod ManagerRuns
