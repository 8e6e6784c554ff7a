-- ===== src/Runtime.antt =====
-- src/runtime: the work queue, retries and dead letters.
pub mod Queue
pub mod DeadLetter
pub mod Retry
pub mod Orchestrator
pub mod Dispatch
