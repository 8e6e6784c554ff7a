-- ===== src/Persistence/Ingestion.antt =====
-- src/persistence/ingestion: the durable lifecycle of work items, and the checkpoints of
-- src/persistence/sqlite.
pub mod Times
pub mod Policy
pub mod Messages
pub mod Backoff
pub mod Work
pub mod Commands
pub mod Checkpoints
pub mod WorkItems
pub mod Records
