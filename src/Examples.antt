-- ===== src/Examples.antt =====
-- Concrete runs of the theorems.
pub mod Core
pub mod Persistence
pub mod Ingestion
pub mod Records
pub mod Runtime
pub mod CycleData
pub mod Workflow
pub mod Checkpoints
pub mod WorkItems
