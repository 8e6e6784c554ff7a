-- ===== src/Workflow.antt =====
-- src/workflow: the six-stage pipeline of one cycle.
pub mod Types
pub mod Equality
pub mod Context
pub mod Gates
pub mod Stages
pub mod Pipeline
pub mod Cardinality
pub mod Laws
