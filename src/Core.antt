-- ===== src/Core.antt =====
-- src/core: the domain objects and their lifecycles.
pub mod Lifecycle
pub mod Signals
pub mod Theses
pub mod Entities
pub mod Evidence
pub mod Sources
pub mod Research
