-- ===== src/Persistence.antt =====
-- src/persistence: the in-memory store, its lifecycle helpers, and durable ingestion.
pub mod Override
pub mod Store
pub mod Lifecycle
pub mod Ingestion
