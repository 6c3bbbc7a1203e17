-- ===== src/Observability.antt =====
-- crates/observability: telemetry events of tenants, and the store that keeps the newest of them.
pub mod Model
pub mod Validation
pub mod Local
