-- ===== src/Memory.antt =====
-- crates/memory: typed records in namespaces of a tenant, behind a port.
pub mod Errors
pub mod Validation
pub mod Model
pub mod Checks
pub mod Store
pub mod Service
pub mod Settings
