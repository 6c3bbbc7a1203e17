-- ===== src/Policy.antt =====
-- crates/policy: trusted context, capability grants and authorization decisions.
pub mod Model
pub mod Canonical
pub mod Bytes
pub mod Resolver
