-- ===== src/Storage.antt =====
-- crates/storage: bounded, tenant-scoped, versioned objects.
pub mod Validation
pub mod Model
pub mod Quota
pub mod Local
pub mod Listing
