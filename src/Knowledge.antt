-- ===== src/Knowledge.antt =====
-- crates/knowledge: bounded retrieval behind an index that is not trusted.
pub mod Validation
pub mod Model
pub mod Service
pub mod Static
