-- ===== src/Evaluation.antt =====
-- crates/evaluation: criteria over the evidence of a finished run, and the store of results.
pub mod Model
pub mod Validation
pub mod Canonical
pub mod Store
pub mod Service
