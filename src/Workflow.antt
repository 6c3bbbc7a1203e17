-- ===== src/Workflow.antt =====
-- crates/workflow: the lifecycle of one bounded agent invocation.
pub mod Model
pub mod Transition
pub mod Store
pub mod Evidence
