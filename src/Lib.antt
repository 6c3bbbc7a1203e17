-- ===== src/Lib.antt =====
-- Verification of Rust Factory, a workspace of small service crates ("bricks").
--
-- Parts. Every crate keeps a framework-free core: validated values, a port and adapters.
--
-- * Storage models crates/storage. Storage/Validation and Storage/Model are src/error.rs,
--   src/validation.rs and src/model.rs. Storage/Quota and Storage/Local are the counters, the
--   state and `get`, `put`, `delete` and `guarantees` of src/local.rs; Storage/Listing is its `list`.
--   A method is a function from the store to a result and the store, in the order of the source's
--   statements, so what a failing call has written would be seen. A poisoned mutex is a flag.
-- * Policy models crates/policy. Policy/Model is the data of src/lib.rs with its canonical grants,
--   Policy/Bytes the canonical bytes and digests, Policy/Resolver the resolver of src/memory.rs. The
--   SHA-256 of the sha2 crate is the parameter `digest`, of which nothing is assumed.
-- * Knowledge models crates/knowledge: Knowledge/Validation and Knowledge/Model are src/error.rs,
--   src/validation.rs, src/model.rs and src/port.rs, Knowledge/Service the service over any index,
--   Knowledge/Static the index over a configured corpus.
-- * Memory models crates/memory: Memory/Errors, Memory/Validation, Memory/Model and Memory/Checks are
--   src/error.rs, src/validation.rs and src/model.rs, Memory/Store the in-process store of
--   src/local.rs, Memory/Service the service of src/service.rs over any adapter of the port of
--   src/port.rs, Memory/Settings src/settings.rs. Memory/Store/Flat is the flat map that specifies
--   the store.
-- * Evaluation models crates/evaluation: Evaluation/Model is src/error.rs and src/model.rs,
--   Evaluation/Validation and Evaluation/Canonical are src/validation.rs and src/canonical.rs,
--   Evaluation/Store the store of results of src/memory.rs, Evaluation/Service the evaluation of
--   src/service.rs with the evaluator of src/local.rs. A reader or an executor is a function from what
--   it is asked to what it answers; the SHA-256 of the sha2 crate is the parameter `digest`.
-- * Observability models the events of crates/observability: Observability/Model and
--   Observability/Validation are src/model.rs and src/validation.rs without traces, spans and metrics,
--   Observability/Local the store of src/local.rs, whose queues are lists with the oldest record first.
-- * Agent holds what crates/agent/src/lib.rs says of a capability ceiling, which a workflow checks.
-- * Workflow models crates/workflow: Workflow/Model the data of src/lib.rs, Workflow/Transition the
--   changes that a store may apply, Workflow/Store the store of src/memory.rs, with sequences of
--   calls as lists, and Workflow/Evidence the collector of one invocation. The runner, which waits
--   for an agent, is not modelled.
--
-- Shared modules. Common holds tests, lists, `Result`, machine words, decimal printing, orders,
-- the framing of encoded fields and the state monad; TreeMap and TreeSet are `BTreeMap` and
-- `BTreeSet` as sorted lists, TreeMap/Nested maps of maps.
--
-- Representation. A `String` is the list of its UTF-8 bytes, which is also how Rust orders it; a
-- newtype is a record. Integers are natural numbers; `checked_add`, `checked_sub` and `try_from`
-- carry the width, and `usize` has 64 bits. Decimal printing and `ilog10` recur on fuel `n + 1`, and
-- the lemmas `read-emit` and `length-emit` show it enough. All other recursion is structural.
--
-- Not modelled: transports and mcp surfaces, adapters over third-party stores and processes (redb,
-- docker, genai, biscuit, the agentic adapter of crates/memory, the framework evaluator of
-- crates/evaluation), the asynchronous runner of a workflow, the traces, spans and metrics of
-- crates/observability, and the crates llm-gateway, auth, sandbox and project. A digest function, a JSON parser or a clock is code outside
-- the repository.
mod Common
pub mod TreeMap
pub mod TreeSet
pub mod Storage
pub mod Policy
pub mod Knowledge
pub mod Memory
pub mod Evaluation
pub mod Observability
pub mod Agent
pub mod Workflow
mod Tests
