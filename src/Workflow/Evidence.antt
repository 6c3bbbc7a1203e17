-- ===== src/Workflow/Evidence.antt =====
-- `InvocationEvidence`, `EvidenceCollector` and the closing transitions of crates/workflow/src/lib.rs.
pub mod Bounds
pub mod Accepted
use rust_factory.Common.{
  ℕ, zero, suc, ◌+◌, ◌%◌, ◌^◌, Bool, true, false, not, ◌&&◌, ◌||◌, Option, none, some, List, [],
  ◌∷◌, ◌++◌, Bytes, codes, length, Result, ok, err, ok_or, refuse, ◌>>=◌, ◌>>◌, leb, ltb, ◌==◌,
  if◌then◌else◌, checked_add, usize_bits, same, nat_ord, list_ord,
}
use rust_factory.Workflow.Model.{
  WorkflowError, max_events, max_evidence_chunk_bytes, RunStatus, TerminalReason, AttemptStatus,
  WorkflowEvent, Attempt, Run, Transition,
}
use rust_factory.Workflow.Transition.{is_some, evidence_bytes}

pub record InvocationEvidence : Type 0 where
  pub kind : Bytes
  pub data_bytes : Bytes

-- `InvocationEvidence::new`
unfoldable pub new_evidence : Bytes → Bytes → Result WorkflowError InvocationEvidence
new_evidence kind data_bytes = do
  bytes ←
      ok_or (checked_add usize_bits (length kind) (length data_bytes)) WorkflowError.limit_exceeded
  refuse (length kind == 0 || ltb max_evidence_chunk_bytes bytes) WorkflowError.limit_exceeded
  ok (record { kind = kind; data_bytes = data_bytes })

pub record EvidenceCollector : Type 0 where
  pub limit : ℕ
  pub existing_events : ℕ
  pub used_bytes : ℕ
  pub events : List InvocationEvidence
  pub output : Option Bytes

-- `EvidenceCollector::new`
unfoldable pub new_collector : ℕ → List WorkflowEvent → Result WorkflowError EvidenceCollector
unfolding evidence_bytes
new_collector limit existing = do
  used_bytes ← evidence_bytes 0 existing
  refuse (ltb limit used_bytes || ltb max_events (length existing)) WorkflowError.limit_exceeded
  ok (record {
    limit = limit;
    existing_events = length existing;
    used_bytes = used_bytes;
    events = [];
    output = none;
  })

abbrev pub is_result : Bytes → Bool
is_result kind = same kind (codes "result")

-- The output that `emit` keeps: the data of the only item of kind `result`.
abbrev pub next_output : InvocationEvidence → Option Bytes → Result WorkflowError (Option Bytes)
next_output evidence output =
    if not (is_result evidence.kind)
    then ok output
    else if is_some output
    then err WorkflowError.invalid_request
    else ok (some evidence.data_bytes)

-- `EvidenceCollector::emit`: it writes only after its last test.
unfoldable pub emit :
    EvidenceCollector → InvocationEvidence → Result WorkflowError EvidenceCollector
emit c evidence = do
  item_bytes ←
      ok_or (checked_add usize_bits (length evidence.kind) (length evidence.data_bytes))
        WorkflowError.limit_exceeded
  total ← ok_or (checked_add usize_bits c.used_bytes item_bytes) WorkflowError.limit_exceeded
  count ←
      ok_or (checked_add usize_bits c.existing_events (length c.events))
        WorkflowError.limit_exceeded
  event_count ← ok_or (checked_add usize_bits count 1) WorkflowError.limit_exceeded
  refuse
      (ltb max_events event_count || ltb max_evidence_chunk_bytes item_bytes || ltb c.limit total)
      WorkflowError.limit_exceeded
  output ← next_output evidence c.output
  ok (record c { output = output; used_bytes = total; events = c.events ++ evidence ∷ [] })

-- `emit` for each item in turn, up to the first error.
unfoldable pub emit_all :
    EvidenceCollector → List InvocationEvidence → Result WorkflowError EvidenceCollector
unfolding emit
emit_all c [] = ok c
emit_all c (item ∷ items) = emit c item >>= λ next. emit_all next items

-- `enumerate` and `map` of `finish_success`.
unfoldable pub number_events : ℕ → ℕ → List InvocationEvidence → List WorkflowEvent
number_events held index [] = []
number_events held index (item ∷ items) =
    record {
      sequence = ((held + index) % 2 ^ 64 + 1) % 2 ^ 64;
      kind = item.kind;
      data_bytes = item.data_bytes;
    }
    ∷ number_events held (suc index) items

-- `finish_success`; the digest is the one field of the invocation's result.
unfoldable pub finish_success : Run → Bytes → EvidenceCollector → Result WorkflowError Transition
unfolding number_events
finish_success run digest evidence = do
  output ← ok_or evidence.output WorkflowError.invalid_request
  attempt ← ok_or run.attempt WorkflowError.conflict
  ok (record {
    status = RunStatus.succeeded;
    terminal_reason = some TerminalReason.completed;
    attempt = some (record attempt {
      status = AttemptStatus.succeeded;
      capability_scope_digest = some digest;
      result = some output;
    });
    events = number_events (length run.events) 0 evidence.events;
  })
