-- ===== src/Evaluation/Canonical.antt =====
-- crates/evaluation/src/canonical.rs: the encodings and the length that is computed before one is
-- written; and the checks of src/validation.rs that use them.
pub mod Sizes
pub mod Binding
use rust_factory.Common.{
  ℕ, ◌+◌, Bool, true, false, not, ◌&&◌, ◌||◌, Option, none, some, List, [], ◌∷◌, ◌++◌, Bytes, codes,
  length, Result, ok, err, ok_or, refuse, ◌>>=◌, ◌>>◌, leb, ltb, ◌==◌, if◌then◌else◌, same, nat_ord,
  list_ord, checked_add, usize_bits,
}
use rust_factory.Common.Decimal.{decimal, ilog10}
use rust_factory.Common.Framing.{fields}
use rust_factory.Evaluation.Model.{
  EvaluationError, EvaluationDefinitionV1, CriterionV1, exact_output, event_kind_count,
  event_data_equals, EvidenceEventV1, TerminalEvidenceSnapshotV1, TerminalStatus, TerminalReason,
  LogicalEvaluationKey, EvaluationResultV1, Verdict, pass, fail, error, max_expected_bytes,
  max_events, max_snapshot_bytes,
}
use rust_factory.Evaluation.Validation.{
  is_logical_id, is_evaluator_version, is_sha256, validate_definition, validate_result_fields,
  ends_together, check_events,
}

abbrev pub status_name : TerminalStatus → Bytes
status_name TerminalStatus.succeeded = codes "succeeded"
status_name TerminalStatus.failed = codes "failed"
status_name TerminalStatus.cancelled = codes "cancelled"

abbrev pub reason_name : TerminalReason → Bytes
reason_name TerminalReason.completed = codes "completed"
reason_name TerminalReason.invocation_failed = codes "invocation_failed"
reason_name TerminalReason.cancelled = codes "cancelled"

abbrev pub verdict_name : Verdict → Bytes
verdict_name pass = codes "pass"
verdict_name fail = codes "fail"
verdict_name error = codes "error"

abbrev pub error_name : EvaluationError → Bytes
error_name EvaluationError.invalid_request = codes "invalid_request"
error_name EvaluationError.invalid_definition = codes "invalid_definition"
error_name EvaluationError.not_found = codes "not_found"
error_name EvaluationError.conflict = codes "conflict"
error_name EvaluationError.limit_exceeded = codes "limit_exceeded"
error_name EvaluationError.malformed_evidence = codes "malformed_evidence"
error_name EvaluationError.adapter_failure = codes "operation_failed"

-- `decimal_len` and `decimal_len_u64`
abbrev pub decimal_len : ℕ → ℕ
decimal_len value = if value == 0 then 1 else ilog10 value + 1

abbrev and_then : {A B : Type 0} → Option A → (A → Option B) → Option B
and_then none f = none
and_then (some a) f = f a

unfoldable pub add_field_len : ℕ → ℕ → Result EvaluationError ℕ
unfolding ilog10
add_field_len total value_len = do
  field_len ←
      ok_or
        (and_then (checked_add usize_bits (decimal_len value_len) 2)
          (λ len. checked_add usize_bits len value_len))
        EvaluationError.limit_exceeded
  ok_or (checked_add usize_bits total field_len) EvaluationError.limit_exceeded

unfoldable pub add_field_lens : ℕ → List ℕ → Result EvaluationError ℕ
unfolding add_field_len
add_field_lens total [] = ok total
add_field_lens total (len ∷ lens) = do total' ← add_field_len total len; add_field_lens total' lens

unfoldable pub add_event_lens : ℕ → List EvidenceEventV1 → Result EvaluationError ℕ
unfolding add_field_lens
add_event_lens total [] = ok total
add_event_lens total (event ∷ events) = do
  total' ←
      add_field_lens total
        (decimal_len event.sequence ∷ length event.kind ∷ length event.data_bytes ∷ [])
  add_event_lens total' events

abbrev pub header_lens : TerminalEvidenceSnapshotV1 → List ℕ
header_lens snapshot =
    2
    ∷ length snapshot.tenant_id
    ∷ length snapshot.run_id
    ∷ length snapshot.workflow_id
    ∷ length snapshot.workflow_version
    ∷ decimal_len snapshot.run_revision
    ∷ length (status_name snapshot.terminal_status)
    ∷ length (reason_name snapshot.terminal_reason)
    ∷ length snapshot.attempt_id
    ∷ length snapshot.agent_id
    ∷ length snapshot.capability_scope_digest
    ∷ length snapshot.output
    ∷ decimal_len (length snapshot.events)
    ∷ []

unfoldable pub snapshot_canonical_len : TerminalEvidenceSnapshotV1 → Result EvaluationError ℕ
unfolding add_field_lens add_event_lens
snapshot_canonical_len snapshot = do
  total ← add_field_lens 0 (header_lens snapshot)
  add_event_lens total snapshot.events

abbrev pub malformed : TerminalEvidenceSnapshotV1 → Bool
malformed snapshot =
    not (is_logical_id snapshot.tenant_id)
    || not (is_logical_id snapshot.run_id)
    || not (is_logical_id snapshot.workflow_id)
    || not (is_evaluator_version snapshot.workflow_version)
    || not (is_logical_id snapshot.attempt_id)
    || not (is_logical_id snapshot.agent_id)
    || ltb max_expected_bytes (length snapshot.output)
    || ltb max_events (length snapshot.events)
    || not (is_sha256 snapshot.capability_scope_digest)
    || not (ends_together snapshot.terminal_status snapshot.terminal_reason)

unfoldable pub validate_and_bound_snapshot : TerminalEvidenceSnapshotV1 → Result EvaluationError ℕ
unfolding is_logical_id is_evaluator_version is_sha256 check_events snapshot_canonical_len
validate_and_bound_snapshot snapshot = do
  refuse (malformed snapshot) EvaluationError.malformed_evidence
  check_events 0 snapshot.events
  len ← snapshot_canonical_len snapshot
  if leb len max_snapshot_bytes then ok len else err EvaluationError.limit_exceeded

unfoldable pub validate_snapshot : TerminalEvidenceSnapshotV1 → Result EvaluationError (Unit {0})
unfolding validate_and_bound_snapshot
validate_snapshot snapshot = validate_and_bound_snapshot snapshot >>= λ _. ok tt

abbrev pub header_fields : TerminalEvidenceSnapshotV1 → List Bytes
header_fields snapshot =
    codes "v1"
    ∷ snapshot.tenant_id
    ∷ snapshot.run_id
    ∷ snapshot.workflow_id
    ∷ snapshot.workflow_version
    ∷ decimal snapshot.run_revision
    ∷ status_name snapshot.terminal_status
    ∷ reason_name snapshot.terminal_reason
    ∷ snapshot.attempt_id
    ∷ snapshot.agent_id
    ∷ snapshot.capability_scope_digest
    ∷ snapshot.output
    ∷ decimal (length snapshot.events)
    ∷ []

abbrev pub event_fields : List EvidenceEventV1 → Bytes
event_fields [] = []
event_fields (event ∷ events) =
    fields (decimal event.sequence ∷ event.kind ∷ event.data_bytes ∷ []) ++ event_fields events

unfoldable pub snapshot_canonical_bytes : TerminalEvidenceSnapshotV1 → Result EvaluationError Bytes
unfolding validate_and_bound_snapshot
snapshot_canonical_bytes snapshot = do
  validate_and_bound_snapshot snapshot
  ok (fields (header_fields snapshot) ++ event_fields snapshot.events)

abbrev pub criterion_fields : CriterionV1 → List Bytes
criterion_fields (exact_output expected) = codes "exact_output" ∷ expected ∷ []
criterion_fields (event_kind_count kind expected) =
    codes "event_kind_count" ∷ kind ∷ decimal expected ∷ []
criterion_fields (event_data_equals sequence expected) =
    codes "event_data_equals" ∷ decimal sequence ∷ expected ∷ []

abbrev pub criteria_bytes : List CriterionV1 → Bytes
criteria_bytes [] = []
criteria_bytes (criterion ∷ criteria) =
    fields (criterion_fields criterion) ++ criteria_bytes criteria

unfoldable pub definition_canonical_bytes : EvaluationDefinitionV1 → Result EvaluationError Bytes
unfolding validate_definition
definition_canonical_bytes definition = do
  validate_definition definition
  ok (
      fields (
        codes "v1"
        ∷ definition.evaluator_id
        ∷ definition.evaluator_version
        ∷ decimal (length definition.criteria)
        ∷ [])
      ++ criteria_bytes definition.criteria)

abbrev pub result_header : EvaluationResultV1 → List Bytes
result_header result =
    codes "v1"
    ∷ result.logical_key.tenant_id
    ∷ result.logical_key.evaluator_id
    ∷ result.logical_key.evaluator_version
    ∷ result.logical_key.criterion_digest
    ∷ result.logical_key.workflow_run_id
    ∷ decimal result.logical_key.workflow_revision
    ∷ result.evidence_digest
    ∷ verdict_name result.verdict
    ∷ decimal (length result.findings)
    ∷ []

unfoldable pub result_canonical_bytes : EvaluationResultV1 → Result EvaluationError Bytes
unfolding validate_result_fields
result_canonical_bytes result = do
  validate_result_fields result
  ok (fields (result_header result) ++ fields result.findings)

-- `digest`: the lowercase hexadecimal SHA-256 of the `sha2` crate.
module _ (digest : Bytes → Bytes) where
  unfoldable pub snapshot_digest : TerminalEvidenceSnapshotV1 → Result EvaluationError Bytes
  unfolding snapshot_canonical_bytes
  snapshot_digest snapshot = snapshot_canonical_bytes snapshot >>= λ bytes. ok (digest bytes)

  unfoldable pub definition_digest : EvaluationDefinitionV1 → Result EvaluationError Bytes
  unfolding definition_canonical_bytes
  definition_digest definition =
      definition_canonical_bytes definition >>= λ bytes. ok (digest bytes)

  unfoldable pub result_digest : EvaluationResultV1 → Result EvaluationError Bytes
  unfolding result_canonical_bytes
  result_digest result = result_canonical_bytes result >>= λ bytes. ok (digest bytes)

  unfoldable pub invalid_evidence_digest : Bytes → Bytes → Bytes → EvaluationError → Bytes
  invalid_evidence_digest tenant_id run_id criterion_digest problem = digest (
      fields (
        codes "invalid_evidence_v1"
        ∷ tenant_id
        ∷ run_id
        ∷ criterion_digest
        ∷ error_name problem
        ∷ []))

  -- `validate_result`; the digest is taken only of a hash that has the form of one.
  unfoldable pub validate_result : EvaluationResultV1 → Result EvaluationError (Unit {0})
  unfolding validate_result_fields is_sha256 result_digest
  validate_result result = do
    validate_result_fields result
    refuse (not (is_sha256 result.content_hash)) EvaluationError.invalid_request
    digested ← result_digest result
    refuse (not (same result.content_hash digested)) EvaluationError.invalid_request
