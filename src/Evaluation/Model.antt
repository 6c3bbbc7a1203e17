-- ===== src/Evaluation/Model.antt =====
-- The data of crates/evaluation/src/error.rs and src/model.rs with its bounds.
use rust_factory.Common.{ℕ, List, Bytes, Ord, ord_by, nat_ord, list_ord, pair_ord, ◌≡◌}

pub data PublicErrorCode : Type 0 where
  invalid_request invalid_definition not_found : PublicErrorCode
  conflict limit_exceeded operation_failed : PublicErrorCode

pub data EvaluationError : Type 0 where
  invalid_request invalid_definition not_found conflict : EvaluationError
  limit_exceeded malformed_evidence adapter_failure : EvaluationError

unfoldable pub public_code : EvaluationError → PublicErrorCode
public_code EvaluationError.invalid_request = PublicErrorCode.invalid_request
public_code EvaluationError.invalid_definition = PublicErrorCode.invalid_definition
public_code EvaluationError.not_found = PublicErrorCode.not_found
public_code EvaluationError.conflict = PublicErrorCode.conflict
public_code EvaluationError.limit_exceeded = PublicErrorCode.limit_exceeded
public_code EvaluationError.malformed_evidence = PublicErrorCode.operation_failed
public_code EvaluationError.adapter_failure = PublicErrorCode.operation_failed

abbrev pub max_logical_id_bytes : ℕ
max_logical_id_bytes = 128

abbrev pub max_evaluator_version_bytes : ℕ
max_evaluator_version_bytes = 128

abbrev pub sha256_hex_bytes : ℕ
sha256_hex_bytes = 64

abbrev pub max_criteria : ℕ
max_criteria = 16

abbrev pub max_events : ℕ
max_events = 64

abbrev pub max_expected_bytes : ℕ
max_expected_bytes = 16_384

abbrev pub max_event_bytes : ℕ
max_event_bytes = 4_096

abbrev pub max_snapshot_bytes : ℕ
max_snapshot_bytes = 65_536

abbrev pub max_findings : ℕ
max_findings = 32

abbrev pub max_finding_bytes : ℕ
max_finding_bytes = 4_096

abbrev pub max_results_per_tenant : ℕ
max_results_per_tenant = 1_024

abbrev pub max_results_global : ℕ
max_results_global = 4_096

pub data CriterionV1 : Type 0 where
  exact_output : (expected : Bytes) → CriterionV1
  event_kind_count : (kind : Bytes) (expected : ℕ) → CriterionV1
  event_data_equals : (sequence : ℕ) (expected : Bytes) → CriterionV1

pub record EvaluationDefinitionV1 : Type 0 where
  pub evaluator_id : Bytes
  pub evaluator_version : Bytes
  pub criteria : List CriterionV1

pub record EvidenceEventV1 : Type 0 where
  pub sequence : ℕ
  pub kind : Bytes
  pub data_bytes : Bytes

pub data TerminalStatus : Type 0 where
  succeeded failed cancelled : TerminalStatus

pub data TerminalReason : Type 0 where
  completed invocation_failed cancelled : TerminalReason

pub record TerminalEvidenceSnapshotV1 : Type 0 where
  pub tenant_id : Bytes
  pub run_id : Bytes
  pub workflow_id : Bytes
  pub workflow_version : Bytes
  pub run_revision : ℕ
  pub terminal_status : TerminalStatus
  pub terminal_reason : TerminalReason
  pub attempt_id : Bytes
  pub agent_id : Bytes
  pub capability_scope_digest : Bytes
  pub output : Bytes
  pub events : List EvidenceEventV1

pub record LogicalEvaluationKey : Type 0 where
  pub tenant_id : Bytes
  pub evaluator_id : Bytes
  pub evaluator_version : Bytes
  pub criterion_digest : Bytes
  pub workflow_run_id : Bytes
  pub workflow_revision : ℕ

-- The derived order goes by the fields in turn.
abbrev pub key_fields : LogicalEvaluationKey → Bytes × (Bytes × (Bytes × (Bytes × (Bytes × ℕ))))
key_fields key = (
  key.tenant_id,
  (
    key.evaluator_id,
    (key.evaluator_version, (key.criterion_digest, (key.workflow_run_id, key.workflow_revision))),
  ),
)

pub key_fields-injective : (a b : LogicalEvaluationKey) → key_fields a ≡ key_fields b → a ≡ b
key_fields-injective a b h = cc h

instance abbrev pub key_ord : Ord LogicalEvaluationKey
key_ord = ord_by key_fields key_fields-injective

pub data Verdict : Type 0 where
  pass fail error : Verdict

pub record EvaluatorAssessmentV1 : Type 0 where
  pub verdict : Verdict
  pub findings : List Bytes

pub record EvaluationResultV1 : Type 0 where
  pub logical_key : LogicalEvaluationKey
  pub evidence_digest : Bytes
  pub verdict : Verdict
  pub findings : List Bytes
  pub content_hash : Bytes

pub data CreateOrMatch : Type 0 where
  created : EvaluationResultV1 → CreateOrMatch
  existing : EvaluationResultV1 → CreateOrMatch
  conflict : CreateOrMatch
