-- ===== src/Evaluation/Validation.antt =====
-- The checks of crates/evaluation/src/validation.rs that need no digest or length of an encoding.
use rust_factory.Common.{
  ℕ, ◌+◌, Bool, true, false, not, ◌&&◌, ◌||◌, List, [], ◌∷◌, Bytes, length, all, any, Result, ok,
  err, refuse, ◌>>◌, leb, ltb, ◌==◌, if◌then◌else◌, is_ascii_lowercase, is_ascii_digit,
  is_ascii_alphanumeric,
}
use rust_factory.Evaluation.Model.{
  EvaluationError, EvaluationDefinitionV1, CriterionV1, exact_output, event_kind_count,
  event_data_equals, EvidenceEventV1, LogicalEvaluationKey, EvaluatorAssessmentV1, pass, fail,
  error, EvaluationResultV1, Verdict, TerminalStatus, TerminalReason, max_logical_id_bytes,
  max_evaluator_version_bytes, sha256_hex_bytes, max_criteria, max_expected_bytes, max_event_bytes,
  max_findings, max_finding_bytes,
}

abbrev is_lower_or_digit : ℕ → Bool
is_lower_or_digit byte = is_ascii_lowercase byte || is_ascii_digit byte

abbrev starts_id : Bytes → Bool
starts_id [] = false
starts_id (byte ∷ _) = is_lower_or_digit byte

abbrev follows_id : Bytes → Bool
follows_id [] = true
follows_id (_ ∷ bytes) = all (λ byte. is_lower_or_digit byte || byte == b'_' || byte == b'-') bytes

unfoldable pub is_logical_id : Bytes → Bool
is_logical_id value = leb (length value) max_logical_id_bytes && starts_id value && follows_id value

unfoldable pub is_evaluator_version : Bytes → Bool
is_evaluator_version value =
    not (length value == 0)
    && leb (length value) max_evaluator_version_bytes
    && all (λ byte. is_ascii_alphanumeric byte || byte == b'.' || byte == b'_' || byte == b'-')
        value

unfoldable pub is_sha256 : Bytes → Bool
is_sha256 value =
    length value == sha256_hex_bytes
    && all (λ byte. is_ascii_digit byte || (leb b'a' byte && leb byte b'f')) value

unfoldable pub check_criterion : CriterionV1 → Result EvaluationError (Unit {0})
check_criterion (exact_output expected) =
    refuse (ltb max_expected_bytes (length expected)) EvaluationError.limit_exceeded
check_criterion (event_data_equals _ expected) =
    refuse (ltb max_expected_bytes (length expected)) EvaluationError.limit_exceeded
check_criterion (event_kind_count kind _) =
    refuse (length kind == 0 || ltb max_event_bytes (length kind))
      EvaluationError.invalid_definition

unfoldable pub check_criteria : List CriterionV1 → Result EvaluationError (Unit {0})
unfolding check_criterion
check_criteria [] = ok tt
check_criteria (criterion ∷ criteria) = do check_criterion criterion; check_criteria criteria

unfoldable pub validate_definition : EvaluationDefinitionV1 → Result EvaluationError (Unit {0})
unfolding is_logical_id is_evaluator_version check_criteria
validate_definition definition = do
  refuse
      (not (is_logical_id definition.evaluator_id)
        || not (is_evaluator_version definition.evaluator_version)
        || ltb max_criteria (length definition.criteria))
      EvaluationError.invalid_definition
  check_criteria definition.criteria

unfoldable pub validate_logical_key : LogicalEvaluationKey → Result EvaluationError (Unit {0})
unfolding is_logical_id is_evaluator_version is_sha256
validate_logical_key key =
    if is_logical_id key.tenant_id
      && is_logical_id key.evaluator_id
      && is_evaluator_version key.evaluator_version
      && is_sha256 key.criterion_digest
      && is_logical_id key.workflow_run_id
    then ok tt
    else err EvaluationError.invalid_request

abbrev pub too_many_findings : List Bytes → Bool
too_many_findings findings =
    ltb max_findings (length findings)
    || any (λ finding. ltb max_finding_bytes (length finding)) findings

abbrev pub verdict_fits : Verdict → List Bytes → Result EvaluationError (Unit {0})
verdict_fits pass [] = ok tt
verdict_fits pass (_ ∷ _) = err EvaluationError.adapter_failure
verdict_fits fail (_ ∷ _) = ok tt
verdict_fits fail [] = err EvaluationError.adapter_failure
verdict_fits error (_ ∷ _) = ok tt
verdict_fits error [] = err EvaluationError.adapter_failure

unfoldable pub validate_assessment : EvaluatorAssessmentV1 → Result EvaluationError (Unit {0})
validate_assessment assessment = do
  refuse (too_many_findings assessment.findings) EvaluationError.adapter_failure
  verdict_fits assessment.verdict assessment.findings

unfoldable pub validate_result_fields : EvaluationResultV1 → Result EvaluationError (Unit {0})
unfolding validate_logical_key is_sha256
validate_result_fields result = do
  validate_logical_key result.logical_key
  refuse (not (is_sha256 result.evidence_digest)) EvaluationError.invalid_request
  refuse (too_many_findings result.findings) EvaluationError.limit_exceeded

-- The status and the reason of a run that has ended go together.
abbrev pub ends_together : TerminalStatus → TerminalReason → Bool
ends_together TerminalStatus.succeeded TerminalReason.completed = true
ends_together TerminalStatus.failed TerminalReason.invocation_failed = true
ends_together TerminalStatus.cancelled TerminalReason.cancelled = true
ends_together _ _ = false

-- The loop over the events, from the place `index` on.
unfoldable pub check_events : ℕ → List EvidenceEventV1 → Result EvaluationError (Unit {0})
check_events index [] = ok tt
check_events index (event ∷ events) = do
  refuse
      (not (event.sequence == index + 1)
        || length event.kind == 0
        || ltb max_event_bytes (length event.kind + length event.data_bytes))
      EvaluationError.malformed_evidence
  check_events (index + 1) events
