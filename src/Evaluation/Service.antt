-- ===== src/Evaluation/Service.antt =====
-- crates/evaluation/src/service.rs and src/local.rs: the deterministic criteria, and an evaluation
-- over any reader of evidence and any executor.
pub mod Assessment
pub mod Requests
pub mod Results
use rust_factory.Common.{
  ℕ, ◌+◌, Bool, true, false, not, ◌&&◌, ◌||◌, Option, none, some, List, [], ◌∷◌, ◌++◌, Bytes, codes,
  length, keep_if, Result, ok, err, ok_or, map_err, refuse, ◌>>=◌, ◌>>◌, ◌==◌, same, nat_ord,
  list_ord, if◌then◌else◌,
}
use rust_factory.Common.Decimal.{decimal}
use rust_factory.Evaluation.Model.{
  EvaluationError, EvaluationDefinitionV1, CriterionV1, exact_output, event_kind_count,
  event_data_equals, EvidenceEventV1, TerminalEvidenceSnapshotV1, LogicalEvaluationKey,
  EvaluatorAssessmentV1, EvaluationResultV1, Verdict, pass, fail, error, CreateOrMatch,
}
use rust_factory.Evaluation.Validation.{is_logical_id, validate_definition, validate_assessment}
use rust_factory.Evaluation.Canonical.{
  error_name, validate_snapshot, snapshot_digest, definition_digest, result_digest,
  invalid_evidence_digest,
}
use rust_factory.Evaluation.Store.{Op, create_or_match}
use rust_factory.Common.Exec.{lift}
use rust_factory.Common.Exec

-- `find(|event| event.sequence == sequence)`
abbrev event_at : ℕ → List EvidenceEventV1 → Option EvidenceEventV1
event_at sequence [] = none
event_at sequence (event ∷ events) =
    let rest = event_at sequence events in if event.sequence == sequence then some event else rest

abbrev has_data : Bytes → Option EvidenceEventV1 → Bool
has_data expected none = false
has_data expected (some event) = same event.data_bytes expected

abbrev pub passed : TerminalEvidenceSnapshotV1 → CriterionV1 → Bool
passed snapshot (exact_output expected) = same snapshot.output expected
passed snapshot (event_kind_count kind expected) =
    length (keep_if (λ event. same event.kind kind) snapshot.events) == expected
passed snapshot (event_data_equals sequence expected) =
    has_data expected (event_at sequence snapshot.events)

abbrev pub finding : ℕ → Bytes
finding index = codes "criterion_" ++ (decimal (index + 1) ++ codes "_failed")

-- `enumerate().filter_map(...)` over the criteria, from the place `index` on.
unfoldable pub failures : TerminalEvidenceSnapshotV1 → ℕ → List CriterionV1 → List Bytes
failures snapshot index [] = []
failures snapshot index (criterion ∷ criteria) =
    let rest = failures snapshot (index + 1) criteria in
    if not (passed snapshot criterion) then finding index ∷ rest else rest

unfoldable pub deterministic_assessment :
    EvaluationDefinitionV1 → TerminalEvidenceSnapshotV1 → EvaluatorAssessmentV1
unfolding failures
deterministic_assessment definition snapshot =
    let findings = failures snapshot 0 definition.criteria in
    record { verdict = if length findings == 0 then pass else fail; findings = findings }

unfoldable pub checked_request :
    Bytes → Bytes → EvaluationDefinitionV1 → Result EvaluationError (Unit {0})
unfolding is_logical_id validate_definition
checked_request tenant_id run_id definition = do
  refuse (not (is_logical_id tenant_id) || not (is_logical_id run_id))
      EvaluationError.invalid_request
  validate_definition definition

-- The evidence is sound and is that of the run which was asked for.
unfoldable pub checked_evidence :
    Bytes → Bytes → TerminalEvidenceSnapshotV1 → Result EvaluationError (Unit {0})
unfolding validate_snapshot
checked_evidence tenant_id run_id snapshot = do
  validate_snapshot snapshot
  if same snapshot.tenant_id tenant_id && same snapshot.run_id run_id
      then ok tt
      else err EvaluationError.malformed_evidence

-- `WorkflowEvidenceReader` and `EvaluationExecutor`, as what they answer to one call.
abbrev pub Reader : Type 0
Reader = Bytes → Bytes → Result EvaluationError (Option TerminalEvidenceSnapshotV1)

abbrev pub Executor : Type 0
Executor =
    EvaluationDefinitionV1
    → TerminalEvidenceSnapshotV1
    → Result EvaluationError EvaluatorAssessmentV1

-- `digest` is the SHA-256 of the `sha2` crate.
module _ (digest : Bytes → Bytes) where
  unfoldable pub request_key :
      Bytes → Bytes → EvaluationDefinitionV1 → ℕ → Result EvaluationError LogicalEvaluationKey
  unfolding definition_digest
  request_key tenant_id run_id definition revision = do
    criterion_digest ← definition_digest digest definition
    ok (record {
      tenant_id = tenant_id;
      evaluator_id = definition.evaluator_id;
      evaluator_version = definition.evaluator_version;
      criterion_digest = criterion_digest;
      workflow_run_id = run_id;
      workflow_revision = revision;
    })

  -- A result without its content hash is given the digest of its canonical bytes.
  abbrev pub sealed : EvaluationResultV1 → Result EvaluationError EvaluationResultV1
  sealed result = result_digest digest result >>= λ hash. ok (record result { content_hash = hash })

  unfoldable pub invalid_result :
      LogicalEvaluationKey
      → Bytes
      → Bytes
      → EvaluationError
      → Result EvaluationError EvaluationResultV1
  unfolding result_digest invalid_evidence_digest
  invalid_result key tenant_id run_id problem = sealed (record {
    logical_key = key;
    evidence_digest = invalid_evidence_digest digest tenant_id run_id key.criterion_digest problem;
    verdict = error;
    findings = error_name problem ∷ [];
    content_hash = [];
  })

  unfoldable pub build_result :
      LogicalEvaluationKey
      → TerminalEvidenceSnapshotV1
      → EvaluatorAssessmentV1
      → Result EvaluationError EvaluationResultV1
  unfolding validate_assessment snapshot_digest result_digest
  build_result key snapshot assessment = do
    validate_assessment assessment
    evidence_digest ← snapshot_digest digest snapshot
    sealed (record {
      logical_key = key;
      evidence_digest = evidence_digest;
      verdict = assessment.verdict;
      findings = assessment.findings;
      content_hash = [];
    })

  -- What is done with a snapshot once the key is made: `build` of evidence that is sound, else a
  -- result that says what is wrong with it.
  abbrev pub judge :
      LogicalEvaluationKey
      → Bytes
      → Bytes
      → TerminalEvidenceSnapshotV1
      → Result EvaluationError (Unit {0})
      → Result EvaluationError EvaluationResultV1
      → Result EvaluationError EvaluationResultV1
  judge key tenant_id run_id snapshot (err problem) build =
      invalid_result key tenant_id run_id problem
  judge key tenant_id run_id snapshot (ok _) build = build

  -- The function `evaluate`
  unfoldable pub evaluate :
      Reader → Bytes → Bytes → EvaluationDefinitionV1 → Result EvaluationError EvaluationResultV1
  unfolding checked_request request_key checked_evidence invalid_result build_result
      deterministic_assessment
  evaluate reader tenant_id run_id definition = do
    checked_request tenant_id run_id definition
    given ← reader tenant_id run_id
    snapshot ← ok_or given EvaluationError.not_found
    key ← request_key tenant_id run_id definition snapshot.run_revision
    judge key tenant_id run_id snapshot (checked_evidence tenant_id run_id snapshot)
        (build_result key snapshot (deterministic_assessment definition snapshot))

  abbrev executed :
      LogicalEvaluationKey
      → TerminalEvidenceSnapshotV1
      → Result EvaluationError EvaluatorAssessmentV1
      → Result EvaluationError EvaluationResultV1
  executed key snapshot (err _) = err EvaluationError.adapter_failure
  executed key snapshot (ok assessment) =
      map_err (λ _. EvaluationError.adapter_failure) (build_result key snapshot assessment)

  -- `EvaluationService::evaluate`
  unfoldable pub evaluate_with :
      Reader
      → Executor
      → Bytes
      → Bytes
      → EvaluationDefinitionV1
      → Result EvaluationError EvaluationResultV1
  unfolding checked_request request_key checked_evidence invalid_result build_result
  evaluate_with reader executor tenant_id run_id definition = do
    checked_request tenant_id run_id definition
    given ← reader tenant_id run_id
    snapshot ← ok_or given EvaluationError.not_found
    key ← request_key tenant_id run_id definition snapshot.run_revision
    judge key tenant_id run_id snapshot (checked_evidence tenant_id run_id snapshot)
        (executed key snapshot (executor definition snapshot))

  -- The function `evaluate_and_store`
  unfoldable pub evaluate_and_store :
      Reader → Bytes → Bytes → EvaluationDefinitionV1 → Op CreateOrMatch
  unfolding evaluate create_or_match
  evaluate_and_store reader tenant_id run_id definition =
      Exec.◌>>=◌ (lift (evaluate reader tenant_id run_id definition)) (create_or_match digest)
