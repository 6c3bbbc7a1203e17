-- ===== src/Evaluation/Service/Requests.antt =====
-- What a well-formed request and sound evidence guarantee to crates/evaluation/src/service.rs.
use rust_factory.Common.{
  ◌≡◌, refl, sym, ◌∙◌, ◌≤◌, true, false, Bool-cases, [], ◌∷◌, ◌++◌, Bytes, length, ok, Result-cases,
  ltb, arith, inl, inr, nat_ord, list_ord,
}
use rust_factory.Common.Framing.{fields}
use rust_factory.Evaluation.Model.{
  EvaluationError, EvaluationDefinitionV1, TerminalEvidenceSnapshotV1, EvaluationResultV1,
  EvaluatorAssessmentV1, max_criteria,
}
use rust_factory.Evaluation.Validation.{
  is_logical_id, is_evaluator_version, is_sha256, validate_definition, validate_logical_key,
  validate_result_fields, validate_assessment, too_many_findings,
}
use rust_factory.Evaluation.Canonical.{
  error_name, snapshot_canonical_bytes, header_fields, event_fields, validate_snapshot,
  validate_and_bound_snapshot,
}
use rust_factory.Evaluation.Service.{checked_request, checked_evidence}

pub id_checked :
    (tenant_id run_id : Bytes) (definition : EvaluationDefinitionV1)
    → checked_request tenant_id run_id definition ≡ ok tt
    → (is_logical_id tenant_id ≡ true)
      × ((is_logical_id run_id ≡ true) × (validate_definition definition ≡ ok tt))
unfolding checked_request
id_checked tenant_id run_id definition h = elim (Bool-cases (is_logical_id tenant_id)) [
  | inr t ↦ absurd (ground (arith, h, t))
  | inl t ↦ elim (Bool-cases (is_logical_id run_id)) [
    | inr r ↦ absurd (ground (arith, h, t, r))
    | inl r ↦ (t, (r, sym (definition_left t r) ∙ h))
  ]
]
  where
    definition_left :
        is_logical_id tenant_id ≡ true
        → is_logical_id run_id ≡ true
        → checked_request tenant_id run_id definition ≡ validate_definition definition
    definition_left t r = rw (t, r) refl

abbrev pub IsDefined : EvaluationDefinitionV1 → Type 0
IsDefined definition =
    (is_logical_id definition.evaluator_id ≡ true)
    × ((is_evaluator_version definition.evaluator_version ≡ true)
        × (length definition.criteria ≤ max_criteria))

pub defined :
    (definition : EvaluationDefinitionV1)
    → validate_definition definition ≡ ok tt
    → IsDefined definition
unfolding validate_definition
defined definition h = elim (Bool-cases (is_logical_id definition.evaluator_id)) [
  | inr i ↦ absurd (ground (arith, h, i))
  | inl i ↦ elim (Bool-cases (is_evaluator_version definition.evaluator_version)) [
    | inr v ↦ absurd (ground (arith, h, i, v))
    | inl v ↦ elim (Bool-cases (ltb max_criteria (length definition.criteria))) [
      | inl c ↦ absurd (ground (arith, h, i, v, c))
      | inr c ↦ (i, (v, ground (arith, c)))
    ]
  ]
]

pub short_names : (problem : EvaluationError) → too_many_findings (error_name problem ∷ []) ≡ false
short_names problem = ground (arith)

pub fields_valid :
    (r : EvaluationResultV1)
    → validate_logical_key r.logical_key ≡ ok tt
    → is_sha256 r.evidence_digest ≡ true
    → too_many_findings r.findings ≡ false
    → validate_result_fields r ≡ ok tt
unfolding validate_result_fields
fields_valid r k e f = rw (k, e, f) refl

pub few_of_assessment :
    (assessment : EvaluatorAssessmentV1)
    → validate_assessment assessment ≡ ok tt
    → too_many_findings assessment.findings ≡ false
unfolding validate_assessment
few_of_assessment assessment h = elim (Bool-cases (too_many_findings assessment.findings)) [
  | inl t ↦ absurd (ground (arith, h, t))
  | inr t ↦ t
]

pub written :
    (tenant_id run_id : Bytes) (snapshot : TerminalEvidenceSnapshotV1)
    → checked_evidence tenant_id run_id snapshot ≡ ok tt
    → (bytes : Bytes) × (snapshot_canonical_bytes snapshot ≡ ok bytes)
unfolding checked_evidence validate_snapshot snapshot_canonical_bytes
written tenant_id run_id snapshot h = elim (Result-cases (validate_and_bound_snapshot snapshot)) [
  | inr (e, v) ↦ absurd (ground (arith, h, v))
  | inl (n, v) ↦ (fields (header_fields snapshot) ++ event_fields snapshot.events, rw v refl)
]
