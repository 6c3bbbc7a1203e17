-- ===== src/Evaluation/Service/Assessment.antt =====
-- What the deterministic evaluator says of evidence.
use rust_factory.Common.{
  ◌≡◌, refl, ℕ, ◌+◌, ◌≤◌, false, Bool-cases, List, [], ◌∷◌, Bytes, codes, length, any, ok, ltb,
  ◌==◌, arith, length-append, inl, inr, if◌then◌else◌,
}
use rust_factory.Common.Decimal.{decimal, decimal_short}
use rust_factory.Evaluation.Model.{
  EvaluationDefinitionV1, CriterionV1, TerminalEvidenceSnapshotV1, pass, fail, max_criteria,
  max_findings, max_finding_bytes,
}
use rust_factory.Evaluation.Validation.{too_many_findings, validate_assessment, verdict_fits}
use rust_factory.Evaluation.Service.{passed, finding, failures, deterministic_assessment}

module _ (snapshot : TerminalEvidenceSnapshotV1) where
  length-failures :
      (index : ℕ) (criteria : List CriterionV1)
      → length (failures snapshot index criteria) ≤ length criteria
  unfolding failures
  length-failures index [] = omega arith
  length-failures index (criterion ∷ criteria) = elim (Bool-cases (passed snapshot criterion)) [
    | inl p ↦ rw p (omega (arith, length-failures (index + 1) criteria))
    | inr p ↦ rw p (omega (arith, length-failures (index + 1) criteria))
  ]

  length-finding : (index : ℕ) → length (finding index) ≤ index + 19
  length-finding index =
      omega
        (arith, length-append (decimal (index + 1)) (codes "_failed"), decimal_short (index + 1))

  short_failures :
      (index : ℕ) (criteria : List CriterionV1)
      → index + length criteria ≤ max_criteria
      → any (λ f. ltb max_finding_bytes (length f)) (failures snapshot index criteria) ≡ false
  unfolding failures
  short_failures index [] h = refl
  short_failures index (criterion ∷ criteria) h =
      let rest = short_failures (index + 1) criteria (omega (arith, h)) in
      elim (Bool-cases (passed snapshot criterion)) [
        | inl p ↦ rw p rest
        | inr p ↦
            let short : ltb max_finding_bytes (length (finding index)) ≡ false =
              ground (arith, length-finding index, h) in
            rw (p, short) rest
      ]

  few_findings :
      (criteria : List CriterionV1)
      → length criteria ≤ max_criteria
      → too_many_findings (failures snapshot 0 criteria) ≡ false
  few_findings criteria h =
      let few : ltb max_findings (length (failures snapshot 0 criteria)) ≡ false =
        ground (arith, length-failures 0 criteria, h) in
      rw (few, short_failures 0 criteria (omega (arith, h))) refl

  pub deterministic_assessment-valid :
      (definition : EvaluationDefinitionV1)
      → length definition.criteria ≤ max_criteria
      → validate_assessment (deterministic_assessment definition snapshot) ≡ ok tt
  unfolding deterministic_assessment validate_assessment
  deterministic_assessment-valid definition h =
      rw (few_findings definition.criteria h) (fits (failures snapshot 0 definition.criteria))
    where
      fits : (fs : List Bytes) → verdict_fits (if length fs == 0 then pass else fail) fs ≡ ok tt
      fits [] = refl
      fits (f ∷ fs) = ground (arith)
