-- ===== src/Evaluation/Service/Results.antt =====
-- Every result that an evaluation gives passes the check of the store, whatever the evidence.
use rust_factory.Common.{
  ◌≡◌, refl, ℕ, true, false, some, [], ◌∷◌, ◌++◌, Bytes, codes, length, Result, ok, err,
  Result-cases, same, same_refl, inl, inr, nat_ord, list_ord, Bool, Bool-cases, ◌&&◌, sym, ◌∙◌,
  arith,
}
use rust_factory.Common.Decimal.{decimal}
use rust_factory.Common.Framing.{fields}
use rust_factory.Evaluation.Model.{
  EvaluationError, EvaluationDefinitionV1, TerminalEvidenceSnapshotV1, LogicalEvaluationKey,
  EvaluationResultV1, EvaluatorAssessmentV1, Verdict, error,
}
use rust_factory.Evaluation.Validation.{
  is_sha256, validate_definition, validate_logical_key, validate_result_fields, validate_assessment,
  too_many_findings,
}
use rust_factory.Evaluation.Canonical.{
  error_name, snapshot_canonical_bytes, definition_canonical_bytes, result_canonical_bytes,
  result_header, criteria_bytes, snapshot_digest, definition_digest, result_digest,
  invalid_evidence_digest, validate_result, validate_snapshot,
}
use rust_factory.Evaluation.Service.{
  Reader, checked_request, checked_evidence, request_key, sealed, invalid_result, build_result,
  deterministic_assessment, evaluate,
}
use rust_factory.Evaluation.Service.Assessment.{deterministic_assessment-valid}
use rust_factory.Evaluation.Service.Requests.{
  id_checked, defined, short_names, fields_valid, few_of_assessment, written,
}

-- The verdict of a result: evidence that is unsound, or is not that of the run, gives `error`.
abbrev pub verdict_of : Result EvaluationError (Unit {0}) → Bool → Verdict → Verdict
verdict_of (err _) own verdict = error
verdict_of (ok _) false verdict = error
verdict_of (ok _) true verdict = verdict

module _ (tenant_id run_id : Bytes) (snapshot : TerminalEvidenceSnapshotV1)
    (verdict : Verdict) where
  abbrev own : Bool
  own = same snapshot.tenant_id tenant_id && same snapshot.run_id run_id

  verdict-refused :
      (problem : EvaluationError)
      → checked_evidence tenant_id run_id snapshot ≡ err problem
      → verdict_of (validate_snapshot snapshot) own verdict ≡ error
  unfolding checked_evidence
  verdict-refused problem c = elim (Result-cases (validate_snapshot snapshot)) [
    | inr (_, v) ↦ rw v refl
    | inl (tt, v) ↦ elim (Bool-cases own) [
      | inl o ↦ absurd (ground (arith, c, v, o))
      | inr o ↦ rw (v, o) refl
    ]
  ]

  verdict-accepted :
      checked_evidence tenant_id run_id snapshot ≡ ok tt
      → verdict_of (validate_snapshot snapshot) own verdict ≡ verdict
  unfolding checked_evidence
  verdict-accepted c = elim (Result-cases (validate_snapshot snapshot)) [
    | inr (_, v) ↦ absurd (ground (arith, c, v))
    | inl (tt, v) ↦ elim (Bool-cases own) [
      | inl o ↦ rw (v, o) refl
      | inr o ↦ absurd (ground (arith, c, v, o))
    ]
  ]

module _ (digest : Bytes → Bytes) (hex : (bytes : Bytes) → is_sha256 (digest bytes) ≡ true) where
  -- A result with this key and verdict, which its own check accepts.
  abbrev Gives : LogicalEvaluationKey → Verdict → Result EvaluationError EvaluationResultV1 → Type 0
  Gives key verdict r =
      (q : EvaluationResultV1) × ((r ≡ ok q)
        × ((validate_result digest q ≡ ok tt) × ((q.logical_key ≡ key) × (q.verdict ≡ verdict))))

  digested :
      (r : EvaluationResultV1)
      → validate_result_fields r ≡ ok tt
      → result_digest digest r ≡ ok (digest (fields (result_header r) ++ fields r.findings))
  unfolding result_digest result_canonical_bytes
  digested r h = rw h refl

  accepted :
      (r : EvaluationResultV1)
      → validate_result_fields r ≡ ok tt
      → is_sha256 r.content_hash ≡ true
      → r.content_hash ≡ digest (fields (result_header r) ++ fields r.findings)
      → validate_result digest r ≡ ok tt
  unfolding validate_result
  accepted r h f d =
      rw (h, f, d, same_refl (digest (fields (result_header r) ++ fields r.findings))) refl

  sealed-Gives :
      (r : EvaluationResultV1)
      → validate_result_fields r ≡ ok tt
      → Gives r.logical_key r.verdict (sealed digest r)
  sealed-Gives r h =
      let hash = digest (fields (result_header r) ++ fields r.findings) in
      let q : EvaluationResultV1 = record r { content_hash = hash } in
      let same_fields : validate_result_fields q ≡ ok tt = unfold validate_result_fields in h in
      (
        q,
        (
          rw (digested r h) refl,
          (
            accepted q same_fields (hex (fields (result_header r) ++ fields r.findings)) refl,
            (refl, refl),
          ),
        ),
      )

  abbrev key_of : Bytes → Bytes → EvaluationDefinitionV1 → Bytes → ℕ → LogicalEvaluationKey
  key_of tenant_id run_id definition criterion_digest revision = record {
    tenant_id = tenant_id;
    evaluator_id = definition.evaluator_id;
    evaluator_version = definition.evaluator_version;
    criterion_digest = criterion_digest;
    workflow_run_id = run_id;
    workflow_revision = revision;
  }

  key_valid :
      (tenant_id run_id : Bytes) (definition : EvaluationDefinitionV1) (bytes : Bytes)
      (revision : ℕ)
      → checked_request tenant_id run_id definition ≡ ok tt
      → validate_logical_key (key_of tenant_id run_id definition (digest bytes) revision) ≡ ok tt
  unfolding validate_logical_key
  key_valid tenant_id run_id definition bytes revision h =
      let (t, (r, d)) = id_checked tenant_id run_id definition h in
      let (i, (v, _)) = defined definition d in rw (t, i, v, hex bytes, r) refl

  -- A result for the run that was asked for, with this verdict, which the store's check accepts.
  abbrev pub IsAnswer : Bytes → Bytes → Verdict → EvaluationResultV1 → Type 0
  IsAnswer tenant_id run_id verdict result =
      (validate_result digest result ≡ ok tt)
      × ((result.logical_key.tenant_id ≡ tenant_id)
          × ((result.logical_key.workflow_run_id ≡ run_id) × (result.verdict ≡ verdict)))

  invalid_result-valid :
      (key : LogicalEvaluationKey) (tenant_id run_id : Bytes) (problem : EvaluationError)
      → validate_logical_key key ≡ ok tt
      → Gives key error (invalid_result digest key tenant_id run_id problem)
  unfolding invalid_result invalid_evidence_digest
  invalid_result-valid key tenant_id run_id problem k =
      let r : EvaluationResultV1 = record {
        logical_key = key;
        evidence_digest =
            invalid_evidence_digest digest tenant_id run_id key.criterion_digest problem;
        verdict = error;
        findings = error_name problem ∷ [];
        content_hash = [];
      } in
      sealed-Gives r (fields_valid r k (hex _) (short_names problem))

  build_result-valid :
      (key : LogicalEvaluationKey) (snapshot : TerminalEvidenceSnapshotV1)
      (assessment : EvaluatorAssessmentV1) (bytes : Bytes)
      → validate_logical_key key ≡ ok tt
      → validate_assessment assessment ≡ ok tt
      → too_many_findings assessment.findings ≡ false
      → snapshot_canonical_bytes snapshot ≡ ok bytes
      → Gives key assessment.verdict (build_result digest key snapshot assessment)
  unfolding build_result snapshot_digest
  build_result-valid key snapshot assessment bytes k a f b =
      let r : EvaluationResultV1 = record {
        logical_key = key;
        evidence_digest = digest bytes;
        verdict = assessment.verdict;
        findings = assessment.findings;
        content_hash = [];
      } in
      rw (a, b) (sealed-Gives r (fields_valid r k (hex bytes) f))

  request_key-ok :
      (tenant_id run_id : Bytes) (definition : EvaluationDefinitionV1) (revision : ℕ)
      → validate_definition definition ≡ ok tt
      → (bytes : Bytes) × (request_key digest tenant_id run_id definition revision
          ≡ ok (key_of tenant_id run_id definition (digest bytes) revision))
  unfolding request_key definition_digest definition_canonical_bytes
  request_key-ok tenant_id run_id definition revision h = (
    fields (
          codes "v1"
          ∷ definition.evaluator_id
          ∷ definition.evaluator_version
          ∷ decimal (length definition.criteria)
          ∷ [])
        ++ criteria_bytes definition.criteria,
    rw h refl,
  )

  abbrev Answered : Bytes → Bytes → Verdict → Result EvaluationError EvaluationResultV1 → Type 0
  Answered tenant_id run_id verdict r =
      (q : EvaluationResultV1) × ((r ≡ ok q) × IsAnswer tenant_id run_id verdict q)

  answered :
      (tenant_id run_id : Bytes) (key : LogicalEvaluationKey) (given verdict : Verdict)
      (r : Result EvaluationError EvaluationResultV1)
      → key.tenant_id ≡ tenant_id
      → key.workflow_run_id ≡ run_id
      → given ≡ verdict
      → Gives key given r
      → Answered tenant_id run_id verdict r
  answered tenant_id run_id key given verdict r t u w (q, (e, (v, (k, d)))) =
      (q, (e, (v, (cc (k, t), (cc (k, u), d ∙ w)))))

  -- For a digest that always has the form of a SHA-256 in hexadecimal, a well-formed request, and
  -- a reader that gives any snapshot, `evaluate` answers with a result for this tenant and run
  -- that `validate_result` accepts. Its verdict is that of the assessment if the snapshot is valid
  -- and names this tenant and run, and `error` otherwise: unsound evidence or that of another run
  -- gives a result, never a failure.
  pub evaluate_answers :
      (reader : Reader) (tenant_id run_id : Bytes) (definition : EvaluationDefinitionV1)
      (snapshot : TerminalEvidenceSnapshotV1)
      → checked_request tenant_id run_id definition ≡ ok tt
      → reader tenant_id run_id ≡ ok (some snapshot)
      → Answered tenant_id run_id
          (verdict_of
            (validate_snapshot snapshot)
            (same snapshot.tenant_id tenant_id && same snapshot.run_id run_id)
            (deterministic_assessment definition snapshot).verdict)
          (evaluate digest reader tenant_id run_id definition)
  unfolding evaluate
  evaluate_answers reader tenant_id run_id definition snapshot h g =
      let (_, (_, d)) = id_checked tenant_id run_id definition h in
      let (_, (_, few)) = defined definition d in
      let (bytes, named) = request_key-ok tenant_id run_id definition snapshot.run_revision d in
      let key = key_of tenant_id run_id definition (digest bytes) snapshot.run_revision in
      let key_ok = key_valid tenant_id run_id definition bytes snapshot.run_revision h in
      let assessment = deterministic_assessment definition snapshot in
      let fits = deterministic_assessment-valid snapshot definition few in
      rw (h, g, named)
        (elim (Result-cases (checked_evidence tenant_id run_id snapshot)) [
          | inr (e, c) ↦ rw c (
              answered tenant_id run_id key error _ _ refl refl
                (sym (verdict-refused tenant_id run_id snapshot assessment.verdict e c))
                (invalid_result-valid key tenant_id run_id e key_ok))
          | inl (tt, c) ↦
              let (evidence, b) = written tenant_id run_id snapshot c in
              rw c (
                answered tenant_id run_id key assessment.verdict _ _ refl refl
                  (sym (verdict-accepted tenant_id run_id snapshot assessment.verdict c))
                  (build_result-valid key snapshot assessment evidence key_ok fits
                    (few_of_assessment assessment fits) b))
        ])
