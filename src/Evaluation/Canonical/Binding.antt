-- ===== src/Evaluation/Canonical/Binding.antt =====
-- The canonical bytes of a result determine it.
use mathlib.Core.List.{append-nil}
use rust_factory.Common.{◌≡◌, refl, sym, ◌∙◌, [], ◌++◌, Bytes, length, ok, >>=-ok, arith}
use rust_factory.Common.Decimal.{decimal-injective}
use rust_factory.Common.Framing.{fields, fields_split}
use rust_factory.Evaluation.Model.{EvaluationResultV1, Verdict}
use rust_factory.Evaluation.Validation.{validate_result_fields}
use rust_factory.Evaluation.Canonical.{verdict_name, result_header, result_canonical_bytes}

verdict_name-injective : (v w : Verdict) → verdict_name v ≡ verdict_name w → v ≡ w
verdict_name-injective v w h = ground (arith, h)

written_of :
    (r : EvaluationResultV1) (bytes : Bytes)
    → result_canonical_bytes r ≡ ok bytes
    → fields (result_header r) ++ fields r.findings ≡ bytes
unfolding result_canonical_bytes
written_of r bytes h = let (_, written, _) = >>=-ok (validate_result_fields r) _ h in cc written

-- All of a result but its content hash.
abbrev pub SameContent : EvaluationResultV1 → EvaluationResultV1 → Type 0
SameContent r q =
    (r.logical_key ≡ q.logical_key)
    × ((r.evidence_digest ≡ q.evidence_digest)
        × ((r.verdict ≡ q.verdict) × (r.findings ≡ q.findings)))

-- Two results with the same canonical bytes have the same logical key, evidence digest, verdict
-- and findings.
pub result_canonical_bytes-injective :
    (r q : EvaluationResultV1) (bytes : Bytes)
    → result_canonical_bytes r ≡ ok bytes
    → result_canonical_bytes q ≡ ok bytes
    → SameContent r q
result_canonical_bytes-injective r q bytes h i =
    let same_bytes = written_of r bytes h ∙ sym (written_of q bytes i) in
    let (heads, rest) =
      fields_split (result_header r) (result_header q) (fields r.findings) (fields q.findings) refl
        same_bytes in
    let count : length r.findings ≡ length q.findings = decimal-injective _ _ (cc heads) in
    let revision : r.logical_key.workflow_revision ≡ q.logical_key.workflow_revision =
      decimal-injective _ _ (cc heads) in
    let verdict : r.verdict ≡ q.verdict = verdict_name-injective _ _ (cc heads) in
    let findings =
      (fields_split r.findings q.findings [] [] count
        (append-nil (fields r.findings) ∙ rest ∙ sym (append-nil (fields q.findings)))).0 in
    (cc (heads, revision), (cc heads, (verdict, findings)))
