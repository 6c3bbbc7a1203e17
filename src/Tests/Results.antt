-- ===== src/Tests/Results.antt =====
-- crates/evaluation on the values of its own tests, with a digest that tells lengths apart.
use rust_factory.Common.{
  ◌≡◌, refl, ℕ, ◌≤◌, true, false, some, [], ◌∷◌, ◌++◌, Bytes, codes, length, replicate, ok, nat_ord,
  list_ord, pair_ord, same, if◌then◌else◌, ltb, Bool-cases, inl, inr,
}
use rust_factory.Common.Decimal.{decimal}
use rust_factory.Common.Framing.{fields, field}
use rust_factory.Evaluation.Model.{
  EvaluationDefinitionV1, exact_output, event_kind_count, event_data_equals,
  TerminalEvidenceSnapshotV1, LogicalEvaluationKey, EvaluationResultV1, pass, fail, error, key_ord,
  created, existing, conflict, max_snapshot_bytes, TerminalStatus, TerminalReason,
}
use rust_factory.Evaluation.Validation.{is_sha256}
use rust_factory.Evaluation.Canonical.{
  snapshot_canonical_bytes, result_canonical_bytes, validate_and_bound_snapshot, validate_result,
  validate_snapshot,
}
use rust_factory.Evaluation.Canonical.Sizes.{snapshot_canonical_bytes_sized}
use rust_factory.Evaluation.Canonical.Binding.{SameContent, result_canonical_bytes-injective}
use rust_factory.Evaluation.Store.{InMemoryEvaluationStore, with_capacities, create_or_match}
use rust_factory.Evaluation.Store.History.{
  create_call, get_call, list_call, after, IsValid, with_capacities-IsValid,
}
use rust_factory.Evaluation.Store.Settled.{created-settled}
use rust_factory.Evaluation.Service.{Reader, evaluate, checked_request, deterministic_assessment}
use rust_factory.Evaluation.Service.Results.{evaluate_answers}

abbrev hash_of : ℕ → Bytes
hash_of letter = replicate 64 letter

-- It has the form of a SHA-256 in hexadecimal.
abbrev digest : Bytes → Bytes
digest bytes = if ltb (length bytes) 200 then hash_of b'a' else hash_of b'b'

digest-is_sha256 : (bytes : Bytes) → is_sha256 (digest bytes) ≡ true
unfolding is_sha256
digest-is_sha256 bytes = elim (Bool-cases (ltb (length bytes) 200)) [
  | inl e ↦ rw e refl
  | inr e ↦ rw e refl
]

abbrev snapshot : TerminalEvidenceSnapshotV1
snapshot = record {
  tenant_id = codes "tenant";
  run_id = codes "run";
  workflow_id = codes "workflow";
  workflow_version = codes "v1";
  run_revision = 7;
  terminal_status = TerminalStatus.succeeded;
  terminal_reason = TerminalReason.completed;
  attempt_id = codes "attempt";
  agent_id = codes "agent";
  capability_scope_digest = hash_of b'a';
  output = codes "hello";
  events =
      record { sequence = 1; kind = codes "started"; data_bytes = [] }
      ∷ record { sequence = 2; kind = codes "result"; data_bytes = codes "hello" }
      ∷ [];
}

abbrev snapshot_text : Bytes
snapshot_text =
    codes
      "2:v1\n6:tenant\n3:run\n8:workflow\n2:v1\n1:7\n9:succeeded\n9:completed\n7:attempt\n5:agent\n64:"
    ++ (hash_of b'a' ++ codes "\n5:hello\n1:2\n1:1\n7:started\n0:\n1:2\n6:result\n5:hello\n")

snapshot_golden : snapshot_canonical_bytes snapshot ≡ ok snapshot_text
unfolding snapshot_canonical_bytes fields field decimal
snapshot_golden = refl

snapshot_canonical_bytes_sized_example :
    (validate_and_bound_snapshot snapshot ≡ ok (length snapshot_text))
    × (length snapshot_text ≤ max_snapshot_bytes)
snapshot_canonical_bytes_sized_example =
    snapshot_canonical_bytes_sized snapshot snapshot_text snapshot_golden

abbrev key : LogicalEvaluationKey
key = record {
  tenant_id = codes "tenant";
  evaluator_id = codes "exact";
  evaluator_version = codes "1";
  criterion_digest = hash_of b'a';
  workflow_run_id = codes "run";
  workflow_revision = 7;
}

abbrev result : Bytes → EvaluationResultV1
result hash = record {
  logical_key = key;
  evidence_digest = hash_of b'b';
  verdict = pass;
  findings = [];
  content_hash = hash;
}

abbrev result_text : Bytes
result_text =
    codes "2:v1\n6:tenant\n5:exact\n1:1\n64:"
    ++ (hash_of b'a' ++ (codes "\n3:run\n1:7\n64:" ++ (hash_of b'b' ++ codes "\n4:pass\n1:0\n")))

result_golden : (hash : Bytes) → result_canonical_bytes (result hash) ≡ ok result_text
unfolding result_canonical_bytes fields field decimal
result_golden hash = refl

result_canonical_bytes-injective_example : SameContent (result []) (result (hash_of b'b'))
result_canonical_bytes-injective_example =
    result_canonical_bytes-injective (result []) (result (hash_of b'b')) result_text
      (result_golden []) (result_golden (hash_of b'b'))

abbrev small : InMemoryEvaluationStore
small = record { state = []; max_per_tenant = 1; max_global = 2; poisoned = false }

small_made : with_capacities 1 2 ≡ ok small
unfolding with_capacities
small_made = refl

abbrev accepted : EvaluationResultV1
accepted = result (hash_of b'a')

with_capacities-IsValid_example :
    IsValid digest (after digest (create_call accepted ∷ list_call (codes "tenant") ∷ []) small)
with_capacities-IsValid_example =
    with_capacities-IsValid digest 1 2 small
      (create_call accepted ∷ list_call (codes "tenant") ∷ []) small_made

accepted_valid : validate_result digest accepted ≡ ok tt
unfolding validate_result fields field decimal
accepted_valid = refl

abbrev other : EvaluationResultV1
other = record {
  logical_key = key;
  evidence_digest = hash_of b'b';
  verdict = fail;
  findings = codes "criterion_1_failed" ∷ [];
  content_hash = hash_of b'b';
}

other_valid : validate_result digest other ≡ ok tt
unfolding validate_result fields field decimal
other_valid = refl

accepted_created : (create_or_match digest accepted small).0 ≡ ok (created accepted)
unfolding create_or_match fields field decimal
accepted_created = refl

created-settled_example :
    let later =
      after digest (get_call (codes "tenant") key ∷ []) (create_or_match digest accepted small).1 in
    create_or_match digest other later ≡ (
      ok (if same accepted.content_hash other.content_hash then existing accepted else conflict),
      later,
    )
created-settled_example =
    created-settled digest accepted other small (get_call (codes "tenant") key ∷ []) refl
      accepted_created refl other_valid

abbrev definition : EvaluationDefinitionV1
definition = record {
  evaluator_id = codes "exact";
  evaluator_version = codes "1";
  criteria =
      exact_output (codes "hello")
      ∷ event_kind_count (codes "result") 1
      ∷ event_data_equals 2 (codes "hello")
      ∷ [];
}

-- It answers for any run with the evidence of one.
abbrev reader : Reader
reader _ _ = ok (some snapshot)

evaluate_passes : (deterministic_assessment definition snapshot).verdict ≡ pass
unfolding deterministic_assessment
evaluate_passes = refl

another_checked : checked_request (codes "tenant") (codes "another") definition ≡ ok tt
unfolding checked_request
another_checked = refl

evaluate_answers_example :
    (q : EvaluationResultV1) × ((evaluate digest reader
          (codes "tenant")
          (codes "another")
          definition
        ≡ ok q)
      × ((validate_result digest q ≡ ok tt)
          × ((q.logical_key.tenant_id ≡ codes "tenant")
              × ((q.logical_key.workflow_run_id ≡ codes "another") × (q.verdict ≡ error)))))
unfolding validate_snapshot
evaluate_answers_example =
    evaluate_answers digest digest-is_sha256 reader (codes "tenant") (codes "another") definition
      snapshot another_checked refl
