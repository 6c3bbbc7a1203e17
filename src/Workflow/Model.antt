-- ===== src/Workflow/Model.antt =====
-- crates/workflow/src/lib.rs: the data of a run and the limits.
use rust_factory.Common.{
  ℕ, ◌+◌, ◌≡◌, refl, Bool, true, false, ◌&&◌, ◌||◌, Option, List, [], ◌∷◌, Bytes, codes, length,
  all, Result, ok, err, not, leb, ◌==◌, if◌then◌else◌, Ord, ord_by, nat_ord, list_ord, pair_ord,
  is_ascii_lowercase, is_ascii_digit,
}
use rust_factory.Agent.{DefinitionError, EffectiveCapabilityCeilingV1}

abbrev pub max_json_input_bytes : ℕ
max_json_input_bytes = 65_536

abbrev pub max_evidence_bytes_limit : ℕ
max_evidence_bytes_limit = 65_536

abbrev pub max_evidence_chunk_bytes : ℕ
max_evidence_chunk_bytes = 4_096

abbrev pub max_events : ℕ
max_events = 64

abbrev pub min_terminal_evidence_bytes : ℕ
min_terminal_evidence_bytes =
    length (codes "started")
    + length (codes "invocation_failed")
    + length (codes "evidence_limit_exceeded")

pub data WorkflowError : Type 0 where
  invalid_request invalid_definition not_found run_key_conflict : WorkflowError
  conflict limit_exceeded cancelled deadline_exceeded adapter_failure : WorkflowError

pub data PublicErrorCode : Type 0 where
  invalid_request invalid_definition not_found run_key_conflict : PublicErrorCode
  conflict limit_exceeded operation_failed : PublicErrorCode

pub public_code : WorkflowError → PublicErrorCode
public_code WorkflowError.invalid_request = PublicErrorCode.invalid_request
public_code WorkflowError.invalid_definition = PublicErrorCode.invalid_definition
public_code WorkflowError.not_found = PublicErrorCode.not_found
public_code WorkflowError.run_key_conflict = PublicErrorCode.run_key_conflict
public_code WorkflowError.conflict = PublicErrorCode.conflict
public_code WorkflowError.limit_exceeded = PublicErrorCode.limit_exceeded
public_code WorkflowError.cancelled = PublicErrorCode.operation_failed
public_code WorkflowError.deadline_exceeded = PublicErrorCode.operation_failed
public_code WorkflowError.adapter_failure = PublicErrorCode.operation_failed

pub from_definition_error : DefinitionError → WorkflowError
from_definition_error DefinitionError.limit_exceeded = WorkflowError.limit_exceeded
from_definition_error DefinitionError.cancelled = WorkflowError.cancelled
from_definition_error DefinitionError.deadline_exceeded = WorkflowError.deadline_exceeded
from_definition_error DefinitionError.invalid_request = WorkflowError.invalid_request
from_definition_error DefinitionError.invalid_id = WorkflowError.invalid_definition
from_definition_error DefinitionError.invalid_definition = WorkflowError.invalid_definition
from_definition_error DefinitionError.invalid_reference = WorkflowError.invalid_definition
from_definition_error DefinitionError.not_found = WorkflowError.not_found
from_definition_error _ = WorkflowError.adapter_failure

pub record LogicalId : Type 0 where
  pub text : Bytes

instance abbrev pub id_ord : Ord LogicalId
id_ord = ord_by (λ a. a.text) (λ a b p i. record { text = p i })

abbrev is_start : ℕ → Bool
is_start byte = is_ascii_lowercase byte || is_ascii_digit byte

abbrev is_id : Bytes → Bool
is_id [] = false
is_id (byte ∷ bytes) = is_start byte && all (λ b. is_start b || b == b'_' || b == b'-') bytes

unfoldable pub new_id : Bytes → Result WorkflowError LogicalId
new_id value =
    if leb (length value) 128 && is_id value
    then ok (record { text = value })
    else err WorkflowError.invalid_request

pub data WorkflowVersion : Type 0 where
  v1 : WorkflowVersion

pub record RequestContext : Type 0 where
  pub tenant_id : LogicalId
  pub principal_id : LogicalId
  pub request_id : LogicalId
  pub correlation_id : LogicalId

pub record WorkflowBudget : Type 0 where
  pub max_attempts : ℕ
  pub max_input_bytes : ℕ
  pub max_evidence_bytes : ℕ

pub record AgentStep : Type 0 where
  pub agent_id : Bytes

pub record WorkflowDefinitionV1 : Type 0 where
  pub id : LogicalId
  pub version : WorkflowVersion
  pub step : AgentStep
  pub budget : WorkflowBudget

pub data RunStatus : Type 0 where
  pending running succeeded failed cancelled : RunStatus

abbrev pub is_terminal : RunStatus → Bool
is_terminal RunStatus.pending = false
is_terminal RunStatus.running = false
is_terminal _ = true

pub data TerminalReason : Type 0 where
  completed invocation_failed cancelled : TerminalReason

pub data AttemptStatus : Type 0 where
  running succeeded failed cancelled : AttemptStatus

pub record WorkflowEvent : Type 0 where
  pub sequence : ℕ
  pub kind : Bytes
  pub data_bytes : Bytes

pub record Attempt : Type 0 where
  pub id : LogicalId
  pub agent_id : Bytes
  pub effective_capability_ceiling : EffectiveCapabilityCeilingV1
  pub policy_decision_digest : Bytes
  pub capability_scope_digest : Option Bytes
  pub status : AttemptStatus
  pub result : Option Bytes
  pub error : Option Bytes

pub record Run : Type 0 where
  pub id : LogicalId
  pub context : RequestContext
  pub workflow_id : LogicalId
  pub workflow_version : WorkflowVersion
  pub run_key : Bytes
  pub input_digest : Bytes
  pub max_evidence_bytes : ℕ
  pub status : RunStatus
  pub revision : ℕ
  pub terminal_reason : Option TerminalReason
  pub attempt : Option Attempt
  pub events : List WorkflowEvent

pub record StartKey : Type 0 where
  pub tenant_id : LogicalId
  pub workflow_id : LogicalId
  pub workflow_version : WorkflowVersion
  pub run_key : Bytes

pub record StartIdentity : Type 0 where
  pub key : StartKey
  pub input_digest : Bytes

-- The only version compares equal to itself, so it takes no part in the order.
abbrev pub key_fields : StartKey → LogicalId × (LogicalId × Bytes)
key_fields key = (key.tenant_id, (key.workflow_id, key.run_key))

abbrev only_version : (a b : WorkflowVersion) → a ≡ b
only_version v1 v1 = refl

instance abbrev pub start_key_ord : Ord StartKey
start_key_ord = ord_by key_fields (λ a b p i. record {
  tenant_id = (p i).0;
  workflow_id = (p i).1.0;
  workflow_version = only_version a.workflow_version b.workflow_version i;
  run_key = (p i).1.1;
})

abbrev pub identity_fields : StartIdentity → StartKey × Bytes
identity_fields identity = (identity.key, identity.input_digest)

instance abbrev pub identity_ord : Ord StartIdentity
identity_ord = ord_by identity_fields (λ a b p i. record { key = (p i).0; input_digest = (p i).1 })

pub data CreateRun : Type 0 where
  created existing : Run → CreateRun
  conflict : CreateRun

pub record Transition : Type 0 where
  pub status : RunStatus
  pub terminal_reason : Option TerminalReason
  pub attempt : Option Attempt
  pub events : List WorkflowEvent

pub data TransitionResult : Type 0 where
  applied : Run → TransitionResult
  conflict not_found : TransitionResult

unfoldable pub validate_definition : WorkflowDefinitionV1 → Result WorkflowError (Unit {0})
validate_definition definition =
    let budget = definition.budget in
    if budget.max_attempts == 1
      && not (budget.max_input_bytes == 0)
      && leb budget.max_input_bytes max_json_input_bytes
      && leb min_terminal_evidence_bytes budget.max_evidence_bytes
      && leb budget.max_evidence_bytes max_evidence_bytes_limit
    then ok tt
    else err WorkflowError.invalid_definition
