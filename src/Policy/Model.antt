-- ===== src/Policy/Model.antt =====
-- crates/policy/src/lib.rs: identifiers, capabilities, grants and decisions.
pub mod Capabilities
use rust_factory.Common.{
  ℕ, ◌≡◌, Bool, true, false, not, ◌&&◌, ◌||◌, Option, none, some, List, [], ◌∷◌, Bytes, codes,
  length, all, any, get_last?, Result, ok, err, refuse, ◌>>=◌, ◌>>◌, ltb, leb, ◌==◌, if◌then◌else◌,
  is_ascii_lowercase, is_ascii_digit, is_ascii_alphanumeric, Ord, ord_by, nat_ord, list_ord,
}
use rust_factory.TreeSet.{collect}

abbrev pub max_logical_id_bytes : ℕ
max_logical_id_bytes = 128

abbrev pub max_tool_ids : ℕ
max_tool_ids = 64

abbrev pub max_tool_id_bytes : ℕ
max_tool_id_bytes = 128

pub data PolicyError : Type 0 where
  invalid_id invalid_grant limit_exceeded : PolicyError

-- `PublicErrorCode`
pub data PublicErrorCode : Type 0 where
  invalid_id invalid_grant limit_exceeded : PublicErrorCode

abbrev pub public_code : PolicyError → PublicErrorCode
public_code PolicyError.invalid_id = PublicErrorCode.invalid_id
public_code PolicyError.invalid_grant = PublicErrorCode.invalid_grant
public_code PolicyError.limit_exceeded = PublicErrorCode.limit_exceeded

-- `bytes.next()` matched against the start class; the rest against the other.
unfoldable pub is_logical_id : Bytes → Bool
is_logical_id [] = false
is_logical_id (byte ∷ rest) =
    leb (length (byte ∷ rest)) max_logical_id_bytes
    && (is_ascii_lowercase byte || is_ascii_digit byte)
    && all (λ b. is_ascii_lowercase b || is_ascii_digit b || b == b'_' || b == b'-') rest

abbrev some_alphanumeric : Option ℕ → Bool
some_alphanumeric none = false
some_alphanumeric (some byte) = is_ascii_alphanumeric byte

abbrev first? : Bytes → Option ℕ
first? [] = none
first? (byte ∷ _) = some byte

unfoldable pub is_tool_id : Bytes → Bool
is_tool_id bytes =
    not (length bytes == 0)
    && leb (length bytes) max_tool_id_bytes
    && some_alphanumeric (first? bytes)
    && some_alphanumeric (get_last? bytes)
    && all (λ b. is_ascii_lowercase b || is_ascii_digit b || b == b'-' || b == b'_' || b == b'.')
        bytes

pub record TenantId : Type 0 where
  pub text : Bytes

pub record PrincipalId : Type 0 where
  pub text : Bytes

pub record RequestId : Type 0 where
  pub text : Bytes

pub record CorrelationId : Type 0 where
  pub text : Bytes

-- The constructor that the macro `logical_id!` gives each of them.
abbrev pub new_logical_id : {A : Type 0} → (Bytes → A) → Bytes → Result PolicyError A
new_logical_id wrap value =
    if is_logical_id value then ok (wrap value) else err PolicyError.invalid_id

instance abbrev pub tenant_ord : Ord TenantId
tenant_ord = ord_by (λ t. t.text) (λ a b p i. record { text = p i })

instance abbrev pub principal_ord : Ord PrincipalId
principal_ord = ord_by (λ t. t.text) (λ a b p i. record { text = p i })

pub record TrustedContextV1 : Type 0 where
  pub tenant_id : TenantId
  pub principal_id : PrincipalId
  pub request_id : RequestId
  pub correlation_id : CorrelationId

pub data CapabilityV1 : Type 0 where
  agent_definition_validate agent_definition_get agent_definition_list : CapabilityV1
  agent_definition_register agent_invoke : CapabilityV1
  workflow_validate workflow_start workflow_get workflow_list workflow_cancel : CapabilityV1
  evaluation_validate evaluation_evaluate evaluation_get : CapabilityV1
  observability_telemetry_query observability_telemetry_status : CapabilityV1
  memory_remember memory_recall memory_search memory_forget memory_status : CapabilityV1
  sandbox_start sandbox_execute sandbox_status sandbox_stop : CapabilityV1

-- `CapabilityV1::as_str`
unfoldable pub as_str : CapabilityV1 → Bytes
as_str agent_definition_validate = codes "agent_definition_validate"
as_str agent_definition_get = codes "agent_definition_get"
as_str agent_definition_list = codes "agent_definition_list"
as_str agent_definition_register = codes "agent_definition_register"
as_str agent_invoke = codes "agent_invoke"
as_str workflow_validate = codes "workflow_validate"
as_str workflow_start = codes "workflow_start"
as_str workflow_get = codes "workflow_get"
as_str workflow_list = codes "workflow_list"
as_str workflow_cancel = codes "workflow_cancel"
as_str evaluation_validate = codes "evaluation_validate"
as_str evaluation_evaluate = codes "evaluation_evaluate"
as_str evaluation_get = codes "evaluation_get"
as_str observability_telemetry_query = codes "observability_telemetry_query"
as_str observability_telemetry_status = codes "observability_telemetry_status"
as_str memory_remember = codes "memory_remember"
as_str memory_recall = codes "memory_recall"
as_str memory_search = codes "memory_search"
as_str memory_forget = codes "memory_forget"
as_str memory_status = codes "memory_status"
as_str sandbox_start = codes "sandbox_start"
as_str sandbox_execute = codes "sandbox_execute"
as_str sandbox_status = codes "sandbox_status"
as_str sandbox_stop = codes "sandbox_stop"

pub record GrantV1 : Type 0 where
  pub allowed_tool_ids : List Bytes
  pub memory_enabled : Bool
  pub knowledge_enabled : Bool
  pub sandbox_execution_allowed : Bool
  pub communication_allowed : Bool

pub record AuthorizationRequestV1 : Type 0 where
  pub context : TrustedContextV1
  pub capability : CapabilityV1

pub data SafeDenyReasonV1 : Type 0 where
  denied : SafeDenyReasonV1

abbrev pub reason_as_str : SafeDenyReasonV1 → Bytes
reason_as_str denied = codes "denied"

pub data AuthorizationDecisionV1 : Type 0 where
  allow : GrantV1 → Bytes → AuthorizationDecisionV1
  deny : SafeDenyReasonV1 → AuthorizationDecisionV1

unfoldable pub canonical_tools : List Bytes → Result PolicyError (List Bytes)
unfolding collect is_tool_id
canonical_tools tools =
    let set = collect tools in
    if ltb max_tool_ids (length set)
    then err PolicyError.limit_exceeded
    else if any (λ tool. not (is_tool_id tool)) set
    then err PolicyError.invalid_grant
    else ok set

unfoldable pub validate_grant : GrantV1 → Result PolicyError (Unit {0})
unfolding is_tool_id
validate_grant grant =
    if ltb max_tool_ids (length grant.allowed_tool_ids)
    then err PolicyError.limit_exceeded
    else if any (λ tool. not (is_tool_id tool)) grant.allowed_tool_ids
    then err PolicyError.invalid_grant
    else ok tt

-- `GrantV1::new`
unfoldable pub new_grant : List Bytes → Bool → Bool → Bool → Bool → Result PolicyError GrantV1
unfolding canonical_tools validate_grant
new_grant tools memory knowledge sandbox communication = do
  allowed ← canonical_tools tools
  let grant : GrantV1 = record {
    allowed_tool_ids = allowed;
    memory_enabled = memory;
    knowledge_enabled = knowledge;
    sandbox_execution_allowed = sandbox;
    communication_allowed = communication;
  }
  validate_grant grant
  ok grant

unfoldable pub canonical_grant : GrantV1 → Result PolicyError GrantV1
unfolding new_grant
canonical_grant grant =
    new_grant grant.allowed_tool_ids grant.memory_enabled grant.knowledge_enabled
      grant.sandbox_execution_allowed grant.communication_allowed

abbrev pub deny_decision : AuthorizationDecisionV1
deny_decision = deny denied
