-- ===== src/Agent.antt =====
-- crates/agent/src/lib.rs: the errors, and the capability ceiling of one invocation.
use rust_factory.Common.{
  ℕ, Bool, false, not, ◌&&◌, ◌||◌, Option, none, some, List, [], ◌∷◌, Bytes, length, all, get_last?,
  Result, ok, err, ltb, leb, ◌==◌, if◌then◌else◌, is_ascii_lowercase, is_ascii_digit,
  is_ascii_alphanumeric,
}

pub data DefinitionError : Type 0 where
  invalid_id invalid_definition invalid_reference reference_unavailable : DefinitionError
  invalid_request limit_exceeded not_found builtin_protected : DefinitionError
  cancelled deadline_exceeded memory_denied knowledge_denied : DefinitionError
  sandbox_denied adapter_failure : DefinitionError
  unknown_tool tool_disallowed : Bytes → DefinitionError

abbrev pub max_capability_references : ℕ
max_capability_references = 64

pub record EffectiveCapabilityCeilingV1 : Type 0 where
  pub allowed_tool_ids : List Bytes
  pub memory_enabled : Bool
  pub knowledge_enabled : Bool
  pub sandbox_execution_allowed : Bool
  pub communication_allowed : Bool

abbrev is_edge : Option ℕ → Bool
is_edge none = false
is_edge (some byte) = is_ascii_alphanumeric byte

abbrev first : Bytes → Option ℕ
first [] = none
first (byte ∷ _) = some byte

unfoldable pub valid_reference : Bytes → Bool
valid_reference bytes =
    not (length bytes == 0)
    && leb (length bytes) 128
    && is_edge (first bytes)
    && is_edge (get_last? bytes)
    && all
        (λ byte.
          is_ascii_lowercase byte
          || is_ascii_digit byte
          || byte == b'-'
          || byte == b'_'
          || byte == b'.')
        bytes

unfoldable pub validate_effective_capability_ceiling :
    EffectiveCapabilityCeilingV1 → Result DefinitionError (Unit {0})
unfolding valid_reference
validate_effective_capability_ceiling ceiling =
    if ltb max_capability_references (length ceiling.allowed_tool_ids)
    then err invalid_definition
    else if all valid_reference ceiling.allowed_tool_ids
    then ok tt
    else err invalid_reference
