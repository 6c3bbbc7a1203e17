-- ===== src/Policy/Bytes.antt =====
-- crates/policy/src/lib.rs: the canonical bytes that a digest is taken of.
pub mod Binding
use rust_factory.Common.{
  ℕ, Bool, true, false, List, [], ◌∷◌, ◌++◌, Bytes, codes, length, Result, ok, err, ◌>>=◌,
}
use rust_factory.Common.Decimal.{decimal}
use rust_factory.Common.Framing.{field, fields}
use rust_factory.Policy.Model.{
  PolicyError, GrantV1, CapabilityV1, TrustedContextV1, AuthorizationRequestV1,
  AuthorizationDecisionV1, allow, deny, SafeDenyReasonV1, reason_as_str, as_str, canonical_grant,
}

abbrev pub boolean : Bool → Bytes
boolean true = codes "true"
boolean false = codes "false"

unfoldable pub grant_canonical_bytes : GrantV1 → Result PolicyError Bytes
unfolding canonical_grant
grant_canonical_bytes given = do
  grant ← canonical_grant given
  ok (
      fields (codes "policy-grant-v1" ∷ decimal (length grant.allowed_tool_ids) ∷ [])
      ++ (fields grant.allowed_tool_ids
          ++ fields (
              boolean grant.memory_enabled
              ∷ boolean grant.knowledge_enabled
              ∷ boolean grant.sandbox_execution_allowed
              ∷ boolean grant.communication_allowed
              ∷ [])))

abbrev pub request_bytes : AuthorizationRequestV1 → Bytes
request_bytes request = fields (
    codes "policy-decision-v1"
    ∷ request.context.tenant_id.text
    ∷ request.context.principal_id.text
    ∷ request.context.request_id.text
    ∷ request.context.correlation_id.text
    ∷ as_str request.capability
    ∷ [])

unfoldable pub decision_canonical_bytes :
    AuthorizationRequestV1 → AuthorizationDecisionV1 → Result PolicyError Bytes
decision_canonical_bytes request (allow effective_grant _) = do
  grant ← canonical_grant effective_grant
  ok (
      request_bytes request
      ++ (fields (codes "allow" ∷ codes "grant-present" ∷ [])
          ++ (fields (decimal (length grant.allowed_tool_ids) ∷ [])
              ++ (fields grant.allowed_tool_ids
                  ++ fields (
                      boolean grant.memory_enabled
                      ∷ boolean grant.knowledge_enabled
                      ∷ boolean grant.sandbox_execution_allowed
                      ∷ boolean grant.communication_allowed
                      ∷ [])))))
decision_canonical_bytes request (deny safe_reason) = ok (
    request_bytes request
    ++ fields (codes "deny" ∷ reason_as_str safe_reason ∷ codes "grant-absent" ∷ []))

-- `digest`: the lowercase hexadecimal SHA-256 of the `sha2` crate.
module _ (digest : Bytes → Bytes) where
  unfoldable pub grant_digest : GrantV1 → Result PolicyError Bytes
  grant_digest grant = do bytes ← grant_canonical_bytes grant; ok (digest bytes)

  unfoldable pub decision_digest :
      AuthorizationRequestV1 → AuthorizationDecisionV1 → Result PolicyError Bytes
  decision_digest request decision = do
    bytes ← decision_canonical_bytes request decision
    ok (digest bytes)

  unfoldable pub allow_decision :
      AuthorizationRequestV1 → GrantV1 → Result PolicyError AuthorizationDecisionV1
  unfolding decision_digest
  allow_decision request given = do
    effective_grant ← canonical_grant given
    digested ← decision_digest request (allow effective_grant [])
    ok (allow effective_grant digested)
