-- ===== src/Policy/Resolver.antt =====
-- crates/policy/src/memory.rs: the process-local resolver over configured grants.
pub mod Lookup
use rust_factory.Common.{
  ℕ, zero, suc, ◌≡◌, refl, ap, Bool, Option, none, some, List, [], ◌∷◌, Bytes, length, Result, ok,
  err, refuse, map_err, ◌>>=◌, ◌>>◌, leb, Ord, ord_by, nat_ord, pair_ord,
}
use rust_factory.TreeMap.{Map, get, insert}
use rust_factory.Policy.Model.{
  PolicyError, TenantId, PrincipalId, tenant_ord, principal_ord, CapabilityV1, GrantV1,
  AuthorizationRequestV1, AuthorizationDecisionV1, deny_decision, canonical_grant,
}
use rust_factory.Policy.Model.Capabilities.{capability_ord}
use rust_factory.Policy.Bytes.{allow_decision}

abbrev pub max_static_grant_records : ℕ
max_static_grant_records = 1024

pub record GrantKeyV1 : Type 0 where
  pub tenant_id : TenantId
  pub principal_id : PrincipalId
  pub capability : CapabilityV1

abbrev pub key_tuple : GrantKeyV1 → TenantId × (PrincipalId × CapabilityV1)
key_tuple key = (key.tenant_id, (key.principal_id, key.capability))

instance abbrev pub key_ord : Ord GrantKeyV1
key_ord =
    ord_by key_tuple
      (λ a b p i. record { tenant_id = (p i).0; principal_id = (p i).1.0; capability = (p i).1.1 })

pub data StaticPolicyResolverError : Type 0 where
  duplicate_grant_key : StaticPolicyResolverError
  invalid_grant : PolicyError → StaticPolicyResolverError
  limit_exceeded : StaticPolicyResolverError

pub record StaticPolicyResolver : Type 0 where
  pub grants : Map GrantKeyV1 GrantV1

-- The loop of `StaticPolicyResolver::new`.
unfoldable pub load :
    Map GrantKeyV1 GrantV1
    → List (GrantKeyV1 × GrantV1)
    → Result StaticPolicyResolverError (Map GrantKeyV1 GrantV1)
unfolding canonical_grant get insert
load resolved [] = ok resolved
load resolved ((key, given) ∷ grants) = do
  refuse (leb max_static_grant_records (length resolved)) limit_exceeded
  grant ← map_err invalid_grant (canonical_grant given)
  elim (get key resolved) [
    | none ↦ load (insert key grant resolved) grants
    | some _ ↦ err duplicate_grant_key
  ]

-- `StaticPolicyResolver::new`
unfoldable pub new :
    List (GrantKeyV1 × GrantV1) → Result StaticPolicyResolverError StaticPolicyResolver
unfolding load
new grants = do resolved ← load [] grants; ok (record { grants = resolved })

abbrev pub request_key : AuthorizationRequestV1 → GrantKeyV1
request_key request = record {
  tenant_id = request.context.tenant_id;
  principal_id = request.context.principal_id;
  capability = request.capability;
}

abbrev pub or_deny : Result PolicyError AuthorizationDecisionV1 → AuthorizationDecisionV1
or_deny (ok decision) = decision
or_deny (err _) = deny_decision

module _ (digest : Bytes → Bytes) where
  -- `authorize`
  unfoldable pub authorize : StaticPolicyResolver → AuthorizationRequestV1 → AuthorizationDecisionV1
  unfolding get allow_decision
  authorize resolver request = elim (get (request_key request) resolver.grants) [
    | none ↦ deny_decision
    | some grant ↦ or_deny (allow_decision digest request grant)
  ]
