-- ===== src/Tests/Grants.antt =====
-- crates/policy on the grants of its own tests.
use rust_factory.Common.{
  ◌≡◌, refl, true, false, List, [], ◌∷◌, ◌++◌, Bytes, codes, ok, arith, nat_ord, list_ord, pair_ord,
}
use rust_factory.Common.Decimal.{decimal}
use rust_factory.TreeSet.{contains}
use rust_factory.Policy.Model.{
  agent_invoke, workflow_start, GrantV1, AuthorizationRequestV1, allow, deny_decision, as_str,
  canonical_grant,
}
use rust_factory.Policy.Canonical.{IsCanonical, canonical_grant-IsCanonical, canonical_grant_ext}
use rust_factory.Common.Framing.{fields, field}
use rust_factory.Policy.Bytes.{decision_canonical_bytes}
use rust_factory.Policy.Bytes.Binding.{SameDecision, decision_canonical_bytes-injective}
use rust_factory.Policy.Resolver.{GrantKeyV1, StaticPolicyResolver, new, request_key, authorize}
use rust_factory.Policy.Resolver.Lookup.{authorize_listed, authorize_unlisted}

abbrev request : AuthorizationRequestV1
request = record {
  context = record {
    tenant_id = record { text = codes "tenant" };
    principal_id = record { text = codes "principal" };
    request_id = record { text = codes "request" };
    correlation_id = record { text = codes "correlation" };
  };
  capability = agent_invoke;
}

abbrev grant_of : List Bytes → GrantV1
grant_of tools = record {
  allowed_tool_ids = tools;
  memory_enabled = true;
  knowledge_enabled = false;
  sandbox_execution_allowed = true;
  communication_allowed = false;
}

abbrev unsorted : GrantV1
unsorted = grant_of (codes "tool-b" ∷ codes "tool-a" ∷ codes "tool-a" ∷ [])

abbrev sorted : GrantV1
sorted = grant_of (codes "tool-a" ∷ codes "tool-b" ∷ [])

sorted_form : canonical_grant unsorted ≡ ok sorted
unfolding canonical_grant
sorted_form = refl

canonical_grant-IsCanonical_example : IsCanonical sorted
canonical_grant-IsCanonical_example = canonical_grant-IsCanonical unsorted sorted sorted_form

canonical_grant_ext_example :
    canonical_grant unsorted ≡ canonical_grant (grant_of (codes "tool-a" ∷ codes "tool-b" ∷ []))
canonical_grant_ext_example =
    canonical_grant_ext unsorted (codes "tool-a" ∷ codes "tool-b" ∷ []) same_tools
  where
    same_tools :
        (tool : Bytes)
        → contains unsorted.allowed_tool_ids tool
          ≡ contains (codes "tool-a" ∷ codes "tool-b" ∷ []) tool
    same_tools tool = ground arith

abbrev denial_bytes : Bytes
denial_bytes =
    codes "18:policy-decision-v1"
    ++ 10
      ∷ (codes "6:tenant"
          ++ 10
            ∷ (codes "9:principal"
                ++ 10
                  ∷ (codes "7:request"
                      ++ 10
                        ∷ (codes "11:correlation"
                            ++ 10
                              ∷ (codes "12:agent_invoke"
                                  ++ 10
                                    ∷ (codes "4:deny"
                                        ++ 10
                                          ∷ (codes "6:denied"
                                              ++ 10 ∷ (codes "12:grant-absent" ++ 10 ∷ []))))))))

-- The golden text of the crate's test.
denial_text : decision_canonical_bytes request deny_decision ≡ ok denial_bytes
unfolding decision_canonical_bytes fields field decimal as_str
denial_text = refl

decision_canonical_bytes-injective_example :
    (request ≡ request) × SameDecision deny_decision deny_decision
decision_canonical_bytes-injective_example =
    decision_canonical_bytes-injective request request deny_decision deny_decision denial_bytes
      denial_text denial_text

abbrev records : List (GrantKeyV1 × GrantV1)
records = (request_key request, unsorted) ∷ []

-- A stand-in for the digest of the `sha2` crate.
abbrev first_byte : Bytes → Bytes
first_byte [] = []
first_byte (byte ∷ _) = byte ∷ []

abbrev resolver : StaticPolicyResolver
resolver = record { grants = (request_key request, sorted) ∷ [] }

resolver_built : new records ≡ ok resolver
unfolding new
resolver_built = refl

authorize_listed_example :
    (grant : GrantV1) × (bytes : Bytes) × (canonical_grant unsorted ≡ ok grant)
    × (decision_canonical_bytes request (allow grant []) ≡ ok bytes)
    × (authorize first_byte resolver request ≡ allow grant (first_byte bytes))
authorize_listed_example =
    authorize_listed first_byte records resolver resolver_built request unsorted refl

abbrev other_request : AuthorizationRequestV1
other_request = record request { capability = workflow_start }

authorize_unlisted_example : authorize first_byte resolver other_request ≡ deny_decision
authorize_unlisted_example =
    authorize_unlisted first_byte records resolver resolver_built other_request refl
