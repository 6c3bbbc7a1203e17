-- ===== src/Policy/Canonical.antt =====
-- Canonical grants: what `canonical_grant` accepts, and that it forgets order and repetition only.
use rust_factory.Common.{
  ◌≤◌, ◌≡◌, true, false, not, List, [], ◌∷◌, Bytes, length, any, All, ok, arith, nat_ord, list_ord,
}
use rust_factory.TreeSet.{
  collect, contains, IsAscending, collect-IsAscending, collect_ascending, contains-collect,
  ascending_ext,
}
use rust_factory.Policy.Model.{GrantV1, is_tool_id, max_tool_ids, canonical_grant}

any-All :
    (tools : List Bytes)
    → any (λ tool. not (is_tool_id tool)) tools ≡ false
    → All (λ tool. is_tool_id tool ≡ true) tools
any-All [] h = tt
any-All (tool ∷ tools) h = (ground arith, any-All tools (ground arith))

pub record IsCanonical (grant : GrantV1) : Type 0 where
  pub ascending : IsAscending grant.allowed_tool_ids
  pub bounded : length grant.allowed_tool_ids ≤ max_tool_ids
  pub named : any (λ tool. not (is_tool_id tool)) grant.allowed_tool_ids ≡ false

-- A grant that `canonical_grant` returns has strictly ascending tools, at most 64, each one a
-- valid tool identifier.
pub canonical_grant-IsCanonical :
    (grant out : GrantV1) → canonical_grant grant ≡ ok out → IsCanonical out
unfolding canonical_grant
canonical_grant-IsCanonical grant out h = ground (arith, collect-IsAscending grant.allowed_tool_ids)

pub canonical_grant_fixed : (grant : GrantV1) → IsCanonical grant → canonical_grant grant ≡ ok grant
unfolding canonical_grant
canonical_grant_fixed grant c = ground (arith, collect_ascending grant.allowed_tool_ids c.ascending)

-- Two grants with equal flags whose tool lists have the same elements, in any order and
-- repetition, have the same canonical form or the same error.
pub canonical_grant_ext :
    (grant : GrantV1) (tools : List Bytes)
    → ((tool : Bytes) → contains grant.allowed_tool_ids tool ≡ contains tools tool)
    → canonical_grant grant ≡ canonical_grant (record grant { allowed_tool_ids = tools })
unfolding canonical_grant
canonical_grant_ext grant tools h = rw (
    ascending_ext (collect grant.allowed_tool_ids) (collect tools)
      (collect-IsAscending grant.allowed_tool_ids) (collect-IsAscending tools)
      (λ tool.
        ground (
          arith,
          contains-collect grant.allowed_tool_ids tool,
          contains-collect tools tool,
          h tool,
        )))
