-- ===== src/Policy/Bytes/Binding.antt =====
-- The canonical bytes of a decision determine the request and the decision.
use mathlib.Core.List.{append-nil}
use rust_factory.Common.{
  ◌≡◌, ◌≢◌, refl, sym, ◌∙◌, Bool, List, [], ◌∷◌, ◌++◌, Bytes, codes, length, ok, >>=-ok, arith,
  nat_ord, list_ord,
}
use rust_factory.Common.Decimal.{decimal, decimal-injective}
use rust_factory.Policy.Model.{
  GrantV1, AuthorizationRequestV1, AuthorizationDecisionV1, allow, deny, denied, canonical_grant,
}
use rust_factory.Policy.Model.Capabilities.{as_str-injective}
use rust_factory.Policy.Bytes.{boolean, request_bytes, decision_canonical_bytes}
use rust_factory.Common.Framing.{field, fields, fields_split}

boolean-injective : (a b : Bool) → boolean a ≡ boolean b → a ≡ b
boolean-injective a b h = ground arith

request_split :
    (r q : AuthorizationRequestV1) (xs ys : Bytes)
    → request_bytes r ++ xs ≡ request_bytes q ++ ys
    → (r ≡ q) × (xs ≡ ys)
request_split r q xs ys h =
    let (heads, rest) = fields_split _ _ xs ys refl h in
    (ground (arith, as_str-injective r.capability q.capability, heads), rest)

-- The end of the encoding of an allowed grant.
abbrev pub grant_bytes : GrantV1 → Bytes
grant_bytes grant =
    fields (decimal (length grant.allowed_tool_ids) ∷ [])
    ++ (fields grant.allowed_tool_ids
        ++ fields (
            boolean grant.memory_enabled
            ∷ boolean grant.knowledge_enabled
            ∷ boolean grant.sandbox_execution_allowed
            ∷ boolean grant.communication_allowed
            ∷ []))

fields-injective : (vs ws : List Bytes) → length vs ≡ length ws → fields vs ≡ fields ws → vs ≡ ws
fields-injective vs ws l h =
    (fields_split vs ws [] [] l (append-nil (fields vs) ∙ h ∙ sym (append-nil (fields ws)))).0

grant_bytes-injective : (g k : GrantV1) → grant_bytes g ≡ grant_bytes k → g ≡ k
grant_bytes-injective g k h =
    let (counts, rest) = fields_split _ _ _ _ refl h in
    let count : length g.allowed_tool_ids ≡ length k.allowed_tool_ids =
      decimal-injective _ _ (cc counts) in
    let (tools, flags) = fields_split g.allowed_tool_ids k.allowed_tool_ids _ _ count rest in
    let last = fields-injective _ _ refl flags in
    ground (
      arith,
      tools,
      last,
      boolean-injective g.memory_enabled k.memory_enabled,
      boolean-injective g.knowledge_enabled k.knowledge_enabled,
      boolean-injective g.sandbox_execution_allowed k.sandbox_execution_allowed,
      boolean-injective g.communication_allowed k.communication_allowed,
    )

-- Equal kinds, and for two grants equal canonical forms.
abbrev pub SameDecision : AuthorizationDecisionV1 → AuthorizationDecisionV1 → Type 0
SameDecision (allow g _) (allow k _) = canonical_grant g ≡ canonical_grant k
SameDecision (deny _) (deny _) = Unit
SameDecision _ _ = ⊥

abbrev pub allow_bytes : GrantV1 → Bytes
allow_bytes grant = fields (codes "allow" ∷ codes "grant-present" ∷ []) ++ grant_bytes grant

abbrev deny_bytes : Bytes
deny_bytes = fields (codes "deny" ∷ codes "denied" ∷ codes "grant-absent" ∷ [])

kinds_differ : (grant : GrantV1) → allow_bytes grant ≢ deny_bytes
unfolding fields field decimal
kinds_differ grant h = ground (arith, h)

-- What an accepted allowance encodes.
allowed :
    (r : AuthorizationRequestV1) (g : GrantV1) (x bytes : Bytes)
    → decision_canonical_bytes r (allow g x) ≡ ok bytes
    → (g' : GrantV1) × (canonical_grant g ≡ ok g') × (request_bytes r ++ allow_bytes g' ≡ bytes)
unfolding decision_canonical_bytes
allowed r g x bytes h = let (g', b, e) = >>=-ok (canonical_grant g) _ h in (g', e, cc b)

refused :
    (r : AuthorizationRequestV1) (bytes : Bytes)
    → decision_canonical_bytes r (deny denied) ≡ ok bytes
    → request_bytes r ++ deny_bytes ≡ bytes
unfolding decision_canonical_bytes
refused r bytes h = cc

module _ (r q : AuthorizationRequestV1) where
  -- If two requests with decisions have the same canonical bytes, then the requests are equal, and
  -- the decisions are both denials or both allow grants with the same canonical form.
  pub decision_canonical_bytes-injective :
      (d e : AuthorizationDecisionV1) (bytes : Bytes)
      → decision_canonical_bytes r d ≡ ok bytes
      → decision_canonical_bytes q e ≡ ok bytes
      → (r ≡ q) × SameDecision d e
  decision_canonical_bytes-injective (allow g x) (allow k y) bytes h i =
      let (g', ge, gb) = allowed r g x bytes h in
      let (k', ke, kb) = allowed q k y bytes i in
      let (same_request, rest) =
        request_split r q (allow_bytes g') (allow_bytes k') (gb ∙ sym kb) in
      let (_, body) = fields_split _ _ (grant_bytes g') (grant_bytes k') refl rest in
      (same_request, cc (ge, ke, grant_bytes-injective g' k' body))
  decision_canonical_bytes-injective (allow g x) (deny denied) bytes h i =
      let (g', ge, gb) = allowed r g x bytes h in
      absurd (
        kinds_differ g'
          (request_split r q (allow_bytes g') deny_bytes (gb ∙ sym (refused q bytes i))).1)
  decision_canonical_bytes-injective (deny denied) (allow k y) bytes h i =
      let (k', ke, kb) = allowed q k y bytes i in
      absurd (
        kinds_differ k'
          (request_split q r (allow_bytes k') deny_bytes (kb ∙ sym (refused r bytes h))).1)
  decision_canonical_bytes-injective (deny denied) (deny denied) bytes h i = (
    (request_split r q deny_bytes deny_bytes (refused r bytes h ∙ sym (refused q bytes i))).0,
    tt,
  )
