-- ===== src/Policy/Resolver/Lookup.antt =====
-- The resolver answers by the configured records, and denies everything else.
use mathlib.Core.Path.{ap₂}
use rust_factory.Common.{
  ◌≡◌, refl, Option, none, some, List, [], ◌∷◌, ◌++◌, Bytes, Result, ok, err, arith, ◌∙◌,
  Bool-cases, >>=-ok, ap, same, same-eq, pair_ord, nat_ord, if◌then◌else◌, Result-cases, inl, inr,
}
use rust_factory.TreeMap.{Map, get, insert}
use rust_factory.TreeMap.Laws.{get-insert}
use rust_factory.Policy.Model.{
  PolicyError, GrantV1, AuthorizationRequestV1, allow, deny_decision, canonical_grant, tenant_ord,
  principal_ord,
}
use rust_factory.Policy.Model.Capabilities.{capability_ord}
use rust_factory.Policy.Bytes.{
  allow_decision, decision_digest, decision_canonical_bytes, request_bytes,
}
use rust_factory.Policy.Bytes.Binding.{allow_bytes}
use rust_factory.Policy.Canonical.{canonical_grant_fixed, canonical_grant-IsCanonical}
use rust_factory.Policy.Resolver.{GrantKeyV1, key_ord, StaticPolicyResolver, load, new, authorize}

-- The record of a key in the configuration.
abbrev pub find : GrantKeyV1 → List (GrantKeyV1 × GrantV1) → Option GrantV1
find key [] = none
find key ((k, grant) ∷ grants) = if same k key then some grant else find key grants

abbrev ok? : Result PolicyError GrantV1 → Option GrantV1
ok? (ok grant) = some grant
ok? (err _) = none

-- What one round of a successful construction did.
load-cons :
    (m out : Map GrantKeyV1 GrantV1) (k : GrantKeyV1) (given : GrantV1)
    (grants : List (GrantKeyV1 × GrantV1))
    → load m ((k, given) ∷ grants) ≡ ok out
    → (grant : GrantV1) × (canonical_grant given ≡ ok grant)
      × (get k m ≡ none)
      × (load (insert k grant m) grants ≡ ok out)
unfolding load
load-cons m out k given grants h = elim (Result-cases (canonical_grant given)) [
  | inl (c, e) ↦ (c, e, ground arith, ground arith)
  | inr (x, e) ↦ absurd (ground arith)
]

load-taken :
    (grants : List (GrantKeyV1 × GrantV1)) (m out : Map GrantKeyV1 GrantV1) (key : GrantKeyV1)
    (g : GrantV1)
    → load m grants ≡ ok out
    → get key m ≡ some g
    → find key grants ≡ none
load-taken [] m out key g h e = refl
load-taken ((k, given) ∷ grants) m out key g h e =
    let (c, ce, free, rest) = load-cons m out k given grants h in
    elim (Bool-cases (same k key)) [
      | inl hit ↦ absurd (taken (same-eq k key hit) free)
      | inr miss ↦
          rw miss
            (load-taken grants (insert k c m) out key g rest (get-insert k key c m ∙ rw miss e))
    ]
  where
    taken : k ≡ key → get k m ≡ none → ⊥
    taken p free = cc (rw p at free)

abbrev answer : Option GrantV1 → Option GrantV1 → Option GrantV1
answer none kept = kept
answer (some given) kept = ok? (canonical_grant given)

-- After a successful construction every configured key has its canonical grant.
load-find :
    (grants : List (GrantKeyV1 × GrantV1)) (m out : Map GrantKeyV1 GrantV1) (key : GrantKeyV1)
    → load m grants ≡ ok out
    → get key out ≡ answer (find key grants) (get key m)
unfolding load
load-find [] m out key h = ground arith
load-find ((k, given) ∷ grants) m out key h =
    let (c, ce, free, rest) = load-cons m out k given grants h in
    let later = load-find grants (insert k c m) out key rest in
    elim (Bool-cases (same k key)) [
      | inl hit ↦
          let put_in : get key (insert k c m) ≡ some c = get-insert k key c m ∙ rw hit in
          rw (hit, ce)
            (later ∙ ap₂ answer (load-taken grants (insert k c m) out key c rest put_in) put_in)
      | inr miss ↦ rw miss (later ∙ ap (answer (find key grants)) (get-insert k key c m ∙ rw miss))
    ]

load-canonical :
    (grants : List (GrantKeyV1 × GrantV1)) (m out : Map GrantKeyV1 GrantV1) (key : GrantKeyV1)
    (found : GrantV1)
    → load m grants ≡ ok out
    → find key grants ≡ some found
    → (grant : GrantV1) × (canonical_grant found ≡ ok grant)
load-canonical [] m out key found h e = absurd (cc)
load-canonical ((k, given) ∷ grants) m out key found h e =
    let (c, ce, free, rest) = load-cons m out k given grants h in
    elim (Bool-cases (same k key)) [
      | inl hit ↦
          let whole : some given ≡ some found = rw hit at e in
          let same_grant : found ≡ given = cc whole in (c, ap canonical_grant same_grant ∙ ce)
      | inr miss ↦ load-canonical grants (insert k c m) out key found rest (rw miss at e)
    ]

-- A canonical grant is allowed, with the digest of the request and the grant.
allow_canonical :
    (digest : Bytes → Bytes) (request : AuthorizationRequestV1) (grant : GrantV1)
    → canonical_grant grant ≡ ok grant
    → (bytes : Bytes) × (decision_canonical_bytes request (allow grant []) ≡ ok bytes)
      × (allow_decision digest request grant ≡ ok (allow grant (digest bytes)))
unfolding allow_decision decision_canonical_bytes
allow_canonical digest request grant e = (
  request_bytes request ++ allow_bytes grant,
  rw (e, decision_canonical_bytes),
  rw (e, allow_decision, decision_digest, decision_canonical_bytes, e),
)

new-load :
    (records : List (GrantKeyV1 × GrantV1)) (resolver : StaticPolicyResolver)
    → new records ≡ ok resolver
    → load [] records ≡ ok resolver.grants
unfolding new
new-load records resolver h =
    let (out, wrapped, e) = >>=-ok (load [] records) _ h in ground (arith, e, wrapped)

module _ (digest : Bytes → Bytes) (records : List (GrantKeyV1 × GrantV1))
    (resolver : StaticPolicyResolver) (built : new records ≡ ok resolver)
    (request : AuthorizationRequestV1) where
  -- What the request names: its tenant, its principal and its capability.
  abbrev asked : GrantKeyV1
  asked = record {
    tenant_id = request.context.tenant_id;
    principal_id = request.context.principal_id;
    capability = request.capability;
  }

  resolved : get (asked) resolver.grants ≡ answer (find (asked) records) none
  unfolding get
  resolved = load-find records [] resolver.grants (asked) (new-load records resolver built)

  -- A resolver built from records denies every request whose tenant, principal and capability no
  -- record names.
  pub authorize_unlisted :
      find (asked) records ≡ none → authorize digest resolver request ≡ deny_decision
  unfolding authorize
  authorize_unlisted h = ground (arith, resolved, h)

  -- A resolver built from records allows a request whose key a record names; the effective grant
  -- is the canonical form of that record's grant, and the digest is that of the canonical bytes of
  -- the request and this grant.
  pub authorize_listed :
      (given : GrantV1)
      → find (asked) records ≡ some given
      → (grant : GrantV1) × (bytes : Bytes) × (canonical_grant given ≡ ok grant)
        × (decision_canonical_bytes request (allow grant []) ≡ ok bytes)
        × (authorize digest resolver request ≡ allow grant (digest bytes))
  unfolding authorize
  authorize_listed given h =
      let (grant, c) =
        load-canonical records [] resolver.grants (asked) given (new-load records resolver built)
          h in
      let fixed = canonical_grant_fixed grant (canonical_grant-IsCanonical given grant c) in
      let (bytes, b, a) = allow_canonical digest request grant fixed in
      (grant, bytes, c, b, ground (arith, resolved, h, c, a))
