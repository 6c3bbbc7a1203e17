-- ===== src/Memory/Service/Scoping.antt =====
-- What the service lets through, whatever its adapter answers.
use rust_factory.Common.{
  ◌≡◌, sym, ◌≤◌, true, false, Option, none, some, List, length, take, keep_if, All, All-take,
  All-keep_if, length-take, ok, Result-cases, ltb, same-eq, nat_ord, list_ord, arith, Bool-cases,
  inl, inr,
}
use rust_factory.Memory.Validation.{max_query_limit}
use rust_factory.Memory.Checks.{validate_query}
use rust_factory.Memory.Model.{Namespace, RecordKey, MemoryRecord, MemoryQuery}
use rust_factory.Memory.Service.{MemoryService, MemoryContext, is_addressed, search, recall}

-- The record is one of the context's tenant, in the namespace that was asked for.
abbrev pub IsOwn : MemoryContext → Namespace → MemoryRecord → Type 0
IsOwn context namespace item =
    (item.tenant_id.text ≡ context.tenant_id.text) × (item.namespace.text ≡ namespace.text)

addressed-IsOwn :
    (context : MemoryContext) (namespace : Namespace) (key : Option RecordKey) (item : MemoryRecord)
    → is_addressed context namespace key item ≡ true
    → IsOwn context namespace item
unfolding is_addressed
addressed-IsOwn context namespace key item h = (
  same-eq item.tenant_id.text context.tenant_id.text (ground (arith)),
  same-eq item.namespace.text namespace.text (ground (arith)),
)

addressed_key :
    (context : MemoryContext) (namespace : Namespace) (key : RecordKey) (item : MemoryRecord)
    → is_addressed context namespace (some key) item ≡ true
    → item.key.text ≡ key.text
unfolding is_addressed
addressed_key context namespace key item h = same-eq item.key.text key.text (ground (arith))

limit_bounded : (query : MemoryQuery) → validate_query query ≡ ok tt → query.limit ≤ max_query_limit
unfolding validate_query
limit_bounded query h = ground (arith)

module _ {S : Type 0} (service : MemoryService S) (context : MemoryContext)
    (namespace : Namespace) where
  searched :
      (query : MemoryQuery) (s : S) (items : List MemoryRecord)
      → (search service context namespace query s).0 ≡ ok items
      → (validate_query query ≡ ok tt)
        × ((ltb service.result_ceiling query.limit ≡ false)
            × ((found : List MemoryRecord) × (take query.limit
                    (keep_if (is_addressed context namespace none) found)
                  ≡ items)))
  unfolding search
  searched query s items h = elim (Result-cases (validate_query query)) [
    | inr (e, v) ↦ absurd (ground (arith, v))
    | inl (tt, v) ↦ elim (Bool-cases (ltb service.result_ceiling query.limit)) [
      | inl c ↦ absurd (ground (arith, v, c))
      | inr c ↦ elim (Result-cases (service.store.query context.tenant_id namespace query s).0) [
        | inr (e, q) ↦ absurd (ground (arith, v, c, q))
        | inl (found, q) ↦ (v, (c, (found, ground (arith, v, c, q))))
      ]
    ]
  ]

  -- Whatever the adapter answers, a search of the service that succeeds gives at most as many
  -- records as were asked for, within the service's ceiling and 256, each of the context's tenant
  -- and in the namespace asked for.
  pub search_scoped :
      (query : MemoryQuery) (s : S) (items : List MemoryRecord)
      → (search service context namespace query s).0 ≡ ok items
      → All (IsOwn context namespace) items
        × ((length items ≤ query.limit)
            × ((query.limit ≤ service.result_ceiling) × (query.limit ≤ max_query_limit)))
  unfolding search
  search_scoped query s items h =
      let (valid, (within, (found, kept))) = searched query s items h in
      (
        rw (sym kept) (
            All-take (IsOwn context namespace) query.limit _ (
              All-keep_if (IsOwn context namespace) (is_addressed context namespace none) found
                (λ item. addressed-IsOwn context namespace none item))),
        (
          rw (sym kept) (length-take query.limit _),
          (ground (arith, within), limit_bounded query valid),
        ),
      )

  -- A record that is recalled is the one that was asked for.
  pub recall_scoped :
      (key : RecordKey) (s : S) (item : MemoryRecord)
      → (recall service context namespace key s).0 ≡ ok (some item)
      → IsOwn context namespace item × (item.key.text ≡ key.text)
  unfolding recall
  recall_scoped key s item h =
      elim (Result-cases (service.store.get context.tenant_id namespace key s).0) [
        | inr (e, q) ↦ absurd (ground (arith, q))
        | inl (none, q) ↦ absurd (ground (arith, q))
        | inl (some found, q) ↦
            elim (Bool-cases (is_addressed context namespace (some key) found)) [
              | inl own ↦
                  let kept : found ≡ item = ground (arith, q, own) in
                  rw (sym kept) (
                    addressed-IsOwn context namespace (some key) found own,
                    addressed_key context namespace key found own,
                  )
              | inr other ↦ absurd (ground (arith, q, other))
            ]
      ]
