-- ===== src/Memory/Service/Searches.antt =====
-- A search of the service over `InProcessStore`: what its own filter and truncation remove.
use rust_factory.Common.{
  ◌≡◌, refl, sym, ap, ◌∙◌, ℕ, ◌≤◌, Bool, true, false, none, List, [], ◌∷◌, take, keep_if, All,
  All-take, zero, suc, map, ok, err, Result-cases, ltb, same_refl, nat_ord, list_ord, pair_ord,
  arith, Bool-cases, inl, inr,
}
use rust_factory.TreeMap.{get}
use rust_factory.TreeMap.Every.{Every}
use rust_factory.TreeMap.Nested.{or_empty}
use rust_factory.Memory.Errors.{MemoryError}
use rust_factory.Memory.Checks.{validate_query}
use rust_factory.Memory.Model.{Namespace, Timestamp, MemoryRecord, MemoryQuery, matches}
use rust_factory.Memory.Store.{InProcessStore, Partition, query_records}
use rust_factory.Memory.Store.Bounds.{IsBounded, IsPlaced, held_tenant, held_partition}
use rust_factory.Memory.Service.{MemoryContext, is_addressed, search}
use rust_factory.Memory.Service.Composed.{service_over}

take-take {ℓ} : {A : Type ℓ} (n : ℕ) (xs : List A) → take n (take n xs) ≡ take n xs
take-take zero xs = refl
take-take (suc n) [] = refl
take-take (suc n) (x ∷ xs) = ap (◌∷◌ x) (take-take n xs)

module _ {ℓ κ} {A : Type ℓ} (P : A → Type κ) where
  All-filtered : (p : A → Bool) (xs : List A) → All P xs → All P (keep_if p xs)
  All-filtered p [] h = tt
  All-filtered p (x ∷ xs) h = elim (Bool-cases (p x)) [
    | inl e ↦ rw e (h.0, All-filtered p xs h.1)
    | inr e ↦ rw e (All-filtered p xs h.1)
  ]

module _ {ℓ} {A : Type ℓ} where
  keep_if-id : (p : A → Bool) (xs : List A) → All (λ x. p x ≡ true) xs → keep_if p xs ≡ xs
  keep_if-id p [] h = refl
  keep_if-id p (x ∷ xs) h = rw (h.0, keep_if-id p xs h.1) refl

values_addressed :
    (context : MemoryContext) (namespace : Namespace) (p : Partition)
    → Every (IsPlaced context.tenant_id.text namespace.text) p
    → All (λ item. is_addressed context namespace none item ≡ true) (map (λ entry. entry.1) p)
unfolding is_addressed
values_addressed context namespace [] h = tt
values_addressed context namespace ((k, item) ∷ p) h = (
  rw (h.0.1.0, h.0.1.1.0, same_refl context.tenant_id.text, same_refl namespace.text) refl,
  values_addressed context namespace p h.1,
)

module _ (now : Timestamp) (ceiling : ℕ) (context : MemoryContext) (namespace : Namespace) where
  abbrev contents : InProcessStore → Partition
  contents s = or_empty (get namespace.text (or_empty (get context.tenant_id.text s.tenants)))

  abbrev answered : MemoryQuery → InProcessStore → List MemoryRecord
  answered query s =
      take query.limit (keep_if (matches query) (map (λ entry. entry.1) (contents s)))

  query_answer :
      (query : MemoryQuery) (s : InProcessStore)
      → validate_query query ≡ ok tt
      → s.poisoned ≡ false
      → (query_records context.tenant_id namespace query s).0 ≡ ok (answered query s)
  unfolding query_records
  query_answer query s v clear = rw (v, clear) refl

  query_invalid :
      (query : MemoryQuery) (s : InProcessStore) (e : MemoryError)
      → validate_query query ≡ err e
      → (query_records context.tenant_id namespace query s).0 ≡ err e
  unfolding query_records
  query_invalid query s e v = rw v refl

  abbrev Addressed : MemoryRecord → Type 0
  Addressed item = is_addressed context namespace none item ≡ true

  nothing_dropped :
      (query : MemoryQuery) (s : InProcessStore)
      → IsBounded s
      → take query.limit (keep_if (is_addressed context namespace none) (answered query s))
        ≡ answered query s
  nothing_dropped query s b =
      let values = map (λ entry. entry.1) (contents s) in
      let tenant = held_tenant context.tenant_id.text s.tenants b.1 in
      let partition = held_partition context.tenant_id.text namespace.text _ tenant in
      let own : All Addressed (answered query s) =
        All-take Addressed query.limit (keep_if (matches query) values) (
          All-filtered Addressed (matches query) values
            (values_addressed context namespace (contents s) partition.1.1)) in
      ap (take query.limit)
        (keep_if-id (is_addressed context namespace none) (answered query s) own)
      ∙ take-take query.limit (keep_if (matches query) values)

  search_invalid :
      (query : MemoryQuery) (s : InProcessStore) (e : MemoryError)
      → validate_query query ≡ err e
      → (search (service_over now ceiling) context namespace query s).0 ≡ err e
  unfolding search
  search_invalid query s e v = rw v refl

  searched :
      (query : MemoryQuery) (s : InProcessStore)
      → validate_query query ≡ ok tt
      → IsBounded s
      → query.limit ≤ ceiling
      → (search (service_over now ceiling) context namespace query s).0 ≡ ok (answered query s)
  unfolding search
  searched query s v b within =
      let room : ltb ceiling query.limit ≡ false = ground (arith, within) in
      rw (v, room, query_answer query s v b.0) (ap ok (nothing_dropped query s b))

  -- Over an `InProcessStore` within its bounds, a search of the service within its ceiling is the
  -- store's own answer, errors included: the filter and the truncation that the service adds
  -- against a hostile adapter remove nothing.
  pub search-in_process :
      (query : MemoryQuery) (s : InProcessStore)
      → IsBounded s
      → query.limit ≤ ceiling
      → (search (service_over now ceiling) context namespace query s).0
        ≡ (query_records context.tenant_id namespace query s).0
  search-in_process query s b within = elim (Result-cases (validate_query query)) [
    | inr (e, v) ↦ search_invalid query s e v ∙ sym (query_invalid query s e v)
    | inl (tt, v) ↦ searched query s v b within ∙ sym (query_answer query s v b.0)
  ]
