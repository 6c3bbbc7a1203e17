-- ===== src/Memory/Store/Bounds.antt =====
-- The capacity rules and the addressing that every state of `InProcessStore` keeps.
use rust_factory.Common.{
  ◌≡◌, refl, ap, ℕ, ◌≤◌, ◌+◌, Bool, false, Option, none, some, Option-cases, List, [], ◌∷◌, Bytes,
  length, ok, Result-cases, nat_ord, list_ord, arith, inl, inr,
}
use rust_factory.TreeMap.{Map, get, insert, remove, IsSorted}
use rust_factory.TreeMap.Laws.{insert-IsSorted, remove-IsSorted}
use rust_factory.TreeMap.Size.{insert_within, length-remove}
use rust_factory.TreeMap.Every.{Every, Every-insert, Every-remove, Every-get}
use rust_factory.TreeMap.Nested.{or_empty, put_back}
use rust_factory.Memory.Validation.{check_capacity, max_partition_records, max_tenant_namespaces}
use rust_factory.Memory.Checks.{validate_record}
use rust_factory.Memory.Model.{TenantId, Namespace, RecordKey, MemoryRecord, MemoryQuery}
use rust_factory.Memory.Store.{
  InProcessStore, new, Tenant, Partition, is_none, put, get_record, query_records, delete,
}
use rust_factory.Memory.Store.Refinement.Puts.{
  tenant, held, written, allowed, put_refused, put_full, put_done,
}
use rust_factory.Memory.Store.Refinement.Deletes.{delete_nothing, delete_done}
use rust_factory.Memory.Store.Flat.{Call, put_call, get_call, query_call, delete_call, answer}

-- A stored record passed validation and lies under its own tenant, namespace and key.
abbrev pub IsPlaced : Bytes → Bytes → Bytes → MemoryRecord → Type 0
IsPlaced t n k item =
    (validate_record item ≡ ok tt)
    × ((item.tenant_id.text ≡ t) × ((item.namespace.text ≡ n) × (item.key.text ≡ k)))

abbrev pub IsBoundedPartition : Bytes → Bytes → Partition → Type 0
IsBoundedPartition t n p =
    (length p ≤ max_partition_records) × (IsSorted p × Every (IsPlaced t n) p)

abbrev pub IsBoundedTenant : Bytes → Tenant → Type 0
IsBoundedTenant t x =
    (length x ≤ max_tenant_namespaces) × (IsSorted x × Every (IsBoundedPartition t) x)

abbrev pub IsBounded : InProcessStore → Type 0
IsBounded s = (s.poisoned ≡ false) × Every IsBoundedTenant s.tenants

pub held_tenant :
    (t : Bytes) (m : Map Bytes Tenant)
    → Every IsBoundedTenant m
    → IsBoundedTenant t (or_empty (get t m))
held_tenant t m b = elim (Option-cases (get t m)) [
  | inl e ↦ rw e (omega arith, (tt, tt))
  | inr (x, e) ↦ rw e (Every-get IsBoundedTenant t x m b e)
]

pub held_partition :
    (t n : Bytes) (x : Tenant) → IsBoundedTenant t x → IsBoundedPartition t n (or_empty (get n x))
held_partition t n x b = elim (Option-cases (get n x)) [
  | inl e ↦ rw e (omega arith, (tt, tt))
  | inr (p, e) ↦ rw e (Every-get (IsBoundedPartition t) n p x b.1.1 e)
]

room_for_namespace :
    (a c : ℕ) (d : Bool) (e : Option Partition)
    → check_capacity a (is_none e) c d ≡ ok tt
    → e ≡ none
    → a + 1 ≤ max_tenant_namespaces
unfolding check_capacity
room_for_namespace a c d e h v = ground (arith, h, v)

room_for_key :
    (a c : ℕ) (b : Bool) (e : Option MemoryRecord)
    → check_capacity a b c (is_none e) ≡ ok tt
    → e ≡ none
    → c + 1 ≤ max_partition_records
unfolding check_capacity
room_for_key a c b e h v = ground (arith, h, v)

module _ (item : MemoryRecord) (m : Map Bytes Tenant) (b : Every IsBoundedTenant m) where
  abbrev before_tenant : IsBoundedTenant item.tenant_id.text (tenant item m)
  before_tenant = held_tenant item.tenant_id.text m b

  abbrev before_partition : IsBoundedPartition item.tenant_id.text item.namespace.text (held item m)
  before_partition =
      held_partition item.tenant_id.text item.namespace.text (tenant item m) before_tenant

  written_bounded :
      validate_record item ≡ ok tt
      → allowed item m ≡ ok tt
      → IsBoundedTenant item.tenant_id.text (written item m)
  written_bounded h f =
      let (few, (sorted, placed)) = before_partition in
      let (space, (ordered, bounded)) = before_tenant in
      let filled : Partition = insert item.key.text item (held item m) in
      (
        insert_within item.namespace.text filled (tenant item m) max_tenant_namespaces ordered space
            (room_for_namespace _ _ _ _ f),
        (
          insert-IsSorted item.namespace.text filled (tenant item m) ordered,
          Every-insert (IsBoundedPartition item.tenant_id.text) item.namespace.text filled
              (tenant item m)
              (
                insert_within item.key.text item (held item m) max_partition_records sorted few
                    (room_for_key _ _ _ _ f),
                (
                  insert-IsSorted item.key.text item (held item m) sorted,
                  Every-insert (IsPlaced item.tenant_id.text item.namespace.text) item.key.text item
                      (held item m) (h, (refl, (refl, refl))) placed,
                ),
              )
              bounded,
        ),
      )

  put-IsBounded : IsBounded (put item (record { tenants = m; poisoned = false })).1
  put-IsBounded = elim (Result-cases (validate_record item)) [
    | inr (e, h) ↦ rw (put_refused item m e h) (refl, b)
    | inl (tt, h) ↦ elim (Result-cases (allowed item m)) [
      | inr (e, f) ↦
          rw (put_full item m e h f) (
            refl,
            Every-insert IsBoundedTenant item.tenant_id.text (tenant item m) m before_tenant b,
          )
      | inl (tt, f) ↦ rw (put_done item m h f) (
        refl,
        Every-insert IsBoundedTenant item.tenant_id.text (written item m) m (written_bounded h f) b,
      )
    ]
  ]

remove_bounded :
    (t n : Bytes) (k : RecordKey) (p : Partition)
    → IsBoundedPartition t n p
    → IsBoundedPartition t n (remove k.text p)
remove_bounded t n k p (few, (sorted, placed)) = (
  omega (arith, few, length-remove k.text p),
  (remove-IsSorted k.text p sorted, Every-remove (IsPlaced t n) k.text p placed),
)

put_back_bounded :
    (t n : Bytes) (x : Tenant) (q p : Partition)
    → IsBoundedTenant t x
    → get n x ≡ some q
    → IsBoundedPartition t n p
    → IsBoundedTenant t (put_back n p x)
put_back_bounded t n x q [] (space, (ordered, bounded)) e b = (
  omega (arith, space, length-remove n x),
  (remove-IsSorted n x ordered, Every-remove (IsBoundedPartition t) n x bounded),
)
put_back_bounded t n x q (r ∷ p) (space, (ordered, bounded)) e b = (
  insert_within n (r ∷ p) x max_tenant_namespaces ordered space (λ v. absurd (cc (v, e))),
  (insert-IsSorted n (r ∷ p) x ordered, Every-insert (IsBoundedPartition t) n (r ∷ p) x b bounded),
)

tenants_bounded :
    (t : Bytes) (m : Map Bytes Tenant) (x : Tenant)
    → Every IsBoundedTenant m
    → IsBoundedTenant t x
    → Every IsBoundedTenant (put_back t x m)
tenants_bounded t m [] b f = Every-remove IsBoundedTenant t m b
tenants_bounded t m (y ∷ x) b f = Every-insert IsBoundedTenant t (y ∷ x) m f b

module _ (t : TenantId) (n : Namespace) (k : RecordKey) (m : Map Bytes Tenant)
    (b : Every IsBoundedTenant m) where
  nothing-IsBounded :
      get n.text (or_empty (get t.text m)) ≡ none
      → IsBounded (delete t n k (record { tenants = m; poisoned = false })).1
  nothing-IsBounded h = rw (delete_nothing t n m k h) (refl, b)

  delete-IsBounded : IsBounded (delete t n k (record { tenants = m; poisoned = false })).1
  delete-IsBounded = elim (Option-cases (get t.text m)) [
    | inl e ↦ nothing-IsBounded (rw e (unfold get in refl))
    | inr (x, e) ↦
        let x_bounded : IsBoundedTenant t.text x = Every-get IsBoundedTenant t.text x m b e in
        elim (Option-cases (get n.text x)) [
          | inl f ↦ nothing-IsBounded (rw (e, f) refl)
          | inr (p, f) ↦
              let p_bounded : IsBoundedPartition t.text n.text p =
                Every-get (IsBoundedPartition t.text) n.text p x x_bounded.1.1 f in
              rw (delete_done t n m k x p e f) (
                refl,
                tenants_bounded t.text m (put_back n.text (remove k.text p) x) b (
                    put_back_bounded t.text n.text x p (remove k.text p) x_bounded f
                      (remove_bounded t.text n.text k p p_bounded)),
              )
        ]
  ]

query_state :
    (t : TenantId) (n : Namespace) (q : MemoryQuery) (s : InProcessStore)
    → (query_records t n q s).1 ≡ s
unfolding query_records
query_state t n q s = ground (arith)

call-IsBounded :
    (c : Call) (m : Map Bytes Tenant)
    → Every IsBoundedTenant m
    → IsBounded (answer c (record { tenants = m; poisoned = false })).1
unfolding answer
call-IsBounded (put_call item) m b = put-IsBounded item m b
call-IsBounded (get_call t n k) m b = unfold get_record in (refl, b)
call-IsBounded (query_call t n q) m b =
    rw (query_state t n q (record { tenants = m; poisoned = false })) (refl, b)
call-IsBounded (delete_call t n k) m b = delete-IsBounded t n k m b

-- The state after a sequence of calls.
unfoldable pub after : List Call → InProcessStore → InProcessStore
after [] s = s
after (call ∷ calls) s = after calls (answer call s).1

after-IsBounded : (calls : List Call) (s : InProcessStore) → IsBounded s → IsBounded (after calls s)
unfolding after
after-IsBounded [] s b = b
after-IsBounded (c ∷ calls) s (clear, b) =
    let clean : s ≡ record { tenants = s.tenants; poisoned = false } =
      ap (λ p. record { tenants = s.tenants; poisoned = p }) clear in
    after-IsBounded calls (answer c s).1 (rw clean (call-IsBounded c s.tenants b))

-- After any calls on a new `InProcessStore` each tenant has at most 64 namespaces, each namespace
-- at most 4,096 records in the order of their keys, and every record that is held passed
-- `validate_record` and lies under its own tenant, namespace and key.
pub new_within_bounds : (calls : List Call) → IsBounded (after calls new)
new_within_bounds calls = after-IsBounded calls new (refl, tt)
