-- ===== src/Memory/Store/Refinement/Deletes.antt =====
-- `get`, `query` and `delete` against the flat map.
use rust_factory.Common.{
  ◌≡◌, refl, sym, ap, ◌∙◌, false, not, none, some, Option-cases, [], ◌∷◌, Bytes, take, keep_if, ok,
  Result-cases, nat_ord, list_ord, pair_ord, arith, inl, inr,
}
use rust_factory.TreeMap.{Map, get, remove, IsSorted}
use rust_factory.TreeMap.Laws.{insert-IsSorted, remove-IsSorted, remove_missing}
use rust_factory.TreeMap.Every.{Every, Every-insert, Every-remove, Every-get}
use rust_factory.TreeMap.Nested.{or_empty, put_back}
use rust_factory.TreeMap.Nested.Scopes.{IsFilled}
use rust_factory.TreeMap.Nested.Deep.{deep, get-deep, deep-put_back}
use rust_factory.TreeMap.Nested.Partitions.{partition-deep}
use rust_factory.Memory.Checks.{validate_query}
use rust_factory.Memory.Model.{TenantId, Namespace, RecordKey, MemoryQuery, matches}
use rust_factory.Memory.Store.{Tenant, Partition, is_none, get_record, query_records, delete}
use rust_factory.Memory.Store.Flat.{FlatStore, flat_get, flat_query, flat_delete}
use rust_factory.Memory.Store.Refinement.Invariant.{Kept, Agree, Kept-put_back}

module _ (t : TenantId) (n : Namespace) (m : Map Bytes Tenant) where
  pub get_agrees :
      (k : RecordKey)
      → Kept m
      → Agree
          (get_record t n k (record { tenants = m; poisoned = false }))
          (flat_get t n k (deep m))
  unfolding get_record flat_get
  get_agrees k kept =
      (ap ok (sym (get-deep t.text n.text k.text m kept.0 kept.1.0)), (refl, (refl, kept)))

  pub query_agrees :
      (q : MemoryQuery)
      → Kept m
      → Agree
          (query_records t n q (record { tenants = m; poisoned = false }))
          (flat_query t n q (deep m))
  unfolding query_records flat_query
  query_agrees q kept = elim (Result-cases (validate_query q)) [
    | inr (e, h) ↦ rw h (refl, (refl, (refl, kept)))
    | inl (tt, h) ↦ rw h (
      ap (λ p. ok (take q.limit (keep_if (matches q) p)))
          (sym (partition-deep t.text n.text m kept.0 kept.1.0)),
      (refl, (refl, kept)),
    )
  ]

module _ (t : TenantId) (n : Namespace) (m : Map Bytes Tenant) where
  gone :
      (k : RecordKey)
      → Kept m
      → get k.text (or_empty (get n.text (or_empty (get t.text m)))) ≡ none
      → get (t.text, (n.text, k.text)) (deep m) ≡ none
  gone k kept h = get-deep t.text n.text k.text m kept.0 kept.1.0 ∙ h

  flat_absent :
      (k : RecordKey) (f : FlatStore)
      → get (t.text, (n.text, k.text)) f ≡ none
      → flat_delete t n k f ≡ (ok false, f)
  unfolding flat_delete
  flat_absent k f h = rw (h, remove_missing (t.text, (n.text, k.text)) f h) refl

  pub delete_nothing :
      (k : RecordKey)
      → get n.text (or_empty (get t.text m)) ≡ none
      → delete t n k (record { tenants = m; poisoned = false })
        ≡ (ok false, record { tenants = m; poisoned = false })
  unfolding delete
  delete_nothing k h = elim (Option-cases (get t.text m)) [
    | inl e ↦ rw e refl
    | inr (x, e) ↦
        let f : get n.text x ≡ none = ap (λ z. get n.text (or_empty z)) (sym e) ∙ h in
        rw (e, f) refl
  ]

  absent :
      (k : RecordKey)
      → Kept m
      → get n.text (or_empty (get t.text m)) ≡ none
      → Agree (delete t n k (record { tenants = m; poisoned = false })) (flat_delete t n k (deep m))
  absent k kept h =
      rw (delete_nothing k h, flat_absent k (deep m) (gone k kept (rw h (unfold get in refl))))
        (refl, (refl, (refl, kept)))

  pub delete_done :
      (k : RecordKey) (x : Tenant) (p : Partition)
      → get t.text m ≡ some x
      → get n.text x ≡ some p
      → delete t n k (record { tenants = m; poisoned = false }) ≡ (
        ok (not (is_none (get k.text p))),
        record {
          tenants = put_back t.text (put_back n.text (remove k.text p) x) m;
          poisoned = false;
        },
      )
  unfolding delete
  delete_done k x p e f = rw (e, f) refl

  put_back-IsFilled :
      (n : Bytes) (p : Partition) (x : Tenant) → Every IsFilled x → Every IsFilled (put_back n p x)
  put_back-IsFilled n [] x f = Every-remove IsFilled n x f
  put_back-IsFilled n (r ∷ p) x f = Every-insert IsFilled n (r ∷ p) x (λ e. omega arith) f

  put_back-IsSorted :
      (n : Bytes) (p : Partition) (x : Tenant) → IsSorted x → IsSorted (put_back n p x)
  put_back-IsSorted n [] x s = remove-IsSorted n x s
  put_back-IsSorted n (r ∷ p) x s = insert-IsSorted n (r ∷ p) x s

  delete_held :
      (k : RecordKey) (x : Tenant) (p : Partition)
      → get t.text m ≡ some x
      → get n.text x ≡ some p
      → Kept m
      → Agree (delete t n k (record { tenants = m; poisoned = false })) (flat_delete t n k (deep m))
  unfolding flat_delete
  delete_held k x p e f kept =
      let x_sorted : IsSorted x = Every-get (λ k x. IsSorted x) t.text x m kept.1.0 e in
      let x_filled : Every IsFilled x = Every-get (λ k x. Every IsFilled x) t.text x m kept.1.1 e in
      let left : Every IsFilled (put_back n.text (remove k.text p) x) =
        put_back-IsFilled n.text (remove k.text p) x x_filled in
      rw (delete_done k x p e f, get-deep t.text n.text k.text m kept.0 kept.1.0, e, f)
        (
          refl,
          (
            deep-put_back t.text n.text k.text m x p kept.0 kept.1.0 e f left,
            (
              refl,
              Kept-put_back t.text (put_back n.text (remove k.text p) x) m
                  (put_back-IsSorted n.text (remove k.text p) x x_sorted) left kept,
            ),
          ),
        )

  pub delete_agrees :
      (k : RecordKey)
      → Kept m
      → Agree (delete t n k (record { tenants = m; poisoned = false })) (flat_delete t n k (deep m))
  delete_agrees k kept = elim (Option-cases (get t.text m)) [
    | inl e ↦ absent k kept (rw e (unfold get in refl))
    | inr (x, e) ↦ elim (Option-cases (get n.text x)) [
      | inl f ↦ absent k kept (rw (e, f) refl)
      | inr (p, f) ↦ delete_held k x p e f kept
    ]
  ]
