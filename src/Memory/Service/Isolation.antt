-- ===== src/Memory/Service/Isolation.antt =====
-- What one call changes of what is held, over `InProcessStore`.
use rust_factory.Common.{
  ◌≡◌, refl, sym, ap, ◌∙◌, false, Option, Bytes, length, Result, ok, err, Result-cases, Ord, same,
  nat_ord, list_ord, pair_ord, arith, inl, inr, ◌⊎◌, ◌==◌,
}
use rust_factory.TreeMap.{get, insert}
use rust_factory.TreeMap.Laws.{get-insert_other, get-remove}
use rust_factory.Memory.Errors.{MemoryError}
use rust_factory.Memory.Validation.{check_capacity}
use rust_factory.TreeMap.Nested.Partitions.{partition, second_keys}
use rust_factory.Memory.Checks.{validate_record, validate_query}
use rust_factory.Memory.Model.{
  TenantId, Namespace, RecordKey, MemoryRecord, MemoryQuery, WriteOutcome,
}
use rust_factory.Memory.Store.{InProcessStore, get_record, is_none, outcome}
use rust_factory.Memory.Store.Flat.{
  FlatStore, Call, found, put_call, get_call, query_call, delete_call, answer, flat_put, flat_get,
  flat_query, flat_delete, flat_answer,
}
use rust_factory.Memory.Store.Refinement.Invariant.{view, IsKept}
use rust_factory.Memory.Store.Refinement.{call_agrees}

-- What is stored under a tenant, a namespace and a key.
abbrev pub held_at : InProcessStore → Bytes → Bytes → Bytes → Option MemoryRecord
held_at s t n k = get (t, (n, k)) (view s)

pub record_held :
    (t : TenantId) (n : Namespace) (k : RecordKey) (s : InProcessStore)
    → IsKept s
    → (get_record t n k s).0 ≡ ok (held_at s t.text n.text k.text)
unfolding answer
record_held t n k s kept =
    let agree = call_agrees (get_call t n k) s kept in
    found_of _ _ (agree.0 ∙ unfold flat_answer flat_get in refl)
  where
    found_of : (r q : Result MemoryError (Option MemoryRecord)) → found r ≡ found q → r ≡ q
    found_of r q e = cc e

-- The tenant that a call is made for.
abbrev pub caller : Call → Bytes
caller (put_call item) = item.tenant_id.text
caller (get_call t n k) = t.text
caller (query_call t n q) = t.text
caller (delete_call t n k) = t.text

module _ {ℓ κ} {A : Type ℓ} {B : Type κ} ⦃o : Ord A⦄ ⦃p : Ord B⦄ where
  other_first : (a c : A) (b d : B) → same a c ≡ false → same {K = A × B} (a, b) (c, d) ≡ false
  other_first a c b d h = ground (arith, h)

abbrev pub slot : MemoryRecord → Bytes × (Bytes × Bytes)
slot item = (item.tenant_id.text, (item.namespace.text, item.key.text))

-- A record that is refused changes nothing; one that is not has been checked and is in its place.
pub flat_put-cases :
    (item : MemoryRecord) (m : FlatStore)
    → ((e : MemoryError) × (flat_put item m ≡ (err e, m)))
      ⊎ ((validate_record item ≡ ok tt)
          × ((o : WriteOutcome) × (flat_put item m ≡ (ok o, insert (slot item) item m))))
unfolding flat_put
flat_put-cases item m =
    let room =
      check_capacity (length (second_keys item.tenant_id.text m))
        (length (partition item.tenant_id.text item.namespace.text m) == 0)
        (length (partition item.tenant_id.text item.namespace.text m))
        (is_none (get (slot item) m)) in
    elim (Result-cases (validate_record item)) [
      | inr (e, v) ↦ inl (e, rw v refl)
      | inl (tt, v) ↦ elim (Result-cases room) [
        | inr (e, c) ↦ inl (e, rw (v, c) refl)
        | inl (tt, c) ↦ inr (v, (outcome (get (slot item) m), rw (v, c) refl))
      ]
    ]

put_isolated :
    (item : MemoryRecord) (m : FlatStore) (t n k : Bytes)
    → same item.tenant_id.text t ≡ false
    → get (t, (n, k)) (flat_put item m).1 ≡ get (t, (n, k)) m
put_isolated item m t n k h = elim (flat_put-cases item m) [
  | inl (e, p) ↦ rw p refl
  | inr (v, (o, p)) ↦ rw p (
      get-insert_other (slot item) (t, (n, k)) item m
        (other_first {B = Bytes × Bytes} item.tenant_id.text t (item.namespace.text, item.key.text)
          (n, k) h))
]

query_isolated :
    (t : TenantId) (n : Namespace) (q : MemoryQuery) (m : FlatStore) → (flat_query t n q m).1 ≡ m
unfolding flat_query
query_isolated t n q m = elim (Result-cases (validate_query q)) [
  | inr (e, v) ↦ rw v refl
  | inl (tt, v) ↦ rw v refl
]

call_isolated :
    (c : Call) (m : FlatStore) (t n k : Bytes)
    → same (caller c) t ≡ false
    → get (t, (n, k)) (flat_answer c m).1 ≡ get (t, (n, k)) m
unfolding flat_answer
call_isolated (put_call item) m t n k h = put_isolated item m t n k h
call_isolated (get_call t' n' k') m t n k h = unfold flat_get in refl
call_isolated (query_call t' n' q) m t n k h = rw (query_isolated t' n' q m) refl
call_isolated (delete_call t' n' k') m t n k h =
    unfold flat_delete in
    (get-remove (t'.text, (n'.text, k'.text)) (t, (n, k)) m
      ∙ rw (other_first {B = Bytes × Bytes} t'.text t (n'.text, k'.text) (n, k) h) refl)

-- Over an `InProcessStore` that keeps its invariant, no call made for one tenant changes what
-- `get` answers another tenant for any namespace and key.
pub isolated :
    (c : Call) (s : InProcessStore) (t : TenantId) (n : Namespace) (k : RecordKey)
    → IsKept s
    → same (caller c) t.text ≡ false
    → (get_record t n k (answer c s).1).0 ≡ (get_record t n k s).0
isolated c s t n k kept h =
    let (_, (seen, kept')) = call_agrees c s kept in
    record_held t n k (answer c s).1 kept'
    ∙ ap ok
        (ap (get (t.text, (n.text, k.text))) seen ∙ call_isolated c (view s) t.text n.text k.text h)
    ∙ sym (record_held t n k s kept)
