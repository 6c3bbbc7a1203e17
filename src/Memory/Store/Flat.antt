-- ===== src/Memory/Store/Flat.antt =====
-- The store as one flat map from the three keys of a record, in which a namespace exists exactly
-- when it holds a record: the reference for `InProcessStore`.
use rust_factory.Common.{
  Bool, not, Option, List, [], ◌∷◌, Bytes, length, take, keep_if, Result, ◌==◌, nat_ord, list_ord,
  pair_ord,
}
use rust_factory.Common.Exec.{Exec, pure, lift, gets, modify, ◌>>=◌, ◌>>◌}
use rust_factory.TreeMap.{Map, get, insert, remove}
use rust_factory.TreeMap.Nested.Partitions.{partition, second_keys}
use rust_factory.Memory.Errors.{MemoryError}
use rust_factory.Memory.Validation.{check_capacity}
use rust_factory.Memory.Checks.{validate_record, validate_query}
use rust_factory.Memory.Model.{
  TenantId, Namespace, RecordKey, MemoryRecord, MemoryQuery, matches, WriteOutcome,
}
use rust_factory.Memory.Store.{InProcessStore, is_none, outcome}
use rust_factory.Memory.Store

abbrev pub FlatStore : Type 0
FlatStore = Map (Bytes × (Bytes × Bytes)) MemoryRecord

unfoldable pub flat_put : MemoryRecord → Exec FlatStore MemoryError WriteOutcome
unfolding validate_record check_capacity get insert
flat_put item = do
  lift (validate_record item)
  m ← gets (λ m. m)
  let held = get (item.tenant_id.text, (item.namespace.text, item.key.text)) m
  let neighbours = length (partition item.tenant_id.text item.namespace.text m)
  lift (
      check_capacity (length (second_keys item.tenant_id.text m)) (neighbours == 0) neighbours
        (is_none held))
  modify (insert (item.tenant_id.text, (item.namespace.text, item.key.text)) item)
  pure (outcome held)

unfoldable pub flat_get :
    TenantId → Namespace → RecordKey → Exec FlatStore MemoryError (Option MemoryRecord)
unfolding get
flat_get tenant_id namespace key = gets (get (tenant_id.text, (namespace.text, key.text)))

unfoldable pub flat_query :
    TenantId → Namespace → MemoryQuery → Exec FlatStore MemoryError (List MemoryRecord)
unfolding validate_query matches
flat_query tenant_id namespace query = do
  lift (validate_query query)
  gets (λ m. take query.limit (keep_if (matches query) (partition tenant_id.text namespace.text m)))

unfoldable pub flat_delete : TenantId → Namespace → RecordKey → Exec FlatStore MemoryError Bool
unfolding get remove
flat_delete tenant_id namespace key = do
  held ← gets (get (tenant_id.text, (namespace.text, key.text)))
  modify (remove (tenant_id.text, (namespace.text, key.text)))
  pure (not (is_none held))

-- The calls of the port, and what each gives back.
pub data Call : Type 0 where
  put_call : MemoryRecord → Call
  get_call : TenantId → Namespace → RecordKey → Call
  query_call : TenantId → Namespace → MemoryQuery → Call
  delete_call : TenantId → Namespace → RecordKey → Call

pub data Answer : Type 0 where
  wrote : Result MemoryError WriteOutcome → Answer
  found : Result MemoryError (Option MemoryRecord) → Answer
  listed : Result MemoryError (List MemoryRecord) → Answer
  deleted : Result MemoryError Bool → Answer

unfoldable pub answer : Call → InProcessStore → Answer × InProcessStore
unfolding Store.put Store.get_record Store.query_records Store.delete
answer (put_call item) s = let (r, s') = Store.put item s in (wrote r, s')
answer (get_call t n k) s = let (r, s') = Store.get_record t n k s in (found r, s')
answer (query_call t n q) s = let (r, s') = Store.query_records t n q s in (listed r, s')
answer (delete_call t n k) s = let (r, s') = Store.delete t n k s in (deleted r, s')

unfoldable pub flat_answer : Call → FlatStore → Answer × FlatStore
unfolding flat_put flat_get flat_query flat_delete
flat_answer (put_call item) m = let (r, m') = flat_put item m in (wrote r, m')
flat_answer (get_call t n k) m = let (r, m') = flat_get t n k m in (found r, m')
flat_answer (query_call t n q) m = let (r, m') = flat_query t n q m in (listed r, m')
flat_answer (delete_call t n k) m = let (r, m') = flat_delete t n k m in (deleted r, m')

-- The answers to a sequence of calls, each made on the state the one before left.
unfoldable pub answers : {S : Type 0} → (Call → S → Answer × S) → List Call → S → List Answer
answers step [] s = []
answers step (call ∷ calls) s = let (a, s') = step call s in a ∷ answers step calls s'
