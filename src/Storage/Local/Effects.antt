-- ===== src/Storage/Local/Effects.antt =====
-- What a call changes: a write is seen by its key alone, and a version names one write.
use rust_factory.Common.{
  ◌+◌, ◌≡◌, ◌≢◌, Option, none, some, Result, ok, pair_ord, arith, same, if◌then◌else◌,
}
use rust_factory.TreeMap.{Map, get}
use rust_factory.TreeMap.Laws.{get-insert, get-remove}
use rust_factory.Storage.Validation.{StorageError}
use rust_factory.Storage.Model.{
  ObjectKey, ObjectValue, tenant_ord, namespace_ord, key_ord, version_ord, StorageScope,
  PutCondition, DeleteCondition, PutOutcome, deleted,
}
use rust_factory.Storage.Local.{Identity, Entry, LocalObjectStore, identity, put, delete}
use rust_factory.Storage.Local.Steps.{reported, entry_of, put_cases, delete_cases}

-- The entries after a `put` that answered `r`.
abbrev pub seen_after_put :
    ObjectValue
    → Result StorageError PutOutcome
    → Identity
    → Map Identity Entry
    → Identity
    → Option Entry
seen_after_put value r id before j = elim (reported r) [
  | none ↦ get j before
  | some version ↦
      if same id j then some (record { version = version; value = value }) else get j before
]

module _ (scope : StorageScope) (key : ObjectKey) (value : ObjectValue) (condition : PutCondition)
    (s : LocalObjectStore) where
  -- After a `put` every lookup finds the written value with the reported version at the written
  -- identity and what it found before elsewhere; if no version was reported every lookup is as
  -- before.
  pub put_effect :
      (j : Identity)
      → get j (put scope key value condition s).1.state.objects
        ≡ seen_after_put value
            (put scope key value condition s).0
            (identity scope key)
            s.state.objects
            j
  put_effect j =
      put_cases scope key value s condition
        (λ r s'.
          get j s'.state.objects ≡ seen_after_put value r (identity scope key) s.state.objects j)
        (λ r e. ground (arith, e))
        λ counters e matched fits. ground (
          arith,
          get-insert (identity scope key) j (entry_of value (s.state.revision + 1)) s.state.objects,
        )

  -- A `put` that reports no version, by a conflict or any error, leaves the whole store as it was.
  pub put_atomic :
      reported (put scope key value condition s).0 ≡ none → (put scope key value condition s).1 ≡ s
  unfolding put
  put_atomic h = ground arith

module _ (scope : StorageScope) (key : ObjectKey) (condition : DeleteCondition)
    (s : LocalObjectStore) where
  -- A `delete` that did not answer deleted leaves the whole store as it was.
  pub delete_atomic :
      (delete scope key condition s).0 ≢ ok deleted → (delete scope key condition s).1 ≡ s
  unfolding delete
  delete_atomic h = ground arith

  -- After a `delete` that answered deleted, the identity is not found and every other lookup is as
  -- before.
  pub delete_effect :
      (j : Identity)
      → (delete scope key condition s).0 ≡ ok deleted
      → get j (delete scope key condition s).1.state.objects
        ≡ (if same (identity scope key) j then none else get j s.state.objects)
  delete_effect j h =
      delete_cases scope key condition s
        (λ r s'.
          r ≡ ok deleted
          → get j s'.state.objects
            ≡ (if same (identity scope key) j then none else get j s.state.objects))
        (λ r e h. absurd (e h))
        (λ entry held counters here kept e drained h.
          get-remove (identity scope key) j s.state.objects)
        h
