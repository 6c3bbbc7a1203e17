-- ===== src/Storage/Local/History.antt =====
-- The store after any history of calls.
use rust_factory.Common.{refl, List, [], ◌∷◌, pair_ord, arith}
use rust_factory.TreeMap.{get}
use rust_factory.TreeMap.Total.{total}
use rust_factory.TreeMap.Laws.{get-insert, get-remove}
use rust_factory.Storage.Model.{
  TenantId, ObjectKey, ObjectValue, tenant_ord, namespace_ord, key_ord, StorageScope, StorageLimits,
  PutCondition, DeleteCondition, ListRequest, ListRequest,
}
use rust_factory.Storage.Local.{LocalObjectStore, new, tenant_counters, get_object, put, delete}
use rust_factory.Storage.Listing.{list}
use rust_factory.Storage.Local.Steps.{put_cases, delete_cases}
use rust_factory.Storage.Local.Charges.{
  IsWithin, put-IsWithin, put_tenant, put_global, delete_tenant, delete_global,
}
use rust_factory.Storage.Local.Invariant.{IsConsistent, written-IsConsistent}
use rust_factory.Storage.Local.Erasure.{erased-IsConsistent}

-- No tenant, and not the whole store, is over its quota.
abbrev pub IsBounded : LocalObjectStore → Type 0
IsBounded s = (t : TenantId) → IsWithin s.limits (tenant_counters t s.state) s.state.global

pub record IsValid (s : LocalObjectStore) : Type 0 where
  pub consistent : IsConsistent s.state
  pub bounded : IsBounded s

new-IsValid : (limits : StorageLimits) → IsValid (new limits)
unfolding get total
new-IsValid limits = record {
  consistent = record {
    sorted = tt;
    issued = tt;
    revision_fits = omega arith;
    global_objects = refl;
    global_bytes = refl;
    tenant_objects = λ t. refl;
    tenant_bytes = λ t. refl;
    tenant_live = λ t c h. cc;
  };
  bounded = λ t. omega arith;
}

pub put-IsValid :
    (scope : StorageScope) (key : ObjectKey) (value : ObjectValue) (condition : PutCondition)
    (s : LocalObjectStore)
    → IsValid s
    → IsValid (put scope key value condition s).1
put-IsValid scope key value condition s v =
    put_cases scope key value s condition (λ r s'. IsValid s') (λ r _. v)
      λ counters e matched fits. record {
        consistent =
            written-IsConsistent scope key value s.state counters v.consistent fits
              (put_tenant _ _ _ _ _ counters e) (put_global _ _ _ _ _ counters e);
        bounded = λ t. ground (
          arith,
          get-insert scope.tenant_id t counters.0 s.state.tenants,
          put-IsWithin _ _ _ _ _ counters e,
          v.bounded t,
        );
      }

pub delete-IsValid :
    (scope : StorageScope) (key : ObjectKey) (condition : DeleteCondition) (s : LocalObjectStore)
    → IsValid s
    → IsValid (delete scope key condition s).1
delete-IsValid scope key condition s v =
    delete_cases scope key condition s (λ r s'. IsValid s') (λ r _. v)
      λ entry held counters here kept e drained. record {
        consistent =
            erased-IsConsistent scope key s.state entry held counters v.consistent here kept
              (delete_tenant _ _ _ counters e) (delete_global _ _ _ counters e) drained;
        bounded = λ t. ground (
          arith,
          get-insert scope.tenant_id t counters.0 s.state.tenants,
          get-remove scope.tenant_id t s.state.tenants,
          delete_tenant _ _ _ counters e,
          delete_global _ _ _ counters e,
          v.bounded t,
          v.bounded scope.tenant_id,
        );
      }

-- The calls that may change the store.
pub data Call : Type 0 where
  puts : StorageScope → ObjectKey → ObjectValue → PutCondition → Call
  deletes : StorageScope → ObjectKey → DeleteCondition → Call
  gets : StorageScope → ObjectKey → Call
  lists : StorageScope → ListRequest → Call

unfoldable pub step : LocalObjectStore → Call → LocalObjectStore
unfolding put delete get_object list
step s (puts scope key value condition) = (put scope key value condition s).1
step s (deletes scope key condition) = (delete scope key condition s).1
step s (gets scope key) = (get_object scope key s).1
step s (lists scope request) = (list scope request s).1

unfoldable pub run : LocalObjectStore → List Call → LocalObjectStore
unfolding step
run s [] = s
run s (c ∷ calls) = run (step s c) calls

pub step-IsValid : (s : LocalObjectStore) (c : Call) → IsValid s → IsValid (step s c)
unfolding step
step-IsValid s (puts scope key value condition) v = put-IsValid scope key value condition s v
step-IsValid s (deletes scope key condition) v = delete-IsValid scope key condition s v
step-IsValid s (gets scope key) v = ground arith
step-IsValid s (lists scope request) v = ground arith

run-IsValid : (s : LocalObjectStore) (calls : List Call) → IsValid s → IsValid (run s calls)
unfolding run
run-IsValid s [] v = v
run-IsValid s (c ∷ calls) v = run-IsValid (step s c) calls (step-IsValid s c v)

-- After any sequence of puts, deletes, gets and lists on a new store the objects are sorted, every
-- version was issued, the revision fits 64 bits, the global and tenant counters equal the count
-- and size of the objects, no empty tenant has counters, and all counters are within the limits.
pub run-new-IsValid :
    (limits : StorageLimits) (calls : List Call) → IsValid (run (new limits) calls)
run-new-IsValid limits calls = run-IsValid (new limits) calls (new-IsValid limits)
