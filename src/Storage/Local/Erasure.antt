-- ===== src/Storage/Local/Erasure.antt =====
-- Removing an object keeps the counters in agreement with the objects.
use rust_factory.Common.{◌<◌, ◌≡◌, some, length, pair_ord, arith, same_iff}
use rust_factory.TreeMap.{get, remove}
use rust_factory.TreeMap.Laws.{get-insert, get-remove, remove-IsSorted}
use rust_factory.TreeMap.Total.{total, total-remove}
use rust_factory.TreeMap.Every.{Every-remove}
use rust_factory.Storage.Quota.{Counters}
use rust_factory.Storage.Model.{
  TenantId, ObjectKey, tenant_ord, namespace_ord, key_ord, StorageScope,
}
use rust_factory.Storage.Local.{Identity, Entry, State, identity, tenant_counters}
use rust_factory.Storage.Local.Steps.{erased}
use rust_factory.Storage.Local.Charges.{IsReleased}
use rust_factory.Storage.Local.Invariant.{one, size, one_of, size_of, IsIssued, IsConsistent}

module _ (scope : StorageScope) (key : ObjectKey) (s : State) (entry : Entry) (held : Counters)
    (counters : Counters × Counters) (v : IsConsistent s)
    (here : get (identity scope key) s.objects ≡ some entry)
    (kept : get scope.tenant_id s.tenants ≡ some held)
    (tenant : IsReleased held counters.0 (length entry.value.bytes))
    (global : IsReleased s.global counters.1 (length entry.value.bytes))
    (drained : counters.0.objects ≡ 0 → counters.0.value_bytes ≡ 0) where
  abbrev id : Identity
  id = identity scope key

  abbrev tid : TenantId
  tid = scope.tenant_id

  erased_global_objects : counters.1.objects ≡ total one (remove id s.objects)
  erased_global_objects =
      ground (arith, v.global_objects, global.objects, total-remove one id s.objects v.sorted)

  erased_global_bytes : counters.1.value_bytes ≡ total size (remove id s.objects)
  erased_global_bytes =
      ground (arith, v.global_bytes, global.bytes, total-remove size id s.objects v.sorted)

  erased_tenant_objects :
      (t : TenantId)
      → (tenant_counters t (erased scope key counters s)).objects
        ≡ total (one_of t) (remove id s.objects)
  erased_tenant_objects t = ground (
    arith,
    get-insert tid t counters.0 s.tenants,
    get-remove tid t s.tenants,
    v.tenant_objects t,
    v.tenant_objects tid,
    tenant.objects,
    same_iff tid t,
    same_iff t tid,
    total-remove (one_of t) id s.objects v.sorted,
  )

  erased_tenant_bytes :
      (t : TenantId)
      → (tenant_counters t (erased scope key counters s)).value_bytes
        ≡ total (size_of t) (remove id s.objects)
  erased_tenant_bytes t = ground (
    arith,
    get-insert tid t counters.0 s.tenants,
    get-remove tid t s.tenants,
    v.tenant_bytes t,
    v.tenant_bytes tid,
    tenant.bytes,
    same_iff tid t,
    same_iff t tid,
    total-remove (size_of t) id s.objects v.sorted,
  )

  erased_tenant_live :
      (t : TenantId) (c : Counters)
      → get t (erased scope key counters s).tenants ≡ some c
      → 0 < c.objects
  erased_tenant_live t c h =
      ground (
        arith,
        get-insert tid t counters.0 s.tenants,
        get-remove tid t s.tenants,
        v.tenant_live t c,
      )

  pub erased-IsConsistent : IsConsistent (erased scope key counters s)
  erased-IsConsistent = record {
    sorted = remove-IsSorted id s.objects v.sorted;
    issued = Every-remove (IsIssued s.revision) id s.objects v.issued;
    revision_fits = v.revision_fits;
    global_objects = erased_global_objects;
    global_bytes = erased_global_bytes;
    tenant_objects = erased_tenant_objects;
    tenant_bytes = erased_tenant_bytes;
    tenant_live = erased_tenant_live;
  }
