-- ===== src/Storage/Local/Recount.antt =====
-- The counters that a recount of the objects gives, and the quota check by them.
use rust_factory.Common.{
  ℕ, ◌+◌, refl, [], ◌∷◌, ◌≤◌, ◌≡◌, Bool, length, pair_ord, ok, err, arith, if◌then◌else◌, same_refl,
}
use rust_factory.TreeMap.{Map, get, insert}
use rust_factory.TreeMap.Total.{total, total-insert, held-le-total}
use rust_factory.Storage.Validation.{
  limit_exceeded, max_objects_per_tenant, max_value_bytes_per_tenant, max_objects_global,
  max_value_bytes_global, max_object_value_bytes,
}
use rust_factory.Storage.Quota.{Counters, bytes_or_zero}
use rust_factory.Storage.Model.{
  TenantId, ObjectKey, ObjectValue, tenant_ord, namespace_ord, key_ord, StorageScope, StorageLimits,
  new_storage_limits,
}
use rust_factory.Storage.Local.{Identity, Entry, LocalObjectStore, identity, tenant_counters}
use rust_factory.Storage.Local.Steps.{entry_of, size?, charge}
use rust_factory.Storage.Local.Charges.{IsCharged, fits, put_counters_exact}
use rust_factory.Storage.Local.Invariant.{one, size, one_of, size_of, IsConsistent}
use rust_factory.Storage.Local.History.{IsValid}

-- What `StorageLimits::new` guarantees of the limits.
pub record HasCeilings (limits : StorageLimits) : Type 0 where
  pub objects_per_tenant : limits.max_objects_per_tenant ≤ max_objects_per_tenant
  pub bytes_per_tenant : limits.max_value_bytes_per_tenant ≤ max_value_bytes_per_tenant
  pub objects_global : limits.max_objects_global ≤ max_objects_global
  pub bytes_global : limits.max_value_bytes_global ≤ max_value_bytes_global

pub new_storage_limits-HasCeilings :
    (a b c d : ℕ) (limits : StorageLimits)
    → new_storage_limits a b c d ≡ ok limits
    → HasCeilings limits
unfolding new_storage_limits
new_storage_limits-HasCeilings a b c d limits h = ground arith

pub size_of-zero :
    (t : TenantId) (objects : Map Identity Entry)
    → total (one_of t) objects ≡ 0
    → total (size_of t) objects ≡ 0
unfolding total
size_of-zero t [] h = refl
size_of-zero t ((id, entry) ∷ objects) h = ground (arith, size_of-zero t objects)

-- The counters that a count of the objects gives.
abbrev pub recount : TenantId → Map Identity Entry → Counters × Counters
recount tenant objects = (
  record { objects = total (one_of tenant) objects; value_bytes = total (size_of tenant) objects },
  record { objects = total one objects; value_bytes = total size objects },
)

-- The quota check of a whole map, counted from nothing.
abbrev pub fits_quota : StorageLimits → TenantId → Map Identity Entry → Bool
fits_quota limits tenant objects =
    let counters = recount tenant objects in fits limits counters.0 counters.1

module _ (scope : StorageScope) (key : ObjectKey) (value : ObjectValue) (s : LocalObjectStore) where
  abbrev id : Identity
  id = identity scope key

  abbrev tid : TenantId
  tid = scope.tenant_id

  abbrev pub objects_after : Map Identity Entry
  objects_after = insert id (entry_of value (s.state.revision + 1)) s.state.objects

  recount_tenant :
      IsConsistent s.state
      → IsCharged
          (tenant_counters tid s.state)
          (recount tid objects_after).0
          (size? (get id s.state.objects))
          (length value.bytes)
  recount_tenant v = ground (
    arith,
    v.tenant_objects tid,
    v.tenant_bytes tid,
    same_refl tid,
    total-insert (one_of tid) id (entry_of value (s.state.revision + 1)) s.state.objects v.sorted,
    total-insert (size_of tid) id (entry_of value (s.state.revision + 1)) s.state.objects v.sorted,
  )

  recount_global :
      IsConsistent s.state
      → IsCharged s.state.global
          (recount tid objects_after).1
          (size? (get id s.state.objects))
          (length value.bytes)
  recount_global v = ground (
    arith,
    v.global_objects,
    v.global_bytes,
    total-insert one id (entry_of value (s.state.revision + 1)) s.state.objects v.sorted,
    total-insert size id (entry_of value (s.state.revision + 1)) s.state.objects v.sorted,
  )

  old-le-tenant :
      IsConsistent s.state
      → bytes_or_zero (size? (get id s.state.objects)) ≤ (tenant_counters tid s.state).value_bytes
  old-le-tenant v =
      ground
        (arith, v.tenant_bytes tid, same_refl tid, held-le-total (size_of tid) id s.state.objects)

  pub old-le-global :
      IsConsistent s.state
      → bytes_or_zero (size? (get id s.state.objects)) ≤ s.state.global.value_bytes
  old-le-global v = ground (arith, v.global_bytes, held-le-total size id s.state.objects)

  pub charge-fits_quota :
      IsValid s
      → HasCeilings s.limits
      → length value.bytes ≤ max_object_value_bytes
      → charge scope key value s ≡ (
          if fits_quota s.limits tid objects_after
          then ok (recount tid objects_after)
          else err limit_exceeded)
  charge-fits_quota v ceilings small =
      put_counters_exact s.limits (tenant_counters tid s.state) s.state.global
        (recount tid objects_after).0 (recount tid objects_after).1 (size? (get id s.state.objects))
        (length value.bytes) (recount_tenant v.consistent) (recount_global v.consistent)
        (old-le-tenant v.consistent) (old-le-global v.consistent) (omega (arith, v.bounded tid))
        (omega (arith, v.bounded tid))
