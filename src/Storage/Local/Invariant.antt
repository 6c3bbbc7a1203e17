-- ===== src/Storage/Local/Invariant.antt =====
-- The counters of the store agree with its objects, and stay within the limits.
use rust_factory.Common.{
  ℕ, ◌+◌, ◌^◌, ◌≤◌, ◌<◌, ◌≡◌, some, length, same, pair_ord, arith, if◌then◌else◌, same_iff,
  same_refl,
}
use rust_factory.TreeMap.{Map, get, insert, IsSorted}
use rust_factory.TreeMap.Laws.{get-insert, insert-IsSorted}
use rust_factory.TreeMap.Total.{total, total-insert, held-le-total}
use rust_factory.TreeMap.Every.{Every, Every-mono, Every-insert}
use rust_factory.Storage.Quota.{Counters}
use rust_factory.Storage.Model.{
  TenantId, ObjectKey, ObjectValue, tenant_ord, namespace_ord, key_ord, StorageScope,
}
use rust_factory.Storage.Local.Steps.{entry_of, size?, written}
use rust_factory.Storage.Local.Charges.{IsCharged}
use rust_factory.Storage.Local.{Identity, Entry, State, identity, tenant_counters}

-- The weights that the counters sum: objects and value bytes, of all tenants and of one.
abbrev pub one : Identity → Entry → ℕ
one id entry = 1

abbrev pub size : Identity → Entry → ℕ
size id entry = length entry.value.bytes

abbrev pub one_of : TenantId → Identity → Entry → ℕ
one_of tenant id entry = if same tenant id.0 then 1 else 0

abbrev pub size_of : TenantId → Identity → Entry → ℕ
size_of tenant id entry = if same tenant id.0 then length entry.value.bytes else 0

-- An entry's version was issued before.
abbrev pub IsIssued : ℕ → Identity → Entry → Type 0
IsIssued revision id entry = (0 < entry.version.revision) × (entry.version.revision ≤ revision)

pub record IsConsistent (s : State) : Type 0 where
  pub sorted : IsSorted s.objects
  pub issued : Every (IsIssued s.revision) s.objects
  pub revision_fits : s.revision < 2 ^ 64
  pub global_objects : s.global.objects ≡ total one s.objects
  pub global_bytes : s.global.value_bytes ≡ total size s.objects
  pub tenant_objects : (t : TenantId) → (tenant_counters t s).objects ≡ total (one_of t) s.objects
  pub tenant_bytes :
      (t : TenantId) → (tenant_counters t s).value_bytes ≡ total (size_of t) s.objects
  pub tenant_live : (t : TenantId) (c : Counters) → get t s.tenants ≡ some c → 0 < c.objects

IsIssued-later :
    (n m : ℕ) (objects : Map Identity Entry)
    → n ≤ m
    → Every (IsIssued n) objects
    → Every (IsIssued m) objects
IsIssued-later n m objects h =
    Every-mono (IsIssued n) (IsIssued m) objects (λ id entry i. (i.0, omega arith))

module _ (scope : StorageScope) (key : ObjectKey) (value : ObjectValue) (s : State)
    (counters : Counters × Counters) (v : IsConsistent s) (fits : s.revision + 1 < 2 ^ 64)
    (tenant : IsCharged
      (tenant_counters scope.tenant_id s)
      counters.0
      (size? (get (identity scope key) s.objects))
      (length value.bytes))
    (global : IsCharged s.global counters.1
      (size? (get (identity scope key) s.objects))
      (length value.bytes)) where
  abbrev id : Identity
  id = identity scope key

  abbrev entry : Entry
  entry = entry_of value (s.revision + 1)

  abbrev tid : TenantId
  tid = scope.tenant_id

  written_global_objects : counters.1.objects ≡ total one (insert id entry s.objects)
  written_global_objects =
      ground (arith, v.global_objects, global.objects, total-insert one id entry s.objects v.sorted)

  written_global_bytes : counters.1.value_bytes ≡ total size (insert id entry s.objects)
  written_global_bytes =
      ground (arith, v.global_bytes, global.bytes, total-insert size id entry s.objects v.sorted)

  written_tenant_objects :
      (t : TenantId)
      → (tenant_counters t (written scope key value counters s)).objects
        ≡ total (one_of t) (insert id entry s.objects)
  written_tenant_objects t = ground (
    arith,
    get-insert tid t counters.0 s.tenants,
    v.tenant_objects t,
    v.tenant_objects tid,
    tenant.objects,
    same_iff tid t,
    same_iff t tid,
    total-insert (one_of t) id entry s.objects v.sorted,
  )

  written_tenant_bytes :
      (t : TenantId)
      → (tenant_counters t (written scope key value counters s)).value_bytes
        ≡ total (size_of t) (insert id entry s.objects)
  written_tenant_bytes t = ground (
    arith,
    get-insert tid t counters.0 s.tenants,
    v.tenant_bytes t,
    v.tenant_bytes tid,
    tenant.bytes,
    same_iff tid t,
    same_iff t tid,
    total-insert (size_of t) id entry s.objects v.sorted,
  )

  written_tenant_live :
      (t : TenantId) (c : Counters)
      → get t (insert tid counters.0 s.tenants) ≡ some c
      → 0 < c.objects
  written_tenant_live t c h = ground (
    arith,
    get-insert tid t counters.0 s.tenants,
    v.tenant_live t c,
    v.tenant_objects tid,
    tenant.objects,
    same_refl tid,
    held-le-total (one_of tid) id s.objects,
  )

  pub written-IsConsistent : IsConsistent (written scope key value counters s)
  written-IsConsistent = record {
    sorted = insert-IsSorted id entry s.objects v.sorted;
    issued =
        Every-insert (IsIssued (s.revision + 1)) id entry s.objects (omega arith)
          (IsIssued-later s.revision (s.revision + 1) s.objects (omega arith) v.issued);
    revision_fits = fits;
    global_objects = written_global_objects;
    global_bytes = written_global_bytes;
    tenant_objects = written_tenant_objects;
    tenant_bytes = written_tenant_bytes;
    tenant_live = written_tenant_live;
  }
