-- ===== src/Memory/Store.antt =====
-- `InProcessStore` of crates/memory/src/local.rs: a map of tenants, of namespaces, of records. The
-- mutex is the whole state of one call; a poisoned lock is the flag `poisoned`.
pub mod Flat
pub mod Bounds
pub mod Refinement
use rust_factory.Common.{
  ℕ, Bool, true, false, not, Option, none, some, List, [], ◌∷◌, Bytes, length, map, take, keep_if,
  Result, ok, err, if◌then◌else◌, ◌==◌, nat_ord, list_ord,
}
use rust_factory.Common.Exec.{Exec, pure, throw, lift, modify, ◌>>=◌, ◌>>◌}
use rust_factory.TreeMap.{Map, get, insert, remove}
use rust_factory.TreeMap.Nested.{or_empty, put_back}
use rust_factory.Memory.Errors.{MemoryError}
use rust_factory.Memory.Validation.{check_capacity}
use rust_factory.Memory.Checks.{validate_record, validate_query}
use rust_factory.Memory.Model.{
  TenantId, Namespace, RecordKey, MemoryRecord, MemoryQuery, matches, WriteOutcome, created,
  replaced,
}

abbrev pub Partition : Type 0
Partition = Map Bytes MemoryRecord

abbrev pub Tenant : Type 0
Tenant = Map Bytes Partition

pub record InProcessStore : Type 0 where
  pub tenants : Map Bytes Tenant
  pub poisoned : Bool

abbrev pub new : InProcessStore
new = record { tenants = []; poisoned = false }

abbrev pub Op : Type 0 → Type 0
Op A = Exec InProcessStore MemoryError A

abbrev pub lock : Op (Map Bytes Tenant)
lock store =
    if store.poisoned then throw MemoryError.adapter_failure store else pure store.tenants store

abbrev pub write : Map Bytes Tenant → Op (Unit {0})
write tenants = modify (λ store. record store { tenants = tenants })

abbrev pub is_none : {V : Type 0} → Option V → Bool
is_none none = true
is_none (some _) = false

abbrev pub outcome : Option MemoryRecord → WriteOutcome
outcome none = created
outcome (some _) = replaced

-- `MemoryStore::put`; the entry of the tenant is made before the capacity is checked.
unfoldable pub put : MemoryRecord → Op WriteOutcome
unfolding validate_record check_capacity get insert
put item = do
  lift (validate_record item)
  tenants ← lock
  let tenant = or_empty (get item.tenant_id.text tenants)
  let entered = insert item.tenant_id.text tenant tenants
  write entered
  let partition = or_empty (get item.namespace.text tenant)
  lift (
      check_capacity (length tenant) (is_none (get item.namespace.text tenant)) (length partition)
        (is_none (get item.key.text partition)))
  write (
      insert item.tenant_id.text
        (insert item.namespace.text (insert item.key.text item partition) tenant) entered)
  pure (outcome (get item.key.text partition))

-- `MemoryStore::get`
unfoldable pub get_record : TenantId → Namespace → RecordKey → Op (Option MemoryRecord)
unfolding get
get_record tenant_id namespace key = do
  tenants ← lock
  let tenant = or_empty (get tenant_id.text tenants)
  pure (get key.text (or_empty (get namespace.text tenant)))

-- `MemoryStore::query`
unfoldable pub query_records : TenantId → Namespace → MemoryQuery → Op (List MemoryRecord)
unfolding validate_query get matches
query_records tenant_id namespace query = do
  lift (validate_query query)
  tenants ← lock
  let partition = or_empty (get namespace.text (or_empty (get tenant_id.text tenants)))
  pure (take query.limit (keep_if (matches query) (map (λ entry. entry.1) partition)))

-- The rest of `delete` once the tenant and the namespace have been looked up; an emptied level is
-- taken out of the level above it.
module _ (tenant_id : TenantId) (namespace : Namespace) (key : RecordKey)
    (tenants : Map Bytes Tenant) where
  abbrev delete_in : Tenant → Option Partition → Op Bool
  delete_in tenant none = pure false
  delete_in tenant (some partition) = do
    write (
        put_back tenant_id.text (put_back namespace.text (remove key.text partition) tenant)
          tenants)
    pure (not (is_none (get key.text partition)))

  abbrev delete_of : Option Tenant → Op Bool
  delete_of none = pure false
  delete_of (some tenant) = delete_in tenant (get namespace.text tenant)

-- `MemoryStore::delete`
unfoldable pub delete : TenantId → Namespace → RecordKey → Op Bool
unfolding get insert remove
delete tenant_id namespace key = do
  tenants ← lock
  delete_of tenant_id namespace key tenants (get tenant_id.text tenants)
