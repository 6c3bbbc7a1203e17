-- ===== src/Storage/Local.antt =====
-- crates/storage/src/local.rs: the process-local reference adapter. The mutex is the whole state
-- of one call; a poisoned lock is the flag `poisoned`.
pub mod Steps
pub mod Charges
pub mod Invariant
pub mod Erasure
pub mod History
pub mod Recount
pub mod Outcomes
pub mod Effects
pub mod Versions
use mathlib.Core.Option
use rust_factory.Common.{
  ◌&&◌, ℕ, Bool, true, false, not, Option, none, some, [], length, Result, ok, ok_or, refuse, ◌==◌,
  if◌then◌else◌, try_from, checked_add, same, pair_ord,
}
use rust_factory.Common.Exec.{Exec, pure, throw, lift, gets, modify, ◌>>=◌, ◌>>◌}
use rust_factory.TreeMap.{Map, get, insert, remove}
use rust_factory.Storage.Validation.{StorageError, revision_exhausted, operation_failed}
use rust_factory.Storage.Model.{
  TenantId, Namespace, ObjectKey, ObjectValue, ObjectVersion, tenant_ord, namespace_ord, key_ord,
  version_ord, from_revision, StorageScope, PutCondition, DeleteCondition, PutOutcome, created,
  replaced, DeleteOutcome, deleted, not_found, StoredObject, StorageLimits, PersistenceGuarantee,
  StoreGuarantees,
}
use rust_factory.Storage.Quota.{
  Counters, zero_counters, checked_put_counters, checked_delete_counters,
}

-- (tenant, namespace, key)
abbrev pub Identity : Type 0
Identity = TenantId × (Namespace × ObjectKey)

pub record Entry : Type 0 where
  pub version : ObjectVersion
  pub value : ObjectValue

pub record State : Type 0 where
  pub objects : Map Identity Entry
  pub revision : ℕ
  pub tenants : Map TenantId Counters
  pub global : Counters

pub record LocalObjectStore : Type 0 where
  pub state : State
  pub poisoned : Bool
  pub limits : StorageLimits

abbrev pub empty_state : State
empty_state = record { objects = []; revision = 0; tenants = []; global = zero_counters }

-- `LocalObjectStore::new`
abbrev pub new : StorageLimits → LocalObjectStore
new limits = record { state = empty_state; poisoned = false; limits = limits }

abbrev pub identity : StorageScope → ObjectKey → Identity
identity scope key = (scope.tenant_id, (scope.namespace, key))

abbrev pub Op : Type 0 → Type 0
Op A = Exec LocalObjectStore StorageError A

-- `self.state.lock().map_err(|_| OperationFailed)?`
abbrev pub lock : Op State
lock store = if store.poisoned then throw operation_failed store else pure store.state store

abbrev pub write : (State → State) → Op (Unit {0})
write f = modify (λ store. record store { state = f store.state })

abbrev pub value_bytes : ObjectValue → Result StorageError ℕ
value_bytes value = ok_or (try_from 64 (length value.bytes)) operation_failed

-- The bytes of the object that is replaced.
abbrev pub old_value_bytes : Option Entry → Result StorageError (Option ℕ)
old_value_bytes none = ok none
old_value_bytes (some entry) =
    ok_or (Option.map some (try_from 64 (length entry.value.bytes))) operation_failed

abbrev pub tenant_counters : TenantId → State → Counters
tenant_counters tenant state = elim (get tenant state.tenants) [ none ↦ zero_counters | some c ↦ c ]

abbrev pub stored : Entry → StoredObject
stored entry = record { version = entry.version; value = entry.value }

-- `ObjectStore::get`
unfoldable pub get_object : StorageScope → ObjectKey → Op (Option StoredObject)
unfolding get
get_object scope key = do
  state ← lock
  pure (Option.map stored (get (identity scope key) state.objects))

unfoldable pub put_condition_matches : PutCondition → Option Entry → Bool
put_condition_matches PutCondition.any _ = true
put_condition_matches PutCondition.if_absent none = true
put_condition_matches PutCondition.if_absent (some _) = false
put_condition_matches (PutCondition.if_version expected) none = false
put_condition_matches (PutCondition.if_version expected) (some entry) = same expected entry.version

abbrev pub put_outcome : Option Entry → ObjectVersion → PutOutcome
put_outcome none version = created version
put_outcome (some _) version = replaced version

-- `ObjectStore::put`
unfoldable pub put : StorageScope → ObjectKey → ObjectValue → PutCondition → Op PutOutcome
unfolding put_condition_matches from_revision
put scope key value condition = do
  state ← lock
  let current = get (identity scope key) state.objects
  if not (put_condition_matches condition current) then pure PutOutcome.conflict else do
    revision ← lift (ok_or (checked_add 64 state.revision 1) revision_exhausted)
    version ← lift (from_revision revision)
    old_bytes ← lift (old_value_bytes current)
    new_bytes ← lift (value_bytes value)
    limits ← gets (λ store. store.limits)
    counters ← lift (
        checked_put_counters limits (tenant_counters scope.tenant_id state) state.global old_bytes
          new_bytes)
    write (λ s. record s {
      objects = insert (identity scope key) (record { version = version; value = value }) s.objects;
    })
    write (λ s. record s { tenants = insert scope.tenant_id counters.0 s.tenants })
    write (λ s. record s { global = counters.1 })
    write (λ s. record s { revision = revision })
    pure (put_outcome current version)

unfoldable pub delete_condition_fails : DeleteCondition → Entry → Bool
delete_condition_fails DeleteCondition.any current = false
delete_condition_fails (DeleteCondition.if_version expected) current =
    not (same expected current.version)

unfoldable pub delete_found :
    StorageScope → ObjectKey → DeleteCondition → State → Entry → Op DeleteOutcome
unfolding delete_condition_fails
delete_found scope key condition state current =
    if delete_condition_fails condition current then pure DeleteOutcome.conflict else do
      old_bytes ← lift (value_bytes current.value)
      held ← lift (ok_or (get scope.tenant_id state.tenants) operation_failed)
      counters ← lift (checked_delete_counters held state.global old_bytes)
      lift (refuse (counters.0.objects == 0 && not (counters.0.value_bytes == 0)) operation_failed)
      write (λ s. record s { objects = remove (identity scope key) s.objects })
      write (λ s. record s {
        tenants =
            if counters.0.objects == 0
            then remove scope.tenant_id s.tenants
            else insert scope.tenant_id counters.0 s.tenants;
      })
      write (λ s. record s { global = counters.1 })
      pure deleted

-- `ObjectStore::delete`
unfoldable pub delete : StorageScope → ObjectKey → DeleteCondition → Op DeleteOutcome
unfolding delete_found
delete scope key condition = do
  state ← lock
  elim (get (identity scope key) state.objects) [
    | none ↦ pure not_found
    | some current ↦ delete_found scope key condition state current
  ]

-- `ObjectStore::guarantees`
abbrev pub guarantees : LocalObjectStore → StoreGuarantees
guarantees store = record {
  persistence = PersistenceGuarantee.volatile;
  shared_across_processes = false;
  per_operation_atomic = true;
  conditional_writes = true;
  eviction = false;
  limits = store.limits;
}
