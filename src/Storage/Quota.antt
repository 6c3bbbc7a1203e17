-- ===== src/Storage/Quota.antt =====
-- The counters of crates/storage/src/local.rs and their checked arithmetic.
use rust_factory.Common.{
  ℕ, ◌||◌, Option, none, some, Result, ok, ok_or, refuse, ◌>>=◌, ◌>>◌, ltb, checked_add,
  checked_sub,
}
use rust_factory.Storage.Validation.{StorageError, limit_exceeded, operation_failed}
use rust_factory.Storage.Model.{StorageLimits}

pub record Counters : Type 0 where
  pub objects : ℕ
  pub value_bytes : ℕ

abbrev pub zero_counters : Counters
zero_counters = record { objects = 0; value_bytes = 0 }

-- One more object, unless one is replaced.
abbrev pub next_objects : Option ℕ → ℕ → Result StorageError ℕ
next_objects (some _) objects = ok objects
next_objects none objects = ok_or (checked_add 64 objects 1) limit_exceeded

-- `held - old + new`, checked.
abbrev pub next_bytes : ℕ → ℕ → ℕ → Result StorageError ℕ
next_bytes held old new = do
  rest ← ok_or (checked_sub held old) operation_failed
  ok_or (checked_add 64 rest new) limit_exceeded

abbrev pub bytes_or_zero : Option ℕ → ℕ
bytes_or_zero none = 0
bytes_or_zero (some n) = n

-- `LocalObjectStore::checked_put_counters`
unfoldable pub checked_put_counters :
    StorageLimits → Counters → Counters → Option ℕ → ℕ → Result StorageError (Counters × Counters)
checked_put_counters limits tenant global old_bytes new_bytes = do
  tenant_objects ← next_objects old_bytes tenant.objects
  global_objects ← next_objects old_bytes global.objects
  tenant_bytes ← next_bytes tenant.value_bytes (bytes_or_zero old_bytes) new_bytes
  global_bytes ← next_bytes global.value_bytes (bytes_or_zero old_bytes) new_bytes
  refuse
      (ltb limits.max_objects_per_tenant tenant_objects
        || ltb limits.max_value_bytes_per_tenant tenant_bytes
        || ltb limits.max_objects_global global_objects
        || ltb limits.max_value_bytes_global global_bytes)
      limit_exceeded
  ok (
    record { objects = tenant_objects; value_bytes = tenant_bytes },
    record { objects = global_objects; value_bytes = global_bytes },
  )

abbrev pub less_one : Counters → ℕ → Result StorageError Counters
less_one held old_bytes = do
  objects ← ok_or (checked_sub held.objects 1) operation_failed
  value_bytes ← ok_or (checked_sub held.value_bytes old_bytes) operation_failed
  ok (record { objects = objects; value_bytes = value_bytes })

-- The counters of `delete`: one object less, of `old_bytes`.
unfoldable pub checked_delete_counters :
    Counters → Counters → ℕ → Result StorageError (Counters × Counters)
checked_delete_counters held global old_bytes = do
  tenant ← less_one held old_bytes
  global ← less_one global old_bytes
  ok (tenant, global)
