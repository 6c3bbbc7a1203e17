-- ===== src/Storage/Model.antt =====
-- crates/storage/src/model.rs: the validated values that a store takes and returns.
use rust_factory.Common.{
  ℕ, Bool, ◌||◌, Option, List, [], ◌∷◌, Bytes, Result, ok, err, ok_or, refuse, ◌>>◌, ltb, ◌==◌,
  if◌then◌else◌, try_from, usize_bits, Ord, ord_by, nat_ord, list_ord,
}
use rust_factory.Storage.Validation.{
  StorageError, invalid_list_limit, corrupt_store, operation_failed, max_list_limit,
  validate_tenant_id, validate_namespace, validate_key, validate_value, validate_limits,
}

pub record TenantId : Type 0 where
  pub text : Bytes

pub record Namespace : Type 0 where
  pub text : Bytes

pub record ObjectKey : Type 0 where
  pub bytes : Bytes

pub record ObjectValue : Type 0 where
  pub bytes : Bytes

-- A `NonZeroU64`.
pub record ObjectVersion : Type 0 where
  pub revision : ℕ

instance abbrev pub tenant_ord : Ord TenantId
tenant_ord = ord_by (λ t. t.text) (λ a b p i. record { text = p i })

instance abbrev pub namespace_ord : Ord Namespace
namespace_ord = ord_by (λ n. n.text) (λ a b p i. record { text = p i })

instance abbrev pub key_ord : Ord ObjectKey
key_ord = ord_by (λ k. k.bytes) (λ a b p i. record { bytes = p i })

instance abbrev pub version_ord : Ord ObjectVersion
version_ord = ord_by (λ v. v.revision) (λ a b p i. record { revision = p i })

unfoldable pub new_tenant_id : Bytes → Result StorageError TenantId
unfolding validate_tenant_id
new_tenant_id value = do validate_tenant_id value; ok (record { text = value })

unfoldable pub new_namespace : Bytes → Result StorageError Namespace
unfolding validate_namespace
new_namespace value = do validate_namespace value; ok (record { text = value })

unfoldable pub new_object_key : Bytes → Result StorageError ObjectKey
unfolding validate_key
new_object_key value = do validate_key value; ok (record { bytes = value })

unfoldable pub new_object_value : Bytes → Result StorageError ObjectValue
unfolding validate_value
new_object_value value = do validate_value value; ok (record { bytes = value })

-- `ObjectKey::minimum`
abbrev pub minimum_key : ObjectKey
minimum_key = record { bytes = 0 ∷ [] }

-- `ObjectVersion::from_revision`
unfoldable pub from_revision : ℕ → Result StorageError ObjectVersion
from_revision revision =
    if revision == 0 then err corrupt_store else ok (record { revision = revision })

pub record StorageScope : Type 0 where
  pub tenant_id : TenantId
  pub namespace : Namespace

pub record ListLimit : Type 0 where
  pub value : ℕ

unfoldable pub new_list_limit : ℕ → Result StorageError ListLimit
new_list_limit value = do
  refuse (value == 0 || ltb max_list_limit value) invalid_list_limit
  ok (record { value = value })

-- `ListLimit::as_usize`
unfoldable pub as_usize : ListLimit → Result StorageError ℕ
as_usize limit = ok_or (try_from usize_bits limit.value) operation_failed

pub record ListRequest : Type 0 where
  pub after_key : Option ObjectKey
  pub limit : ListLimit

pub data PutCondition : Type 0 where
  any if_absent : PutCondition
  if_version : ObjectVersion → PutCondition

pub data DeleteCondition : Type 0 where
  any : DeleteCondition
  if_version : ObjectVersion → DeleteCondition

pub data PutOutcome : Type 0 where
  created replaced : ObjectVersion → PutOutcome
  conflict : PutOutcome

pub data DeleteOutcome : Type 0 where
  deleted not_found conflict : DeleteOutcome

pub record StoredObject : Type 0 where
  pub version : ObjectVersion
  pub value : ObjectValue

pub record ObjectMetadata : Type 0 where
  pub key : ObjectKey
  pub version : ObjectVersion
  pub size_bytes : ℕ

pub record ListPage : Type 0 where
  pub objects : List ObjectMetadata
  pub has_more : Bool

pub record StorageLimits : Type 0 where
  pub max_objects_per_tenant : ℕ
  pub max_value_bytes_per_tenant : ℕ
  pub max_objects_global : ℕ
  pub max_value_bytes_global : ℕ

unfoldable pub new_storage_limits : ℕ → ℕ → ℕ → ℕ → Result StorageError StorageLimits
unfolding validate_limits
new_storage_limits objects_per_tenant value_bytes_per_tenant objects_global value_bytes_global = do
  validate_limits objects_per_tenant value_bytes_per_tenant objects_global value_bytes_global
  ok (record {
    max_objects_per_tenant = objects_per_tenant;
    max_value_bytes_per_tenant = value_bytes_per_tenant;
    max_objects_global = objects_global;
    max_value_bytes_global = value_bytes_global;
  })

pub data PersistenceGuarantee : Type 0 where
  volatile clean_restart immediate_commit : PersistenceGuarantee

pub record StoreGuarantees : Type 0 where
  pub persistence : PersistenceGuarantee
  pub shared_across_processes : Bool
  pub per_operation_atomic : Bool
  pub conditional_writes : Bool
  pub eviction : Bool
  pub limits : StorageLimits
