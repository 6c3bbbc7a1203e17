-- ===== src/Storage/Validation.antt =====
-- crates/storage/src/error.rs and validation.rs, with the ceilings of model.rs.
use rust_factory.Common.{
  ℕ, Bool, ◌||◌, not, [], ◌∷◌, Bytes, codes, length, all, Result, ok, ok_or, refuse, ◌>>=◌, ◌>>◌,
  ltb, ◌==◌, try_from, is_ascii_alphanumeric,
}

pub data StorageError : Type 0 where
  invalid_tenant_id invalid_namespace invalid_object_key invalid_value : StorageError
  invalid_list_limit invalid_limits limit_exceeded revision_exhausted : StorageError
  lock_unavailable corrupt_store operation_failed : StorageError

-- The public code, safe for logs.
pub code : StorageError → Bytes
code invalid_tenant_id = codes "invalid_tenant_id"
code invalid_namespace = codes "invalid_namespace"
code invalid_object_key = codes "invalid_object_key"
code invalid_value = codes "invalid_value"
code invalid_list_limit = codes "invalid_list_limit"
code invalid_limits = codes "invalid_limits"
code limit_exceeded = codes "limit_exceeded"
code revision_exhausted = codes "revision_exhausted"
code lock_unavailable = codes "lock_unavailable"
code corrupt_store = codes "corrupt_store"
code operation_failed = codes "operation_failed"

abbrev pub max_tenant_id_bytes : ℕ
max_tenant_id_bytes = 128

abbrev pub max_namespace_bytes : ℕ
max_namespace_bytes = 128

abbrev pub max_object_key_bytes : ℕ
max_object_key_bytes = 1_024

abbrev pub max_object_value_bytes : ℕ
max_object_value_bytes = 1_048_576

abbrev pub max_list_limit : ℕ
max_list_limit = 1_000

abbrev pub max_objects_per_tenant : ℕ
max_objects_per_tenant = 100_000

abbrev pub max_value_bytes_per_tenant : ℕ
max_value_bytes_per_tenant = 1_073_741_824

abbrev pub max_objects_global : ℕ
max_objects_global = 1_000_000

abbrev pub max_value_bytes_global : ℕ
max_value_bytes_global = 8_589_934_592

-- `bytes[0]`; the length has been tested before it is read.
abbrev starts_alphanumeric : Bytes → Bool
starts_alphanumeric [] = Bool.false
starts_alphanumeric (byte ∷ _) = is_ascii_alphanumeric byte

abbrev is_id_byte : ℕ → Bool
is_id_byte byte = is_ascii_alphanumeric byte || byte == b'.' || byte == b'_' || byte == b'-'

unfoldable pub validate_logical_id : Bytes → ℕ → StorageError → Result StorageError (Unit {0})
validate_logical_id value maximum error = do
  length ← ok_or (try_from 16 (length value)) error
  refuse
      (length == 0
        || ltb maximum length
        || not (starts_alphanumeric value)
        || not (all is_id_byte value))
      error

unfoldable pub validate_tenant_id : Bytes → Result StorageError (Unit {0})
unfolding validate_logical_id
validate_tenant_id value = validate_logical_id value max_tenant_id_bytes invalid_tenant_id

unfoldable pub validate_namespace : Bytes → Result StorageError (Unit {0})
unfolding validate_logical_id
validate_namespace value = validate_logical_id value max_namespace_bytes invalid_namespace

unfoldable pub validate_key : Bytes → Result StorageError ℕ
validate_key value = do
  length ← ok_or (try_from 16 (length value)) invalid_object_key
  refuse (length == 0 || ltb max_object_key_bytes length) invalid_object_key
  ok length

unfoldable pub validate_value : Bytes → Result StorageError ℕ
validate_value value = do
  length ← ok_or (try_from 32 (length value)) invalid_value
  refuse (ltb max_object_value_bytes length) invalid_value
  ok length

unfoldable pub validate_limits : ℕ → ℕ → ℕ → ℕ → Result StorageError (Unit {0})
validate_limits objects_per_tenant value_bytes_per_tenant objects_global value_bytes_global =
    refuse
      (objects_per_tenant == 0
        || ltb max_objects_per_tenant objects_per_tenant
        || value_bytes_per_tenant == 0
        || ltb max_value_bytes_per_tenant value_bytes_per_tenant
        || objects_global == 0
        || ltb max_objects_global objects_global
        || value_bytes_global == 0
        || ltb max_value_bytes_global value_bytes_global
        || ltb objects_global objects_per_tenant
        || ltb value_bytes_global value_bytes_per_tenant)
      invalid_limits
