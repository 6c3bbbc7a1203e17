-- ===== src/Memory/Validation.antt =====
-- The bounds of crates/memory/src/model.rs, and the grammar and capacity rules of
-- src/validation.rs.
use rust_factory.Common.{
  ℕ, Bool, false, not, ◌&&◌, ◌||◌, [], ◌∷◌, Bytes, length, all, Result, refuse, ◌>>◌, leb, ◌==◌,
  is_ascii_lowercase, is_ascii_uppercase, is_ascii_digit, is_ascii_alphanumeric,
}
use rust_factory.Memory.Errors.{MemoryError}

abbrev pub max_content_bytes : ℕ
max_content_bytes = 32_768

abbrev pub max_metadata_entry_bytes : ℕ
max_metadata_entry_bytes = 1_024

abbrev pub max_metadata_entries : ℕ
max_metadata_entries = 32

abbrev pub max_id_bytes : ℕ
max_id_bytes = 128

abbrev pub max_tags : ℕ
max_tags = 16

abbrev pub max_query_limit : ℕ
max_query_limit = 256

abbrev pub max_partition_records : ℕ
max_partition_records = 4_096

abbrev pub max_tenant_namespaces : ℕ
max_tenant_namespaces = 64

abbrev pub max_term_bytes : ℕ
max_term_bytes = 1_024

-- `bytes[0]`; the length has been tested before it is read.
abbrev starts_logical : Bytes → Bool
starts_logical [] = false
starts_logical (byte ∷ _) = is_ascii_alphanumeric byte && not (is_ascii_uppercase byte)

abbrev is_logical_byte : ℕ → Bool
is_logical_byte byte =
    is_ascii_lowercase byte || is_ascii_digit byte || byte == b'_' || byte == b'-' || byte == b'.'

unfoldable pub is_logical_id : Bytes → Bool
is_logical_id bytes =
    not (length bytes == 0)
    && leb (length bytes) max_id_bytes
    && starts_logical bytes
    && all is_logical_byte bytes

unfoldable pub is_tag : Bytes → Bool
unfolding is_logical_id
is_tag value = is_logical_id value

unfoldable pub check_capacity : ℕ → Bool → ℕ → Bool → Result MemoryError (Unit {0})
check_capacity tenant_namespaces namespace_is_new partition_records key_is_new = do
  refuse (namespace_is_new && leb max_tenant_namespaces tenant_namespaces)
      MemoryError.limit_exceeded
  refuse (key_is_new && leb max_partition_records partition_records) MemoryError.limit_exceeded
