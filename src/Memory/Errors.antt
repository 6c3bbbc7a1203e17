-- ===== src/Memory/Errors.antt =====
-- crates/memory/src/error.rs.
use rust_factory.Common.{Bytes, codes}

pub data PublicErrorCode : Type 0 where
  invalid_id invalid_record invalid_query limit_exceeded : PublicErrorCode
  not_found tenant_mismatch unauthorized adapter_failure : PublicErrorCode

-- `PublicErrorCode::as_str`
unfoldable pub wire_name : PublicErrorCode → Bytes
wire_name PublicErrorCode.invalid_id = codes "invalid_id"
wire_name PublicErrorCode.invalid_record = codes "invalid_record"
wire_name PublicErrorCode.invalid_query = codes "invalid_query"
wire_name PublicErrorCode.limit_exceeded = codes "limit_exceeded"
wire_name PublicErrorCode.not_found = codes "not_found"
wire_name PublicErrorCode.tenant_mismatch = codes "tenant_mismatch"
wire_name PublicErrorCode.unauthorized = codes "unauthorized"
wire_name PublicErrorCode.adapter_failure = codes "adapter_failure"

pub data MemoryError : Type 0 where
  invalid_id invalid_record invalid_query limit_exceeded : MemoryError
  not_found tenant_mismatch unauthorized adapter_failure : MemoryError

unfoldable pub public_code : MemoryError → PublicErrorCode
public_code MemoryError.invalid_id = PublicErrorCode.invalid_id
public_code MemoryError.invalid_record = PublicErrorCode.invalid_record
public_code MemoryError.invalid_query = PublicErrorCode.invalid_query
public_code MemoryError.limit_exceeded = PublicErrorCode.limit_exceeded
public_code MemoryError.not_found = PublicErrorCode.not_found
public_code MemoryError.tenant_mismatch = PublicErrorCode.not_found
public_code MemoryError.unauthorized = PublicErrorCode.unauthorized
public_code MemoryError.adapter_failure = PublicErrorCode.adapter_failure

-- `Display` and `Debug`
unfoldable pub shown : MemoryError → Bytes
unfolding public_code wire_name
shown error = wire_name (public_code error)
