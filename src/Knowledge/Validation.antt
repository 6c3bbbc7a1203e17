-- ===== src/Knowledge/Validation.antt =====
-- crates/knowledge/src/error.rs and validation.rs.
use rust_factory.Common.{
  ℕ, ◌*◌, Bool, false, not, ◌||◌, [], ◌∷◌, Bytes, codes, length, all, Result, ok, ok_or, refuse,
  ◌>>=◌, ◌>>◌, ltb, ◌==◌, checked_add, usize_bits, is_ascii_lowercase, is_ascii_digit,
}

pub data KnowledgeError : Type 0 where
  invalid_request limit_exceeded unavailable protocol_violation : KnowledgeError

-- `Display`
pub display : KnowledgeError → Bytes
display invalid_request = codes "invalid_request"
display limit_exceeded = codes "limit_exceeded"
display unavailable = codes "unavailable"
display protocol_violation = codes "protocol_violation"

abbrev pub max_identifier_bytes : ℕ
max_identifier_bytes = 128

abbrev pub max_query_bytes : ℕ
max_query_bytes = 16 * 1024

abbrev pub max_search_limit : ℕ
max_search_limit = 64

abbrev pub max_document_text_bytes : ℕ
max_document_text_bytes = 16 * 1024

abbrev pub max_result_text_bytes : ℕ
max_result_text_bytes = 64 * 1024

abbrev pub max_static_documents : ℕ
max_static_documents = 10_000

abbrev pub max_static_text_bytes : ℕ
max_static_text_bytes = 64 * 1024 * 1024

abbrev pub is_identifier_start : ℕ → Bool
is_identifier_start byte = is_ascii_lowercase byte || is_ascii_digit byte

abbrev pub is_identifier_continue : ℕ → Bool
is_identifier_continue byte = is_identifier_start byte || byte == b'_' || byte == b'-'

-- The tests of `bytes[0]` and of `bytes[1..]`; the length has been tested before.
abbrev starts_identifier : Bytes → Bool
starts_identifier [] = false
starts_identifier (byte ∷ _) = is_identifier_start byte

abbrev continues_identifier : Bytes → Bool
continues_identifier [] = false
continues_identifier (_ ∷ bytes) = all is_identifier_continue bytes

unfoldable pub validate_identifier : Bytes → Result KnowledgeError (Unit {0})
validate_identifier bytes =
    refuse
      (length bytes == 0
        || ltb max_identifier_bytes (length bytes)
        || not (starts_identifier bytes)
        || not (continues_identifier bytes))
      invalid_request

unfoldable pub checked_add_with_limit : ℕ → ℕ → ℕ → Result KnowledgeError ℕ
checked_add_with_limit total additional limit = do
  total ← ok_or (checked_add usize_bits total additional) limit_exceeded
  refuse (ltb limit total) limit_exceeded
  ok total
