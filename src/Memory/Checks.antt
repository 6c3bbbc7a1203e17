-- ===== src/Memory/Checks.antt =====
-- `validate_record` and `validate_query` of crates/memory/src/validation.rs.
use rust_factory.Common.{
  ℕ, Bool, false, not, ◌||◌, Option, none, some, [], ◌∷◌, Bytes, length, all, sort, dedup, Result,
  ok, refuse, ◌>>=◌, ◌>>◌, leb, ltb, ◌==◌, nat_ord, list_ord, map,
}
use rust_factory.TreeMap.{Map}
use rust_factory.Memory.Errors.{MemoryError}
use rust_factory.Memory.Validation.{
  max_content_bytes, max_metadata_entry_bytes, max_metadata_entries, max_tags, max_query_limit,
  max_term_bytes, is_tag,
}
use rust_factory.Memory.Model.{MemoryRecord, MemoryQuery, place, all_kinds, Timestamp}

unfoldable pub check_metadata : Map Bytes Bytes → Result MemoryError (Unit {0})
check_metadata [] = ok tt
check_metadata ((key, value) ∷ entries) = do
  refuse (length key == 0) MemoryError.invalid_record
  refuse (ltb max_metadata_entry_bytes (length key) || ltb max_metadata_entry_bytes (length value))
      MemoryError.limit_exceeded
  check_metadata entries

unfoldable pub validate_record : MemoryRecord → Result MemoryError (Unit {0})
unfolding is_tag sort dedup check_metadata
validate_record item = do
  refuse (length item.content == 0) MemoryError.invalid_record
  refuse (ltb max_content_bytes (length item.content)) MemoryError.limit_exceeded
  refuse (ltb max_tags (length item.tags)) MemoryError.limit_exceeded
  refuse (not (all is_tag item.tags)) MemoryError.invalid_record
  refuse (not (length (dedup (sort item.tags)) == length (sort item.tags)))
      MemoryError.invalid_record
  refuse (ltb max_metadata_entries (length item.metadata)) MemoryError.limit_exceeded
  check_metadata item.metadata

unfoldable pub check_term : Option Bytes → Result MemoryError (Unit {0})
check_term none = ok tt
check_term (some term) = do
  refuse (length term == 0) MemoryError.invalid_query
  refuse (ltb max_term_bytes (length term)) MemoryError.limit_exceeded

abbrev pub empty_window : Option Timestamp → Option Timestamp → Bool
empty_window (some since) (some until) = leb until.micros since.micros
empty_window _ _ = false

unfoldable pub validate_query : MemoryQuery → Result MemoryError (Unit {0})
unfolding is_tag sort dedup check_term
validate_query query = do
  refuse (query.limit == 0 || ltb max_query_limit query.limit) MemoryError.limit_exceeded
  refuse (ltb max_tags (length query.tags)) MemoryError.limit_exceeded
  refuse (not (all is_tag query.tags)) MemoryError.invalid_query
  check_term query.term
  refuse (ltb (length all_kinds) (length query.kinds)) MemoryError.invalid_query
  refuse (not (length (dedup (sort (map place query.kinds))) == length query.kinds))
      MemoryError.invalid_query
  refuse (empty_window query.since query.until) MemoryError.invalid_query

-- `MemoryRecord::validated`
unfoldable pub validated : MemoryRecord → Result MemoryError MemoryRecord
unfolding validate_record
validated item = do validate_record item; ok item

-- `MemoryQuery::all`
unfoldable pub all_of : ℕ → Result MemoryError MemoryQuery
unfolding validate_query
all_of limit =
    let query : MemoryQuery = record {
      kinds = [];
      tags = [];
      term = none;
      since = none;
      until = none;
      limit = limit;
    } in
    validate_query query >>= λ _. ok query
