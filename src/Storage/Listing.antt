-- ===== src/Storage/Listing.antt =====
-- `ObjectStore::list` of crates/storage/src/local.rs: a range scan that stops at the end of the scope
-- or of the page.
pub mod Ranges
pub mod Scan
pub mod Page
use rust_factory.Common.{
  ℕ, Bool, true, false, not, ◌||◌, Option, none, some, List, [], ◌∷◌, ◌++◌, length, Result, ok,
  ok_or, ◌>>=◌, ◌==◌, if◌then◌else◌, try_from, same, pair_ord,
}
use rust_factory.Common.Exec.{lift}
use rust_factory.Common.Exec
use rust_factory.TreeMap.{Map, from_included, from_excluded}
use rust_factory.Storage.Validation.{StorageError, operation_failed}
use rust_factory.Storage.Model.{
  ObjectKey, tenant_ord, namespace_ord, key_ord, minimum_key, StorageScope, ListRequest, as_usize,
  ObjectMetadata, ListPage,
}
use rust_factory.Storage.Local.{Identity, Entry, Op, identity, lock}

-- `range((lower, Unbounded))`
unfoldable pub entries_after :
    StorageScope → Option ObjectKey → Map Identity Entry → Map Identity Entry
unfolding from_included from_excluded
entries_after scope none objects = from_included (identity scope minimum_key) objects
entries_after scope (some key) objects = from_excluded (identity scope key) objects

unfoldable pub metadata : Identity → Entry → Result StorageError ObjectMetadata
metadata id entry = do
  size_bytes ← ok_or (try_from 32 (length entry.value.bytes)) operation_failed
  ok (record { key = id.1.1; version = entry.version; size_bytes = size_bytes })

abbrev pub outside : StorageScope → Identity → Bool
outside scope id = not (same id.0 scope.tenant_id) || not (same id.1.0 scope.namespace)

-- The loop over the range; `objects` is the page so far.
unfoldable pub scan :
    StorageScope → ℕ → List ObjectMetadata → Map Identity Entry → Result StorageError ListPage
unfolding metadata
scan scope limit objects [] = ok (record { objects = objects; has_more = false })
scan scope limit objects ((id, entry) ∷ rest) =
    let next : Result StorageError ListPage = (do
      item ← metadata id entry
      scan scope limit (objects ++ item ∷ []) rest) in
    if outside scope id
    then ok (record { objects = objects; has_more = false })
    else if length objects == limit
    then ok (record { objects = objects; has_more = true })
    else next

-- `ObjectStore::list`
unfoldable pub list : StorageScope → ListRequest → Op ListPage
unfolding entries_after scan as_usize
list scope request = Exec.◌>>=◌ lock (λ state.
    Exec.◌>>=◌ (lift (as_usize request.limit))
      (λ limit. lift (scan scope limit [] (entries_after scope request.after_key state.objects))))
