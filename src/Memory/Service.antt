-- ===== src/Memory/Service.antt =====
-- `MemoryService` of crates/memory/src/service.rs over any adapter of the port of src/port.rs, an
-- adversarial one included.
pub mod Scoping
pub mod Isolation
pub mod Composed
pub mod Searches
use rust_factory.Common.{
  ℕ, Bool, true, false, ◌&&◌, ◌||◌, Option, none, some, List, Bytes, take, keep_if, Result, ok, err,
  if◌then◌else◌, leb, ltb, ◌==◌, same, nat_ord, list_ord,
}
use mathlib.Core.Option
use rust_factory.Common.Exec.{Exec, pure, throw, lift, ◌>>=◌, ◌>>◌}
use rust_factory.TreeMap.{Map}
use rust_factory.Memory.Errors.{MemoryError}
use rust_factory.Memory.Validation.{max_query_limit}
use rust_factory.Memory.Checks.{validate_record, validate_query}
use rust_factory.Memory.Model.{
  TenantId, Namespace, RecordKey, RunId, Provenance, Timestamp, MemoryKind, MemoryRecord,
  MemoryQuery, WriteOutcome,
}

-- The trait `MemoryStore` on a state of the adapter's own.
pub record MemoryStore (S : Type 0) : Type 0 where
  pub put : MemoryRecord → Exec S MemoryError WriteOutcome
  pub get : TenantId → Namespace → RecordKey → Exec S MemoryError (Option MemoryRecord)
  pub query : TenantId → Namespace → MemoryQuery → Exec S MemoryError (List MemoryRecord)
  pub delete : TenantId → Namespace → RecordKey → Exec S MemoryError Bool

pub record MemoryContext : Type 0 where
  pub tenant_id : TenantId

pub record RememberRequest : Type 0 where
  pub namespace : Namespace
  pub key : RecordKey
  pub kind : MemoryKind
  pub content : Bytes
  pub tags : List Bytes
  pub metadata : Map Bytes Bytes
  pub run_id : Option RunId

-- `now` is what the clock says when the service asks it.
pub record MemoryService (S : Type 0) : Type 0 where
  pub store : MemoryStore S
  pub now : Timestamp
  pub result_ceiling : ℕ

-- `MemoryService::new`
abbrev pub new : {S : Type 0} → MemoryStore S → Timestamp → MemoryService S
new store now = record { store = store; now = now; result_ceiling = max_query_limit }

unfoldable pub with_result_ceiling :
    {S : Type 0} → MemoryStore S → Timestamp → ℕ → Result MemoryError (MemoryService S)
with_result_ceiling store now ceiling =
    if ceiling == 0 || ltb max_query_limit ceiling
    then err MemoryError.limit_exceeded
    else ok (record { store = store; now = now; result_ceiling = ceiling })

abbrev is_key : Option RecordKey → RecordKey → Bool
is_key none key = true
is_key (some addressed) key = same key.text addressed.text

unfoldable pub is_addressed : MemoryContext → Namespace → Option RecordKey → MemoryRecord → Bool
is_addressed context namespace key item =
    same item.tenant_id.text context.tenant_id.text
    && same item.namespace.text namespace.text
    && is_key key item.key

-- The record that `remember` builds; a run is stamped with the service's own clock.
abbrev pub remembered : MemoryContext → Timestamp → RememberRequest → MemoryRecord
remembered context now request = record {
  tenant_id = context.tenant_id;
  namespace = request.namespace;
  key = request.key;
  kind = request.kind;
  content = request.content;
  tags = request.tags;
  metadata = request.metadata;
  provenance = Option.map (λ run_id. record { run_id = run_id; recorded_at = now }) request.run_id;
}

-- `Option::filter`
abbrev pub filtered : {A : Type 0} → (A → Bool) → Option A → Option A
filtered p none = none
filtered p (some a) = if p a then some a else none

module _ {S : Type 0} (service : MemoryService S) (context : MemoryContext) where
  unfoldable pub remember : RememberRequest → Exec S MemoryError WriteOutcome
  unfolding validate_record
  remember request = do
    lift (validate_record (remembered context service.now request))
    service.store.put (remembered context service.now request)

  unfoldable pub recall : Namespace → RecordKey → Exec S MemoryError (Option MemoryRecord)
  unfolding is_addressed
  recall namespace key = do
    found ← service.store.get context.tenant_id namespace key
    pure (filtered (is_addressed context namespace (some key)) found)

  unfoldable pub search : Namespace → MemoryQuery → Exec S MemoryError (List MemoryRecord)
  unfolding validate_query is_addressed
  search namespace query = do
    lift (validate_query query)
    lift (if ltb service.result_ceiling query.limit then err MemoryError.limit_exceeded else ok tt)
    found ← service.store.query context.tenant_id namespace query
    pure (take query.limit (keep_if (is_addressed context namespace none) found))

  unfoldable pub forget : Namespace → RecordKey → Exec S MemoryError Bool
  forget namespace key = service.store.delete context.tenant_id namespace key
