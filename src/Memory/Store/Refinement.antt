-- ===== src/Memory/Store/Refinement.antt =====
-- The nested maps of `InProcessStore` against the flat map, over any sequence of calls.
pub mod Invariant
pub mod Puts
pub mod Deletes
use rust_factory.Common.{
  ◌≡◌, refl, sym, ap, ◌∙◌, ℕ, Bool, true, false, not, Bool-cases, Option, none, some, Option-cases,
  List, [], ◌∷◌, Bytes, length, map, take, keep_if, Result, ok, err, Result-cases, ◌==◌, nat_ord,
  list_ord, pair_ord, arith, inl, inr,
}
use rust_factory.TreeMap.{Map, get, insert, remove, IsSorted}
use rust_factory.TreeMap.Laws.{insert-IsSorted, remove-IsSorted, insert-insert, remove_missing}
use rust_factory.TreeMap.Every.{Every, Every-insert, Every-remove, Every-get}
use rust_factory.TreeMap.Nested.{or_empty, put_back, is_empty}
use rust_factory.TreeMap.Nested.Scopes.{IsFilled}
use rust_factory.TreeMap.Nested.Deep.{
  deep, SortedWithin, FilledWithin, inner-IsSorted, inner-IsFilled, deep-insert, get-deep,
  deep-put_back, deep-touch,
}
use rust_factory.TreeMap.Nested.Partitions.{
  partition, second_keys, partition-deep, length-partition-deep, second_keys-deep,
}
use rust_factory.Memory.Errors.{MemoryError}
use rust_factory.Memory.Validation.{check_capacity}
use rust_factory.Memory.Checks.{validate_record, validate_query}
use rust_factory.Memory.Model.{
  TenantId, Namespace, RecordKey, MemoryRecord, MemoryQuery, matches, WriteOutcome,
}
use rust_factory.Memory.Store.{
  InProcessStore, new, Tenant, Partition, is_none, outcome, put, get_record, query_records, delete,
}
use rust_factory.Memory.Store.Flat.{
  FlatStore, flat_put, flat_get, flat_query, flat_delete, Call, put_call, get_call, query_call,
  delete_call, Answer, wrote, found, listed, deleted, answer, flat_answer, answers,
}
use rust_factory.Memory.Store.Refinement.Invariant.{
  view, Kept, IsKept, Agree, Kept-insert, Kept-put_back, insert-IsFilled, is_none-length,
}
use rust_factory.Memory.Store.Refinement.Puts.{put_agrees}
use rust_factory.Memory.Store.Refinement.Deletes.{get_agrees, query_agrees, delete_agrees}

-- One call, on the state with the given contents.
abbrev pub CallAgrees : Call → InProcessStore → Type 0
CallAgrees c s =
    ((answer c s).0 ≡ (flat_answer c (view s)).0)
    × ((view (answer c s).1 ≡ (flat_answer c (view s)).1) × IsKept (answer c s).1)

call_at :
    (c : Call) (m : Map Bytes Tenant)
    → Kept m
    → CallAgrees c (record { tenants = m; poisoned = false })
unfolding answer flat_answer
call_at (put_call item) m kept = let (r, v) = put_agrees item m kept in (ap wrote r, v)
call_at (get_call t n k) m kept = let (r, v) = get_agrees t n m k kept in (ap found r, v)
call_at (query_call t n q) m kept = let (r, v) = query_agrees t n m q kept in (ap listed r, v)
call_at (delete_call t n k) m kept = let (r, v) = delete_agrees t n m k kept in (ap deleted r, v)

pub call_agrees : (c : Call) (s : InProcessStore) → IsKept s → CallAgrees c s
call_agrees c s (clear, kept) =
    let clean : s ≡ record { tenants = s.tenants; poisoned = false } =
      ap (λ p. record { tenants = s.tenants; poisoned = p }) clear in
    rw clean (call_at c s.tenants kept)

answers_agree :
    (calls : List Call) (s : InProcessStore)
    → IsKept s
    → answers answer calls s ≡ answers flat_answer calls (view s)
unfolding answers
answers_agree [] s kept = refl
answers_agree (c ∷ calls) s kept =
    let (a, (v, k)) = call_agrees c s kept in
    rw (a, sym v) (ap (◌∷◌ (flat_answer c (view s)).0) (answers_agree calls (answer c s).1 k))

-- Whatever calls of put, get, query and delete are made on a new `InProcessStore`, its nested maps
-- answer each of them as one flat map from tenant, namespace and key does, in which a namespace
-- exists exactly when it holds a record: capacity refusals fall on the same counts, results come
-- in the same order, and neither a refused put nor the reclaiming of an emptied level leaves a
-- trace that a later answer shows.
pub refines_flat : (calls : List Call) → answers answer calls new ≡ answers flat_answer calls []
unfolding deep
refines_flat calls = answers_agree calls new (refl, (tt, (tt, tt)))
