-- ===== src/Tests/Records.antt =====
-- crates/memory on two tenants' records and an adapter that answers with another tenant's.
use rust_factory.Common.{
  ◌≡◌, refl, ◌≤◌, true, false, none, some, List, [], ◌∷◌, codes, length, All, ok, arith, nat_ord,
  list_ord, pair_ord,
}
use rust_factory.Common.Exec.{pure}
use rust_factory.Memory.Validation.{max_query_limit}
use rust_factory.Memory.Model.{
  TenantId, Namespace, RecordKey, MemoryRecord, MemoryQuery, Timestamp, factual, episodic, created,
  replaced, matches,
}
use rust_factory.Memory.Checks.{validate_record}
use rust_factory.Memory.Store.{new, put, get_record, query_records, delete, InProcessStore}
use rust_factory.Memory.Store.Flat.{
  Call, put_call, get_call, query_call, delete_call, wrote, found, listed, deleted, answer, answers,
  flat_answer,
}
use rust_factory.Memory.Store.Refinement.{refines_flat}
use rust_factory.Memory.Store.Refinement.Invariant.{IsKept}
use rust_factory.Memory.Store.Bounds.{IsBounded, after, new_within_bounds}
use rust_factory.Memory.Service.{
  MemoryStore, MemoryService, MemoryContext, RememberRequest, remember, recall, search, forget,
  is_addressed,
}
use rust_factory.Memory.Service.Scoping.{IsOwn, search_scoped}
use rust_factory.Memory.Service.Isolation.{isolated}
use rust_factory.Memory.Service.Composed.{service_over, IsAsGiven, remember-recall-forget}
use rust_factory.Memory.Service.Searches.{search-in_process}

abbrev acme : TenantId
acme = record { text = codes "acme" }

abbrev other : TenantId
other = record { text = codes "other" }

abbrev notes : Namespace
notes = record { text = codes "notes" }

abbrev first_key : RecordKey
first_key = record { text = codes "a" }

abbrev item_of : TenantId → MemoryRecord
item_of tenant = record {
  tenant_id = tenant;
  namespace = notes;
  key = first_key;
  kind = factual;
  content = codes "text";
  tags = codes "x" ∷ [];
  metadata = [];
  provenance = none;
}

abbrev query : MemoryQuery
query = record {
  kinds = [];
  tags = codes "x" ∷ [];
  term = none;
  since = none;
  until = none;
  limit = 2;
}

abbrev calls : List Call
calls =
    put_call (item_of acme)
    ∷ put_call (item_of acme)
    ∷ query_call acme notes query
    ∷ delete_call acme notes first_key
    ∷ get_call acme notes first_key
    ∷ []

answers_written :
    answers answer calls new
    ≡ wrote (ok created)
      ∷ wrote (ok replaced)
      ∷ listed (ok (item_of acme ∷ []))
      ∷ deleted (ok true)
      ∷ found (ok none)
      ∷ []
unfolding answers answer put get_record query_records delete matches
answers_written = refl

refines_flat_example : answers answer calls new ≡ answers flat_answer calls []
refines_flat_example = refines_flat calls

new_within_bounds_example : IsBounded (after calls new)
new_within_bounds_example = new_within_bounds calls

abbrev context : MemoryContext
context = record { tenant_id = acme }

-- It answers every query with one record of the caller's and two of another tenant.
abbrev hostile : MemoryStore (Unit {0})
hostile = record {
  put = λ _. pure created;
  get = λ _ _ _. pure (some (item_of other));
  query = λ _ _ _. pure (item_of other ∷ item_of acme ∷ item_of other ∷ []);
  delete = λ _ _ _. pure true;
}

abbrev over_hostile : MemoryService (Unit {0})
over_hostile = record { store = hostile; now = record { micros = 7 }; result_ceiling = 16 }

abbrev IsScoped : List MemoryRecord → Type 0
IsScoped items =
    All (IsOwn context notes) items × ((length items ≤ 2) × ((2 ≤ 16) × (2 ≤ max_query_limit)))

search_scoped_example : IsScoped (item_of acme ∷ [])
unfolding search is_addressed
search_scoped_example = search_scoped over_hostile context notes query tt (item_of acme ∷ []) refl

abbrev stored : InProcessStore
stored = record {
  tenants = (codes "acme", (codes "notes", (codes "a", item_of acme) ∷ []) ∷ []) ∷ [];
  poisoned = false;
}

stored-IsKept : IsKept stored
stored-IsKept = (refl, ((tt, tt), (((tt, tt), tt), (((λ e. omega arith), tt), tt))))

isolated_example :
    (get_record acme notes first_key (answer (delete_call other notes first_key) stored).1).0
    ≡ (get_record acme notes first_key stored).0
isolated_example =
    isolated (delete_call other notes first_key) stored acme notes first_key stored-IsKept refl

abbrev request : RememberRequest
request = record {
  namespace = notes;
  key = record { text = codes "b" };
  kind = episodic;
  content = codes "it ran";
  tags = codes "y" ∷ [];
  metadata = (codes "step", codes "2") ∷ [];
  run_id = some (record { text = codes "run-1" });
}

abbrev at_nine : Timestamp
at_nine = record { micros = 9 }

remember-recall-forget_example :
    let service = service_over at_nine 16 in
    let (_, written) = remember service context request stored in
    let (gone, later) = forget service context request.namespace request.key written in
    ((kept : MemoryRecord) × ((recall service context request.namespace request.key written).0
        ≡ ok (some kept))
      × IsAsGiven context at_nine request kept)
    × ((gone ≡ ok true)
        × ((recall service context request.namespace request.key later).0 ≡ ok none))
unfolding remember put
remember-recall-forget_example =
    remember-recall-forget at_nine 16 context request stored created stored-IsKept refl

recall_stamped :
    let service = service_over at_nine 16 in
    let (_, written) = remember service context request stored in
    (recall service context notes request.key written).0
    ≡ ok (
        some (record {
          tenant_id = acme;
          namespace = notes;
          key = record { text = codes "b" };
          kind = episodic;
          content = codes "it ran";
          tags = codes "y" ∷ [];
          metadata = (codes "step", codes "2") ∷ [];
          provenance =
              some (record { run_id = record { text = codes "run-1" }; recorded_at = at_nine });
        }))
unfolding remember recall put get_record is_addressed
recall_stamped = refl

stored-IsBounded : IsBounded stored
unfolding validate_record
stored-IsBounded = (
  refl,
  (
    (
      omega arith,
      (((tt), tt), ((omega arith, (((tt), tt), ((refl, (refl, (refl, refl))), tt))), tt)),
    ),
    tt,
  ),
)

search-in_process_example :
    (search (service_over at_nine 16) context notes query stored).0
    ≡ (query_records acme notes query stored).0
search-in_process_example =
    search-in_process at_nine 16 context notes query stored stored-IsBounded (omega arith)
