-- ===== src/Memory/Service/Composed.antt =====
-- The service over `InProcessStore`.
use mathlib.Core.Option
use rust_factory.Common.{
  ◌≡◌, refl, sym, ap, ◌∙◌, ℕ, Bool, true, Option, none, some, Bytes, Result, ok, err, Result-cases,
  same_refl, nat_ord, list_ord, pair_ord, inl, inr,
}
use rust_factory.TreeMap.{get}
use rust_factory.TreeMap.Laws.{get-insert_same, get-remove}
use rust_factory.Memory.Errors.{MemoryError}
use rust_factory.Memory.Checks.{validate_record}
use rust_factory.Memory.Model.{
  Namespace, RecordKey, RunId, Provenance, Timestamp, MemoryRecord, WriteOutcome,
}
use rust_factory.Memory.Store.{InProcessStore, put, get_record, query_records, delete}
use rust_factory.Memory.Store.Flat.{
  put_call, delete_call, deleted, answer, flat_delete, flat_answer,
}
use rust_factory.Memory.Store.Refinement.Invariant.{view, IsKept}
use rust_factory.Memory.Store.Refinement.{call_agrees}
use rust_factory.Memory.Service.{
  MemoryStore, MemoryService, MemoryContext, RememberRequest, remembered, filtered, is_addressed,
  remember, recall, forget,
}
use rust_factory.Memory.Service.Isolation.{slot, held_at, record_held, flat_put-cases}

abbrev pub in_process : MemoryStore InProcessStore
in_process = record { put = put; get = get_record; query = query_records; delete = delete }

abbrev pub service_over : Timestamp → ℕ → MemoryService InProcessStore
service_over now ceiling = record { store = in_process; now = now; result_ceiling = ceiling }

module _ (now : Timestamp) (ceiling : ℕ) (context : MemoryContext) (s : InProcessStore) where
  recalled :
      (namespace : Namespace) (key : RecordKey)
      → IsKept s
      → (recall (service_over now ceiling) context namespace key s).0
        ≡ ok (
            filtered
              (is_addressed context namespace (some key))
              (held_at s context.tenant_id.text namespace.text key.text))
  unfolding recall
  recalled namespace key kept = rw (record_held context.tenant_id namespace key s kept) refl

  recalled_none :
      (namespace : Namespace) (key : RecordKey)
      → IsKept s
      → held_at s context.tenant_id.text namespace.text key.text ≡ none
      → (recall (service_over now ceiling) context namespace key s).0 ≡ ok none
  recalled_none namespace key kept h = recalled namespace key kept ∙ rw h refl

abbrev pub key_place : MemoryContext → Namespace → RecordKey → Bytes × (Bytes × Bytes)
key_place context namespace key = (context.tenant_id.text, (namespace.text, key.text))

module _ (now : Timestamp) (ceiling : ℕ) (context : MemoryContext) (request : RememberRequest)
    (s : InProcessStore) where
  abbrev item : MemoryRecord
  item = remembered context now request

  abbrev service : MemoryService InProcessStore
  service = service_over now ceiling

  remember_accepted : validate_record item ≡ ok tt → remember service context request s ≡ put item s
  unfolding remember
  remember_accepted v = rw v refl

  remember_refused :
      (e : MemoryError)
      → validate_record item ≡ err e
      → remember service context request s ≡ (err e, s)
  unfolding remember
  remember_refused e v = rw v refl

  put_held :
      (o : WriteOutcome)
      → IsKept s
      → (put item s).0 ≡ ok o
      → IsKept (put item s).1 × (get (slot item) (view (put item s).1) ≡ some item)
  unfolding answer flat_answer
  put_held o kept h =
      let (said, (seen, kept')) = call_agrees (put_call item) s kept in
      elim (flat_put-cases item (view s)) [
        | inl (e, p) ↦ absurd (cc (h, said, p))
        | inr (v, (_, p)) ↦ (kept', rw (seen, p) (get-insert_same (slot item) item (view s)))
      ]

  remembered_held :
      (o : WriteOutcome)
      → IsKept s
      → (remember service context request s).0 ≡ ok o
      → IsKept (remember service context request s).1
        × (get (slot item) (view (remember service context request s).1) ≡ some item)
  remembered_held o kept h = elim (Result-cases (validate_record item)) [
    | inr (e, v) ↦ absurd (cc (h, remember_refused e v))
    | inl (tt, v) ↦
        rw (remember_accepted v) (put_held o kept (ap (λ z. z.0) (sym (remember_accepted v)) ∙ h))
  ]

module _ (context : MemoryContext) (namespace : Namespace) (key : RecordKey)
    (s : InProcessStore) where
  forgotten :
      (now : Timestamp) (ceiling : ℕ) (stored : MemoryRecord)
      → IsKept s
      → get (key_place context namespace key) (view s) ≡ some stored
      → ((forget (service_over now ceiling) context namespace key s).0 ≡ ok true)
        × (IsKept (forget (service_over now ceiling) context namespace key s).1
            × (get
                  (key_place context namespace key)
                  (view (forget (service_over now ceiling) context namespace key s).1)
                ≡ none))
  unfolding forget answer flat_answer flat_delete
  forgotten now ceiling stored kept h =
      let (said, (seen, kept')) =
        call_agrees (delete_call context.tenant_id namespace key) s kept in
      (
        deleted_of _ _ (said ∙ rw h refl),
        (
          kept',
          rw
              (
                seen,
                get-remove (key_place context namespace key) (key_place context namespace key)
                    (view s),
                same_refl (key_place context namespace key),
              )
              refl,
        ),
      )
    where
      deleted_of : (r q : Result MemoryError Bool) → deleted r ≡ deleted q → r ≡ q
      deleted_of r q e = cc e

recalled_some :
    (now : Timestamp) (ceiling : ℕ) (context : MemoryContext) (request : RememberRequest)
    (s : InProcessStore)
    → IsKept s
    → get (slot (remembered context now request)) (view s) ≡ some (remembered context now request)
    → (recall (service_over now ceiling) context request.namespace request.key s).0
      ≡ ok (some (remembered context now request))
unfolding is_addressed
recalled_some now ceiling context request s kept h =
    recalled now ceiling context s request.namespace request.key kept
    ∙ rw
        (
          h,
          same_refl context.tenant_id.text,
          same_refl request.namespace.text,
          same_refl request.key.text,
        )
        refl

-- A request without a run leaves no provenance; one with a run leaves that run and the time at
-- which the service's clock stood.
abbrev pub IsStamped : Timestamp → Option RunId → Option Provenance → Type 0
IsStamped now none provenance = provenance ≡ none
IsStamped now (some run) none = ⊥
IsStamped now (some run) (some provenance) =
    (provenance.run_id ≡ run) × (provenance.recorded_at ≡ now)

-- A record of the context's tenant with everything that the request gave.
abbrev pub IsAsGiven : MemoryContext → Timestamp → RememberRequest → MemoryRecord → Type 0
IsAsGiven context now request kept =
    (kept.tenant_id ≡ context.tenant_id)
    × (kept.namespace ≡ request.namespace)
    × (kept.key ≡ request.key)
    × (kept.kind ≡ request.kind)
    × (kept.content ≡ request.content)
    × (kept.tags ≡ request.tags)
    × (kept.metadata ≡ request.metadata)
    × IsStamped now request.run_id kept.provenance

remembered-IsAsGiven :
    (context : MemoryContext) (now : Timestamp) (request : RememberRequest)
    → IsAsGiven context now request (remembered context now request)
remembered-IsAsGiven context now request =
    (refl, refl, refl, refl, refl, refl, refl, stamped request.run_id)
  where
    stamped :
        (run : Option RunId)
        → IsStamped now run
            (Option.map (λ run_id. record { run_id = run_id; recorded_at = now }) run)
    stamped none = refl
    stamped (some run) = (refl, refl)

-- Over an `InProcessStore` that keeps its invariant, after a request that `remember` accepts, the
-- record that is recalled has the context's tenant and the namespace, key, kind, content, tags and
-- metadata of the request, with the request's run and the time of the service's clock if it names
-- a run, and no provenance if it does not; `forget` then answers true and it is recalled no more.
pub remember-recall-forget :
    (now : Timestamp) (ceiling : ℕ) (context : MemoryContext) (request : RememberRequest)
    (s : InProcessStore) (o : WriteOutcome)
    → IsKept s
    → (remember (service_over now ceiling) context request s).0 ≡ ok o
    → let service = service_over now ceiling in
      let (_, written) = remember service context request s in
      let (gone, after) = forget service context request.namespace request.key written in
      ((kept : MemoryRecord) × ((recall service context request.namespace request.key written).0
          ≡ ok (some kept))
        × IsAsGiven context now request kept)
      × ((gone ≡ ok true)
          × ((recall service context request.namespace request.key after).0 ≡ ok none))
remember-recall-forget now ceiling context request s o kept h =
    let (kept', held) = remembered_held now ceiling context request s o kept h in
    let written = (remember (service_over now ceiling) context request s).1 in
    let (gone, (kept'', absent)) =
      forgotten context request.namespace request.key written now ceiling
        (remembered context now request) kept' held in
    (
      (
        remembered context now request,
        recalled_some now ceiling context request written kept' held,
        remembered-IsAsGiven context now request,
      ),
      (
        gone,
        recalled_none now ceiling context
            (forget (service_over now ceiling) context request.namespace request.key written).1
            request.namespace request.key kept'' absent,
      ),
    )
