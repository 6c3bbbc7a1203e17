-- ===== src/Storage/Local/Outcomes.antt =====
-- What `put` and `delete` of crates/storage/src/local.rs answer, by specifications that recount.
use rust_factory.Common.{
  ◌+◌, ◌-◌, ◌^◌, ◌≤◌, ◌<◌, ◌≡◌, refl, ℕ, Bool, true, false, not, Option, none, some, length,
  pair_ord, Result, ok, err, arith, ◌==◌, if◌then◌else◌, same_refl, Option-cases, inl, inr,
}
use mathlib.Core.Option
use rust_factory.TreeMap.{get, remove}
use rust_factory.TreeMap.Total.{total-remove, held-le-total}
use rust_factory.Storage.Validation.{
  StorageError, limit_exceeded, revision_exhausted, max_object_value_bytes,
}
use rust_factory.Storage.Quota.{Counters}
use rust_factory.Storage.Model.{
  ObjectKey, ObjectValue, tenant_ord, namespace_ord, key_ord, StorageScope, PutCondition,
  DeleteCondition, PutOutcome, created, replaced, DeleteOutcome, deleted, not_found,
}
use rust_factory.Storage.Local.{
  Entry, LocalObjectStore, identity, put_condition_matches, put, delete_condition_fails,
  delete_found, delete,
}
use rust_factory.Storage.Local.Charges.{delete_counters_total}
use rust_factory.Storage.Local.Invariant.{one, size, one_of, size_of, IsConsistent}
use rust_factory.Storage.Local.History.{IsValid}
use rust_factory.Storage.Local.Recount.{
  HasCeilings, fits_quota, objects_after, charge-fits_quota, old-le-global, size_of-zero,
}

-- What the caller asked for holds of the versions in the store.
abbrev pub is_asked : PutCondition → Option ℕ → Bool
is_asked PutCondition.any _ = true
is_asked PutCondition.if_absent held = elim held [ none ↦ true | some _ ↦ false ]
is_asked (PutCondition.if_version expected) held = elim held [
  | none ↦ false
  | some revision ↦ expected.revision == revision
]

abbrev pub held_revision : Option Entry → Option ℕ
held_revision = Option.map (λ entry. entry.version.revision)

is_asked_lem :
    (condition : PutCondition) (held : Option Entry)
    → put_condition_matches condition held ≡ is_asked condition (held_revision held)
unfolding put_condition_matches
is_asked_lem PutCondition.any held = refl
is_asked_lem PutCondition.if_absent none = refl
is_asked_lem PutCondition.if_absent (some entry) = refl
is_asked_lem (PutCondition.if_version expected) none = refl
is_asked_lem (PutCondition.if_version expected) (some entry) = refl

module _ (scope : StorageScope) (key : ObjectKey) (value : ObjectValue) (s : LocalObjectStore) where
  abbrev pub put_answer : PutCondition → Result StorageError PutOutcome
  put_answer condition =
      let current = get (identity scope key) s.state.objects in
      if not (is_asked condition (held_revision current))
      then ok PutOutcome.conflict
      else if s.state.revision + 1 == 2 ^ 64
      then err revision_exhausted
      else if not (fits_quota s.limits scope.tenant_id (objects_after scope key value s))
      then err limit_exceeded
      else elim current [
        | none ↦ ok (created (record { revision = s.state.revision + 1 }))
        | some _ ↦ ok (replaced (record { revision = s.state.revision + 1 }))
      ]

  -- Of a valid store with limits under the crate's ceilings and a healthy lock, `put` of a value
  -- of at most the maximal size answers by the specification `put_answer`: a conflict if the
  -- condition does not match, else revision_exhausted at the last revision, else limit_exceeded
  -- exactly if a fresh count of the objects after the write is over one of the four quotas, else
  -- created or replaced with the next revision.
  pub put_exact :
      (condition : PutCondition)
      → IsValid s
      → HasCeilings s.limits
      → length value.bytes ≤ max_object_value_bytes
      → s.poisoned ≡ false
      → (put scope key value condition s).0 ≡ put_answer condition
  unfolding put
  put_exact condition v ceilings small healthy = ground (
    arith,
    is_asked_lem condition (get (identity scope key) s.state.objects),
    charge-fits_quota scope key value s v ceilings small,
    v.consistent.revision_fits,
    v.bounded scope.tenant_id,
    old-le-global scope key value s v.consistent,
  )

module _ (scope : StorageScope) (key : ObjectKey) (s : LocalObjectStore) where
  abbrev pub delete_answer : DeleteCondition → Option Entry → DeleteOutcome
  delete_answer condition none = not_found
  delete_answer DeleteCondition.any (some entry) = deleted
  delete_answer (DeleteCondition.if_version expected) (some entry) =
      if expected.revision == entry.version.revision then deleted else DeleteOutcome.conflict

  tenant_kept :
      (entry : Entry)
      → IsConsistent s.state
      → get (identity scope key) s.state.objects ≡ some entry
      → (held : Counters) × (get scope.tenant_id s.state.tenants ≡ some held)
        × (0 < held.objects)
        × (length entry.value.bytes ≤ held.value_bytes)
  tenant_kept entry v here = elim (Option-cases (get scope.tenant_id s.state.tenants)) [
    | inl e ↦ absurd (
        ground (
          arith,
          v.tenant_objects scope.tenant_id,
          same_refl scope.tenant_id,
          held-le-total (one_of scope.tenant_id) (identity scope key) s.state.objects,
        ))
    | inr (c, e) ↦ (
      c,
      e,
      v.tenant_live scope.tenant_id c e,
      ground (
        arith,
        v.tenant_bytes scope.tenant_id,
        same_refl scope.tenant_id,
        held-le-total (size_of scope.tenant_id) (identity scope key) s.state.objects,
      ),
    )
  ]

  -- A tenant with no object left holds no byte.
  drained :
      (entry : Entry) (held : Counters)
      → IsConsistent s.state
      → get (identity scope key) s.state.objects ≡ some entry
      → get scope.tenant_id s.state.tenants ≡ some held
      → held.objects - 1 ≡ 0
      → held.value_bytes - length entry.value.bytes ≡ 0
  drained entry held v here kept e = ground (
    arith,
    v.tenant_objects scope.tenant_id,
    v.tenant_bytes scope.tenant_id,
    v.tenant_live scope.tenant_id held,
    same_refl scope.tenant_id,
    total-remove (one_of scope.tenant_id) (identity scope key) s.state.objects v.sorted,
    total-remove (size_of scope.tenant_id) (identity scope key) s.state.objects v.sorted,
    size_of-zero scope.tenant_id (remove (identity scope key) s.state.objects),
  )

  delete_found_exact :
      (condition : DeleteCondition) (entry : Entry) (held : Counters)
      → IsValid s
      → HasCeilings s.limits
      → get (identity scope key) s.state.objects ≡ some entry
      → get scope.tenant_id s.state.tenants ≡ some held
      → 0 < held.objects
      → length entry.value.bytes ≤ held.value_bytes
      → (delete_found scope key condition s.state entry s).0
        ≡ ok (delete_answer condition (some entry))
  unfolding delete_found delete_condition_fails
  delete_found_exact condition entry held v ceilings here kept live covered = ground (
    arith,
    v.bounded scope.tenant_id,
    v.consistent.global_objects,
    v.consistent.global_bytes,
    held-le-total one (identity scope key) s.state.objects,
    held-le-total size (identity scope key) s.state.objects,
    delete_counters_total held s.state.global (length entry.value.bytes),
    drained entry held v.consistent here kept,
  )

  -- Of a valid store with limits under the ceilings and a healthy lock, `delete` never fails: it
  -- answers not_found for an absent key, conflict if the expected version is another one, and
  -- deleted otherwise.
  pub delete_exact :
      (condition : DeleteCondition)
      → IsValid s
      → HasCeilings s.limits
      → s.poisoned ≡ false
      → (delete scope key condition s).0
        ≡ ok (delete_answer condition (get (identity scope key) s.state.objects))
  unfolding delete
  delete_exact condition v ceilings healthy =
      elim (Option-cases (get (identity scope key) s.state.objects)) [
        | inl e ↦ ground arith
        | inr (entry, e) ↦
            let (held, kept, live, covered) = tenant_kept entry v.consistent e in
            ground (arith, delete_found_exact condition entry held v ceilings e kept live covered)
      ]
