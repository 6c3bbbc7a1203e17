-- ===== src/Storage/Local/Steps.antt =====
-- What `put` and `delete` do to the store: one rule for each, over the branches of the code.
use rust_factory.Common.{
  ℕ, ◌+◌, ◌^◌, ◌<◌, ◌≡◌, ◌≢◌, refl, true, Option, none, some, length, Result, ok, err, Result-cases,
  Option-cases, inl, inr, pair_ord, arith, if◌then◌else◌, ◌==◌,
}
use rust_factory.TreeMap.{get, insert, remove}
use rust_factory.Storage.Validation.{StorageError, operation_failed, revision_exhausted}
use rust_factory.Storage.Quota.{Counters, checked_put_counters, checked_delete_counters}
use rust_factory.Storage.Model.{
  ObjectKey, ObjectValue, tenant_ord, namespace_ord, key_ord, StorageScope, PutCondition,
  DeleteCondition, ObjectVersion, PutOutcome, created, replaced, DeleteOutcome, deleted, not_found,
}
use rust_factory.Storage.Local.{
  Entry, State, LocalObjectStore, identity, tenant_counters, put_outcome, put_condition_matches,
  put, delete, delete_found,
}

abbrev pub entry_of : ObjectValue → ℕ → Entry
entry_of value revision = record { version = record { revision = revision }; value = value }

-- The version that a successful `put` reports.
abbrev pub reported : Result StorageError PutOutcome → Option ObjectVersion
reported (ok (created version)) = some version
reported (ok (replaced version)) = some version
reported (ok PutOutcome.conflict) = none
reported (err _) = none

abbrev pub size? : Option Entry → Option ℕ
size? none = none
size? (some entry) = some (length entry.value.bytes)

-- The state after a `put` that wrote.
abbrev pub written : StorageScope → ObjectKey → ObjectValue → Counters × Counters → State → State
written scope key value counters s = record {
  objects = insert (identity scope key) (entry_of value (s.revision + 1)) s.objects;
  revision = s.revision + 1;
  tenants = insert scope.tenant_id counters.0 s.tenants;
  global = counters.1;
}

-- The state after a `delete` that removed its object.
abbrev pub erased : StorageScope → ObjectKey → Counters × Counters → State → State
erased scope key counters s = record {
  objects = remove (identity scope key) s.objects;
  revision = s.revision;
  tenants =
      if counters.0.objects == 0
      then remove scope.tenant_id s.tenants
      else insert scope.tenant_id counters.0 s.tenants;
  global = counters.1;
}

module _ (scope : StorageScope) (key : ObjectKey) (value : ObjectValue) (s : LocalObjectStore) where
  abbrev pub found : Option Entry
  found = get (identity scope key) s.state.objects

  -- The counters that `put` computes.
  abbrev pub charge : Result StorageError (Counters × Counters)
  charge =
      checked_put_counters s.limits (tenant_counters scope.tenant_id s.state) s.state.global
        (size? found) (length value.bytes)

  pub put_cases :
      (condition : PutCondition) (P : Result StorageError PutOutcome → LocalObjectStore → Type 0)
      → ((r : Result StorageError PutOutcome) → reported r ≡ none → P r s)
      → ((counters : Counters × Counters)
          → charge ≡ ok counters
          → put_condition_matches condition found ≡ true
          → s.state.revision + 1 < 2 ^ 64
          → P
              (ok (put_outcome found (record { revision = s.state.revision + 1 })))
              (record s { state = written scope key value counters s.state }))
      → P (put scope key value condition s).0 (put scope key value condition s).1
  unfolding put
  put_cases condition P same changed = elim (Result-cases charge) [
    | inl (c, e) ↦ ground (
      arith,
      changed c e,
      same (err operation_failed) refl,
      same (ok PutOutcome.conflict) refl,
      same (err revision_exhausted) refl,
    )
    | inr (x, e) ↦ ground (
      arith,
      same (err x) refl,
      same (err operation_failed) refl,
      same (ok PutOutcome.conflict) refl,
      same (err revision_exhausted) refl,
    )
  ]

module _ (scope : StorageScope) (key : ObjectKey) (condition : DeleteCondition)
    (s : LocalObjectStore) (P : Result StorageError DeleteOutcome → LocalObjectStore → Type 0) where
  pub delete_found_cases :
      (entry : Entry)
      → ((r : Result StorageError DeleteOutcome) → r ≢ ok deleted → P r s)
      → ((held : Counters) (counters : Counters × Counters)
          → get scope.tenant_id s.state.tenants ≡ some held
          → checked_delete_counters held s.state.global (length entry.value.bytes) ≡ ok counters
          → (counters.0.objects ≡ 0 → counters.0.value_bytes ≡ 0)
          → P (ok deleted) (record s { state = erased scope key counters s.state }))
      → P
          (delete_found scope key condition s.state entry s).0
          (delete_found scope key condition s.state entry s).1
  unfolding delete_found
  delete_found_cases entry same changed =
      elim (Option-cases (get scope.tenant_id s.state.tenants)) [
        | inl h ↦ ground (
          arith,
          same (err operation_failed) (λ p. cc),
          same (ok DeleteOutcome.conflict) (λ p. cc),
        )
        | inr (held, h) ↦
            elim (Result-cases
              (checked_delete_counters held s.state.global (length entry.value.bytes))) [
                | inl (c, e) ↦ ground (
                  arith,
                  changed held c,
                  same (err operation_failed) (λ p. cc),
                  same (ok DeleteOutcome.conflict) (λ p. cc),
                )
                | inr (x, e) ↦ ground (
                  arith,
                  same (err x) (λ p. cc),
                  same (err operation_failed) (λ p. cc),
                  same (ok DeleteOutcome.conflict) (λ p. cc),
                )
              ]
      ]

  pub delete_cases :
      ((r : Result StorageError DeleteOutcome) → r ≢ ok deleted → P r s)
      → ((entry : Entry) (held : Counters) (counters : Counters × Counters)
          → get (identity scope key) s.state.objects ≡ some entry
          → get scope.tenant_id s.state.tenants ≡ some held
          → checked_delete_counters held s.state.global (length entry.value.bytes) ≡ ok counters
          → (counters.0.objects ≡ 0 → counters.0.value_bytes ≡ 0)
          → P (ok deleted) (record s { state = erased scope key counters s.state }))
      → P (delete scope key condition s).0 (delete scope key condition s).1
  unfolding delete
  delete_cases same changed = elim (Option-cases (get (identity scope key) s.state.objects)) [
    | inl h ↦ ground (arith, same (err operation_failed) (λ p. cc), same (ok not_found) (λ p. cc))
    | inr (entry, h) ↦ ground (
      arith,
      same (err operation_failed) (λ p. cc),
      delete_found_cases entry same (λ held counters. changed entry held counters h),
    )
  ]
