-- ===== src/Memory/Store/Refinement/Puts.antt =====
-- `put` against the flat map.
use rust_factory.Common.{
  ◌≡◌, refl, false, Bytes, length, Result, ok, err, Result-cases, ◌==◌, nat_ord, list_ord, pair_ord,
  inl, inr,
}
use rust_factory.TreeMap.{Map, get, insert, IsSorted}
use rust_factory.TreeMap.Laws.{insert-IsSorted, insert-insert}
use rust_factory.TreeMap.Every.{Every, Every-insert}
use rust_factory.TreeMap.Nested.{or_empty}
use rust_factory.TreeMap.Nested.Scopes.{IsFilled}
use rust_factory.TreeMap.Nested.Deep.{
  deep, inner-IsSorted, inner-IsFilled, deep-insert, get-deep, deep-touch,
}
use rust_factory.TreeMap.Nested.Partitions.{
  partition, second_keys, length-partition-deep, second_keys-deep,
}
use rust_factory.Memory.Errors.{MemoryError}
use rust_factory.Memory.Validation.{check_capacity}
use rust_factory.Memory.Checks.{validate_record}
use rust_factory.Memory.Model.{MemoryRecord}
use rust_factory.Memory.Store.{Tenant, Partition, is_none, outcome, put}
use rust_factory.Memory.Store.Flat.{FlatStore, flat_put}
use rust_factory.Memory.Store.Refinement.Invariant.{
  Kept, Agree, Kept-insert, insert-IsFilled, is_none-length,
}

module _ (item : MemoryRecord) (m : Map Bytes Tenant) where
  abbrev pub tenant : Tenant
  tenant = or_empty (get item.tenant_id.text m)

  abbrev pub held : Partition
  held = or_empty (get item.namespace.text tenant)

  abbrev pub written : Tenant
  written = insert item.namespace.text (insert item.key.text item held) tenant

  abbrev pub allowed : Result MemoryError (Unit {0})
  allowed =
      check_capacity (length tenant) (is_none (get item.namespace.text tenant)) (length held)
        (is_none (get item.key.text held))

  pub put_refused :
      (e : MemoryError)
      → validate_record item ≡ err e
      → put item (record { tenants = m; poisoned = false })
        ≡ (err e, record { tenants = m; poisoned = false })
  unfolding put
  put_refused e h = rw h refl

  pub put_full :
      (e : MemoryError)
      → validate_record item ≡ ok tt
      → allowed ≡ err e
      → put item (record { tenants = m; poisoned = false })
        ≡ (err e, record { tenants = insert item.tenant_id.text tenant m; poisoned = false })
  unfolding put
  put_full e h f = rw (h, f) refl

  pub put_done :
      validate_record item ≡ ok tt
      → allowed ≡ ok tt
      → put item (record { tenants = m; poisoned = false }) ≡ (
        ok (outcome (get item.key.text held)),
        record { tenants = insert item.tenant_id.text written m; poisoned = false },
      )
  unfolding put
  put_done h f = rw (h, f, insert-insert item.tenant_id.text written tenant m) refl

  flat_allowed :
      Kept m
      → check_capacity
          (length (second_keys item.tenant_id.text (deep m)))
          (length (partition item.tenant_id.text item.namespace.text (deep m)) == 0)
          (length (partition item.tenant_id.text item.namespace.text (deep m)))
          (is_none (get (item.tenant_id.text, (item.namespace.text, item.key.text)) (deep m)))
        ≡ allowed
  flat_allowed k =
      rw
        (
          second_keys-deep item.tenant_id.text m k.0 k.1.0 k.1.1,
          length-partition-deep item.tenant_id.text item.namespace.text m k.0 k.1.0,
          get-deep item.tenant_id.text item.namespace.text item.key.text m k.0 k.1.0,
          is_none-length item.namespace.text tenant (inner-IsFilled item.tenant_id.text m k.1.1),
        )
        refl

  written-IsSorted : Kept m → IsSorted written
  written-IsSorted k =
      insert-IsSorted item.namespace.text (insert item.key.text item held) tenant
        (inner-IsSorted item.tenant_id.text m k.1.0)

  written-IsFilled : Kept m → Every IsFilled written
  written-IsFilled k =
      Every-insert IsFilled item.namespace.text (insert item.key.text item held) tenant
        (insert-IsFilled item.namespace.text item.key.text item held)
        (inner-IsFilled item.tenant_id.text m k.1.1)

  view_written :
      Kept m
      → deep (insert item.tenant_id.text written m)
        ≡ insert (item.tenant_id.text, (item.namespace.text, item.key.text)) item (deep m)
  view_written k =
      deep-insert item.tenant_id.text item.namespace.text item.key.text item m k.0 k.1.0

  flat_refused :
      (e : MemoryError) (f : FlatStore)
      → validate_record item ≡ err e
      → flat_put item f ≡ (err e, f)
  unfolding flat_put
  flat_refused e f h = rw h refl

  flat_full :
      (e : MemoryError)
      → Kept m
      → validate_record item ≡ ok tt
      → allowed ≡ err e
      → flat_put item (deep m) ≡ (err e, deep m)
  unfolding flat_put
  flat_full e k h f = rw (h, flat_allowed k, f) refl

  flat_done :
      Kept m
      → validate_record item ≡ ok tt
      → allowed ≡ ok tt
      → flat_put item (deep m) ≡ (
        ok (outcome (get item.key.text held)),
        insert (item.tenant_id.text, (item.namespace.text, item.key.text)) item (deep m),
      )
  unfolding flat_put
  flat_done k h f =
      rw
        (
          h,
          flat_allowed k,
          f,
          get-deep item.tenant_id.text item.namespace.text item.key.text m k.0 k.1.0,
        )
        refl

  pub put_agrees :
      Kept m → Agree (put item (record { tenants = m; poisoned = false })) (flat_put item (deep m))
  put_agrees k = elim (Result-cases (validate_record item)) [
    | inr (e, h) ↦ rw (put_refused e h, flat_refused e (deep m) h) (refl, (refl, (refl, k)))
    | inl (tt, h) ↦ elim (Result-cases allowed) [
      | inr (e, f) ↦
          rw (put_full e h f, flat_full e k h f)
            (
              refl,
              (
                deep-touch item.tenant_id.text m k.0,
                (
                  refl,
                  Kept-insert item.tenant_id.text tenant m
                      (inner-IsSorted item.tenant_id.text m k.1.0)
                      (inner-IsFilled item.tenant_id.text m k.1.1) k,
                ),
              ),
            )
      | inl (tt, f) ↦
          rw (put_done h f, flat_done k h f)
            (
              refl,
              (
                view_written k,
                (
                  refl,
                  Kept-insert item.tenant_id.text written m (written-IsSorted k)
                      (written-IsFilled k) k,
                ),
              ),
            )
    ]
  ]
