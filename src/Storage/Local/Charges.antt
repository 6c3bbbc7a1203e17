-- ===== src/Storage/Local/Charges.antt =====
-- The arithmetic of the quota checks.
use rust_factory.Common.{
  ◌^◌, Bool, ◌&&◌, leb, if◌then◌else◌, err, ℕ, ◌+◌, ◌-◌, ◌<◌, ◌≤◌, ◌≡◌, Option, none, some, ok,
  arith,
}
use rust_factory.Storage.Validation.{limit_exceeded}
use rust_factory.Storage.Quota.{
  next_bytes, next_objects, Counters, bytes_or_zero, checked_put_counters, checked_delete_counters,
}
use rust_factory.Storage.Model.{StorageLimits}

abbrev pub one_or_zero : Option ℕ → ℕ
one_or_zero none = 0
one_or_zero (some _) = 1

pub record IsWithin (limits : StorageLimits) (tenant global : Counters) : Type 0 where
  pub tenant_objects : tenant.objects ≤ limits.max_objects_per_tenant
  pub tenant_bytes : tenant.value_bytes ≤ limits.max_value_bytes_per_tenant
  pub global_objects : global.objects ≤ limits.max_objects_global
  pub global_bytes : global.value_bytes ≤ limits.max_value_bytes_global

-- `after` is `held` with an object of `new` bytes in the place of `old`.
pub record IsCharged (held after : Counters) (old : Option ℕ) (new : ℕ) : Type 0 where
  pub objects : after.objects + one_or_zero old ≡ held.objects + 1
  pub bytes : after.value_bytes + bytes_or_zero old ≡ held.value_bytes + new

module _ (limits : StorageLimits) (tenant global : Counters) (old : Option ℕ) (new : ℕ)
    (counters : Counters × Counters)
    (h : checked_put_counters limits tenant global old new ≡ ok counters) where
  pub put-IsWithin : IsWithin limits counters.0 counters.1
  unfolding checked_put_counters
  put-IsWithin = ground arith

  pub put_tenant : IsCharged tenant counters.0 old new
  unfolding checked_put_counters
  put_tenant = ground arith

  pub put_global : IsCharged global counters.1 old new
  unfolding checked_put_counters
  put_global = ground arith

-- `after` is `held` with one object of `old` bytes less.
pub record IsReleased (held after : Counters) (old : ℕ) : Type 0 where
  pub objects : after.objects + 1 ≡ held.objects
  pub bytes : after.value_bytes + old ≡ held.value_bytes

module _ (tenant global : Counters) (old : ℕ) (counters : Counters × Counters)
    (h : checked_delete_counters tenant global old ≡ ok counters) where
  pub delete_tenant : IsReleased tenant counters.0 old
  unfolding checked_delete_counters
  delete_tenant = ground arith

  pub delete_global : IsReleased global counters.1 old
  unfolding checked_delete_counters
  delete_global = ground arith

-- The checks of `delete` pass where the counters cover the object.
pub delete_counters_total :
    (tenant global : Counters) (old : ℕ)
    → 0 < tenant.objects
    → old ≤ tenant.value_bytes
    → 0 < global.objects
    → old ≤ global.value_bytes
    → checked_delete_counters tenant global old
      ≡ ok (
        record { objects = tenant.objects - 1; value_bytes = tenant.value_bytes - old },
        record { objects = global.objects - 1; value_bytes = global.value_bytes - old },
      )
unfolding checked_delete_counters
delete_counters_total tenant global old a b c d = ground arith

next_bytes-eq :
    (held old new after : ℕ)
    → old ≤ held
    → held + new < 2 ^ 64
    → after + old ≡ held + new
    → next_bytes held old new ≡ ok after
next_bytes-eq held old new after a b c = ground arith

next_objects-eq :
    (old : Option ℕ) (held after : ℕ)
    → held + 1 < 2 ^ 64
    → after + one_or_zero old ≡ held + 1
    → next_objects old held ≡ ok after
next_objects-eq none held after a b = ground arith
next_objects-eq (some n) held after a b = ground arith

-- The counters `tenant'` and `global'` are within the limits.
abbrev pub fits : StorageLimits → Counters → Counters → Bool
fits limits tenant' global' =
    leb tenant'.objects limits.max_objects_per_tenant
    && leb tenant'.value_bytes limits.max_value_bytes_per_tenant
    && leb global'.objects limits.max_objects_global
    && leb global'.value_bytes limits.max_value_bytes_global

-- With room in the machine words, the checked arithmetic decides by the limits alone.
module _ (limits : StorageLimits) (tenant global tenant' global' : Counters) (old : Option ℕ)
    (new : ℕ) where
  pub put_counters_exact :
      IsCharged tenant tenant' old new
      → IsCharged global global' old new
      → bytes_or_zero old ≤ tenant.value_bytes
      → bytes_or_zero old ≤ global.value_bytes
      → (tenant.objects + 1 < 2 ^ 64) × (tenant.value_bytes + new < 2 ^ 64)
      → (global.objects + 1 < 2 ^ 64) × (global.value_bytes + new < 2 ^ 64)
      → checked_put_counters limits tenant global old new
        ≡ (if fits limits tenant' global' then ok (tenant', global') else err limit_exceeded)
  unfolding checked_put_counters
  put_counters_exact t g a b c d =
      rw
        (
          next_objects-eq old tenant.objects tenant'.objects c.0 t.objects,
          next_objects-eq old global.objects global'.objects d.0 g.objects,
          next_bytes-eq tenant.value_bytes (bytes_or_zero old) new tenant'.value_bytes a c.1
              t.bytes,
          next_bytes-eq global.value_bytes (bytes_or_zero old) new global'.value_bytes b d.1
              g.bytes,
          checked_put_counters,
        )
        (ground arith)
