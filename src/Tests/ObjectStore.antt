-- ===== src/Tests/ObjectStore.antt =====
-- crates/storage on a small store: the calls of its own contract tests.
use rust_factory.Common.{
  ◌≡◌, refl, true, none, some, List, [], ◌∷◌, codes, ok, err, arith, pair_ord, nat_ord, list_ord,
}
use rust_factory.TreeMap.{get, insert}
use rust_factory.TreeMap.Total.{total}
use rust_factory.Storage.Validation.{limit_exceeded}
use rust_factory.Storage.Quota.{checked_put_counters, checked_delete_counters}
use rust_factory.Storage.Model.{
  ObjectKey, ObjectValue, tenant_ord, namespace_ord, key_ord, StorageScope, StorageLimits,
  PutCondition, DeleteCondition, deleted, ListRequest,
}
use rust_factory.Storage.Local.{Entry, LocalObjectStore, new, identity, put, delete}
use rust_factory.Storage.Local.History.{Call, puts, run, IsValid, run-new-IsValid}
use rust_factory.Storage.Local.Outcomes.{put_exact, delete_exact}
use rust_factory.Storage.Local.Effects.{put_effect, put_atomic, delete_effect, delete_atomic}
use rust_factory.Storage.Local.Versions.{put-if_version_sound}
use rust_factory.Storage.Listing.{list}
use rust_factory.Storage.Listing.Page.{list_exact}

abbrev limits : StorageLimits
limits = record {
  max_objects_per_tenant = 2;
  max_value_bytes_per_tenant = 4;
  max_objects_global = 3;
  max_value_bytes_global = 6;
}

abbrev scope_a : StorageScope
scope_a = record {
  tenant_id = record { text = codes "tenant-a" };
  namespace = record { text = codes "ns" };
}

abbrev key_1 : ObjectKey
key_1 = record { bytes = 1 ∷ [] }

abbrev key_2 : ObjectKey
key_2 = record { bytes = 2 ∷ [] }

abbrev two_bytes : ObjectValue
two_bytes = record { bytes = 7 ∷ 8 ∷ [] }

abbrev four_bytes : ObjectValue
four_bytes = record { bytes = 1 ∷ 2 ∷ 3 ∷ 4 ∷ [] }

abbrev first_put : List Call
first_put = puts scope_a key_1 two_bytes PutCondition.any ∷ []

abbrev one_object : LocalObjectStore
one_object = run (new limits) first_put

run-new-IsValid_example : IsValid one_object
run-new-IsValid_example = run-new-IsValid limits first_put

-- The second object would take the tenant over its four bytes.
put_exact_example :
    (put scope_a key_2 four_bytes PutCondition.if_absent one_object).0 ≡ err limit_exceeded
unfolding run get insert total checked_put_counters
put_exact_example =
    put_exact scope_a key_2 four_bytes one_object PutCondition.if_absent
      (run-new-IsValid limits first_put) (omega arith) (omega arith) refl

delete_exact_example : (delete scope_a key_1 DeleteCondition.any one_object).0 ≡ ok deleted
unfolding run get insert checked_put_counters
delete_exact_example =
    delete_exact scope_a key_1 one_object DeleteCondition.any (run-new-IsValid limits first_put)
      (omega arith) refl

abbrev replaced_object : LocalObjectStore
replaced_object = (put scope_a key_1 four_bytes PutCondition.any one_object).1

put_effect_example :
    get (identity scope_a key_1) replaced_object.state.objects
    ≡ some (record { version = record { revision = 2 }; value = four_bytes })
unfolding put run get insert checked_put_counters
put_effect_example =
    put_effect scope_a key_1 four_bytes PutCondition.any one_object (identity scope_a key_1)

put_atomic_example : (put scope_a key_1 four_bytes PutCondition.if_absent one_object).1 ≡ one_object
unfolding put run get insert checked_put_counters
put_atomic_example = put_atomic scope_a key_1 four_bytes PutCondition.if_absent one_object refl

delete_effect_example :
    get
      (identity scope_a key_1)
      (delete scope_a key_1 DeleteCondition.any one_object).1.state.objects
    ≡ none
unfolding delete run get insert checked_put_counters checked_delete_counters
delete_effect_example =
    delete_effect scope_a key_1 DeleteCondition.any one_object (identity scope_a key_1) refl

delete_atomic_example : (delete scope_a key_2 DeleteCondition.any one_object).1 ≡ one_object
unfolding delete run get insert checked_put_counters
delete_atomic_example = delete_atomic scope_a key_2 DeleteCondition.any one_object (λ e. cc)

abbrev first_entry : Entry
first_entry = record { version = record { revision = 1 }; value = two_bytes }

abbrev other_put : List Call
other_put = puts scope_a key_2 two_bytes PutCondition.any ∷ []

put-if_version_sound_example :
    get (identity scope_a key_1) (run one_object other_put).state.objects ≡ some first_entry
unfolding put run get insert checked_put_counters
put-if_version_sound_example =
    put-if_version_sound one_object other_put scope_a key_1 first_entry two_bytes
      (record { revision = 3 }) (run-new-IsValid limits first_put) refl refl

abbrev one_item : ListRequest
one_item = record { after_key = none; limit = record { value = 1 } }

list_exact_example : list scope_a one_item (run one_object other_put) ≡ (
  ok (record {
    objects = record { key = key_1; version = record { revision = 1 }; size_bytes = 2 } ∷ [];
    has_more = true;
  }),
  run one_object other_put,
)
unfolding run get insert checked_put_counters
list_exact_example =
    list_exact scope_a one_item (run one_object other_put) refl ((refl, tt), (tt, tt))
      ((λ e. cc), ((λ e. cc), tt)) (omega arith) (omega arith)
