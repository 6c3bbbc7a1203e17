-- ===== src/Observability/Local.antt =====
-- `LocalTelemetry` of crates/observability/src/local.rs: a queue for each tenant that drops its oldest
-- record when it is full. A poisoned mutex is a flag.
pub mod Emits
pub mod Retention
pub mod Bounds
use rust_factory.Common.{
  ℕ, ◌+◌, Bool, true, false, not, ◌&&◌, ◌||◌, Option, none, some, List, [], ◌∷◌, ◌++◌, Bytes,
  length, keep_if, take, Result, ok, err, ok_or, refuse, ltb, ◌==◌, same, nat_ord, list_ord,
  if◌then◌else◌, checked_add,
}
use rust_factory.Common.Exec.{Exec, pure, throw, lift, modify, ◌>>=◌, ◌>>◌}
use rust_factory.TreeMap.{Map, get, insert}
use rust_factory.TreeMap.Size.{held_list}
use rust_factory.Observability.Model.{
  ObservabilityError, TelemetryEnvelopeV1, TelemetryRecordV1, TelemetryQueryV1, TenantId,
  max_query_limit, max_local_events_per_tenant, max_local_events_total,
}
use rust_factory.Observability.Validation.{
  validate_envelope, validate_record, validate_query, record_matches,
}

-- A queue is a list with its oldest record first.
pub record LocalTelemetry : Type 0 where
  pub capacity_per_tenant : ℕ
  pub next_sequence : ℕ
  pub total_events : ℕ
  pub tenants : Map Bytes (List TelemetryRecordV1)
  pub poisoned : Bool

unfoldable pub new : ℕ → Result ObservabilityError LocalTelemetry
new capacity_per_tenant =
    if capacity_per_tenant == 0 || ltb max_local_events_per_tenant capacity_per_tenant
    then err ObservabilityError.limit_exceeded
    else ok (record {
      capacity_per_tenant = capacity_per_tenant;
      next_sequence = 1;
      total_events = 0;
      tenants = [];
      poisoned = false;
    })

abbrev pub Op : Type 0 → Type 0
Op A = Exec LocalTelemetry ObservabilityError A

abbrev pub lock : Op LocalTelemetry
lock store =
    if store.poisoned then throw ObservabilityError.adapter_failure store else pure store store

abbrev pub is_full : ℕ → Option (List TelemetryRecordV1) → Bool
is_full capacity none = false
is_full capacity (some records) = length records == capacity

-- `pop_front`
abbrev pub pop_front : List TelemetryRecordV1 → List TelemetryRecordV1
pop_front [] = []
pop_front (_ ∷ records) = records

unfoldable pub emit : TelemetryEnvelopeV1 → Op (Unit {0})
unfolding validate_envelope get insert
emit envelope = do
  lift (validate_envelope envelope)
  state ← lock
  let held = get envelope.tenant_id.text state.tenants
  let tenant_is_full = is_full state.capacity_per_tenant held
  lift (
      refuse (not tenant_is_full && state.total_events == max_local_events_total)
        ObservabilityError.limit_exceeded)
  next ← lift (ok_or (checked_add 64 state.next_sequence 1) ObservabilityError.limit_exceeded)
  modify (λ s. record s { next_sequence = next })
  modify (λ s. if tenant_is_full then s else record s { total_events = s.total_events + 1 })
  let records = if tenant_is_full then pop_front (held_list held) else held_list held
  modify (λ s. record s {
    tenants =
        insert envelope.tenant_id.text
          (records ++ record { sequence = state.next_sequence; envelope = envelope } ∷ [])
          s.tenants;
  })

abbrev reversed : List TelemetryRecordV1 → List TelemetryRecordV1 → List TelemetryRecordV1
reversed [] done = done
reversed (item ∷ records) done = reversed records (item ∷ done)

abbrev is_ok : Result ObservabilityError (Unit {0}) → Bool
is_ok (ok _) = true
is_ok (err _) = false

unfoldable pub query_records : TenantId → TelemetryQueryV1 → Op (List TelemetryRecordV1)
unfolding validate_query validate_record record_matches get
query_records tenant_id query = do
  lift (validate_query query max_query_limit)
  state ← lock
  pure (
      take query.limit (
        keep_if
          (λ item.
            is_ok (validate_record item)
            && same item.envelope.tenant_id.text tenant_id.text
            && record_matches item query)
          (reversed (held_list (get tenant_id.text state.tenants)) [])))
