-- ===== src/Tests/Telemetry.antt =====
-- crates/observability on two tenants and a store with room for two events of each.
use rust_factory.Common.{
  ◌≡◌, refl, ℕ, false, none, List, [], ◌∷◌, Bytes, codes, keep_if, ok, nat_ord, list_ord,
}
use rust_factory.TreeMap.{get}
use rust_factory.TreeMap.Size.{held_list}
use rust_factory.Observability.Model.{
  TelemetryEnvelopeV1, TelemetryRecordV1, TelemetryQueryV1, info,
}
use rust_factory.Observability.Local.{LocalTelemetry, new, emit, query_records}
use rust_factory.Observability.Local.Retention.{newest, after, accepted, is_own, retains_newest}
use rust_factory.Observability.Local.Bounds.{IsCounted, new-IsCounted}

abbrev envelope : Bytes → ℕ → TelemetryEnvelopeV1
envelope tenant at = record {
  tenant_id = record { text = tenant };
  timestamp = record { nanos = at };
  event = record {
    name = record { text = codes "event" };
    target = record { text = codes "target" };
    severity = info;
    body = codes "body";
    attributes = [];
  };
}

abbrev empty : LocalTelemetry
empty = record {
  capacity_per_tenant = 2;
  next_sequence = 1;
  total_events = 0;
  tenants = [];
  poisoned = false;
}

empty_made : new 2 ≡ ok empty
unfolding new
empty_made = refl

abbrev sent : List TelemetryEnvelopeV1
sent =
    envelope (codes "a") 1
    ∷ envelope (codes "b") 2
    ∷ envelope (codes "a") 3
    ∷ envelope (codes "a") 4
    ∷ []

abbrev stored : ℕ → ℕ → TelemetryRecordV1
stored sequence at = record { sequence = sequence; envelope = envelope (codes "a") at }

oldest_dropped :
    held_list (get (codes "a") (after sent empty).tenants) ≡ stored 3 3 ∷ stored 4 4 ∷ []
unfolding after emit
oldest_dropped = refl

abbrev query : TelemetryQueryV1
query = record {
  since = none;
  until = none;
  minimum_severity = none;
  event_name = none;
  target = none;
  limit = 8;
}

newest_first :
    (query_records (record { text = codes "a" }) query (after sent empty)).0
    ≡ ok (stored 4 4 ∷ stored 3 3 ∷ [])
unfolding query_records after emit
newest_first = refl

retains_newest_example :
    held_list (get (codes "a") (after sent empty).tenants)
    ≡ newest 2 (keep_if (is_own (codes "a")) (accepted sent empty))
retains_newest_example = retains_newest 2 empty sent (codes "a") empty_made

new-IsCounted_example : IsCounted 2 (after sent empty)
new-IsCounted_example = new-IsCounted 2 empty sent empty_made
