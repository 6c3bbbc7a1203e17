-- ===== src/Observability/Model.antt =====
-- The events, records and queries of crates/observability/src/error.rs and src/model.rs.
use rust_factory.Common.{ℕ, Option, Bytes}
use rust_factory.TreeMap.{Map}

pub data ObservabilityError : Type 0 where
  invalid_id invalid_event invalid_query invalid_configuration : ObservabilityError
  invalid_trace_context invalid_span invalid_metric : ObservabilityError
  limit_exceeded adapter_failure : ObservabilityError

abbrev pub max_identifier_bytes : ℕ
max_identifier_bytes = 128

abbrev pub max_body_bytes : ℕ
max_body_bytes = 16_384

abbrev pub max_attributes : ℕ
max_attributes = 32

abbrev pub max_attribute_value_bytes : ℕ
max_attribute_value_bytes = 1_024

abbrev pub max_event_bytes : ℕ
max_event_bytes = 65_536

abbrev pub max_query_limit : ℕ
max_query_limit = 256

abbrev pub max_local_events_per_tenant : ℕ
max_local_events_per_tenant = 4_096

abbrev pub max_local_events_total : ℕ
max_local_events_total = 4_096

pub record TenantId : Type 0 where
  pub text : Bytes

pub record EventName : Type 0 where
  pub text : Bytes

pub record EventTarget : Type 0 where
  pub text : Bytes

-- Nanoseconds of the Unix clock.
pub record Timestamp : Type 0 where
  pub nanos : ℕ

pub data Severity : Type 0 where
  trace debug info warn error : Severity

-- The order that is derived for severities.
abbrev pub rank : Severity → ℕ
rank trace = 0
rank debug = 1
rank info = 2
rank warn = 3
rank error = 4

pub record TelemetryEventV1 : Type 0 where
  pub name : EventName
  pub target : EventTarget
  pub severity : Severity
  pub body : Bytes
  pub attributes : Map Bytes Bytes

pub record TelemetryEnvelopeV1 : Type 0 where
  pub tenant_id : TenantId
  pub timestamp : Timestamp
  pub event : TelemetryEventV1

pub record TelemetryRecordV1 : Type 0 where
  pub sequence : ℕ
  pub envelope : TelemetryEnvelopeV1

pub record TelemetryQueryV1 : Type 0 where
  pub since : Option Timestamp
  pub until : Option Timestamp
  pub minimum_severity : Option Severity
  pub event_name : Option EventName
  pub target : Option EventTarget
  pub limit : ℕ
