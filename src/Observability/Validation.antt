-- ===== src/Observability/Validation.antt =====
-- crates/observability/src/validation.rs, as far as events and queries go.
use rust_factory.Common.{
  ℕ, Bool, true, false, ◌&&◌, ◌||◌, Option, none, some, [], ◌∷◌, Bytes, length, all, Result, ok,
  err, ok_or, map_err, refuse, ◌>>=◌, ◌>>◌, leb, ltb, ◌==◌, same, nat_ord, list_ord, if◌then◌else◌,
  is_ascii_lowercase, is_ascii_digit, checked_add, usize_bits,
}
use rust_factory.TreeMap.{Map}
use rust_factory.Observability.Model.{
  ObservabilityError, TelemetryEventV1, TelemetryEnvelopeV1, TelemetryRecordV1, TelemetryQueryV1,
  EventName, EventTarget, Timestamp, rank, max_identifier_bytes, max_body_bytes, max_attributes,
  max_attribute_value_bytes, max_event_bytes,
}

abbrev is_lower_or_digit : ℕ → Bool
is_lower_or_digit byte = is_ascii_lowercase byte || is_ascii_digit byte

abbrev starts_label : Bytes → Bool
starts_label [] = false
starts_label (byte ∷ _) = is_lower_or_digit byte

abbrev rest_of : Bytes → Bytes
rest_of [] = []
rest_of (_ ∷ bytes) = bytes

unfoldable pub validate_tenant_id : Bytes → Result ObservabilityError (Unit {0})
validate_tenant_id value =
    if leb (length value) max_identifier_bytes
      && starts_label value
      && all (λ byte. is_lower_or_digit byte || byte == b'_' || byte == b'-') (rest_of value)
    then ok tt
    else err ObservabilityError.invalid_id

unfoldable pub validate_label : Bytes → Option (Unit {0})
validate_label value =
    if leb (length value) max_identifier_bytes
      && starts_label value
      && all (λ byte. is_lower_or_digit byte || byte == b'_' || byte == b'-' || byte == b'.')
          (rest_of value)
    then some tt
    else none

-- `validate_event_name`, `validate_event_target` and `validate_attribute_key`
unfoldable pub validate_name : Bytes → Result ObservabilityError (Unit {0})
unfolding validate_label
validate_name value = ok_or (validate_label value) ObservabilityError.invalid_event

unfoldable pub check_attributes : Map Bytes Bytes → Result ObservabilityError (Unit {0})
unfolding validate_name
check_attributes [] = ok tt
check_attributes ((key, value) ∷ attributes) = do
  validate_name key
  refuse (ltb max_attribute_value_bytes (length value)) ObservabilityError.limit_exceeded
  check_attributes attributes

abbrev grown : ℕ → ℕ → Result ObservabilityError ℕ
grown size more = ok_or (checked_add usize_bits size more) ObservabilityError.limit_exceeded

unfoldable pub add_attributes : ℕ → Map Bytes Bytes → Result ObservabilityError ℕ
add_attributes size [] = ok size
add_attributes size ((key, value) ∷ attributes) = do
  with_key ← grown size (length key)
  with_value ← grown with_key (length value)
  add_attributes with_value attributes

unfoldable pub event_size : TelemetryEventV1 → Result ObservabilityError ℕ
unfolding add_attributes
event_size event = do
  names ← grown (length event.name.text) (length event.target.text)
  size ← grown names (length event.body)
  add_attributes size event.attributes

unfoldable pub validate_event : TelemetryEventV1 → Result ObservabilityError (Unit {0})
unfolding validate_name check_attributes event_size
validate_event event = do
  validate_name event.name.text
  validate_name event.target.text
  refuse (ltb max_body_bytes (length event.body) || ltb max_attributes (length event.attributes))
      ObservabilityError.limit_exceeded
  check_attributes event.attributes
  size ← event_size event
  refuse (ltb max_event_bytes size) ObservabilityError.limit_exceeded

unfoldable pub validate_envelope : TelemetryEnvelopeV1 → Result ObservabilityError (Unit {0})
unfolding validate_tenant_id validate_event
validate_envelope envelope = do
  validate_tenant_id envelope.tenant_id.text
  validate_event envelope.event

unfoldable pub validate_record : TelemetryRecordV1 → Result ObservabilityError (Unit {0})
unfolding validate_envelope
validate_record item = do
  refuse (item.sequence == 0) ObservabilityError.invalid_event
  validate_envelope item.envelope

abbrev empty_window : Option Timestamp → Option Timestamp → Bool
empty_window (some since) (some until) = leb until.nanos since.nanos
empty_window _ _ = false

abbrev check_name : Option Bytes → Result ObservabilityError (Unit {0})
check_name none = ok tt
check_name (some name) = map_err (λ _. ObservabilityError.invalid_query) (validate_name name)

abbrev name_text : Option EventName → Option Bytes
name_text none = none
name_text (some name) = some name.text

abbrev target_text : Option EventTarget → Option Bytes
target_text none = none
target_text (some target) = some target.text

unfoldable pub validate_query : TelemetryQueryV1 → ℕ → Result ObservabilityError (Unit {0})
unfolding validate_name
validate_query query maximum_limit = do
  refuse (query.limit == 0) ObservabilityError.invalid_query
  refuse (ltb maximum_limit query.limit) ObservabilityError.limit_exceeded
  refuse (empty_window query.since query.until) ObservabilityError.invalid_query
  check_name (name_text query.event_name)
  check_name (target_text query.target)

-- `Option::is_none_or`
abbrev is_none_or : {A : Type 0} → Option A → (A → Bool) → Bool
is_none_or none test = true
is_none_or (some a) test = test a

unfoldable pub record_matches : TelemetryRecordV1 → TelemetryQueryV1 → Bool
record_matches item query =
    is_none_or query.since (λ since. leb since.nanos item.envelope.timestamp.nanos)
    && is_none_or query.until (λ until. ltb item.envelope.timestamp.nanos until.nanos)
    && is_none_or query.minimum_severity
        (λ severity. leb (rank severity) (rank item.envelope.event.severity))
    && is_none_or query.event_name (λ name. same item.envelope.event.name.text name.text)
    && is_none_or query.target (λ target. same item.envelope.event.target.text target.text)
