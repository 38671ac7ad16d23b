-- ===== src/Reporter.antt =====
-- src/tributo_broker_redis/reporter.py: events about one operation.
mod Redaction
pub mod Quiet
pub mod Clean
unfoldable pub use Redaction.{redact, redact_items, redact_fields, sensitive_key, str_of, redacted}
use tributo_broker_redis.Base.{ℕ, String, Option, none, some, ltb, if◌then◌else◌, ◌++ₛ◌}
use tributo_broker_redis.Patterns.{take_text}
use tributo_broker_redis.Json.{Text, Json, Fields, no_fields, field, json_str, bool}
use tributo_broker_redis.Exec.{◌>>=◌, ◌>>◌, throw, lift, gets, value_error}
use tributo_broker_redis.Protocol
use mathlib.Core.Bool.{false}
use tributo_broker_redis.Services.{Identity, Event, Services, Call}
use tributo_broker_redis.State.{Action, perform}

-- `received_at_ms`, `deadline_at_ms` and `cancel_key` are kept by the constructor and never read.
pub record Reporter : Type 0 where
  pub stream : String
  pub outer_identity_field : String
  pub identity : Identity
  pub max_event_bytes : ℕ
  pub max_stream_length : ℕ

unfoldable pub new_reporter : String → String → Identity → ℕ → ℕ → Reporter
new_reporter event_stream_prefix outer_identity_field identity max_event_bytes max_stream_length =
    record {
      stream = event_stream_prefix ++ₛ (":" ++ₛ identity.operation_id);
      outer_identity_field = outer_identity_field;
      identity = identity;
      max_event_bytes = max_event_bytes;
      max_stream_length = max_stream_length;
    }

-- The event that `publish` builds; a payload of `None` is the empty one.
unfoldable pub event_of :
    (Json → Text) → Reporter → String → ℕ → String → Fields → Option String → Event
unfolding redact
event_of repr reporter event_id timestamp_ms event_type payload phase = record {
  protocol_profile = Protocol.protocol_profile;
  protocol_version = Protocol.protocol_version;
  event_id = event_id;
  timestamp_ms = timestamp_ms;
  identity = reporter.identity;
  event_type = event_type;
  phase = phase;
  payload = redact_fields repr payload;
}

abbrev pub log_limit : ℕ
log_limit = 4096

unfoldable pub bounded_log_payload : (message level : String) → Fields
unfolding take_text
bounded_log_payload message level =
    field "level" (json_str level)
      (field "message" (json_str (take_text log_limit message)) no_fields)

abbrev pub failed_payload : (code error_type sanitized_message : String) → Fields
failed_payload code error_type sanitized_message = field "error_code" (json_str code) (
    field "error_type" (json_str error_type) (
      field "sanitized_message" (json_str sanitized_message)
        (field "retryable" (bool false) no_fields)))

module _ (services : Services) where
  -- The size is checked before the event is added to the stream.
  unfoldable pub send : Reporter → Event → Action Event
  unfolding perform
  send reporter event = do
    size ← lift (services.encoded_bytes event)
    if ltb reporter.max_event_bytes size then throw value_error else do
      perform (λ t. services.xadd t reporter.stream event)
          (Call.xadd reporter.stream reporter.outer_identity_field event reporter.max_stream_length)
      gets (λ _. event)

  unfoldable pub publish : Reporter → String → Fields → Option String → Action Event
  unfolding event_of send
  publish reporter event_type payload phase = do
    event_id ← gets (λ s. services.uuid s.trace)
    timestamp_ms ← gets (λ s. services.now_ms s.trace)
    send reporter (event_of services.repr reporter event_id timestamp_ms event_type payload phase)

  unfoldable pub report_phase : Reporter → String → Action Event
  unfolding publish
  report_phase reporter phase =
      publish reporter "PHASE" (field "phase" (json_str phase) no_fields) (some phase)

  unfoldable pub report_log : Reporter → (message level : String) → Action Event
  unfolding publish bounded_log_payload
  report_log reporter message level =
      publish reporter "LOG" (bounded_log_payload message level) none

  unfoldable pub failed : Reporter → String → String → String → String → Action Event
  unfolding publish
  failed reporter code error_type phase sanitized_message =
      publish reporter "FAILED" (failed_payload code error_type sanitized_message) (some phase)
