-- ===== src/Runtime/Handle.antt =====
-- `handle` of src/tributo_broker_redis/runtime.py, one function for each of its stages. Each stage ends
-- in an outcome, or calls the next.
use tributo_broker_redis.Base.{String, Bool, Option, none, some, ◌==◌, if◌then◌else◌, truthy}
use tributo_broker_redis.Json.{
  Text, Json, obj, Fields, no_fields, field, json_str, as_text, fields_get,
}
use tributo_broker_redis.Exec.{
  Result, protocol_failure, mapping_failure, ok, raised, ◌>>=◌, ◌>>◌, pure, throw, gets, try_except,
}
use tributo_broker_redis.Config.{OperationType, single_worker, cancel_key}
use tributo_broker_redis.Protocol.{GenericRequest}
use tributo_broker_redis.Operations.{PreparedOperation}
use tributo_broker_redis.Services.{ActiveSubmission, Services, Call}
use tributo_broker_redis.State.{Message, Action, perform}
use tributo_broker_redis.Cancellation.{get_active}
use tributo_broker_redis.Runtime.Types.{
  Setup, channel_of, profiles_of, profile_in, TaskOutcome, acked, retry_with, run_id_of,
}
use tributo_broker_redis.Runtime.Reports.{new_runtime_reporter, published, invalid, invalid_default}
use tributo_broker_redis.Runtime.Resume.{resume_existing_submission}
use tributo_broker_redis.Runtime.Admission.{admit}

abbrev pub queued_payload : Fields
queued_payload = field "reason" (json_str "cancelled before admission") no_fields

abbrev pub check_unavailable : TaskOutcome
check_unavailable = retry_with "CANCEL_CHECK_UNAVAILABLE" "queued cancellation check unavailable"

-- `message.payload.get("raw") if isinstance(message.payload, dict) else None`, if it is a text.
unfoldable pub raw_of : Json → Option Text
unfolding fields_get
raw_of (obj fs) = elim (fields_get fs "raw") [ none ↦ none | some v ↦ as_text v ]
raw_of _ = none

module _ (services : Services) (setup : Setup) (message : Message) where
  abbrev pub operation_type_of : OperationType
  operation_type_of = message.metadata.operation_type

  abbrev pub outer : String
  outer = message.metadata.outer_operation_id

  -- The cancel key of an operation is asked for in its channel.
  unfoldable pub is_marked : String → Action Bool
  unfolding perform cancel_key
  is_marked operation_id =
      perform
        (λ t. services.exists t (cancel_key (channel_of setup operation_type_of) operation_id))
        (Call.exists (cancel_key (channel_of setup operation_type_of) operation_id))

  abbrev pub report_unless : Option ActiveSubmission → Action (Unit {0})
  report_unless (some existing) = pure tt
  report_unless none =
      published services
        (new_runtime_reporter setup outer operation_type_of single_worker outer "attempt-1" none)
        "CANCELLED" queued_payload (some "QUEUED")

  -- The first cancellation check, on the outer identity: `none` is to go on.
  unfoldable pub early_cancel : Action (Option TaskOutcome)
  unfolding is_marked get_active published new_runtime_reporter
  early_cancel =
      try_except
        (do
          marked ← is_marked outer
          if marked
              then (do
                existing ← gets (λ s. get_active s.active outer)
                report_unless existing
                pure (some acked))
              else pure none)
        (λ _. pure (some check_unavailable))

  -- The second one, on the parsed request.
  unfoldable pub late_cancel : GenericRequest → Action (Option TaskOutcome)
  unfolding is_marked published new_runtime_reporter run_id_of
  late_cancel request =
      try_except
        (do
          marked ← is_marked request.operation_id
          if marked
              then (do
                published services
                    (new_runtime_reporter setup request.operation_id operation_type_of
                      request.execution_profile (run_id_of request) request.attempt_id none)
                    "CANCELLED" queued_payload (some "QUEUED")
                pure (some acked))
              else pure none)
        (λ _. pure (some check_unavailable))

  -- A stage that may already have the outcome.
  abbrev pub otherwise : Option TaskOutcome → Action TaskOutcome → Action TaskOutcome
  otherwise (some outcome) next = pure outcome
  otherwise none next = next

  unfoldable pub admit_stage : GenericRequest → PreparedOperation → Action TaskOutcome
  unfolding resume_existing_submission late_cancel admit
  admit_stage request prepared = do
    resumed ← resume_existing_submission services setup request operation_type_of
    otherwise resumed (do
      cancelled ← late_cancel request
      otherwise cancelled (admit services setup request operation_type_of message prepared))

  abbrev pub refuse : GenericRequest → String → String → Action TaskOutcome
  refuse request code sanitized_message =
      invalid services setup message operation_type_of code sanitized_message
        request.execution_profile (some (run_id_of request)) request.attempt_id

  abbrev pub prepared_stage : GenericRequest → Result PreparedOperation → Action TaskOutcome
  prepared_stage request (ok prepared) = admit_stage request prepared
  prepared_stage request (raised (mapping_failure code sanitized_message)) =
      refuse request code sanitized_message
  prepared_stage request (raised e) = throw e

  unfoldable pub prepare_stage : GenericRequest → Action TaskOutcome
  unfolding invalid run_id_of admit_stage
  prepare_stage request =
      if profile_in request.execution_profile (profiles_of setup operation_type_of)
      then prepared_stage request (setup.operation_preparer request)
      else refuse request "UNSUPPORTED_EXECUTION_PROFILE"
          "execution profile is disabled by provider configuration"

  abbrev pub parsed_stage : Result GenericRequest → Action TaskOutcome
  parsed_stage (ok request) = prepare_stage request
  parsed_stage (raised (protocol_failure code sanitized_message)) =
      invalid_default services setup message operation_type_of code sanitized_message
  parsed_stage (raised e) = throw e

  unfoldable pub parse_stage : Text → Action TaskOutcome
  unfolding invalid_default prepare_stage
  parse_stage raw = parsed_stage (setup.request_parser raw outer operation_type_of)

  abbrev pub raw_stage : Option Text → Action TaskOutcome
  raw_stage none =
      invalid_default services setup message operation_type_of "INVALID_REQUEST"
        "payload must be a JSON string"
  raw_stage (some raw) = parse_stage raw

  unfoldable pub envelope_stage : Action TaskOutcome
  unfolding invalid_default raw_of parse_stage
  envelope_stage =
      if truthy message.metadata.encoding_error
      then invalid_default services setup message operation_type_of "INVALID_PAYLOAD"
          "payload is not valid UTF-8"
      else if truthy message.metadata.envelope_error
      then invalid_default services setup message operation_type_of "INVALID_ENVELOPE"
          "task envelope must contain only identity and payload"
      else if truthy message.metadata.payload_error
      then invalid_default services setup message operation_type_of "PAYLOAD_TOO_LARGE"
          "payload exceeds configured size limit"
      else raw_stage (raw_of message.payload)

  unfoldable pub handle : Action TaskOutcome
  unfolding invalid_default early_cancel envelope_stage
  handle =
      if outer == ""
      then invalid_default services setup message operation_type_of "INVALID_OPERATION_ID"
          "outer operation_id is required"
      else do cancelled ← early_cancel; otherwise cancelled envelope_stage
