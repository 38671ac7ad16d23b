-- ===== src/Runtime/Reports.antt =====
-- `_reporter` and `_invalid` of src/tributo_broker_redis/runtime.py.
use tributo_broker_redis.Base.{String, ◌++ₛ◌, false, Option, none, some, str_or}
use tributo_broker_redis.Json.{Fields, no_fields, field, json_str, bool}
use tributo_broker_redis.Exec.{◌>>=◌, ◌>>◌, pure, try_except}
use tributo_broker_redis.Config.{OperationType, ExecutionProfile, single_worker}
use tributo_broker_redis.Services.{RayJobSubmission, Services}
use tributo_broker_redis.State.{Message, Action}
use tributo_broker_redis.Reporter.{Reporter, new_reporter, publish}
use tributo_broker_redis.Runtime.Types.{Setup, channel_of, TaskOutcome, acked_with}

unfoldable pub new_runtime_reporter :
    Setup
    → String
    → OperationType
    → ExecutionProfile
    → (run_id attempt_id : String) → Option RayJobSubmission
    → Reporter
unfolding new_reporter
new_runtime_reporter setup operation_id operation_type execution_profile run_id attempt_id
      submission =
    let channel = channel_of setup operation_type in
    new_reporter channel.event_stream_prefix channel.outer_identity_field
      (record {
        operation_id = operation_id;
        operation_type = operation_type;
        execution_profile = execution_profile;
        run_id = run_id;
        attempt_id = attempt_id;
        submission_id = elim submission [ none ↦ none | some job ↦ some job.submission_id ];
        ray_job_id = elim submission [ none ↦ none | some job ↦ job.ray_job_id ];
      })
      setup.transport.max_event_bytes setup.transport.max_stream_length

-- `reporter.publish(…)` where the event that it returns is not used.
unfoldable pub published : Services → Reporter → String → Fields → Option String → Action (Unit {0})
unfolding publish
published services reporter event_type payload phase = do
  _ ← publish services reporter event_type payload phase
  pure tt

abbrev pub invalid_payload : String → String → Fields
invalid_payload code sanitized_message = field "error_code" (json_str code) (
    field "sanitized_message" (json_str sanitized_message)
      (field "retryable" (bool false) no_fields))

-- A rejected delivery: one attempt to publish `FAILED`, and an acknowledgement in any case.
unfoldable pub invalid :
    Services
    → Setup
    → Message
    → OperationType
    → (code sanitized_message : String) → ExecutionProfile
    → (run_id : Option String) → (attempt_id : String) → Action TaskOutcome
unfolding new_runtime_reporter published
invalid services setup message operation_type code sanitized_message profile run_id attempt_id =
    let operation_id =
      str_or message.metadata.outer_operation_id ("invalid-" ++ₛ message.delivery_token) in
    let run : String = elim run_id [ none ↦ operation_id | some r ↦ str_or r operation_id ] in
    do
      try_except
          (published services
            (new_runtime_reporter setup operation_id operation_type profile run attempt_id none)
            "FAILED" (invalid_payload code sanitized_message) (some "ADMISSION"))
          (λ _. pure tt)
      pure (acked_with code sanitized_message)

-- `_invalid` with its default identity.
unfoldable pub invalid_default :
    Services
    → Setup
    → Message
    → OperationType
    → (code sanitized_message : String) → Action TaskOutcome
unfolding invalid
invalid_default services setup message operation_type code sanitized_message =
    invalid services setup message operation_type code sanitized_message single_worker none
      "attempt-1"
