-- ===== src/Runtime/Resume.antt =====
-- `_resume_existing_submission` of src/tributo_broker_redis/runtime.py.
use tributo_broker_redis.Base.{
  String, Bool, true, false, ◌&&◌, Option, none, some, ◌==◌, if◌then◌else◌,
}
use tributo_broker_redis.Json.{Fields, null, no_fields, field, json_str, bool, Json}
use tributo_broker_redis.Exec.{◌>>=◌, ◌>>◌, pure, gets, modify, try_except}
use tributo_broker_redis.Config.{OperationType, type_eq, profile_eq}
use tributo_broker_redis.Protocol.{GenericRequest}
use tributo_broker_redis.Services.{RayJobSubmission, ActiveSubmission, Services}
use tributo_broker_redis.State.{Action}
use tributo_broker_redis.Cancellation.{get_active, remove_active, terminal_event_published}
use tributo_broker_redis.Runtime.Types.{Setup, TaskOutcome, acked, retry_with, run_id_of}
use tributo_broker_redis.Runtime.Reports.{new_runtime_reporter, published}

abbrev pub json_option : Option String → Json
json_option none = null
json_option (some s) = json_str s

abbrev pub recovered_payload : RayJobSubmission → Fields
recovered_payload job =
    field "submission_id" (json_str job.submission_id)
      (field "ray_job_id" (json_option job.ray_job_id) (field "recovered" (bool true) no_fields))

abbrev digests_agree : Option String → Option String → Bool
digests_agree (some a) (some b) = a == b
digests_agree _ _ = false

-- The negation of the condition of the `if` that answers OPERATION_ALREADY_ACTIVE.
unfoldable pub same_identity : ActiveSubmission → GenericRequest → OperationType → Bool
unfolding run_id_of
same_identity existing request operation_type =
    type_eq existing.operation_type operation_type
    && profile_eq existing.execution_profile request.execution_profile
    && existing.run_id == run_id_of request
    && existing.submission.attempt_id == request.attempt_id
    && digests_agree existing.submission.request_digest request.request_digest

module _ (services : Services) (setup : Setup) where
  -- The `try` statement: ACCEPTED once more, under the identity of the running job.
  unfoldable pub reconfirm : GenericRequest → OperationType → ActiveSubmission → Action TaskOutcome
  unfolding published new_runtime_reporter run_id_of
  reconfirm request operation_type existing =
      try_except
        (do
          published services
              (new_runtime_reporter setup request.operation_id operation_type
                request.execution_profile (run_id_of request) request.attempt_id
                (some existing.submission))
              "ACCEPTED" (recovered_payload existing.submission) (some "ADMITTED")
          pure acked)
        (λ _. pure (
          retry_with "RECOVERED_ADMISSION_UNCONFIRMED"
            "recovered Ray admission could not be confirmed"))

  unfoldable pub resume : GenericRequest → OperationType → ActiveSubmission → Action TaskOutcome
  unfolding same_identity reconfirm terminal_event_published remove_active
  resume request operation_type existing =
      if same_identity existing request operation_type
      then (do
        ended ← terminal_event_published services existing
        if ended
            then (do
              modify (λ s. record s { active = remove_active s.active request.operation_id })
              pure acked)
            else reconfirm request operation_type existing)
      else pure (
          retry_with "OPERATION_ALREADY_ACTIVE"
            "operation_id is already active with different identity")

  abbrev pub resume_if :
      GenericRequest → OperationType → Option ActiveSubmission → Action (Option TaskOutcome)
  resume_if request operation_type none = pure none
  resume_if request operation_type (some existing) = do
    outcome ← resume request operation_type existing
    pure (some outcome)

  unfoldable pub resume_existing_submission :
      GenericRequest → OperationType → Action (Option TaskOutcome)
  unfolding resume get_active
  resume_existing_submission request operation_type = do
    existing ← gets (λ s. get_active s.active request.operation_id)
    resume_if request operation_type existing
