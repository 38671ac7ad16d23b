-- ===== src/Runtime/Metadata.antt =====
-- What `_recover_active_submissions` of src/tributo_broker_redis/runtime.py reads of a Ray job. Ray's metadata holds no lone
-- surrogates.
use tributo_broker_redis.Base.{ℕ, String, Bool, ◌||◌, Option, none, some, ◌==◌, if◌then◌else◌}
use tributo_broker_redis.Json.{text, Json, null, str, Fields, fields_get}
use tributo_broker_redis.Optional.{◌>>=◌, ◌>>◌, require}
use tributo_broker_redis.Config.{type_of_name, profile_of_name}
use tributo_broker_redis.Services.{RayJob, ActiveSubmission}
use tributo_broker_redis.Runtime.Types.{Setup, channel_of}

-- `status in _RECOVERABLE_RAY_STATUSES`
abbrev pub is_recoverable : String → Bool
is_recoverable status =
    (status == "PENDING" || status == "RUNNING" || status == "FAILED")
    || (status == "STOPPED" || status == "SUCCEEDED")

-- `isinstance(value, str) and value`
abbrev pub some_text : Json → Option String
some_text (str (text s)) = if s == "" then none else some s
some_text _ = none

abbrev pub get_some_text : Fields → String → Option String
get_some_text metadata key = elim (fields_get metadata key) [
  | none ↦ none
  | some value ↦ some_text value
]

-- The digest, if it is absent or a text; the outer `none` is `continue`.
abbrev pub digest_of : Option Json → Option (Option String)
digest_of none = some none
digest_of (some null) = some none
digest_of (some value) = elim (some_text value) [ none ↦ none | some s ↦ some (some s) ]

-- `_metadata_milliseconds`: a number of milliseconds at least 0, or `None`.
unfoldable pub metadata_milliseconds : (Json → Option ℕ) → Option Json → Option ℕ
metadata_milliseconds int_of none = none
metadata_milliseconds int_of (some null) = none
metadata_milliseconds int_of (some value) = int_of value

module _ (setup : Setup) where
  -- What a job's metadata says, if none of the tests of the loop body goes on to the next job.
  unfoldable pub submission_of : Fields → RayJob → Option ActiveSubmission
  unfolding fields_get metadata_milliseconds
  submission_of metadata job = do
    operation_id ← get_some_text metadata "tributo.operation_id"
    type_name ← get_some_text metadata "tributo.operation_type"
    profile_name ← get_some_text metadata "tributo.execution_profile"
    run_id ← get_some_text metadata "tributo.run_id"
    attempt_id ← get_some_text metadata "tributo.attempt_id"
    driver_entrypoint ← get_some_text metadata "tributo.driver_entrypoint"
    task_stream ← get_some_text metadata "tributo.task_stream"
    submission_id ← some_text job.submission_id
    operation_type ← type_of_name type_name
    execution_profile ← profile_of_name profile_name
    require (driver_entrypoint == setup.driver_entrypoint)
    require (task_stream == (channel_of setup operation_type).task_stream_key)
    request_digest ← digest_of (fields_get metadata "tributo.request_digest")
    some (record {
      operation_id = operation_id;
      operation_type = operation_type;
      execution_profile = execution_profile;
      run_id = run_id;
      channel = channel_of setup operation_type;
      submission = record {
        run_id = run_id;
        attempt_id = attempt_id;
        submission_id = submission_id;
        ray_job_id = some_text job.job_id;
        request_digest = request_digest;
      };
      received_at_ms =
          metadata_milliseconds setup.tools.int_of (fields_get metadata "tributo.received_at_ms");
      deadline_at_ms =
          metadata_milliseconds setup.tools.int_of (fields_get metadata "tributo.deadline_at_ms");
    })

  unfoldable pub recovered_of : RayJob → Option ActiveSubmission
  unfolding submission_of
  recovered_of job =
      if is_recoverable (setup.tools.upper job.status)
      then elim job.metadata [ none ↦ none | some metadata ↦ submission_of metadata job ]
      else none
