-- ===== src/Samples/Recovery.antt =====
-- A Ray job whose metadata is taken after a restart.
use tributo_broker_redis.Base.{String, ◌≡◌, refl, some, none}
use tributo_broker_redis.Json.{Fields, no_fields, field, json_str, fields_get}
use tributo_broker_redis.Services.{RayJob, ActiveSubmission}
use tributo_broker_redis.Runtime.Metadata.{submission_of, metadata_milliseconds}
use tributo_broker_redis.Runtime.Recovered.{IsVouched, submission_of-IsVouched}
use tributo_broker_redis.Samples.{setup, item}

abbrev entry_of : String → String → Fields → Fields
entry_of key value rest = field key (json_str value) rest

abbrev job_metadata : Fields
job_metadata = entry_of "tributo.operation_id" "op" (
    entry_of "tributo.operation_type" "training" (
      entry_of "tributo.execution_profile" "single_worker" (
        entry_of "tributo.run_id" "op" (
          entry_of "tributo.attempt_id" "attempt-1" (
            entry_of "tributo.driver_entrypoint" "driver"
              (entry_of "tributo.task_stream" "tasks" no_fields))))))

abbrev listed_job : RayJob
listed_job = record {
  status = "RUNNING";
  metadata = some job_metadata;
  submission_id = json_str "job-1";
  job_id = json_str "";
}

abbrev listed_item : ActiveSubmission
listed_item = record item { received_at_ms = none }

listed_taken : submission_of setup job_metadata listed_job ≡ some listed_item
unfolding submission_of fields_get metadata_milliseconds
listed_taken = refl

submission_of-IsVouched_example : IsVouched setup job_metadata listed_job listed_item
submission_of-IsVouched_example =
    submission_of-IsVouched setup job_metadata listed_job listed_item listed_taken
