-- ===== src/Runtime/Admission.antt =====
-- The part of `handle` of src/tributo_broker_redis/runtime.py behind the checks: the driver input,
-- the Ray job, the active submission and the ACCEPTED event.
use tributo_broker_redis.Base.{
  ℕ, ◌+◌, String, len, Option, none, some, List, [], ◌∷◌, Dict, ltb, if◌then◌else◌, option_or,
}
use tributo_broker_redis.Patterns.{contains, decimal}
use tributo_broker_redis.Json.{Fields, no_fields, field, json_str}
use tributo_broker_redis.Exec.{Result, ◌>>=◌, ◌>>◌, pure, lift, gets, modify, try_except}
use tributo_broker_redis.Config.{
  OperationType, training, batch_inference, type_name, profile_name, cancel_key,
}
use tributo_broker_redis.Connection.{RedisConnectionConfig, ray_driver_connection}
use tributo_broker_redis.Protocol.{GenericRequest, DriverInput, protocol_profile}
use tributo_broker_redis.Protocol.Contract.{new_driver_input}
use tributo_broker_redis.Operations.{PreparedOperation}
use tributo_broker_redis.Services.{
  RayJobSubmission, ActiveSubmission, SubmitRequest, Services, Call,
}
use tributo_broker_redis.State.{Message, Action, perform}
use tributo_broker_redis.Transport.{Shipment, driver_transport}
use tributo_broker_redis.Cancellation.{put_active}
use tributo_broker_redis.Runtime.Types.{
  Setup, channel_of, TaskOutcome, acked, retry_with, run_id_of,
}
use tributo_broker_redis.Runtime.Reports.{new_runtime_reporter, published, invalid_default}
use tributo_broker_redis.Runtime.Resume.{json_option}

abbrev pub namespace_of : OperationType → String
namespace_of training = "redis-training"
namespace_of batch_inference = "redis-batch-inference"

-- `received_at_ms + int(timeout_seconds * 1000)`, if there is a timeout.
unfoldable pub deadline_of : ℕ → Option ℕ → Option ℕ
deadline_of received_at_ms none = none
deadline_of received_at_ms (some timeout_ms) = some (received_at_ms + timeout_ms)

abbrev pub deadline_entry : Option ℕ → Dict String
deadline_entry none = []
deadline_entry (some deadline) = ("tributo.deadline_at_ms", decimal deadline) ∷ []

abbrev pub accepted_payload : RayJobSubmission → Fields
accepted_payload job =
    field "submission_id" (json_str job.submission_id)
      (field "ray_job_id" (json_option job.ray_job_id) no_fields)

module _ (setup : Setup) (request : GenericRequest) (operation_type : OperationType) where
  unfoldable pub driver_fields_of :
      PreparedOperation → RedisConnectionConfig → ℕ → Option ℕ → DriverInput
  unfolding run_id_of cancel_key
  driver_fields_of prepared connection received_at_ms deadline_at_ms =
      let channel = channel_of setup operation_type in
      record {
        operation_id = request.operation_id;
        operation_type = operation_type;
        execution_profile = request.execution_profile;
        run_id = run_id_of request;
        attempt_id = request.attempt_id;
        ray_job_id = none;
        credential_ref = prepared.credential_ref;
        operation_payload = prepared.operation_payload;
        redis_transport = some connection;
        redis_url = none;
        event_stream_prefix = channel.event_stream_prefix;
        outer_identity_field = channel.outer_identity_field;
        max_event_bytes = setup.transport.max_event_bytes;
        max_stream_length = setup.transport.max_stream_length;
        received_at_ms = some received_at_ms;
        deadline_at_ms = deadline_at_ms;
        cancel_key = some (cancel_key channel request.operation_id);
      }

  -- The constructor validates.
  unfoldable pub driver_input_of :
      PreparedOperation → RedisConnectionConfig → ℕ → Option ℕ → Result DriverInput
  unfolding driver_fields_of new_driver_input
  driver_input_of prepared connection received_at_ms deadline_at_ms =
      new_driver_input (driver_fields_of prepared connection received_at_ms deadline_at_ms)

  abbrev pub metadata_of : ℕ → Option ℕ → Dict String
  metadata_of received_at_ms deadline_at_ms =
      ("tributo.operation_id", request.operation_id)
      ∷ ("tributo.operation_type", type_name operation_type)
      ∷ ("tributo.execution_profile", profile_name request.execution_profile)
      ∷ ("tributo.protocol_profile", protocol_profile)
      ∷ ("tributo.run_id", run_id_of request)
      ∷ ("tributo.attempt_id", request.attempt_id)
      ∷ ("tributo.driver_entrypoint", setup.driver_entrypoint)
      ∷ ("tributo.task_stream", (channel_of setup operation_type).task_stream_key)
      ∷ ("tributo.received_at_ms", decimal received_at_ms)
      ∷ deadline_entry deadline_at_ms

  unfoldable pub submit_request_of : Shipment → String → ℕ → Option ℕ → SubmitRequest
  unfolding run_id_of decimal
  submit_request_of shipment project_root received_at_ms deadline_at_ms = record {
    entrypoint = setup.driver_entrypoint;
    operation_namespace = namespace_of operation_type;
    run_id = run_id_of request;
    attempt_id = request.attempt_id;
    dashboard_url = setup.execution.ray_dashboard_url;
    env_vars = shipment.env;
    project_root = project_root;
    extra_py_modules = shipment.modules;
    runtime_pip_packages = setup.execution.runtime_pip_packages;
    metadata = metadata_of received_at_ms deadline_at_ms;
    request_digest = request.request_digest;
    entrypoint_num_cpus = setup.execution.entrypoint_num_cpus;
  }

  unfoldable pub active_of : RayJobSubmission → ℕ → Option ℕ → ActiveSubmission
  unfolding run_id_of
  active_of job received_at_ms deadline_at_ms = record {
    operation_id = request.operation_id;
    operation_type = operation_type;
    execution_profile = request.execution_profile;
    run_id = run_id_of request;
    channel = channel_of setup operation_type;
    submission = job;
    received_at_ms = some received_at_ms;
    deadline_at_ms = deadline_at_ms;
  }

module _ (services : Services) (setup : Setup) (request : GenericRequest)
    (operation_type : OperationType) where
  -- A module that is no URI is a path of this machine.
  abbrev resolved : List String → List String
  resolved [] = []
  resolved (m ∷ ms) = (if contains m "://" then m else services.resolve_path m) ∷ resolved ms

  unfoldable pub submit_job : String → ℕ → Option ℕ → Action RayJobSubmission
  unfolding submit_request_of driver_transport contains perform
  submit_job encoded received_at_ms deadline_at_ms = do
    directory ← gets (λ s. services.package_directory s.trace)
    let shipment =
        driver_transport directory encoded setup.execution.env_vars
          (resolved setup.execution.extra_py_modules)
    let submission =
        submit_request_of setup request operation_type shipment
          (services.resolve_path setup.execution.project_root) received_at_ms deadline_at_ms
    perform (λ t. services.submit t submission) (Call.submit submission)

  -- The active submission stands before the event that confirms it is published.
  unfoldable pub confirm : RayJobSubmission → ℕ → Option ℕ → Action TaskOutcome
  unfolding active_of put_active new_runtime_reporter published run_id_of
  confirm job received_at_ms deadline_at_ms = do
    modify (λ s. record s {
      active =
          put_active s.active
            (active_of setup request operation_type job received_at_ms deadline_at_ms);
    })
    published services
        (new_runtime_reporter setup request.operation_id operation_type request.execution_profile
          (run_id_of request) request.attempt_id (some job))
        "ACCEPTED" (accepted_payload job) (some "ADMITTED")
    pure acked

  unfoldable pub admit_job : String → ℕ → Option ℕ → Action TaskOutcome
  unfolding submit_job confirm
  admit_job encoded received_at_ms deadline_at_ms =
      try_except
        (do
          job ← submit_job encoded received_at_ms deadline_at_ms
          confirm job received_at_ms deadline_at_ms)
        (λ _. pure (retry_with "RAY_ADMISSION_UNKNOWN" "Ray admission could not be confirmed"))

  -- From the namespace on: the input is measured before anything is submitted.
  unfoldable pub admit : Message → PreparedOperation → Action TaskOutcome
  unfolding deadline_of driver_input_of ray_driver_connection invalid_default admit_job
  admit message prepared = do
    now ← gets (λ s. services.now_ms s.trace)
    let received_at_ms = option_or message.metadata.received_at_ms now
    let deadline_at_ms = deadline_of received_at_ms prepared.timeout_ms
    connection ← lift (ray_driver_connection setup.tools setup.transport)
    driver_input ← lift (
        driver_input_of setup request operation_type prepared connection received_at_ms
          deadline_at_ms)
    encoded ← lift (services.encode_driver_input driver_input)
    if ltb setup.transport.max_driver_input_bytes (len encoded)
        then invalid_default services setup message operation_type "DRIVER_INPUT_TOO_LARGE"
            "validated driver input exceeds transport limit"
        else admit_job encoded received_at_ms deadline_at_ms
