-- ===== src/Samples.antt =====
-- Concrete services, configurations, deliveries and states, for the tests.
pub mod Witnesses
pub mod Deliveries
pub mod Recovery
pub mod Requests
pub mod Processes
pub mod Starts
pub mod Configs
pub mod Decimals
pub mod Rounds
use tributo_broker_redis.Base.{ℕ, String, Bool, true, false, Option, none, some, List, [], ◌∷◌}
use tributo_broker_redis.Json.{Json, json_str, Text, text, obj, Fields, no_fields, field, str}
use tributo_broker_redis.Exec.{
  Result, ok, raised, protocol_failure, value_error, json_decode_error, timeout_error,
  response_error, other,
}
use tributo_broker_redis.Config.{
  OperationType, training, batch_inference, single_worker, distributed, ChannelConfig, ChannelSet,
}
use tributo_broker_redis.Connection.{
  SplitResult, TextTools, standalone, RedisConnectionConfig, RedisTransportConfig,
}
use tributo_broker_redis.Protocol.{GenericRequest}
use tributo_broker_redis.Operations.{PreparedOperation}
use tributo_broker_redis.Services.{RayJobSubmission, ActiveSubmission, Services}
use tributo_broker_redis.State.{Metadata, Message, State}
use tributo_broker_redis.Cancellation.{WatcherConfig}
use tributo_broker_redis.Runtime.Types.{Setup}

abbrev pub channel : String → ChannelConfig
channel name = record {
  task_stream_key = "tasks";
  event_stream_prefix = name;
  cancel_key_prefix = "cancel";
  consumer_group = "group";
  consumer_name = "consumer";
  group_start_id = "0-0";
  outer_identity_field = "operation_id";
}

abbrev pub channels : ChannelSet
channels = record { training = channel "t"; batch_inference = channel "b" }

abbrev pub job : RayJobSubmission
job = record {
  run_id = "op";
  attempt_id = "attempt-1";
  submission_id = "job-1";
  ray_job_id = none;
  request_digest = none;
}

-- Redis answers `marked` to every question for a key, and Ray `status` to every question for a job.
abbrev pub services_with : Result Bool → Result String → Services
services_with marked status = record {
  now_ms = λ t. 5000;
  monotonic_ms = λ t. 0;
  uuid = λ t. "event";
  encoded_bytes = λ event. ok 10;
  repr = λ v. text "repr";
  loads = λ t. raised json_decode_error;
  decode_replace = λ b. "";
  decode_escape = λ b. text "";
  encode_driver_input = λ d. ok "encoded";
  resolve_path = λ p. p;
  package_directory = λ t. "package";
  has_xrevrange = true;
  has_xautoclaim = true;
  has_close = true;
  exists = λ t key. marked;
  xadd = λ t stream event. ok tt;
  xrevrange = λ t stream n. ok [];
  xack = λ t stream token. ok tt;
  xreadgroup = λ t stream block. ok [];
  xautoclaim = λ t stream cursor. ok none;
  submit = λ t request. ok job;
  job_status = λ t id. status;
  stop_job = λ t id. ok tt;
  list_jobs = λ t. ok [];
  xgroup_create = λ t stream group start_id. raised (response_error "BUSYGROUP exists");
  ping = λ t. ok tt;
  close_client = λ t. ok tt;
  terminal_event_matcher = none;
}

abbrev pub services : Services
services = services_with (ok false) (ok "RUNNING")

abbrev pub split_url : SplitResult
split_url = record {
  scheme = "redis";
  hostname = some "host";
  username = none;
  password = none;
  port = ok none;
  path = "";
  query = "";
  fragment = "";
}

abbrev pub tools : TextTools
tools = record {
  urlsplit = λ s. ok split_url;
  strip = λ s. s;
  has_space = λ s. false;
  upper = λ s. s;
  int_of = λ v. none;
}

abbrev pub connection : RedisConnectionConfig
connection = record {
  mode = standalone;
  url = some "redis://host";
  sentinel_nodes = [];
  sentinel_master = none;
  database = 0;
  password_ref = none;
  sentinel_password_ref = none;
}

abbrev pub transport : RedisTransportConfig
transport = record {
  connection = connection;
  driver_url = none;
  driver_sentinel_nodes = none;
  block_ms = 1000;
  claim_idle_ms = 60000;
  claim_count = 10;
  max_payload_bytes = 1000;
  max_driver_input_bytes = 1000;
  max_event_bytes = 1000;
  max_stream_length = 1000;
}

abbrev pub request : String → GenericRequest
request operation_id = record {
  operation_id = operation_id;
  operation_type = training;
  execution_profile = single_worker;
  run_id = none;
  attempt_id = "attempt-1";
  request_digest = none;
  spec = no_fields;
}

abbrev pub prepared : PreparedOperation
prepared = record { operation_payload = no_fields; credential_ref = none; timeout_ms = none }

-- A parser that gives every payload the outer identity.
abbrev pub setup : Setup
setup = record {
  tools = tools;
  transport = transport;
  channels = channels;
  training_profiles = single_worker ∷ [];
  batch_inference_profiles = single_worker ∷ [];
  execution = record {
    ray_dashboard_url = "http://ray";
    project_root = "/srv";
    extra_py_modules = [];
    runtime_pip_packages = [];
    env_vars = [];
    cancel_poll_interval_ms = 500;
    entrypoint_num_cpus = 1000;
  };
  driver_entrypoint = "driver";
  request_parser = λ raw outer operation_type. ok (request outer);
  operation_preparer = λ r. ok prepared;
}

abbrev pub message : Message
message = record {
  payload = obj (field "raw" (json_str "{}") no_fields);
  delivery_token = "1-0";
  metadata = record {
    stream = "tasks";
    operation_type = training;
    outer_operation_id = "op";
    outer_identity_field = "operation_id";
    envelope_error = "";
    payload_error = "";
    encoding_error = "";
    received_at_ms = some 4000;
  };
}

abbrev pub item : ActiveSubmission
item = record {
  operation_id = "op";
  operation_type = training;
  execution_profile = single_worker;
  run_id = "op";
  channel = channel "t";
  submission = job;
  received_at_ms = some 4000;
  deadline_at_ms = none;
}

abbrev pub fresh : State
fresh = record {
  trace = [];
  active = [];
  watcher = record { stop_requested = []; timeout_requested = []; running = false; closed = false };
  training = record { pending_messages = []; claim_cursor = "0-0" };
  batch_inference = record { pending_messages = []; claim_cursor = "0-0" };
  next_channel = 0;
  next_pending_recovery_ms = 0;
  started = false;
  closed = false;
}

abbrev pub busy : State
busy = record fresh { active = ("op", item) ∷ [] }

abbrev pub watcher_config : WatcherConfig
watcher_config = record {
  dashboard_url = "http://ray";
  max_event_bytes = 1000;
  max_stream_length = 1000;
}
