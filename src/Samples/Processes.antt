-- ===== src/Samples/Processes.antt =====
-- Clients and driver processes that meet the hypotheses of the theorems about them.
use tributo_broker_redis.Base.{◌≡◌, refl, true, false, none, some, [], ◌∷◌, dict_get}
use tributo_broker_redis.Json.{obj, null, no_fields, field, fields_get}
use tributo_broker_redis.Exec.{ok, raised, credential_unavailable}
use tributo_broker_redis.Exec.Ends.{After}
use tributo_broker_redis.Config.{training, single_worker}
use tributo_broker_redis.Connection.{
  connection_accepted, validate_redis_url, redis_url_accepted, validate_sentinel_nodes,
  sentinel_nodes_loop, all_distinct, sentinel_master_accepted, reference_accepted,
  mode_specific_connection,
}
use tributo_broker_redis.Patterns.{starts_with, is_env_name, all_codes}
use tributo_broker_redis.Protocol.{DriverInput}
use tributo_broker_redis.State.Counts.{count_calls}
use tributo_broker_redis.State.Delivered.{Has}
use tributo_broker_redis.Reporter.{Reporter}
use tributo_broker_redis.Client.{Environment, contents, resolve_secret}
use tributo_broker_redis.Execution.{resolve_credential_reference, credential_available}
use tributo_broker_redis.Execution.Workload.{
  training_payload, Work, Process, TrainingResult, execute,
}
use tributo_broker_redis.Execution.Settled.{IsSettled, execute-IsSettled}
use tributo_broker_redis.Execution.Credential.{is_work, execute-unavailable}
use tributo_broker_redis.Execution.Completes.{TakesCompleted, Trains, IsPrepared, execute-completes}
use tributo_broker_redis.Samples.{tools, connection, services, fresh}

abbrev pub env : Environment
env = record {
  environ =
      ("TRIBUTO_REDIS_DRIVER_INPUT_B64", "encoded")
      ∷ ("TRIBUTO_SUBMISSION_ID", "job-1")
      ∷ ("TRIBUTO_ATTEMPT_ID", "attempt-1")
      ∷ ("TRIBUTO_RUN_ID", "op")
      ∷ ("REDIS_PASSWORD", "pw")
      ∷ [];
  read_text = λ path. contents "";
  rstrip = λ s. s;
}

pub no_secret : resolve_secret env none ≡ ok none
unfolding resolve_secret
no_secret = refl

pub connection_good : connection_accepted tools connection ≡ true
unfolding connection_accepted validate_redis_url redis_url_accepted validate_sentinel_nodes
    sentinel_nodes_loop all_distinct sentinel_master_accepted reference_accepted
    mode_specific_connection
connection_good = refl

abbrev pub value : DriverInput
value = record {
  operation_id = "op";
  operation_type = training;
  execution_profile = single_worker;
  run_id = "op";
  attempt_id = "attempt-1";
  ray_job_id = none;
  credential_ref = none;
  operation_payload = field "training_config" (obj no_fields) no_fields;
  redis_transport = some connection;
  redis_url = none;
  event_stream_prefix = "events";
  outer_identity_field = "operation_id";
  max_event_bytes = 1000;
  max_stream_length = 1000;
  received_at_ms = none;
  deadline_at_ms = none;
  cancel_key = none;
}

abbrev result : TrainingResult
result = record { dumped = ok no_fields; bundle_uri = null; execution_id = null }

abbrev pub work : Work (Unit {0}) (Unit {0})
work = record {
  import_training = ok tt;
  import_inference = ok tt;
  init = λ t. ok tt;
  dict_of = λ v. ok no_fields;
  train = λ t config. ok result;
  validate_request = λ v. ok tt;
  resolve = λ request run_id attempt_id submission_id. ok tt;
  infer = λ t plan. raised credential_unavailable;
}

abbrev pub process : Process
process = record {
  tools = tools;
  files = record { is_absolute = λ p. true; is_file = λ p. false; is_readable = λ p. false };
  env = env;
  input = record { decode = λ s. some s; read_fields = λ s. some value };
  package_file = none;
  close = λ t. ok tt;
}

abbrev pub reporter : Reporter
reporter = record {
  stream = "events:op";
  outer_identity_field = "operation_id";
  identity = record {
    operation_id = "op";
    operation_type = training;
    execution_profile = single_worker;
    run_id = "op";
    attempt_id = "attempt-1";
    submission_id = some "job-1";
    ray_job_id = none;
  };
  max_event_bytes = 1000;
  max_stream_length = 1000;
}

execute-IsSettled_example :
    After
      (IsSettled 0 0)
      (Has 0 0)
      (execute services work process value "job-1" reporter fresh).0
      (execute services work process value "job-1" reporter fresh).1
execute-IsSettled_example = execute-IsSettled services work process value "job-1" reporter fresh

configured : fields_get value.operation_payload "training_config" ≡ some (obj no_fields)
unfolding fields_get
configured = refl

no_credential : resolve_credential_reference process.files process.env.environ none ≡ ok tt
unfolding resolve_credential_reference
no_credential = refl

abbrev value-Trains : Trains work value result
value-Trains = record {
  config = obj no_fields;
  given = no_fields;
  dumped = no_fields;
  imported = refl;
  configured = configured;
  is_dict = refl;
  trained = λ t. refl;
  written = refl;
}

value-IsPrepared : IsPrepared work process value
value-IsPrepared = record {
  is_training = refl;
  credential = no_credential;
  initialised = λ t. refl;
}

takes_completed : TakesCompleted services reporter (training_payload result no_fields)
takes_completed = record {
  size = λ t. 10;
  encoded = λ t. refl;
  small = λ t. refl;
  taken = λ t. refl;
}

execute-completes_example : (execute services work process value "job-1" reporter fresh).0 ≡ ok 0
execute-completes_example =
    execute-completes services work process value "job-1" reporter result fresh value-Trains
      takes_completed value-IsPrepared

abbrev locked : DriverInput
locked = record value { credential_ref = some "env:MISSING" }

credential_missing :
    resolve_credential_reference process.files process.env.environ (some "env:MISSING")
    ≡ raised credential_unavailable
unfolding resolve_credential_reference credential_available starts_with is_env_name all_codes
    dict_get
credential_missing = refl

execute-unavailable_example :
    count_calls is_work (execute services work process locked "job-1" reporter fresh).1.trace ≡ 0
execute-unavailable_example =
    execute-unavailable services work process locked "job-1" reporter credential_unavailable fresh
      credential_missing
