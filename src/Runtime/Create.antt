-- ===== src/Runtime/Create.antt =====
-- `create_runtime` of src/tributo_broker_redis/runtime.py: a runtime with the constructor's defaults.
use tributo_broker_redis.Base.{String, false}
use tributo_broker_redis.Json.{Fields}
use tributo_broker_redis.Exec.{◌>>=◌, ◌>>◌, lift, pure}
use tributo_broker_redis.Client.{Environment}
use tributo_broker_redis.Config.Root.{ConfigTools, RedisBrokerConfig, normalize_config}
use tributo_broker_redis.Protocol.Parse.{parse_request}
use tributo_broker_redis.Operations.Prepare.{prepare_operation}
use tributo_broker_redis.Services.{Services}
use tributo_broker_redis.State.{Action}
use tributo_broker_redis.Runtime.Types.{Setup}
use tributo_broker_redis.Runtime.Default.{Outside}
use tributo_broker_redis.Runtime.Startup.{Paths, construct}

-- `_DEFAULT_DRIVER_ENTRYPOINT`
abbrev pub default_driver_entrypoint : String
default_driver_entrypoint = "python -m tributo_broker_redis.execution_driver"

-- The attributes that the constructor takes from the configuration.
unfoldable pub setup_of : ConfigTools → Outside → RedisBrokerConfig → Setup
unfolding parse_request prepare_operation
setup_of tools outside config = record {
  tools = tools.modules.text;
  transport = config.transport;
  channels = config.channels;
  training_profiles = config.operations.training;
  batch_inference_profiles = config.operations.batch_inference;
  execution = config.execution;
  driver_entrypoint = default_driver_entrypoint;
  request_parser = parse_request outside.loads outside.strip outside.urls;
  operation_preparer = prepare_operation outside.contracts;
}

module _ (services : Services) (paths : Paths) (env : Environment) (tools : ConfigTools)
    (outside : Outside) where
  unfoldable pub create_runtime : Fields → Action Setup
  unfolding normalize_config setup_of construct
  create_runtime value = do
    config ← lift (normalize_config tools value)
    construct services paths env (setup_of tools outside config) false false
    pure (setup_of tools outside config)
