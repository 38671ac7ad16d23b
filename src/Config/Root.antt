-- ===== src/Config/Root.antt =====
-- `RedisBrokerConfig`, `normalize_config` and the validators of src/tributo_broker_redis/config.py put
-- together. That pydantic finds a value of its type for every field, and no field more, is a parameter.
use tributo_broker_redis.Base.{
  ℕ, String, Bool, ◌&&◌, Option, none, some, List, ◌==◌, leb, num_eq, count, if◌then◌else◌,
  option_or,
}
use tributo_broker_redis.Json.{Json, obj, Fields, no_fields, field, fields_get, json_is, json_str}
use tributo_broker_redis.Exec.{Result, ok, raised, validation_error}
use tributo_broker_redis.Config.{ExecutionProfile, ChannelSet}
use tributo_broker_redis.Connection.{RedisTransportConfig, transport_accepted}
use tributo_broker_redis.Config.Channels.{channels_accepted}
use tributo_broker_redis.Config.Execution.{
  validate_all, env_vars_accepted, profiles_accepted, distribution_accepted,
}
use tributo_broker_redis.Config.Modules.{
  ModuleTools, validate_extension_module, validate_runtime_pip_package,
}
use tributo_broker_redis.Runtime.Types.{ExecutionConfig}

pub record ProtocolProfileConfig : Type 0 where
  pub profile : String
  pub protocol_version : String

-- `OperationSet`: the `execution_profiles` of the two operations.
pub record OperationSet : Type 0 where
  pub training : List ExecutionProfile
  pub batch_inference : List ExecutionProfile

pub record RedisBrokerConfig : Type 0 where
  pub broker_id : String
  pub api_version : ℕ
  pub transport : RedisTransportConfig
  pub channels : ChannelSet
  pub protocol : ProtocolProfileConfig
  pub operations : OperationSet
  pub execution : ExecutionConfig

-- `read` is pydantic's reading of the fields of all records, with their defaults, before any validator of
-- this program but `_default_standalone_url`; `none` is a field that is missing, unknown or of another type.
pub record ConfigTools : Type 0 where
  pub modules : ModuleTools
  pub read : Fields → Option RedisBrokerConfig

abbrev pub default_redis_url : String
default_redis_url = "redis://127.0.0.1:6379/0"

abbrev pub set_default : Fields → String → Json → Option Json → Fields
set_default fs key value none = field key value fs
set_default fs key value (some present) = fs

-- `_default_standalone_url`
unfoldable pub default_standalone_url : Fields → Fields
unfolding fields_get
default_standalone_url fs =
    if json_is (option_or (fields_get fs "mode") (json_str "standalone")) "standalone"
    then set_default fs "url" (json_str default_redis_url) (fields_get fs "url")
    else fs

abbrev defaulted : Json → Json
unfolding default_standalone_url
defaulted (obj fs) = obj (default_standalone_url fs)
defaulted other = other

-- The connection is the record under `transport`.
unfoldable pub with_default_url : Fields → Fields
unfolding default_standalone_url
with_default_url no_fields = no_fields
with_default_url (field key value fs) =
    field key (if key == "transport" then defaulted value else value) (with_default_url fs)

abbrev pub protocol_accepted : ProtocolProfileConfig → Bool
protocol_accepted protocol =
    protocol.profile == "tributo-generic-v1" && protocol.protocol_version == "1.0"

-- The interval is in milliseconds here.
abbrev pub bounds_accepted : ExecutionConfig → Bool
bounds_accepted execution =
    leb 1 (count execution.project_root)
    && leb 1 execution.cancel_poll_interval_ms
    && leb execution.cancel_poll_interval_ms 30000

abbrev pub literals_accepted : RedisBrokerConfig → Bool
literals_accepted config = config.broker_id == "tributo-redis" && num_eq config.api_version 1

module _ (tools : ConfigTools) where
  -- The validators that change nothing.
  unfoldable pub parts_accepted : RedisBrokerConfig → Bool
  unfolding transport_accepted channels_accepted profiles_accepted env_vars_accepted
  parts_accepted config =
      transport_accepted tools.modules.text config.transport
      && channels_accepted config.channels
      && profiles_accepted config.operations.training
      && profiles_accepted config.operations.batch_inference
      && env_vars_accepted config.execution.env_vars
      && protocol_accepted config.protocol
      && bounds_accepted config.execution
      && literals_accepted config

  abbrev pub with_lists : RedisBrokerConfig → (modules packages : List String) → RedisBrokerConfig
  with_lists config modules packages = record config {
    execution = record config.execution {
      extra_py_modules = modules;
      runtime_pip_packages = packages;
    };
  }

  -- The validators' errors are gathered in one `ValidationError`.
  abbrev pub with_validated :
      RedisBrokerConfig → (modules packages : Result (List String)) → Result RedisBrokerConfig
  with_validated config (raised e) packages = raised validation_error
  with_validated config (ok modules) (raised e) = raised validation_error
  with_validated config (ok modules) (ok packages) =
      if distribution_accepted modules packages && parts_accepted config
      then ok (with_lists config modules packages)
      else raised validation_error

  unfoldable pub validated : RedisBrokerConfig → Result RedisBrokerConfig
  unfolding validate_all validate_extension_module validate_runtime_pip_package
      distribution_accepted parts_accepted
  validated config =
      with_validated config
        (validate_all (validate_extension_module tools.modules) config.execution.extra_py_modules)
        (validate_all (validate_runtime_pip_package tools.modules)
          config.execution.runtime_pip_packages)

  abbrev pub validated_if : Option RedisBrokerConfig → Result RedisBrokerConfig
  validated_if none = raised validation_error
  validated_if (some config) = validated config

  unfoldable pub normalize_config : Fields → Result RedisBrokerConfig
  unfolding with_default_url validated
  normalize_config value = validated_if (tools.read (with_default_url value))
