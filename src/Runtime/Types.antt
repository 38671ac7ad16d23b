-- ===== src/Runtime/Types.antt =====
-- What a `RedisBrokerRuntime` is built from, and the outcome of a delivery.
use tributo_broker_redis.Base.{
  ℕ, String, Bool, false, ◌||◌, Option, none, some, List, [], ◌∷◌, Dict,
}
use tributo_broker_redis.Json.{Text}
use tributo_broker_redis.Exec.{Result}
use tributo_broker_redis.Config.{
  OperationType, training, batch_inference, ExecutionProfile, profile_eq, ChannelConfig, ChannelSet,
  channel_for,
}
use tributo_broker_redis.Connection.{TextTools, RedisTransportConfig}
use tributo_broker_redis.Protocol.{GenericRequest}
unfoldable pub use tributo_broker_redis.Protocol.{run_id_of}
use tributo_broker_redis.Operations.{PreparedOperation}

-- `ExecutionConfig`; the interval in milliseconds and `entrypoint_num_cpus` in thousandths.
pub record ExecutionConfig : Type 0 where
  pub ray_dashboard_url : String
  pub project_root : String
  pub extra_py_modules : List String
  pub runtime_pip_packages : List String
  pub env_vars : Dict String
  pub cancel_poll_interval_ms : ℕ
  pub entrypoint_num_cpus : ℕ

pub record Setup : Type 0 where
  pub tools : TextTools
  pub transport : RedisTransportConfig
  pub channels : ChannelSet
  pub training_profiles : List ExecutionProfile
  pub batch_inference_profiles : List ExecutionProfile
  pub execution : ExecutionConfig
  pub driver_entrypoint : String
  pub request_parser : Text → String → OperationType → Result GenericRequest
  pub operation_preparer : GenericRequest → Result PreparedOperation

abbrev pub channel_of : Setup → OperationType → ChannelConfig
channel_of setup operation_type = channel_for setup.channels operation_type

abbrev pub profiles_of : Setup → OperationType → List ExecutionProfile
profiles_of setup training = setup.training_profiles
profiles_of setup batch_inference = setup.batch_inference_profiles

abbrev pub profile_in : ExecutionProfile → List ExecutionProfile → Bool
profile_in p [] = false
profile_in p (q ∷ qs) = profile_eq q p || profile_in p qs

pub data Disposition : Type 0 where
  ack retry reject : Disposition

pub record BrokerError : Type 0 where
  pub code : String
  pub sanitized_message : String

-- `tributo.integrations.broker.TaskOutcome`
pub record TaskOutcome : Type 0 where
  pub disposition : Disposition
  pub error : Option BrokerError

abbrev pub acked : TaskOutcome
acked = record { disposition = ack; error = none }

abbrev pub retry_with : String → String → TaskOutcome
retry_with code message = record {
  disposition = retry;
  error = some (record { code = code; sanitized_message = message });
}

abbrev pub acked_with : String → String → TaskOutcome
acked_with code message = record {
  disposition = ack;
  error = some (record { code = code; sanitized_message = message });
}
