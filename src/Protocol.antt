-- ===== src/Protocol.antt =====
-- src/tributo_broker_redis/protocol.py: the request and driver contracts.
pub mod Credentials
pub mod Parse
pub mod Exposure
pub mod Accepted
pub mod Answers
pub mod Contract
use tributo_broker_redis.Base.{ℕ, String, Option, none, some, str_or}
use tributo_broker_redis.Json.{Fields}
use tributo_broker_redis.Config.{OperationType, ExecutionProfile}
use tributo_broker_redis.Connection.{RedisConnectionConfig}

abbrev pub protocol_profile : String
protocol_profile = "tributo-generic-v1"

abbrev pub protocol_version : String
protocol_version = "1.0"

-- `protocol_profile` and `protocol_version` can only hold the two constants.
pub record GenericRequest : Type 0 where
  pub operation_id : String
  pub operation_type : OperationType
  pub execution_profile : ExecutionProfile
  pub run_id : Option String
  pub attempt_id : String
  pub request_digest : Option String
  pub spec : Fields

-- `request.run_id or request.operation_id`
unfoldable pub run_id_of : GenericRequest → String
run_id_of request = elim request.run_id [
  | none ↦ request.operation_id
  | some run_id ↦ str_or run_id request.operation_id
]

pub record DriverInput : Type 0 where
  pub operation_id : String
  pub operation_type : OperationType
  pub execution_profile : ExecutionProfile
  pub run_id : String
  pub attempt_id : String
  pub ray_job_id : Option String
  pub credential_ref : Option String
  pub operation_payload : Fields
  pub redis_transport : Option RedisConnectionConfig
  pub redis_url : Option String
  pub event_stream_prefix : String
  pub outer_identity_field : String
  pub max_event_bytes : ℕ
  pub max_stream_length : ℕ
  pub received_at_ms : Option ℕ
  pub deadline_at_ms : Option ℕ
  pub cancel_key : Option String
