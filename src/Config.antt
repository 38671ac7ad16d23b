-- ===== src/Config.antt =====
-- src/tributo_broker_redis/config.py: the configuration records that the other parts read.
pub mod Channels
pub mod Execution
pub mod Modules
pub mod Normal
pub mod Names
pub mod Root
pub mod Validated
use tributo_broker_redis.Base.{
  String, ◌++ₛ◌, Bool, true, false, Option, none, some, ◌==◌, if◌then◌else◌,
}

pub data OperationType : Type 0 where
  training batch_inference : OperationType

pub data ExecutionProfile : Type 0 where
  single_worker distributed : ExecutionProfile

-- The `Literal` strings of the two enumerations.
abbrev pub type_name : OperationType → String
type_name training = "training"
type_name batch_inference = "batch_inference"

abbrev pub profile_name : ExecutionProfile → String
profile_name single_worker = "single_worker"
profile_name distributed = "distributed"

abbrev pub type_of_name : String → Option OperationType
type_of_name s =
    if s == "training"
    then some training
    else if s == "batch_inference"
    then some batch_inference
    else none

abbrev pub profile_of_name : String → Option ExecutionProfile
profile_of_name s =
    if s == "single_worker"
    then some single_worker
    else if s == "distributed"
    then some distributed
    else none

abbrev pub type_eq : OperationType → OperationType → Bool
type_eq training training = true
type_eq batch_inference batch_inference = true
type_eq _ _ = false

abbrev pub profile_eq : ExecutionProfile → ExecutionProfile → Bool
profile_eq single_worker single_worker = true
profile_eq distributed distributed = true
profile_eq _ _ = false

pub record ChannelConfig : Type 0 where
  pub task_stream_key : String
  pub event_stream_prefix : String
  pub cancel_key_prefix : String
  pub consumer_group : String
  pub consumer_name : String
  pub group_start_id : String
  pub outer_identity_field : String

unfoldable pub event_stream_key : ChannelConfig → String → String
event_stream_key channel operation_id = channel.event_stream_prefix ++ₛ (":" ++ₛ operation_id)

unfoldable pub cancel_key : ChannelConfig → String → String
cancel_key channel operation_id = channel.cancel_key_prefix ++ₛ (":" ++ₛ operation_id)

pub record ChannelSet : Type 0 where
  pub training : ChannelConfig
  pub batch_inference : ChannelConfig

abbrev pub channel_for : ChannelSet → OperationType → ChannelConfig
channel_for c OperationType.training = c.training
channel_for c OperationType.batch_inference = c.batch_inference
