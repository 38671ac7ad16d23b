-- ===== src/Samples/Requests.antt =====
-- Requests, operations and configurations that meet the hypotheses of the theorems about them.
use tributo_broker_redis.Base.{String, ◌≡◌, refl, true, false, none, some, is_some}
use tributo_broker_redis.Json.{
  Text, text, Json, obj, Fields, no_fields, field, json_str, fields_get,
}
use tributo_broker_redis.Exec.{Result, ok}
use tributo_broker_redis.Config.{training, single_worker, ChannelSet}
use tributo_broker_redis.Config.Channels.{
  channels_accepted, channel_accepted, independent_channels, identity_field_accepted,
  AreIndependent, channels_accepted-AreIndependent,
}
use tributo_broker_redis.Config.Modules.{ModuleTools}
use tributo_broker_redis.Patterns.{
  is_field_name, all_codes, found, starts_with, found_word, fold_text, fold_case,
}
use tributo_broker_redis.Protocol.{GenericRequest, DriverInput}
use tributo_broker_redis.Protocol.Credentials.{
  UrlTools, credential_path, request_key_is_sensitive, is_secret, looks_like_url,
}
use tributo_broker_redis.Protocol.Exposure.{spec_exposes, credential_path-exposes}
use tributo_broker_redis.Protocol.Parse.{
  parse_request, parse_object, validate_request, only_fields, digest_text,
}
use tributo_broker_redis.Protocol.Accepted.{IsAligned, parse_request-IsAligned}
use tributo_broker_redis.Operations.{PreparedOperation}
use tributo_broker_redis.Operations.Prepare.{
  Contracts, prepare_operation, prepare_training, training_prepared, validate_training_spec,
  training_operation,
}
use tributo_broker_redis.Operations.Fits.{IsTraining, prepare_operation-IsFor}
use tributo_broker_redis.Runtime.Types.{Setup}
use tributo_broker_redis.Runtime.Default.{Outside}
use tributo_broker_redis.Protocol.Contract.{driver_input_accepted}
use tributo_broker_redis.Runtime.Admission.{driver_input_of}
use tributo_broker_redis.Runtime.Shipped.{driver_input_of-accepted}
use tributo_broker_redis.Connection.{RedisConnectionConfig, ray_driver_connection}
use tributo_broker_redis.Samples.{transport, tools, channel, setup}
use tributo_broker_redis.Samples.Deliveries.{transport_good}

abbrev no_urls : UrlTools
no_urls t = none

abbrev training_spec : Fields
training_spec = field "algorithm" (json_str "xgboost") (field "config" (obj no_fields) no_fields)

abbrev payload : Fields
payload = field "protocol_profile" (json_str "tributo-generic-v1") (
    field "protocol_version" (json_str "1.0") (
      field "operation_id" (json_str "op") (
        field "operation_type" (json_str "training") (
          field "execution_profile" (json_str "single_worker")
            (field "spec" (obj training_spec) no_fields)))))

abbrev pub parsed : GenericRequest
parsed = record {
  operation_id = "op";
  operation_type = training;
  execution_profile = single_worker;
  run_id = none;
  attempt_id = "attempt-1";
  request_digest = none;
  spec = training_spec;
}

abbrev loads : Text → Result Json
loads t = ok (obj payload)

abbrev keep : String → String
keep s = s

payload_parsed : parse_request loads keep no_urls (text "{}") "op" training ≡ ok parsed
unfolding parse_request parse_object validate_request only_fields digest_text fields_get
    credential_path request_key_is_sensitive is_secret looks_like_url found_word found starts_with
    fold_text fold_case
payload_parsed = refl

parse_request-IsAligned_example : IsAligned loads no_urls (text "{}") "op" training parsed
parse_request-IsAligned_example =
    parse_request-IsAligned no_urls "op" training keep loads (text "{}") parsed payload_parsed

abbrev leaking : Fields
leaking = field "config" (obj (field "api_token" (json_str "t") no_fields)) no_fields

credential_path-exposes_example :
    is_some (credential_path no_urls "spec" (obj leaking)) ≡ spec_exposes no_urls leaking
credential_path-exposes_example = credential_path-exposes no_urls leaking

abbrev contracts : Contracts
contracts = record {
  training_config =
      λ body. ok (record { bundle_uri = some "s3://b"; num_workers = 1; dumped = body });
  inference_request =
      λ body. ok (record { is_bundle = true; run_id = none; concurrency = 1; dumped = body });
}

abbrev pub operation : PreparedOperation
operation =
    training_operation none
      (record { bundle_uri = some "s3://b"; num_workers = 1; dumped = no_fields })

operation_prepared : prepare_operation contracts parsed ≡ ok operation
unfolding prepare_operation prepare_training training_prepared validate_training_spec only_fields
    fields_get
operation_prepared = refl

prepare_operation-IsFor_example : IsTraining contracts parsed operation
prepare_operation-IsFor_example =
    prepare_operation-IsFor contracts parsed operation operation_prepared

abbrev pub outside : Outside
outside = record { loads = loads; strip = keep; urls = no_urls; contracts = contracts }

abbrev pub default_setup : Setup
default_setup = record setup {
  request_parser = parse_request loads keep no_urls;
  operation_preparer = prepare_operation contracts;
}

channel_good : channel_accepted (channel "t") ≡ true
unfolding channel_accepted identity_field_accepted is_field_name all_codes
channel_good = refl

-- Channels of their own names.
abbrev pub two_channels : ChannelSet
two_channels = record {
  training = channel "t";
  batch_inference = record (channel "b") {
    task_stream_key = "other-tasks";
    cancel_key_prefix = "other-cancel";
    consumer_group = "other-group";
  };
}

pub two_accepted : channels_accepted two_channels ≡ true
unfolding channels_accepted channel_accepted independent_channels identity_field_accepted
    is_field_name all_codes
two_accepted = refl

channels_accepted-AreIndependent_example :
    AreIndependent two_channels.training two_channels.batch_inference
channels_accepted-AreIndependent_example =
    channels_accepted-AreIndependent two_channels two_accepted

abbrev pub module_tools : ModuleTools
module_tools = record {
  text = tools;
  is_wheel = λ s. false;
  suffix = λ p. ".whl";
  requirement_url = λ s. some none;
}

driver_input_of-accepted_example :
    (c : RedisConnectionConfig) × ((ray_driver_connection tools transport ≡ ok c)
      × ((value : DriverInput) × ((driver_input_of default_setup parsed training operation c 4000
                none
              ≡ ok value)
            × (driver_input_accepted tools value ≡ true))))
driver_input_of-accepted_example =
    driver_input_of-accepted contracts default_setup parsed training operation 4000 none
      transport_good channel_good operation_prepared
