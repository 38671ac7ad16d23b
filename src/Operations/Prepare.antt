-- ===== src/Operations/Prepare.antt =====
-- `prepare_operation` of src/tributo_broker_redis/operations.py and the two specifications of
-- src/tributo_broker_redis/protocol.py that it validates.
use tributo_broker_redis.Base.{
  ℕ, String, Bool, true, not, Option, none, some, [], ◌∷◌, is_some, option_or, ltb, num_eq, ◌==◌,
  if◌then◌else◌,
}
use tributo_broker_redis.Json.{text, Json, str, obj, Fields, no_fields, field, fields_get, json_str}
use tributo_broker_redis.Exec.{Result, ok, raised, validation_error, mapping_failure}
use tributo_broker_redis.Optional.{◌>>=◌, ◌>>◌, require}
use tributo_broker_redis.Config.{
  OperationType, training, batch_inference, ExecutionProfile, single_worker, distributed,
}
use tributo_broker_redis.Patterns.{is_credential_reference}
use tributo_broker_redis.Protocol.{GenericRequest, run_id_of}
use tributo_broker_redis.Protocol.Parse.{only_fields, optional_text, as_object, is_literal}
use tributo_broker_redis.Operations.{PreparedOperation}

-- What is read of a `tributo.training.xgboost_trainer.XGBoostTrainingConfig`: `output.bundle_uri`,
-- `ray.num_workers` and `model_dump(mode="json", exclude_unset=True)`.
pub record TrainingConfig : Type 0 where
  pub bundle_uri : Option String
  pub num_workers : ℕ
  pub dumped : Fields

-- What is read of a `tributo.inference.contracts.InferenceRequest`: whether `model` is a
-- `BundleModelReference`, `run_id`, `execution.concurrency` and `model_dump(mode="json")`.
pub record InferenceRequest : Type 0 where
  pub is_bundle : Bool
  pub run_id : Option String
  pub concurrency : ℕ
  pub dumped : Fields

-- The `model_validate` of the two classes.
pub record Contracts : Type 0 where
  pub training_config : Fields → Result TrainingConfig
  pub inference_request : Fields → Result InferenceRequest

-- `TrainingSpec` and `BatchInferenceSpec`: the dict that they hold, and the credential reference.
pub record Spec : Type 0 where
  pub body : Fields
  pub credential_ref : Option String

-- `CredentialReference`
abbrev pub credential_text : Json → Option String
credential_text (str (text s)) = if is_credential_reference s then some s else none
credential_text _ = none

unfoldable pub validate_training_spec : Fields → Option Spec
unfolding only_fields fields_get is_credential_reference
validate_training_spec spec = do
  require (only_fields ("algorithm" ∷ "config" ∷ "credential_ref" ∷ []) spec)
  require (is_literal (fields_get spec "algorithm") "xgboost")
  config ← as_object (fields_get spec "config")
  credential_ref ← optional_text credential_text (fields_get spec "credential_ref")
  some (record { body = config; credential_ref = credential_ref })

-- `profile`, with its default.
abbrev pub profile_given : Fields → Json
profile_given spec = option_or (fields_get spec "profile") (json_str "bundle-backed")

unfoldable pub validate_batch_inference_spec : Fields → Option Spec
unfolding only_fields fields_get is_credential_reference
validate_batch_inference_spec spec = do
  require (only_fields ("profile" ∷ "request" ∷ "credential_ref" ∷ []) spec)
  require (is_literal (some (profile_given spec)) "bundle-backed")
  request ← as_object (fields_get spec "request")
  credential_ref ← optional_text credential_text (fields_get spec "credential_ref")
  some (record { body = request; credential_ref = credential_ref })

-- `payload[key] = value`
unfoldable pub fields_put : Fields → String → Json → Fields
fields_put no_fields key value = field key value no_fields
fields_put (field k v fs) key value =
    if k == key then field k value fs else field k v (fields_put fs key value)

-- How many workers a profile asks for: the two tests against `single_worker` and `distributed`.
abbrev pub workers_fit : ExecutionProfile → ℕ → Bool
workers_fit single_worker workers = num_eq workers 1
workers_fit distributed workers = not (ltb workers 2)

abbrev pub mismatch_text : ExecutionProfile → (single many : String) → String
mismatch_text single_worker single many = single
mismatch_text distributed single many = many

-- `except ValidationError` around the validations, and what follows them.
abbrev pub after_validation :
    {A : Type 0}
    → String
    → String
    → Result A
    → (A → Result PreparedOperation)
    → Result PreparedOperation
after_validation code message (ok a) next = next a
after_validation code message (raised validation_error) next = raised (mapping_failure code message)
after_validation code message (raised e) next = raised e

abbrev pub of_spec : {A : Type 0} → Option Spec → (Fields → Result A) → Result A
of_spec none validate = raised validation_error
of_spec (some spec) validate = validate spec.body

abbrev pub reference_of : Option Spec → Option String
reference_of none = none
reference_of (some spec) = spec.credential_ref

abbrev pub training_operation : Option String → TrainingConfig → PreparedOperation
training_operation credential_ref config = record {
  operation_payload = field "training_config" (obj config.dumped) no_fields;
  credential_ref = credential_ref;
  timeout_ms = none;
}

unfoldable pub training_prepared :
    GenericRequest → Option String → TrainingConfig → Result PreparedOperation
training_prepared request credential_ref config =
    if is_some config.bundle_uri
    then if workers_fit request.execution_profile config.num_workers
      then ok (training_operation credential_ref config)
      else raised (
          mapping_failure "EXECUTION_PROFILE_MISMATCH" (
            mismatch_text request.execution_profile
              "single_worker training requires ray.num_workers=1"
              "distributed training requires ray.num_workers>=2"))
    else raised
        (mapping_failure "UNSUPPORTED_TRAINING_OUTPUT" "training requires output.bundle_uri")

unfoldable pub prepare_training : Contracts → GenericRequest → Result PreparedOperation
unfolding fields_get validate_training_spec training_prepared
prepare_training contracts request =
    let spec = validate_training_spec request.spec in
    if is_literal (fields_get request.spec "algorithm") "xgboost"
    then after_validation "INVALID_TRAINING_REQUEST" "training request validation failed"
        (of_spec spec contracts.training_config) (training_prepared request (reference_of spec))
    else raised (mapping_failure "UNSUPPORTED_ALGORITHM" "v0.1 supports only the xgboost algorithm")

-- `inference_request.run_id in {None, run_id}`
abbrev pub run_id_agrees : Option String → String → Bool
run_id_agrees none run_id = true
run_id_agrees (some given) run_id = given == run_id

unfoldable pub inference_operation : String → Option String → InferenceRequest → PreparedOperation
unfolding fields_put
inference_operation run_id credential_ref inference = record {
  operation_payload =
      field "inference_request" (obj (fields_put inference.dumped "run_id" (json_str run_id)))
        no_fields;
  credential_ref = credential_ref;
  timeout_ms = none;
}

unfoldable pub inference_prepared :
    GenericRequest → Option String → InferenceRequest → Result PreparedOperation
unfolding run_id_of inference_operation
inference_prepared request credential_ref inference =
    if inference.is_bundle
    then if run_id_agrees inference.run_id (run_id_of request)
      then if workers_fit request.execution_profile inference.concurrency
        then ok (inference_operation (run_id_of request) credential_ref inference)
        else raised (
            mapping_failure "EXECUTION_PROFILE_MISMATCH" (
              mismatch_text request.execution_profile
                "single_worker inference requires execution.concurrency=1"
                "distributed inference requires execution.concurrency>=2"))
      else raised
          (mapping_failure "IDENTITY_MISMATCH" "inference request run_id conflicts with operation")
    else raised (
        mapping_failure "UNSUPPORTED_INFERENCE_PROFILE"
          "bundle-backed inference requires model.kind=bundle")

unfoldable pub prepare_batch_inference : Contracts → GenericRequest → Result PreparedOperation
unfolding validate_batch_inference_spec inference_prepared fields_get
prepare_batch_inference contracts request =
    let spec = validate_batch_inference_spec request.spec in
    if is_literal (some (profile_given request.spec)) "bundle-backed"
    then after_validation "INVALID_INFERENCE_REQUEST" "batch inference request validation failed"
        (of_spec spec contracts.inference_request) (inference_prepared request (reference_of spec))
    else raised (
        mapping_failure "UNSUPPORTED_INFERENCE_PROFILE"
          "v0.1 supports only the bundle-backed inference profile")

abbrev pub prepare_type : Contracts → OperationType → GenericRequest → Result PreparedOperation
prepare_type contracts training request = prepare_training contracts request
prepare_type contracts batch_inference request = prepare_batch_inference contracts request

unfoldable pub prepare_operation : Contracts → GenericRequest → Result PreparedOperation
unfolding prepare_training prepare_batch_inference
prepare_operation contracts request = prepare_type contracts request.operation_type request
