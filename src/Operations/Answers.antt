-- ===== src/Operations/Answers.antt =====
-- How `prepare_operation` of src/tributo_broker_redis/operations.py fails.
use tributo_broker_redis.Base.{String, Option, none, some, is_some}
use tributo_broker_redis.Json.{Fields, fields_get}
use tributo_broker_redis.Exec.{Result, ok, raised, validation_error, mapping_failure}
use tributo_broker_redis.Config.{OperationType, training, batch_inference}
use tributo_broker_redis.Protocol.{GenericRequest, run_id_of}
use tributo_broker_redis.Protocol.Parse.{is_literal}
use tributo_broker_redis.Protocol.Answers.{Answers, answered, refused, Answers-if}
use tributo_broker_redis.Operations.{PreparedOperation}
use tributo_broker_redis.Operations.Prepare.{
  Contracts, TrainingConfig, InferenceRequest, Spec, workers_fit, run_id_agrees,
  validate_training_spec, validate_batch_inference_spec, training_prepared, inference_prepared,
  prepare_training, prepare_batch_inference, prepare_operation, prepare_type, after_validation,
  of_spec, profile_given,
}

-- The contracts' validation returns, or raises `ValidationError`.
pub data IsValidation {A : Type 0} : Result A → Type 0 where
  valid : (a : A) → IsValidation (ok a)
  invalid : IsValidation {A = A} (raised validation_error)

pub record AreValidations (contracts : Contracts) : Type 0 where
  pub of_training : (body : Fields) → IsValidation (contracts.training_config body)
  pub of_inference : (body : Fields) → IsValidation (contracts.inference_request body)

Answers-validation :
    {A : Type 0} (code message : String) (r : Result A) (next : A → Result PreparedOperation)
    → IsValidation r
    → ((a : A) → Answers mapping_failure (next a))
    → Answers mapping_failure (after_validation code message r next)
Answers-validation code message _ next (valid a) h = h a
Answers-validation code message _ next invalid h = refused code message

IsValidation-of_spec :
    {A : Type 0} (spec : Option Spec) (validate : Fields → Result A)
    → ((body : Fields) → IsValidation (validate body))
    → IsValidation (of_spec spec validate)
IsValidation-of_spec none validate h = invalid
IsValidation-of_spec (some spec) validate h = h spec.body

Answers-training :
    (request : GenericRequest) (credential_ref : Option String) (config : TrainingConfig)
    → Answers mapping_failure (training_prepared request credential_ref config)
unfolding training_prepared
Answers-training request credential_ref config =
    Answers-if (is_some config.bundle_uri) _ _ (refused _ _) (
      Answers-if (workers_fit request.execution_profile config.num_workers) _ _ (refused _ _)
        (answered _))

Answers-inference :
    (request : GenericRequest) (credential_ref : Option String) (inference : InferenceRequest)
    → Answers mapping_failure (inference_prepared request credential_ref inference)
unfolding inference_prepared
Answers-inference request credential_ref inference =
    Answers-if inference.is_bundle _ _ (refused _ _) (
      Answers-if (run_id_agrees inference.run_id (run_id_of request)) _ _ (refused _ _) (
        Answers-if (workers_fit request.execution_profile inference.concurrency) _ _ (refused _ _)
          (answered _)))

module _ (contracts : Contracts) where
  Answers-type :
      (operation_type : OperationType) (request : GenericRequest)
      → AreValidations contracts
      → Answers mapping_failure (prepare_type contracts operation_type request)
  unfolding prepare_training prepare_batch_inference
  Answers-type training request validations =
      Answers-if (is_literal (fields_get request.spec "algorithm") "xgboost") _ _ (refused _ _) (
        Answers-validation _ _ _ _
          (IsValidation-of_spec (validate_training_spec request.spec) _ validations.of_training)
          (Answers-training request _))
  Answers-type batch_inference request validations =
      Answers-if (is_literal (some (profile_given request.spec)) "bundle-backed") _ _ (refused _ _)
        (Answers-validation _ _ _ _
          (IsValidation-of_spec (validate_batch_inference_spec request.spec) _
            validations.of_inference)
          (Answers-inference request _))

  pub prepare_operation-Answers :
      (request : GenericRequest)
      → AreValidations contracts
      → Answers mapping_failure (prepare_operation contracts request)
  unfolding prepare_operation
  prepare_operation-Answers request = Answers-type request.operation_type request
