-- ===== src/Operations/Fits.antt =====
-- What `prepare_operation` of src/tributo_broker_redis/operations.py promises of a prepared operation.
use tributo_broker_redis.Base.{
  ℕ, String, ◌≡◌, refl, ap, sym, ◌∙◌, true, Option, none, some, is_some, eq_iff, subst, arith, ◌≤◌,
  eq_of_test,
}
use tributo_broker_redis.Json.{Json, obj, Fields, no_fields, field, fields_get, json_str}
use tributo_broker_redis.Exec.{
  Result, ok, raised, validation_error, mapping_failure, protocol_failure, json_decode_error,
  value_error, type_error, timeout_error, response_error, credential_unavailable,
  terminal_event_publication_error, other,
}
use tributo_broker_redis.Config.{
  OperationType, training, batch_inference, ExecutionProfile, single_worker, distributed,
}
use tributo_broker_redis.Protocol.{GenericRequest, run_id_of}
use tributo_broker_redis.Protocol.Parse.{is_literal}
use tributo_broker_redis.Protocol.Accepted.{if-ok}
use tributo_broker_redis.Operations.{PreparedOperation}
use tributo_broker_redis.Operations.Prepare.{
  Contracts, TrainingConfig, InferenceRequest, Spec, workers_fit, run_id_agrees,
  validate_training_spec, validate_batch_inference_spec, fields_put, training_prepared,
  inference_prepared, prepare_training, prepare_batch_inference, prepare_operation, prepare_type,
  inference_operation, after_validation, of_spec, reference_of, profile_given,
}

-- One worker, or two and more.
abbrev pub Fits : ExecutionProfile → ℕ → Type 0
Fits single_worker workers = workers ≡ 1
Fits distributed workers = 2 ≤ workers

Fits-of_test :
    (profile : ExecutionProfile) (workers : ℕ)
    → workers_fit profile workers ≡ true
    → Fits profile workers
Fits-of_test single_worker workers h = ground arith
Fits-of_test distributed workers h = ground arith

pub record IsTraining (contracts : Contracts) (request : GenericRequest)
    (prepared : PreparedOperation) : Type 0 where
  pub spec : Spec
  pub config : TrainingConfig
  pub closed : validate_training_spec request.spec ≡ some spec
  pub validated : contracts.training_config spec.body ≡ ok config
  pub output : is_some config.bundle_uri ≡ true
  pub workers : Fits request.execution_profile config.num_workers
  pub payload : fields_get prepared.operation_payload "training_config" ≡ some (obj config.dumped)
  pub credential : prepared.credential_ref ≡ spec.credential_ref

pub record IsInference (contracts : Contracts) (request : GenericRequest)
    (prepared : PreparedOperation) : Type 0 where
  pub spec : Spec
  pub inference : InferenceRequest
  pub closed : validate_batch_inference_spec request.spec ≡ some spec
  pub validated : contracts.inference_request spec.body ≡ ok inference
  pub bundled : inference.is_bundle ≡ true
  pub workers : Fits request.execution_profile inference.concurrency
  pub given : (run_id : String) → inference.run_id ≡ some run_id → run_id ≡ run_id_of request
  pub payload : Fields
  pub handed : fields_get prepared.operation_payload "inference_request" ≡ some (obj payload)
  pub run : fields_get payload "run_id" ≡ some (json_str (run_id_of request))
  pub credential : prepared.credential_ref ≡ spec.credential_ref

abbrev pub IsFor : OperationType → Contracts → GenericRequest → PreparedOperation → Type 0
IsFor training = IsTraining
IsFor batch_inference = IsInference

fields_get-put :
    (fs : Fields) (key : String) (v : Json) → fields_get (fields_put fs key v) key ≡ some v
unfolding fields_get fields_put
fields_get-put no_fields key v = ground (arith, eq_iff key key)
fields_get-put (field k w fs) key v = ground (arith, eq_iff k key, fields_get-put fs key v)

-- The validation gave a value, and the rest made the result of it.
validation-ok :
    {A : Type 0} (code message : String) (r : Result A) (next : A → Result PreparedOperation)
    (prepared : PreparedOperation)
    → after_validation code message r next ≡ ok prepared
    → (a : A) × ((r ≡ ok a) × (next a ≡ ok prepared))
validation-ok code message (ok a) next prepared h = (a, (refl, h))
validation-ok code message (raised json_decode_error) next prepared h = cc
validation-ok code message (raised (protocol_failure c m)) next prepared h = cc
validation-ok code message (raised (mapping_failure c m)) next prepared h = cc
validation-ok code message (raised validation_error) next prepared h = cc
validation-ok code message (raised value_error) next prepared h = cc
validation-ok code message (raised type_error) next prepared h = cc
validation-ok code message (raised timeout_error) next prepared h = cc
validation-ok code message (raised (response_error m)) next prepared h = cc
validation-ok code message (raised credential_unavailable) next prepared h = cc
validation-ok code message (raised terminal_event_publication_error) next prepared h = cc
validation-ok code message (raised (other n)) next prepared h = cc

of_spec-ok :
    {A : Type 0} (spec : Option Spec) (validate : Fields → Result A) (a : A)
    → of_spec spec validate ≡ ok a
    → (found : Spec) × ((spec ≡ some found) × (validate found.body ≡ ok a))
of_spec-ok none validate a h = cc
of_spec-ok (some spec) validate a h = (spec, (refl, h))

agreed :
    (given : Option String) (run : String)
    → run_id_agrees given run ≡ true
    → (run_id : String) → given ≡ some run_id
    → run_id ≡ run
agreed none run h run_id e = cc
agreed (some found) run h run_id e =
    let same : found ≡ run_id = cc in sym same ∙ eq_of_test found run h

ok_injective : {A : Type 0} (a b : A) → ok a ≡ ok b → a ≡ b
ok_injective a b h = cc

module _ (contracts : Contracts) (request : GenericRequest) where
  trained :
      (spec : Spec) (config : TrainingConfig) (prepared : PreparedOperation)
      → validate_training_spec request.spec ≡ some spec
      → contracts.training_config spec.body ≡ ok config
      → training_prepared request spec.credential_ref config ≡ ok prepared
      → IsTraining contracts request prepared
  unfolding training_prepared fields_get
  trained spec config prepared closed validated h =
      let (output, h) = if-ok (is_some config.bundle_uri) _ _ prepared h in
      let (fit, h) =
        if-ok (workers_fit request.execution_profile config.num_workers) _ _ prepared h in
      subst (IsTraining contracts request) (ok_injective _ prepared h) (record {
        spec = spec;
        config = config;
        closed = closed;
        validated = validated;
        output = output;
        workers = Fits-of_test request.execution_profile _ fit;
        payload = refl;
        credential = refl;
      })

  served :
      (spec : Spec) (inference : InferenceRequest) (prepared : PreparedOperation)
      → validate_batch_inference_spec request.spec ≡ some spec
      → contracts.inference_request spec.body ≡ ok inference
      → inference_prepared request spec.credential_ref inference ≡ ok prepared
      → IsInference contracts request prepared
  unfolding inference_prepared inference_operation fields_get
  served spec inference prepared closed validated h =
      let (bundled, h) = if-ok inference.is_bundle _ _ prepared h in
      let (agrees, h) = if-ok (run_id_agrees inference.run_id (run_id_of request)) _ _ prepared h in
      let (fit, h) =
        if-ok (workers_fit request.execution_profile inference.concurrency) _ _ prepared h in
      subst (IsInference contracts request) (ok_injective _ prepared h) (record {
        spec = spec;
        inference = inference;
        closed = closed;
        validated = validated;
        bundled = bundled;
        workers = Fits-of_test request.execution_profile _ fit;
        given = agreed inference.run_id (run_id_of request) agrees;
        payload = fields_put inference.dumped "run_id" (json_str (run_id_of request));
        handed = refl;
        run = fields_get-put inference.dumped "run_id" (json_str (run_id_of request));
        credential = refl;
      })

  prepared-IsFor :
      (operation_type : OperationType) (prepared : PreparedOperation)
      → prepare_type contracts operation_type request ≡ ok prepared
      → IsFor operation_type contracts request prepared
  unfolding prepare_training prepare_batch_inference
  prepared-IsFor training prepared h =
      let (_, h) =
        if-ok (is_literal (fields_get request.spec "algorithm") "xgboost") _ _ prepared h in
      let (config, (validated, h)) = validation-ok _ _ _ _ prepared h in
      let (spec, (closed, validated)) =
        of_spec-ok (validate_training_spec request.spec) contracts.training_config config
          validated in
      trained spec config prepared closed validated
        (ap (λ found. training_prepared request (reference_of found) config) (sym closed) ∙ h)
  prepared-IsFor batch_inference prepared h =
      let (_, h) =
        if-ok (is_literal (some (profile_given request.spec)) "bundle-backed") _ _ prepared h in
      let (inference, (validated, h)) = validation-ok _ _ _ _ prepared h in
      let (spec, (closed, validated)) =
        of_spec-ok (validate_batch_inference_spec request.spec) contracts.inference_request
          inference validated in
      served spec inference prepared closed validated
        (ap (λ found. inference_prepared request (reference_of found) inference) (sym closed) ∙ h)

  -- What `prepare_operation` hands on comes from a closed specification that the contracts validated. The
  -- number of workers is 1 for `single_worker` and 2 or more for `distributed`; a training names its
  -- output; an inference uses a bundle, names no other run, and its payload carries the run identity of
  -- the request; the credential reference is the one of the specification.
  pub prepare_operation-IsFor :
      (prepared : PreparedOperation)
      → prepare_operation contracts request ≡ ok prepared
      → IsFor request.operation_type contracts request prepared
  unfolding prepare_operation
  prepare_operation-IsFor prepared h = prepared-IsFor request.operation_type prepared h
