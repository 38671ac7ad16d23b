-- ===== src/Execution/Workload.antt =====
-- `_run_training`, `_run_batch_inference` and `main` of src/tributo_broker_redis/execution_driver.py.
use tributo_broker_redis.Base.{ℕ, String, ◌==◌, Option, none, some, if◌then◌else◌, option_or}
use tributo_broker_redis.Json.{Json, num, obj, null, Fields, no_fields, field, fields_get, json_str}
use tributo_broker_redis.Exec.{
  Exception, protocol_failure, mapping_failure, json_decode_error, validation_error, value_error,
  type_error, timeout_error, response_error, credential_unavailable,
  terminal_event_publication_error, other, Result, ok, raised, ◌>>=◌, ◌>>◌, pure, lift, try_except,
}
use tributo_broker_redis.Config.{OperationType, training, batch_inference}
use tributo_broker_redis.Connection.{TextTools}
use tributo_broker_redis.Protocol.{DriverInput}
use tributo_broker_redis.Services.{Services, Trace, Call}
use tributo_broker_redis.State.{Action, perform}
use tributo_broker_redis.Reporter.{Reporter, failed}
use tributo_broker_redis.Client.{Environment, create_client}
use tributo_broker_redis.Execution.{
  Files, resolve_credential_reference, driver_reporter, publish_completed, publish_nonterminal,
}
use tributo_broker_redis.Execution.Input.{InputTools, load_driver_input, redis_connection}

-- What is read of a training result: `model_dump(mode="json")` and the reference to the bundle.
pub record TrainingResult : Type 0 where
  pub dumped : Result Fields
  pub bundle_uri : Json
  pub execution_id : Json

-- What is read of an inference result; `failure_code` is `failure.code` where there is a failure.
pub record InferenceResult : Type 0 where
  pub status : String
  pub failure_code : Option String
  pub input_rows : Json
  pub output_rows : Json
  pub dumped : Result Fields

-- The package `tributo` and Ray. `dict_of` is `dict(value)`; `resolve` is `resolve_inference` with the
-- update of the plan's identity and its second validation; the imports raise where a package is missing.
pub record Work (Request Plan : Type 0) : Type 0 where
  pub import_training : Result (Unit {0})
  pub import_inference : Result (Unit {0})
  pub init : Trace → Result (Unit {0})
  pub dict_of : Json → Result Fields
  pub train : Trace → Fields → Result TrainingResult
  pub validate_request : Json → Result Request
  pub resolve : Request → (run_id attempt_id submission_id : String) → Result Plan
  pub infer : Trace → Plan → Result InferenceResult

-- `payload[key]`
abbrev pub item_of : Option Json → Result Json
item_of none = raised (other "KeyError")
item_of (some v) = ok v

-- An exception of `model_dump` becomes the private one.
abbrev pub serialized : Result Fields → Result Fields
serialized (ok fs) = ok fs
serialized (raised e) = raised terminal_event_publication_error

abbrev pub phase_payload : String → Fields
phase_payload phase = field "phase" (json_str phase) no_fields

abbrev pub log_payload : String → Fields
log_payload message = field "level" (json_str "INFO") (field "message" (json_str message) no_fields)

unfoldable pub metrics_payload : Fields → Fields
unfolding fields_get
metrics_payload serialized_result =
    field "progress" (num "1.0") (
      field "metrics" (option_or (fields_get serialized_result "metrics") (obj no_fields))
        no_fields)

abbrev pub training_payload : TrainingResult → Fields → Fields
training_payload result serialized_result = field "result" (obj serialized_result) (
    field "result_reference"
      (obj (
        field "kind" (json_str "bundle")
          (field "uri" result.bundle_uri (field "execution_id" result.execution_id no_fields))))
      no_fields)

-- `type(exc).__name__`
abbrev pub class_name : Exception → String
class_name (protocol_failure code message) = "ProtocolFailure"
class_name (mapping_failure code message) = "MappingFailure"
class_name json_decode_error = "JSONDecodeError"
class_name validation_error = "ValidationError"
class_name value_error = "ValueError"
class_name type_error = "TypeError"
class_name timeout_error = "TimeoutError"
class_name (response_error message) = "ResponseError"
class_name credential_unavailable = "CredentialUnavailable"
class_name terminal_event_publication_error = "_TerminalEventPublicationError"
class_name (other name) = name

module _ {Request Plan : Type 0} (services : Services) (work : Work Request Plan)
    (value : DriverInput) (reporter : Reporter) where
  unfoldable pub run_training : Action ℕ
  unfolding publish_nonterminal publish_completed fields_get perform metrics_payload
  run_training = do
    lift work.import_training
    publish_nonterminal services reporter "PHASE" (phase_payload "PREPARING") "PREPARING"
    publish_nonterminal services reporter "LOG" (log_payload "Training driver started") "PREPARING"
    publish_nonterminal services reporter "PHASE" (phase_payload "EXECUTING") "EXECUTING"
    config ← lift (item_of (fields_get value.operation_payload "training_config"))
    given ← lift (work.dict_of config)
    result ← perform (λ t. work.train t given) (Call.run_workload training)
    serialized_result ← lift (serialized result.dumped)
    publish_nonterminal services reporter "METRICS" (metrics_payload serialized_result) "EXECUTING"
    publish_nonterminal services reporter "PHASE" (phase_payload "MATERIALIZING") "MATERIALIZING"
    publish_completed services reporter (training_payload result serialized_result)
    pure 0

  -- From the test of the status on.
  unfoldable pub conclude_inference : InferenceResult → Action ℕ
  unfolding publish_nonterminal publish_completed fields_get failed
  conclude_inference result =
      if result.status == "succeeded"
      then (do
        publish_nonterminal services reporter "PROGRESS"
            (field "progress" (num "1.0") (
              field "input_rows" result.input_rows
                (field "output_rows" result.output_rows no_fields)))
            "MATERIALIZING"
        serialized_result ← lift (serialized result.dumped)
        publish_completed services reporter (
            field "result" (obj serialized_result) (
              field "result_reference"
                (option_or (fields_get serialized_result "sink_receipt") null) no_fields))
        pure 0)
      else (do
        failed services reporter (option_or result.failure_code "INFERENCE_FAILED")
            "InferenceResult" "EXECUTING" "operation failed"
        pure 1)

  unfoldable pub run_batch_inference : String → Action ℕ
  unfolding publish_nonterminal fields_get perform conclude_inference
  run_batch_inference submission_id = do
    lift work.import_inference
    body ← lift (item_of (fields_get value.operation_payload "inference_request"))
    request ← lift (work.validate_request body)
    publish_nonterminal services reporter "PHASE" (phase_payload "PREPARING") "PREPARING"
    publish_nonterminal services reporter "LOG" (log_payload "Batch inference driver started")
        "PREPARING"
    publish_nonterminal services reporter "PROGRESS" (field "progress" (num "0.0") no_fields)
        "PREPARING"
    plan ← lift (work.resolve request value.run_id value.attempt_id submission_id)
    publish_nonterminal services reporter "PHASE" (phase_payload "EXECUTING") "EXECUTING"
    result ← perform (λ t. work.infer t plan) (Call.run_workload batch_inference)
    conclude_inference result

  abbrev pub run_operation : OperationType → String → Action ℕ
  run_operation training submission_id = run_training
  run_operation batch_inference submission_id = run_batch_inference submission_id

-- What the three `except` clauses of `main` report of an exception.
abbrev pub error_code_of : Exception → String
error_code_of credential_unavailable = "CREDENTIAL_UNAVAILABLE"
error_code_of terminal_event_publication_error = "TERMINAL_EVENT_PUBLICATION_FAILED"
error_code_of _ = "EXECUTION_FAILED"

abbrev pub error_type_of : Exception → String
error_type_of terminal_event_publication_error = "TerminalEventPublicationError"
error_type_of e = class_name e

abbrev pub phase_of : Exception → String
phase_of credential_unavailable = "PREPARING"
phase_of terminal_event_publication_error = "PUBLISHING"
phase_of _ = "EXECUTING"

-- What the process is started with. `close` is the client's, `ok tt` where it has none.
pub record Process : Type 0 where
  pub tools : TextTools
  pub files : Files
  pub env : Environment
  pub input : InputTools
  pub package_file : Option String
  pub close : Trace → Result (Unit {0})

module _ {Request Plan : Type 0} (services : Services) (work : Work Request Plan)
    (process : Process) where
  unfoldable pub report : Reporter → Exception → Action ℕ
  unfolding failed
  report reporter e = do
    failed services reporter (error_code_of e) (error_type_of e) (phase_of e) "operation failed"
    pure 1

  -- The body of the `try` statement of `main`.
  unfoldable pub run_driver : DriverInput → String → Reporter → Action ℕ
  unfolding resolve_credential_reference perform run_training run_batch_inference
  run_driver value submission_id reporter = do
    lift (resolve_credential_reference process.files process.env.environ value.credential_ref)
    perform work.init Call.init_ray
    run_operation services work value reporter value.operation_type submission_id

  -- The `try` statement, without its `finally`.
  unfoldable pub execute : DriverInput → String → Reporter → Action ℕ
  unfolding run_driver report
  execute value submission_id reporter =
      try_except (run_driver value submission_id reporter) (report reporter)

  -- `finally: close()`: a `close` that raises takes the place of the result.
  abbrev pub closed : Result (Unit {0}) → Result ℕ → Result ℕ
  closed (ok _) result = result
  closed (raised e) result = raised e

  abbrev pub finally_close : Action ℕ → Action ℕ
  finally_close body s = let (result, s') = body s in (closed (process.close s'.trace) result, s')

  unfoldable pub main : Action ℕ
  unfolding load_driver_input redis_connection create_client driver_reporter execute
  main = do
    loaded ←
        lift
          (load_driver_input process.input process.tools process.package_file process.env.environ)
    let (value, submission_id) = loaded
    connection ← lift (redis_connection value)
    _ ← lift (create_client process.tools process.env connection)
    finally_close
        (execute value submission_id (driver_reporter process.env.environ value submission_id))
