-- ===== src/Services.antt =====
-- What the provider calls and does not implement: Redis, Ray Jobs, the clock, JSON text. Every call
-- is kept in a trace, with whether it returned or raised, and each service is a function of the trace
-- before the call. So an answer may depend on all that was done before, and a theorem over every
-- `Services` is a theorem about every behaviour of the outside.
use tributo_broker_redis.Base.{ℕ, String, Bool, Option, List, Dict}
use tributo_broker_redis.Json.{Json, Fields, Text}
use tributo_broker_redis.Exec.{Result}
use tributo_broker_redis.Config.{OperationType, ExecutionProfile, ChannelConfig}
use tributo_broker_redis.Protocol.{DriverInput}

-- `tributo.ray_jobs.RayJobSubmission`
pub record RayJobSubmission : Type 0 where
  pub run_id : String
  pub attempt_id : String
  pub submission_id : String
  pub ray_job_id : Option String
  pub request_digest : Option String

-- `ActiveSubmission` of cancellation.py.
pub record ActiveSubmission : Type 0 where
  pub operation_id : String
  pub operation_type : OperationType
  pub execution_profile : ExecutionProfile
  pub run_id : String
  pub channel : ChannelConfig
  pub submission : RayJobSubmission
  pub received_at_ms : Option ℕ
  pub deadline_at_ms : Option ℕ

-- The `_identity` of a reporter.
pub record Identity : Type 0 where
  pub operation_id : String
  pub operation_type : OperationType
  pub execution_profile : ExecutionProfile
  pub run_id : String
  pub attempt_id : String
  pub submission_id : Option String
  pub ray_job_id : Option String

-- One event, before `json.dumps` makes it text.
pub record Event : Type 0 where
  pub protocol_profile : String
  pub protocol_version : String
  pub event_id : String
  pub timestamp_ms : ℕ
  pub identity : Identity
  pub event_type : String
  pub phase : Option String
  pub payload : Fields

-- The arguments of `submit_ray_job`; `entrypoint_num_cpus` in thousandths.
pub record SubmitRequest : Type 0 where
  pub entrypoint : String
  pub operation_namespace : String
  pub run_id : String
  pub attempt_id : String
  pub dashboard_url : String
  pub env_vars : Dict String
  pub project_root : String
  pub extra_py_modules : List String
  pub runtime_pip_packages : List String
  pub metadata : Dict String
  pub request_digest : Option String
  pub entrypoint_num_cpus : ℕ

-- A field's name or value in a stream entry: text, or bytes.
pub data Raw : Type 0 where
  decoded : Text → Raw
  bytes : List ℕ → Raw

-- `(delivery_id, fields)`
pub record Entry : Type 0 where
  pub entry_id : String
  pub fields : List (Raw × Raw)

pub data Call : Type 0 where
  exists : (key : String) → Call
  xadd : (stream outer_identity_field : String) (event : Event) (maxlen : ℕ) → Call
  xrevrange : (stream : String) (count : ℕ) → Call
  xack : (stream group token : String) → Call
  xreadgroup : (stream group consumer : String) (block : Option ℕ) → Call
  xautoclaim : (stream group consumer : String) (min_idle : ℕ) (start : String) (count : ℕ) → Call
  submit : (request : SubmitRequest) → Call
  job_status : (submission_id : String) → Call
  stop_job : (submission_id : String) → Call
  list_jobs : (dashboard_url : String) → Call
  xgroup_create : (stream group start_id : String) → Call
  ping : Call
  close_client : Call
  init_ray : Call
  run_workload : (operation_type : OperationType) → Call

pub data Step : Type 0 where
  returned : Call → Step
  failed : Call → Step

-- The newest call first.
abbrev pub Trace : Type 0
Trace = List Step

-- A value of `getattr(job, …)` or of `metadata.get(…)`.
pub record RayJob : Type 0 where
  pub status : String
  pub metadata : Option Fields
  pub submission_id : Json
  pub job_id : Json

-- `xautoclaim`'s answer; `none` for an answer of another shape.
abbrev pub ClaimPage : Type 0
ClaimPage = Option (String × Option (List Entry))

pub record Services : Type 0 where
  pub now_ms : Trace → ℕ
  pub monotonic_ms : Trace → ℕ
  pub uuid : Trace → String
  pub encoded_bytes : Event → Result ℕ
  pub repr : Json → Text
  pub loads : Text → Result Json
  pub decode_replace : List ℕ → String
  pub decode_escape : List ℕ → Text
  pub encode_driver_input : DriverInput → Result String
  pub resolve_path : String → String
  pub package_directory : Trace → String
  pub has_xrevrange : Bool
  pub has_xautoclaim : Bool
  pub has_close : Bool
  pub exists : Trace → String → Result Bool
  pub xadd : Trace → String → Event → Result (Unit {0})
  pub xrevrange : Trace → String → ℕ → Result (List Entry)
  pub xack : Trace → String → String → Result (Unit {0})
  pub xreadgroup : Trace → String → Option ℕ → Result (List Entry)
  pub xautoclaim : Trace → String → String → Result ClaimPage
  pub submit : Trace → SubmitRequest → Result RayJobSubmission
  pub job_status : Trace → String → Result String
  pub stop_job : Trace → String → Result (Unit {0})
  pub list_jobs : Trace → Result (List RayJob)
  pub xgroup_create : Trace → String → String → String → Result (Unit {0})
  pub ping : Trace → Result (Unit {0})
  pub close_client : Trace → Result (Unit {0})
  pub terminal_event_matcher : Option (Json → ActiveSubmission → Result Bool)
