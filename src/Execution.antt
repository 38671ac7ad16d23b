-- ===== src/Execution.antt =====
-- src/tributo_broker_redis/execution_driver.py: the process inside the Ray job. Of its state only the trace
-- of calls is used. The contracts of the package `tributo` and the workload itself are parameters.
pub mod Input
pub mod Workload
pub mod Events
pub mod Settled
pub mod Exit
pub mod Credential
pub mod Completes
pub mod Once
use tributo_broker_redis.Base.{
  ℕ, zero, suc, String, Bool, Option, none, some, Dict, dict_get, truthy, if◌then◌else◌, ◌&&◌, not,
  option_or,
}
use tributo_broker_redis.Patterns.{codes, starts_with, is_env_name}
use tributo_broker_redis.Json.{Json, Fields, no_fields, field, json_str}
use tributo_broker_redis.Exec.{
  Exception, Result, ok, raised, ◌>>=◌, ◌>>◌, pure, throw, lift, try_except, credential_unavailable,
  terminal_event_publication_error,
}
use tributo_broker_redis.Protocol.{DriverInput}
use tributo_broker_redis.Services.{Services, Trace}
use tributo_broker_redis.State.{Action}
use tributo_broker_redis.Reporter.{Reporter, new_reporter, publish}
use tributo_broker_redis.Runtime.Reports.{published}
use tributo_broker_redis.Client.{drop}

-- What is asked of the file system: `Path.is_absolute`, `Path.is_file`, and whether opening the file and
-- reading a byte of it raises no `OSError`.
pub record Files : Type 0 where
  pub is_absolute : String → Bool
  pub is_file : String → Bool
  pub is_readable : String → Bool

-- `os.environ.get(name)` has a value that is not empty.
abbrev pub is_given : Option String → Bool
is_given none = Bool.false
is_given (some value) = truthy value

unfoldable pub credential_available : Files → Dict String → String → Bool
unfolding starts_with is_env_name dict_get
credential_available files environ reference =
    if starts_with (codes "env:") (codes reference)
    then is_env_name (codes (drop 4 reference)) && is_given (dict_get environ (drop 4 reference))
    else if starts_with (codes "mount:") (codes reference)
    then files.is_absolute (drop 6 reference)
      && files.is_file (drop 6 reference)
      && files.is_readable (drop 6 reference)
    else Bool.false

unfoldable pub resolve_credential_reference :
    Files → Dict String → Option String → Result (Unit {0})
unfolding credential_available
resolve_credential_reference files environ none = ok tt
resolve_credential_reference files environ (some reference) =
    if credential_available files environ reference then ok tt else raised credential_unavailable

abbrev or_else : Option String → Option String → Option String
or_else none other = other
or_else (some value) other = if truthy value then some value else other

-- `_reporter`
unfoldable pub driver_reporter : Dict String → DriverInput → String → Reporter
unfolding new_reporter dict_get
driver_reporter environ value submission_id =
    new_reporter value.event_stream_prefix value.outer_identity_field
      (record {
        operation_id = value.operation_id;
        operation_type = value.operation_type;
        execution_profile = value.execution_profile;
        run_id = value.run_id;
        attempt_id = value.attempt_id;
        submission_id = some submission_id;
        ray_job_id = or_else (dict_get environ "RAY_JOB_ID") value.ray_job_id;
      })
      value.max_event_bytes value.max_stream_length

module _ (services : Services) (reporter : Reporter) where
  unfoldable pub publish_completed : Fields → Action (Unit {0})
  unfolding published
  publish_completed payload =
      try_except (published services reporter "COMPLETED" payload (some "COMPLETED"))
        (λ _. throw terminal_event_publication_error)

  -- The loop of `_publish_nonterminal`, for the attempts that are left.
  unfoldable pub publish_attempts : ℕ → String → Fields → String → Action (Unit {0})
  unfolding published
  publish_attempts zero event_type payload phase = pure tt
  publish_attempts (suc attempts) event_type payload phase =
      let rest = publish_attempts attempts event_type payload phase in
      try_except (published services reporter event_type payload (some phase)) (λ _. rest)

  unfoldable pub publish_nonterminal : String → Fields → String → Action (Unit {0})
  unfolding publish_attempts
  publish_nonterminal event_type payload phase = publish_attempts 2 event_type payload phase
