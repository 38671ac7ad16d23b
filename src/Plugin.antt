-- ===== src/Plugin.antt =====
-- src/tributo_broker_redis/plugin.py: the plugin that the host finds.
pub mod Foretells
pub mod Connects
use tributo_broker_redis.Base.{String, Bool, List, [], ◌∷◌, if◌then◌else◌}
use tributo_broker_redis.Json.{Fields}
use tributo_broker_redis.Exec.{◌>>=◌, ◌>>◌, lift, pure, try_finally}
use tributo_broker_redis.Client.{Environment, broker, create_client}
use tributo_broker_redis.Config.Root.{ConfigTools, RedisBrokerConfig, normalize_config}
use tributo_broker_redis.Services.{Services, Call}
use tributo_broker_redis.State.{Action, perform}
use tributo_broker_redis.Runtime.Startup.{Paths, validate_execution_environment}

abbrev pub capabilities : List String
capabilities =
    "transport.redis.streams" ∷ "transport.redis.consumer-group" ∷ "transport.redis.sentinel"
    ∷ "transport.redis.credential-reference" ∷ "operation.training.single_worker"
    ∷ "operation.training.distributed" ∷ "operation.batch_inference.single_worker"
    ∷ "operation.batch_inference.distributed" ∷ "event.basic" ∷ []

module _ (services : Services) (paths : Paths) (env : Environment) (tools : ConfigTools) where
  -- The `try` statement: the client is closed whatever `ping` does.
  unfoldable pub ping_once : Action (Unit {0})
  unfolding perform
  ping_once =
      try_finally (perform services.ping Call.ping)
        (perform services.close_client Call.close_client)

  unfoldable pub check_connection : RedisBrokerConfig → Action (Unit {0})
  unfolding create_client ping_once
  check_connection parsed = do
    _ ← lift (create_client tools.modules.text env (broker parsed.transport))
    ping_once

  unfoldable pub validate_config : Fields → Bool → Action (Unit {0})
  unfolding normalize_config validate_execution_environment check_connection
  validate_config value check_connectivity = do
    parsed ← lift (normalize_config tools value)
    lift (validate_execution_environment paths parsed.execution)
    if check_connectivity then check_connection parsed else pure tt
