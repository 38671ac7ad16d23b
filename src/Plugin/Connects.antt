-- ===== src/Plugin/Connects.antt =====
-- What `validate_config` of src/tributo_broker_redis/plugin.py asks of Redis.
use tributo_broker_redis.Base.{◌≡◌, refl, Bool, true, false, ◌∷◌, if◌then◌else◌}
use tributo_broker_redis.Json.{Fields}
use tributo_broker_redis.Exec.{Result, ok, raised, lift, pure, ◌>>=◌, ◌>>◌}
use tributo_broker_redis.Client.{Environment, Client, broker, create_client}
use tributo_broker_redis.Config.Root.{ConfigTools, RedisBrokerConfig, normalize_config}
use tributo_broker_redis.Services.{Services, Trace, Call}
use tributo_broker_redis.State.{State, step_of, perform}
use tributo_broker_redis.Runtime.Startup.{Paths, validate_execution_environment}
use tributo_broker_redis.Plugin.{ping_once, check_connection, validate_config}

module _ (services : Services) (paths : Paths) (env : Environment) (tools : ConfigTools) where
  -- The client that the check opens, if the configuration, the environment and the secrets allow one.
  abbrev pub opening_with : Result (Unit {0}) → RedisBrokerConfig → Result Client
  opening_with (raised e) parsed = raised e
  opening_with (ok _) parsed = create_client tools.modules.text env (broker parsed.transport)

  abbrev pub opening_of : Result RedisBrokerConfig → Result Client
  opening_of (raised e) = raised e
  opening_of (ok parsed) =
      opening_with (validate_execution_environment paths parsed.execution) parsed

  abbrev pub opening : Fields → Result Client
  opening value = opening_of (normalize_config tools value)

  -- One `ping` and one `close` behind it, if there is a client to check.
  abbrev pub checked_trace : Bool → Result Client → Trace → Trace
  checked_trace false opened t = t
  checked_trace true (raised e) t = t
  checked_trace true (ok client) t =
      let pinged : Trace = step_of (services.ping t) Call.ping ∷ t in
      step_of (services.close_client pinged) Call.close_client ∷ pinged

  by_client :
      (r : Result Client) (s : State)
      → ((lift r >>= λ _. ping_once services paths env tools) s).1
        ≡ record s { trace = checked_trace true r s.trace }
  unfolding ping_once perform
  by_client (raised e) s = refl
  by_client (ok client) s = refl

  by_environment :
      (r : Result (Unit {0})) (check : Bool) (parsed : RedisBrokerConfig) (s : State)
      → ((lift r >> (if check then check_connection services paths env tools parsed else pure tt))
          s).1
        ≡ record s { trace = checked_trace check (opening_with r parsed) s.trace }
  unfolding check_connection
  by_environment (raised e) true parsed s = refl
  by_environment (raised e) false parsed s = refl
  by_environment (ok _) true parsed s = by_client _ s
  by_environment (ok _) false parsed s = refl

  by_config :
      (r : Result RedisBrokerConfig) (check : Bool) (s : State)
      → ((do
        parsed ← lift r
        lift (validate_execution_environment paths parsed.execution)
        if check then check_connection services paths env tools parsed else pure tt)
          s).1
        ≡ record s { trace = checked_trace check (opening_of r) s.trace }
  by_config (raised e) true s = refl
  by_config (raised e) false s = refl
  by_config (ok parsed) check s = by_environment _ check parsed s

  -- To validate a configuration changes nothing of the process. Without the check of the connection Redis is
  -- not called; with it, and with a client that could be made, Redis is pinged once and the client is closed
  -- once behind it, whether the ping raised or not.
  pub validate_config-traced :
      (value : Fields) (check_connectivity : Bool) (s : State)
      → (validate_config services paths env tools value check_connectivity s).1
        ≡ record s { trace = checked_trace check_connectivity (opening value) s.trace }
  unfolding validate_config
  validate_config-traced value check_connectivity s = by_config _ check_connectivity s
