-- ===== src/Samples/Configs.antt =====
-- A configuration that is accepted, the commands over it, and the client of its driver.
use tributo_broker_redis.Base.{
  String, ◌≡◌, refl, true, false, none, some, Option, List, [], ◌∷◌, ◌==◌,
}
use tributo_broker_redis.Json.{no_fields, obj}
use tributo_broker_redis.Exec.{ok}
use tributo_broker_redis.Config.{training, single_worker, ChannelConfig}
use tributo_broker_redis.Config.Execution.{
  env_vars_accepted, profiles_accepted, distribution_accepted, validate_all,
}
use tributo_broker_redis.Config.Modules.{validate_extension_module, extension_module}
use tributo_broker_redis.Config.Root.{
  RedisBrokerConfig, ConfigTools, parts_accepted, validated, normalize_config,
}
use tributo_broker_redis.Config.Validated.{validated-stable}
use tributo_broker_redis.Connection.{RedisConnectionConfig, ray_driver_connection}
use tributo_broker_redis.Client.Drives.{Drives, driver_fields_of-Drives}
use tributo_broker_redis.Patterns.{contains, found, starts_with}
use tributo_broker_redis.Plugin.{validate_config, check_connection, ping_once}
use tributo_broker_redis.Plugin.Connects.{validate_config-traced, checked_trace, opening}
use tributo_broker_redis.Plugin.Foretells.{validate_config-creates}
use tributo_broker_redis.Cli.{Command, consume, read_config, main}
use tributo_broker_redis.Cli.Ended.{ClosedOnce, main-ClosedOnce}
use tributo_broker_redis.Runtime.Admission.{driver_fields_of}
use tributo_broker_redis.Runtime.Create.{create_runtime, setup_of, default_driver_entrypoint}
use tributo_broker_redis.Runtime.Default.{Outside}
use tributo_broker_redis.Runtime.Startup.{
  validate_execution_environment, modules_exist, Makes, busy,
}
use tributo_broker_redis.Consumer.Group.{before_space}
use tributo_broker_redis.State.{perform}
use tributo_broker_redis.Samples.{services, setup, transport, fresh, request, prepared, tools}
use tributo_broker_redis.Samples.Deliveries.{transport_good}
use tributo_broker_redis.Samples.Processes.{env, no_secret}
use tributo_broker_redis.Samples.Requests.{outside, module_tools, two_channels, two_accepted}
use tributo_broker_redis.Samples.Starts.{paths}

abbrev config : RedisBrokerConfig
config = record {
  broker_id = "tributo-redis";
  api_version = 1;
  transport = transport;
  channels = two_channels;
  protocol = record { profile = "tributo-generic-v1"; protocol_version = "1.0" };
  operations = record { training = single_worker ∷ []; batch_inference = single_worker ∷ [] };
  execution = record setup.execution { extra_py_modules = "./driver" ∷ [] };
}

-- Whatever the fields are, they are the configuration.
abbrev config_tools : ConfigTools
config_tools = record { modules = module_tools; read = λ fs. some config }

config_parts : parts_accepted config_tools config ≡ true
unfolding parts_accepted profiles_accepted env_vars_accepted
config_parts = rw (transport_good, two_accepted) refl

config_validated : validated config_tools config ≡ ok config
unfolding validated validate_all validate_extension_module extension_module contains found
    starts_with distribution_accepted
config_validated = rw config_parts refl

validated-stable_example : validated config_tools config ≡ ok config
validated-stable_example = validated-stable config_tools config config (λ v. refl) config_validated

config_normal : normalize_config config_tools no_fields ≡ ok config
unfolding normalize_config
config_normal = config_validated

validate_config-traced_example :
    (validate_config services paths env config_tools no_fields true fresh).1 ≡ record fresh {
      trace =
          checked_trace services paths env config_tools true
            (opening services paths env config_tools no_fields)
            fresh.trace;
    }
validate_config-traced_example =
    validate_config-traced services paths env config_tools no_fields true fresh

config_sound : validate_execution_environment paths config.execution ≡ ok tt
unfolding validate_execution_environment modules_exist
config_sound = refl

config_passes : (validate_config services paths env config_tools no_fields true fresh).0 ≡ ok tt
unfolding validate_config check_connection ping_once perform
config_passes = rw (config_normal, config_sound) refl

default_named : (tools.strip default_driver_entrypoint == "") ≡ false
default_named = refl

group_made : (channel : ChannelConfig) → Makes services tools channel
unfolding before_space
group_made channel t = busy "BUSYGROUP exists" refl

validate_config-creates_example :
    (c : RedisBrokerConfig) × ((normalize_config config_tools no_fields ≡ ok c)
      × ((create_runtime services paths env config_tools outside no_fields fresh).0
          ≡ ok (setup_of config_tools outside c)))
validate_config-creates_example =
    validate_config-creates services paths env config_tools outside no_fields fresh fresh
      default_named group_made config_passes

abbrev root_file : Outside
root_file = record outside { loads = λ t. ok (obj no_fields) }

abbrev consume_once : List String → Option Command
consume_once argv = some (consume "/srv/config.json" true)

file_read : read_config root_file.loads (env.read_text "/srv/config.json") ≡ ok no_fields
unfolding read_config
file_read = refl

runtime_made :
    (c : RedisBrokerConfig) × ((normalize_config config_tools no_fields ≡ ok c)
      × ((create_runtime services paths env config_tools root_file no_fields fresh).0
          ≡ ok (setup_of config_tools root_file c)))
runtime_made =
    validate_config-creates services paths env config_tools root_file no_fields fresh fresh
      default_named group_made config_passes

main-ClosedOnce_example :
    ClosedOnce
      (create_runtime services paths env config_tools root_file no_fields fresh).1
      (main services paths env config_tools root_file consume_once ("consume" ∷ []) 0 fresh).1
main-ClosedOnce_example =
    main-ClosedOnce services paths env config_tools root_file consume_once ("consume" ∷ []) 0
      "/srv/config.json" true no_fields (setup_of config_tools root_file runtime_made.0) fresh refl
      refl file_read runtime_made.1.1

driver_fields_of-Drives_example :
    (c : RedisConnectionConfig) × ((ray_driver_connection setup.tools setup.transport ≡ ok c)
      × (Drives setup.tools env
          (driver_fields_of setup (request "op") training prepared c 4000 none)
          none
          none))
driver_fields_of-Drives_example =
    driver_fields_of-Drives setup env (request "op") training prepared 4000 none none none
      transport_good no_secret no_secret
