-- ===== src/Plugin/Foretells.antt =====
-- What a configuration that `validate_config` of src/tributo_broker_redis/plugin.py let pass is good for.
use tributo_broker_redis.Base.{◌≡◌, refl, true, false, ◌==◌}
use tributo_broker_redis.Json.{Fields}
use tributo_broker_redis.Exec.{Result, ok, raised, lift, ◌>>=◌, ◌>>◌}
use tributo_broker_redis.Exec.Returns.{lift-Gives, bind-Gives, pure-Gives}
use tributo_broker_redis.Config.{ChannelConfig}
use tributo_broker_redis.Client.{Environment, Client, broker, create_client}
use tributo_broker_redis.Config.Root.{ConfigTools, RedisBrokerConfig, normalize_config}
use tributo_broker_redis.Services.{Services}
use tributo_broker_redis.State.{State}
use tributo_broker_redis.Runtime.Default.{Outside}
use tributo_broker_redis.Runtime.Startup.{
  Paths, validate_execution_environment, construct, construct-starts, client_given, Makes,
  IsStartable,
}
use tributo_broker_redis.Runtime.Create.{create_runtime, setup_of, default_driver_entrypoint}
use tributo_broker_redis.Plugin.{ping_once, check_connection, validate_config}

module _ (services : Services) (paths : Paths) (env : Environment) (tools : ConfigTools) where
  -- What the check has seen.
  pub record IsSound (value : Fields) : Type 0 where
    pub config : RedisBrokerConfig
    pub client : Client
    pub normal : normalize_config tools value ≡ ok config
    pub environment : validate_execution_environment paths config.execution ≡ ok tt
    pub opened : create_client tools.modules.text env (broker config.transport) ≡ ok client

  by_client :
      (value : Fields) (config : RedisBrokerConfig) (r : Result Client) (s : State)
      → normalize_config tools value ≡ ok config
      → validate_execution_environment paths config.execution ≡ ok tt
      → create_client tools.modules.text env (broker config.transport) ≡ r
      → ((lift r >>= λ _. ping_once services paths env tools) s).0 ≡ ok tt
      → IsSound value
  by_client value config (ok client) s n e o h = record {
    config = config;
    client = client;
    normal = n;
    environment = e;
    opened = o;
  }
  by_client value config (raised x) s n e o h = cc

  by_environment :
      (value : Fields) (config : RedisBrokerConfig) (r : Result (Unit {0})) (s : State)
      → normalize_config tools value ≡ ok config
      → validate_execution_environment paths config.execution ≡ r
      → ((lift r >> check_connection services paths env tools config) s).0 ≡ ok tt
      → IsSound value
  unfolding check_connection
  by_environment value config (ok tt) s n e h = by_client value config _ s n e refl h
  by_environment value config (raised x) s n e h = cc

  by_config :
      (value : Fields) (r : Result RedisBrokerConfig) (s : State)
      → normalize_config tools value ≡ r
      → ((do
        parsed ← lift r
        lift (validate_execution_environment paths parsed.execution)
        check_connection services paths env tools parsed)
          s).0
        ≡ ok tt
      → IsSound value
  by_config value (ok config) s n h = by_environment value config _ s n refl h
  by_config value (raised x) s n h = cc

  validated-IsSound :
      (value : Fields) (s : State)
      → (validate_config services paths env tools value true s).0 ≡ ok tt
      → IsSound value
  unfolding validate_config
  validated-IsSound value s h = by_config value _ s refl h

  sound-IsStartable :
      (outside : Outside) (value : Fields) (sound : IsSound value)
      → (tools.modules.text.strip default_driver_entrypoint == "") ≡ false
      → ((channel : ChannelConfig) → Makes services tools.modules.text channel)
      → IsStartable services paths env (setup_of tools outside sound.config) false
  unfolding setup_of client_given
  sound-IsStartable outside value sound named makes = record {
    named = named;
    environment = sound.environment;
    client = rw sound.opened refl;
    training = makes sound.config.channels.training;
    batch_inference = makes sound.config.channels.batch_inference;
  }

  -- A configuration that passed `validate_config` with the check of the connection makes a runtime:
  -- `create_runtime` does not raise, in whatever state and however late, while Redis makes the consumer
  -- groups or answers BUSYGROUP and the files and the secrets are as they were. Stripping the command of the
  -- default driver leaves a text.
  pub validate_config-creates :
      (outside : Outside) (value : Fields) (s later : State)
      → (tools.modules.text.strip default_driver_entrypoint == "") ≡ false
      → ((channel : ChannelConfig) → Makes services tools.modules.text channel)
      → (validate_config services paths env tools value true s).0 ≡ ok tt
      → (config : RedisBrokerConfig) × ((normalize_config tools value ≡ ok config)
          × ((create_runtime services paths env tools outside value later).0
              ≡ ok (setup_of tools outside config)))
  unfolding create_runtime
  validate_config-creates outside value s later named makes passed =
      let sound = validated-IsSound value s passed in
      let setup = setup_of tools outside sound.config in
      let startable = sound-IsStartable outside value sound named makes in
      (
        sound.config,
        (
          sound.normal,
          (bind-Gives sound.config setup (lift (normalize_config tools value)) _
                (lift-Gives sound.config _ sound.normal)
                (bind-Gives tt setup (construct services paths env setup false false) _
                  (record {
                    gives = λ t. construct-starts services paths env setup false false t startable;
                  })
                  (pure-Gives setup))).gives
              later,
        ),
      )
