-- ===== src/Runtime/Startup.antt =====
-- `validate_execution_environment` and the constructor of src/tributo_broker_redis/runtime.py.
use tributo_broker_redis.Base.{
  String, ◌≡◌, refl, Bool, true, false, ◌&&◌, ◌||◌, List, [], ◌∷◌, ◌==◌, if◌then◌else◌,
}
use tributo_broker_redis.Patterns.{contains}
use tributo_broker_redis.Exec.{
  Result, ok, raised, value_error, response_error, throw, lift, modify, ◌>>◌, recover,
}
use tributo_broker_redis.Exec.Returns.{Gives, lift-Gives, bind-Gives}
use tributo_broker_redis.Config.{ChannelConfig}
use tributo_broker_redis.Connection.{TextTools}
use tributo_broker_redis.Client.{Environment, Client, broker, create_client}
use tributo_broker_redis.Services.{Services, Trace}
use tributo_broker_redis.State.{State, Delivery, Action, perform}
use tributo_broker_redis.Consumer.Group.{ensure_group, before_space, group_exists}
use tributo_broker_redis.Runtime.Types.{Setup, ExecutionConfig}

-- pathlib: `expanduser`, `resolve`, `/`, `is_dir` and `exists`.
pub record Paths : Type 0 where
  pub expanduser : String → String
  pub resolve : String → String
  pub join : String → String → String
  pub is_dir : String → Bool
  pub exists : String → Bool

abbrev holds_tributo : Paths → String → Bool
holds_tributo paths root =
    paths.is_dir root
    && (paths.is_dir (paths.join (paths.join root "src") "tributo")
        || paths.is_dir (paths.join root "tributo"))

unfoldable pub modules_exist : Paths → List String → Bool
unfolding contains
modules_exist paths [] = true
modules_exist paths (m ∷ ms) =
    (contains m "://" || paths.exists (paths.expanduser m)) && modules_exist paths ms

unfoldable pub validate_execution_environment : Paths → ExecutionConfig → Result (Unit {0})
unfolding modules_exist
validate_execution_environment paths execution =
    if holds_tributo paths (paths.resolve (paths.expanduser execution.project_root))
    then (if modules_exist paths execution.extra_py_modules then ok tt else raised value_error)
    else raised value_error

abbrev no_deliveries : Delivery
no_deliveries = record { pending_messages = []; claim_cursor = "0-0" }

-- What a new runtime, its consumers and its watcher hold.
abbrev pub initial : Bool → Trace → State
initial start_cancel_watcher trace = record {
  trace = trace;
  active = [];
  watcher = record {
    stop_requested = [];
    timeout_requested = [];
    running = start_cancel_watcher;
    closed = false;
  };
  training = no_deliveries;
  batch_inference = no_deliveries;
  next_channel = 0;
  next_pending_recovery_ms = 0;
  started = false;
  closed = false;
}

abbrev opened : Result Client → Result (Unit {0})
opened (ok client) = ok tt
opened (raised e) = raised e

module _ (services : Services) (paths : Paths) (env : Environment) (setup : Setup) where
  -- `redis_client or create_redis_client(config)`
  unfoldable pub client_given : Bool → Result (Unit {0})
  unfolding create_client
  client_given true = ok tt
  client_given false = opened (create_client setup.tools env (broker setup.transport))

  -- `RedisBrokerRuntime.__init__`
  unfoldable pub construct : (has_client start_cancel_watcher : Bool) → Action (Unit {0})
  unfolding validate_execution_environment client_given ensure_group
  construct has_client start_cancel_watcher =
      if setup.tools.strip setup.driver_entrypoint == "" then throw value_error else do
        lift (validate_execution_environment paths setup.execution)
        lift (client_given has_client)
        ensure_group services setup.tools setup.channels.training
        ensure_group services setup.tools setup.channels.batch_inference
        modify (λ s. initial start_cancel_watcher s.trace)

-- Redis makes the group, or says that it is there.
pub data IsMade (tools : TextTools) : Result (Unit {0}) → Type 0 where
  made : IsMade tools (ok tt)
  busy :
      (message : String)
      → tools.upper (before_space message) ≡ "BUSYGROUP"
      → IsMade tools (raised (response_error message))

abbrev pub Makes : Services → TextTools → ChannelConfig → Type 0
Makes services tools channel =
    (t : Trace)
    → IsMade tools (
        services.xgroup_create t channel.task_stream_key channel.consumer_group
          channel.group_start_id)

module _ (services : Services) (tools : TextTools) (channel : ChannelConfig) where
  answered_group :
      (r : Result (Unit {0})) (s : State)
      → IsMade tools r
      → (recover r (group_exists tools) s).0 ≡ ok tt
  answered_group _ s made = refl
  answered_group _ s (busy message named) = rw named refl

  ensure_group-Gives :
      Makes services tools channel → Gives {S = State} tt (ensure_group services tools channel)
  unfolding ensure_group perform
  ensure_group-Gives made_at = record { gives = λ s. answered_group _ _ (made_at s.trace) }

pub record IsStartable (services : Services) (paths : Paths) (env : Environment) (setup : Setup)
    (has_client : Bool) : Type 0 where
  pub named : (setup.tools.strip setup.driver_entrypoint == "") ≡ false
  pub environment : validate_execution_environment paths setup.execution ≡ ok tt
  pub client : client_given services paths env setup has_client ≡ ok tt
  pub training : Makes services setup.tools setup.channels.training
  pub batch_inference : Makes services setup.tools setup.channels.batch_inference

-- A runtime starts over groups that are there: the constructor does not raise if the entrypoint has a name,
-- the environment is valid, there is a client, and Redis either makes the two consumer groups or answers
-- BUSYGROUP.
pub construct-starts :
    (services : Services) (paths : Paths) (env : Environment) (setup : Setup)
    (has_client start_cancel_watcher : Bool) (s : State)
    → IsStartable services paths env setup has_client
    → (construct services paths env setup has_client start_cancel_watcher s).0 ≡ ok tt
unfolding construct
construct-starts services paths env setup has_client start_cancel_watcher s startable =
    rw startable.named (
      (bind-Gives tt tt (lift (validate_execution_environment paths setup.execution)) _
          (lift-Gives tt _ startable.environment)
          (bind-Gives tt tt (lift (client_given services paths env setup has_client)) _
            (lift-Gives tt _ startable.client)
            (bind-Gives tt tt (ensure_group services setup.tools setup.channels.training) _
              (ensure_group-Gives services setup.tools setup.channels.training startable.training)
              (bind-Gives tt tt (ensure_group services setup.tools setup.channels.batch_inference) _
                (ensure_group-Gives services setup.tools setup.channels.batch_inference
                  startable.batch_inference)
                (record { gives = λ s'. refl }))))).gives
        s)
