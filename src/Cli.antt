-- ===== src/Cli.antt =====
-- src/tributo_broker_redis/cli.py: the two commands. argparse is a parameter: what it makes of the arguments.
pub mod Ended
use tributo_broker_redis.Base.{ℕ, String, Bool, Option, none, some, List, if◌then◌else◌}
use tributo_broker_redis.Json.{Json, obj, Fields, Text, text}
use tributo_broker_redis.Exec.{
  Exception, Result, ok, raised, value_error, other, ◌>>=◌, ◌>>◌, lift, pure, throw, try_finally,
}
use tributo_broker_redis.Client.{Environment, FileText, contents, os_error, not_utf8}
use tributo_broker_redis.Config.Root.{ConfigTools}
use tributo_broker_redis.Plugin.{validate_config}
use tributo_broker_redis.Services.{Services}
use tributo_broker_redis.State.{Action}
use tributo_broker_redis.Runtime.Types.{Setup}
use tributo_broker_redis.Runtime.Default.{Outside}
use tributo_broker_redis.Runtime.Startup.{Paths}
use tributo_broker_redis.Runtime.Create.{create_runtime}
use tributo_broker_redis.Runtime.Loop.{start, run_once, run_rounds, close}

-- What `_parser` accepts: a command with its options.
pub data Command : Type 0 where
  validate : (config : String) → (check_connectivity : Bool) → Command
  consume : (config : String) → (once : Bool) → Command

abbrev config_of : Command → String
config_of (validate config check_connectivity) = config
config_of (consume config once) = config

abbrev root_object : Result Json → Result Fields
root_object (raised e) = raised e
root_object (ok (obj fs)) = ok fs
root_object (ok value) = raised value_error

-- `_read_config` behind the reading of the file.
unfoldable pub read_config : (Text → Result Json) → FileText → Result Fields
read_config loads os_error = raised (other "OSError")
read_config loads not_utf8 = raised (other "UnicodeDecodeError")
read_config loads (contents s) = root_object (loads (text s))

module _ (services : Services) where
  -- `run_forever` until a signal comes behind `rounds` rounds: its handler closes the runtime, so that the
  -- loop ends.
  unfoldable pub serve_forever : Setup → ℕ → Action (Unit {0})
  unfolding start run_rounds close
  serve_forever setup rounds = do
    start services setup
    run_rounds services setup rounds
    close services setup

  abbrev pub serve : Setup → Bool → ℕ → Action ℕ
  serve setup once rounds = do
    start services setup
    if once
        then (do _ ← run_once services setup none; pure 0)
        else (do serve_forever setup rounds; pure 0)

  -- The `consume` command, from the runtime on.
  unfoldable pub consume_with : Setup → Bool → ℕ → Action ℕ
  unfolding start run_once serve_forever close
  consume_with setup once rounds = try_finally (serve setup once rounds) (close services setup)

module _ (services : Services) (paths : Paths) (env : Environment) (tools : ConfigTools)
    (outside : Outside) where
  abbrev pub run_command : Command → ℕ → Fields → Action ℕ
  run_command (validate config check_connectivity) rounds raw = do
    validate_config services paths env tools raw check_connectivity
    pure 0
  run_command (consume config once) rounds raw = do
    setup ← create_runtime services paths env tools outside raw
    consume_with services setup once rounds

  -- `none` is what argparse refuses, with `SystemExit`.
  abbrev pub parsed_main : Option Command → ℕ → Action ℕ
  parsed_main none rounds = throw (other "SystemExit")
  parsed_main (some command) rounds = do
    raw ← lift (read_config outside.loads (env.read_text (config_of command)))
    run_command command rounds raw

  unfoldable pub main : (List String → Option Command) → List String → ℕ → Action ℕ
  unfolding read_config validate_config create_runtime consume_with
  main parse_args argv rounds = parsed_main (parse_args argv) rounds
