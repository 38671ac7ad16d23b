-- ===== src/Consumer/Group.antt =====
-- `_ensure_group` of src/tributo_broker_redis/consumer.py.
use Prim.Native.Char.{code}
use tributo_broker_redis.Base.{String, num_eq, if◌then◌else◌, ◌==◌}
use tributo_broker_redis.Exec.{Exception, response_error, pure, throw, try_except}
use tributo_broker_redis.Config.{ChannelConfig}
use tributo_broker_redis.Connection.{TextTools}
use tributo_broker_redis.Services.{Services, Call}
use tributo_broker_redis.State.{Action, perform}

-- `text.partition(" ")[0]`
unfoldable pub before_space : String → String
before_space String.[] = String.[]
before_space (String.◌∷◌ c s) =
    let rest = before_space s in if num_eq (code c) b' ' then String.[] else String.◌∷◌ c rest

-- A group that is there already is no error.
abbrev pub group_exists : TextTools → Exception → Action (Unit {0})
group_exists tools (response_error message) =
    if tools.upper (before_space message) == "BUSYGROUP"
    then pure tt
    else throw (response_error message)
group_exists tools e = throw e

unfoldable pub ensure_group : Services → TextTools → ChannelConfig → Action (Unit {0})
unfolding perform before_space
ensure_group services tools channel =
    try_except
      (perform
        (λ t.
          services.xgroup_create t channel.task_stream_key channel.consumer_group
            channel.group_start_id)
        (Call.xgroup_create channel.task_stream_key channel.consumer_group channel.group_start_id))
      (group_exists tools)
