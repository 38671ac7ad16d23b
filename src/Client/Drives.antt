-- ===== src/Client/Drives.antt =====
-- The client of the Ray driver: from the broker's configuration over the driver input to redis-py.
use tributo_broker_redis.Base.{ℕ, String, ◌≡◌, refl, sym, subst, true, Option}
use tributo_broker_redis.Exec.{ok}
use tributo_broker_redis.Config.{OperationType}
use tributo_broker_redis.Connection.{
  TextTools, RedisConnectionConfig, transport_accepted, ray_driver_connection,
}
use tributo_broker_redis.Connection.Driver.{ray_driver_connection-accepted}
use tributo_broker_redis.Client.{Environment, descriptor}
use tributo_broker_redis.Client.Opens.{Resolves, Opens, create_redis_client-Opens}
use tributo_broker_redis.Protocol.{GenericRequest, DriverInput}
use tributo_broker_redis.Operations.{PreparedOperation}
use tributo_broker_redis.Runtime.Types.{Setup}
use tributo_broker_redis.Runtime.Admission.{driver_fields_of}
use tributo_broker_redis.Execution.Input.{redis_connection}

-- What the driver's client is made of.
pub record Drives (tools : TextTools) (env : Environment) (value : DriverInput)
    (password sentinel_password : Option String) : Type 0 where
  pub connection : RedisConnectionConfig
  pub found : redis_connection value ≡ ok (descriptor connection)
  pub opened : Opens tools env connection password sentinel_password

-- The driver's client opens: for an accepted transport the broker derives a connection, the driver finds it
-- in the input that the broker builds, and the client that is made of it is the one of an accepted
-- connection, with the secrets that the driver's own environment has under the broker's references.
pub driver_fields_of-Drives :
    (setup : Setup) (env : Environment) (request : GenericRequest) (operation_type : OperationType)
    (prepared : PreparedOperation) (received_at_ms : ℕ) (deadline_at_ms : Option ℕ)
    (password sentinel_password : Option String)
    → transport_accepted setup.tools setup.transport ≡ true
    → Resolves env setup.transport.connection.password_ref password
    → Resolves env setup.transport.connection.sentinel_password_ref sentinel_password
    → (c : RedisConnectionConfig) × ((ray_driver_connection setup.tools setup.transport ≡ ok c)
        × (Drives setup.tools env
            (driver_fields_of setup request operation_type prepared c received_at_ms deadline_at_ms)
            password
            sentinel_password))
unfolding driver_fields_of redis_connection
driver_fields_of-Drives setup env request operation_type prepared received_at_ms deadline_at_ms
      password sentinel_password accepted found also =
    let (c, derived) = ray_driver_connection-accepted setup.tools setup.transport accepted in
    (
      c,
      (
        derived.returned,
        record {
          connection = c;
          found = refl;
          opened =
              create_redis_client-Opens setup.tools env c password sentinel_password
                derived.accepted
                (subst (λ r. Resolves env r password) (sym derived.same_password) found)
                (subst (λ r. Resolves env r sentinel_password) (sym derived.same_sentinel_password)
                  also);
        },
      ),
    )
