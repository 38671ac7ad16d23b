-- ===== src/Protocol/Contract.antt =====
-- The validators of the `DriverInput` of src/tributo_broker_redis/protocol.py.
use tributo_broker_redis.Base.{
  Bool, true, false, not, ◌&&◌, Option, none, some, is_some, if◌then◌else◌,
}
use tributo_broker_redis.Exec.{Result, ok, raised, validation_error}
use tributo_broker_redis.Patterns.{codes, is_field_name}
use tributo_broker_redis.Connection.{
  TextTools, RedisConnectionConfig, reference_accepted, connection_accepted,
}
use tributo_broker_redis.Protocol.{DriverInput}

abbrev differs : Bool → Bool → Bool
differs true b = not b
differs false b = b

-- The pattern of `outer_identity_field`, the reference, and `_one_redis_connection`: exactly one of the two
-- descriptors. The other fields have their types and bounds by the record: its numbers are at least 0.
unfoldable pub driver_fields_accepted : DriverInput → Bool
unfolding reference_accepted is_field_name
driver_fields_accepted value =
    is_field_name (codes value.outer_identity_field)
    && reference_accepted value.credential_ref
    && differs (is_some value.redis_transport) (is_some value.redis_url)

-- `DriverInput(...)`: a connection that is a record already is taken as it is.
unfoldable pub new_driver_input : DriverInput → Result DriverInput
unfolding driver_fields_accepted
new_driver_input value = if driver_fields_accepted value then ok value else raised validation_error

abbrev pub nested_accepted : TextTools → Option RedisConnectionConfig → Bool
unfolding connection_accepted
nested_accepted tools none = true
nested_accepted tools (some connection) = connection_accepted tools connection

-- What is read from JSON is validated with the connection in it.
unfoldable pub driver_input_accepted : TextTools → DriverInput → Bool
unfolding driver_fields_accepted connection_accepted
driver_input_accepted tools value =
    nested_accepted tools value.redis_transport && driver_fields_accepted value
