-- ===== src/Execution/Input.antt =====
-- `_load_driver_input` of src/tributo_broker_redis/execution_driver.py, with the validators of the
-- `DriverInput` of src/tributo_broker_redis/protocol.py.
use tributo_broker_redis.Base.{
  String, Bool, false, Option, none, some, Dict, dict_get, truthy, ◌==◌, if◌then◌else◌,
}
use tributo_broker_redis.Exec.{Result, ok, raised, value_error, validation_error}
use tributo_broker_redis.Connection.{TextTools}
use tributo_broker_redis.Protocol.{DriverInput}
use tributo_broker_redis.Protocol.Contract.{driver_input_accepted}
use tributo_broker_redis.Transport.{read_driver_input}
use tributo_broker_redis.Client.{ClientConfig, descriptor, legacy_url, ◌>>=◌}

-- Base64 and UTF-8, and the JSON text read into fields of their types.
pub record InputTools : Type 0 where
  pub decode : String → Option String
  pub read_fields : String → Option DriverInput

abbrev decoded_or : Option String → Result String
decoded_or none = raised value_error
decoded_or (some decoded) = ok decoded

-- `DriverInput.model_validate_json`
abbrev validated : TextTools → Option DriverInput → Result DriverInput
unfolding driver_input_accepted
validated text_tools none = raised validation_error
validated text_tools (some value) =
    if driver_input_accepted text_tools value then ok value else raised validation_error

abbrev is_text : Option String → String → Bool
is_text none s = false
is_text (some t) s = t == s

-- The three tests of identity.
abbrev pub identified :
    Option String → Option String → Option String → DriverInput → Result (DriverInput × String)
identified none attempt run value = raised value_error
identified (some submission_id) attempt run value =
    if truthy submission_id
    then if is_text attempt value.attempt_id
      then if is_text run value.run_id then ok (value, submission_id) else raised value_error
      else raised value_error
    else raised value_error

unfoldable pub load_driver_input :
    InputTools → TextTools → Option String → Dict String → Result (DriverInput × String)
unfolding read_driver_input driver_input_accepted dict_get
load_driver_input tools text_tools package_file environ = do
  raw ← read_driver_input package_file environ
  decoded ← decoded_or (tools.decode raw)
  value ← validated text_tools (tools.read_fields decoded)
  identified (dict_get environ "TRIBUTO_SUBMISSION_ID") (dict_get environ "TRIBUTO_ATTEMPT_ID")
      (dict_get environ "TRIBUTO_RUN_ID") value

abbrev connection_from : DriverInput → Result ClientConfig
connection_from value = elim value.redis_transport [
  | some transport ↦ ok (descriptor transport)
  | none ↦ elim value.redis_url [ none ↦ raised value_error | some url ↦ ok (legacy_url url) ]
]

-- The property `redis_connection`.
unfoldable pub redis_connection : DriverInput → Result ClientConfig
redis_connection value = connection_from value
