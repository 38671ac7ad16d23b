-- ===== src/Transport.antt =====
-- src/tributo_broker_redis/driver_transport.py: how the encoded driver input reaches the Ray driver.
-- The temporary package's file is the text that is passed on beside the environment.
pub mod RoundTrip
use tributo_broker_redis.Base.{
  ℕ, ◌*◌, String, count, Option, none, some, List, [], ◌∷◌, ◌++◌, Dict, dict_get, dict_put,
  dict_pop, leb, ◌==◌, if◌then◌else◌,
}
use tributo_broker_redis.Exec.{Result, ok, raised, value_error, other}

abbrev pub driver_env : String
driver_env = "TRIBUTO_REDIS_DRIVER_INPUT_B64"

abbrev pub resource_env : String
resource_env = "TRIBUTO_REDIS_DRIVER_INPUT_RESOURCE"

abbrev pub package_name : String
package_name = "tributo_ray_driver_input"

abbrev pub inline_limit : ℕ
inline_limit = 48 * 1024

-- What `driver_transport` yields, and the text of `input.b64` if it writes the package.
pub record Shipment : Type 0 where
  pub env : Dict String
  pub modules : List String
  pub input_file : Option String

-- `directory` is the path
-- of the package in the temporary directory.
unfoldable pub driver_transport : String → String → Dict String → List String → Shipment
unfolding dict_put dict_pop
driver_transport directory encoded env_vars modules =
    let env = dict_pop (dict_pop env_vars driver_env) resource_env in
    if leb (count encoded) inline_limit
    then record { env = dict_put env driver_env encoded; modules = modules; input_file = none }
    else record {
      env = dict_put env resource_env package_name;
      modules = modules ++ (directory ∷ []);
      input_file = some encoded;
    }

-- The tests of `read_driver_input` on the two variables.
abbrev pub read_input : Option String → (inline resource : Option String) → Result String
read_input package_file (some inline) (some resource) = raised value_error
read_input package_file none none = raised value_error
read_input package_file (some inline) none = ok inline
read_input package_file none (some resource) =
    if resource == package_name
    then elim package_file [ some encoded ↦ ok encoded | none ↦ raised (other "FileNotFoundError") ]
    else raised value_error

-- `package_file` is what `importlib.resources` finds as `input.b64` of the package.
unfoldable pub read_driver_input : Option String → Dict String → Result String
read_driver_input package_file env =
    read_input package_file (dict_get env driver_env) (dict_get env resource_env)
