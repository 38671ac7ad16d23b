-- ===== src/Transport/RoundTrip.antt =====
-- The two ends of the driver transport.
use tributo_broker_redis.Base.{
  String, count, ◌≡◌, List, Dict, dict_get, dict_get-put, dict_get-pop, leb, Bool-cases, inl, inr,
  Option, none, some,
}
use tributo_broker_redis.Exec.{ok}
use tributo_broker_redis.Transport.{
  driver_env, resource_env, inline_limit, package_name, driver_transport, read_driver_input,
}

module _ (env : Dict String) where
  read-inline :
      (file : Option String) (encoded : String)
      → dict_get env driver_env ≡ some encoded
      → dict_get env resource_env ≡ none
      → read_driver_input file env ≡ ok encoded
  unfolding read_driver_input
  read-inline file encoded inline no_resource = rw (inline, no_resource)

  read-file :
      (encoded : String)
      → dict_get env driver_env ≡ none
      → dict_get env resource_env ≡ some package_name
      → read_driver_input (some encoded) env ≡ ok encoded
  unfolding read_driver_input
  read-file encoded no_inline resource = rw (no_inline, resource)

-- Whatever the environment held before, the driver reads the text that was sent, inline or from the
-- package.
pub read_driver_input-driver_transport :
    (directory encoded : String) (env_vars : Dict String) (modules : List String)
    → read_driver_input
        (driver_transport directory encoded env_vars modules).input_file
        (driver_transport directory encoded env_vars modules).env
      ≡ ok encoded
unfolding driver_transport
read_driver_input-driver_transport directory encoded env_vars modules =
    elim (Bool-cases (leb (count encoded) inline_limit)) [
      | inl small ↦
          rw small
            (read-inline _ _ encoded (simp (dict_get-put)) (simp (dict_get-put, dict_get-pop)))
      | inr large ↦
          rw large (read-file _ encoded (simp (dict_get-put, dict_get-pop)) (simp (dict_get-put)))
    ]
