-- ===== src/Config/Execution.antt =====
-- The lists, the environment and the profiles of `ExecutionConfig` and `OperationExecutionConfig` of
-- src/tributo_broker_redis/config.py.
use tributo_broker_redis.Base.{
  ℕ, String, Bool, true, false, not, ◌&&◌, ◌||◌, List, [], ◌∷◌, Dict, is_empty, ◌==◌,
}
use tributo_broker_redis.Exec.{Result, ok, raised}
use tributo_broker_redis.Patterns.{codes, found_word}
use tributo_broker_redis.Config.{ExecutionProfile, profile_eq}

abbrev pub joined : Result String → Result (List String) → Result (List String)
joined (raised e) rest = raised e
joined (ok first) (raised e) = raised e
joined (ok first) (ok others) = ok (first ∷ others)

-- `tuple(validate(item) for item in value)`
unfoldable pub validate_all : (String → Result String) → List String → Result (List String)
validate_all validate [] = ok []
validate_all validate (item ∷ items) =
    let rest = validate_all validate items in joined (validate item) rest

-- `_SENSITIVE_ENV_NAME`
abbrev sensitive_env_words : List (List ℕ)
sensitive_env_words =
    codes "password"
    ∷ codes "passwd"
    ∷ codes "secret"
    ∷ codes "token"
    ∷ codes "accesskey"
    ∷ codes "access_key"
    ∷ codes "access-key"
    ∷ codes "privatekey"
    ∷ codes "private_key"
    ∷ codes "private-key"
    ∷ []

abbrev pub is_reserved : String → Bool
is_reserved name =
    (name == "TRIBUTO_ATTEMPT_ID" || name == "TRIBUTO_REDIS_DRIVER_INPUT_B64")
    || (name == "TRIBUTO_RUN_ID" || name == "TRIBUTO_SUBMISSION_ID")

unfoldable pub is_sensitive_name : String → Bool
unfolding found_word
is_sensitive_name name = found_word sensitive_env_words name

-- `_non_sensitive_env`
unfoldable pub env_vars_accepted : Dict String → Bool
unfolding is_sensitive_name
env_vars_accepted [] = true
env_vars_accepted ((name, value) ∷ env) =
    not (is_reserved name || is_sensitive_name name) && env_vars_accepted env

abbrev has_profile : ExecutionProfile → List ExecutionProfile → Bool
has_profile p [] = false
has_profile p (q ∷ qs) = profile_eq p q || has_profile p qs

abbrev unique_profiles : List ExecutionProfile → Bool
unique_profiles [] = true
unique_profiles (p ∷ ps) = not (has_profile p ps) && unique_profiles ps

-- `_unique_profiles`
unfoldable pub profiles_accepted : List ExecutionProfile → Bool
profiles_accepted profiles = not (is_empty profiles) && unique_profiles profiles

-- `_require_driver_distribution`
unfoldable pub distribution_accepted : (extra_py_modules runtime_pip_packages : List String) → Bool
distribution_accepted extra_py_modules runtime_pip_packages =
    not (is_empty extra_py_modules && is_empty runtime_pip_packages)
