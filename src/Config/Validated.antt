-- ===== src/Config/Validated.antt =====
-- What `normalize_config` of src/tributo_broker_redis/config.py returns.
use tributo_broker_redis.Base.{
  String, ◌≡◌, refl, Bool, true, false, ◌&&◌, List, if◌then◌else◌, subst, sym,
}
use tributo_broker_redis.Exec.{Result, ok, raised, validation_error}
use tributo_broker_redis.Config.Execution.{validate_all, distribution_accepted}
use tributo_broker_redis.Config.Modules.{validate_extension_module, validate_runtime_pip_package}
use tributo_broker_redis.Config.Normal.{extension_modules-stable, pip_packages-stable}
use tributo_broker_redis.Config.Root.{
  ConfigTools, RedisBrokerConfig, parts_accepted, with_lists, with_validated, validated,
}

-- What the validators return, part by part.
pub record IsValidated (tools : ConfigTools) (config accepted : RedisBrokerConfig)
    (modules packages : List String) : Type 0 where
  pub modules_valid :
      validate_all (validate_extension_module tools.modules) config.execution.extra_py_modules
      ≡ ok modules
  pub packages_valid :
      validate_all
        (validate_runtime_pip_package tools.modules)
        config.execution.runtime_pip_packages
      ≡ ok packages
  pub distributed : distribution_accepted modules packages ≡ true
  pub parts : parts_accepted tools config ≡ true
  pub same : accepted ≡ with_lists tools config modules packages

abbrev Validates : ConfigTools → (config accepted : RedisBrokerConfig) → Type 0
Validates tools config accepted =
    (modules : List String) × ((packages : List String) × IsValidated tools config accepted modules
        packages)

given :
    (d p : Bool) (v w : RedisBrokerConfig)
    → (if d && p then ok v else raised validation_error) ≡ ok w
    → (d ≡ true) × (p ≡ true) × (w ≡ v)
given true true v w h = (refl, refl, cc)
given true false v w h = cc
given false p v w h = cc

module _ (tools : ConfigTools) where
  by_results :
      (config accepted : RedisBrokerConfig) (modules packages : Result (List String))
      → validate_all (validate_extension_module tools.modules) config.execution.extra_py_modules
        ≡ modules
      → validate_all
          (validate_runtime_pip_package tools.modules)
          config.execution.runtime_pip_packages
        ≡ packages
      → with_validated tools config modules packages ≡ ok accepted
      → Validates tools config accepted
  by_results config accepted (raised e) packages hm hp h = cc
  by_results config accepted (ok ms) (raised e) hm hp h = cc
  by_results config accepted (ok ms) (ok ps) hm hp h =
      let (distributed, parts, same) =
        given (distribution_accepted ms ps) (parts_accepted tools config)
          (with_lists tools config ms ps) accepted h in
      (
        ms,
        (
          ps,
          record {
            modules_valid = hm;
            packages_valid = hp;
            distributed = distributed;
            parts = parts;
            same = same;
          },
        ),
      )

  pub validated_parts :
      (config accepted : RedisBrokerConfig)
      → validated tools config ≡ ok accepted
      → Validates tools config accepted
  unfolding validated
  validated_parts config accepted = by_results config accepted _ _ refl refl

  -- A configuration that the validators returned, they accept again and leave as it is, while `str.strip` of
  -- a stripped text is that text: no validator sees another value than the one that is used.
  pub validated-stable :
      (config accepted : RedisBrokerConfig)
      → ((v : String)
          → tools.modules.text.strip (tools.modules.text.strip v) ≡ tools.modules.text.strip v)
      → validated tools config ≡ ok accepted
      → validated tools accepted ≡ ok accepted
  unfolding validated parts_accepted
  validated-stable config accepted idempotent h =
      let (ms, (ps, checks)) = validated_parts config accepted h in
      subst (λ c. validated tools c ≡ ok c) (sym checks.same)
        (rw
          (
            extension_modules-stable tools.modules config.execution.extra_py_modules ms idempotent
                checks.modules_valid,
            pip_packages-stable tools.modules config.execution.runtime_pip_packages ps idempotent
                checks.packages_valid,
            checks.distributed,
            checks.parts,
          )
          refl)
