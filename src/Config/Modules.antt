-- ===== src/Config/Modules.antt =====
-- The validators of `ExecutionConfig` and `OperationExecutionConfig` of src/tributo_broker_redis/config.py.
use tributo_broker_redis.Base.{
  String, Bool, not, ◌&&◌, ◌||◌, Option, none, some, is_some, truthy, ◌==◌, if◌then◌else◌,
}
use tributo_broker_redis.Exec.{Result, ok, raised, value_error}
use tributo_broker_redis.Patterns.{codes, contains, starts_with}
use tributo_broker_redis.Connection.{TextTools, SplitResult, truthy_option}

-- `lower` and `endswith(".whl")` of a text, `PurePosixPath(path).suffix.lower()`, and `url` of the
-- `Requirement` that the package `packaging` reads, `none` where it raises `InvalidRequirement`.
pub record ModuleTools : Type 0 where
  pub text : TextTools
  pub is_wheel : String → Bool
  pub suffix : String → String
  pub requirement_url : String → Option (Option String)

-- `not normalized or "\x00" in normalized`
abbrev pub is_blank : String → Bool
unfolding contains
is_blank s = s == "" || contains s "\0"

abbrev in_schemes : String → Bool
in_schemes s = s == "gs" || s == "http" || s == "https" || s == "s3"

-- The tests of a URI on what `urlsplit` found.
unfoldable pub remote_module_accepted : ModuleTools → SplitResult → Bool
remote_module_accepted tools parsed =
    in_schemes parsed.scheme
    && truthy_option parsed.hostname
    && not (is_some parsed.username || is_some parsed.password)
    && not (truthy parsed.query || truthy parsed.fragment)
    && (tools.suffix parsed.path == ".whl" || tools.suffix parsed.path == ".zip")

abbrev pub remote_module : ModuleTools → String → Result SplitResult → Result String
unfolding remote_module_accepted
remote_module tools normalized (raised e) = raised e
remote_module tools normalized (ok parsed) =
    if remote_module_accepted tools parsed then ok normalized else raised value_error

unfoldable pub extension_module : ModuleTools → String → Result String
unfolding contains remote_module_accepted
extension_module tools normalized =
    if is_blank normalized
    then raised value_error
    else if contains normalized "://"
    then remote_module tools normalized (tools.text.urlsplit normalized)
    else if contains normalized "?" || contains normalized "#"
    then raised value_error
    else ok normalized

-- `_validate_extension_module`
unfoldable pub validate_extension_module : ModuleTools → String → Result String
unfolding extension_module
validate_extension_module tools value = extension_module tools (tools.text.strip value)

abbrev pub required : String → Option (Option String) → Result String
required normalized none = raised value_error
required normalized (some none) = ok normalized
required normalized (some (some url)) = raised value_error

unfoldable pub pip_package : ModuleTools → String → Result String
unfolding contains starts_with
pip_package tools normalized =
    if is_blank normalized
    then raised value_error
    else if starts_with (codes "-") (codes normalized)
    then raised value_error
    else if contains normalized "://" || contains normalized "@"
    then raised value_error
    else if tools.is_wheel normalized
    then (if tools.text.has_space normalized then raised value_error else ok normalized)
    else required normalized (tools.requirement_url normalized)

-- `_validate_runtime_pip_package`
unfoldable pub validate_runtime_pip_package : ModuleTools → String → Result String
unfolding pip_package
validate_runtime_pip_package tools value = pip_package tools (tools.text.strip value)
