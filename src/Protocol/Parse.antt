-- ===== src/Protocol/Parse.antt =====
-- `parse_request` of src/tributo_broker_redis/protocol.py, with the validation that pydantic makes of the
-- annotations of `GenericRequest`: a text with a lone surrogate is no `str` to it.
use tributo_broker_redis.Base.{
  ℕ, String, count, Bool, true, false, ◌&&◌, ◌||◌, Option, none, some, List, [], ◌∷◌, leb, num_eq,
  ◌==◌, if◌then◌else◌, ◌++ₛ◌, option_or,
}
use tributo_broker_redis.Json.{
  Text, text, Json, null, str, obj, Fields, no_fields, field, fields_get, json_is,
}
use tributo_broker_redis.Exec.{Result, ok, raised, protocol_failure, json_decode_error}
use tributo_broker_redis.Optional.{◌>>=◌, ◌>>◌, require}
use tributo_broker_redis.Config.{OperationType, type_eq, type_of_name, profile_of_name}
use tributo_broker_redis.Patterns.{codes, all_codes, between}
use tributo_broker_redis.Protocol.{GenericRequest, protocol_profile, protocol_version}
use tributo_broker_redis.Protocol.Credentials.{UrlTools, credential_path}

abbrev named : String → List String → Bool
named key [] = false
named key (k ∷ ks) = k == key || named key ks

-- `extra="forbid"`
unfoldable pub only_fields : List String → Fields → Bool
only_fields names no_fields = true
only_fields names (field key v fs) = named key names && only_fields names fs

-- A `str` with `min_length=1` and a `max_length`.
abbrev pub bounded_text : ℕ → Json → Option String
bounded_text bound (str (text s)) = if leb 1 (count s) && leb (count s) bound then some s else none
bounded_text bound _ = none

-- `_trimmed_identity`
abbrev pub trimmed : (String → String) → String → Option String
trimmed strip s = if s == strip s then some s else none

abbrev pub identity_text : (String → String) → ℕ → Json → Option String
identity_text strip bound v = do s ← bounded_text bound v; trimmed strip s

-- A field of type `str | None` that defaults to `None`.
abbrev pub optional_text : (Json → Option String) → Option Json → Option (Option String)
optional_text check none = some none
optional_text check (some null) = some none
optional_text check (some v) = do s ← check v; some (some s)

-- A field with a default text.
abbrev pub text_or : String → (Json → Option String) → Option Json → Option String
text_or default check none = some default
text_or default check (some v) = check v

abbrev is_hex : ℕ → Bool
is_hex c = between b'0' b'9' c || between b'a' b'f' c

-- `^[0-9a-f]{64}$`
unfoldable pub digest_text : Json → Option String
unfolding all_codes
digest_text (str (text s)) =
    if num_eq (count s) 64 && all_codes is_hex (codes s) then some s else none
digest_text _ = none

abbrev pub literal : {A : Type 0} → (String → Option A) → Option Json → Option A
literal read (some (str (text s))) = read s
literal read _ = none

abbrev pub as_object : Option Json → Option Fields
as_object (some (obj fs)) = some fs
as_object _ = none

abbrev pub is_literal : Option Json → String → Bool
is_literal (some v) s = json_is v s
is_literal none s = false

abbrev pub request_fields : List String
request_fields =
    "protocol_profile" ∷ "protocol_version" ∷ "operation_id" ∷ "operation_type"
    ∷ "execution_profile" ∷ "run_id" ∷ "attempt_id" ∷ "request_digest" ∷ "spec" ∷ []

-- `GenericRequest.model_validate`; `none` is `ValidationError`.
unfoldable pub validate_request : (String → String) → Fields → Option GenericRequest
unfolding only_fields fields_get digest_text
validate_request strip value = do
  require (only_fields request_fields value)
  require (is_literal (fields_get value "protocol_profile") protocol_profile)
  require (is_literal (fields_get value "protocol_version") protocol_version)
  operation_id ← identity_text strip 256 (option_or (fields_get value "operation_id") null)
  operation_type ← literal type_of_name (fields_get value "operation_type")
  execution_profile ← literal profile_of_name (fields_get value "execution_profile")
  run_id ← optional_text (identity_text strip 256) (fields_get value "run_id")
  attempt_id ← text_or "attempt-1" (identity_text strip 128) (fields_get value "attempt_id")
  request_digest ← optional_text digest_text (fields_get value "request_digest")
  spec ← as_object (fields_get value "spec")
  some (record {
    operation_id = operation_id;
    operation_type = operation_type;
    execution_profile = execution_profile;
    run_id = run_id;
    attempt_id = attempt_id;
    request_digest = request_digest;
    spec = spec;
  })

-- The two tests behind the validation.
abbrev pub aligned : String → OperationType → Option GenericRequest → Result GenericRequest
aligned outer expected none =
    raised (protocol_failure "INVALID_REQUEST" "request schema validation failed")
aligned outer expected (some request) =
    if request.operation_id == outer
    then if type_eq request.operation_type expected
      then ok request
      else raised (
          protocol_failure "OPERATION_CHANNEL_MISMATCH"
            "operation_type does not match the configured task channel")
    else raised
        (protocol_failure "IDENTITY_MISMATCH" "outer operation_id does not match payload identity")

abbrev pub unless_leaked : Option String → Result GenericRequest → Result GenericRequest
unless_leaked (some path) next =
    raised
      (protocol_failure "PLAINTEXT_CREDENTIAL" ("plaintext credential is forbidden at " ++ₛ path))
unless_leaked none next = next

-- From `value.get("protocol_profile")` on.
unfoldable pub parse_object :
    (String → String) → UrlTools → Fields → String → OperationType → Result GenericRequest
unfolding fields_get credential_path validate_request
parse_object strip urls value outer expected =
    if is_literal (fields_get value "protocol_profile") protocol_profile
    then if is_literal (fields_get value "protocol_version") protocol_version
      then unless_leaked (credential_path urls "spec" (option_or (fields_get value "spec") null))
          (aligned outer expected (validate_request strip value))
      else raised (protocol_failure "UNSUPPORTED_PROTOCOL_VERSION" "unsupported protocol version")
    else raised (protocol_failure "UNSUPPORTED_PROTOCOL_PROFILE" "unsupported protocol profile")

abbrev pub parse_value :
    (String → String) → UrlTools → Result Json → String → OperationType → Result GenericRequest
parse_value strip urls (raised json_decode_error) outer expected =
    raised (protocol_failure "INVALID_JSON" "payload is not valid JSON")
parse_value strip urls (raised e) outer expected = raised e
parse_value strip urls (ok (obj value)) outer expected =
    parse_object strip urls value outer expected
parse_value strip urls (ok v) outer expected =
    raised (protocol_failure "INVALID_REQUEST" "payload root must be an object")

-- `loads` is `json.loads`.
unfoldable pub parse_request :
    (Text → Result Json)
    → (String → String)
    → UrlTools
    → Text
    → String
    → OperationType
    → Result GenericRequest
unfolding parse_object
parse_request loads strip urls raw outer expected =
    parse_value strip urls (loads raw) outer expected
