-- ===== src/Protocol/Answers.antt =====
-- How `parse_request` of src/tributo_broker_redis/protocol.py fails.
use tributo_broker_redis.Base.{String, Bool, true, false, Option, none, some, ◌==◌, if◌then◌else◌}
use tributo_broker_redis.Json.{Text, Json, null, bool, num, str, arr, obj, Fields, fields_get}
use tributo_broker_redis.Exec.{Result, ok, raised, Exception, protocol_failure, json_decode_error}
use tributo_broker_redis.Config.{OperationType, type_eq}
use tributo_broker_redis.Protocol.{GenericRequest, protocol_profile, protocol_version}
use tributo_broker_redis.Protocol.Credentials.{UrlTools}
use tributo_broker_redis.Protocol.Parse.{
  parse_request, parse_value, parse_object, unless_leaked, aligned, is_literal,
}

-- A call that returns, or raises an exception of one class, which has a code and a message.
pub data Answers {A : Type 0} (refusal : String → String → Exception) : Result A → Type 0 where
  answered : (a : A) → Answers refusal (ok a)
  refused : (code message : String) → Answers refusal (raised (refusal code message))

pub Answers-if :
    {A : Type 0} {refusal : String → String → Exception} (b : Bool) (next : Result A)
    (e : Exception)
    → Answers {A = A} refusal (raised e)
    → Answers refusal next
    → Answers refusal (if b then next else raised e)
Answers-if true next e fault answers = answers
Answers-if false next e fault answers = fault

Answers-unless_leaked :
    (leak : Option String) (next : Result GenericRequest)
    → Answers protocol_failure next
    → Answers protocol_failure (unless_leaked leak next)
Answers-unless_leaked none next answers = answers
Answers-unless_leaked (some path) next answers = refused _ _

Answers-aligned :
    (outer : String) (expected : OperationType) (m : Option GenericRequest)
    → Answers protocol_failure (aligned outer expected m)
Answers-aligned outer expected none = refused _ _
Answers-aligned outer expected (some request) =
    Answers-if (request.operation_id == outer) _ _ (refused _ _)
      (Answers-if (type_eq request.operation_type expected) _ _ (refused _ _) (answered request))

Answers-object :
    (strip : String → String) (urls : UrlTools) (value : Fields) (outer : String)
    (expected : OperationType)
    → Answers protocol_failure (parse_object strip urls value outer expected)
unfolding parse_object
Answers-object strip urls value outer expected =
    Answers-if (is_literal (fields_get value "protocol_profile") protocol_profile) _ _ (refused _ _)
      (Answers-if (is_literal (fields_get value "protocol_version") protocol_version) _ _
        (refused _ _) (Answers-unless_leaked _ _ (Answers-aligned outer expected _)))

-- A text that the JSON decoder reads, or refuses as it documents.
pub data IsDecoded : Result Json → Type 0 where
  decoded : (v : Json) → IsDecoded (ok v)
  undecodable : IsDecoded (raised json_decode_error)

Answers-value :
    (strip : String → String) (urls : UrlTools) (read : Result Json) (outer : String)
    (expected : OperationType)
    → IsDecoded read
    → Answers protocol_failure (parse_value strip urls read outer expected)
Answers-value strip urls _ outer expected undecodable = refused _ _
Answers-value strip urls _ outer expected (decoded (obj value)) =
    Answers-object strip urls value outer expected
Answers-value strip urls _ outer expected (decoded null) = refused _ _
Answers-value strip urls _ outer expected (decoded (bool b)) = refused _ _
Answers-value strip urls _ outer expected (decoded (num n)) = refused _ _
Answers-value strip urls _ outer expected (decoded (str t)) = refused _ _
Answers-value strip urls _ outer expected (decoded (arr xs)) = refused _ _

pub parse_request-Answers :
    (loads : Text → Result Json) (strip : String → String) (urls : UrlTools) (raw : Text)
    (outer : String) (expected : OperationType)
    → IsDecoded (loads raw)
    → Answers protocol_failure (parse_request loads strip urls raw outer expected)
unfolding parse_request
parse_request-Answers loads strip urls raw outer expected is_decoded =
    Answers-value strip urls (loads raw) outer expected is_decoded
