-- ===== src/Reporter/Redaction.antt =====
-- `redact` of src/tributo_broker_redis/reporter.py, and the pattern `_SENSITIVE_KEY`.
use tributo_broker_redis.Patterns.{codes, found_word}
use tributo_broker_redis.Base.{ℕ, String, Bool, true, false, List, [], ◌∷◌, ◌==◌, if◌then◌else◌}
use tributo_broker_redis.Json.{
  Text, text, Json, null, bool, num, str, arr, obj, Items, no_items, item, Fields, no_fields, field,
  json_str,
}

-- The alternatives of the pattern, `[_-]?` written out.
abbrev sensitive_words : List (List ℕ)
sensitive_words =
    codes "password"
    ∷ codes "passwd"
    ∷ codes "secret"
    ∷ codes "token"
    ∷ codes "accesskey"
    ∷ codes "access_key"
    ∷ codes "access-key"
    ∷ codes "privatekey"
    ∷ codes "private_key"
    ∷ codes "private-key"
    ∷ []

unfoldable pub sensitive_key : String → Bool
unfolding found_word
sensitive_key key = found_word sensitive_words key

abbrev pub redacted : Json
redacted = json_str "[REDACTED]"

-- `str(item)`: a text is its own, and `repr` is Python's notation for a number or a container.
unfoldable pub str_of : (Json → Text) → Json → Text
str_of repr null = text "None"
str_of repr (bool true) = text "True"
str_of repr (bool false) = text "False"
str_of repr (str t) = t
str_of repr v = repr v

unfoldable mutual
  pub redact : (Json → Text) → Json → Json
  redact repr (obj fs) = obj (redact_fields repr fs)
  redact repr (arr xs) = arr (redact_items repr xs)
  redact repr null = null
  redact repr (bool b) = bool b
  redact repr (num n) = num n
  redact repr (str t) = str t

  pub redact_items : (Json → Text) → Items → Items
  redact_items repr no_items = no_items
  redact_items repr (item v xs) = item (redact repr v) (redact_items repr xs)

  pub redact_fields : (Json → Text) → Fields → Fields
  redact_fields repr no_fields = no_fields
  redact_fields repr (field key v fs) =
      field key
        (if key == "credential_ref"
          then str (str_of repr v)
          else if sensitive_key key
          then redacted
          else redact repr v)
        (redact_fields repr fs)
