-- ===== src/Protocol/Credentials.antt =====
-- The search for plaintext credentials of src/tributo_broker_redis/protocol.py. Keys of objects and of
-- query items are taken to have no lone surrogates.
use tributo_broker_redis.Base.{
  ℕ, suc, String, ◌++ₛ◌, Bool, true, false, not, ◌&&◌, ◌||◌, Option, none, some, List, [], ◌∷◌,
  is_some, truthy, ◌==◌, if◌then◌else◌,
}
use tributo_broker_redis.Json.{
  Text, text, escaped, Json, null, bool, num, str, arr, obj, Items, no_items, item, Fields,
  no_fields, field,
}
use tributo_broker_redis.Patterns.{codes, found, found_word, decimal}

-- What `urlsplit` and `parse_qsl` of Python's urllib find; `none` where `urlsplit` raises `ValueError`,
-- the only exception it has.
pub record UrlParts : Type 0 where
  pub username : Option String
  pub password : Option String
  pub query_items : List (String × String)

abbrev pub UrlTools : Type 0
UrlTools = Text → Option UrlParts

-- The alternatives of the pattern `_SENSITIVE_KEY`, `[_-]?` and the inner group written out.
abbrev sensitive_words : List (List ℕ)
sensitive_words =
    codes "password"
    ∷ codes "passwd"
    ∷ codes "secret"
    ∷ codes "token"
    ∷ codes "accesskey"
    ∷ codes "access_key"
    ∷ codes "access-key"
    ∷ codes "privatekey"
    ∷ codes "private_key"
    ∷ codes "private-key"
    ∷ codes "credential"
    ∷ codes "authorization"
    ∷ codes "authheader"
    ∷ codes "auth_header"
    ∷ codes "auth-header"
    ∷ codes "authtoken"
    ∷ codes "auth_token"
    ∷ codes "auth-token"
    ∷ codes "authvalue"
    ∷ codes "auth_value"
    ∷ codes "auth-value"
    ∷ codes "signature"
    ∷ []

unfoldable pub request_key_is_sensitive : String → Bool
unfolding found_word
request_key_is_sensitive key = found_word sensitive_words key

-- `item is not None and item != "" and item is not False`
abbrev pub is_given : Json → Bool
is_given null = false
is_given (bool b) = b
is_given (str (text s)) = truthy s
is_given _ = true

abbrev codes_of : Text → List ℕ
codes_of (text s) = codes s
codes_of (escaped cs) = cs

-- `"://" in value`
unfoldable pub looks_like_url : Text → Bool
unfolding found
looks_like_url t = found (codes "://") (codes_of t)

abbrev pub first_path : Option String → Option String → Option String
first_path (some path) other = some path
first_path none other = other

abbrev pub child_of : String → String → String
child_of path key = path ++ₛ ("." ++ₛ key)

abbrev pub element_of : String → ℕ → String
element_of path index = path ++ₛ ("[" ++ₛ (decimal index ++ₛ "]"))

unfoldable pub query_path : String → List (String × String) → Option String
query_path path [] = none
query_path path ((key, value) ∷ items) =
    let rest = query_path path items in
    if request_key_is_sensitive key && truthy value
    then some (path ++ₛ (".query." ++ₛ key))
    else rest

abbrev pub parts_path : String → Option UrlParts → Option String
parts_path path none = none
parts_path path (some parts) =
    if is_some parts.username || is_some parts.password
    then some path
    else query_path path parts.query_items

-- The branch for a text.
unfoldable pub url_path : UrlTools → String → Text → Option String
unfolding query_path
url_path urls path t = if looks_like_url t then parts_path path (urls t) else none

-- The test of one key; `child` is its path.
unfoldable pub is_secret : String → String → Json → Bool
unfolding request_key_is_sensitive
is_secret child key value =
    not (child == "spec.credential_ref") && request_key_is_sensitive key && is_given value

unfoldable mutual
  unfolding url_path is_secret

  -- `_plaintext_credential_path`
  pub credential_path : UrlTools → String → Json → Option String
  credential_path urls path (obj fs) = fields_path urls path fs
  credential_path urls path (arr xs) = items_path urls path 0 xs
  credential_path urls path (str t) = url_path urls path t
  credential_path urls path null = none
  credential_path urls path (bool b) = none
  credential_path urls path (num n) = none

  pub items_path : UrlTools → String → ℕ → Items → Option String
  items_path urls path index no_items = none
  items_path urls path index (item v xs) =
      first_path (credential_path urls (element_of path index) v)
        (items_path urls path (suc index) xs)

  pub fields_path : UrlTools → String → Fields → Option String
  fields_path urls path no_fields = none
  fields_path urls path (field key v fs) =
      if is_secret (child_of path key) key v
      then some (child_of path key)
      else first_path (credential_path urls (child_of path key) v) (fields_path urls path fs)
