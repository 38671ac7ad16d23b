-- ===== src/Client.antt =====
-- src/tributo_broker_redis/redis_client.py: how a connection record becomes a redis-py client, with the
-- secrets read from the environment or from a mounted file.
pub mod Secrets
pub mod Opens
pub mod Drives
use tributo_broker_redis.Base.{
  ℕ, zero, suc, String, count, Bool, Option, none, some, List, [], ◌∷◌, Dict, dict_get, truthy,
  if◌then◌else◌, ◌++ₛ◌,
}
use tributo_broker_redis.Exec.{Exception, Result, ok, raised, value_error, other}
use tributo_broker_redis.Patterns.{codes, starts_with}
use tributo_broker_redis.Connection.{
  TextTools, SplitResult, Mode, standalone, sentinel, RedisConnectionConfig, RedisTransportConfig,
  new_connection,
}

-- The rest of a computation that may raise.
infixl 10 ◌>>=◌
abbrev pub ◌>>=◌ : {A B : Type 0} → Result A → (A → Result B) → Result B
ok a >>= f = f a
raised e >>= f = raised e

-- `path.read_text(encoding="utf-8")`
pub data FileText : Type 0 where
  contents : String → FileText
  os_error : FileText
  not_utf8 : FileText

-- `os.environ`, the files, and `text.rstrip("\r\n")`.
pub record Environment : Type 0 where
  pub environ : Dict String
  pub read_text : String → FileText
  pub rstrip : String → String

abbrev pub redis_credential_unavailable : Exception
redis_credential_unavailable = other "RedisCredentialUnavailable"

abbrev pub drop : ℕ → String → String
drop zero s = s
drop (suc n) String.[] = String.[]
drop (suc n) (String.◌∷◌ c s) = drop n s

abbrev pub nonempty : String → Result (Option String)
nonempty value = if truthy value then ok (some value) else raised redis_credential_unavailable

abbrev pub variable_secret : Option String → Result (Option String)
variable_secret none = raised redis_credential_unavailable
variable_secret (some value) = nonempty value

abbrev pub file_secret : (String → String) → FileText → Result (Option String)
file_secret rstrip os_error = raised redis_credential_unavailable
file_secret rstrip not_utf8 = raised (other "UnicodeDecodeError")
file_secret rstrip (contents value) = nonempty (rstrip value)

-- `removeprefix` behind a test with `startswith` drops as many characters as the prefix has.
unfoldable pub resolve_secret : Environment → Option String → Result (Option String)
unfolding starts_with dict_get
resolve_secret env none = ok none
resolve_secret env (some reference) =
    if starts_with (codes "env:") (codes reference)
    then variable_secret (dict_get env.environ (drop 4 reference))
    else if starts_with (codes "mount:") (codes reference)
    then file_secret env.rstrip (env.read_text (drop 6 reference))
    else raised redis_credential_unavailable

abbrev pub endpoint_of : Option String → Result (Option ℕ) → Result (String × ℕ)
endpoint_of none port = raised value_error
endpoint_of (some hostname) (raised e) = raised e
endpoint_of (some hostname) (ok none) = raised value_error
endpoint_of (some hostname) (ok (some port)) = ok (hostname, port)

unfoldable pub sentinel_endpoint : TextTools → String → Result (String × ℕ)
sentinel_endpoint tools node = do
  parsed ← tools.urlsplit ("redis://" ++ₛ node)
  endpoint_of parsed.hostname parsed.port

unfoldable pub sentinel_endpoints : TextTools → List String → Result (List (String × ℕ))
unfolding sentinel_endpoint
sentinel_endpoints tools [] = ok []
sentinel_endpoints tools (node ∷ nodes) =
    let rest = sentinel_endpoints tools nodes in
    do endpoint ← sentinel_endpoint tools node; endpoints ← rest; ok (endpoint ∷ endpoints)

-- The calls of redis-py that make the client: `Redis.from_url`, or `Sentinel` and `master_for`.
pub data Client : Type 0 where
  from_url : (url : String) → (password : Option String) → Client
  master_for :
      (endpoints : List (String × ℕ))
      → (sentinel_password : Option String) → (database : ℕ) → (password : Option String)
      → (sentinel_master : String) → Client

abbrev pub standalone_client : Option String → Option String → Result Client
standalone_client none password = raised value_error
standalone_client (some url) password = ok (from_url url password)

abbrev pub sentinel_client :
    List (String × ℕ)
    → Option String
    → ℕ
    → Option String
    → (sentinel_master : Option String) → Result Client
sentinel_client endpoints sentinel_password database password none = raised value_error
sentinel_client endpoints sentinel_password database password (some sentinel_master) =
    ok (master_for endpoints sentinel_password database password sentinel_master)

abbrev pub client_of :
    TextTools → Environment → Mode → RedisConnectionConfig → Option String → Result Client
unfolding resolve_secret sentinel_endpoints
client_of tools env standalone connection password = standalone_client connection.url password
client_of tools env sentinel connection password = do
  sentinel_password ← resolve_secret env connection.sentinel_password_ref
  endpoints ← sentinel_endpoints tools connection.sentinel_nodes
  sentinel_client endpoints sentinel_password connection.database password
      connection.sentinel_master

-- `create_redis_client` of a `RedisConnectionConfig`.
unfoldable pub create_redis_client : TextTools → Environment → RedisConnectionConfig → Result Client
unfolding resolve_secret sentinel_endpoints
create_redis_client tools env connection = do
  password ← resolve_secret env connection.password_ref
  client_of tools env connection.mode connection password

-- The argument of `create_redis_client`: the broker's configuration by its transport, a connection, or
-- the URL of a standalone server.
pub data ClientConfig : Type 0 where
  broker : RedisTransportConfig → ClientConfig
  descriptor : RedisConnectionConfig → ClientConfig
  legacy_url : String → ClientConfig

unfoldable pub connection_of : TextTools → ClientConfig → Result RedisConnectionConfig
unfolding new_connection
connection_of tools (broker transport) = ok transport.connection
connection_of tools (descriptor connection) = ok connection
connection_of tools (legacy_url url) = new_connection tools (record {
  mode = standalone;
  url = some url;
  sentinel_nodes = [];
  sentinel_master = none;
  database = 0;
  password_ref = none;
  sentinel_password_ref = none;
})

unfoldable pub create_client : TextTools → Environment → ClientConfig → Result Client
unfolding connection_of create_redis_client
create_client tools env config = do
  connection ← connection_of tools config
  create_redis_client tools env connection
