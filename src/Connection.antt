-- ===== src/Connection.antt =====
-- src/tributo_broker_redis/config.py: the Redis connection and transport records and their
-- validators.
pub mod Checks
pub mod Driver
mod Urls
pub use Urls.{SplitResult, TextTools, truthy_option}
unfoldable pub use Urls.{
  redis_url_accepted, validate_redis_url, sentinel_parts_accepted, sentinel_node_check,
  sentinel_nodes_loop, all_distinct, validate_sentinel_nodes,
}
use tributo_broker_redis.Base.{
  ℕ, String, count, Bool, true, false, not, ◌&&◌, ◌||◌, Option, none, some, List, [], ◌∷◌, leb,
  num_eq, is_some, is_empty, truthy, ◌==◌, if◌then◌else◌, ◌++ₛ◌,
}
use tributo_broker_redis.Exec.{Result, ok, raised, value_error, validation_error}
use tributo_broker_redis.Json.{Json}
use tributo_broker_redis.Patterns.{is_credential_reference}

pub data Mode : Type 0 where
  standalone sentinel : Mode

pub record RedisConnectionConfig : Type 0 where
  pub mode : Mode
  pub url : Option String
  pub sentinel_nodes : List String
  pub sentinel_master : Option String
  pub database : ℕ
  pub password_ref : Option String
  pub sentinel_password_ref : Option String

pub record RedisTransportConfig : Type 0 where
  pub connection : RedisConnectionConfig
  pub open connection use *
  pub driver_url : Option String
  pub driver_sentinel_nodes : Option (List String)
  pub block_ms : ℕ
  pub claim_idle_ms : ℕ
  pub claim_count : ℕ
  pub max_payload_bytes : ℕ
  pub max_driver_input_bytes : ℕ
  pub max_event_bytes : ℕ
  pub max_stream_length : ℕ

-- `_mode_specific_connection`
unfoldable pub mode_specific_connection : RedisConnectionConfig → Bool
mode_specific_connection c = elim c.mode [
  | standalone ↦
      is_some c.url
      && is_empty c.sentinel_nodes
      && not (is_some c.sentinel_master)
      && not (is_some c.sentinel_password_ref)
      && num_eq c.database 0
  | sentinel ↦ not (is_some c.url) && not (is_empty c.sentinel_nodes) && is_some c.sentinel_master
]

-- `min_length=1, max_length=256` and `_trimmed_sentinel_master`.
unfoldable pub sentinel_master_accepted : TextTools → Option String → Bool
sentinel_master_accepted tools none = true
sentinel_master_accepted tools (some name) =
    leb 1 (count name) && leb (count name) 256 && name == tools.strip name

-- A `RedisCredentialReference`, where there is one.
unfoldable pub reference_accepted : Option String → Bool
unfolding is_credential_reference
reference_accepted none = true
reference_accepted (some reference) = is_credential_reference reference

abbrev pub accepts {ℓ} : {A : Type ℓ} → Result A → Bool
accepts (ok a) = true
accepts (raised e) = false

-- Every validator of `RedisConnectionConfig` passes. None of them changes its value.
unfoldable pub connection_accepted : TextTools → RedisConnectionConfig → Bool
unfolding validate_redis_url validate_sentinel_nodes sentinel_master_accepted reference_accepted
    mode_specific_connection
connection_accepted tools c =
    accepts (validate_redis_url tools c.url)
    && accepts (validate_sentinel_nodes tools c.sentinel_nodes)
    && sentinel_master_accepted tools c.sentinel_master
    && reference_accepted c.password_ref
    && reference_accepted c.sentinel_password_ref
    && mode_specific_connection c

-- `RedisConnectionConfig(…)` with all fields given.
unfoldable pub new_connection : TextTools → RedisConnectionConfig → Result RedisConnectionConfig
unfolding connection_accepted
new_connection tools c = if connection_accepted tools c then ok c else raised validation_error

unfoldable pub driver_nodes_accepted : TextTools → Option (List String) → Bool
unfolding validate_sentinel_nodes
driver_nodes_accepted tools none = true
driver_nodes_accepted tools (some nodes) =
    not (is_empty nodes) && accepts (validate_sentinel_nodes tools nodes)

-- `_mode_specific_driver_connection`
unfoldable pub mode_specific_driver_connection : RedisTransportConfig → Bool
mode_specific_driver_connection t = elim t.connection.mode [
  | standalone ↦ not (is_some t.driver_sentinel_nodes)
  | sentinel ↦ not (is_some t.driver_url)
]

abbrev pub in_bounds : RedisTransportConfig → Bool
in_bounds t =
    leb 1 t.block_ms
    && leb t.block_ms 60000
    && leb 1 t.claim_count
    && leb t.claim_count 1000
    && leb 1 t.max_payload_bytes
    && leb 1 t.max_driver_input_bytes
    && leb 1 t.max_event_bytes
    && leb 1 t.max_stream_length

-- Every validator of `RedisTransportConfig` passes.
unfoldable pub transport_accepted : TextTools → RedisTransportConfig → Bool
unfolding connection_accepted validate_redis_url driver_nodes_accepted
    mode_specific_driver_connection
transport_accepted tools t =
    connection_accepted tools t.connection
    && accepts (validate_redis_url tools t.driver_url)
    && driver_nodes_accepted tools t.driver_sentinel_nodes
    && mode_specific_driver_connection t
    && in_bounds t

-- `self.driver_url or self.url` behind the check of `ray_driver_url`.
unfoldable pub ray_driver_url : RedisTransportConfig → Result String
ray_driver_url t = elim t.connection.mode [
  | sentinel ↦ raised value_error
  | standalone ↦ elim t.connection.url [
    | none ↦ raised value_error
    | some url ↦ elim t.driver_url [
      | none ↦ ok url
      | some driver_url ↦ ok (if truthy driver_url then driver_url else url)
    ]
  ]
]

-- `self.driver_sentinel_nodes or self.sentinel_nodes`
unfoldable pub driver_nodes : RedisTransportConfig → List String
driver_nodes t = elim t.driver_sentinel_nodes [
  | none ↦ t.connection.sentinel_nodes
  | some nodes ↦ if is_empty nodes then t.connection.sentinel_nodes else nodes
]

unfoldable pub ray_driver_connection :
    TextTools → RedisTransportConfig → Result RedisConnectionConfig
unfolding new_connection ray_driver_url driver_nodes
ray_driver_connection tools t = elim t.connection.mode [
  | standalone ↦ elim (ray_driver_url t) [
    | raised e ↦ raised e
    | ok url ↦ new_connection tools (record {
      mode = standalone;
      url = some url;
      sentinel_nodes = [];
      sentinel_master = none;
      database = 0;
      password_ref = t.connection.password_ref;
      sentinel_password_ref = none;
    })
  ]
  | sentinel ↦ new_connection tools (record {
    mode = sentinel;
    url = none;
    sentinel_nodes = driver_nodes t;
    sentinel_master = t.connection.sentinel_master;
    database = t.connection.database;
    password_ref = t.connection.password_ref;
    sentinel_password_ref = t.connection.sentinel_password_ref;
  })
]
