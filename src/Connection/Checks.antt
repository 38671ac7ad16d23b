-- ===== src/Connection/Checks.antt =====
-- What the validators of an accepted connection and transport found, one by one.
use tributo_broker_redis.Base.{
  String, ◌≡◌, refl, Bool, true, false, not, ◌&&◌, none, some, List, [], is_some, is_empty, arith,
  ◌≢◌,
}
use tributo_broker_redis.Connection.{
  TextTools, standalone, sentinel, RedisConnectionConfig, RedisTransportConfig, accepts,
  connection_accepted, transport_accepted, driver_nodes_accepted, mode_specific_connection,
  mode_specific_driver_connection, validate_redis_url, validate_sentinel_nodes,
  sentinel_master_accepted, reference_accepted, sentinel_nodes_loop, all_distinct, in_bounds,
}

-- What the validators of a connection found, one by one.
pub record ConnectionChecks (tools : TextTools) (c : RedisConnectionConfig) : Type 0 where
  pub url : accepts (validate_redis_url tools c.url) ≡ true
  pub nodes : accepts (validate_sentinel_nodes tools c.sentinel_nodes) ≡ true
  pub master : sentinel_master_accepted tools c.sentinel_master ≡ true
  pub password : reference_accepted c.password_ref ≡ true
  pub sentinel_password : reference_accepted c.sentinel_password_ref ≡ true
  pub specific : mode_specific_connection c ≡ true

pub record TransportChecks (tools : TextTools) (t : RedisTransportConfig) : Type 0 where
  pub connection : ConnectionChecks tools t.connection
  pub url : accepts (validate_redis_url tools t.driver_url) ≡ true
  pub nodes : driver_nodes_accepted tools t.driver_sentinel_nodes ≡ true

six :
    (a b c d e f : Bool)
    → (a && b && c && d && e && f) ≡ true
    → (a ≡ true) × (b ≡ true) × (c ≡ true) × (d ≡ true) × (e ≡ true) × (f ≡ true)
six a b c d e f h = ground arith

five : (a b c d e : Bool) → (a && b && c && d && e) ≡ true → (a ≡ true) × (b ≡ true) × (c ≡ true)
five a b c d e h = ground arith

pub sentinel_parts : (a b c : Bool) → (not a && not b && c) ≡ true → (b ≡ false) × (c ≡ true)
sentinel_parts a b c h = ground arith

pub not_true : false ≢ true
not_true e = cc

abbrev pub standalone_with : RedisTransportConfig → String → RedisConnectionConfig
standalone_with t url = record {
  mode = standalone;
  url = some url;
  sentinel_nodes = [];
  sentinel_master = none;
  database = 0;
  password_ref = t.connection.password_ref;
  sentinel_password_ref = none;
}

abbrev pub sentinel_with : RedisTransportConfig → List String → RedisConnectionConfig
sentinel_with t nodes = record {
  mode = sentinel;
  url = none;
  sentinel_nodes = nodes;
  sentinel_master = t.connection.sentinel_master;
  database = t.connection.database;
  password_ref = t.connection.password_ref;
  sentinel_password_ref = t.connection.sentinel_password_ref;
}

module _ (tools : TextTools) where
  pub connection_checks :
      (c : RedisConnectionConfig) → connection_accepted tools c ≡ true → ConnectionChecks tools c
  unfolding connection_accepted
  connection_checks c h =
      let all =
        six (accepts (validate_redis_url tools c.url))
          (accepts (validate_sentinel_nodes tools c.sentinel_nodes))
          (sentinel_master_accepted tools c.sentinel_master) (reference_accepted c.password_ref)
          (reference_accepted c.sentinel_password_ref) (mode_specific_connection c) h in
      record {
        url = all.0;
        nodes = all.1;
        master = all.2;
        password = all.3;
        sentinel_password = all.4;
        specific = all.5;
      }

  pub transport_checks :
      (t : RedisTransportConfig) → transport_accepted tools t ≡ true → TransportChecks tools t
  unfolding transport_accepted
  transport_checks t h =
      let all =
        five (connection_accepted tools t.connection)
          (accepts (validate_redis_url tools t.driver_url))
          (driver_nodes_accepted tools t.driver_sentinel_nodes) (mode_specific_driver_connection t)
          (in_bounds t) h in
      record { connection = connection_checks t.connection all.0; url = all.1; nodes = all.2 }

  accepted_of :
      (c : RedisConnectionConfig) → ConnectionChecks tools c → connection_accepted tools c ≡ true
  unfolding connection_accepted
  accepted_of c checks = rw (
    checks.url, checks.nodes, checks.master, checks.password, checks.sentinel_password,
    checks.specific,
  )

  pub standalone_checks :
      (t : RedisTransportConfig) (url : String)
      → TransportChecks tools t
      → accepts (validate_redis_url tools (some url)) ≡ true
      → connection_accepted tools (standalone_with t url) ≡ true
  unfolding sentinel_master_accepted reference_accepted mode_specific_connection
      validate_sentinel_nodes sentinel_nodes_loop all_distinct
  standalone_checks t url checks accepted = accepted_of (standalone_with t url) (record {
    url = accepted;
    nodes = refl;
    master = refl;
    password = checks.connection.password;
    sentinel_password = refl;
    specific = refl;
  })

  pub sentinel_checks :
      (t : RedisTransportConfig) (nodes : List String)
      → TransportChecks tools t
      → accepts (validate_sentinel_nodes tools nodes) ≡ true
      → is_empty nodes ≡ false
      → is_some t.connection.sentinel_master ≡ true
      → connection_accepted tools (sentinel_with t nodes) ≡ true
  unfolding validate_redis_url mode_specific_connection
  sentinel_checks t nodes checks accepted filled named =
      accepted_of (sentinel_with t nodes) (record {
        url = refl;
        nodes = accepted;
        master = checks.connection.master;
        password = checks.connection.password;
        sentinel_password = checks.connection.sentinel_password;
        specific = rw (filled, named);
      })
