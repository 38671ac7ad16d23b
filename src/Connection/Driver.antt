-- ===== src/Connection/Driver.antt =====
-- The connection that is handed to the Ray driver.
use tributo_broker_redis.Base.{
  String, ◌≡◌, refl, true, Option, none, some, List, [], ◌∷◌, is_some, is_empty, truthy, Bool-cases,
  inl, inr, ◌∙◌, sym, Bool, not, ◌&&◌, num_eq, arith,
}
use tributo_broker_redis.Exec.{ok}
use tributo_broker_redis.Connection.{
  TextTools, Mode, standalone, sentinel, RedisConnectionConfig, RedisTransportConfig, accepts,
  connection_accepted, new_connection, transport_accepted, ray_driver_connection, ray_driver_url,
  driver_nodes, driver_nodes_accepted, mode_specific_connection, validate_redis_url,
}
use tributo_broker_redis.Connection.Checks.{
  TransportChecks, standalone_with, sentinel_with, sentinel_parts, not_true, transport_checks,
  standalone_checks, sentinel_checks,
}

-- The connection would be accepted from a user too, and keeps the mode and the names of the secrets.
pub record IsDerived (tools : TextTools) (t : RedisTransportConfig) (c : RedisConnectionConfig)
    : Type 0 where
  pub returned : ray_driver_connection tools t ≡ ok c
  pub accepted : connection_accepted tools c ≡ true
  pub same_mode : c.mode ≡ t.connection.mode
  pub same_password : c.password_ref ≡ t.connection.password_ref
  pub same_sentinel_password : c.sentinel_password_ref ≡ t.connection.sentinel_password_ref

module _ (tools : TextTools) where
  -- A connection that is accepted is what the constructor returns.
  new_connection-accepted :
      (c : RedisConnectionConfig)
      → connection_accepted tools c ≡ true
      → new_connection tools c ≡ ok c
  unfolding new_connection
  new_connection-accepted c h = rw h

  abbrev with_fields :
      RedisTransportConfig
      → Mode
      → (url driver_url : Option String) → Option (List String)
      → RedisTransportConfig
  with_fields t mode url driver_url nodes = record t {
    connection = record t.connection { mode = mode; url = url };
    driver_url = driver_url;
    driver_sentinel_nodes = nodes;
  }

  abbrev Derives : RedisTransportConfig → Type 0
  Derives t = (c : RedisConnectionConfig) × IsDerived tools t c

  no_sentinel_password :
      (a b c e : Bool) (r : Option String) → (a && b && c && not (is_some r) && e) ≡ true → none ≡ r
  no_sentinel_password a b c e none h = refl
  no_sentinel_password a b c e (some s) h = ground arith

  standalone_driver :
      (t : RedisTransportConfig) (used : String)
      → TransportChecks tools t
      → t.connection.mode ≡ standalone
      → ray_driver_connection tools t ≡ new_connection tools (standalone_with t used)
      → accepts (validate_redis_url tools (some used)) ≡ true
      → none ≡ t.connection.sentinel_password_ref
      → Derives t
  standalone_driver t used checks mode made accepted none_given =
      let good = standalone_checks tools t used checks accepted in
      (
        standalone_with t used,
        record {
          returned = made ∙ new_connection-accepted (standalone_with t used) good;
          accepted = good;
          same_mode = sym mode;
          same_password = refl;
          same_sentinel_password = none_given;
        },
      )

  sentinel_driver :
      (t : RedisTransportConfig) (nodes : List String)
      → TransportChecks tools t
      → t.connection.mode ≡ sentinel
      → ray_driver_connection tools t ≡ new_connection tools (sentinel_with t nodes)
      → connection_accepted tools (sentinel_with t nodes) ≡ true
      → Derives t
  sentinel_driver t nodes checks mode made good = (
    sentinel_with t nodes,
    record {
      returned = made ∙ new_connection-accepted (sentinel_with t nodes) good;
      accepted = good;
      same_mode = sym mode;
      same_password = refl;
      same_sentinel_password = refl;
    },
  )

  unsent :
      (t : RedisTransportConfig) (url : String) {driver_url : Option String}
      {nodes : Option (List String)}
      → TransportChecks tools (with_fields t standalone (some url) driver_url nodes)
      → none ≡ t.connection.sentinel_password_ref
  unfolding mode_specific_connection
  unsent t url checks =
      no_sentinel_password true (is_empty t.connection.sentinel_nodes)
        (not (is_some t.connection.sentinel_master)) (num_eq t.connection.database 0)
        t.connection.sentinel_password_ref checks.connection.specific

  by_fields :
      (t : RedisTransportConfig) (mode : Mode) (url driver_url : Option String)
      (nodes : Option (List String))
      → TransportChecks tools (with_fields t mode url driver_url nodes)
      → Derives (with_fields t mode url driver_url nodes)
  unfolding ray_driver_connection ray_driver_url driver_nodes driver_nodes_accepted
      mode_specific_connection
  by_fields t standalone none driver_url nodes checks = absurd (not_true checks.connection.specific)
  by_fields t standalone (some url) none nodes checks =
      standalone_driver _ url checks refl refl checks.connection.url (unsent t url checks)
  by_fields t standalone (some url) (some driver_url) nodes checks =
      elim (Bool-cases (truthy driver_url)) [
        | inl given ↦
            standalone_driver _ driver_url checks refl (rw given refl) checks.url
              (unsent t url checks)
        | inr empty ↦
            standalone_driver _ url checks refl (rw empty refl) checks.connection.url
              (unsent t url checks)
      ]
  by_fields t sentinel url driver_url none checks =
      let own = t.connection.sentinel_nodes in
      let specific =
        sentinel_parts (is_some url) (is_empty own) (is_some t.connection.sentinel_master)
          checks.connection.specific in
      sentinel_driver _ own checks refl refl
        (sentinel_checks tools _ own checks checks.connection.nodes specific.0 specific.1)
  by_fields t sentinel url driver_url (some []) checks = absurd (not_true checks.nodes)
  by_fields t sentinel url driver_url (some (node ∷ nodes)) checks =
      let own = t.connection.sentinel_nodes in
      let specific =
        sentinel_parts (is_some url) (is_empty own) (is_some t.connection.sentinel_master)
          checks.connection.specific in
      sentinel_driver _ (node ∷ nodes) checks refl refl
        (sentinel_checks tools _ (node ∷ nodes) checks checks.nodes refl specific.1)

-- An accepted transport always has a connection for the Ray driver: deriving it does not raise, and what
-- it gives would be accepted from a user too and keeps the mode and the references to the secrets.
pub ray_driver_connection-accepted :
    (tools : TextTools) (t : RedisTransportConfig)
    → transport_accepted tools t ≡ true
    → (c : RedisConnectionConfig) × IsDerived tools t c
ray_driver_connection-accepted tools t h =
    by_fields tools t t.connection.mode t.connection.url t.driver_url t.driver_sentinel_nodes
      (transport_checks tools t h)
