-- ===== src/Client/Opens.antt =====
-- Which connections `create_redis_client` of src/tributo_broker_redis/redis_client.py opens.
use tributo_broker_redis.Base.{
  ℕ, String, ◌≡◌, ◌≢◌, refl, Bool, true, false, not, ◌&&◌, ◌||◌, Option, none, some, List, [], ◌∷◌,
  truthy, is_some, is_empty, if◌then◌else◌, ◌++ₛ◌, leb, ◌==◌,
}
use tributo_broker_redis.Exec.{Result, ok, raised, value_error}
use tributo_broker_redis.Connection.{
  TextTools, SplitResult, Mode, standalone, sentinel, RedisConnectionConfig, connection_accepted,
  accepts, mode_specific_connection, validate_sentinel_nodes, sentinel_nodes_loop,
  sentinel_node_check, sentinel_parts_accepted, truthy_option, all_distinct,
}
use tributo_broker_redis.Connection.Checks.{ConnectionChecks, connection_checks, not_true}
use tributo_broker_redis.Client.{
  Environment, from_url, master_for, resolve_secret, create_redis_client, sentinel_endpoint,
  sentinel_endpoints, endpoint_of, ◌>>=◌,
}

-- The reference resolves, to `secret`.
abbrev pub Resolves : Environment → Option String → Option String → Type 0
Resolves env reference secret = resolve_secret env reference ≡ ok secret

-- The client that is made for a connection.
pub data Opens (tools : TextTools) (env : Environment) (c : RedisConnectionConfig)
    (password sentinel_password : Option String) : Type 0 where
  to_server :
      (url : String)
      → c.mode ≡ standalone
      → c.url ≡ some url
      → create_redis_client tools env c ≡ ok (from_url url password)
      → Opens tools env c password sentinel_password
  to_sentinels :
      (endpoints : List (String × ℕ))
      → (master : String) → c.mode ≡ sentinel
      → c.sentinel_master ≡ some master
      → sentinel_endpoints tools c.sentinel_nodes ≡ ok endpoints
      → create_redis_client tools env c
        ≡ ok (master_for endpoints sentinel_password c.database password master)
      → Opens tools env c password sentinel_password

abbrev Gives : {A : Type 0} → Result A → Type 0
Gives {A} r = (a : A) × (r ≡ ok a)

never : (b : Bool) → (b && false) ≢ true
never true e = cc
never false e = cc

never_then : (b x y z : Bool) → (b && false && x && y && z) ≢ true
never_then true x y z e = cc
never_then false x y z e = cc

never3 : (a b : Bool) → (a && b && false) ≢ true
never3 true b e = never b e
never3 false b e = cc

parts-endpoint :
    (h : Option String) (p : Result (Option ℕ)) (f : ℕ → Bool) (x y z : Bool)
    → (truthy_option h
        && (elim p [ raised e ↦ false | ok none ↦ false | ok (some port) ↦ f port ])
        && x
        && y
        && z)
      ≡ true
    → Gives (endpoint_of h p)
parts-endpoint none p f x y z e = absurd (not_true e)
parts-endpoint (some h) (raised _) f x y z e = absurd (never_then (truthy h) x y z e)
parts-endpoint (some h) (ok none) f x y z e = absurd (never_then (truthy h) x y z e)
parts-endpoint (some h) (ok (some port)) f x y z e = ((h, port), refl)

split-endpoint :
    (r : Result SplitResult)
    → accepts {A = Unit {0}} (elim r [
      | raised e ↦ raised e
      | ok parsed ↦ if sentinel_parts_accepted parsed then ok tt else raised value_error
    ])
      ≡ true
    → Gives (r >>= (λ parsed. endpoint_of parsed.hostname parsed.port))
split-endpoint (raised e) h = absurd (not_true h)
split-endpoint (ok parsed) h =
    unfold sentinel_parts_accepted in
    parts-endpoint parsed.hostname parsed.port (λ port. leb 1 port && leb port 65535)
      (not (is_some parsed.username || is_some parsed.password))
      (parsed.path == "" || parsed.path == "/")
      (not (truthy parsed.query || truthy parsed.fragment))
      (test (sentinel_parts_accepted parsed) h)
  where
    test :
        (b : Bool)
        → accepts {A = Unit {0}} (if b then ok tt else raised value_error) ≡ true
        → b ≡ true
    test true e = refl
    test false e = e

module _ (tools : TextTools) where
  node-endpoint :
      (node : String)
      → accepts (sentinel_node_check tools node) ≡ true
      → Gives (sentinel_endpoint tools node)
  unfolding sentinel_node_check sentinel_endpoint
  node-endpoint node h =
      split-endpoint (tools.urlsplit ("redis://" ++ₛ node))
        (second ((node == "" || not (node == tools.strip node)) || tools.has_space node) _ h)
    where
      second :
          (b : Bool) (r : Result (Unit {0}))
          → accepts {A = Unit {0}} (if b then raised value_error else r) ≡ true
          → accepts r ≡ true
      second true r e = absurd (not_true e)
      second false r e = e

  loop-parts :
      (r : Result (Unit {0})) (rest : Result (Unit {0}))
      → accepts {A = Unit {0}} (elim r [ raised e ↦ raised e | ok _ ↦ rest ]) ≡ true
      → (accepts r ≡ true) × (accepts rest ≡ true)
  loop-parts (raised e) rest h = absurd (not_true h)
  loop-parts (ok a) rest h = (refl, h)

  nodes-endpoints :
      (nodes : List String)
      → accepts (sentinel_nodes_loop tools nodes) ≡ true
      → Gives (sentinel_endpoints tools nodes)
  unfolding sentinel_nodes_loop sentinel_endpoints
  nodes-endpoints [] h = ([], refl)
  nodes-endpoints (node ∷ nodes) h =
      let (first, rest) =
        loop-parts (sentinel_node_check tools node) (sentinel_nodes_loop tools nodes) h in
      let (endpoint, e) = node-endpoint node first in
      let (endpoints, es) = nodes-endpoints nodes rest in (endpoint ∷ endpoints, rw (e, es) refl)

  valid-endpoints :
      (nodes : List String)
      → accepts (validate_sentinel_nodes tools nodes) ≡ true
      → Gives (sentinel_endpoints tools nodes)
  unfolding validate_sentinel_nodes
  valid-endpoints nodes h =
      nodes-endpoints nodes (looped (all_distinct nodes) (sentinel_nodes_loop tools nodes) h)
    where
      looped :
          (b : Bool) (r : Result (Unit {0}))
          → accepts {A = List String}
              (if b then elim r [ raised e ↦ raised e | ok _ ↦ ok nodes ] else raised value_error)
            ≡ true
          → accepts r ≡ true
      looped true (ok a) h = refl
      looped true (raised e) h = h
      looped false r h = absurd (not_true h)

  by_mode :
      (c : RedisConnectionConfig) (env : Environment) (mode : Mode) (url master : Option String)
      (password sentinel_password : Option String)
      → ConnectionChecks tools (record c { mode = mode; url = url; sentinel_master = master })
      → Resolves env c.password_ref password
      → Resolves env c.sentinel_password_ref sentinel_password
      → Opens tools env
          (record c { mode = mode; url = url; sentinel_master = master })
          password
          sentinel_password
  unfolding create_redis_client mode_specific_connection
  by_mode c env standalone (some url) master password sentinel_password checks found also =
      to_server url refl refl (rw found refl)
  by_mode c env standalone none master password sentinel_password checks found also =
      absurd (not_true checks.specific)
  by_mode c env sentinel url (some master) password sentinel_password checks found also =
      let (endpoints, e) = valid-endpoints c.sentinel_nodes checks.nodes in
      to_sentinels endpoints master refl refl e (rw (found, also, e) refl)
  by_mode c env sentinel url none password sentinel_password checks found also =
      absurd (never3 (not (is_some url)) (not (is_empty c.sentinel_nodes)) checks.specific)

-- An accepted connection whose secrets resolve is opened: `create_redis_client` does not raise, it connects
-- to the URL or to the endpoints of the Sentinel nodes with the master's name and database, and it hands
-- over the secrets that the references resolve to.
pub create_redis_client-Opens :
    (tools : TextTools) (env : Environment) (c : RedisConnectionConfig)
    (password sentinel_password : Option String)
    → connection_accepted tools c ≡ true
    → Resolves env c.password_ref password
    → Resolves env c.sentinel_password_ref sentinel_password
    → Opens tools env c password sentinel_password
create_redis_client-Opens tools env c password sentinel_password accepted =
    by_mode tools c env c.mode c.url c.sentinel_master password sentinel_password
      (connection_checks tools c accepted)
