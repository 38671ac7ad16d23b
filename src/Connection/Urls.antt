-- ===== src/Connection/Urls.antt =====
-- src/tributo_broker_redis/config.py: the validators of Redis URLs and Sentinel nodes. `urlsplit` of Python's
-- urllib is a parameter: what it finds in a text.
use tributo_broker_redis.Base.{
  ℕ, String, Bool, true, false, not, ◌&&◌, ◌||◌, Option, none, some, List, [], ◌∷◌, leb, is_some,
  truthy, ◌==◌, if◌then◌else◌, ◌++ₛ◌,
}
use tributo_broker_redis.Exec.{Result, ok, raised, value_error}
use tributo_broker_redis.Json.{Json}

-- `port` raises on a text that is no port.
pub record SplitResult : Type 0 where
  pub scheme : String
  pub hostname : Option String
  pub username : Option String
  pub password : Option String
  pub port : Result (Option ℕ)
  pub path : String
  pub query : String
  pub fragment : String

-- Python's `str.strip`, `str.isspace` of some character, `str.upper`, and `urlsplit`; `int_of` is `int(value)` of a
-- value that is a number at least 0, else `none`.
pub record TextTools : Type 0 where
  pub urlsplit : String → Result SplitResult
  pub strip : String → String
  pub has_space : String → Bool
  pub upper : String → String
  pub int_of : Json → Option ℕ

abbrev pub truthy_option : Option String → Bool
truthy_option none = false
truthy_option (some s) = truthy s

abbrev port_in_range : ℕ → Bool
port_in_range port = leb 1 port && leb port 65535

-- The tests of `_validate_redis_url` on what `urlsplit` found.
unfoldable pub redis_url_accepted : SplitResult → Bool
redis_url_accepted parsed =
    (parsed.scheme == "redis" || parsed.scheme == "rediss")
    && truthy_option parsed.hostname
    && not (is_some parsed.username || is_some parsed.password)
    && not (truthy parsed.query || truthy parsed.fragment)
    && (elim parsed.port [
      | raised e ↦ false
      | ok none ↦ true
      | ok (some port) ↦ port_in_range port
    ])

unfoldable pub validate_redis_url : TextTools → Option String → Result (Option String)
validate_redis_url tools none = ok none
validate_redis_url tools (some value) = elim (tools.urlsplit value) [
  | raised e ↦ raised e
  | ok parsed ↦ if redis_url_accepted parsed then ok (some value) else raised value_error
]

-- The tests of the loop body of `_validate_sentinel_nodes` on one node.
unfoldable pub sentinel_parts_accepted : SplitResult → Bool
sentinel_parts_accepted parsed =
    truthy_option parsed.hostname
    && (elim parsed.port [
      | raised e ↦ false
      | ok none ↦ false
      | ok (some port) ↦ port_in_range port
    ])
    && not (is_some parsed.username || is_some parsed.password)
    && (parsed.path == "" || parsed.path == "/")
    && not (truthy parsed.query || truthy parsed.fragment)

unfoldable pub sentinel_node_check : TextTools → String → Result (Unit {0})
sentinel_node_check tools node =
    if (node == "" || not (node == tools.strip node)) || tools.has_space node
    then raised value_error
    else elim (tools.urlsplit ("redis://" ++ₛ node)) [
      | raised e ↦ raised e
      | ok parsed ↦ if sentinel_parts_accepted parsed then ok tt else raised value_error
    ]

unfoldable pub sentinel_nodes_loop : TextTools → List String → Result (Unit {0})
sentinel_nodes_loop tools [] = ok tt
sentinel_nodes_loop tools (node ∷ nodes) =
    let rest = sentinel_nodes_loop tools nodes in
    elim (sentinel_node_check tools node) [ raised e ↦ raised e | ok _ ↦ rest ]

abbrev has : List String → String → Bool
has [] k = false
has (j ∷ s) k = if j == k then true else has s k

-- `len(set(value)) == len(value)`
unfoldable pub all_distinct : List String → Bool
all_distinct [] = true
all_distinct (s ∷ rest) = not (has rest s) && all_distinct rest

unfoldable pub validate_sentinel_nodes : TextTools → List String → Result (List String)
validate_sentinel_nodes tools value =
    if all_distinct value
    then elim (sentinel_nodes_loop tools value) [ raised e ↦ raised e | ok _ ↦ ok value ]
    else raised value_error
