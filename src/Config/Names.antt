-- ===== src/Config/Names.antt =====
-- `_default_consumer_name` of src/tributo_broker_redis/config.py.
use Prim.Native.Char.{code}
use tributo_broker_redis.Base.{ℕ, String, ◌++ₛ◌, num_eq, if◌then◌else◌}
use tributo_broker_redis.Patterns.{decimal, take_text}

-- `text.replace(" ", "-")`
unfoldable pub without_spaces : String → String
without_spaces String.[] = String.[]
without_spaces (String.◌∷◌ c s) =
    let rest = without_spaces s in if num_eq (code c) b' ' then "-" ++ₛ rest else String.◌∷◌ c rest

-- Of `socket.gethostname()`, `os.getpid()` and `uuid.uuid4().hex`.
unfoldable pub default_consumer_name : (hostname : String) → (pid : ℕ) → (hex : String) → String
unfolding without_spaces decimal take_text
default_consumer_name hostname pid hex =
    "tributo-"
    ++ₛ (without_spaces hostname ++ₛ ("-" ++ₛ (decimal pid ++ₛ ("-" ++ₛ take_text 10 hex))))
