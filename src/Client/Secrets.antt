-- ===== src/Client/Secrets.antt =====
-- The secrets that `_resolve_secret` of src/tributo_broker_redis/redis_client.py gives.
use tributo_broker_redis.Base.{
  String, ◌≡◌, refl, Bool, true, false, Option, none, some, truthy, if◌then◌else◌, dict_get,
}
use tributo_broker_redis.Exec.{Exception, Result, ok, raised}
use tributo_broker_redis.Patterns.{codes, starts_with}
use tributo_broker_redis.Client.{
  Environment, FileText, contents, os_error, not_utf8, nonempty, variable_secret, file_secret,
  resolve_secret, drop,
}

-- A call that returns gives a secret that is not empty.
pub record GivesSecret (r : Result (Option String)) : Type 0 where
  pub gives :
      (found : Option String)
      → r ≡ ok found
      → (value : String) × ((found ≡ some value) × (truthy value ≡ true))

if-GivesSecret :
    (b : Bool) (value : String) (e : Exception)
    → truthy value ≡ b
    → GivesSecret (if b then ok (some value) else raised e)
if-GivesSecret true value e t = record {
  gives = λ found h. let same : found ≡ some value = cc in (value, (same, t));
}
if-GivesSecret false value e t = record { gives = λ found h. cc }

nonempty-GivesSecret : (value : String) → GivesSecret (nonempty value)
nonempty-GivesSecret value = if-GivesSecret (truthy value) value _ refl

variable-GivesSecret : (found : Option String) → GivesSecret (variable_secret found)
variable-GivesSecret none = record { gives = λ found e. cc }
variable-GivesSecret (some value) = nonempty-GivesSecret value

file-GivesSecret :
    (rstrip : String → String) (file : FileText) → GivesSecret (file_secret rstrip file)
file-GivesSecret rstrip os_error = record { gives = λ found e. cc }
file-GivesSecret rstrip not_utf8 = record { gives = λ found e. cc }
file-GivesSecret rstrip (contents value) = nonempty-GivesSecret (rstrip value)

one_of :
    (b : Bool) (r q : Result (Option String))
    → GivesSecret r
    → GivesSecret q
    → GivesSecret (if b then r else q)
one_of true r q hr hq = hr
one_of false r q hr hq = hq

given-GivesSecret :
    (env : Environment) (reference : String) → GivesSecret (resolve_secret env (some reference))
unfolding resolve_secret
given-GivesSecret env reference =
    one_of (starts_with (codes "env:") (codes reference)) _ _
      (variable-GivesSecret (dict_get env.environ (drop 4 reference)))
      (one_of (starts_with (codes "mount:") (codes reference)) _ _
        (file-GivesSecret env.rstrip (env.read_text (drop 6 reference)))
        (record { gives = λ found h. cc }))

-- A secret reference that resolves gives a secret, and it is not empty.
pub resolve_secret-given :
    (env : Environment) (reference : String) (found : Option String)
    → resolve_secret env (some reference) ≡ ok found
    → (value : String) × ((found ≡ some value) × (truthy value ≡ true))
resolve_secret-given env reference = (given-GivesSecret env reference).gives
