-- ===== src/Json.antt =====
-- JSON values as Python holds them after `json.loads`, and Python strings that may hold lone
-- surrogates (what `errors="surrogateescape"` makes of bytes that are not UTF-8).
use tributo_broker_redis.Base.{
  ℕ, String, Bool, false, Option, none, some, List, ◌==◌, if◌then◌else◌,
}

-- `escaped` gives the code points of a text that has a lone surrogate among them.
pub data Text : Type 0 where
  text : String → Text
  escaped : List ℕ → Text

-- Numbers are kept as their literals: the program tests none of them.
mutual
  pub data Json : Type 0 where
    null : Json
    bool : Bool → Json
    num : String → Json
    str : Text → Json
    arr : Items → Json
    obj : Fields → Json

  pub data Items : Type 0 where
    no_items : Items
    item : Json → Items → Items

  pub data Fields : Type 0 where
    no_fields : Fields
    field : String → Json → Fields → Fields

abbrev pub json_str : String → Json
json_str s = str (text s)

-- `value.get(key)` of a dict; a missing key is `none`.
unfoldable pub fields_get : Fields → String → Option Json
fields_get no_fields k = none
fields_get (field j v fs) k = if j == k then some v else fields_get fs k

-- `isinstance(value, str)`
abbrev pub as_text : Json → Option Text
as_text (str t) = some t
as_text _ = none

-- `value == "literal"` and `value != "literal"`
abbrev pub text_is : Text → String → Bool
text_is (text s) k = s == k
text_is (escaped cs) k = false

abbrev pub json_is : Json → String → Bool
json_is (str t) k = text_is t k
json_is _ k = false
