-- ===== src/Base/StringSet.antt =====
-- Python's `set[str]` as a list; the program never iterates over one.
use Prim.Native.String.{String}
use mathlib.Core.Path.{◌≡◌}
use mathlib.Core.Bool.{Bool, true, false}
use mathlib.Core.List.{List, [], ◌∷◌}
use native.Mathlib.Omega.{arith}
use text.Mathlib.Text.{◌==◌}
use text.Mathlib.TextEquality.{eq_iff}
use tributo_broker_redis.Base.Tests.{if◌then◌else◌}

unfoldable pub set_has : List String → String → Bool
set_has [] k = false
set_has (j ∷ s) k = if j == k then true else set_has s k

unfoldable pub set_add : List String → String → List String
unfolding set_has
set_add s k = if set_has s k then s else k ∷ s

unfoldable pub set_discard : List String → String → List String
set_discard [] k = []
set_discard (j ∷ s) k = let rest = set_discard s k in if j == k then rest else j ∷ rest

pub set_has-add :
    (s : List String) (k j : String)
    → set_has (set_add s k) j ≡ (if k == j then true else set_has s j)
unfolding set_has set_add
set_has-add s k j = ground (arith, eq_iff k j)

pub set_has-discard :
    (s : List String) (k j : String)
    → set_has (set_discard s k) j ≡ (if k == j then false else set_has s j)
unfolding set_has set_discard
set_has-discard [] k j = ground arith
set_has-discard (i ∷ s) k j =
    ground (arith, eq_iff i k, eq_iff i j, eq_iff k j, set_has-discard s k j)

pub ruleset set_laws = (set_has-add, set_has-discard)
