-- ===== src/Base/Dicts.antt =====
-- Python's `dict` with `str` keys as an association list in insertion order: assignment to a key that
-- is there keeps its place, and `pop` takes the key out.
use Prim.Native.String.{String}
use mathlib.Core.Path.{◌≡◌, refl}
use mathlib.Core.Option.{Option, none, some}
use mathlib.Core.List.{List, [], ◌∷◌}
use native.Mathlib.Omega.{arith}
use text.Mathlib.Text.{◌==◌}
use text.Mathlib.TextEquality.{eq_iff}
use tributo_broker_redis.Base.Tests.{if◌then◌else◌}

abbrev pub Dict {ℓ} : Type ℓ → Type ℓ
Dict V = List (String × V)

module _ {ℓ} {V : Type ℓ} where
  unfoldable pub dict_get : Dict V → String → Option V
  dict_get [] k = none
  dict_get ((j, v) ∷ d) k = if j == k then some v else dict_get d k

  unfoldable pub dict_put : Dict V → String → V → Dict V
  dict_put [] k v = (k, v) ∷ []
  dict_put ((j, w) ∷ d) k v = if j == k then (j, v) ∷ d else (j, w) ∷ dict_put d k v

  unfoldable pub dict_pop : Dict V → String → Dict V
  dict_pop [] k = []
  dict_pop ((j, v) ∷ d) k = let rest = dict_pop d k in if j == k then rest else (j, v) ∷ rest

  pub dict_get-put :
      (d : Dict V) (k : String) (v : V) (j : String)
      → dict_get (dict_put d k v) j ≡ (if k == j then some v else dict_get d j)
  unfolding dict_get dict_put
  dict_get-put [] k v j = refl
  dict_get-put ((i, w) ∷ d) k v j =
      ground (arith, eq_iff k j, eq_iff i k, eq_iff i j, dict_get-put d k v j)

  pub dict_get-pop :
      (d : Dict V) (k j : String)
      → dict_get (dict_pop d k) j ≡ (if k == j then none else dict_get d j)
  unfolding dict_get dict_pop
  dict_get-pop [] k j = ground arith
  dict_get-pop ((i, w) ∷ d) k j =
      ground (arith, eq_iff k j, eq_iff i k, eq_iff i j, dict_get-pop d k j)

pub ruleset dict_laws = (dict_get-put, dict_get-pop)
