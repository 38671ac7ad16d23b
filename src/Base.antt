-- ===== src/Base.antt =====
-- Names that the other modules share: the libraries' and the children's, passed on.
mod Tests
mod Lists
mod Dicts
mod StringSet
pub use Tests.*
pub use Lists.*
pub use Dicts.{Dict, dict_get-put, dict_get-pop, dict_laws}
unfoldable pub use Dicts.{dict_get, dict_put, dict_pop}
pub use StringSet.{set_has-add, set_has-discard, set_laws}
unfoldable pub use StringSet.{set_has, set_add, set_discard}
pub use Prim.Native.Nat.{ℕ, zero, suc, ◌+◌, ◌-◌, ◌*◌, ◌/◌, ◌%◌, ◌≤◌, ◌<◌}
pub use Prim.Native.String.{String, len, count, ◌++◌ as ◌++ₛ◌}
pub use mathlib.Core.Path.{◌≡◌, refl, sym, ap, subst, ◌∙◌}
pub use mathlib.Core.Logic.{◌≢◌, ◌↔◌, ◌⊎◌, inl, inr}
pub use mathlib.Core.Bool.{Bool, true, false, not, ◌&&◌, ◌||◌}
pub use mathlib.Core.Option.{Option, none, some}
pub use mathlib.Core.List.{List, [], ◌∷◌, ◌++◌, map}
pub use native.Mathlib.Omega.{arith}
pub use text.Mathlib.Text.{◌==◌}
pub use text.Mathlib.TextEquality.{eq_iff}
pub use text.Mathlib.TextPositions.{eq_refl}
