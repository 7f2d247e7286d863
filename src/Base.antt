-- ===== src/Base.antt =====
-- The names that the other modules share: the libraries', passed on, and those of the children.
mod Tests
mod Lists
mod Text
mod Int
mod Collections
mod Reorder
pub use Tests.*
pub use Lists.*
unfoldable pub use Text.{text_length, same_text, starts_with, ends_with, split}
pub use Text.{codes, is_upper, to_lower}
pub use Int.*
pub use Reorder.{every-perm, any-perm, count-perm, length-perm}
pub use mathlib.Core.List.{Perm, Permᴰ}
pub use mathlib.Core.Logic.{∥∥₁_elim}
unfoldable pub use Collections.{map_get, map_set, map_from, map_keys, includes, set_from}
pub use Collections.{
  Distinct, Unique, set_from-Distinct, includes-set_from, map_get-map_set,
  includes-map_keys-map_set, All-set_from, includes-cons, includes_self, includes-append,
  includes-union, includes-keys, includes-map_keys,
}
pub use Prim.Native.Nat.{ℕ, zero, suc, ◌+◌, ◌-◌, ◌*◌, ◌/◌, ◌%◌, ◌^◌, ◌≤◌, ◌<◌, min, max}
pub use Prim.Native.String.{String}
pub use mathlib.Core.Path.{◌≡◌, refl, sym, ap, ◌∙◌, subst}
pub use mathlib.Core.Logic.{◌≢◌, ◌↔◌, ◌⊎◌, inl, inr}
pub use mathlib.Core.Bool.{Bool, true, false, not, ◌&&◌, ◌||◌}
pub use mathlib.Core.Option.{Option, none, some}
pub use mathlib.Core.List.{List, [], ◌∷◌, ◌++◌, map}
pub use native.Mathlib.Omega.{arith}
pub use text.Mathlib.Text.{◌==◌ as ◌=ₛ◌}
pub use text.Mathlib.TextEquality.{eq_iff}
pub use text.Mathlib.TextPositions.{eq_refl}
