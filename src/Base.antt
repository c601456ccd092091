-- ===== src/Base.antt =====
-- The names that the other modules share: the libraries', passed on, and those of the children.
mod Tests
mod Int
mod Text
mod Affixes
mod Lists
mod Spaces
mod Dict
mod Sort
pub use Tests.*
unfoldable pub use Int.*
unfoldable pub use Text.*
pub use Affixes.*
unfoldable pub use Lists.*
unfoldable pub use Spaces.*
unfoldable pub use Dict.{GoMap, lookup, insert, delete, values, Distinct}
pub use Dict.{
  lookup-insert, lookup-delete, insert-Distinct, delete-Distinct, map_laws, lookup_of_Memᴰ,
  Memᴰ_of_lookup,
}
unfoldable pub use Sort.{insert_sorted, insertion_sort}
pub use Sort.{
  IsOrdered, NoneLess, NoRepeat, IsAscending, insertion_sort-IsOrdered, insertion_sort-perm,
  Memᴰ-insertion_sort, insertion_sort-NoRepeat, IsAscending-of, ascending_unique,
}
pub use Prim.Native.Nat.{ℕ, zero, suc, ◌+◌, ◌-◌, ◌*◌, ◌/◌, ◌%◌, ◌≤◌, ◌<◌}
pub use Prim.Native.Char.{Char, code}
pub use Prim.Native.String.{String}
pub use mathlib.Core.Path.{◌≡◌, refl, sym, ap, subst, ◌∙◌}
pub use mathlib.Core.Logic.{◌≢◌, ◌↔◌, ◌⊎◌, inl, inr}
pub use mathlib.Core.Bool.{Bool, true, false, not, ◌&&◌, ◌||◌}
pub use mathlib.Core.Option.{Option, none, some}
pub use mathlib.Core.List.{List, [], ◌∷◌, ◌++◌, map, Perm, Memᴰ, append-nil}
pub use native.Mathlib.Omega.{arith}
pub use text.Mathlib.TextEquality.{eq_iff}
pub use text.Mathlib.TextPositions.{eq_refl}
pub use text.Mathlib.TextLemmas.{append_assoc}
